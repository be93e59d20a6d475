-- ===== src/Utils/Pipes.antt =====
-- The pipe to the parent: its errors fit in the code of a response.
use os_domotics.Prelude.{arith, ℕ, ℤ, ◌<◌}
use os_domotics.Utils.{Kernel, change_snd_responses_pipe}

pub change_snd_responses_pipe-code :
    (k : Kernel) (parent : ℕ) (old : ℤ) → (change_snd_responses_pipe k parent old).1 < 256
unfolding change_snd_responses_pipe
change_snd_responses_pipe-code k parent old = ground arith
