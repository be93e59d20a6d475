-- ===== src/Tests/Utils.antt =====
-- Times, names and pipes at concrete values.
use os_domotics.Prelude.{arith, false, negsuc, pos, refl, replicate, true, ℕ, ◌≡◌}
use os_domotics.ReturnCodes.{ok}
use os_domotics.Text.{c_string}
use os_domotics.Utils.{
  Kernel, create_fifo_name, direction_down, direction_up, fifo_text, format_time, parse_time,
  pipe_name_max_length, time_size,
}
use os_domotics.Utils.Names.{create_fifo_name-fits, fifo_text-injective}
use os_domotics.Utils.Times.{parse_time-format_time}

-- A system where nothing can be opened, and one where everything succeeds.
abbrev pub broken : Kernel
broken = record {
  opened = λ _. negsuc 0;
  closed = λ _. false;
  written = λ _ _. false;
  removed = λ _. false;
  now = 0;
  locked = false;
  unlocked = false;
  allocated = false;
  created = false;
  cancelled = false;
}

abbrev pub working : Kernel
working = record {
  opened = λ _. pos 9;
  closed = λ _. true;
  written = λ _ _. true;
  removed = λ _. true;
  now = 600;
  locked = true;
  unlocked = true;
  allocated = true;
  created = true;
  cancelled = true;
}

parse_time-format_time_example :
    parse_time (c_string (format_time (replicate time_size 0) 485)) ≡ pos 485
parse_time-format_time_example =
    parse_time-format_time 485 (replicate time_size 0) (omega arith) refl

create_fifo_name-fits_example :
    ((create_fifo_name 65535 direction_down
        (replicate pipe_name_max_length 0)
        pipe_name_max_length).1
      ≡ ok)
    × (c_string
          (create_fifo_name 65535 direction_down
            (replicate pipe_name_max_length 0)
            pipe_name_max_length).0
        ≡ fifo_text 65535 direction_down)
create_fifo_name-fits_example =
    create_fifo_name-fits 65535 direction_down (replicate pipe_name_max_length 0) (omega arith) refl

fifo_text-injective_example : let n : ℕ = 12 in (n ≡ n) × (direction_up ≡ direction_up)
fifo_text-injective_example =
    fifo_text-injective 12 12 direction_up direction_up (omega arith) (omega arith) refl
