-- ===== src/Fridge/Autoclose.antt =====
-- The thread that closes the fridge, and the runs of the two threads together.
use os_domotics.Commands.{
  max_response_arguments, max_response_size, position_on, switch, switch_close,
}
use os_domotics.Devices.{state_closed}
use os_domotics.Fridge.{
  Floats, Fridge, default_autoclose_delay, default_fill_percentage, default_thermostat,
  execute_command, set_state,
}
use os_domotics.Messages.{Response, format_response}
use os_domotics.Prelude.{
  List, Option, [], bit_or, if◌then◌else◌, none, not, replicate, some, true, ℕ, ◌++◌, ◌∷◌, ◌≡◌,
}
use os_domotics.ReturnCodes.{
  is_error, ok, unable_to_lock_mutex, unable_to_unlock_mutex, unable_to_write_pipe,
}
use os_domotics.Utils.{Effect, Kernel, Reading, printed, wrote}

-- `autoclose_routine` after its sleep, with its own response and buffer. A write of so few bytes to a pipe
-- writes all of them or fails. The last result is the argument of `handle_shutdown`, if it is called.
module _ {F : Type 0} (floats : Floats F) where
  abbrev pub close_response : Fridge F → Response
  close_response f = record {
    source = f.id;
    command_code = bit_or switch (bit_or switch_close position_on);
    response_code = ok;
    arguments = replicate max_response_arguments 0;
    arguments_size = 0;
  }

  unfoldable pub autoclose_routine : Kernel → Fridge F → Fridge F × List Effect × Option ℕ
  autoclose_routine k f =
      let (closed, _) = set_state floats k state_closed true f in
      let (buffer, code) =
        format_response (close_response f) (replicate max_response_size 0) max_response_size in
      let effects =
        if is_error code
        then printed code ∷ []
        else if k.written f.snd_responses_fd buffer
        then wrote f.snd_responses_fd buffer ∷ []
        else printed unable_to_write_pipe ∷ [] in
      if not k.locked
      then (f, printed unable_to_lock_mutex ∷ [], none)
      else if k.unlocked
      then (closed, effects, none)
      else (closed, effects ++ printed unable_to_unlock_mutex ∷ [], some unable_to_unlock_mutex)

  -- The globals when the process has started, at some time.
  abbrev pub IsStart : Fridge F → Type 0
  IsStart f =
      (f.state ≡ state_closed)
      × (f.autoclose_delay ≡ default_autoclose_delay)
      × (f.fill_percentage ≡ default_fill_percentage)
      × (f.thermostat ≡ default_thermostat)

  -- One of the two threads does its next step. The closing thread may do one at any time: whether it runs
  -- is not followed.
  pub data Step (f : Fridge F) : Fridge F → Type 0 where
    command : (k : Kernel) (reading : Reading) → Step f (execute_command floats k reading f).0
    closing : (k : Kernel) → Step f (autoclose_routine k f).0

  pub data Reachable : Fridge F → Type 0 where
    start : (f : Fridge F) → IsStart f → Reachable f
    step : (f u : Fridge F) → Reachable f → Step f u → Reachable u
