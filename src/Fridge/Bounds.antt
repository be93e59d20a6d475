-- ===== src/Fridge/Bounds.antt =====
-- The bounds of the registers of a fridge.
use os_domotics.Devices.{
  max_delay, max_fill_percentage, max_thermostat, min_delay, min_thermostat, state_closed,
  state_open,
}
use os_domotics.Fridge.{
  Floats, Fridge, create_info_response, create_link_response, create_registry_response,
  create_switch_response, dispatch, execute_command, process, read_pipe, set_registry, set_state,
  write_pipe,
}
use os_domotics.Fridge.Autoclose.{Reachable, Step, autoclose_routine}
use os_domotics.Prelude.{Bool, arith, false, true, ℕ, ◌≤◌}
use os_domotics.ReturnCodes.{ok}
use os_domotics.Utils.{Kernel, Reading, failed, got}

module _ {F : Type 0} (floats : Floats F) where
  pub record InBounds (f : Fridge F) : Type 0 where
    pub state : f.state ≤ 1
    pub shortest : min_delay ≤ f.autoclose_delay
    pub longest : f.autoclose_delay ≤ max_delay
    pub fill_percentage : f.fill_percentage ≤ max_fill_percentage
    pub coldest : min_thermostat ≤ f.thermostat
    pub warmest : f.thermostat ≤ max_thermostat

  set_state-InBounds :
      (k : Kernel) (state : ℕ) (automatic : Bool) (f : Fridge F)
      → state ≤ 1
      → InBounds f
      → InBounds (set_state floats k state automatic f).0
  unfolding set_state
  set_state-InBounds k state automatic f h v = ground arith

  create_info_response-InBounds :
      (k : Kernel) (f : Fridge F) → InBounds f → InBounds (create_info_response floats k f)
  unfolding create_info_response
  create_info_response-InBounds k f v = ground arith

  create_link_response-InBounds :
      (k : Kernel) (f : Fridge F) → InBounds f → InBounds (create_link_response floats k f)
  unfolding create_link_response
  create_link_response-InBounds k f v = ground arith

  set_registry-InBounds :
      (k : Kernel) (subcommand value : ℕ) (f : Fridge F)
      → InBounds f
      → InBounds (set_registry floats k subcommand value f)
  unfolding set_registry
  set_registry-InBounds k subcommand value f v = ground arith

  create_registry_response-InBounds :
      (k : Kernel) (f : Fridge F) → InBounds f → InBounds (create_registry_response floats k f)
  unfolding create_registry_response
  create_registry_response-InBounds k f v = set_registry-InBounds k _ _ _ (ground arith)

  create_switch_response-InBounds :
      (k : Kernel) (f : Fridge F) → InBounds f → InBounds (create_switch_response floats k f)
  unfolding create_switch_response
  create_switch_response-InBounds k f v =
      let opened = set_state-InBounds k state_open false f (omega arith) v in
      let closed = set_state-InBounds k state_closed false f (omega arith) v in ground arith

  dispatch-InBounds : (k : Kernel) (f : Fridge F) → InBounds f → InBounds (dispatch floats k f)
  unfolding dispatch
  dispatch-InBounds k f v =
      let info = create_info_response-InBounds k f v in
      let link = create_link_response-InBounds k f v in
      let registry = create_registry_response-InBounds k f v in
      let switch = create_switch_response-InBounds k f v in ground arith

  read_pipe-InBounds :
      (reading : Reading) (f : Fridge F) → InBounds f → InBounds (read_pipe floats reading f).0
  unfolding read_pipe
  read_pipe-InBounds failed f v = v
  read_pipe-InBounds (got size buffer) f v = ground arith

  process-InBounds :
      (k : Kernel) (f : Fridge F) (code : ℕ) → InBounds f → InBounds (process floats k f code).0
  unfolding process
  process-InBounds k f code v =
      let served = dispatch-InBounds k (record f {
        response = record f.response { command_code = f.request.command_code; response_code = ok };
      }) in
      ground arith

  write_pipe-InBounds :
      (k : Kernel) (f : Fridge F) → InBounds f → InBounds (write_pipe floats k f).0
  unfolding write_pipe
  write_pipe-InBounds k f v = ground arith

  execute_command-InBounds :
      (k : Kernel) (reading : Reading) (f : Fridge F)
      → InBounds f
      → InBounds (execute_command floats k reading f).0
  unfolding execute_command
  execute_command-InBounds k reading f v =
      let f' = record f { response = record f.response { arguments_size = 0 } } in
      let v' : InBounds f' = ground arith in
      let (f'', code) = read_pipe floats reading f' in
      write_pipe-InBounds k (process floats k f'' code).0
        (process-InBounds k f'' code (read_pipe-InBounds reading f' v'))

  autoclose-InBounds :
      (k : Kernel) (f : Fridge F) → InBounds f → InBounds (autoclose_routine floats k f).0
  unfolding autoclose_routine
  autoclose-InBounds k f v =
      let closed = set_state-InBounds k state_closed true f (omega arith) v in ground arith

  -- However the two threads of a started fridge take turns, whatever they read and whatever the system
  -- answers, the state is open or closed, and the delay, the filling and the thermostat are within the
  -- limits of code/src/headers/devices.h.
  pub Reachable-InBounds : (f : Fridge F) → Reachable floats f → InBounds f
  Reachable-InBounds f (Reachable.start _ (closed, delay, fill, cold)) = record {
    state = omega arith;
    shortest = omega arith;
    longest = omega arith;
    fill_percentage = omega arith;
    coldest = omega arith;
    warmest = omega arith;
  }
  Reachable-InBounds f (Reachable.step g _ r (Step.command k reading)) =
      execute_command-InBounds k reading g (Reachable-InBounds g r)
  Reachable-InBounds f (Reachable.step g _ r (Step.closing k)) =
      autoclose-InBounds k g (Reachable-InBounds g r)
