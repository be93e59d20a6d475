-- ===== src/Fridge/Registry.antt =====
-- What the commands for a fridge do to its data.
use os_domotics.Commands.{
  is_registry, registry_argument, registry_delay, registry_percentage, registry_subcommand,
  registry_thermostat,
}
use os_domotics.Devices.{state_closed, state_open}
use os_domotics.Fridge.{Floats, Fridge, create_registry_response, dispatch, set_registry, set_state}
use os_domotics.Fridge.Autoclose.{autoclose_routine}
use os_domotics.Prelude.{
  Bool, arith, false, if◌then◌else◌, leb, none, set, some, true, ℕ, ◌&&◌, ◌==◌, ◌||◌, ◌≡◌, ◌≤◌,
}
use os_domotics.ReturnCodes.{
  invalid_request_argument, ok, unable_to_unlock_mutex, unexpected_command,
}
use os_domotics.Utils.{Kernel}

-- The values that a register takes; nothing else is a register of a fridge.
abbrev pub is_register : ℕ → Bool
is_register subcommand =
    subcommand == registry_delay
    || (subcommand == registry_thermostat || subcommand == registry_percentage)

abbrev pub takes : ℕ → ℕ → Bool
takes subcommand value =
    subcommand == registry_delay && (leb 5 value && leb value 180)
    || (subcommand == registry_thermostat && (leb 2 value && leb value 6)
        || subcommand == registry_percentage && leb value 100)

module _ {F : Type 0} (floats : Floats F) where
  -- The register is set, and nothing else is, if it takes the value.
  pub record IsRegistered (subcommand value : ℕ) (f u : Fridge F) : Type 0 where
    pub delay : u.autoclose_delay ≡ (
        if takes subcommand value && subcommand == registry_delay then value else f.autoclose_delay)
    pub thermostat : u.thermostat ≡ (
        if takes subcommand value && subcommand == registry_thermostat then value else f.thermostat)
    pub fill_percentage : u.fill_percentage ≡ (
        if takes subcommand value && subcommand == registry_percentage
        then value
        else f.fill_percentage)
    pub state : u.state ≡ f.state
    pub force_exit : u.force_exit ≡ f.force_exit
    pub code : u.response.response_code ≡ (
        if takes subcommand value
        then f.response.response_code
        else if is_register subcommand
        then invalid_request_argument
        else unexpected_command)

  set_registry-IsRegistered :
      (k : Kernel) (subcommand value : ℕ) (f : Fridge F)
      → IsRegistered subcommand value f (set_registry floats k subcommand value f)
  unfolding set_registry
  set_registry-IsRegistered k subcommand value f = ground arith

  -- A registry command for a fridge sets the register that it names, and no other, if the value is within
  -- the limits of that register; otherwise it sets none, and is answered with `INVALID_REQUEST_ARGUMENT`,
  -- or with `UNEXPECTED_COMMAND` if a fridge has no such register. The state stays.
  pub dispatch-IsRegistered :
      (k : Kernel) (f : Fridge F)
      → is_registry f.request.command_code ≡ true
      → IsRegistered
          (registry_subcommand f.request.command_code)
          f.request.argument
          f
          (dispatch floats k f)
  unfolding dispatch create_registry_response
  dispatch-IsRegistered k f h =
      let set =
        set_registry-IsRegistered k (registry_subcommand f.request.command_code) f.request.argument
          (record f {
            response = record f.response {
              arguments = set f.response.arguments registry_argument f.request.argument;
              arguments_size = 1;
            };
          }) in
      ground arith

  -- When the closing thread has the mutex, it leaves the fridge closed, with the time of closing if it was
  -- open, and with its registers as they were.
  pub autoclose-closes :
      (k : Kernel) (f : Fridge F)
      → f.state ≤ 1
      → k.locked ≡ true
      → let (u, effects, exit) = autoclose_routine floats k f in
        (u.state ≡ state_closed)
        × (u.last_closed ≡ (if f.state == state_open then k.now else f.last_closed))
        × (u.autoclose_delay ≡ f.autoclose_delay)
        × (u.thermostat ≡ f.thermostat)
        × (u.fill_percentage ≡ f.fill_percentage)
        × (exit ≡ (if k.unlocked then none else some unable_to_unlock_mutex))
  unfolding autoclose_routine set_state
  autoclose-closes k f h locked = ground arith

  -- A change of the state by a command gives the new state with `OK`, and leaves the old one with an error:
  -- the state always tells whether the closing thread was started or cancelled.
  pub set_state-code :
      (k : Kernel) (state : ℕ) (f : Fridge F)
      → f.state ≤ 1
      → state ≤ 1
      → let (u, code) = set_state floats k state false f in
        u.state ≡ (if code == ok then state else f.state)
  unfolding set_state
  set_state-code k state f h j = ground arith
