-- ===== src/Tests/Fridge.antt =====
-- A fridge, with whole numbers for the temperatures.
use os_domotics.Commands.{max_response_arguments, max_response_size, registry, registry_delay}
use os_domotics.Devices.{state_closed}
use os_domotics.Fridge.{
  Floats, Fridge, default_autoclose_delay, default_fill_percentage, default_thermostat, dispatch,
}
use os_domotics.Fridge.Autoclose.{Reachable, Step, autoclose_routine}
use os_domotics.Fridge.Bounds.{InBounds, Reachable-InBounds}
use os_domotics.Fridge.Registry.{IsRegistered, autoclose-closes, dispatch-IsRegistered}
use os_domotics.Prelude.{
  arith, bit_or, false, int_less, int_minus, int_u16, none, pos, refl, replicate, ℤ, ◌≡◌,
}
use os_domotics.ReturnCodes.{ok}
use os_domotics.Tests.Utils.{working}

abbrev whole : Floats ℤ
whole = record {
  of_int = λ z. z;
  plus = λ a b. int_minus a (int_minus (pos 0) b);
  minus = λ a b. int_minus a b;
  times = λ a b. a;
  over = λ a b. a;
  less = λ a b. int_less a b;
  to_int = λ z. z;
  to_word = λ z. int_u16 z;
}

abbrev fridge : Fridge ℤ
fridge = record {
  id = 6;
  state = state_closed;
  autoclose_delay = default_autoclose_delay;
  fill_percentage = default_fill_percentage;
  thermostat = default_thermostat;
  parent_id = 0;
  last_opened = 100;
  last_closed = 100;
  last_thermostat_set = 100;
  last_temperature = pos 4;
  rcv_requests_fd = pos 3;
  snd_responses_fd = pos 4;
  force_exit = false;
  response_buffer = replicate max_response_size 0;
  request = record { destination = 6; command_code = bit_or registry registry_delay; argument = 4 };
  response = record {
    source = 6;
    command_code = 0;
    response_code = ok;
    arguments = replicate max_response_arguments 0;
    arguments_size = 0;
  };
}

Reachable-InBounds_example : InBounds whole (autoclose_routine whole working fridge).0
Reachable-InBounds_example = Reachable-InBounds whole (autoclose_routine whole working fridge).0 (
    Reachable.step fridge _ (Reachable.start fridge (refl, refl, refl, refl))
      (Step.closing working))

dispatch-IsRegistered_example :
    IsRegistered whole registry_delay 4 fridge (dispatch whole working fridge)
dispatch-IsRegistered_example = dispatch-IsRegistered whole working fridge refl

autoclose-closes_example :
    let (u, effects, exit) = autoclose_routine whole working fridge in
    (u.state ≡ state_closed)
    × (u.last_closed ≡ 100)
    × (u.autoclose_delay ≡ 30)
    × (u.thermostat ≡ 4)
    × (u.fill_percentage ≡ 0)
    × (exit ≡ none)
autoclose-closes_example = autoclose-closes whole working fridge (omega arith) refl
