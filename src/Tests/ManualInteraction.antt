-- ===== src/Tests/ManualInteraction.antt =====
-- Manual commands for a timer with a bulb.
use os_domotics.Controller.Check
use os_domotics.Commands.{position_on, registry, registry_begin, switch, switch_power}
use os_domotics.Controller.{UserCommand, set_command, switch_command}
use os_domotics.ManualInteraction.{check_user_command}
use os_domotics.ManualInteraction.Agreement.{check_user_command-registry, check_user_command-switch}
use os_domotics.Prelude.{bit_or, refl, some, ◌≡◌}
use os_domotics.Tests.Routing.{find_timer, timer}
use os_domotics.Tests.Sessions.{controller}
use os_domotics.Tests.Utils.{working}

abbrev by_hand : UserCommand
by_hand = record {
  target = 17;
  code = switch_command;
  message_code = bit_or switch (bit_or switch_power position_on);
  argument = 0;
}

abbrev begin_by_hand : UserCommand
begin_by_hand = record {
  target = 17;
  code = set_command;
  message_code = bit_or registry registry_begin;
  argument = 480;
}

-- The controller of `Sessions` knows the timer 17.
check_user_command-switch_example :
    Check.check_user_command 12 working controller by_hand
    ≡ some (controller, check_user_command by_hand 13)
check_user_command-switch_example =
    check_user_command-switch 12 working controller by_hand timer refl refl refl refl refl
      find_timer refl

check_user_command-registry_example :
    Check.check_user_command 12 working controller begin_by_hand
    ≡ some (controller, check_user_command begin_by_hand 13)
check_user_command-registry_example =
    check_user_command-registry 12 working controller begin_by_hand timer refl refl refl refl refl
      refl find_timer
