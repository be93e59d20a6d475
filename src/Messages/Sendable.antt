-- ===== src/Messages/Sendable.antt =====
-- Which responses have the arguments that their command announces, and so are read back by a parser.
use os_domotics.Commands.{is_delete, is_info, is_link, is_registry, is_switch}
use os_domotics.Commands.Kinds.{info_announced, switch_unannounced}
use os_domotics.Messages.{Response}
use os_domotics.Messages.Responses.{IsSendable}
use os_domotics.Prelude.{arith, false, true, ◌<◌, ◌||◌, ◌≡◌, ◌≤◌}
use os_domotics.ReturnCodes.{is_error}
use os_domotics.Timer.Mirror.{kind}

-- An answer without an error to a command that announces arguments, with two of them.
pub filled-IsSendable :
    (r : Response)
    → r.command_code < 256
    → (is_info r.command_code || (is_link r.command_code || is_registry r.command_code)) ≡ true
    → is_error r.response_code ≡ false
    → 2 ≤ r.arguments_size
    → IsSendable r
filled-IsSendable r h kind fine two =
    let full = info_announced r.command_code h kind in
    record {
      announced = λ _. omega (arith, two);
      unannounced = λ no _. ground (arith, full, fine, no);
      info = λ _ _. two;
    }

-- An answer to a command that announces no arguments, and may have some.
pub bare-IsSendable :
    (r : Response)
    → r.command_code < 256
    → (is_switch r.command_code || is_delete r.command_code) ≡ true
    → IsSendable r
bare-IsSendable r h kind =
    let bare = switch_unannounced r.command_code h kind in
    record {
      announced = λ yes. ground (arith, bare, yes);
      unannounced = λ _ no. ground (arith, kind, no);
      info = λ asked _. ground (arith, kind, asked);
    }
