-- ===== src/Tests/Window.antt =====
-- A window that is asked to open.
use os_domotics.Commands.{max_request_size, max_response_arguments, max_response_size}
use os_domotics.Messages.{Request, Response, format_request, parse_response}
use os_domotics.Messages.Responses.{IsSendable, received}
use os_domotics.Prelude.{arith, false, length, pos, refl, replicate, true, ◌≡◌}
use os_domotics.ReturnCodes.{ok}
use os_domotics.Tests.Utils.{working}
use os_domotics.Utils.{got}
use os_domotics.Window.{Window, dispatch, execute_command}
use os_domotics.Window.Answers.{IsWindow, Sends, window_answers}
use os_domotics.Window.Switch.{IsMoved, dispatch-IsMoved}

abbrev open_it : Request
open_it = record { destination = 7; command_code = 0b0010101; argument = 0 }

abbrev window : Window
window = record {
  id = 7;
  state = 0;
  parent_id = 0;
  last_opened = 60;
  last_closed = 120;
  rcv_requests_fd = pos 3;
  snd_responses_fd = pos 4;
  force_exit = false;
  request = open_it;
  response = record {
    source = 7;
    command_code = 0;
    response_code = ok;
    arguments = replicate max_response_arguments 0;
    arguments_size = 0;
  };
  buffer_write = replicate max_response_size 0;
}

dispatch-IsMoved_example :
    IsMoved working window true false (dispatch working window)
    × ((dispatch working window).force_exit ≡ false)
    × ((dispatch working window).response.response_code ≡ ok)
dispatch-IsMoved_example = dispatch-IsMoved working window (omega arith)

window-IsWindow : IsWindow window
window-IsWindow = record {
  state = omega arith;
  request = record {
    destination = omega arith;
    command_code = omega arith;
    argument = omega arith;
  };
  response = record {
    source = omega arith;
    command_code = omega arith;
    response_code = omega arith;
    cells = refl;
    arguments_size = omega arith;
    arguments = ground arith;
  };
  buffer = refl;
}

window_answers_example :
    let (u, code, effects) =
      execute_command working
        (got 24 (format_request open_it (replicate max_request_size 0) max_request_size).0)
        window in
    IsWindow u
    × Sends working u effects
    × ((old : Response)
        → IsSendable u.response
        → length old.arguments ≡ max_response_arguments
        → parse_response old u.buffer_write max_response_size ≡ (received old u.response, ok))
    × (u.response.response_code ≡ ok → IsSendable u.response)
window_answers_example =
    window_answers working
      (got 24 (format_request open_it (replicate max_request_size 0) max_request_size).0) window
      window-IsWindow
