-- ===== src/Tests/Bulb.antt =====
-- A bulb that is asked to switch on.
use os_domotics.Bulb.{Bulb, dispatch, execute_command}
use os_domotics.Bulb.Answers.{IsBulb, Sends, execute_command-answers}
use os_domotics.Bulb.Switch.{IsSwitched, dispatch-IsSwitched}
use os_domotics.Commands.{max_request_size, max_response_arguments, max_response_size}
use os_domotics.Messages.{Request, Response, format_request, parse_response}
use os_domotics.Messages.Responses.{IsSendable, received}
use os_domotics.Prelude.{arith, false, length, pos, refl, replicate, true, ◌≡◌}
use os_domotics.ReturnCodes.{ok}
use os_domotics.Tests.Utils.{working}
use os_domotics.Utils.{got}

abbrev switch_on : Request
switch_on = record { destination = 7; command_code = 0b0010011; argument = 0 }

abbrev bulb : Bulb
bulb = record {
  id = 7;
  state = 0;
  parent_id = 0;
  last_turned_on = 60;
  last_turned_off = 120;
  rcv_requests_fd = pos 3;
  snd_responses_fd = pos 4;
  force_exit = false;
  request = switch_on;
  response = record {
    source = 7;
    command_code = 0;
    response_code = ok;
    arguments = replicate max_response_arguments 0;
    arguments_size = 0;
  };
  buffer_write = replicate max_response_size 0;
}

dispatch-IsSwitched_example :
    IsSwitched working bulb true (dispatch working bulb)
    × ((dispatch working bulb).force_exit ≡ false)
dispatch-IsSwitched_example = dispatch-IsSwitched working bulb (omega arith)

bulb-IsBulb : IsBulb bulb
bulb-IsBulb = record {
  state = omega arith;
  request = record {
    destination = omega arith;
    command_code = omega arith;
    argument = omega arith;
  };
  response = record {
    source = omega arith;
    command_code = omega arith;
    response_code = omega arith;
    cells = refl;
    arguments_size = omega arith;
    arguments = ground arith;
  };
  buffer = refl;
}

execute_command-answers_example :
    let (u, code, effects) =
      execute_command working
        (got 24 (format_request switch_on (replicate max_request_size 0) max_request_size).0)
        bulb in
    IsBulb u
    × Sends working u effects
    × ((old : Response)
        → IsSendable u.response
        → length old.arguments ≡ max_response_arguments
        → parse_response old u.buffer_write max_response_size ≡ (received old u.response, ok))
    × (u.response.response_code ≡ ok → IsSendable u.response)
execute_command-answers_example =
    execute_command-answers working
      (got 24 (format_request switch_on (replicate max_request_size 0) max_request_size).0) bulb
      bulb-IsBulb
