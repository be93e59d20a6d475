-- ===== src/Tests/Messages.antt =====
-- Requests and responses at concrete values.
use os_domotics.Commands.{info, link, max_request_size, max_response_size}
use os_domotics.Messages.{
  Request, Response, format_request, format_response, parse_request, parse_response,
}
use os_domotics.Messages.Requests.{parse_request-format_request, received_request}
use os_domotics.Messages.Responses.{
  IsResponse, IsSendable, parse_response-format_response, parse_response-unannounced, received,
}
use os_domotics.Prelude.{Bytes, [], arith, refl, replicate, ◌∷◌, ◌≡◌}
use os_domotics.ReturnCodes.{child_not_found, ok, response_format_error}

-- Switch the bulb 7 on.
abbrev switch_on : Request
switch_on = record { destination = 7; command_code = 0b0010011; argument = 0 }

abbrev empty_request : Bytes
empty_request = replicate max_request_size 0

abbrev empty_response : Bytes
empty_response = replicate max_response_size 0

parse_request-format_request_example :
    ((format_request switch_on empty_request max_request_size).1 ≡ ok)
    × (parse_request switch_on
          (format_request switch_on empty_request max_request_size).0
          max_request_size
        ≡ (received_request switch_on switch_on, ok))
parse_request-format_request_example =
    parse_request-format_request switch_on switch_on empty_request
      (record { destination = omega arith; command_code = omega arith; argument = omega arith })
      refl

-- The bulb 7 is on since three minutes.
abbrev bulb_info : Response
bulb_info = record {
  source = 7;
  command_code = info;
  response_code = ok;
  arguments = 1 ∷ 3 ∷ 0 ∷ 0 ∷ 0 ∷ 0 ∷ [];
  arguments_size = 2;
}

-- The hub 2 does not know the child it should remove.
abbrev no_child : Response
no_child = record {
  source = 2;
  command_code = link;
  response_code = child_not_found;
  arguments = 9 ∷ 0 ∷ 0 ∷ 0 ∷ 0 ∷ 0 ∷ [];
  arguments_size = 0;
}

bulb_info-IsResponse : IsResponse bulb_info
bulb_info-IsResponse = record {
  source = omega arith;
  command_code = omega arith;
  response_code = omega arith;
  cells = refl;
  arguments_size = omega arith;
  arguments = ground arith;
}

no_child-IsResponse : IsResponse no_child
no_child-IsResponse = record {
  source = omega arith;
  command_code = omega arith;
  response_code = omega arith;
  cells = refl;
  arguments_size = omega arith;
  arguments = ground arith;
}

bulb_info-IsSendable : IsSendable bulb_info
bulb_info-IsSendable = record {
  announced = λ _. omega arith;
  unannounced = λ e _. ground arith;
  info = λ _ _. omega arith;
}

parse_response-format_response_example :
    ((format_response bulb_info empty_response max_response_size).1 ≡ ok)
    × (parse_response no_child
          (format_response bulb_info empty_response max_response_size).0
          max_response_size
        ≡ (received no_child bulb_info, ok))
parse_response-format_response_example =
    parse_response-format_response no_child bulb_info empty_response bulb_info-IsResponse
      bulb_info-IsSendable refl refl

parse_response-unannounced_example :
    ((format_response no_child empty_response max_response_size).1 ≡ ok)
    × ((parse_response bulb_info
          (format_response no_child empty_response max_response_size).0
          max_response_size).1
        ≡ response_format_error)
parse_response-unannounced_example =
    parse_response-unannounced bulb_info no_child empty_response no_child-IsResponse refl refl refl
