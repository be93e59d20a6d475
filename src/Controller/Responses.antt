-- ===== src/Controller/Responses.antt =====
-- The thread for responses: `output_response`, and one turn of the loop of `responses_routine`.
use os_domotics.Commands.{
  additional_delete_argument, additional_switch_argument, child_id_argument, is_delete, is_info,
  is_link, is_registry, is_switch, link_change_parent, link_subcommand, max_response_size,
  parent_id_argument, position_on, switch_label, switch_open, switch_position, switch_power,
}
use os_domotics.Controller.Check.{Controller}
use os_domotics.Controller.Deletions.{update_with_delete_response}
use os_domotics.Controller.Output.{
  child_error_text, format_info_user_message, format_set_user_message, print_hex, printed_in,
  response_argument, response_status_size, user_message_size,
}
use os_domotics.Controller.Processes.{System}
use os_domotics.Controller.Updates.{update_with_link_response}
use os_domotics.Devices.{format_device_type}
use os_domotics.Messages.{Response, parse_response}
use os_domotics.Prelude.{
  Bool, Bytes, List, Option, [], codes, if◌then◌else◌, none, not, some, true, ℕ, ◌&&◌, ◌++◌, ◌==◌,
  ◌∷◌,
}
use os_domotics.ReturnCodes.{
  is_error, unable_to_lock_mutex, unable_to_read_pipe, unable_to_unlock_mutex,
}
use os_domotics.ReturnCodes.Texts.{error_info, error_type}
use os_domotics.Routing.{Table, find_routing_data}
use os_domotics.Text.{print_unsigned, space}
use os_domotics.Utils.{Effect, Reading, failed, got, printed, shown}

-- `response_status`
abbrev pub response_status : Response → Bytes
response_status r =
    if is_error r.response_code
    then printed_in response_status_size (
        codes "failed, "
        ++ (codes (error_type r.response_code)
            ++ (codes " error: 0x"
                ++ (print_hex r.response_code ++ (space ∷ codes (error_info r.response_code))))))
    else codes "successful"

abbrev pub switch_message : Response → Bytes
switch_message r =
    codes "switch "
    ++ ((if switch_label r.command_code == switch_power
          then codes "power"
          else if switch_label r.command_code == switch_open
          then codes "open"
          else codes "close")
        ++ (space
            ∷ ((if switch_position r.command_code == position_on then codes "on" else codes "off")
                ++ (if r.arguments_size == 1
                    then child_error_text (response_argument r additional_switch_argument)
                    else []))))

abbrev pub delete_message : Response → Bytes
delete_message r =
    codes "delete"
    ++ (if r.arguments_size == 1
        then child_error_text (response_argument r additional_delete_argument)
        else [])

abbrev pub link_message : Response → Bytes
link_message r =
    if link_subcommand r.command_code == link_change_parent
    then codes "change parent to " ++ print_unsigned (response_argument r parent_id_argument)
    else codes "remove child " ++ print_unsigned (response_argument r child_id_argument)

-- `user_message` and `response_status`, for a device of a type.
unfoldable pub response_texts : Response → ℕ → Bytes × Bytes
response_texts r type =
    let code = r.command_code in
    if is_switch code
    then (printed_in user_message_size (switch_message r), response_status r)
    else if is_info code
    then (if is_error r.response_code
        then (codes "info", response_status r)
        else (format_info_user_message r type, []))
    else if is_delete code
    then (printed_in user_message_size (delete_message r), response_status r)
    else if is_link code
    then (printed_in user_message_size (link_message r), response_status r)
    else if is_registry code
    then (format_set_user_message r, response_status r)
    else (codes "unknown command", response_status r)

unfoldable pub output_response : Table → Response → Effect
unfolding response_texts
output_response t r = elim (find_routing_data t r.source) [
  | none ↦ shown (codes "Response from unknown device with source ID: " ++ print_unsigned r.source)
  | some source ↦
      let (user_message, status) = response_texts r source.type in
      shown (
        codes "> "
        ++ (format_device_type source.type
            ++ (codes " with ID "
                ++ (print_unsigned source.id ++ (codes ": " ++ (user_message ++ space ∷ status))))))
]

-- The error of an update is printed.
abbrev pub complaint : ℕ → List Effect
complaint code = if is_error code then printed code ∷ [] else []

abbrev pub succeeded : Response → Bool
succeeded r = not (is_error r.response_code)

abbrev pub link_update : ℕ → System → Response → Controller → Option (Controller × List Effect)
link_update fuel s r c =
    let updated : Option (Controller × List Effect) = elim (update_with_link_response fuel s r c) [
      | none ↦ none
      | some (c', code, effects) ↦ some (c', effects ++ complaint code)
    ] in
    if succeeded r && is_link r.command_code then updated else some (c, [])

abbrev pub delete_update : ℕ → System → Response → Controller → Option (Controller × List Effect)
delete_update fuel s r c =
    let updated : Option (Controller × List Effect) =
      elim (update_with_delete_response fuel s r c) [
        | none ↦ none
        | some (c', code, effects) ↦ some (c', effects ++ complaint code)
      ] in
    if succeeded r && is_delete r.command_code then updated else some (c, [])

-- A response that was parsed, with the mutex locked: the links first, then the output, then the deletion.
unfoldable pub process_response :
    ℕ → System → Response → Controller → Option (Controller × List Effect)
unfolding output_response
process_response fuel s r c = elim (link_update fuel s r c) [
  | none ↦ none
  | some (c', effects) ↦
      let line = output_response c'.routing_table r in
      elim (delete_update fuel s r c') [
        | none ↦ none
        | some (c'', more) ↦
            if s.kernel.unlocked
            then some (c'', effects ++ line ∷ more)
            else some (
              record c'' { force_exit = true },
              effects ++ line ∷ (more ++ printed unable_to_unlock_mutex ∷ []),
            )
      ]
]

-- One turn of the loop, from what the read gives.
unfoldable pub responses_turn :
    ℕ → System → Reading → Controller → Option (Controller × List Effect)
unfolding process_response
responses_turn fuel s failed c =
    some (record c { force_exit = true }, printed unable_to_read_pipe ∷ [])
responses_turn fuel s (got n buffer) c =
    let (r, code) = parse_response c.response buffer max_response_size in
    let c' = record c { response = r } in
    let processed = process_response fuel s r c' in
    if not (n == max_response_size)
    then some (record c { force_exit = true }, printed unable_to_read_pipe ∷ [])
    else if is_error code
    then some (c', printed code ∷ [])
    else if not s.kernel.locked
    then some (c', printed unable_to_lock_mutex ∷ [])
    else processed

-- The loop, on the results of its reads: it ends when the exit is forced. The reads that are left are those
-- after the thread.
unfoldable pub responses_routine :
    ℕ → System → List Reading → Controller → Option (Controller × List Effect)
unfolding responses_turn
responses_routine fuel s [] c = some (c, [])
responses_routine fuel s (reading ∷ readings) c =
    let turned : Option (Controller × List Effect) = elim (responses_turn fuel s reading c) [
      | none ↦ none
      | some (c', effects) ↦ elim (responses_routine fuel s readings c') [
        | none ↦ none
        | some (c'', more) ↦ some (c'', effects ++ more)
      ]
    ] in
    if c.force_exit then some (c, []) else turned
