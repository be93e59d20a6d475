-- ===== src/Bulb.antt =====
-- The bulb: code/src/bulb.c. Its globals are a record; a step reads one request and answers it. The bytes
-- of `buffer_read` are the argument of a step, and `simulate_processing_time` only waits.
pub mod Answers
pub mod Switch
use os_domotics.Commands.{
  device_type_argument, is_delete, is_info, is_link, is_switch, link_change_parent, link_subcommand,
  max_request_size, max_response_size, null_command, on_time_argument, parent_id_argument,
  position_off, position_on, state_argument, switch_label, switch_position, switch_power,
}
use os_domotics.Devices.{bulb_device, state_off, state_on}
use os_domotics.Messages.{Request, Response, format_response, parse_request}
use os_domotics.Prelude.{
  Bool, Bytes, List, [], if◌then◌else◌, int_div, int_sub, int_u16, none, not, set, true, u16, ℕ, ℤ,
  ◌++◌, ◌==◌, ◌∷◌,
}
use os_domotics.ReturnCodes.{
  destination_id_mismatch, is_error, ok, unable_to_read_pipe, unable_to_write_pipe,
  unexpected_command, unexpected_end_of_file,
}
use os_domotics.Utils.{
  Effect, Kernel, Reading, change_snd_responses_pipe, end_device_fifos, failed, got, printed, wrote,
}

pub record Bulb : Type 0 where
  pub id : ℕ
  pub state : ℕ
  pub parent_id : ℕ
  pub last_turned_on : ℕ
  pub last_turned_off : ℕ
  pub rcv_requests_fd : ℤ
  pub snd_responses_fd : ℤ
  pub force_exit : Bool
  pub request : Request
  pub response : Response
  pub buffer_write : Bytes

abbrev pub max_bulb_arguments : ℕ
max_bulb_arguments = 2

unfoldable pub read_pipe : Reading → Bulb → Bulb × ℕ
read_pipe failed b = (b, unable_to_read_pipe)
read_pipe (got size buffer) b =
    if size == 0
    then (record b { force_exit = true }, unexpected_end_of_file)
    else if not (size == max_request_size)
    then (b, unable_to_read_pipe)
    else let (r, code) = parse_request b.request buffer max_request_size in
      (record b { request = r }, code)

unfoldable pub write_pipe : Kernel → Bulb → Bulb × List Effect
write_pipe k b =
    let (buffer, code) = format_response b.response b.buffer_write max_response_size in
    (
      record b { buffer_write = buffer },
      if is_error code
          then printed code ∷ []
          else if k.written b.snd_responses_fd buffer
          then wrote b.snd_responses_fd buffer ∷ []
          else printed unable_to_write_pipe ∷ [],
    )

-- `response.response_code = code`
abbrev pub respond : ℕ → Bulb → Bulb
respond code b = record b { response = record b.response { response_code = code } }

-- The minutes of `(state == STATE_OFF ? LAST_SECONDS_ON : CURRENT_SECONDS_ON) / 60`, stored in 16 bits.
abbrev pub minutes_on : Kernel → Bulb → ℕ
minutes_on k b = int_u16 (
    int_div
      (if b.state == state_off
        then int_sub b.last_turned_off b.last_turned_on
        else int_sub k.now b.last_turned_on)
      60)

unfoldable pub create_info_response : Kernel → Bulb → Bulb
create_info_response k b =
    let arguments =
      set (set b.response.arguments state_argument (u16 b.state)) on_time_argument
        (minutes_on k b) in
    record b {
      response = record b.response { arguments = arguments; arguments_size = max_bulb_arguments };
    }

-- The test on the old parent, and the pipe to the new one.
abbrev pub change_parent : Kernel → ℕ → Bulb → Bulb
change_parent k parent b =
    if b.parent_id == parent
    then b
    else let (fd, code) = change_snd_responses_pipe k parent b.snd_responses_fd in
      record b {
        snd_responses_fd = fd;
        response = record b.response { response_code = code };
        parent_id = if code == ok then parent else b.parent_id;
      }

unfoldable pub create_link_response : Kernel → Bulb → Bulb
create_link_response k b =
    if link_subcommand b.request.command_code == link_change_parent
    then change_parent k b.request.argument (record b {
      response = record b.response {
        arguments =
            set (set b.response.arguments parent_id_argument (u16 b.request.argument))
              device_type_argument bulb_device;
        arguments_size = 2;
      };
    })
    else respond unexpected_command b

unfoldable pub create_switch_response : Kernel → Bulb → Bulb
create_switch_response k b =
    let code = b.request.command_code in
    if switch_label code == switch_power
    then if switch_position code == position_on
      then if b.state == state_on then b else record b { state = state_on; last_turned_on = k.now }
      else if switch_position code == position_off
      then if b.state == state_off
        then b
        else record b { state = state_off; last_turned_off = k.now }
      else b
    else respond unexpected_command b

-- The branches of `execute_command` on a request to the bulb.
unfoldable pub dispatch : Kernel → Bulb → Bulb
dispatch k b =
    let code = b.request.command_code in
    let b' = record b {
      response = record b.response { command_code = code; response_code = ok };
    } in
    if is_info code
    then create_info_response k b'
    else if is_link code
    then create_link_response k b'
    else if is_switch code
    then create_switch_response k b'
    else if is_delete code
    then record b' { force_exit = true }
    else respond unexpected_command b'

-- What `execute_command` does with the result of `read_pipe`.
unfoldable pub process : Kernel → Bulb × ℕ → Bulb
process k (b, code) =
    if is_error code
    then respond code b
    else if not (b.request.destination == b.id)
    then respond destination_id_mismatch b
    else dispatch k b

unfoldable pub execute_command : Kernel → Reading → Bulb → Bulb × ℕ × List Effect
execute_command k reading b =
    let b' = record b {
      response = record b.response { command_code = null_command; arguments_size = 0 };
    } in
    let result = read_pipe reading b' in
    let (b'', effects) = write_pipe k (process k result) in (b'', result.1, effects)

-- The loop of `main`: one request after the other until the exit is forced, with the last error code.
unfoldable pub serve : List (Kernel × Reading) → Bulb → ℕ → Bulb × ℕ × List Effect
serve [] b code = (b, code, [])
serve ((k, reading) ∷ rest) b code =
    let (b', code', effects) = execute_command k reading b in
    let (b'', code'', more) = serve rest b' code' in
    if b.force_exit then (b, code, []) else (b'', code'', effects ++ more)

-- The exit code of `handle_shutdown`.
unfoldable pub handle_shutdown : Kernel → Bulb → ℕ → ℕ
handle_shutdown k b error =
    let code = end_device_fifos k b.id b.rcv_requests_fd b.snd_responses_fd none in
    if is_error code then code else error
