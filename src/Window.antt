-- ===== src/Window.antt =====
-- The window: code/src/window.c. Its globals are a record; a step reads one request and answers it. The
-- bytes of `buffer_read` are the argument of a step, and `simulate_processing_time` only waits. Another than
-- the bulb, it keeps the old command code in an answer to a request for another device.
pub mod Answers
pub mod Switch
use os_domotics.Commands.{
  device_type_argument, is_delete, is_info, is_link, is_switch, link_change_parent, link_subcommand,
  max_request_size, max_response_size, null_command, open_time_argument, parent_id_argument,
  position_off, position_on, state_argument, switch_close, switch_label, switch_open,
  switch_position,
}
use os_domotics.Devices.{state_closed, state_open, window_device}
use os_domotics.Messages.{Request, Response, format_response, parse_request}
use os_domotics.Prelude.{
  Bool, Bytes, List, [], if◌then◌else◌, int_div, int_sub, int_u16, none, not, set, true, u16, ℕ, ℤ,
  ◌&&◌, ◌++◌, ◌==◌, ◌||◌, ◌∷◌,
}
use os_domotics.ReturnCodes.{
  destination_id_mismatch, is_error, ok, unable_to_read_pipe, unable_to_write_pipe,
  unexpected_command, unexpected_end_of_file,
}
use os_domotics.Utils.{
  Effect, Kernel, Reading, change_snd_responses_pipe, end_device_fifos, failed, got, printed, wrote,
}

pub record Window : Type 0 where
  pub id : ℕ
  pub state : ℕ
  pub parent_id : ℕ
  pub last_opened : ℕ
  pub last_closed : ℕ
  pub rcv_requests_fd : ℤ
  pub snd_responses_fd : ℤ
  pub force_exit : Bool
  pub request : Request
  pub response : Response
  pub buffer_write : Bytes

abbrev pub max_window_arguments : ℕ
max_window_arguments = 2

unfoldable pub read_pipe : Reading → Window → Window × ℕ
read_pipe failed w = (w, unable_to_read_pipe)
read_pipe (got size buffer) w =
    if size == 0
    then (record w { force_exit = true }, unexpected_end_of_file)
    else if not (size == max_request_size)
    then (w, unable_to_read_pipe)
    else let (r, code) = parse_request w.request buffer max_request_size in
      (record w { request = r }, code)

unfoldable pub write_pipe : Kernel → Window → Window × List Effect
write_pipe k w =
    let (buffer, code) = format_response w.response w.buffer_write max_response_size in
    (
      record w { buffer_write = buffer },
      if is_error code
          then printed code ∷ []
          else if k.written w.snd_responses_fd buffer
          then wrote w.snd_responses_fd buffer ∷ []
          else printed unable_to_write_pipe ∷ [],
    )

-- `response.response_code = code`
abbrev pub respond : ℕ → Window → Window
respond code w = record w { response = record w.response { response_code = code } }

-- The minutes of `(state==STATE_CLOSED ? LAST_SECONDS_OPEN : CURRENT_SECONDS_OPEN)/60`, stored in 16 bits.
abbrev pub minutes_open : Kernel → Window → ℕ
minutes_open k w = int_u16 (
    int_div
      (if w.state == state_closed
        then int_sub w.last_closed w.last_opened
        else int_sub k.now w.last_opened)
      60)

unfoldable pub create_info_response : Kernel → Window → Window
create_info_response k w =
    let arguments =
      set (set w.response.arguments state_argument (u16 w.state)) open_time_argument
        (minutes_open k w) in
    record w {
      response = record w.response { arguments = arguments; arguments_size = max_window_arguments };
    }

-- The test on the old parent, and the pipe to the new one.
abbrev pub change_parent : Kernel → ℕ → Window → Window
change_parent k parent w =
    if w.parent_id == parent
    then w
    else let (fd, code) = change_snd_responses_pipe k parent w.snd_responses_fd in
      record w {
        snd_responses_fd = fd;
        response = record w.response { response_code = code };
        parent_id = if code == ok then parent else w.parent_id;
      }

unfoldable pub create_link_response : Kernel → Window → Window
create_link_response k w =
    if link_subcommand w.request.command_code == link_change_parent
    then change_parent k w.request.argument (record w {
      response = record w.response {
        arguments =
            set (set w.response.arguments parent_id_argument (u16 w.request.argument))
              device_type_argument window_device;
        arguments_size = 2;
      };
    })
    else respond unexpected_command w

-- The tests `NO_ACTION_SWITCH_OPEN` and `NO_ACTION_SWITCH_CLOSE`.
abbrev pub is_no_action : ℕ → Bool
is_no_action code =
    (switch_label code == switch_open && switch_position code == position_off)
    || (switch_label code == switch_close && switch_position code == position_off)

unfoldable pub create_switch_response : Kernel → Window → Window
create_switch_response k w =
    let code = w.request.command_code in
    if switch_position code == position_on
    then if switch_label code == switch_open
      then if w.state == state_open then w else record w { state = state_open; last_opened = k.now }
      else if switch_label code == switch_close
      then if w.state == state_closed
        then w
        else record w { state = state_closed; last_closed = k.now }
      else respond unexpected_command w
    else if not (is_no_action code)
    then respond unexpected_command w
    else w

-- The branches of `execute_command` on a request to the window.
unfoldable pub dispatch : Kernel → Window → Window
dispatch k w =
    let code = w.request.command_code in
    let w' = record w {
      response = record w.response { command_code = code; response_code = ok };
    } in
    if is_info code
    then create_info_response k w'
    else if is_link code
    then create_link_response k w'
    else if is_switch code
    then create_switch_response k w'
    else if is_delete code
    then record w' { force_exit = true }
    else respond unexpected_command w'

-- What `execute_command` does with the result of `read_pipe`.
unfoldable pub process : Kernel → Window × ℕ → Window
process k (w, code) =
    if is_error code
    then record w {
      response = record w.response { command_code = null_command; response_code = code };
    }
    else if not (w.request.destination == w.id)
    then respond destination_id_mismatch w
    else dispatch k w

unfoldable pub execute_command : Kernel → Reading → Window → Window × ℕ × List Effect
execute_command k reading w =
    let w' = record w { response = record w.response { arguments_size = 0 } } in
    let result = read_pipe reading w' in
    let (w'', effects) = write_pipe k (process k result) in (w'', result.1, effects)

-- The loop of `main`: one request after the other until the exit is forced, with the last error code.
unfoldable pub serve : List (Kernel × Reading) → Window → ℕ → Window × ℕ × List Effect
serve [] w code = (w, code, [])
serve ((k, reading) ∷ rest) w code =
    let (w', code', effects) = execute_command k reading w in
    let (w'', code'', more) = serve rest w' code' in
    if w.force_exit then (w, code, []) else (w'', code'', effects ++ more)

-- The exit code of `handle_shutdown`.
unfoldable pub handle_shutdown : Kernel → Window → ℕ → ℕ
handle_shutdown k w error =
    let code = end_device_fifos k w.id w.rcv_requests_fd w.snd_responses_fd none in
    if is_error code then code else error
