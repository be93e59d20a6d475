-- ===== src/Fridge.antt =====
-- The fridge: code/src/fridge.c. Its globals are a record; the main thread reads requests, and a thread
-- closes the door some time after it was opened. Both hold the mutex while they work on the data, so that
-- their steps do not mix. This file has the main thread; a lock answers the same at both calls of one step.
pub mod Autoclose
pub mod Bounds
pub mod Registry
use os_domotics.Commands.{
  autoclose_delay_argument, device_type_argument, fill_percentage_argument, is_delete, is_info,
  is_link, is_registry, is_switch, link_change_parent, link_subcommand, max_request_size,
  max_response_size, null_command, open_time_argument, parent_id_argument, position_on,
  registry_argument, registry_delay, registry_percentage, registry_subcommand, registry_thermostat,
  state_argument, switch_close, switch_label, switch_open, switch_position, temperature_argument,
  thermostat_argument,
}
use os_domotics.Devices.{
  fridge_device, max_delay, max_fill_percentage, max_thermostat, min_delay, min_thermostat,
  state_closed, state_open,
}
use os_domotics.Messages.{Request, Response, format_response, parse_request}
use os_domotics.Prelude.{
  Bool, Bytes, List, [], false, if◌then◌else◌, int_less, int_minus, int_rem, int_sub, int_u16, leb,
  ltb, none, not, pos, set, true, u16, u8, ℕ, ℤ, ◌&&◌, ◌*◌, ◌++◌, ◌+◌, ◌-◌, ◌==◌, ◌∷◌,
}
use os_domotics.ReturnCodes.{
  destination_id_mismatch, invalid_request_argument, is_error, ok, unable_to_cancel_thread,
  unable_to_create_thread, unable_to_lock_mutex, unable_to_read_pipe, unable_to_unlock_mutex,
  unable_to_write_pipe, unexpected_command, unexpected_end_of_file,
}
use os_domotics.Utils.{
  Effect, Kernel, Reading, change_snd_responses_pipe, end_device_fifos, failed, got, printed, wrote,
}

-- What the program uses of `float`.
pub record Floats (F : Type 0) : Type 0 where
  pub of_int : ℤ → F
  pub plus : F → F → F
  pub minus : F → F → F
  pub times : F → F → F
  pub over : F → F → F
  pub less : F → F → Bool
  pub to_int : F → ℤ
  pub to_word : F → ℕ

pub record Fridge (F : Type 0) : Type 0 where
  pub id : ℕ
  pub state : ℕ
  pub autoclose_delay : ℕ
  pub fill_percentage : ℕ
  pub thermostat : ℕ
  pub parent_id : ℕ
  pub last_opened : ℕ
  pub last_closed : ℕ
  pub last_thermostat_set : ℕ
  pub last_temperature : F
  pub rcv_requests_fd : ℤ
  pub snd_responses_fd : ℤ
  pub force_exit : Bool
  pub response_buffer : Bytes
  pub request : Request
  pub response : Response

abbrev pub default_autoclose_delay : ℕ
default_autoclose_delay = 30

abbrev pub default_fill_percentage : ℕ
default_fill_percentage = 0

abbrev pub default_thermostat : ℕ
default_thermostat = 4

abbrev pub temperature_threshold : ℕ
temperature_threshold = 2

abbrev pub ambient_temperature : ℕ
ambient_temperature = 26

abbrev pub closed_increase_time : ℕ
closed_increase_time = 3300

abbrev pub closed_decrease_time : ℕ
closed_decrease_time = 300

abbrev pub total_closed_cycle_time : ℕ
total_closed_cycle_time = closed_increase_time + closed_decrease_time

abbrev pub open_increase_time : ℕ
open_increase_time = 600

abbrev pub later_of : ℕ → ℕ → ℕ
later_of a b = if ltb b a then a else b

module _ {F : Type 0} (floats : Floats F) where
  abbrev pub number : ℕ → F
  number n = floats.of_int (pos n)

  -- `MIN_TEMPERATURE(thermostat)` and `MAX_TEMPERATURE(thermostat)`, which are of type `int`.
  abbrev pub min_temperature : ℕ → F
  min_temperature t = floats.of_int (int_sub t temperature_threshold)

  abbrev pub max_temperature : ℕ → F
  max_temperature t = number (t + temperature_threshold)

  -- `elapsed_time * CLOSED_INCREASE_SLOPE` and its like: the macros multiply first, and divide then.
  abbrev pub increased : ℤ → F
  increased elapsed =
      floats.over (floats.times (floats.of_int elapsed) (number (2 * temperature_threshold)))
        (number closed_increase_time)

  abbrev pub decreased : ℤ → F
  decreased elapsed =
      floats.over
        (floats.times (floats.of_int elapsed)
          (floats.minus (number 0) (number (2 * temperature_threshold))))
        (number closed_decrease_time)

  abbrev pub slope : ℕ → F
  slope time = floats.over (number (2 * temperature_threshold)) (number time)

  -- The seconds to the lower bound, and the temperature on the way to it.
  unfoldable pub to_range : ℕ → F → ℤ → ℤ × F
  to_range thermostat last elapsed =
      let bound = min_temperature thermostat in
      let cooled = floats.plus last (decreased elapsed) in
      let warmed = floats.plus last (increased elapsed) in
      if floats.less bound last
      then (
        floats.to_int (floats.over (floats.minus last bound) (slope closed_decrease_time)),
        if floats.less cooled bound then bound else cooled,
      )
      else (
        floats.to_int (floats.over (floats.minus bound last) (slope closed_increase_time)),
        if floats.less bound warmed then bound else warmed,
      )

  -- The temperature in the cycle of a closed fridge, some seconds after it started.
  unfoldable pub in_cycle : ℕ → ℤ → F
  in_cycle thermostat elapsed =
      let time = int_rem elapsed total_closed_cycle_time in
      if int_less time (pos closed_increase_time)
      then floats.plus (min_temperature thermostat) (increased time)
      else floats.plus (max_temperature thermostat)
          (decreased (int_minus time (pos closed_increase_time)))

  unfoldable pub calculate_current_temperature : ℕ → Fridge F → F
  calculate_current_temperature now f =
      let open_time = int_sub now (later_of f.last_opened f.last_thermostat_set) in
      let closed_time = int_sub now (later_of f.last_closed f.last_thermostat_set) in
      let opened = floats.plus f.last_temperature (
        floats.over (floats.times (floats.of_int open_time) (number (ambient_temperature - 0)))
          (number open_increase_time)) in
      let (range_time, before) = to_range f.thermostat f.last_temperature closed_time in
      if f.state == state_open
      then if floats.less (number ambient_temperature) opened
        then number ambient_temperature
        else opened
      else if int_less range_time closed_time
      then in_cycle f.thermostat (int_minus closed_time range_time)
      else before

  -- `last_temperature = calculate_current_temperature()`
  abbrev pub keep_temperature : ℕ → Fridge F → Fridge F
  keep_temperature now f = record f { last_temperature = calculate_current_temperature now f }

  -- The second argument is `new_state`, the third `automatic`. Where the thread cannot be created or
  -- cancelled, the time is already set.
  unfoldable pub set_state : Kernel → ℕ → Bool → Fridge F → Fridge F × ℕ
  set_state k new_state automatic f =
      let opened = record f { last_opened = k.now } in
      let closed = record f { last_closed = k.now } in
      if new_state == f.state
      then (f, ok)
      else if new_state == state_open
      then if not k.created
        then (opened, unable_to_create_thread)
        else (record (keep_temperature k.now opened) { state = new_state }, ok)
      else if not automatic && not k.cancelled
      then (closed, unable_to_cancel_thread)
      else (record (keep_temperature k.now closed) { state = new_state }, ok)

  abbrev pub respond : ℕ → Fridge F → Fridge F
  respond code f = record f { response = record f.response { response_code = code } }

  unfoldable pub create_info_response : Kernel → Fridge F → Fridge F
  create_info_response k f =
      let time = int_u16 (
        if f.state == state_open
        then int_sub k.now f.last_opened
        else int_sub f.last_closed f.last_opened) in
      let temperature =
        floats.to_word (floats.times (calculate_current_temperature k.now f) (number 10)) in
      record f {
        response = record f.response {
          arguments =
              set
                (set
                  (set
                    (set
                      (set (set f.response.arguments state_argument f.state) open_time_argument
                        time)
                      autoclose_delay_argument f.autoclose_delay)
                    fill_percentage_argument f.fill_percentage)
                  thermostat_argument f.thermostat)
                temperature_argument (u16 temperature);
          arguments_size = 6;
        };
      }

  abbrev pub change_parent : Kernel → ℕ → Fridge F → Fridge F
  change_parent k parent f =
      if parent == f.parent_id
      then f
      else let (fd, code) = change_snd_responses_pipe k parent f.snd_responses_fd in
        record f {
          snd_responses_fd = fd;
          response = record f.response { response_code = code };
          parent_id = if is_error code then f.parent_id else parent;
        }

  unfoldable pub create_link_response : Kernel → Fridge F → Fridge F
  create_link_response k f =
      if link_subcommand f.request.command_code == link_change_parent
      then change_parent k f.request.argument (record f {
        response = record f.response {
          arguments =
              set (set f.response.arguments parent_id_argument f.request.argument)
                device_type_argument fridge_device;
          arguments_size = 2;
        };
      })
      else respond unexpected_command f

  -- The branches of `create_registry_response`.
  unfoldable pub set_registry : Kernel → ℕ → ℕ → Fridge F → Fridge F
  set_registry k subcommand value f =
      if subcommand == registry_delay
      then if leb min_delay value && leb value max_delay
        then record f { autoclose_delay = u8 value }
        else respond invalid_request_argument f
      else if subcommand == registry_thermostat
      then if leb min_thermostat value && leb value max_thermostat
        then record (keep_temperature k.now f) {
          last_thermostat_set = k.now;
          thermostat = u8 value;
        }
        else respond invalid_request_argument f
      else if subcommand == registry_percentage
      then if leb value max_fill_percentage
        then record f { fill_percentage = u8 value }
        else respond invalid_request_argument f
      else record f {
        response = record f.response { arguments_size = 0; response_code = unexpected_command };
      }

  unfoldable pub create_registry_response : Kernel → Fridge F → Fridge F
  create_registry_response k f =
      set_registry k (registry_subcommand f.request.command_code) f.request.argument (record f {
        response = record f.response {
          arguments = set f.response.arguments registry_argument f.request.argument;
          arguments_size = 1;
        };
      })

  -- `response.response_code = set_state(state, false)`
  abbrev pub switch_to : Kernel → ℕ → Fridge F → Fridge F
  switch_to k state f = let (f', code) = set_state k state false f in respond code f'

  unfoldable pub create_switch_response : Kernel → Fridge F → Fridge F
  create_switch_response k f =
      let code = f.request.command_code in
      if switch_label code == switch_open
      then if switch_position code == position_on then switch_to k state_open f else f
      else if switch_label code == switch_close
      then if switch_position code == position_on then switch_to k state_closed f else f
      else respond unexpected_command f

  -- The commands, with the mutex held.
  unfoldable pub dispatch : Kernel → Fridge F → Fridge F
  dispatch k f =
      let code = f.request.command_code in
      if is_info code
      then create_info_response k f
      else if is_link code
      then create_link_response k f
      else if is_delete code
      then record f { force_exit = true }
      else if is_registry code
      then create_registry_response k f
      else if is_switch code
      then create_switch_response k f
      else respond unexpected_command f

  unfoldable pub read_pipe : Reading → Fridge F → Fridge F × ℕ
  read_pipe failed f = (f, unable_to_read_pipe)
  read_pipe (got size buffer) f =
      let (r, code) = parse_request f.request buffer max_request_size in
      if size == 0
      then (record f { force_exit = true }, unexpected_end_of_file)
      else if not (size == max_request_size)
      then (f, unable_to_read_pipe)
      else (record f { request = r }, code)

  unfoldable pub write_pipe : Kernel → Fridge F → Fridge F × List Effect
  write_pipe k f =
      let (buffer, code) = format_response f.response f.response_buffer max_response_size in
      (
        record f { response_buffer = buffer },
        if is_error code
            then printed code ∷ []
            else if k.written f.snd_responses_fd buffer
            then wrote f.snd_responses_fd buffer ∷ []
            else printed unable_to_write_pipe ∷ [],
      )

  -- What `execute_command` does with the result of `read_pipe`, and its own result.
  unfoldable pub process : Kernel → Fridge F → ℕ → Fridge F × ℕ × List Effect
  process k f code =
      let f' = record f {
        response = record f.response { command_code = f.request.command_code; response_code = ok };
      } in
      if is_error code
      then (
        record f {
          response = record f.response { command_code = null_command; response_code = code };
        },
        code,
        [],
      )
      else if not (f.request.destination == f.id)
      then (respond destination_id_mismatch f, code, [])
      else if not k.locked
      then (respond unable_to_lock_mutex f', code, [])
      else if k.unlocked
      then (dispatch k f', code, [])
      else (
        record (dispatch k f') { force_exit = true },
        unable_to_unlock_mutex,
        printed unable_to_unlock_mutex ∷ [],
      )

  unfoldable pub execute_command : Kernel → Reading → Fridge F → Fridge F × ℕ × List Effect
  execute_command k reading f =
      let f' = record f { response = record f.response { arguments_size = 0 } } in
      let (f'', code) = read_pipe reading f' in
      let (f''', result, complained) = process k f'' code in
      let (u, effects) = write_pipe k f''' in (u, result, complained ++ effects)

  -- The exit code. A thread that waits to close the door is cancelled.
  unfoldable pub handle_shutdown : Kernel → Fridge F → ℕ → ℕ
  handle_shutdown k f error =
      let code = end_device_fifos k f.id f.rcv_requests_fd f.snd_responses_fd none in
      if f.state == state_open && not k.cancelled
      then unable_to_cancel_thread
      else if is_error code
      then code
      else error
