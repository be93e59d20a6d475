-- ===== src/Timer/Commands.antt =====
-- The main thread of the timer: `execute_command` and the responses that it creates.
use os_domotics.Commands.{
  begin_argument, device_type_argument, end_argument, is_delete, is_info, is_link, is_registry,
  is_switch, link, link_change_parent, link_remove_child, link_subcommand, max_request_size,
  null_command, on_time_argument, parent_id_argument, position_on, registry_argument,
  registry_begin, registry_end, registry_subcommand, state_argument, switch_close, switch_label,
  switch_open, switch_position, switch_power,
}
use os_domotics.Devices.{
  is_bulb_like, is_control, is_fridge_like, is_window_like, state_off, state_on, undefined_state,
}
use os_domotics.Messages.{parse_request}
use os_domotics.Messages.Responses.{sent}
use os_domotics.Prelude.{
  Bool, List, Option, [], bit_or, false, if◌then◌else◌, leb, ltb, none, not, replicate, set, some,
  suc, true, zero, ℕ, ◌&&◌, ◌++◌, ◌==◌, ◌||◌, ◌∷◌,
}
use os_domotics.ReturnCodes.{
  broken_pipe, device_not_found, invalid_request_argument, is_error, ok, unable_to_allocate_heap,
  unable_to_cancel_thread, unable_to_create_thread, unable_to_lock_mutex, unable_to_read_pipe,
  unable_to_write_pipe, unexpected_command, unexpected_end_of_file,
}
use os_domotics.Routing.{Entry, find_all_routing_data}
use os_domotics.Timer.{
  Timer, add_pending, drop_and_print, drop_child, lock_error, max_timer_arguments, minutes_in_a_day,
  release_unreachable_child, response_bytes, send_response, take_pending, unlock_data,
  write_request,
}
use os_domotics.Utils.{
  Effect, Kernel, Reading, change_snd_responses_pipe, failed, got, printed, wrote,
}

unfoldable pub read_pipe : Reading → Timer → Timer × ℕ
read_pipe failed t = (t, unable_to_read_pipe)
read_pipe (got size buffer) t =
    let (q, code) = parse_request t.request buffer max_request_size in
    if size == 0
    then (record t { force_exit = true }, unexpected_end_of_file)
    else if not (size == max_request_size)
    then (t, unable_to_read_pipe)
    else (record t { request = q }, code)

abbrev pub respond : ℕ → Timer → Timer
respond code t = record t { response = record t.response { response_code = code } }

-- `response.arguments[...] = ...` for the first arguments, and their number.
abbrev pub answer : List ℕ → ℕ → Timer → Timer
answer arguments size t = record t {
  response = record t.response { arguments = arguments; arguments_size = size };
}

-- What a handler does after a request could not be written to the child: the awaited command is given up,
-- and the child too, if the request could be formatted.
unfoldable pub give_up : ℕ → Kernel → ℕ → Timer → Option (Timer × List Effect)
give_up fuel k code t =
    let (pending, _) = take_pending t.request.command_code t.pending_commands in
    let t' = record t { pending_commands = pending } in
    let dropped : Option (Timer × List Effect) = elim (drop_and_print fuel k t') [
      | none ↦ none
      | some (t'', complained) ↦ some (respond unable_to_write_pipe t'', complained)
    ] in
    if is_error code then some (respond unable_to_write_pipe t', []) else dropped

-- The request to the child, which is awaited before it leaves; `sent` is what follows where it was written.
unfoldable pub send_down : ℕ → Kernel → (Timer → Timer) → Timer → Option (Timer × List Effect)
send_down fuel k sent t =
    let (t', added) = add_pending k t.request.command_code t in
    let t'' = record t' { request = record t'.request { destination = t'.child_id } } in
    let (code, written, effects) = write_request k t''.request t''.snd_requests_child_fd in
    let given_up = give_up fuel k code t'' in
    if not added
    then some (respond unable_to_allocate_heap t, [])
    else if written
    then some (record (sent t'') { defer_response = true }, effects)
    else given_up

-- The unlock at the end of a handler.
unfoldable pub unlocking : Kernel → Option (Timer × List Effect) → Option (Timer × List Effect)
unlocking k none = none
unlocking k (some (t, effects)) =
    let (t', complained) = unlock_data k t in some (t', effects ++ complained)

unfoldable pub create_info_response : ℕ → Kernel → Timer → Option (Timer × List Effect)
create_info_response fuel k t =
    let alone =
      answer
        (set
          (set (set (set t.response.arguments state_argument undefined_state) on_time_argument 0)
            begin_argument t.begin_time)
          end_argument t.end_time)
        max_timer_arguments t in
    let sent = send_down fuel k (λ u. u) t in
    if not k.locked
    then some (respond unable_to_lock_mutex t, lock_error)
    else unlocking k (if not t.has_child then some (alone, []) else sent)

-- The two subcommands of a link, with the mutex held.
unfoldable pub change_parent : Kernel → Timer → Timer
change_parent k t =
    let parent = t.request.argument in
    let (fd, code) = change_snd_responses_pipe k parent t.snd_responses_fd in
    let t' = answer (set t.response.arguments device_type_argument t.device_type) 2 t in
    let t'' = respond code (record t' { snd_responses_fd = fd }) in
    if t.parent_id == parent
    then t'
    else if code == ok
    then record t'' { parent_id = parent; parent_changed = true }
    else t''

unfoldable pub remove_child : ℕ → Kernel → Timer → Option Timer
remove_child fuel k t =
    let declare =
      λ (u : Timer). answer (set u.response.arguments device_type_argument u.device_type) 2 u in
    let dropped : Option Timer = elim (drop_child fuel k t) [
      | none ↦ none
      | some (t', code) ↦ some (declare (respond code t'))
    ] in
    if t.has_child && t.request.argument == t.child_id
    then dropped
    else some (declare (respond device_not_found t))

unfoldable pub create_link_response : ℕ → Kernel → Timer → Option (Timer × List Effect)
create_link_response fuel k t =
    let subcommand = link_subcommand t.request.command_code in
    let named = answer (set t.response.arguments parent_id_argument t.request.argument) 2 t in
    let removed : Option (Timer × List Effect) = elim (remove_child fuel k named) [
      | none ↦ none
      | some t' ↦ some (unlock_data k t')
    ] in
    if not (subcommand == link_change_parent) && not (subcommand == link_remove_child)
    then some (respond unexpected_command t, [])
    else if not k.locked
    then some (respond unable_to_lock_mutex named, lock_error)
    else if subcommand == link_change_parent
    then some (unlock_data k (change_parent k named))
    else removed

-- `reschedule`: what it prints. The thread starts again with the new times.
unfoldable pub reschedule : Kernel → List Effect
reschedule k =
    (if k.cancelled then [] else printed unable_to_cancel_thread ∷ [])
    ++ (if k.created then [] else printed unable_to_create_thread ∷ [])

-- The branches of `create_registry_response`: the new state, and whether a time has changed.
unfoldable pub set_registry : ℕ → ℕ → Timer → Timer × Bool
set_registry subcommand value t =
    if subcommand == registry_begin
    then if leb value t.end_time
      then (record t { begin_time = value }, true)
      else (respond invalid_request_argument t, false)
    else if subcommand == registry_end
    then if leb t.begin_time value && ltb value minutes_in_a_day
      then (record t { end_time = value }, true)
      else (respond invalid_request_argument t, false)
    else (
      record t {
        response = record t.response { arguments_size = 0; response_code = unexpected_command };
      },
      false,
    )

unfoldable pub create_registry_response : Kernel → Timer → Timer × List Effect
create_registry_response k t =
    let named = answer (set t.response.arguments registry_argument t.request.argument) 1 t in
    let (t', changed) =
      set_registry (registry_subcommand t.request.command_code) t.request.argument named in
    let (t'', complained) = unlock_data k t' in
    if not k.locked
    then (respond unable_to_lock_mutex named, lock_error)
    else (t'', complained ++ (if changed then reschedule k else []))

-- `valid`, without the test of `has_child`
abbrev pub valid_switch : ℕ → ℕ → Bool
valid_switch type code =
    is_bulb_like type && switch_label code == switch_power
    || (is_window_like type || is_fridge_like type)
      && (switch_label code == switch_open || switch_label code == switch_close)

-- The state after a switch that was sent down.
abbrev pub commanded : ℕ → ℕ → ℕ
commanded code state =
    if switch_position code == position_on
    then if switch_label code == switch_close then state_off else state_on
    else if switch_label code == switch_power
    then state_off
    else state

unfoldable pub create_switch_response : ℕ → Kernel → Timer → Option (Timer × List Effect)
create_switch_response fuel k t =
    let code = t.request.command_code in
    let sent = send_down fuel k (λ u. record u { state = commanded code u.state }) t in
    if not k.locked
    then some (respond unable_to_lock_mutex t, lock_error)
    else unlocking k (
        if not t.has_child
        then some (respond device_not_found t, [])
        else if not (valid_switch t.child_type code)
        then some (respond unexpected_command t, [])
        else sent)

-- Another than the two handlers before, it forces the exit where the request cannot leave, and keeps the
-- child.
unfoldable pub create_delete_response : Kernel → Timer → Timer × List Effect
create_delete_response k t =
    let (t', added) = add_pending k t.request.command_code t in
    let t'' = record t' { request = record t'.request { destination = t'.child_id } } in
    let (code, written, effects) = write_request k t''.request t''.snd_requests_child_fd in
    let (pending, _) = take_pending t.request.command_code t''.pending_commands in
    let exiting = λ (u : Timer). record u { force_exit = true } in
    let handled : Timer × List Effect =
      if not t.has_child
      then (exiting t, [])
      else if not added
      then (exiting (respond unable_to_allocate_heap t), [])
      else if written
      then (record t'' { defer_response = true }, effects)
      else (
        exiting (respond unable_to_write_pipe (record t'' { pending_commands = pending })),
        [],
      ) in
    let (u', complained) = unlock_data k handled.0 in
    if not k.locked
    then (respond unable_to_lock_mutex t, lock_error)
    else (u', handled.1 ++ complained)

-- The branches of `execute_command` on a request to the timer.
unfoldable pub dispatch : ℕ → Kernel → Timer → Option (Timer × List Effect)
dispatch fuel k t =
    let code = t.request.command_code in
    let t' = record t {
      response = record t.response { command_code = code; response_code = ok };
    } in
    if is_info code
    then create_info_response fuel k t'
    else if is_link code
    then create_link_response fuel k t'
    else if is_registry code
    then some (create_registry_response k t')
    else if is_switch code
    then create_switch_response fuel k t'
    else if is_delete code
    then some (create_delete_response k t')
    else some (respond unexpected_command t', [])

-- A request for another device: the Boolean tells that it was forwarded, so that nothing is sent.
unfoldable pub forward : ℕ → Kernel → Timer → Option (Timer × List Effect × Bool)
forward fuel k t =
    let (t', complained) = unlock_data k t in
    let (code, written, effects) = write_request k t.request t.snd_requests_child_fd in
    let released : Option (Timer × List Effect × Bool) =
      elim (release_unreachable_child fuel k t') [
        | none ↦ none
        | some (t'', more) ↦ some (respond unable_to_write_pipe t'', complained ++ more, false)
      ] in
    if not k.locked
    then some (respond unable_to_lock_mutex t, lock_error, false)
    else if not t.has_child
    then some (respond device_not_found t', complained, false)
    else if written
    then some (t', complained ++ effects, true)
    else if is_error code
    then some (respond unable_to_write_pipe t', complained, false)
    else released

-- The loop of `replay_subtree`. It stops at the first failure, and its first result is whether one happened.
unfoldable pub replay_loop : ℕ → Kernel → Timer → Option Entry → Option (Bool × List Effect)
replay_loop fuel k t none = some (false, [])
replay_loop zero k t (some node) = none
replay_loop (suc fuel) k t (some node) =
    let (buffer, code) = response_bytes (record {
      source = node.id;
      command_code = bit_or link link_change_parent;
      response_code = ok;
      arguments = node.parent_id ∷ node.type ∷ replicate 4 0;
      arguments_size = 2;
    }) in
    let rest : Option (Bool × List Effect) =
      elim (find_all_routing_data fuel t.routing_table t.id (some node)) [
        | none ↦ none
        | some next ↦ elim (replay_loop fuel k t next) [
          | none ↦ none
          | some (broken, more) ↦ some (broken, wrote t.snd_responses_fd buffer ∷ more)
        ]
      ] in
    if is_error code || not (k.written t.snd_responses_fd buffer) then some (true, []) else rest

unfoldable pub replay_subtree : ℕ → Kernel → Timer → Option (Timer × List Effect)
replay_subtree fuel k t =
    let run : Option (Bool × List Effect) =
      elim (find_all_routing_data fuel t.routing_table t.id none) [
        | none ↦ none
        | some first ↦ replay_loop fuel k t first
      ] in
    if not k.locked then some (t, lock_error) else elim run [
      | none ↦ none
      | some (broken, effects) ↦
          let (t', complained) = unlock_data k t in
          if broken
          then some (
            record t' { exit = some broken_pipe },
            effects ++ (complained ++ printed broken_pipe ∷ []),
          )
          else some (t', effects ++ complained)
    ]

unfoldable pub replay_child_add : Kernel → Timer → Timer × List Effect
replay_child_add k t =
    let (t', complained) = unlock_data k t in
    let (t'', effects) =
      send_response k
        (record {
          source = t.child_id;
          command_code = bit_or link link_change_parent;
          response_code = ok;
          arguments = t.id ∷ t.child_type ∷ replicate 4 0;
          arguments_size = 2;
        })
        t' in
    if not k.locked
    then (t, lock_error)
    else if t.has_child
    then (t'', complained ++ effects)
    else (t', complained)

-- The end of `execute_command`: the replay after a change of the parent. Nothing follows an exit.
unfoldable pub replay : ℕ → Kernel → Timer → Option (Timer × List Effect)
replay fuel k t =
    let subtree : Option (Timer × List Effect) = elim (replay_subtree fuel k t) [
      | none ↦ none
      | some (t', effects) ↦ some (record t' { parent_changed = false }, effects)
    ] in
    let (u, effects) = replay_child_add k t in
    if not t.parent_changed
    then some (t, [])
    else if k.locked && (t.has_child && is_control t.child_type)
    then subtree
    else some (record u { parent_changed = false }, effects)

-- The response, unless it is deferred, and then the replay.
unfoldable pub conclude : ℕ → Kernel → Timer → Option (Timer × List Effect)
conclude fuel k t =
    let (t', effects) = if t.defer_response then (t, []) else send_response k t.response t in
    let replayed : Option (Timer × List Effect) = elim (replay fuel k t') [
      | none ↦ none
      | some (u, more) ↦ some (u, effects ++ more)
    ] in
    elim t'.exit [ some _ ↦ some (t', effects) | none ↦ replayed ]

-- `execute_command` after the read.
unfoldable pub process : ℕ → Kernel → Timer → ℕ → Option (Timer × List Effect)
process fuel k t code =
    let forwarded : Option (Timer × List Effect) = elim (forward fuel k t) [
      | none ↦ none
      | some (t', effects, done) ↦
          let concluded : Option (Timer × List Effect) = elim (conclude fuel k t') [
            | none ↦ none
            | some (u, more) ↦ some (u, effects ++ more)
          ] in
          if done then some (t', effects) else concluded
    ] in
    let handled : Option (Timer × List Effect) = elim (dispatch fuel k t) [
      | none ↦ none
      | some (t', effects) ↦ elim (conclude fuel k t') [
        | none ↦ none
        | some (u, more) ↦ some (u, effects ++ more)
      ]
    ] in
    if is_error code
    then conclude fuel k (respond code t)
    else if not (t.request.destination == t.id)
    then forwarded
    else handled

unfoldable pub execute_command : ℕ → Kernel → Reading → Timer → Option (Timer × ℕ × List Effect)
execute_command fuel k reading t =
    let t' = record t {
      response = record t.response { command_code = null_command; arguments_size = 0 };
      defer_response = false;
    } in
    let (t'', code) = read_pipe reading t' in
    elim (process fuel k t'' code) [ none ↦ none | some (u, effects) ↦ some (u, code, effects) ]
