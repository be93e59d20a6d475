-- ===== src/Hub/Requests.antt =====
-- The thread of the hub that reads requests: `top_down_handler` and what it calls. A lock answers the same
-- at every call in one step.
use os_domotics.Commands.{
  child_id_argument, device_type_argument, is_delete, is_info, is_link, is_switch,
  link_change_parent, link_remove_child, link_subcommand, max_request_size, null_command,
  open_time_argument, parent_id_argument, state_argument, switch_close, switch_label, switch_open,
  switch_power,
}
use os_domotics.Devices.{is_bulb_like, is_fridge_like, is_window_like, undefined_state}
use os_domotics.Hub.{
  Hub, check_complete_and_send, init_pending, write_pipe_request, write_pipe_response,
}
use os_domotics.Hub.Links.{remove_child}
use os_domotics.Messages.{Request, Response, parse_request}
use os_domotics.Messages.Responses.{received}
use os_domotics.Prelude.{
  Bool, Bytes, List, Option, [], false, if◌then◌else◌, none, not, set, some, suc, true, zero, ℕ,
  ◌&&◌, ◌++◌, ◌==◌, ◌||◌, ◌∷◌,
}
use os_domotics.ReturnCodes.{
  is_error, ok, route_not_found, unable_to_allocate_heap, unable_to_lock_mutex, unable_to_read_pipe,
  unable_to_unlock_mutex, unexpected_command, unexpected_end_of_file,
}
use os_domotics.Routing.{Entry, find_all_routing_data, find_direct_routing_data, find_routing_data}
use os_domotics.Utils.{Effect, Kernel, Reading, change_snd_responses_pipe, failed, got, printed}

unfoldable pub read_pipe : Reading → Hub → ℕ → Hub × ℕ
read_pipe failed h size = (h, unable_to_read_pipe)
read_pipe (got n buffer) h size =
    if n == 0
    then (record h { force_exit = true }, unexpected_end_of_file)
    else if not (n == size)
    then (h, unable_to_read_pipe)
    else (h, ok)

abbrev pub bytes_of : Reading → Bytes
bytes_of failed = []
bytes_of (got n buffer) = buffer

unfoldable pub get_request : Reading → Hub → Request → Response → Hub × Request × Response × Bool
get_request reading h q r =
    let r' = record r { command_code = null_command } in
    let (h', code) = read_pipe reading h max_request_size in
    let (q', parsed) = parse_request q (bytes_of reading) max_request_size in
    if is_error code
    then (h', q, record r' { response_code = code }, false)
    else if is_error parsed
    then (h', q', record r' { response_code = parsed }, false)
    else (h', q', r', true)

-- The loop of `forward_to_children`: the ids of the direct children, and what is written to them. The
-- destination that it leaves in the request is read by nobody.
unfoldable pub forward_loop :
    ℕ → Kernel → Hub → Request → Option Entry → Option (List ℕ × List Effect)
forward_loop fuel k h q none = some ([], [])
forward_loop zero k h q (some direct_child) = none
forward_loop (suc fuel) k h q (some direct_child) =
    let effects =
      write_pipe_request k (record q { destination = direct_child.id }) direct_child.next_hop_fd in
    elim (forward_loop fuel k h q
      (find_direct_routing_data h.routing_table h.id (some direct_child))) [
        | none ↦ none
        | some (ids, more) ↦ some (direct_child.id ∷ ids, effects ++ more)
      ]

-- The array of the pending command has room for `children` ids, which is the number of direct children.
unfoldable pub forward_to_children :
    ℕ → Kernel → Hub → Request → Response → Option (Hub × Response × Bool × List Effect)
forward_to_children fuel k h q r = elim (init_pending k q.command_code) [
  | none ↦ some (h, record r { response_code = unable_to_allocate_heap }, false, [])
  | some pending ↦
      elim (forward_loop fuel k h q (find_direct_routing_data h.routing_table h.id none)) [
        | none ↦ none
        | some (ids, effects) ↦ some (
          record h {
            pending_responses =
                h.pending_responses ++ record pending { pending_devices = ids } ∷ [];
          },
          r,
          true,
          effects,
        )
      ]
]

unfoldable pub send_to_child :
    Kernel → Hub → Request → Response → Hub × Response × Bool × List Effect
send_to_child k h q r =
    if not k.locked
    then (h, record r { response_code = unable_to_lock_mutex }, true, [])
    else if not k.unlocked
    then (
      record h { force_exit = true },
      record r { response_code = unable_to_unlock_mutex },
      true,
      [],
    )
    else elim (find_routing_data h.routing_table q.destination) [
      | none ↦ (
        h,
        record r {
          response_code = route_not_found;
          arguments = set r.arguments child_id_argument q.destination;
          arguments_size = 1;
        },
        true,
        [],
      )
      | some route ↦ (h, r, false, write_pipe_request k q route.next_hop_fd)
    ]

-- `link_change_parent`: the function, whose name the subcommand has too.
unfoldable pub move_to_parent : Kernel → Hub → Request → Response → Hub × Response × Bool
move_to_parent k h q r =
    let (fd, code) = change_snd_responses_pipe k q.argument h.snd_responses_parent_fd in
    let h' = record h { snd_responses_parent_fd = fd } in
    if h.parent_id == q.argument
    then (h, r, true)
    else if not k.locked
    then (h, record r { response_code = unable_to_lock_mutex }, false)
    else if not k.unlocked
    then (
      record h' { force_exit = true },
      record r { response_code = unable_to_unlock_mutex },
      false,
    )
    else if is_error code
    then (h', record r { response_code = code }, false)
    else (record h' { parent_id = q.argument; parent_changed = true }, r, true)

-- The end of `link_response_top_down`.
abbrev pub announce : Hub → Response → Response
announce h r = record r {
  arguments = set r.arguments device_type_argument h.device_type;
  arguments_size = 2;
}

unfoldable pub link_response_top_down :
    ℕ → Kernel → Hub → Request → Response → Option (Hub × Response)
link_response_top_down fuel k h q r =
    let named = record r { arguments = set r.arguments child_id_argument q.argument } in
    let (moved, answer, succeed) = move_to_parent k h q named in
    if link_subcommand q.command_code == link_change_parent
    then some (if succeed then (moved, announce moved answer) else (moved, answer))
    else if h.has_children && link_subcommand q.command_code == link_remove_child
    then if not k.locked
      then some (h, record named { response_code = unable_to_lock_mutex })
      else elim (remove_child fuel k h named h.id) [
        | none ↦ none
        | some (h', r', removed) ↦
            if not k.unlocked
            then some (
              record h' { force_exit = true },
              record r' { response_code = unable_to_unlock_mutex },
            )
            else if not removed
            then some (h', r')
            else some (record h' { remove_child_succeed = true }, announce h' r')
      ]
    else some (h, record r { response_code = unexpected_command })

-- `valid_switch` in `execute_command_top_down`
abbrev pub valid_switch : ℕ → ℕ → Bool
valid_switch type code =
    is_bulb_like type && switch_label code == switch_power
    || (is_fridge_like type || is_window_like type)
      && (switch_label code == switch_open || switch_label code == switch_close)

abbrev pub is_forwarded : ℕ → ℕ → Bool
is_forwarded type code =
    is_info code || (is_switch code && valid_switch type code || is_delete code)

-- A request for a hub without children.
unfoldable pub answer_alone : Hub → Response → Hub × Response
answer_alone h r =
    if is_info r.command_code
    then (
      h,
      record r {
        arguments = set (set r.arguments state_argument undefined_state) open_time_argument 0;
        arguments_size = 2;
      },
    )
    else if is_delete r.command_code
    then (record h { force_exit = true }, r)
    else (h, record r { response_code = unexpected_command })

-- The Boolean tells whether the response has to be sent.
unfoldable pub execute_command_top_down :
    ℕ → Kernel → Hub → Request → Response → Option (Hub × Response × Bool × List Effect)
execute_command_top_down fuel k h q r =
    if is_link r.command_code
    then elim (link_response_top_down fuel k h q r) [
      | none ↦ none
      | some (h', r') ↦ some (h', r', true, [])
    ]
    else if h.has_children
    then if not (is_forwarded h.device_type r.command_code)
      then some (h, record r { response_code = unexpected_command }, true, [])
      else if not k.locked
      then some (h, record r { response_code = unable_to_lock_mutex }, true, [])
      else elim (forward_to_children fuel k h q r) [
        | none ↦ none
        | some (h', r', succeed, effects) ↦
            if not k.unlocked
            then some (
              record h' { force_exit = true },
              record r' { response_code = unable_to_unlock_mutex },
              true,
              effects,
            )
            else some (h', r', not succeed, effects)
      ]
    else let (h', r') = answer_alone h r in some (h', r', true, [])

-- The loop of `replay_history`: one change of parent for each device below the hub.
unfoldable pub replay_loop :
    ℕ → Kernel → Hub → Response → Option Entry → Option (Response × List Effect)
replay_loop fuel k h r none = some (r, [])
replay_loop zero k h r (some entry) = none
replay_loop (suc fuel) k h r (some entry) =
    let r' = record r {
      source = entry.id;
      arguments =
          set (set r.arguments parent_id_argument entry.parent_id) device_type_argument entry.type;
      arguments_size = 2;
    } in
    let effects = write_pipe_response k h r' in
    elim (find_all_routing_data fuel h.routing_table h.id (some entry)) [
      | none ↦ none
      | some next ↦ elim (replay_loop fuel k h r' next) [
        | none ↦ none
        | some (r'', more) ↦ some (r'', effects ++ more)
      ]
    ]

unfoldable pub replay_history : ℕ → Kernel → Hub → Response → Option (Response × List Effect)
replay_history fuel k h r = elim (find_all_routing_data fuel h.routing_table h.id none) [
  | none ↦ none
  | some first ↦ replay_loop fuel k h r first
]

-- After the response: the replay to a new parent.
unfoldable pub replay_if_moved : ℕ → Kernel → Hub → Response → Option (Hub × Response × List Effect)
replay_if_moved fuel k h r =
    if h.parent_changed
    then elim (replay_history fuel k h r) [
      | none ↦ none
      | some (r', effects) ↦
          some (record h { parent_changed = false }, record r' { source = h.id }, effects)
    ]
    else some (h, r, [])

-- And the pending commands that wait for a removed child.
unfoldable pub complete_if_removed :
    ℕ → Kernel → Hub → Request → Response → Option (Hub × Response × List Effect)
complete_if_removed fuel k h q r =
    let child = record r { source = q.argument } in
    if h.remove_child_succeed
    then elim (check_complete_and_send fuel k h child child) [
      | none ↦ none
      | some (h', r', effects) ↦
          some (record h' { remove_child_succeed = false }, record r' { source = h.id }, effects)
    ]
    else some (h, r, [])

-- The part of the loop of `top_down_handler` that sends.
unfoldable pub send_top_down :
    ℕ → Kernel → Hub → Request → Response → Option (Hub × Response × List Effect)
send_top_down fuel k h q r =
    if not k.locked
    then some (
      record h { parent_changed = false; remove_child_succeed = false },
      record r { response_code = unable_to_lock_mutex },
      printed unable_to_lock_mutex ∷ [],
    )
    else elim (replay_if_moved fuel k h r) [
      | none ↦ none
      | some (h', r', replayed) ↦ elim (complete_if_removed fuel k h' q r') [
        | none ↦ none
        | some (h'', r'', completed) ↦
            let effects = write_pipe_response k h r ++ (replayed ++ completed) in
            if k.unlocked
            then some (h'', r'', effects)
            else some (
              record h'' { force_exit = true },
              record r'' { response_code = unable_to_unlock_mutex },
              effects ++ printed unable_to_unlock_mutex ∷ [],
            )
      ]
    ]

-- The decision of one turn: whether a response is sent, and what was written before it.
unfoldable pub decide_top_down :
    ℕ → Kernel → Hub → Request → Response → Bool → Option (Hub × Response × Bool × List Effect)
decide_top_down fuel k h q r received =
    let r' = record r { command_code = q.command_code } in
    if not received
    then some (h, r, true, [])
    else if q.destination == h.id
    then execute_command_top_down fuel k h q r'
    else some (send_to_child k h q r')

-- One turn of the loop of `top_down_handler`.
unfoldable pub top_down_turn :
    ℕ
    → Kernel
    → Reading
    → Hub
    → Request
    → Response
    → Option (Hub × Request × Response × List Effect)
top_down_turn fuel k reading h q r =
    let (h', q', r', received) =
      get_request reading h q (record r { arguments_size = 0; response_code = ok }) in
    elim (decide_top_down fuel k h' q' r' received) [
      | none ↦ none
      | some (h'', r'', send, effects) ↦
          if send
          then elim (send_top_down fuel k h'' q' r'') [
            | none ↦ none
            | some (u, r''', more) ↦ some (u, q', r''', effects ++ more)
          ]
          else some (h'', q', r'', effects)
    ]
