-- ===== src/Timer/Child.antt =====
-- The thread of the timer that reads the answers of the child.
use os_domotics.Commands.{
  begin_argument, child_id_argument, device_type_argument, end_argument, is_delete, is_info,
  is_link, is_switch, link_change_parent, link_remove_child, link_subcommand, max_response_size,
  parent_id_argument, state_argument,
}
use os_domotics.Devices.{is_control, state_manual_override, undefined_state}
use os_domotics.Messages.{Response, parse_response}
use os_domotics.Prelude.{
  Bool, Bytes, List, Option, [], false, get_or, if◌then◌else◌, none, not, set, some, true, u8, ℕ, ℤ,
  ◌&&◌, ◌++◌, ◌==◌, ◌||◌, ◌∷◌,
}
use os_domotics.ReturnCodes.{
  is_error, ok, route_not_found, unable_to_allocate_heap, unable_to_open_pipe, unable_to_read_pipe,
}
use os_domotics.Routing.{
  Table, find_routing_data, insert_direct_routing_data, insert_indirect_routing_data,
  remove_routing_data, update_type_to_empty, update_type_to_not_empty,
}
use os_domotics.Timer.{
  Timer, drop_and_print, lock_error, max_timer_arguments, open_child_requests_pipe,
  refresh_child_type, response_bytes, send_response, take_pending, unlock_data, write_to_parent,
}
use os_domotics.Utils.{Effect, Kernel, Reading, failed, got, printed}

abbrev pub is_new_parent : Response → Bool
is_new_parent r = is_link r.command_code && link_subcommand r.command_code == link_change_parent

abbrev pub parent_argument : Response → ℕ
parent_argument r = get_or r.arguments parent_id_argument 0

-- The child with the mutex held. A control device is put into the routing table.
unfoldable pub adopt : Kernel → ℤ → Response → Timer → Timer × List Effect
adopt k fd r t =
    let type = u8 (get_or r.arguments device_type_argument 0) in
    let (table, code) =
      insert_direct_routing_data k.allocated t.routing_table r.source type t.id fd in
    let adopted = record t { child_id = r.source; child_type = type; snd_requests_child_fd = fd } in
    if is_control type
    then (
      record (refresh_child_type (record adopted { routing_table = table })) { has_child = true },
      if is_error code then printed unable_to_allocate_heap ∷ [] else [],
    )
    else (record (refresh_child_type adopted) { has_child = true }, [])

unfoldable pub acquire_child : Kernel → Response → Timer → Timer × List Effect
acquire_child k r t =
    let (fd, opened) = open_child_requests_pipe k r.source in
    let (t', complained) = adopt k fd r t in
    let (t'', more) = unlock_data k t' in
    if not (is_new_parent r) || (not (r.response_code == ok) || not (parent_argument r == t.id))
    then (t, [])
    else if is_error opened
    then (t, printed unable_to_open_pipe ∷ [])
    else if not k.locked
    then (t, lock_error)
    else (t'', complained ++ more)

-- The entry that was inserted is in the table.
unfoldable pub insert_descendant : ℕ → Kernel → Response → Timer → Option (Timer × ℕ)
insert_descendant fuel k r t =
    let type = u8 (get_or r.arguments device_type_argument 0) in
    let (table, code) =
      insert_indirect_routing_data k.allocated t.routing_table r.source type (parent_argument r) in
    let filled : Option Table = elim (find_routing_data table r.source) [
      | none ↦ some table
      | some descendant ↦ update_type_to_not_empty fuel table descendant
    ] in
    if is_error code then some (t, code) else elim filled [
      | none ↦ none
      | some table' ↦
          let t' = record t { routing_table = table' } in
          some (if t.has_child then refresh_child_type t' else t', code)
    ]

unfoldable pub acquire_descendant : ℕ → Kernel → Response → Timer → Option (Timer × List Effect)
acquire_descendant fuel k r t =
    let inserted = insert_descendant fuel k r t in
    if not (is_new_parent r) || (not (r.response_code == ok) || parent_argument r == t.id)
    then some (t, [])
    else if not k.locked
    then some (t, lock_error)
    else elim inserted [
      | none ↦ none
      | some (t', code) ↦
          let (t'', complained) = unlock_data k t' in
          some (
            t'',
            complained
                ++ (if is_error code && not (code == route_not_found)
                    then printed code ∷ []
                    else []),
          )
    ]

-- The removal of a device from the table, with the types above it.
unfoldable pub forget : ℕ → ℕ → ℕ → Timer → Option Timer
forget fuel id parent t = elim (remove_routing_data fuel t.routing_table id parent) [
  | none ↦ none
  | some table ↦ elim (update_type_to_empty fuel table (find_routing_data table parent)) [
    | none ↦ none
    | some table' ↦
        let t' = record t { routing_table = table' } in
        some (if t.has_child then refresh_child_type t' else t')
  ]
]

unfoldable pub release_child : ℕ → Kernel → Response → Timer → Option (Timer × List Effect)
release_child fuel k r t =
    let node : Option (Timer × List Effect) = elim (find_routing_data t.routing_table r.source) [
      | none ↦ some (t, [])
      | some entry ↦ elim (forget fuel r.source entry.parent_id t) [
        | none ↦ none
        | some t' ↦ some (t', [])
      ]
    ] in
    let released =
      if t.has_child && r.source == t.child_id then drop_and_print fuel k t else node in
    if not (is_delete r.command_code)
    then some (t, [])
    else if not k.locked
    then some (t, lock_error)
    else elim released [
      | none ↦ none
      | some (t', complained) ↦ let (t'', more) = unlock_data k t' in some (t'', complained ++ more)
    ]

unfoldable pub release_removed_descendant :
    ℕ → Kernel → Response → Timer → Option (Timer × List Effect)
release_removed_descendant fuel k r t =
    let removed_id = get_or r.arguments child_id_argument 0 in
    let forgotten : Option Timer = elim (find_routing_data t.routing_table removed_id) [
      | none ↦ some t
      | some node ↦
          let gone = forget fuel removed_id r.source t in
          if node.parent_id == r.source then gone else some t
    ] in
    if not (is_link r.command_code && link_subcommand r.command_code == link_remove_child)
      || not (r.response_code == ok)
    then some (t, [])
    else if not k.locked
    then some (t, lock_error)
    else elim forgotten [ none ↦ none | some t' ↦ some (unlock_data k t') ]

-- The answer of the child as the timer's own.
unfoldable pub mirror_info : Timer → Response → Response
mirror_info t r =
    let live = get_or r.arguments state_argument 0 in
    let state =
      if not (live == t.state) && not (live == undefined_state)
      then state_manual_override
      else live in
    record r {
      arguments =
          set (set (set r.arguments state_argument state) begin_argument t.begin_time) end_argument
            t.end_time;
      arguments_size = max_timer_arguments;
    }

unfoldable pub mirrored : Timer → Response → Response
mirrored t r =
    record (if is_info r.command_code
      then mirror_info t r
      else if is_switch r.command_code || is_delete r.command_code
      then record r { arguments_size = 0 }
      else r) { source = t.id }

-- The end of `handle_own_reply`: after the answer to a delete, the timer ends.
unfoldable pub send_reply : Kernel → Response → Timer → Timer × List Effect
send_reply k r t =
    let (t', effects) = send_response k r t in
    let (buffer, code) = response_bytes r in
    if is_error code then (t', effects) else elim t'.exit [
      | some _ ↦ (t', effects)
      | none ↦
          if is_delete r.command_code
          then (record t' { force_exit = true; exit = some ok }, effects)
          else (t', effects)
    ]

-- The Boolean tells whether the answer was one that the timer waited for.
unfoldable pub handle_own_reply : Kernel → Response → Timer → Timer × List Effect × Bool
handle_own_reply k r t =
    let (pending, ours) = take_pending r.command_code t.pending_commands in
    let (t', complained) = unlock_data k (record t { pending_commands = pending }) in
    let (t'', effects) = send_reply k (mirrored t r) t' in
    if not k.locked
    then (t, lock_error, false)
    else if not ours
    then (t', complained, false)
    else (t'', complained ++ effects, true)

-- What a parsed answer does to the data before it is forwarded or mirrored.
unfoldable pub track : ℕ → Kernel → Response → Timer → Option (Timer × List Effect)
track fuel k r t =
    let (acquired, first) = acquire_child k r t in
    elim (acquire_descendant fuel k r acquired) [
      | none ↦ none
      | some (t', second) ↦ elim (release_child fuel k r t') [
        | none ↦ none
        | some (t'', third) ↦ elim (release_removed_descendant fuel k r t'') [
          | none ↦ none
          | some (u, fourth) ↦ some (u, first ++ (second ++ (third ++ fourth)))
        ]
      ]
    ]

-- What follows a parsed answer; the bytes are those of the answer.
unfoldable pub pass_on : ℕ → Kernel → Bytes → Response → Timer → Option (Timer × List Effect)
pass_on fuel k buffer r t = elim (track fuel k r t) [
  | none ↦ none
  | some (t', effects) ↦
      let (t'', own, ours) = handle_own_reply k r t' in
      let (u, forwarded) = write_to_parent k buffer t'' in
      if ours then some (t'', effects ++ own) else some (u, effects ++ (own ++ forwarded))
]

-- One turn of the loop of `child_responses_routine`.
unfoldable pub child_turn : ℕ → Kernel → Reading → Response → Timer → Option (Timer × List Effect)
child_turn fuel k failed r t = some (t, printed unable_to_read_pipe ∷ [])
child_turn fuel k (got size buffer) r t =
    let (r', code) = parse_response r buffer max_response_size in
    let passed = pass_on fuel k buffer r' t in
    if not (size == max_response_size)
    then some (t, printed unable_to_read_pipe ∷ [])
    else if is_error code
    then some (write_to_parent k buffer t)
    else passed
