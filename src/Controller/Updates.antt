-- ===== src/Controller/Updates.antt =====
-- What a response of a device does to the controller: `update_with_link_response` and
-- `update_with_delete_response`, and the turn of the thread for responses. The last number of a result is
-- the error; `none` means that a walk over the table has not ended within the fuel.
use os_domotics.Commands.{
  device_type_argument, link, link_remove_child, link_subcommand, parent_id_argument,
}
use os_domotics.Controller.Check.{Controller, id}
use os_domotics.Controller.Execute.{write_pipe}
use os_domotics.Controller.Processes.{System, worse}
use os_domotics.Messages.{Request, Response}
use os_domotics.Prelude.{
  List, Option, [], bit_or, get_or, if◌then◌else◌, none, some, u8, ℕ, ℤ, ◌==◌, ◌||◌, ◌∷◌,
}
use os_domotics.ReturnCodes.{
  child_not_found, is_error, is_return_error, ok, response_format_error, route_not_found,
  unable_to_close_pipe, unable_to_open_pipe,
}
use os_domotics.Routing.{
  Entry, Table, find_routing_data, insert_direct_routing_data_pid, insert_indirect_routing_data_pid,
  insert_routing_data, set_type, update_type_to_empty, update_type_to_not_empty,
}
use os_domotics.Routing.Registry.{export_routing_table}
use os_domotics.Text.{c_string}
use os_domotics.Utils.{Effect, closed_pipe, direction_down, local_name}

-- The export that ends the updates, and the error.
abbrev pub exporting : ℕ → System → Controller → Option (Controller × ℕ)
exporting fuel s c = elim (export_routing_table fuel s.files c.routing_table id c.devices) [
  | none ↦ none
  | some (devices, code) ↦ some (record c { devices = devices }, code)
]

-- A child has left `source`, whose type is updated.
unfoldable pub removed_child : ℕ → System → Response → Controller → Option (Controller × ℕ)
removed_child fuel s r c =
    let type = u8 (get_or r.arguments device_type_argument 0) in
    elim (find_routing_data c.routing_table r.source) [
      | none ↦ some (c, child_not_found)
      | some device ↦
          let t = set_type c.routing_table r.source type in
          let updated : Option (Controller × ℕ) =
            elim (update_type_to_empty fuel t (find_routing_data t device.parent_id)) [
              | none ↦ none
              | some t' ↦ exporting fuel s (record c { routing_table = t' })
            ] in
          if r.arguments_size == 2 then updated else some (c, response_format_error)
    ]

-- The parent of the source is the same as before: the descriptor of the next hop may be new.
abbrev pub set_next_hop : Table → Entry → ℤ → Table
set_next_hop t source fd = insert_routing_data t (record source { next_hop_fd = fd })

unfoldable pub same_parent : Controller → Entry → Controller × ℕ
same_parent c source =
    if source.parent_id == id
    then (c, ok)
    else elim (find_routing_data c.routing_table source.parent_id) [
      | none ↦ (c, route_not_found)
      | some parent ↦
          (record c { routing_table = set_next_hop c.routing_table source parent.next_hop_fd }, ok)
    ]

-- After the move of the source: the types above it, and the export.
unfoldable pub after_move : ℕ → System → ℕ → Controller → Option (Controller × ℕ)
after_move fuel s source c = elim (find_routing_data c.routing_table source) [
  | none ↦ some (c, child_not_found)
  | some moved ↦ elim (update_type_to_not_empty fuel c.routing_table moved) [
    | none ↦ none
    | some t ↦ exporting fuel s (record c { routing_table = t })
  ]
]

-- The controller is the old parent. An error of the insertion is not looked at.
unfoldable pub leave_controller :
    ℕ → System → Controller → Entry → ℕ → Option (Controller × ℕ × List Effect)
unfolding after_move
leave_controller fuel s c source parent_id =
    let (t, _) =
      insert_indirect_routing_data_pid s.kernel.allocated c.routing_table source.id source.pid
        source.type parent_id in
    let left : Option (Controller × ℕ × List Effect) =
      elim (after_move fuel s source.id (record c { routing_table = t })) [
        | none ↦ none
        | some (c', code) ↦ some (c', code, closed_pipe source.next_hop_fd ∷ [])
      ] in
    if s.kernel.closed source.next_hop_fd
    then left
    else some (c, unable_to_close_pipe, closed_pipe source.next_hop_fd ∷ [])

-- The old parent is told to remove the child, whatever the insertion gave.
unfoldable pub notify_old_parent :
    ℕ → System → Controller → Entry → Entry → Table × ℕ → Option (Controller × ℕ × List Effect)
unfolding after_move
notify_old_parent fuel s c source old_parent (t, error) =
    let q : Request = record {
      destination = source.parent_id;
      command_code = bit_or link link_remove_child;
      argument = source.id;
    } in
    elim (find_routing_data t source.id) [
      | none ↦ some (record c { routing_table = t }, child_not_found, [])
      | some _ ↦ elim (after_move fuel s source.id (record c { routing_table = t })) [
        | none ↦ none
        | some (c', tmp) ↦
            let (written, effects) = write_pipe s.kernel q old_parent.next_hop_fd in
            some (c', worse (worse error tmp) written, effects)
      ]
    ]

unfoldable pub change_parent :
    ℕ → System → Controller → Entry → ℕ → Option (Controller × ℕ × List Effect)
unfolding notify_old_parent
change_parent fuel s c source parent_id =
    let (name, code) = local_name source.id direction_down in
    let fd = s.kernel.opened (c_string name) in
    elim (find_routing_data c.routing_table source.parent_id) [
      | none ↦ some (c, route_not_found, [])
      | some old_parent ↦
          if parent_id == id
          then (if is_error code || is_return_error fd
              then some (c, unable_to_open_pipe, [])
              else notify_old_parent fuel s c source old_parent (
                  insert_direct_routing_data_pid s.kernel.allocated c.routing_table source.id
                    source.pid source.type id fd))
          else notify_old_parent fuel s c source old_parent (
              insert_indirect_routing_data_pid s.kernel.allocated c.routing_table source.id
                source.pid source.type parent_id)
    ]

unfoldable pub update_with_link_response :
    ℕ → System → Response → Controller → Option (Controller × ℕ × List Effect)
unfolding removed_child same_parent leave_controller change_parent
update_with_link_response fuel s r c =
    let parent_id = get_or r.arguments parent_id_argument 0 in
    let without_effects = λ (result : Option (Controller × ℕ)).
      elim result as (λ _. Option (Controller × ℕ × List Effect)) [
        | none ↦ none
        | some (c', code) ↦ some (c', code, [])
      ] in
    if link_subcommand r.command_code == link_remove_child
    then without_effects (removed_child fuel s r c)
    else elim (find_routing_data c.routing_table r.source) [
      | none ↦ some (c, child_not_found, [])
      | some source ↦
          if source.parent_id == parent_id
          then without_effects (some (same_parent c source))
          else if source.parent_id == id
          then leave_controller fuel s c source parent_id
          else change_parent fuel s c source parent_id
    ]
