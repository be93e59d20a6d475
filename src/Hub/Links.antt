-- ===== src/Hub/Links.antt =====
-- The hub and its routing table: `add_child`, `remove_child` and the functions they call. Each takes fuel
-- for the walks through the table, and gives `none` where a walk has not ended.
use os_domotics.Commands.{
  child_id_argument, device_type_argument, link_remove_child, link_subcommand, parent_id_argument,
}
use os_domotics.Devices.{hub_device, is_empty, no_id}
use os_domotics.Hub.{Hub}
use os_domotics.Messages.{Response}
use os_domotics.Prelude.{
  Bool, Option, bit_or, false, get_or, if◌then◌else◌, none, not, some, suc, true, u32, u8, zero, ℕ,
  ℤ, ◌&&◌, ◌+◌, ◌==◌, ◌||◌,
}
use os_domotics.ReturnCodes.{
  child_not_found, is_error, is_return_error, ok, route_not_found, unable_to_close_pipe,
  unable_to_open_pipe,
}
use os_domotics.Routing.{
  Entry, Table, find_direct_routing_data, find_routing_data, insert_direct_routing_data,
  insert_indirect_routing_data, remove_routing_data, update_type_to_empty, update_type_to_not_empty,
}
use os_domotics.Text.{c_string}
use os_domotics.Utils.{Kernel, direction_down, local_name}

unfoldable pub open_pipe : Kernel → ℕ → ℤ × ℕ
open_pipe k device_id =
    let (name, code) = local_name device_id direction_down in
    let fd = k.opened (c_string name) in
    if is_error code || is_return_error fd then (fd, unable_to_open_pipe) else (fd, ok)

unfoldable pub close_pipe : Kernel → ℤ → ℕ
close_pipe k fd = if k.closed fd then ok else unable_to_close_pipe

-- Whether the old pipe of a child that is known already can be closed.
abbrev pub close_old : Kernel → Hub → ℕ → ℕ
close_old k h source = elim (find_routing_data h.routing_table source) [
  | none ↦ ok
  | some child ↦ if child.parent_id == h.id then close_pipe k child.next_hop_fd else ok
]

abbrev pub announced_type : Hub → ℕ → ℕ
announced_type h type =
    if h.device_type == hub_device then bit_or hub_device type else h.device_type

unfoldable pub add_direct_child : Kernel → Hub → Response → Hub × Response
add_direct_child k h r =
    let type = get_or r.arguments device_type_argument 0 in
    let (fd, opened) = open_pipe k r.source in
    let pipe_error = close_old k h r.source in
    let (table, inserted) =
      insert_direct_routing_data k.allocated h.routing_table r.source (u8 type) h.id fd in
    if is_error opened then (h, record r { response_code = opened }) else (
      record h {
        routing_table = table;
        has_children = if h.device_type == hub_device then true else h.has_children;
        device_type = announced_type h (u8 type);
        children = u32 (h.children + 1);
      },
      record r {
        response_code = if not (pipe_error == ok) && inserted == ok then pipe_error else inserted;
      },
    )

-- The new entry is in the table, so that the pointer to it is not NULL.
unfoldable pub add_indirect_child : ℕ → Kernel → Hub → Response → Option (Hub × Response)
add_indirect_child fuel k h r =
    let type = u8 (get_or r.arguments device_type_argument 0) in
    let (table, inserted) =
      insert_indirect_routing_data k.allocated h.routing_table r.source type
        (get_or r.arguments parent_id_argument 0) in
    let r' = record r { response_code = inserted } in
    if is_error inserted then some (h, r') else elim (find_routing_data table r.source) [
      | none ↦ none
      | some device ↦ elim (update_type_to_not_empty fuel table device) [
        | none ↦ none
        | some filled ↦
            some (record h { routing_table = filled; device_type = announced_type h type }, r')
      ]
    ]

unfoldable pub add_child : ℕ → Kernel → Hub → Response → Option (Hub × Response)
add_child fuel k h r =
    if get_or r.arguments parent_id_argument 0 == h.id
    then some (add_direct_child k h r)
    else add_indirect_child fuel k h r

-- The loop of `update_type`: whether all direct children but one have no leaf type.
unfoldable pub others_empty : ℕ → Table → ℕ → ℕ → Option Entry → Option Bool
others_empty fuel t id child_id none = some true
others_empty zero t id child_id (some child) = none
others_empty (suc fuel) t id child_id (some child) =
    let rest = others_empty fuel t id child_id (find_direct_routing_data t id (some child)) in
    if child.id == child_id then rest else if not (is_empty child.type) then some false else rest

unfoldable pub update_type : ℕ → Hub → ℕ → Option Hub
update_type fuel h child_id =
    elim (others_empty fuel h.routing_table h.id child_id
      (find_direct_routing_data h.routing_table h.id none)) [
        | none ↦ none
        | some empty ↦ some (record h { device_type = if empty then hub_device else h.device_type })
      ]

-- The two steps on the counter of the children; `children` has 32 bits.
abbrev pub count_removed : Hub → Hub
count_removed h =
    let left = u32 (h.children + 4294967295) in
    record h { children = left; has_children = if left == 0 then false else h.has_children }

-- The table after a removal, with the types above the removed entry.
unfoldable pub remove_and_empty : ℕ → Table → ℕ → ℕ → ℕ → Option Table
remove_and_empty fuel t child_id parent above = elim (remove_routing_data fuel t child_id parent) [
  | none ↦ none
  | some t' ↦ update_type_to_empty fuel t' (find_routing_data t' above)
]

-- `parent` is the parameter `parent_id`, with `no_id` for a child that was deleted. `update_type_to_empty`
-- does nothing on NULL, so that the test before it does not matter.
unfoldable pub remove_child : ℕ → Kernel → Hub → Response → ℕ → Option (Hub × Response × Bool)
remove_child fuel k h r parent =
    let child_id = if parent == no_id then r.source else get_or r.arguments child_id_argument 0 in
    elim (find_routing_data h.routing_table child_id) [
      | none ↦ some (h, record r { response_code = child_not_found }, false)
      | some child ↦
          let named = if parent == no_id then child.parent_id else parent in
          let h' = if named == h.id then count_removed h else h in
          let closed = if child.parent_id == h.id then close_pipe k child.next_hop_fd else ok in
          if is_error closed
          then some (h', record r { response_code = closed }, false)
          else elim (remove_and_empty fuel h'.routing_table child_id named child.parent_id) [
            | none ↦ none
            | some table ↦ elim (update_type fuel (record h' { routing_table = table }) child_id) [
              | none ↦ none
              | some u ↦ some (u, r, true)
            ]
          ]
    ]

unfoldable pub link_remove_child_received : ℕ → Hub → Response → Option (Hub × ℕ)
link_remove_child_received fuel h r =
    let child_id = get_or r.arguments child_id_argument 0 in
    elim (find_routing_data h.routing_table child_id) [
      | none ↦ some (h, route_not_found)
      | some _ ↦ elim (remove_and_empty fuel h.routing_table child_id r.source r.source) [
        | none ↦ none
        | some table ↦ elim (update_type fuel (record h { routing_table = table }) child_id) [
          | none ↦ none
          | some u ↦ some (u, ok)
        ]
      ]
    ]

unfoldable pub link_response_bottom_up : ℕ → Kernel → Hub → Response → Option (Hub × Response)
link_response_bottom_up fuel k h r =
    if link_subcommand r.command_code == link_remove_child
    then elim (link_remove_child_received fuel h r) [
      | none ↦ none
      | some (h', code) ↦ some (h', record r { response_code = code })
    ]
    else add_child fuel k h r
