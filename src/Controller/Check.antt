-- ===== src/Controller/Check.antt =====
-- `check_user_command`: whether a command of the user makes sense for the devices that are there.
use os_domotics.Commands.{
  is_info, is_link, is_registry, is_switch, registry_delay, registry_subcommand, switch_label,
  switch_power,
}
use os_domotics.Controller.{
  UserCommand, exit_command, info_command, is_message, list_command, switch_main_command,
}
use os_domotics.Devices.{
  child_type, controller_id, is_bulb_like, is_empty, is_fridge, is_fridge_like, is_leaf, is_timer,
  is_window_like, state_off,
}
use os_domotics.Messages.{Request, Response}
use os_domotics.Prelude.{
  Bool, Bytes, Option, false, if◌then◌else◌, none, not, some, suc, true, zero, ℕ, ℤ, ◌&&◌, ◌==◌,
  ◌||◌,
}
use os_domotics.ReturnCodes.{
  cannot_add_to_parent, device_not_found, device_type_mismatch, linking_parent_to_child, ok,
  system_off, unable_to_lock_mutex, unable_to_unlock_mutex,
}
use os_domotics.Routing.{Entry, Table, find_direct_routing_data, find_routing_data}
use os_domotics.Utils.{Kernel}

-- The globals of the controller; `shutdown_called` is `handle_shutdown_called`, `exit` the code that it has
-- exited with, and `devices` the contents of the registry that it exports.
pub record Controller : Type 0 where
  pub state : ℕ
  pub last_device_id : ℕ
  pub routing_table : Table
  pub rcv_responses_fd : ℤ
  pub force_exit : Bool
  pub pending_shutdown : Bool
  pub shutdown_called : Bool
  pub exit : Option ℕ
  pub request : Request
  pub response : Response
  pub user_command : UserCommand
  pub devices : Option Bytes

abbrev pub id : ℕ
id = controller_id

-- The commands that are left when the system is off.
abbrev pub allowed_off : UserCommand → Bool
allowed_off u =
    u.code == list_command
    || (u.code == exit_command
        || (u.code == info_command && u.target == id || u.code == switch_main_command))

abbrev pub check_switch : ℕ → ℕ → ℕ
check_switch type message_code =
    if is_bulb_like type
    then if switch_label message_code == switch_power then ok else device_type_mismatch
    else if is_window_like type || is_fridge_like type
    then if switch_label message_code == switch_power then device_type_mismatch else ok
    else device_type_mismatch

abbrev pub check_registry : ℕ → ℕ → ℕ
check_registry type message_code =
    if is_timer type
    then if registry_subcommand message_code == registry_delay then device_type_mismatch else ok
    else if is_fridge type
    then if registry_subcommand message_code == registry_delay then ok else device_type_mismatch
    else device_type_mismatch

-- One turn of the loop over the parents: the error so far.
abbrev pub check_parent : ℕ → Entry → Entry → ℕ
check_parent error target parent =
    if (not (is_empty target.type) && not (is_empty parent.type))
      && not (child_type target.type == child_type parent.type)
    then device_type_mismatch
    else if parent.parent_id == target.id
    then linking_parent_to_child
    else error

-- The loop. The C loop goes on as long as there is a parent; `none` means that it has not ended.
unfoldable pub check_parents : ℕ → Table → Entry → Option Entry → ℕ → Option ℕ
check_parents fuel t target none error = some error
check_parents zero t target (some parent) error = none
check_parents (suc fuel) t target (some parent) error =
    check_parents fuel t target (find_routing_data t parent.parent_id)
      (check_parent error target parent)

-- `find_direct_routing_data(routing_table, parent->id, NULL) != NULL`
abbrev pub has_direct_child : Table → ℕ → Bool
has_direct_child t id = elim (find_direct_routing_data t id none) [ none ↦ false | some _ ↦ true ]

unfoldable pub check_link : ℕ → Table → Entry → ℕ → Option ℕ
check_link fuel t target argument =
    let found : Option ℕ = elim (find_routing_data t argument) [
      | none ↦ some device_not_found
      | some parent ↦
          let walked = check_parents fuel t target (some parent) ok in
          if is_leaf parent.type
          then some device_type_mismatch
          else if is_timer parent.type && has_direct_child t parent.id
          then some cannot_add_to_parent
          else walked
    ] in
    if target.id == argument
    then some linking_parent_to_child
    else if target.parent_id == argument
    then some cannot_add_to_parent
    else if argument == id
    then some ok
    else found

-- The checks that need the table.
unfoldable pub check_target : ℕ → Table → UserCommand → Option ℕ
check_target fuel t u = elim (find_routing_data t u.target) [
  | none ↦ some device_not_found
  | some target ↦
      let linked = check_link fuel t target u.argument in
      if is_switch u.message_code
      then some (check_switch target.type u.message_code)
      else if is_registry u.message_code
      then some (check_registry target.type u.message_code)
      else if is_link u.message_code
      then linked
      else some ok
]

-- The new controller, since a failed unlock forces the exit, and the error.
unfoldable pub check_user_command : ℕ → Kernel → Controller → UserCommand → Option (Controller × ℕ)
check_user_command fuel k c u =
    let checked : Option (Controller × ℕ) = elim (check_target fuel c.routing_table u) [
      | none ↦ none
      | some error ↦ some (
          if k.unlocked
          then (c, error)
          else (record c { force_exit = true }, unable_to_unlock_mutex))
    ] in
    if u.code == switch_main_command && not (u.target == id)
    then some (c, device_type_mismatch)
    else if c.state == state_off
    then some (c, if allowed_off u then ok else system_off)
    else if not (is_message u.code)
    then some (c, ok)
    else if is_info u.message_code && u.target == id
    then some (c, ok)
    else if u.target == id
    then some (c, device_type_mismatch)
    else if not k.locked
    then some (c, unable_to_lock_mutex)
    else checked
