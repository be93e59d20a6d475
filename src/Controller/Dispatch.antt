-- ===== src/Controller/Dispatch.antt =====
-- The commands of the user from the text to their effects: `execute_add_command`, `execute_exit_command`,
-- `execute_user_command` and `process_user_command`. `none` means that a walk over the table has not ended
-- within the fuel.
use os_domotics.Commands.{delete}
use os_domotics.Controller.{
  UserCommand, add_command, info_command, is_message, list_command, parse_user_command,
  sleep_command, switch_main_command,
}
use os_domotics.Controller.Check.{Controller, check_user_command, id}
use os_domotics.Controller.Execute.{
  execute_list_command, execute_message, execute_switch_main, write_pipe,
}
use os_domotics.Controller.Processes.{System, worse}
use os_domotics.Controller.Updates.{exporting}
use os_domotics.Devices.{format_device_type, state_on}
use os_domotics.Messages.{Request}
use os_domotics.Prelude.{
  Bool, Bytes, List, Option, [], codes, false, if◌then◌else◌, negsuc, none, not, pos, some, suc,
  true, u16, zero, ℕ, ℤ, ◌&&◌, ◌++◌, ◌+◌, ◌==◌, ◌||◌, ◌∷◌,
}
use os_domotics.ReturnCodes.{
  is_error, is_return_error, ok, unable_to_create_pipe, unable_to_fork, unable_to_lock_mutex,
  unable_to_open_pipe, unable_to_unlock_mutex,
}
use os_domotics.Routing.{Entry, Table, find_direct_routing_data, insert_direct_routing_data_pid}
use os_domotics.Text.{c_string, print_unsigned}
use os_domotics.Timer.Schedule.{switch_code}
use os_domotics.Utils.{Effect, Kernel, direction_down, local_name, printed, shown}

-- `last_device_id + 1`, in 16 bits.
abbrev pub new_id : Controller → ℕ
new_id c = u16 (c.last_device_id + 1)

abbrev created_text : ℕ → ℕ → ℕ → Bytes
created_text type device_id pid =
    codes "@ Successfully created "
    ++ (format_device_type type
        ++ (codes " with ID: "
            ++ (print_unsigned device_id ++ (codes ", PID: " ++ print_unsigned pid))))

-- The controller after the fork, with the pipe opened and the mutex locked.
unfoldable pub register_device :
    ℕ → System → Controller → ℕ → ℕ → ℤ → Option (Controller × ℕ × List Effect)
register_device fuel s c type pid fd =
    let (t, error) =
      insert_direct_routing_data_pid s.kernel.allocated c.routing_table (new_id c) pid type id fd in
    elim (exporting fuel s (record c { routing_table = t })) [
      | none ↦ none
      | some (c', tmp) ↦ some (
          if s.kernel.unlocked
          then (
            record c' { last_device_id = new_id c },
            worse error tmp,
            shown (created_text type (new_id c) pid) ∷ [],
          )
          else (record c' { force_exit = true }, unable_to_unlock_mutex, []))
    ]

unfoldable pub execute_add_command :
    ℕ → System → Controller → ℕ → Option (Controller × ℕ × List Effect)
unfolding register_device
execute_add_command fuel s c type =
    let (name, code) = local_name (new_id c) direction_down in
    let fd = s.kernel.opened (c_string name) in
    let forked : Option (Controller × ℕ × List Effect) = elim s.forked [
      | negsuc _ ↦ some (c, unable_to_fork, [])
      | pos pid ↦
          let registered = register_device fuel s c type pid fd in
          if is_return_error fd || not s.attributed
          then some (c, unable_to_open_pipe, [])
          else if not s.kernel.locked
          then some (c, unable_to_lock_mutex, [])
          else registered
    ] in
    if is_error code || not (s.made (c_string name))
    then some (c, unable_to_create_pipe, [])
    else forked

-- The loop of `execute_exit_command`. The error is that of the last child.
unfoldable pub send_deletes :
    ℕ → Kernel → Table → Request → Option Entry → ℕ → Option (Request × ℕ × List Effect)
send_deletes fuel k t q none error = some (q, error, [])
send_deletes zero k t q (some direct) error = none
send_deletes (suc fuel) k t q (some direct) error =
    let q' = record q { destination = direct.id } in
    let (written, effects) = write_pipe k q' direct.next_hop_fd in
    elim (send_deletes fuel k t q' (find_direct_routing_data t id (some direct)) written) [
      | none ↦ none
      | some (q'', error', more) ↦ some (q'', error', effects ++ more)
    ]

-- With no children the controller can end at once, otherwise it waits for them.
abbrev pub begin_exit : Controller → Controller
begin_exit c = elim (find_direct_routing_data c.routing_table id none) [
  | none ↦ record c { force_exit = true }
  | some _ ↦ record c { pending_shutdown = true }
]

unfoldable pub execute_exit_command :
    ℕ → System → Controller → Option (Controller × ℕ × List Effect)
unfolding send_deletes
execute_exit_command fuel s c =
    let q = record c.request { command_code = delete } in
    let sent : Option (Controller × ℕ × List Effect) =
      elim (send_deletes fuel s.kernel c.routing_table q
        (find_direct_routing_data c.routing_table id none) ok) [
          | none ↦ none
          | some (q', error, effects) ↦
              let c' = record (begin_exit c) { request = q' } in
              if s.kernel.unlocked
              then some (c', error, effects)
              else some (record c' { force_exit = true }, unable_to_unlock_mutex, effects)
        ] in
    if s.kernel.locked then sent else some (c, unable_to_lock_mutex, [])

abbrev on_off : ℕ → Bytes
on_off state = if state == state_on then codes "on" else codes "off"

-- A listing, between a first line and a last one; its error is printed.
unfoldable pub show_list :
    ℕ → Kernel → Controller → Bool → List Effect → Bytes → Option (Controller × ℕ × List Effect)
show_list fuel k c output_data first text = elim (execute_list_command fuel k c output_data) [
  | none ↦ none
  | some (c', negsuc e, effects) ↦ some (c', suc e, first ++ (effects ++ printed (suc e) ∷ []))
  | some (c', pos n, effects) ↦
      some (c', ok, first ++ (effects ++ shown (text ++ print_unsigned n) ∷ []))
]

abbrev controller_text : ℕ → Bytes
controller_text state =
    codes "> Controller: state: "
    ++ (on_off state ++ codes ", number of directly connected devices: ")

unfoldable pub execute_user_command :
    ℕ → System → Controller → UserCommand → Option (Controller × ℕ × List Effect)
unfolding show_list execute_add_command execute_exit_command
execute_user_command fuel s c u =
    let (switched, switch_code) = execute_switch_main c u in
    let announced : List Effect =
      if c.state == u.argument
      then []
      else shown (codes "> Controller: system is now " ++ on_off u.argument) ∷ [] in
    let added = execute_add_command fuel s c u.argument in
    let listed =
      show_list fuel s.kernel c true (shown (codes "> Controller: active devices:") ∷ [])
        (codes "> Number of directly connected devices: ") in
    let ended = execute_exit_command fuel s c in
    let described = show_list fuel s.kernel c false [] (controller_text c.state) in
    if is_message u.code
    then (if u.code == info_command && u.target == id
        then described
        else some (execute_message s.kernel c u))
    else if u.code == add_command
    then added
    else if u.code == list_command
    then listed
    else if u.code == switch_main_command
    then some (switched, switch_code, announced)
    else if u.code == sleep_command
    then some (c, ok, [])
    else ended

-- Each failure is printed and returned.
unfoldable pub process_user_command :
    ℕ → System → Bytes → Controller → Option (Controller × ℕ × List Effect)
unfolding execute_user_command
process_user_command fuel s [] c = some (c, ok, [])
process_user_command fuel s (b ∷ text) c =
    let (u, parsed) = parse_user_command c.user_command (b ∷ text) in
    let c' = record c { user_command = u } in
    let run : Option (Controller × ℕ × List Effect) = elim (check_user_command fuel s.kernel c' u) [
      | none ↦ none
      | some (c'', checked) ↦
          let executed : Option (Controller × ℕ × List Effect) =
            elim (execute_user_command fuel s c'' u) [
              | none ↦ none
              | some (c''', code, effects) ↦
                  some (c''', code, effects ++ (if is_error code then printed code ∷ [] else []))
            ] in
          if is_error checked then some (c'', checked, printed checked ∷ []) else executed
    ] in
    if is_error parsed then some (c', parsed, printed parsed ∷ []) else run
