-- ===== src/Controller/Execute.antt =====
-- The commands of the user that are executed: those for devices are sent, and the list is counted. The
-- output to the terminal is not followed.
use os_domotics.Commands.{max_request_size}
use os_domotics.Controller.{UserCommand}
use os_domotics.Controller.Check.{Controller, id}
use os_domotics.Devices.{format_device_type}
use os_domotics.Messages.{Request, format_request}
use os_domotics.Prelude.{
  Bool, List, Option, [], codes, if◌then◌else◌, negsuc, none, not, pos, replicate, some, suc, true,
  u16, zero, ℕ, ℤ, ◌++◌, ◌+◌, ◌-◌, ◌==◌, ◌∷◌,
}
use os_domotics.ReturnCodes.{
  is_error, ok, route_not_found, unable_to_lock_mutex, unable_to_unlock_mutex, unable_to_write_pipe,
}
use os_domotics.Routing.{
  Entry, Table, find_all_routing_data, find_direct_routing_data, find_routing_data,
}
use os_domotics.Text.{print_unsigned}
use os_domotics.Utils.{Effect, Kernel, shown, wrote}

unfoldable pub write_pipe : Kernel → Request → ℤ → ℕ × List Effect
write_pipe k q fd =
    let (buffer, code) = format_request q (replicate max_request_size 0) max_request_size in
    if is_error code
    then (code, [])
    else if k.written fd buffer
    then (ok, wrote fd buffer ∷ [])
    else (unable_to_write_pipe, [])

-- A command for a device: the request is sent on the pipe of the next hop.
unfoldable pub execute_message : Kernel → Controller → UserCommand → Controller × ℕ × List Effect
execute_message k c u =
    let q : Request = record {
      destination = u.target;
      command_code = u.message_code;
      argument = u.argument;
    } in
    let c' = record c { request = q } in
    let sent : ℕ × List Effect = elim (find_routing_data c.routing_table u.target) [
      | none ↦ (route_not_found, [])
      | some target ↦ write_pipe k q target.next_hop_fd
    ] in
    if not k.locked
    then (c', unable_to_lock_mutex, [])
    else if not k.unlocked
    then (record c' { force_exit = true }, unable_to_unlock_mutex, sent.1)
    else (c', sent.0, sent.1)

unfoldable pub output_device : Entry → Effect
output_device e = shown (
    codes "  "
    ++ (format_device_type e.type
        ++ (codes ", ID: "
            ++ (print_unsigned e.id
                ++ (codes ", Parent ID: "
                    ++ (print_unsigned e.parent_id
                        ++ (codes ", PID: " ++ print_unsigned e.pid)))))))

-- The loop of `execute_list_command`; the count has 16 bits.
unfoldable pub count_children : ℕ → Table → Bool → Option Entry → ℕ → Option (ℕ × List Effect)
unfolding output_device
count_children fuel t output_data none count = some (count, [])
count_children zero t output_data (some current) count = none
count_children (suc fuel) t output_data (some current) count =
    let line : List Effect = if output_data then output_device current ∷ [] else [] in
    elim (find_all_routing_data fuel t id (some current)) [
      | none ↦ none
      | some next ↦
          elim (count_children fuel t output_data next
            (if current.parent_id == id then u16 (count + 1) else count)) [
              | none ↦ none
              | some (n, more) ↦ some (n, line ++ more)
            ]
    ]

-- The number of direct children, or the negated error.
unfoldable pub execute_list_command :
    ℕ → Kernel → Controller → Bool → Option (Controller × ℤ × List Effect)
unfolding count_children
execute_list_command fuel k c output_data =
    let counted =
      count_children fuel c.routing_table output_data
        (find_direct_routing_data c.routing_table id none) 0 in
    let listed : Option (Controller × ℤ × List Effect) = elim counted [
      | none ↦ none
      | some (n, effects) ↦ some (
          if k.unlocked
          then (c, pos n, effects)
          else (record c { force_exit = true }, negsuc (unable_to_unlock_mutex - 1), effects))
    ] in
    if k.locked then listed else some (c, negsuc (unable_to_lock_mutex - 1), [])

-- `switch 0 main`
unfoldable pub execute_switch_main : Controller → UserCommand → Controller × ℕ
execute_switch_main c u =
    if c.state == u.argument then (c, ok) else (record c { state = u.argument }, ok)
