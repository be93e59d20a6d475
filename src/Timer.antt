-- ===== src/Timer.antt =====
-- The timer: code/src/timer.c. It has at most one child, switches it at two times of the day, and mirrors it
-- to the parent: a command for the timer is sent to the child and answered when the child answers. This file
-- has the globals and the functions that the three threads share. `exit` is the argument of the call of
-- `handle_shutdown`, after which nothing more happens. The locks of one step answer alike.
pub mod Child
pub mod Commands
pub mod Schedule
pub mod Bounds
pub mod Mirror
pub mod Shutdown
use os_domotics.Devices
use os_domotics.Commands.{command_mask, max_request_size, max_response_size}
use os_domotics.Devices.{timer_device}
use os_domotics.Messages.{Request, Response, format_request, format_response}
use os_domotics.Prelude.{
  Bool, Bytes, List, Option, [], bit_and, bit_or, false, if◌then◌else◌, none, not, replicate, some,
  true, ℕ, ℤ, ◌*◌, ◌++◌, ◌-◌, ◌==◌, ◌||◌, ◌∷◌,
}
use os_domotics.ReturnCodes.{
  broken_pipe, is_error, is_return_error, ok, unable_to_close_pipe, unable_to_lock_mutex,
  unable_to_open_pipe, unable_to_unlock_mutex,
}
use os_domotics.Routing.{Table, find_routing_data, remove_routing_data}
use os_domotics.Text.{c_string}
use os_domotics.Utils.{Effect, Kernel, direction_down, local_name, printed, wrote}

pub record Timer : Type 0 where
  pub id : ℕ
  pub device_type : ℕ
  pub state : ℕ
  pub begin_time : ℕ
  pub end_time : ℕ
  pub parent_id : ℕ
  pub has_child : Bool
  pub child_id : ℕ
  pub child_type : ℕ
  pub routing_table : Table
  pub parent_changed : Bool
  pub pending_commands : List ℕ
  pub defer_response : Bool
  pub rcv_requests_fd : ℤ
  pub snd_responses_fd : ℤ
  pub rcv_responses_child_fd : ℤ
  pub snd_requests_child_fd : ℤ
  pub force_exit : Bool
  pub shutdown_code : ℕ
  pub request : Request
  pub response : Response
  pub exit : Option ℕ

abbrev pub max_timer_arguments : ℕ
max_timer_arguments = 4

abbrev pub minutes_in_a_day : ℕ
minutes_in_a_day = 1440

abbrev pub seconds_in_a_day : ℕ
seconds_in_a_day = minutes_in_a_day * 60

abbrev pub default_begin : ℕ
default_begin = 0

abbrev pub default_end : ℕ
default_end = minutes_in_a_day - 1

abbrev pub lock_error : List Effect
lock_error = printed unable_to_lock_mutex ∷ []

-- `unlock_data`
unfoldable pub unlock_data : Kernel → Timer → Timer × List Effect
unlock_data k t = if k.unlocked then (t, []) else (
  record t { force_exit = true; shutdown_code = unable_to_unlock_mutex },
  printed unable_to_unlock_mutex ∷ [],
)

unfoldable pub add_pending : Kernel → ℕ → Timer → Timer × Bool
add_pending k code t =
    if k.allocated
    then (record t { pending_commands = t.pending_commands ++ code ∷ [] }, true)
    else (t, false)

-- The list without the first command of the kind, and whether there is one.
unfoldable pub take_pending : ℕ → List ℕ → List ℕ × Bool
take_pending code [] = ([], false)
take_pending code (current ∷ next) =
    let (rest, found) = take_pending code next in
    if bit_and current command_mask == bit_and code command_mask
    then (next, true)
    else (current ∷ rest, found)

unfoldable pub write_to_parent : Kernel → Bytes → Timer → Timer × List Effect
write_to_parent k buffer t =
    let (t', complained) = unlock_data k t in
    if not k.locked
    then (record t { exit = some unable_to_lock_mutex }, lock_error)
    else if k.written t.snd_responses_fd buffer
    then (t', wrote t.snd_responses_fd buffer ∷ complained)
    else (record t' { exit = some broken_pipe }, complained ++ printed broken_pipe ∷ [])

-- A response in a local buffer, whose first contents do not matter.
abbrev pub response_bytes : Response → Bytes × ℕ
response_bytes r = format_response r (replicate max_response_size 0) max_response_size

unfoldable pub send_response : Kernel → Response → Timer → Timer × List Effect
send_response k r t =
    let (buffer, code) = response_bytes r in
    if is_error code then (t, printed code ∷ []) else write_to_parent k buffer t

unfoldable pub refresh_child_type : Timer → Timer
refresh_child_type t =
    let type : ℕ = elim (find_routing_data t.routing_table t.child_id) [
      | none ↦ t.child_type
      | some entry ↦ entry.type
    ] in
    record t { child_type = type; device_type = bit_or timer_device (Devices.child_type type) }

-- `none` means that the removal has not ended within the fuel.
unfoldable pub drop_child : ℕ → Kernel → Timer → Option (Timer × ℕ)
drop_child fuel k t = elim (remove_routing_data fuel t.routing_table t.child_id t.id) [
  | none ↦ none
  | some table ↦ some (
    record t { routing_table = table; has_child = false; device_type = timer_device },
    if k.closed t.snd_requests_child_fd then ok else unable_to_close_pipe,
  )
]

-- `drop_child` and the print of its error.
unfoldable pub drop_and_print : ℕ → Kernel → Timer → Option (Timer × List Effect)
drop_and_print fuel k t = elim (drop_child fuel k t) [
  | none ↦ none
  | some (t', code) ↦ some (t', if is_error code then printed code ∷ [] else [])
]

unfoldable pub release_unreachable_child : ℕ → Kernel → Timer → Option (Timer × List Effect)
release_unreachable_child fuel k t =
    let dropped = if t.has_child then drop_and_print fuel k t else some (t, []) in
    if not k.locked then some (t, lock_error) else elim dropped [
      | none ↦ none
      | some (t', complained) ↦ let (t'', more) = unlock_data k t' in some (t'', complained ++ more)
    ]

unfoldable pub open_child_requests_pipe : Kernel → ℕ → ℤ × ℕ
open_child_requests_pipe k id =
    let (name, code) = local_name id direction_down in
    let fd = k.opened (c_string name) in
    if is_error code || is_return_error fd then (fd, unable_to_open_pipe) else (fd, ok)

-- A request that is written to the child: the error of its format, whether it was written, and the bytes.
unfoldable pub write_request : Kernel → Request → ℤ → ℕ × Bool × List Effect
write_request k q fd =
    let (buffer, code) = format_request q (replicate max_request_size 0) max_request_size in
    if is_error code
    then (code, false, [])
    else if k.written fd buffer
    then (code, true, wrote fd buffer ∷ [])
    else (code, false, [])
