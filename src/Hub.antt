-- ===== src/Hub.antt =====
-- The hub: code/src/hub.c. It sends a request for itself on to all its direct children, and answers when
-- all of them have answered: a pending command counts who is left. This file has the state, the pending
-- commands and the answers that are formed from them. The two threads of the hub are in `Hub/Requests` and
-- `Hub/Answers`, what they do to the routing table in `Hub/Links`.
pub mod Links
pub mod Requests
pub mod Answers
pub mod Consensus
pub mod Pendings
pub mod Shutdown
use os_domotics.Commands.{
  additional_delete_argument, additional_info_argument, additional_switch_argument, is_delete,
  is_info, is_switch, max_request_size, max_response_size, open_time_argument, state_argument,
}
use os_domotics.Devices.{is_hub, no_id, state_manual_override, undefined_state}
use os_domotics.Messages.{Request, Response, format_request, format_response}
use os_domotics.Prelude.{
  Bool, List, Option, [], false, get_or, if◌then◌else◌, leb, ltb, none, not, replicate, set, some,
  suc, true, u8, zero, ℕ, ℤ, ◌&&◌, ◌++◌, ◌==◌, ◌||◌, ◌∷◌,
}
use os_domotics.ReturnCodes.{child_error, is_error, ok, unable_to_write_pipe}
use os_domotics.Routing.{Entry, Table, find_routing_data}
use os_domotics.Utils.{Effect, Kernel, printed, wrote}

-- `pending_devices` is the part of the array that is in use, of `pending_devices_size` ids.
pub record Pending : Type 0 where
  pub command_code : ℕ
  pub pending_devices : List ℕ
  pub state : ℕ
  pub max_time : ℕ
  pub has_error : Bool
  pub is_complete : Bool

pub record Hub : Type 0 where
  pub id : ℕ
  pub device_type : ℕ
  pub routing_table : Table
  pub children : ℕ
  pub has_children : Bool
  pub pending_responses : List Pending
  pub parent_id : ℕ
  pub force_exit : Bool
  pub parent_changed : Bool
  pub remove_child_succeed : Bool
  pub rcv_requests_parent_fd : ℤ
  pub snd_responses_parent_fd : ℤ
  pub rcv_responses_children_fd : ℤ

-- The result is NULL where `malloc` fails. The devices are filled in by the caller.
unfoldable pub init_pending : Kernel → ℕ → Option Pending
init_pending k command_code =
    if k.allocated
    then some (record {
      command_code = command_code;
      pending_devices = [];
      state = undefined_state;
      max_time = 0;
      has_error = false;
      is_complete = false;
    })
    else none

-- The loop over the devices of a pending command: the ids with the source struck out, whether nobody is
-- left, and whether the source was found.
unfoldable pub strike : ℕ → List ℕ → List ℕ × Bool × Bool
strike source [] = ([], true, false)
strike source (device ∷ devices) =
    let (rest, complete, found) = strike source devices in
    if device == source
    then (no_id ∷ rest, complete, true)
    else if not (device == no_id)
    then (device ∷ rest, false, found)
    else (device ∷ rest, complete, found)

-- A position in a list that is one longer.
abbrev pub later : Option ℕ → Option ℕ
later none = none
later (some i) = some (suc i)

-- The result is the position of the pending command that waits for the source, and `ignore_command` is the
-- first argument. `previous` is the position before.
unfoldable pub check_pending : Bool → Response → List Pending → List Pending × Option ℕ
check_pending ignore r [] = ([], none)
check_pending ignore r (p ∷ ps) =
    let (devices, complete, found) = strike r.source p.pending_devices in
    let (rest, position) = check_pending ignore r ps in
    let p' = record p { pending_devices = devices; is_complete = complete } in
    if ignore || p.command_code == r.command_code
    then if found then (p' ∷ ps, some 0) else (p' ∷ rest, later position)
    else (p ∷ rest, later position)

-- The state of a pending command after one more state.
abbrev pub combine : ℕ → ℕ → ℕ
combine state answer =
    if state == undefined_state
    then u8 answer
    else if not (state == answer) && not (answer == undefined_state)
    then state_manual_override
    else state

-- The additional argument of the answer of a hub.
abbrev pub has_child_error : Response → Bool
has_child_error r =
    let argument = λ (i : ℕ). get_or r.arguments i 0 in
    is_info r.command_code
      && (r.arguments_size == 3 && argument additional_info_argument == child_error)
    || (is_switch r.command_code
          && (r.arguments_size == 1 && argument additional_switch_argument == child_error)
        || is_delete r.command_code
          && (r.arguments_size == 1 && argument additional_delete_argument == child_error))

abbrev pub is_hub_entry : Option Entry → Bool
is_hub_entry none = false
is_hub_entry (some entry) = is_hub entry.type

unfoldable pub update_pending : Table → Pending → Response → Pending
update_pending t p r =
    let state = get_or r.arguments state_argument 0 in
    let time = get_or r.arguments open_time_argument 0 in
    let live = is_info r.command_code && leb 2 r.arguments_size in
    record p {
      state = if live then combine p.state state else p.state;
      max_time = if live && ltb p.max_time time then time else p.max_time;
      has_error =
          if is_error r.response_code
            || is_hub_entry (find_routing_data t r.source) && has_child_error r
          then true
          else p.has_error;
    }

unfoldable pub info_response : Response → Pending → Response
info_response r p =
    let arguments = set (set r.arguments state_argument p.state) open_time_argument p.max_time in
    if p.has_error
    then record r {
      arguments = set arguments additional_info_argument child_error;
      arguments_size = 3;
    }
    else record r { arguments = arguments; arguments_size = 2 }

unfoldable pub switch_response : Response → Pending → Response
switch_response r p =
    if p.has_error
    then record r {
      arguments = set r.arguments additional_switch_argument child_error;
      arguments_size = 1;
    }
    else record r { arguments_size = 0 }

-- Without an error, the response keeps its arguments.
unfoldable pub delete_response : Response → Pending → Response
delete_response r p =
    if p.has_error
    then record r {
      arguments = set r.arguments additional_delete_argument child_error;
      arguments_size = 1;
    }
    else r

unfoldable pub format_response_type : Hub → Response → Pending → Hub × Response
format_response_type h r p =
    let r' = record r { source = h.id; response_code = ok } in
    if is_info r.command_code
    then (h, info_response r' p)
    else if is_switch r.command_code
    then (h, switch_response r' p)
    else if is_delete r.command_code
    then (record h { force_exit = true }, delete_response r' p)
    else (h, r')

-- The buffers are local, and their first contents do not matter.
unfoldable pub write_pipe_response : Kernel → Hub → Response → List Effect
write_pipe_response k h r =
    let (buffer, code) = format_response r (replicate max_response_size 0) max_response_size in
    if is_error code
    then printed code ∷ []
    else if k.written h.snd_responses_parent_fd buffer
    then wrote h.snd_responses_parent_fd buffer ∷ []
    else printed unable_to_write_pipe ∷ []

unfoldable pub write_pipe_request : Kernel → Request → ℤ → List Effect
write_pipe_request k r fd =
    let (buffer, code) = format_request r (replicate max_request_size 0) max_request_size in
    if is_error code
    then printed code ∷ []
    else if k.written fd buffer
    then wrote fd buffer ∷ []
    else printed unable_to_write_pipe ∷ []

-- The pending command at a position; it is there when `check_pending` gives the position.
abbrev pub at_position : List Pending → ℕ → Option Pending
at_position [] i = none
at_position (p ∷ ps) zero = some p
at_position (p ∷ ps) (suc i) = at_position ps i

unfoldable pub free_pending : ℕ → List Pending → List Pending
free_pending i [] = []
free_pending zero (p ∷ ps) = ps
free_pending (suc i) (p ∷ ps) = p ∷ free_pending i ps

-- The body of the loop of `check_complete_and_send`, for the pending command that was found.
unfoldable pub complete_one : Kernel → Hub → Response → ℕ → Pending → Hub × Response × List Effect
complete_one k h r i p =
    let (h', r') = format_response_type h (record r { command_code = p.command_code }) p in
    if p.is_complete
    then (
      record h' { pending_responses = free_pending i h'.pending_responses },
      r',
      write_pipe_response k h' r',
    )
    else (h, r, [])

-- The source is the one of the child that is gone; `none` means that the loop has not ended.
unfoldable pub check_complete_and_send :
    ℕ → Kernel → Hub → Response → Response → Option (Hub × Response × List Effect)
check_complete_and_send zero k h r child = none
check_complete_and_send (suc fuel) k h r child =
    let (pendings, position) = check_pending true child h.pending_responses in
    let h' = record h { pending_responses = pendings } in
    elim position [
      | none ↦ some (h', r, [])
      | some i ↦ elim (at_position pendings i) [
        | none ↦ some (h', r, [])
        | some p ↦
            let (h'', r', effects) = complete_one k h' r i p in
            elim (check_complete_and_send fuel k h'' r' child) [
              | none ↦ none
              | some (u, r'', more) ↦ some (u, r'', effects ++ more)
            ]
      ]
    ]
