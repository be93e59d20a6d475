-- ===== src/Hub/Answers.antt =====
-- The thread of the hub that reads the answers of the children: `bottom_up_handler`.
use os_domotics.Commands.{is_delete, is_link, max_response_size, null_command}
use os_domotics.Devices.{no_id}
use os_domotics.Hub.{
  Hub, Pending, at_position, check_complete_and_send, check_pending, format_response_type,
  free_pending, update_pending, write_pipe_response,
}
use os_domotics.Hub.Links.{link_response_bottom_up, remove_child}
use os_domotics.Hub.Requests.{bytes_of, read_pipe}
use os_domotics.Messages.{Response, parse_response}
use os_domotics.Prelude.{
  List, Option, [], false, if◌then◌else◌, none, not, set, some, true, ℕ, ◌&&◌, ◌++◌, ◌∷◌,
}
use os_domotics.ReturnCodes.{is_error, unable_to_lock_mutex}
use os_domotics.Utils.{Effect, Kernel, Reading, printed}

-- What is left to do with a response, and whether it is written in the end.
unfoldable pub settle : Kernel → Hub → Response → ℕ → Pending → Hub × List Effect
settle k h r i pending =
    let p = update_pending h.routing_table pending r in
    let (h', r') = format_response_type h r p in
    if p.is_complete
    then (
      record h' { pending_responses = free_pending i h.pending_responses },
      write_pipe_response k h' r',
    )
    else (record h { pending_responses = set h.pending_responses i p }, [])

-- The answer of a deleted child. A failed removal prints its error, and the response keeps its code.
unfoldable pub release_deleted : ℕ → Kernel → Hub → Response → Option (Hub × List Effect)
release_deleted fuel k h r = elim (remove_child fuel k h r no_id) [
  | none ↦ none
  | some (h', r', removed) ↦
      let r'' = record r' { response_code = r.response_code } in
      let complained = if removed then [] else printed r'.response_code ∷ [] in
      elim (check_complete_and_send fuel k h' r'' r'') [
        | none ↦ none
        | some (u, _, effects) ↦ some (u, complained ++ (write_pipe_response k h' r'' ++ effects))
      ]
]

-- A response that is not a link, with the mutex held.
unfoldable pub account : ℕ → Kernel → Hub → Response → Option (Hub × List Effect)
account fuel k h r =
    let (pendings, position) = check_pending false r h.pending_responses in
    let h' = record h { pending_responses = pendings } in
    let other =
      if is_delete r.command_code
      then release_deleted fuel k h' r
      else some (h', write_pipe_response k h' r) in
    elim position [
      | none ↦ other
      | some i ↦ elim (at_position pendings i) [
        | none ↦ other
        | some pending ↦ some (settle k h' r i pending)
      ]
    ]

-- A response with the mutex held, after the read with an error code.
unfoldable pub process_response : ℕ → Kernel → Hub → Response → ℕ → Option (Hub × List Effect)
process_response fuel k h r code =
    let failure = record r {
      command_code = null_command;
      response_code = code;
      source = h.id;
      arguments_size = 0;
    } in
    if is_error code
    then some (h, write_pipe_response k h failure)
    else if is_link r.command_code && not (is_error r.response_code)
    then elim (link_response_bottom_up fuel k h r) [
      | none ↦ none
      | some (h', r') ↦ some (h', write_pipe_response k h' r')
    ]
    else account fuel k h r

-- The read and the parse of a turn.
unfoldable pub receive : Reading → Hub → Response → Hub × Response × ℕ
receive reading h r =
    let (h', code) = read_pipe reading h max_response_size in
    let (r', parsed) = parse_response r (bytes_of reading) max_response_size in
    if is_error code then (h', r, code) else (h', r', parsed)

-- One turn of the loop of `bottom_up_handler`. Where the mutex cannot be locked, the response is lost.
unfoldable pub bottom_up_turn : ℕ → Kernel → Reading → Hub → Response → Option (Hub × List Effect)
bottom_up_turn fuel k reading h r =
    let (h', r', code) = receive reading h r in
    if not k.locked
    then some (h', printed unable_to_lock_mutex ∷ [])
    else elim (process_response fuel k h' r' code) [
      | none ↦ none
      | some (u, effects) ↦
          if k.unlocked then some (u, effects) else some (record u { force_exit = true }, effects)
    ]
