-- ===== src/Controller/Deletions.antt =====
-- What a successful delete does to the controller: `update_with_delete_response`. The last number of a result
-- is the error; `none` means that a walk over the table has not ended within the fuel.
use os_domotics.Controller.Check.{Controller, has_direct_child, id}
use os_domotics.Controller.Processes.{
  System, Waited, end_child_device_fifos, running, wait_failed, worse,
}
use os_domotics.Controller.Updates.{exporting}
use os_domotics.Messages.{Response}
use os_domotics.Prelude.{
  Bool, List, Option, [], if◌then◌else◌, none, not, some, suc, zero, ℕ, ◌&&◌, ◌++◌, ◌||◌,
}
use os_domotics.ReturnCodes.{child_not_found, ok, unable_to_wait}
use os_domotics.Routing.{
  Entry, Table, find_all_routing_data, find_direct_routing_data, find_routing_data,
  remove_routing_data, update_type_to_empty,
}
use os_domotics.Utils.{Effect}

-- waitpid with WNOHANG, where ECHILD is no error.
abbrev pub poll_error : Waited → ℕ → ℕ
poll_error wait_failed error = unable_to_wait
poll_error _ error = error

-- The wait with blocking, for a process that was still running.
abbrev pub wait_error : System → ℕ → ℕ → ℕ
wait_error s pid error = elim (s.polled pid) [
  | running ↦ if s.waited pid then error else unable_to_wait
  | _ ↦ error
]

-- The loop over everything below the deleted device.
unfoldable pub wait_children : ℕ → System → Table → ℕ → Option Entry → ℕ → Option (ℕ × List Effect)
wait_children fuel s t device_id none error = some (error, [])
wait_children zero s t device_id (some child) error = none
wait_children (suc fuel) s t device_id (some child) error =
    let (tmp, effects) = end_child_device_fifos s child in
    let error' = wait_error s child.pid (worse (poll_error (s.polled child.pid) error) tmp) in
    elim (find_all_routing_data fuel t device_id (some child)) [
      | none ↦ none
      | some next ↦ elim (wait_children fuel s t device_id next error') [
        | none ↦ none
        | some (error'', more) ↦ some (error'', effects ++ more)
      ]
    ]

-- The entry and everything below it leave the table, and the types above are updated.
unfoldable pub forget_device : ℕ → Table → Entry → Option Table
forget_device fuel t device = elim (remove_routing_data fuel t device.id device.parent_id) [
  | none ↦ none
  | some t' ↦ update_type_to_empty fuel t' (find_routing_data t device.parent_id)
]

-- `pending_shutdown && find_direct_routing_data(routing_table, id, NULL) == NULL`
abbrev pub is_last_gone : Controller → Bool
is_last_gone c = c.pending_shutdown && not (has_direct_child c.routing_table id)

-- The end of the update.
unfoldable pub after_forgetting : ℕ → System → Controller → Table → ℕ → ℕ → Option (Controller × ℕ)
after_forgetting fuel s c t pid error =
    let c' = record c { routing_table = t } in
    let c'' = record c' { force_exit = is_last_gone c' || c.force_exit } in
    elim (exporting fuel s c'') [
      | none ↦ none
      | some (c''', tmp) ↦ some (c''', wait_error s pid (worse error tmp))
    ]

unfoldable pub update_with_delete_response :
    ℕ → System → Response → Controller → Option (Controller × ℕ × List Effect)
unfolding wait_children forget_device after_forgetting
update_with_delete_response fuel s r c = elim (find_routing_data c.routing_table r.source) [
  | none ↦ some (c, child_not_found, [])
  | some device ↦
      let (tmp, effects) = end_child_device_fifos s device in
      let first = worse (poll_error (s.polled device.pid) ok) tmp in
      elim (wait_children fuel s c.routing_table device.id
        (find_direct_routing_data c.routing_table device.id none) first) [
          | none ↦ none
          | some (error, more) ↦ elim (forget_device fuel c.routing_table device) [
            | none ↦ none
            | some t ↦ elim (after_forgetting fuel s c t device.pid error) [
              | none ↦ none
              | some (c', error') ↦ some (c', error', effects ++ more)
            ]
          ]
        ]
]
