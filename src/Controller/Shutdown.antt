-- ===== src/Controller/Shutdown.antt =====
-- The ends: `handle_shutdown`, and `sigchld_routine`, which follows the processes that end by themselves.
-- `none` means that a walk over the table has not ended within the fuel.
use os_domotics.Commands.{link, link_remove_child}
use os_domotics.Controller.Check.{Controller, id}
use os_domotics.Controller.Deletions.{is_last_gone}
use os_domotics.Controller.Execute.{write_pipe}
use os_domotics.Controller.Output.{print_hex}
use os_domotics.Controller.Processes.{
  System, Waited, crashed, end_child_device_fifos, end_responses_fifo, exited, removal_fails,
  shutdown_devices, wait_failed,
}
use os_domotics.Controller.Updates.{exporting}
use os_domotics.Devices.{format_device_type}
use os_domotics.Messages.{Request}
use os_domotics.Prelude.{
  Bool, Bytes, List, Option, [], bit_or, codes, false, if◌then◌else◌, none, not, some, suc, true,
  zero, ℕ, ◌&&◌, ◌++◌, ◌==◌, ◌||◌, ◌∷◌,
}
use os_domotics.ReturnCodes.{
  is_error, ok, unable_to_cancel_thread, unable_to_join_thread, unable_to_lock_mutex,
  unable_to_remove_file, unable_to_unlock_mutex, unable_to_wait,
}
use os_domotics.Routing.{
  Entry, Table, find_routing_data, find_unreachable_routing_data, remove_entry,
  update_type_to_empty,
}
use os_domotics.Text.{print_unsigned}
use os_domotics.Utils.{Effect, printed, shown, unlinked}

-- The error so far, and what was printed of it.
abbrev pub worsen : ℕ × List Effect → ℕ → ℕ × List Effect
worsen (error, effects) tmp =
    if is_error tmp then (tmp, effects ++ printed tmp ∷ []) else (error, effects)

-- The end of the thread for responses, unless it is the thread that ends the controller.
abbrev pub responses_thread_error : System → Bool → ℕ
responses_thread_error s in_responses_thread =
    if in_responses_thread
    then ok
    else if not s.joined
    then unable_to_join_thread
    else if not s.stopped
    then unable_to_cancel_thread
    else ok

abbrev pub registry_file : Bytes
registry_file = codes "./ipc/devices.registry"

abbrev pub tmp_registry_file : Bytes
tmp_registry_file = codes "./ipc/tmp.registry"

abbrev pub files_error : System → ℕ
files_error s =
    if removal_fails s registry_file || removal_fails s tmp_registry_file
    then unable_to_remove_file
    else ok

-- The controller exits with the last error of its steps, or else with the one it is ended for.
unfoldable pub handle_shutdown :
    ℕ → System → ℕ → Bool → Controller → Option (Controller × List Effect)
handle_shutdown fuel s error in_responses_thread c =
    let c' = record c { shutdown_called = true; force_exit = true } in
    let first = worsen (ok, []) (end_responses_fifo s c.rcv_responses_fd) in
    let second = if s.redirect then worsen first s.ended_ncurses else first in
    let (third, effects) = worsen second (responses_thread_error s in_responses_thread) in
    let ended : Option (Controller × List Effect) =
      elim (shutdown_devices fuel s c.routing_table id true) [
        | none ↦ none
        | some (t, tmp, more) ↦
            let (fourth, effects') = worsen (third, effects ++ more) tmp in
            let (last, effects'') = worsen (fourth, effects') (files_error s) in
            some (
              record c' { routing_table = t; exit = some (if is_error last then last else error) },
              effects'' ++ unlinked registry_file ∷ unlinked tmp_registry_file ∷ [],
            )
      ] in
    if c.shutdown_called then some (c, []) else ended

-- Whether a process has ended with an error, which its delete response does not announce.
abbrev pub is_dead : Waited → Bool
is_dead (exited code) = is_error code
is_dead crashed = true
is_dead _ = false

abbrev pub obituary : Entry → Waited → List Effect
obituary e (exited code) =
    shown (
      codes "# "
      ++ (format_device_type e.type
          ++ (codes " with ID "
              ++ (print_unsigned e.id ++ (codes " exited with error code: 0x" ++ print_hex code)))))
    ∷ []
obituary e _ =
    shown (
      codes "# "
      ++ (format_device_type e.type
          ++ (codes " with ID " ++ (print_unsigned e.id ++ codes " crashed"))))
    ∷ []

-- The parent of a dead device is told, unless it is the controller or dead itself.
unfoldable pub notify_parent : System → Controller → Entry → ℕ → ℕ × List Effect
notify_parent s c e error =
    let q : Request = record {
      destination = e.parent_id;
      command_code = bit_or link link_remove_child;
      argument = e.id;
    } in
    let (tmp, effects) = write_pipe s.kernel q e.next_hop_fd in
    elim (find_routing_data c.routing_table e.parent_id) [
      | none ↦ (error, [])
      | some _ ↦
          if e.parent_id == id
          then (error, [])
          else if is_error tmp && not c.force_exit
          then (tmp, effects ++ printed tmp ∷ [])
          else (error, effects)
    ]

-- The death of a device, before its entry is removed: everything below it is terminated.
unfoldable pub bury : ℕ → System → Controller → Entry → ℕ → Option (ℕ × List Effect)
unfolding notify_parent
bury fuel s c e error =
    let (first, notice) = notify_parent s c e error in
    let (fifos, cleaning) = end_child_device_fifos s e in
    let (second, effects) = worsen (first, notice ++ cleaning) fifos in
    elim (shutdown_devices fuel s c.routing_table e.id false) [
      | none ↦ none
      | some (_, tmp, more) ↦
          let (third, effects') = worsen (second, effects ++ more) tmp in
          some (third, obituary e (s.polled e.pid) ++ effects')
    ]

-- The entry leaves its bucket, and the types above it are updated.
unfoldable pub remove_dead :
    ℕ → System → Controller → Entry → ℕ → Option (Controller × ℕ × List Effect)
remove_dead fuel s c e error =
    let t = remove_entry c.routing_table e.id in
    elim (update_type_to_empty fuel t (find_routing_data t e.parent_id)) [
      | none ↦ none
      | some t' ↦ elim (exporting fuel s (record c { routing_table = t' })) [
        | none ↦ none
        | some (c', tmp) ↦
            let (error', effects) = worsen (error, []) tmp in some (c', error', effects)
      ]
    ]

-- What stands at a pointer to an entry that is still in the table.
abbrev pub at_pointer : Table → Option Entry → Option Entry
at_pointer t none = none
at_pointer t (some e) = find_routing_data t e.id

-- The loop over the whole table; the next entry is found before the current one is removed.
unfoldable pub check_processes :
    ℕ → System → Controller → Option Entry → ℕ → Option (Controller × ℕ × List Effect)
unfolding bury remove_dead
check_processes fuel s c none error = some (c, error, [])
check_processes zero s c (some current) error = none
check_processes (suc fuel) s c (some current) error =
    let next = find_unreachable_routing_data c.routing_table (some current) in
    let skipped : Option (Controller × ℕ × List Effect) =
      elim (check_processes fuel s c next error) [
        | none ↦ none
        | some (c', error', more) ↦ some (
          c',
          error',
          elim (s.polled current.pid) as (λ _. List Effect) [
            | wait_failed ↦ printed unable_to_wait ∷ more
            | _ ↦ more
          ],
        )
      ] in
    let buried : Option (Controller × ℕ × List Effect) = elim (bury fuel s c current error) [
      | none ↦ none
      | some (first, effects) ↦ elim (remove_dead fuel s c current first) [
        | none ↦ none
        | some (c', second, effects') ↦
            elim (check_processes fuel s c' (at_pointer c'.routing_table next) second) [
              | none ↦ none
              | some (c'', error', more) ↦ some (c'', error', effects ++ (effects' ++ more))
            ]
      ]
    ] in
    if is_dead (s.polled current.pid) then buried else skipped

-- The end of the routine: a failed unlock or the last child gone ends the controller.
unfoldable pub after_processes :
    ℕ → System → Controller → ℕ → List Effect → Option (Controller × List Effect)
unfolding handle_shutdown
after_processes fuel s c error effects =
    let code = if s.kernel.unlocked then error else unable_to_unlock_mutex in
    let complained : List Effect =
      if s.kernel.unlocked then [] else printed unable_to_unlock_mutex ∷ [] in
    let shut : Option (Controller × List Effect) = elim (handle_shutdown fuel s code false c) [
      | none ↦ none
      | some (c', more) ↦ some (c', effects ++ (complained ++ more))
    ] in
    if not s.kernel.unlocked || is_last_gone c then shut else some (c, effects)

unfoldable pub sigchld_routine : ℕ → System → Controller → Option (Controller × List Effect)
unfolding check_processes after_processes
sigchld_routine fuel s c =
    let checked : Option (Controller × List Effect) =
      elim (check_processes fuel s c (find_unreachable_routing_data c.routing_table none) ok) [
        | none ↦ none
        | some (c', error, effects) ↦ after_processes fuel s c' error effects
      ] in
    if c.force_exit
    then some (c, [])
    else if not s.kernel.locked
    then some (c, printed unable_to_lock_mutex ∷ [])
    else checked
