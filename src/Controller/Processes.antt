-- ===== src/Controller/Processes.antt =====
-- The processes and the pipes of the devices: what the controller opens, closes, signals and waits for.
use os_domotics.Controller.Check.{id}
use os_domotics.Devices.{is_control}
use os_domotics.Prelude.{
  Bool, Bytes, List, Option, [], if◌then◌else◌, inl, inr, none, not, some, suc, zero, ℕ, ℤ, ◌&&◌,
  ◌++◌, ◌==◌, ◌||◌, ◌∷◌, ◌⊎◌,
}
use os_domotics.ReturnCodes.{
  is_error, is_return_error, ok, unable_to_close_pipe, unable_to_create_pipe, unable_to_remove_pipe,
  unable_to_send_signal,
}
use os_domotics.Routing.{
  Entry, Table, find_all_routing_data, find_direct_routing_data, remove_routing_data,
}
use os_domotics.Routing.Registry.{Files}
use os_domotics.Text.{c_string}
use os_domotics.Utils.{
  Effect, Kernel, closed_pipe, direction_down, direction_up, local_name, signalled, unlinked,
}

-- waitpid with WNOHANG: the process still runs, has exited with a code, was killed by a signal, is no child
-- that can be waited for (errno ECHILD), or another error.
pub data Waited : Type 0 where
  running : Waited
  exited : ℕ → Waited
  crashed : Waited
  no_child : Waited
  wait_failed : Waited

-- What the system calls of the controller answer: those of a device; mkfifo; fork, whose result is negative
-- on failure; fcntl; waitpid without and with blocking; kill; whether errno is ENOENT where a removal fails;
-- and the calls on files. `redirect` tells whether ncurses
-- are used, and `ended_ncurses` is the error of their end; `stopped` and `joined` are pthread_cancel and pthread_join of the thread for
-- responses.
pub record System : Type 0 where
  pub kernel : Kernel
  pub made : Bytes → Bool
  pub forked : ℤ
  pub attributed : Bool
  pub polled : ℕ → Waited
  pub waited : ℕ → Bool
  pub killed : ℕ → Bool
  pub absent : Bytes → Bool
  pub files : Files
  pub redirect : Bool
  pub ended_ncurses : ℕ
  pub stopped : Bool
  pub joined : Bool

-- `remove(name) < 0 && errno != ENOENT`
abbrev pub removal_fails : System → Bytes → Bool
removal_fails s name = not (s.kernel.removed name) && not (s.absent name)

-- The error after an attempt to remove a pipe, from the one before.
unfoldable pub remove_pipe : System → ℕ → Bool → ℕ → ℕ × List Effect
remove_pipe s device_id direction error =
    let (name, code) = local_name device_id direction in
    if is_error code then (unable_to_remove_pipe, []) else (
      if removal_fails s (c_string name) then unable_to_remove_pipe else error,
      unlinked (c_string name) ∷ [],
    )

unfoldable pub end_child_device_fifos : System → Entry → ℕ × List Effect
unfolding remove_pipe
end_child_device_fifos s device =
    let direct = device.parent_id == id in
    let closing : List Effect = if direct then closed_pipe device.next_hop_fd ∷ [] else [] in
    let first =
      if direct && not (s.kernel.closed device.next_hop_fd) then unable_to_close_pipe else ok in
    let (second, removing) = remove_pipe s device.id direction_down first in
    let (third, removing') = remove_pipe s device.id direction_up second in
    if is_control device.type
    then (third, closing ++ (removing ++ removing'))
    else (second, closing ++ removing)

-- An error takes the place of the one before.
abbrev pub worse : ℕ → ℕ → ℕ
worse error tmp = if is_error tmp then tmp else error

-- The first loop of `shutdown_devices`: every device below is terminated, and its pipes are removed.
unfoldable pub terminate_devices :
    ℕ → System → Table → ℕ → Option Entry → ℕ → Option (ℕ × List Effect)
unfolding end_child_device_fifos
terminate_devices fuel s t parent_id none error = some (error, [])
terminate_devices zero s t parent_id (some device) error = none
terminate_devices (suc fuel) s t parent_id (some device) error =
    let sent = if s.killed device.pid then error else unable_to_send_signal in
    let (tmp, effects) = end_child_device_fifos s device in
    elim (find_all_routing_data fuel t parent_id (some device)) [
      | none ↦ none
      | some next ↦ elim (terminate_devices fuel s t parent_id next (worse sent tmp)) [
        | none ↦ none
        | some (error', more) ↦ some (error', signalled device.pid ∷ (effects ++ more))
      ]
    ]

-- The second loop: the direct children are removed from the table, each after the next one is found.
unfoldable pub remove_devices : ℕ → Table → ℕ → Option Entry → Option Table
remove_devices fuel t parent_id none = some t
remove_devices zero t parent_id (some device) = none
remove_devices (suc fuel) t parent_id (some device) =
    let next = find_direct_routing_data t parent_id (some device) in
    elim (remove_routing_data fuel t device.id parent_id) [
      | none ↦ none
      | some t' ↦ remove_devices fuel t' parent_id next
    ]

unfoldable pub shutdown_devices : ℕ → System → Table → ℕ → Bool → Option (Table × ℕ × List Effect)
unfolding terminate_devices remove_devices
shutdown_devices fuel s t parent_id complete =
    elim (terminate_devices fuel s t parent_id (find_direct_routing_data t parent_id none) ok) [
      | none ↦ none
      | some (error, effects) ↦
          let emptied : Option (Table × ℕ × List Effect) =
            elim (remove_devices fuel t parent_id (find_direct_routing_data t parent_id none)) [
              | none ↦ none
              | some t' ↦ some (t', error, effects)
            ] in
          if complete then emptied else some (t, error, effects)
    ]

-- The close may fail because the pipe is closed already, which is no error.
unfoldable pub end_responses_fifo : System → ℤ → ℕ
unfolding remove_pipe
end_responses_fifo s rcv_responses_fd =
    let (name, code) = local_name id direction_up in
    if not (s.kernel.closed rcv_responses_fd)
    then ok
    else if is_error code || not (s.kernel.removed (c_string name))
    then unable_to_remove_pipe
    else ok

-- The descriptor, or the exit with the error.
unfoldable pub start_responses_fifo : System → ℤ ⊎ ℕ
start_responses_fifo s =
    let (name, code) = local_name id direction_up in
    let fd = s.kernel.opened (c_string name) in
    if is_error code || (not (s.made (c_string name)) || is_return_error fd)
    then inr unable_to_create_pipe
    else inl fd
