-- ===== src/Timer/Shutdown.antt =====
-- The end of a timer: `handle_shutdown` of code/src/timer.c.
use os_domotics.Prelude.{Bool, List, Option, [], if◌then◌else◌, none, not, some, ℕ, ◌&&◌, ◌++◌, ◌∷◌}
use os_domotics.ReturnCodes.{
  is_error, unable_to_cancel_thread, unable_to_close_pipe, unable_to_join_thread,
}
use os_domotics.Routing.{Table, remove_routing_data}
use os_domotics.Timer.{Timer}
use os_domotics.Utils.{Effect, Kernel, end_device_fifos, printed}

-- The end of a thread that runs. The first two are pthread_cancel and pthread_join.
abbrev pub end_thread : Bool → Bool → Bool → List Effect
end_thread cancelled joined is_running =
    if is_running
    then (if cancelled then [] else printed unable_to_cancel_thread ∷ [])
      ++ (if joined then [] else printed unable_to_join_thread ∷ [])
    else []

-- Which threads run, and whether it is the thread for the responses of the child that ends the timer.
pub record Threads : Type 0 where
  pub child_thread_running : Bool
  pub schedule_thread_running : Bool
  pub is_child_thread : Bool
  pub joined : Bool

abbrev pub end_threads : Kernel → Threads → List Effect
end_threads k s =
    end_thread k.cancelled s.joined (s.child_thread_running && not s.is_child_thread)
    ++ end_thread k.cancelled s.joined s.schedule_thread_running

-- The child's pipe is closed and the child leaves the table; then the timer exits.
unfoldable pub handle_shutdown : ℕ → Kernel → Threads → ℕ → Timer → Option (Timer × List Effect)
handle_shutdown fuel k s error t =
    let removed : Option Table =
      if t.has_child
      then remove_routing_data fuel t.routing_table t.child_id t.id
      else some t.routing_table in
    let closing : List Effect =
      if t.has_child
      then (if k.closed t.snd_requests_child_fd then [] else printed unable_to_close_pipe ∷ [])
      else [] in
    let err =
      end_device_fifos k t.id t.rcv_requests_fd t.snd_responses_fd
        (some t.rcv_responses_child_fd) in
    elim removed [
      | none ↦ none
      | some table ↦ some (
        record t { routing_table = table; exit = some (if is_error err then err else error) },
        end_threads k s ++ (closing ++ (if is_error err then printed err ∷ [] else [])),
      )
    ]
