-- ===== src/Tests/Sessions.antt =====
-- Sessions of the controller with the devices of `Routing`: the exit command and its answers.
use os_domotics.Controller.Shutdown
use os_domotics.Commands.{delete}
use os_domotics.Controller.Buried.{sigchld_routine-removes}
use os_domotics.Controller.Check.{Controller, has_direct_child}
use os_domotics.Controller.Deleted.{IsForgotten, update_with_delete_response-IsForgotten}
use os_domotics.Controller.Deletions.{is_last_gone, update_with_delete_response}
use os_domotics.Controller.Dispatch.{execute_exit_command}
use os_domotics.Controller.Ended.{handle_shutdown-ends, pids, signals}
use os_domotics.Controller.Ending.{HasAnswer, execute_exit_command-ends, process_responses}
use os_domotics.Controller.Exit.{
  AsksToDelete, delete_requests, delete_text, execute_exit_command-sends,
}
use os_domotics.Controller.Processes.{System, crashed, exited}
use os_domotics.Controller.Session.{Reads, end_of_file, failed_input, input, line_of}
use os_domotics.Controller.Shutdown.{is_dead, sigchld_routine}
use os_domotics.Controller.Typed.{input_whole_line, terminal_of, typed}
use os_domotics.Messages.{Response}
use os_domotics.Prelude.{
  Bytes, Lacks, List, Option, [], ap, arith, false, if◌then◌else◌, inl, inr, length, ltb, none, pos,
  refl, some, sym, true, ℕ, ℤ, ◌*◌, ◌++◌, ◌+◌, ◌<◌, ◌==◌, ◌||◌, ◌∷◌, ◌≡◌, ◌≤◌, ◌⊎◌,
}
use os_domotics.ReturnCodes.{buffer_too_short, is_error, unable_to_read_file}
use os_domotics.Routing.{
  Entry, Table, find_in_bucket, find_routing_data, init_routing_table, insert_routing_data,
  insert_routing_data_in_bucket,
}
use os_domotics.Routing.Loops.{direct_children}
use os_domotics.Routing.Order.{In}
use os_domotics.Routing.Remove.{Below}
use os_domotics.Routing.Table.{total}
use os_domotics.Routing.Tree.{IsTree, below_in}
use os_domotics.Tests.Routing.{devices, devices-IsRanked, devices-IsTable, height, hub}
use os_domotics.Tests.Trees.{good_files, height-low, stored_cases}
use os_domotics.Tests.Utils.{working}
use os_domotics.Utils.{Effect}

abbrev system : System
system = record {
  kernel = working;
  made = λ _. true;
  forked = pos 400;
  attributed = true;
  polled = λ _. exited 0;
  waited = λ _. true;
  killed = λ _. true;
  absent = λ _. false;
  files = good_files;
  redirect = false;
  ended_ncurses = 0;
  stopped = true;
  joined = true;
}

abbrev deletion : Response
deletion = record {
  source = 1;
  command_code = delete;
  response_code = 0;
  arguments = 0 ∷ [];
  arguments_size = 0;
}

abbrev pub controller : Controller
controller = record {
  state = 1;
  last_device_id = 33;
  routing_table = devices;
  rcv_responses_fd = pos 3;
  force_exit = false;
  pending_shutdown = false;
  shutdown_called = false;
  exit = none;
  request = record { destination = 0; command_code = 0; argument = 0 };
  response = deletion;
  user_command = record { target = 0; code = 0; message_code = 0; argument = 0 };
  devices = none;
}

devices-hub : find_routing_data devices 1 ≡ some hub
unfolding find_routing_data insert_routing_data insert_routing_data_in_bucket init_routing_table
    find_in_bucket
devices-hub = refl

twelve : 2 * 3 + total devices + 3 ≤ 12
unfolding insert_routing_data insert_routing_data_in_bucket init_routing_table
twelve = omega arith

pub devices-IsTree : IsTree height 3 12 devices
devices-IsTree = record {
  table = devices-IsTable;
  ranked = devices-IsRanked;
  low = height-low;
  enough = twelve;
}

ids_fit : (e : Entry) → find_routing_data devices e.id ≡ some e → e.id < 65536
ids_fit e f = elim (stored_cases e.id e f) [
  | inl s ↦ omega (arith, ap (λ x. x.id) s)
  | inr (inl s) ↦ omega (arith, ap (λ x. x.id) s)
  | inr (inr s) ↦ omega (arith, ap (λ x. x.id) s)
]

execute_exit_command-sends_example :
    (c' : Controller) × (error : ℕ) × (execute_exit_command 12 system controller
      ≡ some (c', error, delete_requests working 0 (direct_children devices 0)))
    × ((e : Entry) → In e (direct_children devices 0) → AsksToDelete (delete_text e.id 0) e.id)
    × (c'.routing_table ≡ devices)
    × (if has_direct_child devices 0 then c'.pending_shutdown ≡ true else c'.force_exit ≡ true)
execute_exit_command-sends_example =
    execute_exit_command-sends 12 system controller devices-IsTable (omega (arith, twelve)) ids_fit
      (omega arith) refl refl

update_with_delete_response-IsForgotten_example :
    (c' : Controller) × (code : ℕ) × (effects : List Effect) × (update_with_delete_response 12
        system deletion controller
      ≡ some (c', code, effects))
    × IsForgotten height 3 12 devices hub c'.routing_table
    × (c'.pending_shutdown ≡ false)
    × (c'.force_exit ≡ (is_last_gone c' || false))
update_with_delete_response-IsForgotten_example =
    update_with_delete_response-IsForgotten height 3 12 system deletion controller hub
      devices-IsTree devices-hub

all_answer :
    (e : Entry)
    → find_routing_data devices e.id ≡ some e
    → e.parent_id ≡ 0
    → HasAnswer ((system, deletion) ∷ []) e.id
all_answer e f p = elim (stored_cases e.id e f) [
  | inl s ↦ inl (sym (ap (λ x. x.id) s))
  | inr (inl s) ↦ ground (arith, p, s)
  | inr (inr s) ↦ ground (arith, p, s)
]

execute_exit_command-ends_example :
    (asked : Controller × ℕ × List Effect) × (result : Controller × List Effect)
    × (execute_exit_command 12 system controller ≡ some asked)
    × (process_responses 12 ((system, deletion) ∷ []) asked.0 ≡ some result)
    × (result.0.force_exit ≡ true)
execute_exit_command-ends_example =
    execute_exit_command-ends height 3 12 system ((system, deletion) ∷ []) controller devices-IsTree
      refl refl ((ground arith, ground arith), tt) all_answer

abbrev no_windows : ℕ → ℤ × Bytes
no_windows _ = (pos 0, [])

input_whole_line_example :
    ((line : Bytes) (reads : Reads)
      → Lacks 10 line
      → input false 64 (terminal_of no_windows (typed line ++ some 10 ∷ reads)) ≡ (
          if ltb (length line) 63
          then line_of line (terminal_of no_windows reads)
          else failed_input buffer_too_short (terminal_of no_windows reads)))
    × ((line : Bytes)
        → Lacks 10 line
        → input false 64 (terminal_of no_windows (typed line)) ≡ end_of_file)
    × ((line : Bytes) (reads : Reads)
        → Lacks 10 line
        → input false 64 (terminal_of no_windows (typed line ++ none ∷ reads))
          ≡ failed_input unable_to_read_file (terminal_of no_windows reads))
input_whole_line_example = input_whole_line 64 no_windows (omega arith)

handle_shutdown-ends_example :
    (c' : Controller) × (effects : List Effect) × (code : ℕ) × (Shutdown.handle_shutdown 12 system 0
        false controller
      ≡ some (c', effects))
    × (c'.exit ≡ some code)
    × ((is_error code ≡ true) ⊎ (code ≡ 0))
    × (c'.shutdown_called ≡ true)
    × (signals effects ≡ pids (below_in 3 devices 0))
    × ((e : Entry)
        → find_routing_data devices e.id ≡ some e
        → Below devices 0 e.parent_id
        → find_routing_data c'.routing_table e.id ≡ none)
handle_shutdown-ends_example =
    handle_shutdown-ends height 3 12 system 0 false controller devices-IsTree refl

-- The hub crashes.
abbrev system_with_crash : System
system_with_crash = record system { polled = λ pid. if pid == hub.pid then crashed else exited 0 }

fifteen : 12 + total devices ≤ 15
unfolding insert_routing_data insert_routing_data_in_bucket init_routing_table
fifteen = omega arith

sigchld_routine-removes_example :
    (u : Table) × (registry : Option Bytes) × (effects : List Effect) × (Shutdown.sigchld_routine 15
        system_with_crash controller
      ≡ some (record controller { routing_table = u; devices = registry }, effects))
    × IsTree height 3 12 u
    × ((e : Entry)
        → find_routing_data devices e.id ≡ some e
        → Shutdown.is_dead (system_with_crash.polled e.pid) ≡ true
        → find_routing_data u e.id ≡ none)
    × ((e : Entry)
        → find_routing_data devices e.id ≡ some e
        → Shutdown.is_dead (system_with_crash.polled e.pid) ≡ false
        → (type : ℕ) × (find_routing_data u e.id ≡ some (record e { type = type })))
    × ((q : ℕ) → find_routing_data devices q ≡ none → find_routing_data u q ≡ none)
sigchld_routine-removes_example =
    sigchld_routine-removes height 3 12 15 system_with_crash controller devices-IsTree fifteen refl
      refl refl refl
