-- ===== src/Controller/Exit.antt =====
-- The exit command, and the end that it leads to: every direct child is asked to delete itself, and once all of
-- them have answered the controller ends.
use os_domotics.Commands.{delete, max_request_size}
use os_domotics.Controller.Check.{Controller, has_direct_child, id}
use os_domotics.Controller.Dispatch.{begin_exit, execute_exit_command, send_deletes}
use os_domotics.Controller.Execute.{write_pipe}
use os_domotics.Controller.Processes.{System}
use os_domotics.Messages.{Request, format_request, parse_request}
use os_domotics.Messages.Requests.{IsRequest, parse_request-format_request}
use os_domotics.Messages.Responses.{sent}
use os_domotics.Prelude.{
  Bool-cases, Bytes, List, Option, Option-cases, [], ap, arith, if◌then◌else◌, inl, inr, length,
  none, refl, replicate, some, suc, true, zero, ℕ, ◌++◌, ◌<◌, ◌∙◌, ◌∷◌, ◌≡◌, ◌≤◌,
}
use os_domotics.ReturnCodes.{ok}
use os_domotics.Routing.{Entry, Table, find_direct_routing_data, find_routing_data}
use os_domotics.Routing.Loops.{
  Visits, direct_children, direct_children-Visits, find_direct_routing_data-Visits,
}
use os_domotics.Routing.Order.{In}
use os_domotics.Routing.Refinement.{run}
use os_domotics.Routing.Table.{IsTable, total}
use os_domotics.Routing.Types.{length-direct_children}
use os_domotics.Routing.Whole.{first}
use os_domotics.Utils.{Effect, Kernel, wrote}

abbrev delete_for : ℕ → ℕ → ℕ → Request
delete_for device_id command_code argument = record {
  destination = device_id;
  command_code = command_code;
  argument = argument;
}

-- The requests that are written for some children: each has its own destination, and the command and the
-- argument are the same.
abbrev pub requests_for : Kernel → ℕ → ℕ → List Entry → List Effect
requests_for k command_code argument [] = []
requests_for k command_code argument (e ∷ es) =
    (write_pipe k (delete_for e.id command_code argument) e.next_hop_fd).1
    ++ requests_for k command_code argument es

send_deletes-Visits :
    (fuel : ℕ) (k : Kernel) (t : Table) (d a b : ℕ) (es : List Entry) (current : Option Entry)
    (error : ℕ)
    → Visits t id es current
    → length es ≤ fuel
    → (result : Request × ℕ) × (send_deletes fuel k t (delete_for d a b) current error
        ≡ some (result.0, result.1, requests_for k a b es))
unfolding send_deletes
send_deletes-Visits fuel k t d a b [] current error visited h =
    ((delete_for d a b, error), rw visited refl)
send_deletes-Visits zero k t d a b (e ∷ es) current error visited h = absurd (omega arith)
send_deletes-Visits (suc fuel) k t d a b (e ∷ es) current error (first, visited) h =
    let written = (write_pipe k (delete_for e.id a b) e.next_hop_fd).0 in
    let (result, run) =
      send_deletes-Visits fuel k t e.id a b es (find_direct_routing_data t id (some e)) written
        visited (omega arith) in
    (result, go result run)
  where
    go :
        (result : Request × ℕ)
        → send_deletes fuel k t
            (delete_for e.id a b)
            (find_direct_routing_data t id (some e))
            (write_pipe k (delete_for e.id a b) e.next_hop_fd).0
          ≡ some (result.0, result.1, requests_for k a b es)
        → send_deletes (suc fuel) k t (delete_for d a b) current error
          ≡ some (result.0, result.1, requests_for k a b (e ∷ es))
    go result run = rw (first, send_deletes, run) refl

begin_exit-table : (c : Controller) → (begin_exit c).routing_table ≡ c.routing_table
begin_exit-table c = elim (Option-cases (find_direct_routing_data c.routing_table id none)) [
  | inl out ↦ rw (begin_exit, out) refl
  | inr (e, found) ↦ rw (begin_exit, found) refl
]

execute_exit_command-run :
    (fuel : ℕ) (s : System) (c : Controller) (q : Request) (error : ℕ) (effects : List Effect)
    → s.kernel.locked ≡ true
    → s.kernel.unlocked ≡ true
    → send_deletes fuel s.kernel c.routing_table
        (record c.request { command_code = delete })
        (find_direct_routing_data c.routing_table id none)
        ok
      ≡ some (q, error, effects)
    → execute_exit_command fuel s c ≡ some (record (begin_exit c) { request = q }, error, effects)
unfolding execute_exit_command
execute_exit_command-run fuel s c q error effects locked unlocked run =
    rw (execute_exit_command, run, locked, unlocked) refl

pub execute_exit_command-runs :
    (fuel : ℕ) (s : System) (c : Controller)
    → IsTable c.routing_table
    → total c.routing_table ≤ fuel
    → s.kernel.locked ≡ true
    → s.kernel.unlocked ≡ true
    → (c' : Controller) × (error : ℕ) × (execute_exit_command fuel s c
        ≡ some (
          c',
          error,
          requests_for s.kernel delete c.request.argument (direct_children c.routing_table id),
        ))
      × (c'.routing_table ≡ c.routing_table)
      × (if has_direct_child c.routing_table id
          then c'.pending_shutdown ≡ true
          else c'.force_exit ≡ true)
execute_exit_command-runs fuel s c v h locked unlocked =
    let es = direct_children c.routing_table id in
    let (result, run) =
      send_deletes-Visits fuel s.kernel c.routing_table c.request.destination delete
        c.request.argument es (find_direct_routing_data c.routing_table id none) ok
        (direct_children-Visits c.routing_table id v)
        (omega (arith, h, length-direct_children c.routing_table id)) in
    (
      record (begin_exit c) { request = result.0 },
      result.1,
      execute_exit_command-run fuel s c result.0 result.1
          (requests_for s.kernel delete c.request.argument es) locked unlocked run,
      begin_exit-table c,
      elim (Option-cases (find_direct_routing_data c.routing_table id none)) [
        | inl out ↦ rw (begin_exit, has_direct_child, out) refl
        | inr (e, found) ↦ rw (begin_exit, has_direct_child, found) refl
      ],
    )

-- The bytes of a request to delete a device.
abbrev pub delete_text : ℕ → ℕ → Bytes
delete_text device_id argument =
    (format_request (delete_for device_id delete argument) (replicate max_request_size 0)
      max_request_size).0

-- What is written when each of some children is sent its request to delete itself: all of its bytes, on the pipe
-- of the child, or nothing where the write fails.
abbrev pub delete_requests : Kernel → ℕ → List Entry → List Effect
delete_requests k argument [] = []
delete_requests k argument (e ∷ es) =
    (if k.written e.next_hop_fd (delete_text e.id argument)
      then wrote e.next_hop_fd (delete_text e.id argument) ∷ []
      else [])
    ++ delete_requests k argument es

-- Whoever parses the bytes gets the request to delete the device, whatever the request held before.
abbrev pub AsksToDelete : Bytes → ℕ → Type 0
AsksToDelete bytes device_id =
    (old : Request)
    → parse_request old bytes max_request_size
      ≡ (record old { destination = device_id; command_code = delete }, ok)

delete_for-IsRequest :
    (device_id argument : ℕ)
    → device_id < 65536
    → argument < 65536
    → IsRequest (delete_for device_id delete argument)
delete_for-IsRequest device_id argument h h' = record {
  destination = h;
  command_code = omega arith;
  argument = h';
}

delete_text-AsksToDelete :
    (device_id argument : ℕ)
    → device_id < 65536
    → argument < 65536
    → AsksToDelete (delete_text device_id argument) device_id
delete_text-AsksToDelete device_id argument h h' old =
    (parse_request-format_request old (delete_for device_id delete argument)
      (replicate max_request_size 0) (delete_for-IsRequest device_id argument h h') refl).1

write_pipe-delete :
    (k : Kernel) (e : Entry) (argument : ℕ)
    → e.id < 65536
    → argument < 65536
    → (write_pipe k (delete_for e.id delete argument) e.next_hop_fd).1 ≡ (
        if k.written e.next_hop_fd (delete_text e.id argument)
        then wrote e.next_hop_fd (delete_text e.id argument) ∷ []
        else [])
unfolding write_pipe
write_pipe-delete k e argument h h' =
    let fine =
      (parse_request-format_request (delete_for e.id delete argument)
        (delete_for e.id delete argument) (replicate max_request_size 0)
        (delete_for-IsRequest e.id argument h h') refl).0 in
    elim (Bool-cases (k.written e.next_hop_fd (delete_text e.id argument))) [
      | inl sent ↦ rw (fine, sent) refl
      | inr unsent ↦ rw (fine, unsent) refl
    ]

requests_for-delete :
    (k : Kernel) (argument : ℕ) (es : List Entry)
    → ((e : Entry) → In e es → e.id < 65536)
    → argument < 65536
    → requests_for k delete argument es ≡ delete_requests k argument es
requests_for-delete k argument [] h h' = refl
requests_for-delete k argument (e ∷ es) h h' =
    let first : List Effect =
      if k.written e.next_hop_fd (delete_text e.id argument)
      then wrote e.next_hop_fd (delete_text e.id argument) ∷ []
      else [] in
    ap (λ l. l ++ requests_for k delete argument es)
      (write_pipe-delete k e argument (h e (inl refl)) h')
    ∙ ap (λ l. first ++ l) (requests_for-delete k argument es (λ d i. h d (inr i)) h')

-- With the mutex locked and unlocked, in a well-formed table whose ids have 16 bits, and with 16 bits in
-- the argument of the request that is reused, the exit command ends. For each direct child, in the order of
-- the table and whatever the other writes answer, it writes one request on the pipe of that child, or
-- nothing where that one write fails; a child that parses its request is asked to delete itself. The
-- command leaves the table; and it makes the exit pending where there is a direct child, and forces it
-- where there is none.
pub execute_exit_command-sends :
    (fuel : ℕ) (s : System) (c : Controller)
    → IsTable c.routing_table
    → total c.routing_table ≤ fuel
    → ((e : Entry) → find_routing_data c.routing_table e.id ≡ some e → e.id < 65536)
    → c.request.argument < 65536
    → s.kernel.locked ≡ true
    → s.kernel.unlocked ≡ true
    → (c' : Controller) × (error : ℕ) × (execute_exit_command fuel s c
        ≡ some (
          c',
          error,
          delete_requests s.kernel c.request.argument (direct_children c.routing_table id),
        ))
      × ((e : Entry)
          → In e (direct_children c.routing_table id)
          → AsksToDelete (delete_text e.id c.request.argument) e.id)
      × (c'.routing_table ≡ c.routing_table)
      × (if has_direct_child c.routing_table id
          then c'.pending_shutdown ≡ true
          else c'.force_exit ≡ true)
execute_exit_command-sends fuel s c v h words word locked unlocked =
    let es = direct_children c.routing_table id in
    let small : (e : Entry) → In e es → e.id < 65536 =
      λ e i. words e (((find_direct_routing_data-Visits c.routing_table id v).1 e).0 i).0 in
    let (c', error, run, table, state) = execute_exit_command-runs fuel s c v h locked unlocked in
    (
      c',
      error,
      run
          ∙ ap (λ l. some (c', error, l))
              (requests_for-delete s.kernel c.request.argument es small word),
      λ e i. delete_text-AsksToDelete e.id c.request.argument (small e i) word,
      table,
      state,
    )
