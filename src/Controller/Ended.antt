-- ===== src/Controller/Ended.antt =====
-- The end of the controller by `handle_shutdown`.
use os_domotics.Controller.Check.{Controller, id}
use os_domotics.Controller.Cleared.{remove_devices-ends}
use os_domotics.Controller.Processes.{
  System, end_child_device_fifos, end_responses_fifo, remove_pipe, shutdown_devices,
  terminate_devices, worse,
}
use os_domotics.Controller.Shutdown.{
  files_error, handle_shutdown, registry_file, responses_thread_error, tmp_registry_file, worsen,
}
use os_domotics.Devices.{is_control}
use os_domotics.Prelude.{
  Bool, Bool-cases, List, Option, [], ap, append-nil, arith, false, if◌then◌else◌, inl, inr, length,
  none, not, refl, some, subst, suc, sym, true, zero, ℕ, ℤ, ◌&&◌, ◌++◌, ◌+◌, ◌<◌, ◌==◌, ◌∙◌, ◌∷◌,
  ◌≡◌, ◌⊎◌,
}
use os_domotics.ReturnCodes.{is_error, ok, unable_to_close_pipe, unable_to_send_signal}
use os_domotics.ReturnCodes.Exits.{exit_code, exit_code-cases}
use os_domotics.Routing.{Entry, Table, find_direct_routing_data, find_routing_data}
use os_domotics.Routing.Loops.{direct_children, find_direct_routing_data-Visits}
use os_domotics.Routing.Order.{In}
use os_domotics.Routing.Refinement.{run}
use os_domotics.Routing.Remove.{Below, self, under}
use os_domotics.Routing.Table.{find-id}
use os_domotics.Routing.Tree.{IsTree, below_in, below_in-Walks, below_in-enough}
use os_domotics.Routing.Walk.{Walks}
use os_domotics.Utils.{
  Effect, closed_pipe, direction_down, direction_up, local_name, printed, shown, signalled,
  unlinked, wrote,
}

-- The processes that SIGTERM is sent to.
abbrev pub signals : List Effect → List ℕ
signals [] = []
signals (signalled pid ∷ effects) = pid ∷ signals effects
signals (_ ∷ effects) = signals effects

signals-append : (xs ys : List Effect) → signals (xs ++ ys) ≡ signals xs ++ signals ys
signals-append [] ys = refl
signals-append (signalled pid ∷ xs) ys = ap (λ l. pid ∷ l) (signals-append xs ys)
signals-append (wrote _ _ ∷ xs) ys = signals-append xs ys
signals-append (printed _ ∷ xs) ys = signals-append xs ys
signals-append (shown _ ∷ xs) ys = signals-append xs ys
signals-append (closed_pipe _ ∷ xs) ys = signals-append xs ys
signals-append (unlinked _ ∷ xs) ys = signals-append xs ys

abbrev pub pids : List Entry → List ℕ
pids [] = []
pids (e ∷ es) = e.pid ∷ pids es

signals-remove_pipe :
    (s : System) (device_id : ℕ) (direction : Bool) (error : ℕ)
    → signals (remove_pipe s device_id direction error).1 ≡ []
unfolding remove_pipe
signals-remove_pipe s device_id direction error =
    elim (Bool-cases (is_error (local_name device_id direction).1)) [
      | inl bad ↦ ground (arith, bad)
      | inr good ↦ ground (arith, good)
    ]

silent-append : (xs ys : List Effect) → signals xs ≡ [] → signals ys ≡ [] → signals (xs ++ ys) ≡ []
silent-append xs ys h k = signals-append xs ys ∙ (ap (λ l. l ++ signals ys) h ∙ k)

signals-if : (b : Bool) (fd : ℤ) → signals (if b then closed_pipe fd ∷ [] else []) ≡ []
signals-if true fd = refl
signals-if false fd = refl

either_silent :
    (b : Bool) (x y : ℕ × List Effect)
    → signals x.1 ≡ []
    → signals y.1 ≡ []
    → signals (if b then x else y).1 ≡ []
either_silent true x y h k = h
either_silent false x y h k = k

signals-end_child_device_fifos :
    (s : System) (e : Entry) → signals (end_child_device_fifos s e).1 ≡ []
unfolding end_child_device_fifos
signals-end_child_device_fifos s e =
    let direct = e.parent_id == id in
    let closing : List Effect = if direct then closed_pipe e.next_hop_fd ∷ [] else [] in
    let first =
      if direct && not (s.kernel.closed e.next_hop_fd) then unable_to_close_pipe else ok in
    let down = remove_pipe s e.id direction_down first in
    let up = remove_pipe s e.id direction_up down.0 in
    let closed = signals-if direct e.next_hop_fd in
    let removed = signals-remove_pipe s e.id direction_down first in
    let removed' = signals-remove_pipe s e.id direction_up down.0 in
    either_silent (is_control e.type) (up.0, closing ++ (down.1 ++ up.1))
      (down.0, closing ++ down.1)
      (silent-append closing (down.1 ++ up.1) closed (silent-append down.1 up.1 removed removed'))
      (silent-append closing down.1 closed removed)

pub terminate_devices-ends :
    (bound fuel : ℕ) (s : System) (t : Table) (top : ℕ) (es : List Entry) (current : Option Entry)
    (error : ℕ)
    → Walks bound t top es current
    → bound + length es < fuel
    → (result : ℕ × List Effect) × (terminate_devices fuel s t top current error ≡ some result)
      × (signals result.1 ≡ pids es)
unfolding terminate_devices
terminate_devices-ends bound fuel s t top [] current error w h = ((error, []), rw w refl, refl)
terminate_devices-ends bound zero s t top (e ∷ es) current error w h = absurd (omega arith)
terminate_devices-ends bound (suc fuel) s t top (e ∷ es) current error (here_now, next, found, w)
      h =
    let sent = if s.killed e.pid then error else unable_to_send_signal in
    let (tmp, effects) = end_child_device_fifos s e in
    let hit = found fuel (omega (arith, h)) in
    let (result, run, sums) =
      terminate_devices-ends bound fuel s t top es next (worse sent tmp) w (omega (arith, h)) in
    (
      (result.0, signalled e.pid ∷ (effects ++ result.1)),
      rw (here_now, terminate_devices, hit, run) refl,
      ap (λ l. e.pid ∷ l)
          (signals-append effects result.1
            ∙ (ap (λ l. l ++ signals result.1) (signals-end_child_device_fifos s e) ∙ sums)),
    )

-- What `worsen` prints is no signal, and the error that it gives is the first one or an error.
worsen_silent :
    (error tmp : ℕ) (effects : List Effect)
    → signals (worsen (error, effects) tmp).1 ≡ signals effects
worsen_silent error tmp effects = elim (Bool-cases (is_error tmp)) [
  | inl bad ↦
      ground (arith, bad, signals-append effects (printed tmp ∷ []), append-nil (signals effects))
  | inr good ↦ ground (arith, good)
]

-- What is below a device is below one of its direct children, or is one.
child_above :
    (rank : ℕ → ℕ) (bound fuel : ℕ) (t : Table)
    → IsTree rank bound fuel t
    → (top : ℕ) (e : Entry) → find_routing_data t e.id ≡ some e
    → Below t top e.parent_id
    → (c : Entry) × In c (direct_children t top) × Below t c.id e.id
child_above rank bound fuel t tree top e f b = go e f e.parent_id refl b
  where
    go :
        (e : Entry)
        → find_routing_data t e.id ≡ some e
        → (q : ℕ) → e.parent_id ≡ q
        → Below t top q
        → (c : Entry) × In c (direct_children t top) × Below t c.id e.id
    go e f q s self =
        (e, ((find_direct_routing_data-Visits t top tree.table).1 e).1 (f, s), Below.self)
    go e f q s (under _ d g b) =
        let same = find-id t q d g in
        let stored = subst (λ n. find_routing_data t n ≡ some d) (sym same) g in
        let (c, i, below) = go d stored d.parent_id refl b in
        (c, i, Below.under e.id e f (subst (Below t c.id) (same ∙ sym s) below))

shutdown_devices-ends :
    (rank : ℕ → ℕ) (bound fuel : ℕ) (s : System) (t : Table) (top : ℕ)
    → IsTree rank bound fuel t
    → (u : Table) × (result : ℕ × List Effect) × (shutdown_devices fuel s t top true
        ≡ some (u, result.0, result.1))
      × (signals result.1 ≡ pids (below_in bound t top))
      × ((e : Entry)
          → find_routing_data t e.id ≡ some e
          → Below t top e.parent_id
          → find_routing_data u e.id ≡ none)
unfolding shutdown_devices
shutdown_devices-ends rank bound fuel s t top tree =
    let es = below_in bound t top in
    let first = find_direct_routing_data t top none in
    let (result, run, sums) =
      terminate_devices-ends bound fuel s t top es first ok
        (below_in-Walks rank bound fuel t tree top) (below_in-enough rank bound fuel t tree top) in
    let (u, cleared, _, gone) =
      remove_devices-ends rank bound fuel t top (direct_children t top) tree refl in
    (
      u,
      result,
      rw (shutdown_devices, run, cleared) refl,
      sums,
      λ e f b.
          let (c, i, below) = child_above rank bound fuel t tree top e f b in gone c i e.id below,
    )

-- Where its shutdown has not begun yet, the controller ends completely: on a tree of devices, with fuel for it,
-- `handle_shutdown` goes through to the exit, whatever the system answers. It sends SIGTERM to every device
-- below the controller, each once and in the order of the walk, and none of them is found in the table any
-- more. The exit code is the error that the controller is ended for, or an error of the shutdown.
pub handle_shutdown-ends :
    (rank : ℕ → ℕ) (bound fuel : ℕ) (s : System) (error : ℕ) (in_responses_thread : Bool)
    (c : Controller)
    → IsTree rank bound fuel c.routing_table
    → c.shutdown_called ≡ false
    → (c' : Controller) × (effects : List Effect) × (code : ℕ) × (handle_shutdown fuel s error
          in_responses_thread c
        ≡ some (c', effects))
      × (c'.exit ≡ some code)
      × ((is_error code ≡ true) ⊎ (code ≡ error))
      × (c'.shutdown_called ≡ true)
      × (signals effects ≡ pids (below_in bound c.routing_table id))
      × ((e : Entry)
          → find_routing_data c.routing_table e.id ≡ some e
          → Below c.routing_table id e.parent_id
          → find_routing_data c'.routing_table e.id ≡ none)
unfolding handle_shutdown
handle_shutdown-ends rank bound fuel s error in_responses_thread c tree fresh =
    let (u, result, run, sums, gone) =
      shutdown_devices-ends rank bound fuel s c.routing_table id tree in
    let first = worsen (ok, []) (end_responses_fifo s c.rcv_responses_fd) in
    let second = if s.redirect then worsen first s.ended_ncurses else first in
    let third = worsen second (responses_thread_error s in_responses_thread) in
    let fourth = worsen (third.0, third.1 ++ result.1) result.0 in
    let last = worsen fourth (files_error s) in
    let quiet : signals first.1 ≡ [] =
      worsen_silent ok (end_responses_fifo s c.rcv_responses_fd) [] in
    let quiet' : signals second.1 ≡ [] =
      either_silent s.redirect (worsen first s.ended_ncurses) first
        (worsen_silent first.0 s.ended_ncurses first.1 ∙ quiet) quiet in
    let quiet'' : signals third.1 ≡ [] =
      worsen_silent second.0 (responses_thread_error s in_responses_thread) second.1 ∙ quiet' in
    let sent : signals (third.1 ++ result.1) ≡ pids (below_in bound c.routing_table id) =
      signals-append third.1 result.1 ∙ (ap (λ l. l ++ signals result.1) quiet'' ∙ sums) in
    let whole : signals last.1 ≡ pids (below_in bound c.routing_table id) =
      worsen_silent fourth.0 (files_error s) fourth.1
      ∙ (worsen_silent third.0 result.0 (third.1 ++ result.1) ∙ sent) in
    let c' : Controller = record c {
      routing_table = u;
      force_exit = true;
      shutdown_called = true;
      exit = some (exit_code last.0 error);
    } in
    (
      c',
      last.1 ++ unlinked registry_file ∷ unlinked tmp_registry_file ∷ [],
      exit_code last.0 error,
      rw (handle_shutdown, run, fresh) refl,
      refl,
      exit_code-cases last.0 error,
      refl,
      signals-append last.1 (unlinked registry_file ∷ unlinked tmp_registry_file ∷ [])
          ∙ (append-nil (signals last.1) ∙ whole),
      gone,
    )
