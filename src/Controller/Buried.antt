-- ===== src/Controller/Buried.antt =====
-- The routine for SIGCHLD of the controller: which devices it removes from the table.
use os_domotics.Controller.Burial.{IsTree-more, bury-ends, remove_dead-ends}
use os_domotics.Controller.Check.{Controller}
use os_domotics.Controller.Deleted.{with_type-none}
use os_domotics.Controller.Lacking.{LacksDead, LacksDead-alive, LacksDead-dead, LacksDead-nil}
use os_domotics.Controller.Processes.{System, wait_failed}
use os_domotics.Controller.Shutdown.{
  after_processes, at_pointer, bury, check_processes, is_dead, remove_dead, sigchld_routine,
}
use os_domotics.Prelude.{
  Bool-cases, Bytes, List, Option, [], ap, append_assoc, arith, false, inl, inr, length, none, refl,
  some, subst, suc, sym, true, zero, ℕ, ◌++◌, ◌+◌, ◌∙◌, ◌∷◌, ◌≡◌, ◌≢◌, ◌≤◌,
}
use os_domotics.ReturnCodes.{ok, unable_to_wait}
use os_domotics.Routing.{Entry, Table, find_routing_data, find_unreachable_routing_data}
use os_domotics.Routing.Bucket.{with_type}
use os_domotics.Routing.Order.{In, In-append_right, IsDistinct, flat}
use os_domotics.Routing.Refinement.{run}
use os_domotics.Routing.Siblings.{In-find, find-In, flat-IsDistinct}
use os_domotics.Routing.Table.{IsTable, total}
use os_domotics.Routing.Tree.{IsTree}
use os_domotics.Routing.Types.{length-flat}
use os_domotics.Routing.Whole.{
  find_unreachable-first, find_unreachable-next, first, flat-removed, length-map_entries,
  map_entries, map_entries-append, middle_apart,
}
use os_domotics.Utils.{Effect, printed}

-- The pointer to the next entry still points to it after the removal.
at_pointer-first :
    (t r : Table) (before es : List Entry) (e : Entry) (types : ℕ → ℕ)
    → IsTable t
    → flat t ≡ before ++ e ∷ es
    → ((d : Entry) → In d es → d.id ≢ e.id)
    → ((q : ℕ) → q ≢ e.id → find_routing_data r q ≡ with_type (types q) (find_routing_data t q))
    → at_pointer r (first es) ≡ first (map_entries (λ x. record x { type = types x.id }) es)
at_pointer-first t r before [] e types v list apart others = refl
at_pointer-first t r before (d ∷ es) e types v list apart others =
    let inside = In-append_right d before (e ∷ d ∷ es) (inr (inl refl)) in
    others d.id (apart d (inl refl))
    ∙ ap (with_type (types d.id)) (In-find t d v (subst (In d) (sym list) inside))

processed_dead :
    (fuel : ℕ) (s : System) (c : Controller) (e : Entry) (c' : Controller) (next : Option Entry)
    (error error' second : ℕ) (effects effects' : List Effect)
    (result : Controller × ℕ × List Effect)
    → find_unreachable_routing_data c.routing_table (some e) ≡ next
    → is_dead (s.polled e.pid) ≡ true
    → bury fuel s c e error ≡ some (error', effects)
    → remove_dead fuel s c e error' ≡ some (c', second, effects')
    → check_processes fuel s c' (at_pointer c'.routing_table next) second ≡ some result
    → check_processes (suc fuel) s c (some e) error
      ≡ some (result.0, result.1, effects ++ (effects' ++ result.2))
unfolding check_processes
processed_dead fuel s c e c' next error error' second effects effects' result h dead run run'
      run'' =
    let same =
      ap (λ n. check_processes fuel s c' (at_pointer c'.routing_table n) second) h ∙ run'' in
    rw (check_processes, dead, run, run', same) refl

-- The loop, from the entry that it stands at.
check_processes-ends :
    (rank : ℕ → ℕ) (bound base fuel : ℕ) (s : System) (c : Controller) (before es : List Entry)
    (error : ℕ)
    → IsTree rank bound base c.routing_table
    → flat c.routing_table ≡ before ++ es
    → base + length es ≤ fuel
    → (u : Table) × (devices : Option Bytes) × (result : ℕ × List Effect) × (check_processes fuel s
          c
          (first es)
          error
        ≡ some (record c { routing_table = u; devices = devices }, result.0, result.1))
      × LacksDead rank bound base s c.routing_table es u
unfolding check_processes
check_processes-ends rank bound base fuel s c before [] error tree list h = (
  c.routing_table,
  c.devices,
  (error, []),
  refl,
  LacksDead-nil rank bound base s c.routing_table tree,
)
check_processes-ends rank bound base zero s c before (e ∷ es) error tree list h =
    absurd (omega arith)
check_processes-ends rank bound base (suc fuel) s c before (e ∷ es) error tree list h =
    let t = c.routing_table in
    let next = find_unreachable-next t before es e tree.table list in
    let stored =
      In-find t e tree.table
        (subst (In e) (sym list) (In-append_right e before (e ∷ es) (inl refl))) in
    elim (Bool-cases (is_dead (s.polled e.pid))) [
      | inr alive ↦
          let (u, devices, result, run, lacks) =
            check_processes-ends rank bound base fuel s c (before ++ e ∷ []) es error tree
              (list ∙ sym (append_assoc before (e ∷ []) es)) (omega (arith, h)) in
          (
            u,
            devices,
            (
              result.0,
              elim (s.polled e.pid) as (λ _. List Effect) [
                | wait_failed ↦ printed unable_to_wait ∷ result.1
                | _ ↦ result.1
              ],
            ),
            rw (check_processes, next, alive, run) refl,
            LacksDead-alive rank bound base s t u e es alive lacks,
          )
      | inl dead ↦
          let above = IsTree-more rank bound base fuel t tree (omega (arith, h)) in
          let (buried, run) = bury-ends rank bound fuel s c e error above in
          let (r, devices, result, run', tree', lacking) =
            remove_dead-ends rank bound base fuel s c e buried.0 tree stored (omega (arith, h)) in
          let (types, left, others) = lacking in
          let f : Entry → Entry = λ x. record x { type = types x.id } in
          let removed =
            flat-removed t r before es e types tree.table tree'.table list left others in
          let distinct = subst IsDistinct list (flat-IsDistinct t tree.table) in
          let apart : (d : Entry) → In d es → d.id ≢ e.id =
            λ d j. middle_apart before es e d distinct (In-append_right d before es j) in
          let (u, devices', result', run'', lacks) =
            check_processes-ends rank bound base fuel s
              (record c { routing_table = r; devices = devices }) (map_entries f before)
              (map_entries f es) result.0 tree' (removed ∙ map_entries-append f before es)
              (omega (arith, h, length-map_entries f es)) in
          let pointed = at_pointer-first t r before es e types tree.table list apart others in
          (
            u,
            devices',
            (result'.0, buried.1 ++ (result.1 ++ result'.1)),
            processed_dead fuel s c e (record c { routing_table = r; devices = devices }) (first es)
                error buried.0 result.0 buried.1 result.1
                (record c { routing_table = u; devices = devices' }, result'.0, result'.1) next dead
                run run'
                (ap
                    (λ p.
                      check_processes fuel s (record c { routing_table = r; devices = devices }) p
                        result.0)
                    pointed
                  ∙ run''),
            LacksDead-dead rank bound base s t r u e es types dead apart left others lacks,
          )
    ]

routine_without_shutdown :
    (fuel : ℕ) (s : System) (c c' : Controller) (error : ℕ) (effects : List Effect)
    → check_processes fuel s c (find_unreachable_routing_data c.routing_table none) ok
      ≡ some (c', error, effects)
    → c.force_exit ≡ false
    → c'.pending_shutdown ≡ false
    → s.kernel.locked ≡ true
    → s.kernel.unlocked ≡ true
    → sigchld_routine fuel s c ≡ some (c', effects)
unfolding sigchld_routine after_processes
routine_without_shutdown fuel s c c' error effects run alive unpending locked unlocked =
    rw (sigchld_routine, run, after_processes, alive, locked, unlocked, unpending) refl

-- On SIGCHLD, while no shutdown is pending or under way and the lock is taken and given back, on a tree of
-- devices with fuel for the loop, the routine ends, whatever the other calls of the system answer. The devices
-- whose processes have exited with an error or crashed are no longer found, every other device is found as
-- before but for its type, no id is new, and the table is a tree again. But for the table and the registry,
-- the controller is as before.
pub sigchld_routine-removes :
    (rank : ℕ → ℕ) (bound base fuel : ℕ) (s : System) (c : Controller)
    → IsTree rank bound base c.routing_table
    → base + total c.routing_table ≤ fuel
    → c.force_exit ≡ false
    → c.pending_shutdown ≡ false
    → s.kernel.locked ≡ true
    → s.kernel.unlocked ≡ true
    → (u : Table) × (devices : Option Bytes) × (effects : List Effect) × (sigchld_routine fuel s c
        ≡ some (record c { routing_table = u; devices = devices }, effects))
      × IsTree rank bound base u
      × ((e : Entry)
          → find_routing_data c.routing_table e.id ≡ some e
          → is_dead (s.polled e.pid) ≡ true
          → find_routing_data u e.id ≡ none)
      × ((e : Entry)
          → find_routing_data c.routing_table e.id ≡ some e
          → is_dead (s.polled e.pid) ≡ false
          → (type : ℕ) × (find_routing_data u e.id ≡ some (record e { type = type })))
      × ((q : ℕ) → find_routing_data c.routing_table q ≡ none → find_routing_data u q ≡ none)
sigchld_routine-removes rank bound base fuel s c tree h alive unpending locked unlocked =
    let t = c.routing_table in
    let (u, devices, result, run, lacks) =
      check_processes-ends rank bound base fuel s c [] (flat t) ok tree refl
        (omega (arith, h, length-flat t)) in
    let from = ap (λ p. check_processes fuel s c p ok) (find_unreachable-first t) ∙ run in
    (
      u,
      devices,
      result.1,
      routine_without_shutdown fuel s c (record c { routing_table = u; devices = devices }) result.0
          result.1 from alive unpending locked unlocked,
      lacks.tree,
      λ e f dead. lacks.gone e (find-In t e.id e f).0 dead,
      λ e f living.
          let (type, same) = lacks.kept e.id (λ d i dead k.
            let stored = In-find t d tree.table i in
            let found : find_routing_data t e.id ≡ some d =
              subst (λ n. find_routing_data t n ≡ some d) (sym k) stored in
            let one : e ≡ d = ground (arith, f, found) in
            let died : is_dead (s.polled e.pid) ≡ true =
              subst (λ z. is_dead (s.polled z.pid) ≡ true) (sym one) dead in
            cc (died, living)) in
          (type, same ∙ ap (with_type type) f),
      λ q out.
          let (type, same) = lacks.kept q (λ d i dead k.
            let stored = In-find t d tree.table i in
            let found : find_routing_data t q ≡ some d =
              subst (λ n. find_routing_data t n ≡ some d) (sym k) stored in
            absurd (ground (arith, out, found))) in
          same ∙ with_type-none type (find_routing_data t q) out,
    )
