-- ===== src/Controller/Deleted.antt =====
-- What a successful delete response leaves of the table of the controller.
use os_domotics.Controller.Check.{Controller, id}
use os_domotics.Controller.Deletions.{
  after_forgetting, forget_device, is_last_gone, poll_error, update_with_delete_response,
  wait_children, wait_error,
}
use os_domotics.Controller.Processes.{System, end_child_device_fifos, worse}
use os_domotics.Controller.Updates.{exporting}
use os_domotics.Hub.Pendings.{waiting}
use os_domotics.Messages.{Response}
use os_domotics.Prelude.{
  Bytes, List, Option, [], ap, arith, length, none, refl, some, subst, suc, sym, zero, ℕ, ◌++◌, ◌+◌,
  ◌<◌, ◌||◌, ◌∙◌, ◌∷◌, ◌≡◌,
}
use os_domotics.ReturnCodes.{ok}
use os_domotics.Routing.{Entry, Table, find_direct_routing_data, find_routing_data}
use os_domotics.Routing.Bucket.{with_type}
use os_domotics.Routing.Emptied.{AreTyped, update_type_to_empty-Updates}
use os_domotics.Routing.Forgotten.{Within-IsSound, remove_routing_data-IsTree, removed-IsComplete}
use os_domotics.Routing.Registry.Ends.{export_routing_table-ends}
use os_domotics.Routing.Remove.{Below, rank-Below}
use os_domotics.Routing.Table.{find-id}
use os_domotics.Routing.Tree.{IsTree, below_in, below_in-Walks, below_in-enough}
use os_domotics.Routing.Types.{IsRanked-Retyped}
use os_domotics.Routing.Walk.{Walks}
use os_domotics.Utils.{Effect}

-- The table `u` is `t` without the device and what is below it, with new types at most for what is left.
pub record IsForgotten (rank : ℕ → ℕ) (bound fuel : ℕ) (t : Table) (device : Entry) (u : Table)
    : Type 0 where
  pub tree : IsTree rank bound fuel u
  pub gone : (q : ℕ) → Below t device.id q → find_routing_data u q ≡ none
  pub kept :
      (q : ℕ)
      → ¬ Below t device.id q
      → (type : ℕ) × (find_routing_data u q ≡ with_type type (find_routing_data t q))
  pub typed : AreTyped t → AreTyped u

pub with_type-none : (type : ℕ) (o : Option Entry) → o ≡ none → with_type type o ≡ none
with_type-none type o h = rw h refl

forget_device-IsForgotten :
    (rank : ℕ → ℕ) (bound fuel : ℕ) (t : Table) (device : Entry)
    → IsTree rank bound fuel t
    → find_routing_data t device.id ≡ some device
    → (u : Table) × (forget_device fuel t device ≡ some u) × IsForgotten rank bound fuel t device u
unfolding forget_device
forget_device-IsForgotten rank bound fuel t device tree f =
    let (s, run, tree', within, gone, kept) =
      remove_routing_data-IsTree rank bound fuel t device tree f in
    let higher = tree.ranked device.id device f in
    let above = kept device.parent_id (λ b.
      absurd (omega (arith, higher, rank-Below rank t device.id device.parent_id tree.ranked b))) in
    let (u, run', update) =
      update_type_to_empty-Updates fuel rank bound s (find_routing_data s device.parent_id)
        tree'.table tree'.ranked tree.low
        (λ e g.
          let same = find-id s device.parent_id e g in
          (
            subst (λ n. find_routing_data s n ≡ some e) (sym same) g,
            omega (arith, tree'.enough),
          )) in
    (
      u,
      rw (forget_device, run, ← above) run',
      record {
        tree = record {
          table = update.table;
          ranked = IsRanked-Retyped rank s u update.retyped tree'.ranked;
          low = tree.low;
          enough = omega (arith, tree'.enough, update.same_total);
        };
        gone = λ q b.
            let (type, same) = update.retyped q in
            same ∙ with_type-none type (find_routing_data s q) (gone q b);
        kept = λ q nb.
            let (type, same) = update.retyped q in (type, same ∙ ap (with_type type) (kept q nb));
        typed = λ a.
            update.typed (Within-IsSound t s within a.0)
              (removed-IsComplete t s device f within gone kept a.1);
      },
    )

wait_children-ends :
    (bound fuel : ℕ) (s : System) (t : Table) (top : ℕ) (es : List Entry) (current : Option Entry)
    (error : ℕ)
    → Walks bound t top es current
    → bound + length es < fuel
    → (result : ℕ × List Effect) × (wait_children fuel s t top current error ≡ some result)
unfolding wait_children
wait_children-ends bound fuel s t top [] current error w h = ((error, []), rw w refl)
wait_children-ends bound zero s t top (e ∷ es) current error w h = absurd (omega arith)
wait_children-ends bound (suc fuel) s t top (e ∷ es) current error (here_now, next, found, w) h =
    let (tmp, effects) = end_child_device_fifos s e in
    let error' = wait_error s e.pid (worse (poll_error (s.polled e.pid) error) tmp) in
    let hit = found fuel (omega (arith, h)) in
    let (result, run) = wait_children-ends bound fuel s t top es next error' w (omega (arith, h)) in
    ((result.0, effects ++ result.1), rw (here_now, wait_children, hit, run) refl)

-- An export changes the registry at most.
pub exporting-ends :
    (rank : ℕ → ℕ) (bound fuel : ℕ) (s : System) (c : Controller)
    → IsTree rank bound fuel c.routing_table
    → (devices : Option Bytes) × (code : ℕ) × (exporting fuel s c
        ≡ some (record c { devices = devices }, code))
exporting-ends rank bound fuel s c tree =
    let (result, run) =
      export_routing_table-ends rank bound fuel s.files c.routing_table id c.devices tree in
    (result.0, result.1, rw (exporting, run) refl)

-- In a controller whose table is a tree, with fuel for it, a delete response of a device of the table is
-- processed to the end, whatever the system answers: the device and everything below it are no longer found,
-- every other id is found as before but for its type, and where the types told which control devices have a
-- child with a leaf type, they still do. The exit is forced if it was, or if it is pending and the controller
-- has no direct child left.
pub update_with_delete_response-IsForgotten :
    (rank : ℕ → ℕ) (bound fuel : ℕ) (s : System) (r : Response) (c : Controller) (device : Entry)
    → IsTree rank bound fuel c.routing_table
    → find_routing_data c.routing_table r.source ≡ some device
    → (c' : Controller) × (code : ℕ) × (effects : List Effect) × (update_with_delete_response fuel s
          r c
        ≡ some (c', code, effects))
      × IsForgotten rank bound fuel c.routing_table device c'.routing_table
      × (c'.pending_shutdown ≡ c.pending_shutdown)
      × (c'.force_exit ≡ (is_last_gone c' || c.force_exit))
unfolding update_with_delete_response after_forgetting
update_with_delete_response-IsForgotten rank bound fuel s r c device tree f =
    let t = c.routing_table in
    let same = find-id t r.source device f in
    let stored = subst (λ n. find_routing_data t n ≡ some device) (sym same) f in
    let (tmp, effects) = end_child_device_fifos s device in
    let first = worse (poll_error (s.polled device.pid) ok) tmp in
    let (waiting, run) =
      wait_children-ends bound fuel s t device.id (below_in bound t device.id)
        (find_direct_routing_data t device.id none) first
        (below_in-Walks rank bound fuel t tree device.id)
        (below_in-enough rank bound fuel t tree device.id) in
    let (u, run', forgotten) = forget_device-IsForgotten rank bound fuel t device tree stored in
    let c' : Controller = record c { routing_table = u } in
    let c'' : Controller = record c' { force_exit = is_last_gone c' || c.force_exit } in
    let (devices, code, run'') = exporting-ends rank bound fuel s c'' forgotten.tree in
    (
      record c'' { devices = devices },
      wait_error s device.pid (worse waiting.0 code),
      effects ++ waiting.1,
      rw (update_with_delete_response, f, run, run', after_forgetting, run'') refl,
      forgotten,
      refl,
      refl,
    )
