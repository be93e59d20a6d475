-- ===== src/Controller/Burial.antt =====
-- What the controller does for one device whose process is dead.
use os_domotics.Controller.Check.{Controller}
use os_domotics.Controller.Deleted.{exporting-ends, with_type-none}
use os_domotics.Controller.Ended.{terminate_devices-ends}
use os_domotics.Controller.Processes.{System, end_child_device_fifos, shutdown_devices}
use os_domotics.Controller.Shutdown.{bury, notify_parent, obituary, remove_dead, worsen}
use os_domotics.Messages.Responses.{sent}
use os_domotics.Prelude.{
  Bytes, List, Option, [], ap, arith, none, refl, some, subst, sym, ℕ, ◌++◌, ◌∙◌, ◌≡◌, ◌≢◌, ◌≤◌,
}
use os_domotics.ReturnCodes.{ok}
use os_domotics.Routing.{Entry, Table, find_direct_routing_data, find_routing_data, remove_entry}
use os_domotics.Routing.Bucket.{with_type}
use os_domotics.Routing.Emptied.{update_type_to_empty-Updates}
use os_domotics.Routing.Refinement.{run, update}
use os_domotics.Routing.Table.{find-id, find-remove_entry, remove_entry-IsTable, total-remove_entry}
use os_domotics.Routing.Tree.{IsTree, below_in, below_in-Walks, below_in-enough}
use os_domotics.Routing.Types.{IsRanked-Retyped}
use os_domotics.Utils.{Effect}

remove_entry-IsTree :
    (rank : ℕ → ℕ) (bound fuel : ℕ) (t : Table) (e : Entry)
    → IsTree rank bound fuel t
    → find_routing_data t e.id ≡ some e
    → IsTree rank bound fuel (remove_entry t e.id)
remove_entry-IsTree rank bound fuel t e tree f = record {
  table = remove_entry-IsTable t e.id tree.table;
  ranked = λ q d g. tree.ranked q d (old q d g);
  low = tree.low;
  enough = omega (arith, tree.enough, total-remove_entry t e.id e tree.table f);
}
  where
    old :
        (q : ℕ) (d : Entry)
        → find_routing_data (remove_entry t e.id) q ≡ some d
        → find_routing_data t q ≡ some d
    old q d g = ground (arith, find-remove_entry t e.id tree.table q, g)

pub IsTree-more :
    (rank : ℕ → ℕ) (bound base fuel : ℕ) (t : Table)
    → IsTree rank bound base t
    → base ≤ fuel
    → IsTree rank bound fuel t
IsTree-more rank bound base fuel t tree h = record {
  table = tree.table;
  ranked = tree.ranked;
  low = tree.low;
  enough = omega (arith, tree.enough, h);
}

-- The table `u` is `t` without the entry `e`, with new types at most for what is left.
abbrev pub LacksOnly : Table → Entry → Table → Type 0
LacksOnly t e u =
    (types : ℕ → ℕ) × (find_routing_data u e.id ≡ none)
    × ((q : ℕ) → q ≢ e.id → find_routing_data u q ≡ with_type (types q) (find_routing_data t q))

pub remove_dead-ends :
    (rank : ℕ → ℕ) (bound base fuel : ℕ) (s : System) (c : Controller) (e : Entry) (error : ℕ)
    → IsTree rank bound base c.routing_table
    → find_routing_data c.routing_table e.id ≡ some e
    → base ≤ fuel
    → (u : Table) × (devices : Option Bytes) × (result : ℕ × List Effect) × (remove_dead fuel s c e
          error
        ≡ some (record c { routing_table = u; devices = devices }, result.0, result.1))
      × IsTree rank bound base u
      × LacksOnly c.routing_table e u
unfolding remove_dead
remove_dead-ends rank bound base fuel s c e error tree f h =
    let t = c.routing_table in
    let r = remove_entry t e.id in
    let tree' = remove_entry-IsTree rank bound base t e tree f in
    let found = find-remove_entry t e.id tree.table in
    let (u, run, update) =
      update_type_to_empty-Updates fuel rank bound r (find_routing_data r e.parent_id) tree'.table
        tree'.ranked tree.low
        (λ d g.
          let same = find-id r e.parent_id d g in
          (
            subst (λ n. find_routing_data r n ≡ some d) (sym same) g,
            omega (arith, tree'.enough, h),
          )) in
    let final : IsTree rank bound base u = record {
      table = update.table;
      ranked = IsRanked-Retyped rank r u update.retyped tree'.ranked;
      low = tree.low;
      enough = omega (arith, tree'.enough, update.same_total);
    } in
    let (devices, tmp, run') =
      exporting-ends rank bound fuel s (record c { routing_table = u })
        (IsTree-more rank bound base fuel u final h) in
    (
      u,
      devices,
      worsen (error, []) tmp,
      rw (remove_dead, run, run') refl,
      final,
      (
        λ q. (update.retyped q).0,
        (let (type, same) = update.retyped e.id in
            same ∙ with_type-none type (find_routing_data r e.id) (ground (arith, found e.id))),
        λ q ne.
            let (type, same) = update.retyped q in
            same ∙ ap (with_type type) (ground (arith, found q, ne)),
      ),
    )

pub bury-ends :
    (rank : ℕ → ℕ) (bound fuel : ℕ) (s : System) (c : Controller) (e : Entry) (error : ℕ)
    → IsTree rank bound fuel c.routing_table
    → (result : ℕ × List Effect) × (bury fuel s c e error ≡ some result)
unfolding bury shutdown_devices
bury-ends rank bound fuel s c e error tree =
    let t = c.routing_table in
    let (sent, run, _) =
      terminate_devices-ends bound fuel s t e.id (below_in bound t e.id)
        (find_direct_routing_data t e.id none) ok (below_in-Walks rank bound fuel t tree e.id)
        (below_in-enough rank bound fuel t tree e.id) in
    let notice = notify_parent s c e error in
    let fifos = end_child_device_fifos s e in
    let second = worsen (notice.0, notice.1 ++ fifos.1) fifos.0 in
    let third = worsen (second.0, second.1 ++ sent.1) sent.0 in
    ((third.0, obituary e (s.polled e.pid) ++ third.1), rw (bury, run) refl)
