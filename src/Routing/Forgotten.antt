-- ===== src/Routing/Forgotten.antt =====
-- A device and everything below it leave the table, and the types above are updated.
use os_domotics.Devices.{is_empty}
use os_domotics.Prelude.{
  Bool-cases, ap, arith, false, inl, inr, none, refl, some, subst, suc, sym, ℕ, ◌*◌, ◌+◌, ◌∙◌, ◌≡◌,
  ◌≤◌,
}
use os_domotics.Routing.{Entry, Table, find_routing_data, remove_routing_data}
use os_domotics.Routing.Emptied.{IsCompleteBut, IsSound}
use os_domotics.Routing.Refinement.{run}
use os_domotics.Routing.Remove.{
  Below, IsRanked-Within, Within, remove_routing_data-total, removes, self, under,
}
use os_domotics.Routing.Table.{total}
use os_domotics.Routing.Tree.{IsTree}

-- The removal with one unit of fuel less than the tree has.
pub remove_routing_data-smaller :
    (rank : ℕ → ℕ) (bound fuel : ℕ) (t : Table) (device : Entry)
    → IsTree rank bound (suc fuel) t
    → find_routing_data t device.id ≡ some device
    → (u : Table) × (remove_routing_data fuel t device.id device.parent_id ≡ some u)
      × IsTree rank bound fuel u
      × Within u t
      × ((q : ℕ) → Below t device.id q → find_routing_data u q ≡ none)
      × ((q : ℕ) → ¬ Below t device.id q → find_routing_data u q ≡ find_routing_data t q)
remove_routing_data-smaller rank bound fuel t device tree f =
    let enough : total t + 2 * rank device.id + 2 ≤ fuel =
      omega (arith, tree.enough, tree.low device.id) in
    let (u, run, removal) = removes fuel rank t device tree.table tree.ranked f enough in
    let (u', run', _, gone, kept) =
      remove_routing_data-total fuel rank t device tree.table tree.ranked f enough in
    let same : u' ≡ u = ground (arith, run, run') in
    (
      u,
      run,
      record {
        table = removal.table;
        ranked = IsRanked-Within rank t u removal.within tree.ranked;
        low = tree.low;
        enough = omega (arith, tree.enough, removal.fewer);
      },
      removal.within,
      λ q b. subst (λ x. find_routing_data x q ≡ none) same (gone q b),
      removal.kept,
    )

-- The removal with all of it.
pub remove_routing_data-IsTree :
    (rank : ℕ → ℕ) (bound fuel : ℕ) (t : Table) (device : Entry)
    → IsTree rank bound fuel t
    → find_routing_data t device.id ≡ some device
    → (u : Table) × (remove_routing_data fuel t device.id device.parent_id ≡ some u)
      × IsTree rank bound fuel u
      × Within u t
      × ((q : ℕ) → Below t device.id q → find_routing_data u q ≡ none)
      × ((q : ℕ) → ¬ Below t device.id q → find_routing_data u q ≡ find_routing_data t q)
remove_routing_data-IsTree rank bound fuel t device tree f =
    remove_routing_data-smaller rank bound fuel t device
      (record {
        table = tree.table;
        ranked = tree.ranked;
        low = tree.low;
        enough = omega (arith, tree.enough);
      })
      f

Within-stored :
    (t u : Table) (e : Entry)
    → Within u t
    → find_routing_data u e.id ≡ some e
    → find_routing_data t e.id ≡ some e
Within-stored t u e w f = w e.id e f

pub Within-IsSound : (t u : Table) → Within u t → IsSound t → IsSound u
Within-IsSound t u w sound e f h c g p = sound e (w e.id e f) h c (w c.id c g) p

-- Only the parent of a removed device may have lost its last child with a leaf type.
pub removed-IsComplete :
    (t u : Table) (device : Entry)
    → find_routing_data t device.id ≡ some device
    → Within u t
    → ((q : ℕ) → Below t device.id q → find_routing_data u q ≡ none)
    → ((q : ℕ) → ¬ Below t device.id q → find_routing_data u q ≡ find_routing_data t q)
    → IsCompleteBut t none
    → IsCompleteBut u (find_routing_data u device.parent_id)
removed-IsComplete t u device f w gone kept complete e g other control below =
    complete e (w e.id e g) (λ x s. cc) control
      (λ c h p. elim (Bool-cases (is_empty c.type)) [
        | inl empty ↦ empty
        | inr filled ↦ absurd (lost c h p filled (λ b. inside c c.id refl h p b))
      ])
  where
    lost :
        (c : Entry)
        → find_routing_data t c.id ≡ some c
        → c.parent_id ≡ e.id
        → is_empty c.type ≡ false
        → ¬ Below t device.id c.id
        → ⊥
    lost c h p filled nb = cc (below c (kept c.id nb ∙ h) p, filled)

    inside :
        (c : Entry) (q : ℕ)
        → q ≡ c.id
        → find_routing_data t c.id ≡ some c
        → c.parent_id ≡ e.id
        → Below t device.id q
        → ⊥
    inside c q s h p self =
        let found : find_routing_data t device.id ≡ some c =
          subst (λ n. find_routing_data t n ≡ some c) (sym s) h in
        let same : device ≡ c = ground (arith, f, found) in
        let up : device.parent_id ≡ e.id = ap (λ x. x.parent_id) same ∙ p in
        other e (ap (find_routing_data u) up ∙ g) refl
    inside c q s h p (under _ d k b) =
        let found : find_routing_data t c.id ≡ some d =
          subst (λ n. find_routing_data t n ≡ some d) s k in
        let same : d ≡ c = ground (arith, h, found) in
        let up : d.parent_id ≡ e.id = ap (λ x. x.parent_id) same ∙ p in
        cc (gone e.id (subst (Below t device.id) up b), g)
