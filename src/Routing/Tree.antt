-- ===== src/Routing/Tree.antt =====
-- A table that is a tree, with fuel for everything that the program does with it.
use os_domotics.Prelude.{
  List, [], ap, arith, inl, inr, length, none, refl, some, suc, sym, ℕ, ◌*◌, ◌+◌, ◌<◌, ◌↔◌, ◌∙◌,
  ◌∷◌, ◌≡◌, ◌≢◌, ◌≤◌, ◌⊎◌,
}
use os_domotics.Routing.{Entry, Table, find_direct_routing_data, find_routing_data}
use os_domotics.Routing.Descendants.{find_all_routing_data-Walks}
use os_domotics.Routing.Order.{In, IsDistinct, flat}
use os_domotics.Routing.Remove.{Below, IsRanked}
use os_domotics.Routing.Siblings.{find-In}
use os_domotics.Routing.Table.{IsTable, total}
use os_domotics.Routing.Types.{length-flat}
use os_domotics.Routing.Walk.{Walks, descendants}

-- One entry less, and the others.
In-split :
    (ys : List Entry) (e : Entry)
    → In e ys
    → (zs : List Entry) × (length ys ≡ suc (length zs))
      × ((d : Entry) → In d ys → d.id ≢ e.id → In d zs)
In-split [] e i = absurd i
In-split (y ∷ ys) e (inl s) = (ys, refl, λ d j ne. other d j ne)
  where
    other : (d : Entry) → (d ≡ y) ⊎ In d ys → d.id ≢ e.id → In d ys
    other d (inl h) ne = absurd (ne (ap (λ x. x.id) (h ∙ sym s)))
    other d (inr j) ne = j
In-split (y ∷ ys) e (inr i) =
    let (zs, count, keep) = In-split ys e i in
    (y ∷ zs, ap suc count, λ d j ne. other zs keep d j ne)
  where
    other :
        (zs : List Entry)
        → ((d : Entry) → In d ys → d.id ≢ e.id → In d zs)
        → (d : Entry) → (d ≡ y) ⊎ In d ys
        → d.id ≢ e.id
        → (d ≡ y) ⊎ In d zs
    other zs keep d (inl h) ne = inl h
    other zs keep d (inr j) ne = inr (keep d j ne)

length-IsDistinct :
    (xs ys : List Entry) → IsDistinct xs → ((e : Entry) → In e xs → In e ys) → length xs ≤ length ys
length-IsDistinct [] ys d h = omega arith
length-IsDistinct (x ∷ xs) ys d h =
    let (zs, count, keep) = In-split ys x (h x (inl refl)) in
    let rest = length-IsDistinct xs zs d.1 (λ e i. keep e (h e (inr i)) (d.0 e i)) in
    omega (arith, count, rest)

-- `rank` falls from each entry to its children and is at most `bound`, and there is fuel for two steps of each
-- level and one of each entry.
pub record IsTree (rank : ℕ → ℕ) (bound fuel : ℕ) (t : Table) : Type 0 where
  pub table : IsTable t
  pub ranked : IsRanked rank t
  pub low : (q : ℕ) → rank q ≤ bound
  pub enough : 2 * bound + total t + 3 ≤ fuel

-- The entries below a device, in the order of the walk.
abbrev pub below_in : ℕ → Table → ℕ → List Entry
below_in bound t top = descendants bound t top

module _ (rank : ℕ → ℕ) (bound fuel : ℕ) (t : Table) (tree : IsTree rank bound fuel t)
    (top : ℕ) where
  pub below_in-Walks :
      Walks bound t top (below_in bound t top) (find_direct_routing_data t top none)
  below_in-Walks =
      (find_all_routing_data-Walks rank bound bound t top tree.table tree.ranked tree.low
        (omega (arith, tree.low top))).0

  pub below_in-members :
      (e : Entry)
      → In e (below_in bound t top)
        ↔ ((find_routing_data t e.id ≡ some e) × Below t top e.parent_id)
  below_in-members =
      (find_all_routing_data-Walks rank bound bound t top tree.table tree.ranked tree.low
        (omega (arith, tree.low top))).1

  pub below_in-IsDistinct : IsDistinct (below_in bound t top)
  below_in-IsDistinct =
      (find_all_routing_data-Walks rank bound bound t top tree.table tree.ranked tree.low
        (omega (arith, tree.low top))).2

  pub below_in-enough : bound + length (below_in bound t top) < fuel
  below_in-enough = omega (
    arith,
    tree.enough,
    length-flat t,
    length-IsDistinct (below_in bound t top) (flat t) below_in-IsDistinct
        (λ e i. (find-In t e.id e ((below_in-members e).0 i).0).0),
  )
