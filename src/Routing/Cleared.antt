-- ===== src/Routing/Cleared.antt =====
-- The removal of the first direct child of a device, as the loops that remove them all do it.
use os_domotics.Prelude.{
  List, Option, Option-cases, [], ap, inl, inr, none, refl, some, subst, suc, sym, ℕ, ◌∙◌, ◌∷◌, ◌≡◌,
  ◌≢◌, ◌⊎◌,
}
use os_domotics.Routing.{
  Entry, Table, find_direct_routing_data, find_routing_data, remove_routing_data,
}
use os_domotics.Routing.Descendants.{siblings_apart}
use os_domotics.Routing.Forgotten.{remove_routing_data-smaller}
use os_domotics.Routing.Loops.{
  Visits, direct_children, direct_children-Visits, find_direct_routing_data-Visits,
}
use os_domotics.Routing.Order.{In, IsDistinct}
use os_domotics.Routing.Remove.{Below, IsRanked, Within, self, under}
use os_domotics.Routing.Sorted.{IsSorted, IsSorted-ext, direct_children-IsSorted}
use os_domotics.Routing.Table.{IsTable}
use os_domotics.Routing.Tree.{IsTree}

Visits-head :
    (t u : Table) (p : ℕ) (cs : List Entry) (a b : Option Entry)
    → Visits t p cs a
    → Visits u p cs b
    → a ≡ b
Visits-head t u p [] a b v w = v ∙ sym w
Visits-head t u p (c ∷ cs) a b v w = v.0 ∙ sym w.0

pub Within-none :
    (t u : Table) (q : ℕ) → Within u t → find_routing_data t q ≡ none → find_routing_data u q ≡ none
Within-none t u q w h = elim (Option-cases (find_routing_data u q)) [
  | inl out ↦ out
  | inr (e, found) ↦ cc (w q e found, h)
]

module _ (rank : ℕ → ℕ) (t u : Table) (v : IsTable t) (ranked : IsRanked rank t) (c : Entry)
    (stored : find_routing_data t c.id ≡ some c) (within : Within u t)
    (gone : (q : ℕ) → Below t c.id q → find_routing_data u q ≡ none)
    (kept : (q : ℕ) → ¬ Below t c.id q → find_routing_data u q ≡ find_routing_data t q) where
  -- What is below a sibling of the removed child stays below it.
  Below-kept :
      (d : Entry) (q : ℕ)
      → find_routing_data t d.id ≡ some d
      → c.parent_id ≡ d.parent_id
      → c.id ≢ d.id
      → Below t d.id q
      → Below u d.id q
  Below-kept d q f p ne self = Below.self
  Below-kept d q f p ne (under _ e g b) =
      let whole : Below t d.id q = Below.under q e g b in
      let outside : ¬ Below t c.id q =
        λ x. ne (ap (λ z. z.id) (siblings_apart rank t v ranked c d q stored f p x whole)) in
      Below.under q e (kept q outside ∙ g) (Below-kept d e.parent_id f p ne b)

  children_left :
      (cs : List Entry)
      → direct_children t c.parent_id ≡ c ∷ cs
      → IsTable u
      → direct_children u c.parent_id ≡ cs
  children_left cs list w =
      let members = (find_direct_routing_data-Visits t c.parent_id v).1 in
      let members' = (find_direct_routing_data-Visits u c.parent_id w).1 in
      let distinct = subst IsDistinct list (find_direct_routing_data-Visits t c.parent_id v).2 in
      let sorted = subst IsSorted list (direct_children-IsSorted t c.parent_id v) in
      IsSorted-ext (direct_children u c.parent_id) cs (direct_children-IsSorted u c.parent_id w)
        sorted.1
        (λ e i.
          let (f, p) = (members' e).0 i in
          let old = within e.id e f in
          let there = subst (In e) list ((members e).1 (old, p)) in
          elim (there_cases e cs there) [
            | inl s ↦
                let lost = gone e.id (subst (λ x. Below t c.id x.id) (sym s) Below.self) in
                cc (lost, f)
            | inr j ↦ j
          ])
        (λ e i.
          let (f, p) = (members e).0 (subst (In e) (sym list) (inr i)) in
          let outside : ¬ Below t c.id e.id = λ b. distinct.0 e i (
            sym (
              ap (λ x. x.id)
                (siblings_apart rank t v ranked c e e.id stored f (sym p) b Below.self))) in
          (members' e).1 (kept e.id outside ∙ f, p))
    where
      there_cases : (e : Entry) (cs : List Entry) → (e ≡ c) ⊎ In e cs → (e ≡ c) ⊎ In e cs
      there_cases e cs i = i

-- The first child leaves with all that is below it; the next child, found before, is then the first one.
pub record IsFirstRemoved (rank : ℕ → ℕ) (bound fuel : ℕ) (t : Table) (p : ℕ) (c : Entry)
    (cs : List Entry) (s : Table) : Type 0 where
  pub run : remove_routing_data fuel t c.id p ≡ some s
  pub tree : IsTree rank bound fuel s
  pub within : Within s t
  pub first : find_direct_routing_data t p none ≡ some c
  pub next : find_direct_routing_data t p (some c) ≡ find_direct_routing_data s p none
  pub left : direct_children s p ≡ cs
  pub gone : (q : ℕ) → Below t c.id q → find_routing_data s q ≡ none
  pub kept : (e : Entry) → In e cs → (q : ℕ) → Below t e.id q → Below s e.id q

pub remove_first :
    (rank : ℕ → ℕ) (bound fuel : ℕ) (t : Table) (p : ℕ) (c : Entry) (cs : List Entry)
    → IsTree rank bound (suc fuel) t
    → direct_children t p ≡ c ∷ cs
    → (s : Table) × IsFirstRemoved rank bound fuel t p c cs s
remove_first rank bound fuel t p c cs tree list =
    let visited =
      subst (λ l. Visits t p l (find_direct_routing_data t p none)) list
        (direct_children-Visits t p tree.table) in
    let (_, whole, distinct_all) = find_direct_routing_data-Visits t p tree.table in
    let distinct = subst IsDistinct list distinct_all in
    let (stored, parent) = (whole c).0 (subst (In c) (sym list) (inl refl)) in
    let (s, run, tree', within, gone, kept) =
      remove_routing_data-smaller rank bound fuel t c tree stored in
    let left =
      subst (λ n. direct_children s n ≡ cs) parent
        (children_left rank t s tree.table tree.ranked c stored within gone kept cs
          (subst (λ n. direct_children t n ≡ c ∷ cs) (sym parent) list) tree'.table) in
    let visited' =
      subst (λ l. Visits s p l (find_direct_routing_data s p none)) left
        (direct_children-Visits s p tree'.table) in
    (
      s,
      record {
        run = subst (λ n. remove_routing_data fuel t c.id n ≡ some s) parent run;
        tree = tree';
        within = within;
        first = visited.0;
        next =
            Visits-head t s p cs (find_direct_routing_data t p (some c))
              (find_direct_routing_data s p none) visited.1 visited';
        left = left;
        gone = gone;
        kept = λ e i q b.
            let (f, p') = (whole e).0 (subst (In e) (sym list) (inr i)) in
            Below-kept rank t s tree.table tree.ranked c stored within gone kept e q f
              (parent ∙ sym p') (λ x. distinct.0 e i (sym x)) b;
      },
    )

pub without_children :
    (t : Table) (p : ℕ)
    → IsTable t
    → direct_children t p ≡ []
    → find_direct_routing_data t p none ≡ none
without_children t p v list =
    subst (λ l. Visits t p l (find_direct_routing_data t p none)) list
      (direct_children-Visits t p v)
