-- ===== src/Routing/Remove.antt =====
-- Removal of an entry with everything below it: it ends, takes the entry away, and leaves no orphan.
use os_domotics.Prelude.{
  Option, Option-cases, ap, arith, inl, inr, none, some, subst, suc, sym, zero, ℕ, ◌*◌, ◌+◌, ◌<◌,
  ◌∙◌, ◌≡◌, ◌≢◌, ◌≤◌,
}
use os_domotics.Routing.{
  Entry, Table, find_direct_routing_data, find_routing_data, remove_children, remove_entry,
  remove_routing_data,
}
use os_domotics.Routing.Children.{find_direct_complete, find_direct_sound}
use os_domotics.Routing.Table.{
  IsTable, find-id, find-remove_entry, remove_entry-IsTable, total, total-remove_entry,
}

-- `u` has only entries of `t`.
abbrev pub Within : Table → Table → Type 0
Within u t = (q : ℕ) (e : Entry) → find_routing_data u q ≡ some e → find_routing_data t q ≡ some e

-- A rank falls from each entry to its children, so that no entry is above itself.
abbrev pub IsRanked : (ℕ → ℕ) → Table → Type 0
IsRanked rank t =
    (q : ℕ) (e : Entry) → find_routing_data t q ≡ some e → rank e.id < rank e.parent_id

-- No entry below `t` names a parent that `u` no longer has.
abbrev pub KeepsParents : Table → Table → Type 0
KeepsParents u t =
    (q : ℕ) (e p : Entry)
    → find_routing_data u q ≡ some e
    → find_routing_data t e.parent_id ≡ some p
    → find_routing_data u e.parent_id ≡ some p

-- `q` is `top`, or an entry whose parent is below `top`.
pub data Below (t : Table) (top : ℕ) : ℕ → Type 0 where
  self : Below t top top
  under :
      (q : ℕ) (e : Entry) → find_routing_data t q ≡ some e → Below t top e.parent_id → Below t top q

-- What a removal of `id` gives.
pub record IsRemoval (t : Table) (id : ℕ) (u : Table) : Type 0 where
  pub table : IsTable u
  pub within : Within u t
  pub gone : find_routing_data u id ≡ none
  pub kept : (q : ℕ) → ¬ Below t id q → find_routing_data u q ≡ find_routing_data t q
  pub fewer : total u < total t
  pub parents : KeepsParents u t

Within-trans : (s t u : Table) → Within u t → Within t s → Within u s
Within-trans s t u a b q e f = b q e (a q e f)

find-remove_ne :
    (t : Table) (id q : ℕ) (e : Entry)
    → IsTable t
    → find_routing_data (remove_entry t id) q ≡ some e
    → (q ≢ id) × (find_routing_data t q ≡ some e)
find-remove_ne t id q e v f = ground (arith, find-remove_entry t id v q)

-- The last step: the entry itself, when it has no child left.
remove_entry-IsRemoval :
    (t : Table) (id : ℕ) (found : Entry)
    → IsTable t
    → find_routing_data t id ≡ some found
    → find_direct_routing_data t id none ≡ none
    → IsRemoval t id (remove_entry t id)
remove_entry-IsRemoval t id found v f childless = record {
  table = remove_entry-IsTable t id v;
  within = λ q e h. (find-remove_ne t id q e v h).1;
  gone = ground (arith, find-remove_entry t id v id);
  kept = λ q outside.
      let other : q ≢ id = λ e. outside (rw e Below.self) in
      ground (arith, find-remove_entry t id v q, other);
  fewer = omega (arith, total-remove_entry t id found v f);
  parents = λ q e p h hp.
      let old = find-remove_ne t id q e v h in
      let other = find_direct_complete t id q e childless old.1 in
      ground (arith, find-remove_entry t id v e.parent_id);
}

Below-Within : (s t : Table) (top q : ℕ) → Within t s → Below t top q → Below s top q
Below-Within s t top q w self = Below.self
Below-Within s t top q w (under _ e f b) =
    Below.under q e (w q e f) (Below-Within s t top e.parent_id w b)

-- What is below a child is below its parent.
pub Below-child :
    (s : Table) (c : Entry) (q : ℕ)
    → find_routing_data s c.id ≡ some c
    → Below s c.id q
    → Below s c.parent_id q
Below-child s c q f self = Below.under c.id c f Below.self
Below-child s c q f (under _ e g b) = Below.under q e g (Below-child s c e.parent_id f b)

pub rank-Below :
    (rank : ℕ → ℕ) (t : Table) (top q : ℕ) → IsRanked rank t → Below t top q → rank q ≤ rank top
rank-Below rank t top q r self = omega arith
rank-Below rank t top q r (under _ e f b) =
    let same = find-id t q e f in
    let lower = rw same at (r q e f) in omega (arith, lower, rank-Below rank t top e.parent_id r b)

-- The removal of a child, and then that of its parent.
IsRemoval-trans :
    (s t u : Table) (c : Entry)
    → find_routing_data s c.id ≡ some c
    → IsRemoval s c.id t
    → IsRemoval t c.parent_id u
    → IsRemoval s c.parent_id u
IsRemoval-trans s t u c f a b = record {
  table = b.table;
  within = Within-trans s t u b.within a.within;
  gone = b.gone;
  kept = λ q outside.
      b.kept q (λ h. outside (Below-Within s t c.parent_id q a.within h))
      ∙ a.kept q (λ h. outside (Below-child s c q f h));
  fewer = omega (arith, a.fewer, b.fewer);
  parents = λ q e p h hp. b.parents q e p h (a.parents q e p (b.within q e h) hp);
}

pub IsRanked-Within : (rank : ℕ → ℕ) (s t : Table) → Within t s → IsRanked rank s → IsRanked rank t
IsRanked-Within rank s t w r q e f = r q e (w q e f)

abbrev pub Removes : Table → ℕ → Option Table → Type 0
Removes t id result = (u : Table) × (result ≡ some u) × IsRemoval t id u

mutual
  unfolding remove_routing_data

  pub removes :
      (fuel : ℕ) (rank : ℕ → ℕ) (t : Table) (found : Entry)
      → IsTable t
      → IsRanked rank t
      → find_routing_data t found.id ≡ some found
      → total t + 2 * rank found.id + 2 ≤ fuel
      → Removes t found.id (remove_routing_data fuel t found.id found.parent_id)
  removes zero rank t found v r f enough = absurd (omega arith)
  removes (suc fuel) rank t found v r f enough =
      let (u, run, removal) = Removes-children fuel rank t found v r f (omega arith) in
      (u, ground (arith, f, run), removal)

  Removes-children :
      (fuel : ℕ) (rank : ℕ → ℕ) (t : Table) (found : Entry)
      → IsTable t
      → IsRanked rank t
      → find_routing_data t found.id ≡ some found
      → total t + 2 * rank found.id + 1 ≤ fuel
      → Removes t found.id (remove_children fuel t found.id)
  Removes-children zero rank t found v r f enough = absurd (omega arith)
  Removes-children (suc fuel) rank t found v r f enough =
      elim (Option-cases (find_direct_routing_data t found.id none)) [
        | inl out ↦ (
          remove_entry t found.id,
          ground (arith, out),
          remove_entry-IsRemoval t found.id found v f out,
        )
        | inr (c, hit) ↦
            let (parent, stored) = find_direct_sound t found.id c v hit in
            let lower = subst (λ n. rank c.id < rank n) parent (r c.id c stored) in
            let (t', run, a) = removes fuel rank t c v r stored (omega arith) in
            let apart = λ (b : Below t c.id found.id).
              absurd (omega (arith, lower, rank-Below rank t c.id found.id r b)) in
            let (u, run', b) =
              Removes-children fuel rank t' found a.table (IsRanked-Within rank t t' a.within r)
                (a.kept found.id apart ∙ f) (omega (arith, a.fewer, lower, enough)) in
            (
              u,
              ground (arith, hit, run, run'),
              subst (λ n. IsRemoval t n u) parent
                  (IsRemoval-trans t t' u c stored a
                    (subst (λ n. IsRemoval t' n u) (sym parent) b)),
            )
      ]

-- In a table where no entry is above itself, `remove_routing_data` called with the right parent ends, with
-- fuel for two calls on each level and one for each entry. It takes away the entry and everything below it,
-- and nothing else: every id below the entry is no longer found, every other id is found as before, and the
-- table stays well formed.
pub remove_routing_data-total :
    (fuel : ℕ) (rank : ℕ → ℕ) (t : Table) (found : Entry)
    → IsTable t
    → IsRanked rank t
    → find_routing_data t found.id ≡ some found
    → total t + 2 * rank found.id + 2 ≤ fuel
    → (u : Table) × (remove_routing_data fuel t found.id found.parent_id ≡ some u)
      × IsTable u
      × ((q : ℕ) → Below t found.id q → find_routing_data u q ≡ none)
      × ((q : ℕ) → ¬ Below t found.id q → find_routing_data u q ≡ find_routing_data t q)
remove_routing_data-total fuel rank t found v r f enough =
    let (u, run, removal) = removes fuel rank t found v r f enough in
    (u, run, removal.table, λ q b. emptied t u found f removal q b, removal.kept)
  where
    emptied :
        (t u : Table) (found : Entry)
        → find_routing_data t found.id ≡ some found
        → IsRemoval t found.id u
        → (q : ℕ) → Below t found.id q
        → find_routing_data u q ≡ none
    emptied t u found f removal q self = removal.gone
    emptied t u found f removal q (under _ e g b) =
        let above = emptied t u found f removal e.parent_id b in
        elim (Option-cases (find_routing_data u q)) [
          | inl out ↦ out
          | inr (e', hit) ↦
              let same : e' ≡ e = ground (arith, removal.within q e' hit, g) in
              let (p, stored) = parent_of t found e.parent_id f b in
              let still = removal.parents q e p (hit ∙ ap some same) stored in cc (above, still)
        ]
      where
        parent_of :
            (t : Table) (found : Entry) (q : ℕ)
            → find_routing_data t found.id ≡ some found
            → Below t found.id q
            → (p : Entry) × (find_routing_data t q ≡ some p)
        parent_of t found q f self = (found, f)
        parent_of t found q f (under _ p g b) = (p, g)

-- A call with another parent than the entry has, or for an id that is not there, changes nothing.
pub remove_routing_data_mismatch :
    (fuel : ℕ) (t : Table) (id parent : ℕ)
    → ((e : Entry) → find_routing_data t id ≡ some e → e.parent_id ≢ parent)
    → remove_routing_data (suc fuel) t id parent ≡ some t
unfolding remove_routing_data
remove_routing_data_mismatch fuel t id parent h = elim (Option-cases (find_routing_data t id)) [
  | inl out ↦ ground (arith, out)
  | inr (e, hit) ↦ ground (arith, hit, h e hit)
]
