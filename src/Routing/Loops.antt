-- ===== src/Routing/Loops.antt =====
-- The loops of the program over the direct children of a device, and over all entries.
use os_domotics.Prelude.{
  Bool-cases, List, Option, Option-cases, [], ap, arith, drop, inl, inr, none, refl, some, subst,
  suc, sym, ℕ, ◌++◌, ◌==◌, ◌↔◌, ◌∙◌, ◌∷◌, ◌≡◌, ◌⊎◌,
}
use os_domotics.Routing.{
  Bucket, Entry, Table, after_entry, find_direct_routing_data, find_routing_data, get_bucket,
  hash_id, or_next, scan_bucket, scan_buckets,
}
use os_domotics.Routing.Bucket.{IsBucket, IsBucket-weaken}
use os_domotics.Routing.Order.{
  In, IsDistinct, after_entry-In, after_entry-IsDistinct, after_entry-after_entry, flat, offspring,
  scan_bucket-append, scan_bucket-none, scan_bucket-offspring, scan_buckets-flat,
}
use os_domotics.Routing.Siblings.{In-find, In-get, after-flat, find-In, flat-IsDistinct}
use os_domotics.Routing.Table.{IsTable, get_bucket-IsBucket}

after-IsBucket : (h low q : ℕ) (b : Bucket) → IsBucket h low b → IsBucket h low (after_entry q b)
unfolding after_entry
after-IsBucket h low q [] v = tt
after-IsBucket h low q (c ∷ b) v = elim (Bool-cases (c.id == q)) [
  | inl hit ↦ rw hit (IsBucket-weaken h (suc c.id) low b (omega (arith, v.0)) v.2)
  | inr miss ↦ rw miss (
      IsBucket-weaken h (suc c.id) low (after_entry q b) (omega (arith, v.0))
        (after-IsBucket h (suc c.id) q b v.2))
]

-- The next direct child is the next one in the list.
pub find_direct-flat :
    (t : Table) (p : ℕ) (last : Entry)
    → IsTable t
    → In last (flat t)
    → find_direct_routing_data t p (some last) ≡ scan_bucket p (after_entry last.id (flat t))
unfolding find_direct_routing_data
find_direct-flat t p last v i =
    let h = hash_id last.id in
    let bucket = get_bucket t last.id in
    let after = after_entry last.id bucket in
    let list = after-flat 0 h last.id t last v.buckets (omega arith) (In-get t last v i) refl in
    subst (λ l. find_direct_routing_data t p (some last) ≡ scan_bucket p l) (sym list)
      (go after (after-IsBucket h 0 last.id bucket (get_bucket-IsBucket t last.id v)))
  where
    go :
        (after : Bucket)
        → IsBucket (hash_id last.id) 0 after
        → (elim after [
          | [] ↦ scan_buckets p (drop (suc (hash_id last.id)) t)
          | current ∷ next ↦
              or_next
                (scan_bucket p (current ∷ next))
                (scan_buckets p (drop (suc (hash_id current.id)) t))
        ])
          ≡ scan_bucket p (after ++ flat (drop (suc (hash_id last.id)) t))
    go [] b = scan_buckets-flat p _
    go (c ∷ next) b = rw b.1 (
        ap (or_next (scan_bucket p (c ∷ next))) (scan_buckets-flat p _)
        ∙ sym (scan_bucket-append p (c ∷ next) _))

pub find_direct-flat_first :
    (t : Table) (p : ℕ) → find_direct_routing_data t p none ≡ scan_bucket p (flat t)
unfolding find_direct_routing_data
find_direct-flat_first t p = scan_buckets-flat p t

-- A loop over the direct children of `p` that is at `current` visits these entries and ends.
abbrev pub Visits : Table → ℕ → List Entry → Option Entry → Type 0
Visits t p [] current = current ≡ none
Visits t p (c ∷ cs) current =
    (current ≡ some c) × Visits t p cs (find_direct_routing_data t p (some c))

-- What is left of the list when the loop stands before `rest`.
abbrev IsRest : Table → List Entry → Type 0
IsRest t rest =
    (e : Entry) → In e rest → In e (flat t) × (after_entry e.id (flat t) ≡ after_entry e.id rest)

IsRest-after :
    (t : Table) (rest : List Entry) (c : Entry)
    → IsTable t
    → IsDistinct rest
    → IsRest t rest
    → IsRest t (after_entry c.id rest)
IsRest-after t rest c v d r e i =
    let (j, same) = r e (after_entry-In c.id e rest i) in
    (j, same ∙ after_entry-after_entry c.id e rest d i)

visits :
    (t : Table) (p : ℕ) (cs rest : List Entry)
    → IsTable t
    → IsDistinct rest
    → IsRest t rest
    → offspring p rest ≡ cs
    → Visits t p cs (scan_bucket p rest)
visits t p [] rest v d r h = elim (Option-cases (scan_bucket p rest)) [
  | inl out ↦ out
  | inr (c, found) ↦ ground (arith, h, scan_bucket-offspring p rest c d found)
]
visits t p (c ∷ cs) rest v d r h = elim (Option-cases (scan_bucket p rest)) [
  | inl out ↦ ground (arith, h, scan_bucket-none p rest out)
  | inr (c', found) ↦
      let (i, _, list) = scan_bucket-offspring p rest c' d found in
      let first : c' ≡ c = ground (arith, list, h) in
      let tail : offspring p (after_entry c'.id rest) ≡ cs = ground (arith, list, h) in
      let (j, same) = r c' i in
      let next : find_direct_routing_data t p (some c') ≡ scan_bucket p (after_entry c'.id rest) =
        find_direct-flat t p c' v j ∙ ap (scan_bucket p) same in
      let later =
        visits t p cs (after_entry c'.id rest) v (after_entry-IsDistinct c'.id rest d)
          (IsRest-after t rest c' v d r) tail in
      (
        found ∙ ap some first,
        subst (λ e. Visits t p cs (find_direct_routing_data t p (some e))) first
            (subst (Visits t p cs) (sym next) later),
      )
]

-- The direct children of a device in a table, in the order of the loops.
abbrev pub direct_children : Table → ℕ → List Entry
direct_children t p = offspring p (flat t)

pub direct_children-Visits :
    (t : Table) (p : ℕ)
    → IsTable t
    → Visits t p (direct_children t p) (find_direct_routing_data t p none)
direct_children-Visits t p v =
    subst (Visits t p (direct_children t p)) (sym (find_direct-flat_first t p))
      (visits t p (direct_children t p) (flat t) v (flat-IsDistinct t v) (λ e i. (i, refl)) refl)

pub offspring-In :
    (p : ℕ) (xs : List Entry) (e : Entry) → In e (offspring p xs) → In e xs × (e.parent_id ≡ p)
offspring-In p [] e i = absurd i
offspring-In p (x ∷ xs) e i = elim (Bool-cases (x.parent_id == p)) [
  | inr miss ↦ let (j, h) = offspring-In p xs e (rw miss at i) in (inr j, h)
  | inl hit ↦ elim (the_head (rw hit at i)) [
    | inl s ↦ (inl s, ground (arith, hit, s))
    | inr j ↦ let (j', h) = offspring-In p xs e j in (inr j', h)
  ]
]
  where
    the_head : (e ≡ x) ⊎ In e (offspring p xs) → (e ≡ x) ⊎ In e (offspring p xs)
    the_head i = i

In-offspring :
    (p : ℕ) (xs : List Entry) (e : Entry) → In e xs → e.parent_id ≡ p → In e (offspring p xs)
In-offspring p [] e i h = absurd i
In-offspring p (x ∷ xs) e (inl s) h = ground (arith, s, h)
In-offspring p (x ∷ xs) e (inr i) h = elim (Bool-cases (x.parent_id == p)) [
  | inr miss ↦ rw miss (In-offspring p xs e i h)
  | inl hit ↦ rw hit (inr (In-offspring p xs e i h))
]

offspring-IsDistinct : (p : ℕ) (xs : List Entry) → IsDistinct xs → IsDistinct (offspring p xs)
offspring-IsDistinct p [] d = tt
offspring-IsDistinct p (x ∷ xs) d = elim (Bool-cases (x.parent_id == p)) [
  | inr miss ↦ rw miss (offspring-IsDistinct p xs d.1)
  | inl hit ↦ rw hit (λ e i. d.0 e (offspring-In p xs e i).0, offspring-IsDistinct p xs d.1)
]

-- The loop over direct children, which the program writes in many places, ends. It visits an entry exactly
-- when a search finds it in the table and it has the parent, and no entry twice.
pub find_direct_routing_data-Visits :
    (t : Table) (p : ℕ)
    → IsTable t
    → Visits t p (direct_children t p) (find_direct_routing_data t p none)
      × ((e : Entry)
          → In e (direct_children t p) ↔ ((find_routing_data t e.id ≡ some e) × (e.parent_id ≡ p)))
      × IsDistinct (direct_children t p)
find_direct_routing_data-Visits t p v = (
  direct_children-Visits t p v,
  λ e. (
    λ i. let (j, h) = offspring-In p (flat t) e i in (In-find t e v j, h),
    λ (f, h). In-offspring p (flat t) e (find-In t e.id e f).0 h,
  ),
  offspring-IsDistinct p (flat t) (flat-IsDistinct t v),
)
