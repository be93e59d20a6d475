-- ===== src/Routing/Types.antt =====
-- The updates of the types above a device end, and change nothing else.
use os_domotics.Devices.{is_empty}
use os_domotics.Prelude.{
  Bool, Bool-cases, List, Option, Option-cases, [], ap, arith, inl, inr, length, length-append,
  none, refl, some, subst, suc, sym, true, zero, ℕ, ◌&&◌, ◌+◌, ◌==◌, ◌∙◌, ◌∷◌, ◌≡◌, ◌≤◌,
}
use os_domotics.Routing.{
  Bucket, Entry, Table, all_empty, find_direct_routing_data, find_routing_data, get_bucket, hash_id,
  set_type, set_type_in_bucket,
}
use os_domotics.Routing.Bucket.{with_type}
use os_domotics.Routing.Loops.{Visits, direct_children, direct_children-Visits}
use os_domotics.Routing.Order.{flat, offspring}
use os_domotics.Routing.Remove.{Below, IsRanked, self, under}
use os_domotics.Routing.Table.{IsTable, find-set_type, hash_id-lt, total, total-set}

-- The same entries, apart from their types.
abbrev pub Retyped : Table → Table → Type 0
Retyped t u =
    (q : ℕ) → (type : ℕ) × (find_routing_data u q ≡ with_type type (find_routing_data t q))

with_own_type : (o : Option Entry) → (type : ℕ) × (o ≡ with_type type o)
with_own_type none = (0, refl)
with_own_type (some e) = (e.type, refl)

pub with_type-with_type : (a b : ℕ) (o : Option Entry) → with_type a (with_type b o) ≡ with_type a o
with_type-with_type a b none = refl
with_type-with_type a b (some e) = refl

pub Retyped-refl : (t : Table) → Retyped t t
Retyped-refl t q = with_own_type (find_routing_data t q)

pub Retyped-trans : (s t u : Table) → Retyped s t → Retyped t u → Retyped s u
Retyped-trans s t u a b q =
    let (x, h) = a q in
    let (y, k) = b q in
    (y, k ∙ ap (with_type y) h ∙ with_type-with_type y x (find_routing_data s q))

pub Retyped-set_type : (t : Table) (id type : ℕ) → IsTable t → Retyped t (set_type t id type)
Retyped-set_type t id type v q = elim (Bool-cases (q == id)) [
  | inl hit ↦ (type, ground (arith, find-set_type t id type v q, hit))
  | inr miss ↦
      let (own, same) = with_own_type (find_routing_data t q) in
      (own, ground (arith, find-set_type t id type v q, miss) ∙ same)
]

-- An entry and its retyped one have the same id and the same parent.
pub Retyped-find :
    (t u : Table) (q : ℕ) (e : Entry)
    → Retyped t u
    → find_routing_data u q ≡ some e
    → (d : Entry) × (find_routing_data t q ≡ some d) × (d.id ≡ e.id) × (d.parent_id ≡ e.parent_id)
Retyped-find t u q e r h =
    let (type, same) = r q in
    elim (Option-cases (find_routing_data t q)) [
      | inl out ↦ ground (arith, h, same, out)
      | inr (d, found) ↦ (d, found, ground (arith, h, same, found), ground (arith, h, same, found))
    ]

pub find-Retyped :
    (t u : Table) (q : ℕ) (d : Entry)
    → Retyped t u
    → find_routing_data t q ≡ some d
    → (e : Entry) × (find_routing_data u q ≡ some e) × (d.id ≡ e.id) × (d.parent_id ≡ e.parent_id)
find-Retyped t u q d r h =
    let (type, same) = r q in (record d { type = type }, same ∙ ap (with_type type) h, refl, refl)

pub IsRanked-Retyped :
    (rank : ℕ → ℕ) (t u : Table) → Retyped t u → IsRanked rank t → IsRanked rank u
IsRanked-Retyped rank t u r ranked q e h =
    let (d, found, same, parent) = Retyped-find t u q e r h in
    omega (arith, ranked q d found, ap rank same, ap rank parent)

pub Below-Retyped : (t u : Table) (top q : ℕ) → Retyped t u → Below u top q → Below t top q
Below-Retyped t u top q r self = Below.self
Below-Retyped t u top q r (under _ e f b) =
    let (d, found, _, parent) = Retyped-find t u q e r f in
    Below.under q d found (subst (Below t top) (sym parent) (Below-Retyped t u top e.parent_id r b))

length-set_type : (id type : ℕ) (b : Bucket) → length (set_type_in_bucket id type b) ≡ length b
unfolding set_type_in_bucket
length-set_type id type [] = refl
length-set_type id type (c ∷ b) = ground (arith, length-set_type id type b)

pub total-set_type : (t : Table) (id type : ℕ) → IsTable t → total (set_type t id type) ≡ total t
unfolding set_type
total-set_type t id type v = omega (
  arith,
  total-set t (hash_id id) (set_type_in_bucket id type (get_bucket t id))
      (omega (arith, v.width, hash_id-lt id)),
  length-set_type id type (get_bucket t id),
)

pub length-flat : (t : Table) → length (flat t) ≡ total t
unfolding flat
length-flat [] = refl
length-flat (b ∷ bs) = length-append b (flat bs) ∙ ap (λ n. length b + n) (length-flat bs)

length-offspring : (p : ℕ) (xs : List Entry) → length (offspring p xs) ≤ length xs
length-offspring p [] = omega arith
length-offspring p (x ∷ xs) = ground (arith, length-offspring p xs)

pub length-direct_children : (t : Table) (p : ℕ) → length (direct_children t p) ≤ total t
length-direct_children t p = omega (arith, length-offspring p (flat t), length-flat t)

-- No child has a leaf type.
abbrev pub are_empty : List Entry → Bool
are_empty [] = true
are_empty (c ∷ cs) = is_empty c.type && are_empty cs

all_empty-Visits :
    (fuel : ℕ) (t : Table) (p : ℕ) (cs : List Entry) (current : Option Entry)
    → Visits t p cs current
    → length cs ≤ fuel
    → all_empty fuel t p current ≡ some (are_empty cs)
unfolding all_empty
all_empty-Visits fuel t p [] current visited h = rw visited refl
all_empty-Visits zero t p (c ∷ cs) current visited h = absurd (omega arith)
all_empty-Visits (suc fuel) t p (c ∷ cs) current visited h =
    let rest =
      all_empty-Visits fuel t p cs (find_direct_routing_data t p (some c)) visited.1
        (omega arith) in
    rw visited.0 (ground (arith, rest))

pub all_empty-children :
    (fuel : ℕ) (t : Table) (p : ℕ)
    → IsTable t
    → total t ≤ fuel
    → all_empty fuel t p (find_direct_routing_data t p none)
      ≡ some (are_empty (direct_children t p))
all_empty-children fuel t p v h =
    all_empty-Visits fuel t p (direct_children t p) _ (direct_children-Visits t p v)
      (omega (arith, h, length-direct_children t p))
