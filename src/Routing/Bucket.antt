-- ===== src/Routing/Bucket.antt =====
-- One bucket: the order of its ids, and the finite map that it is.
use os_domotics.Prelude.{
  Bool-cases, Option, [], arith, false, if◌then◌else◌, inl, inr, length, ltb, ltb→lt, none, refl,
  some, suc, true, ℕ, ◌<◌, ◌==◌, ◌∷◌, ◌≡◌, ◌≤◌,
}
use os_domotics.Routing.{
  Bucket, Entry, find_in_bucket, hash_id, insert_routing_data_in_bucket, place,
  remove_routing_data_from_bucket, set_type_in_bucket,
}

-- The ids rise from `low` on, and have the hash of the bucket.
abbrev pub IsBucket : ℕ → ℕ → Bucket → Type 0
IsBucket h low [] = Unit
IsBucket h low (c ∷ rest) = (low ≤ c.id) × (hash_id c.id ≡ h) × IsBucket h (suc c.id) rest

pub IsBucket-weaken :
    (h low low' : ℕ) (b : Bucket) → low' ≤ low → IsBucket h low b → IsBucket h low' b
IsBucket-weaken h low low' [] le v = tt
IsBucket-weaken h low low' (c ∷ rest) le v = (omega arith, v.1, v.2)

pub insert-IsBucket :
    (h low : ℕ) (b : Bucket) (e : Entry)
    → IsBucket h low b
    → low ≤ e.id
    → hash_id e.id ≡ h
    → IsBucket h low (insert_routing_data_in_bucket b e)
unfolding insert_routing_data_in_bucket
insert-IsBucket h low [] e v le he = (le, he, tt)
insert-IsBucket h low (c ∷ []) e v le he = ground arith
insert-IsBucket h low (c ∷ n ∷ rest) e v le he = elim (Bool-cases (ltb c.id e.id)) [
  | inl lt ↦
      rw lt (v.0, v.1, insert-IsBucket h (suc c.id) (n ∷ rest) e v.2 (ltb→lt c.id e.id lt) he)
  | inr ge ↦ rw ge (ground arith)
]

pub remove-IsBucket :
    (h low : ℕ) (b : Bucket) (id : ℕ)
    → IsBucket h low b
    → IsBucket h low (remove_routing_data_from_bucket b id)
unfolding remove_routing_data_from_bucket
remove-IsBucket h low [] id v = tt
remove-IsBucket h low (c ∷ rest) id v =
    let lower = IsBucket-weaken h (suc c.id) low rest (omega arith) v.2 in
    let ih = remove-IsBucket h (suc c.id) rest id v.2 in
    elim (Bool-cases (ltb c.id id)) [
      | inl lt ↦ rw lt (v.0, v.1, ih)
      | inr ge ↦ rw ge (elim (Bool-cases (c.id == id)) [ inl eq ↦ rw eq lower | inr ne ↦ rw ne v ])
    ]

pub set_type-IsBucket :
    (h low : ℕ) (b : Bucket) (id type : ℕ)
    → IsBucket h low b
    → IsBucket h low (set_type_in_bucket id type b)
unfolding set_type_in_bucket
set_type-IsBucket h low [] id type v = tt
set_type-IsBucket h low (c ∷ rest) id type v =
    let ih = set_type-IsBucket h (suc c.id) rest id type v.2 in
    elim (Bool-cases (c.id == id)) [ inl eq ↦ rw eq v | inr ne ↦ rw ne (v.0, v.1, ih) ]

-- An id below the first one is not found.
pub find-below :
    (h low : ℕ) (b : Bucket) (q : ℕ) → IsBucket h low b → q < low → find_in_bucket q b ≡ none
unfolding find_in_bucket
find-below h low [] q v lt = refl
find-below h low (c ∷ rest) q v lt = ground arith

find-cons :
    (q : ℕ) (c : Entry) (r : Bucket)
    → find_in_bucket q (c ∷ r)
      ≡ (if ltb c.id q then find_in_bucket q r else if c.id == q then some c else none)
unfolding find_in_bucket
find-cons q c r = refl

find-place :
    (h low : ℕ) (c : Entry) (r : Bucket) (e : Entry) (q : ℕ)
    → IsBucket h low (c ∷ r)
    → ltb c.id e.id ≡ false
    → find_in_bucket q (place c r e) ≡ (if q == e.id then some e else find_in_bucket q (c ∷ r))
find-place h low c r e q v ge = ground (
  arith,
  find-cons q e r,
  find-cons q e (c ∷ r),
  find-cons q c r,
  find-below h (suc c.id) r q v.2,
)

pub find-insert_bucket :
    (h low : ℕ) (b : Bucket) (e : Entry) (q : ℕ)
    → IsBucket h low b
    → find_in_bucket q (insert_routing_data_in_bucket b e)
      ≡ (if q == e.id then some e else find_in_bucket q b)
find-insert_bucket h low [] e q v =
    unfold find_in_bucket insert_routing_data_in_bucket in ground arith
find-insert_bucket h low (c ∷ []) e q v =
    unfold find_in_bucket insert_routing_data_in_bucket in ground arith
find-insert_bucket h low (c ∷ n ∷ rest) e q v = elim (Bool-cases (ltb c.id e.id)) [
  | inl lt ↦
      let ih = find-insert_bucket h (suc c.id) (n ∷ rest) e q v.2 in
      rw (insert-later c n rest e lt) (
        ground (
          arith,
          find-cons q c (insert_routing_data_in_bucket (n ∷ rest) e),
          find-cons q c (n ∷ rest),
          ih,
        ))
  | inr ge ↦ rw (insert-here c n rest e ge) (find-place h low c (n ∷ rest) e q v ge)
]
  where
    insert-later :
        (c n : Entry) (rest : Bucket) (e : Entry)
        → ltb c.id e.id ≡ true
        → insert_routing_data_in_bucket (c ∷ n ∷ rest) e
          ≡ c ∷ insert_routing_data_in_bucket (n ∷ rest) e
    insert-later c n rest e lt = unfold insert_routing_data_in_bucket in rw lt

    insert-here :
        (c n : Entry) (rest : Bucket) (e : Entry)
        → ltb c.id e.id ≡ false
        → insert_routing_data_in_bucket (c ∷ n ∷ rest) e ≡ place c (n ∷ rest) e
    insert-here c n rest e ge = unfold insert_routing_data_in_bucket in rw ge

pub find-remove_bucket :
    (h low : ℕ) (b : Bucket) (id q : ℕ)
    → IsBucket h low b
    → find_in_bucket q (remove_routing_data_from_bucket b id)
      ≡ (if q == id then none else find_in_bucket q b)
unfolding find_in_bucket remove_routing_data_from_bucket
find-remove_bucket h low [] id q v = ground arith
find-remove_bucket h low (c ∷ rest) id q v =
    ground
      (arith, find-remove_bucket h (suc c.id) rest id q v.2, find-below h (suc c.id) rest q v.2)

-- An entry with another type.
abbrev pub with_type : ℕ → Option Entry → Option Entry
with_type type none = none
with_type type (some e) = some (record e { type = type })

pub find-set_type_bucket :
    (h low : ℕ) (b : Bucket) (id type q : ℕ)
    → IsBucket h low b
    → find_in_bucket q (set_type_in_bucket id type b)
      ≡ (if q == id then with_type type (find_in_bucket q b) else find_in_bucket q b)
unfolding find_in_bucket set_type_in_bucket
find-set_type_bucket h low [] id type q v = ground arith
find-set_type_bucket h low (c ∷ rest) id type q v = ground (
  arith,
  find-set_type_bucket h (suc c.id) rest id type q v.2,
  find-below h (suc c.id) rest q v.2,
)

-- What is found has the id that was sought.
pub find_in_bucket-id : (q : ℕ) (b : Bucket) (e : Entry) → find_in_bucket q b ≡ some e → e.id ≡ q
unfolding find_in_bucket
find_in_bucket-id q [] e h = cc
find_in_bucket-id q (c ∷ rest) e h = ground (arith, find_in_bucket-id q rest e)

-- Removal takes one entry away, if it is there.
pub length-remove_bucket :
    (h low : ℕ) (b : Bucket) (id : ℕ) (e : Entry)
    → find_in_bucket id b ≡ some e
    → suc (length (remove_routing_data_from_bucket b id)) ≡ length b
unfolding find_in_bucket remove_routing_data_from_bucket
length-remove_bucket h low [] id e f = cc
length-remove_bucket h low (c ∷ rest) id e f = ground (arith, length-remove_bucket h low rest id e)
