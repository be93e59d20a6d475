-- ===== src/Routing/Table.antt =====
-- The whole table: its invariant, and the finite map that it is.
use native.Mathlib.Decide.{ℕ_discrete}
use native.Mathlib.Nat.{add-zero}
use os_domotics.Prelude.{
  Bool-cases, Option, [], arith, bit_and_fifteen, get_or, get_or-set_ne, get_or-set_self,
  if◌then◌else◌, inl, inr, length, length-set, none, refl, replicate, set, some, suc, zero, ℕ, ◌+◌,
  ◌<◌, ◌==◌, ◌∙◌, ◌∷◌, ◌≡◌,
}
use os_domotics.Routing.{
  Bucket, Entry, Table, find_in_bucket, find_routing_data, get_bucket, hash_id, init_routing_table,
  insert_routing_data, remove_entry, remove_routing_data_from_bucket, set_bucket, set_type,
  unique_id_hashes,
}
use os_domotics.Routing.Bucket.{
  IsBucket, find-insert_bucket, find-remove_bucket, find-set_type_bucket, find_in_bucket-id,
  insert-IsBucket, length-remove_bucket, remove-IsBucket, set_type-IsBucket, with_type,
}

-- The buckets from number `k` on.
abbrev pub IsBuckets : ℕ → Table → Type 0
IsBuckets k [] = Unit
IsBuckets k (b ∷ bs) = IsBucket k 0 b × IsBuckets (suc k) bs

pub record IsTable (t : Table) : Type 0 where
  pub width : length t ≡ unique_id_hashes
  pub buckets : IsBuckets 0 t

pub hash_id-lt : (i : ℕ) → hash_id i < unique_id_hashes
hash_id-lt i = omega (arith, bit_and_fifteen i)

pub get-IsBuckets :
    (k i : ℕ) (bs : Table) → IsBuckets k bs → i < length bs → IsBucket (k + i) 0 (get_or bs i [])
get-IsBuckets k i [] v h = absurd (omega arith)
get-IsBuckets k zero (b ∷ bs) v h = rw add-zero v.0
get-IsBuckets k (suc i) (b ∷ bs) v h =
    let same : k + suc i ≡ suc k + i = omega arith in
    rw same (get-IsBuckets (suc k) i bs v.1 (omega arith))

set-IsBuckets :
    (k i : ℕ) (bs : Table) (b : Bucket)
    → IsBuckets k bs
    → IsBucket (k + i) 0 b
    → IsBuckets k (set bs i b)
set-IsBuckets k i [] b v w = tt
set-IsBuckets k zero (c ∷ bs) b v w = (rw add-zero at w, v.1)
set-IsBuckets k (suc i) (c ∷ bs) b v w =
    let same : k + suc i ≡ suc k + i = omega arith in
    (v.0, set-IsBuckets (suc k) i bs b v.1 (rw same at w))

pub get_bucket-IsBucket :
    (t : Table) (id : ℕ) → IsTable t → IsBucket (hash_id id) 0 (get_bucket t id)
get_bucket-IsBucket t id v =
    let same : 0 + hash_id id ≡ hash_id id = omega arith in
    rw same at (get-IsBuckets 0 (hash_id id) t v.buckets (omega (arith, v.width, hash_id-lt id)))

set_bucket-IsTable :
    (t : Table) (id : ℕ) (b : Bucket)
    → IsTable t
    → IsBucket (hash_id id) 0 b
    → IsTable (set_bucket t id b)
set_bucket-IsTable t id b v w =
    let same : hash_id id ≡ 0 + hash_id id = omega arith in
    record {
      width = length-set t (hash_id id) b ∙ v.width;
      buckets = set-IsBuckets 0 (hash_id id) t b v.buckets (rw same at w);
    }

-- A write of one bucket, from what it does to the entries of the bucket.
find-set_bucket :
    (t : Table) (id : ℕ) (b : Bucket) (new : Option Entry → Option Entry)
    → IsTable t
    → ((q : ℕ)
        → find_in_bucket q b ≡ (
            if q == id
            then new (find_in_bucket q (get_bucket t id))
            else find_in_bucket q (get_bucket t id)))
    → (q : ℕ)
    → find_routing_data (set_bucket t id b) q
      ≡ (if q == id then new (find_routing_data t q) else find_routing_data t q)
unfolding find_routing_data
find-set_bucket t id b new v h q = elim (ℕ_discrete (hash_id id) (hash_id q)) [
  | yes e ↦
      rw (← e, get_or-set_self t (hash_id id) b [] (omega (arith, v.width, hash_id-lt id))) (h q)
  | no ne ↦
      rw (get_or-set_ne t (hash_id id) (hash_id q) b [] ne)
        (elim (Bool-cases (q == id)) [ inl eq ↦ absurd (ne (ground arith)) | inr other ↦ rw other ])
]

pub init-IsTable : IsTable init_routing_table
unfolding init_routing_table
init-IsTable = record { width = refl; buckets = omega arith }

pub insert-IsTable : (t : Table) (e : Entry) → IsTable t → IsTable (insert_routing_data t e)
unfolding insert_routing_data
insert-IsTable t e v = set_bucket-IsTable t e.id _ v (
    insert-IsBucket (hash_id e.id) 0 (get_bucket t e.id) e (get_bucket-IsBucket t e.id v)
      (omega arith) refl)

pub remove_entry-IsTable : (t : Table) (id : ℕ) → IsTable t → IsTable (remove_entry t id)
unfolding remove_entry
remove_entry-IsTable t id v =
    set_bucket-IsTable t id _ v
      (remove-IsBucket (hash_id id) 0 (get_bucket t id) id (get_bucket-IsBucket t id v))

pub set_type-IsTable : (t : Table) (id type : ℕ) → IsTable t → IsTable (set_type t id type)
unfolding set_type
set_type-IsTable t id type v =
    set_bucket-IsTable t id _ v
      (set_type-IsBucket (hash_id id) 0 (get_bucket t id) id type (get_bucket-IsBucket t id v))

-- A search after an insertion finds the inserted entry under its id, where it replaces an older one, and
-- what was found before under every other id.
pub find-insert_routing_data :
    (t : Table) (e : Entry)
    → IsTable t
    → (q : ℕ)
    → find_routing_data (insert_routing_data t e) q
      ≡ (if q == e.id then some e else find_routing_data t q)
unfolding insert_routing_data
find-insert_routing_data t e v =
    find-set_bucket t e.id _ (λ _. some e) v
      (λ q.
        find-insert_bucket (hash_id e.id) 0 (get_bucket t e.id) e q (get_bucket-IsBucket t e.id v))

-- A search after a removal finds nothing under the removed id, and what was found before elsewhere.
pub find-remove_entry :
    (t : Table) (id : ℕ)
    → IsTable t
    → (q : ℕ)
    → find_routing_data (remove_entry t id) q ≡ (if q == id then none else find_routing_data t q)
unfolding remove_entry
find-remove_entry t id v =
    find-set_bucket t id _ (λ _. none) v
      (λ q. find-remove_bucket (hash_id id) 0 (get_bucket t id) id q (get_bucket-IsBucket t id v))

-- A search after a change of type finds the same entries, the one with the id with its new type.
pub find-set_type :
    (t : Table) (id type : ℕ)
    → IsTable t
    → (q : ℕ)
    → find_routing_data (set_type t id type) q
      ≡ (if q == id then with_type type (find_routing_data t q) else find_routing_data t q)
unfolding set_type
find-set_type t id type v = find-set_bucket t id _ (with_type type) v (λ q.
    find-set_type_bucket (hash_id id) 0 (get_bucket t id) id type q (get_bucket-IsBucket t id v))

pub find-id : (t : Table) (q : ℕ) (e : Entry) → find_routing_data t q ≡ some e → e.id ≡ q
unfolding find_routing_data
find-id t q e h = find_in_bucket-id q (get_bucket t q) e h

-- How many entries a table has.
abbrev pub total : Table → ℕ
total [] = 0
total (b ∷ bs) = length b + total bs

pub total-set :
    (t : Table) (i : ℕ) (b : Bucket)
    → i < length t
    → total (set t i b) + length (get_or t i []) ≡ total t + length b
total-set [] i b h = absurd (omega arith)
total-set (c ∷ t) zero b h = omega arith
total-set (c ∷ t) (suc i) b h = omega (arith, total-set t i b (omega arith))

pub total-remove_entry :
    (t : Table) (id : ℕ) (e : Entry)
    → IsTable t
    → find_routing_data t id ≡ some e
    → suc (total (remove_entry t id)) ≡ total t
unfolding remove_entry find_routing_data
total-remove_entry t id e v f = omega (
  arith,
  v.width,
  hash_id-lt id,
  total-set t (hash_id id) (remove_routing_data_from_bucket (get_bucket t id) id)
      (omega (arith, v.width, hash_id-lt id)),
  length-remove_bucket (hash_id id) 0 (get_bucket t id) id e f,
)

get_or-replicate : (n i : ℕ) → get_or (replicate {A = Bucket} n []) i [] ≡ []
get_or-replicate zero i = refl
get_or-replicate (suc n) zero = refl
get_or-replicate (suc n) (suc i) = get_or-replicate n i

pub find-init : (q : ℕ) → find_routing_data init_routing_table q ≡ none
unfolding find_routing_data init_routing_table find_in_bucket
find-init q = rw (get_or-replicate unique_id_hashes (hash_id q)) refl
