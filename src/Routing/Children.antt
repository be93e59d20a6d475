-- ===== src/Routing/Children.antt =====
-- The search for direct children.
use os_domotics.Prelude.{
  Bool-cases, Option-cases, [], ap, arith, get_or, inl, inr, none, some, subst, suc, zero, ℕ, ◌-◌,
  ◌==◌, ◌∙◌, ◌∷◌, ◌≡◌, ◌≢◌, ◌≤◌,
}
use os_domotics.Routing.{
  Bucket, Entry, Table, find_direct_routing_data, find_in_bucket, find_routing_data, hash_id,
  scan_bucket, scan_buckets,
}
use os_domotics.Routing.Bucket.{IsBucket}
use os_domotics.Routing.Table.{IsBuckets, IsTable}

scan_bucket_sound :
    (h low p : ℕ) (b : Bucket) (c : Entry)
    → IsBucket h low b
    → scan_bucket p b ≡ some c
    → (c.parent_id ≡ p) × (low ≤ c.id) × (hash_id c.id ≡ h) × (find_in_bucket c.id b ≡ some c)
unfolding scan_bucket find_in_bucket
scan_bucket_sound h low p [] c v s = cc
scan_bucket_sound h low p (d ∷ rest) c v s = elim (Bool-cases (d.parent_id == p)) [
  | inl eq ↦ ground arith
  | inr ne ↦ ground (arith, scan_bucket_sound h (suc d.id) p rest c v.2)
]

scan_bucket_complete :
    (p q : ℕ) (b : Bucket) (e : Entry)
    → scan_bucket p b ≡ none
    → find_in_bucket q b ≡ some e
    → e.parent_id ≢ p
unfolding scan_bucket find_in_bucket
scan_bucket_complete p q [] e s f = cc
scan_bucket_complete p q (d ∷ rest) e s f = ground (arith, scan_bucket_complete p q rest e)

scan_buckets_sound :
    (k p : ℕ) (bs : Table) (c : Entry)
    → IsBuckets k bs
    → scan_buckets p bs ≡ some c
    → (c.parent_id ≡ p)
      × (k ≤ hash_id c.id)
      × (find_in_bucket c.id (get_or bs (hash_id c.id - k) []) ≡ some c)
unfolding scan_buckets
scan_buckets_sound k p [] c v s = cc
scan_buckets_sound k p (b ∷ bs) c v s = elim (Option-cases (scan_bucket p b)) [
  | inl out ↦
      let ih = scan_buckets_sound (suc k) p bs c v.1 (ground (arith, out, s)) in
      let index : hash_id c.id - k ≡ suc (hash_id c.id - suc k) = omega arith in
      (ih.0, omega arith, rw index ih.2)
  | inr (d, found) ↦
      let same : d ≡ c = ground (arith, found, s) in
      let (parent, low, hash, find) = scan_bucket_sound k 0 p b c v.0 (found ∙ ap some same) in
      let index : hash_id c.id - k ≡ 0 = omega arith in (parent, omega arith, rw index find)
]

scan_buckets_complete :
    (p i q : ℕ) (bs : Table) (e : Entry)
    → scan_buckets p bs ≡ none
    → find_in_bucket q (get_or bs i []) ≡ some e
    → e.parent_id ≢ p
unfolding scan_buckets find_in_bucket
scan_buckets_complete p i q [] e s f = cc
scan_buckets_complete p zero q (b ∷ bs) e s f = scan_bucket_complete p q b e (ground (arith, s)) f
scan_buckets_complete p (suc i) q (b ∷ bs) e s f =
    scan_buckets_complete p i q bs e (ground (arith, s)) f

-- A direct child that is found is an entry of the table, and names the parent.
pub find_direct_sound :
    (t : Table) (p : ℕ) (c : Entry)
    → IsTable t
    → find_direct_routing_data t p none ≡ some c
    → (c.parent_id ≡ p) × (find_routing_data t c.id ≡ some c)
unfolding find_direct_routing_data find_routing_data
find_direct_sound t p c v s =
    let (parent, _, find) = scan_buckets_sound 0 p t c v.buckets s in
    let same : hash_id c.id - 0 ≡ hash_id c.id = omega arith in
    (parent, subst (λ n. find_in_bucket c.id (get_or t n []) ≡ some c) same find)

-- Where no direct child is found, no entry of the table names the parent.
pub find_direct_complete :
    (t : Table) (p q : ℕ) (e : Entry)
    → find_direct_routing_data t p none ≡ none
    → find_routing_data t q ≡ some e
    → e.parent_id ≢ p
unfolding find_direct_routing_data find_routing_data
find_direct_complete t p q e s f = scan_buckets_complete p (hash_id q) q t e s f
