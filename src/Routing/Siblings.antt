-- ===== src/Routing/Siblings.antt =====
-- The loops over the direct children of a device and over the whole table, in a well-formed table.
use os_domotics.Prelude.{
  Bool-cases, List, [], ap, arith, drop, get_or, inl, inr, ltb, refl, some, subst, suc, sym, zero,
  ℕ, ◌++◌, ◌+◌, ◌-◌, ◌==◌, ◌∙◌, ◌∷◌, ◌≡◌, ◌≢◌, ◌≤◌,
}
use os_domotics.Routing.{
  Bucket, Entry, Table, after_entry, find_in_bucket, find_routing_data, get_bucket, hash_id,
}
use os_domotics.Routing.Bucket.{IsBucket}
use os_domotics.Routing.Order.{
  In, In-append, In-append_left, In-append_right, IsDistinct, IsDistinct-append, flat,
}
use os_domotics.Routing.Table.{IsBuckets, IsTable, get_bucket-IsBucket}

pub bucket-In :
    (h low : ℕ) (b : Bucket) (e : Entry)
    → IsBucket h low b
    → In e b
    → (low ≤ e.id) × (hash_id e.id ≡ h)
bucket-In h low [] e v i = absurd i
bucket-In h low (c ∷ b) e v (inl s) = ground (arith, s)
bucket-In h low (c ∷ b) e v (inr i) =
    let (above, hash) = bucket-In h (suc c.id) b e v.2 i in (omega (arith, v.0), hash)

bucket-IsDistinct : (h low : ℕ) (b : Bucket) → IsBucket h low b → IsDistinct b
bucket-IsDistinct h low [] v = tt
bucket-IsDistinct h low (c ∷ b) v = (
  λ e i s. let above = (bucket-In h (suc c.id) b e v.2 i).0 in omega (arith, above, s),
  bucket-IsDistinct h (suc c.id) b v.2,
)

pub flat-In : (k : ℕ) (bs : Table) (e : Entry) → IsBuckets k bs → In e (flat bs) → k ≤ hash_id e.id
unfolding flat
flat-In k [] e v i = absurd i
flat-In k (b ∷ bs) e v i = elim (In-append e b (flat bs) i) [
  | inl j ↦ omega (arith, (bucket-In k 0 b e v.0 j).1)
  | inr j ↦ omega (arith, flat-In (suc k) bs e v.1 j)
]

flat_from-IsDistinct : (k : ℕ) (bs : Table) → IsBuckets k bs → IsDistinct (flat bs)
unfolding flat
flat_from-IsDistinct k [] v = tt
flat_from-IsDistinct k (b ∷ bs) v =
    IsDistinct-append b (flat bs) (bucket-IsDistinct k 0 b v.0)
      (flat_from-IsDistinct (suc k) bs v.1)
      (λ d e i j s.
        let left = (bucket-In k 0 b d v.0 i).1 in
        let right = flat-In (suc k) bs e v.1 j in
        let same = ap hash_id s in omega (arith, left, right, same))

pub flat-IsDistinct : (t : Table) → IsTable t → IsDistinct (flat t)
flat-IsDistinct t v = flat_from-IsDistinct 0 t v.buckets

-- What a search in a bucket finds stands in it, and the other way round.
find_in_bucket-In :
    (q : ℕ) (b : Bucket) (e : Entry) → find_in_bucket q b ≡ some e → In e b × (e.id ≡ q)
unfolding find_in_bucket
find_in_bucket-In q [] e h = cc
find_in_bucket-In q (c ∷ b) e h = elim (Bool-cases (ltb c.id q)) [
  | inl below ↦ let (i, s) = find_in_bucket-In q b e (rw below at h) in (inr i, s)
  | inr above ↦ elim (Bool-cases (c.id == q)) [
    | inl hit ↦ ground (arith, h, above, hit)
    | inr miss ↦ ground (arith, h, above, miss)
  ]
]

In-find_in_bucket :
    (h low : ℕ) (b : Bucket) (e : Entry)
    → IsBucket h low b
    → In e b
    → find_in_bucket e.id b ≡ some e
unfolding find_in_bucket
In-find_in_bucket h low [] e v i = absurd i
In-find_in_bucket h low (c ∷ b) e v (inl s) = ground (arith, s)
In-find_in_bucket h low (c ∷ b) e v (inr i) =
    let above = (bucket-In h (suc c.id) b e v.2 i).0 in
    ground (arith, above, In-find_in_bucket h (suc c.id) b e v.2 i)

In-flat : (bs : Table) (i : ℕ) (e : Entry) → In e (get_or bs i []) → In e (flat bs)
unfolding flat
In-flat [] i e h = absurd h
In-flat (b ∷ bs) zero e h = In-append_left e b (flat bs) h
In-flat (b ∷ bs) (suc i) e h = In-append_right e b (flat bs) (In-flat bs i e h)

flat-get :
    (k : ℕ) (bs : Table) (e : Entry)
    → IsBuckets k bs
    → In e (flat bs)
    → In e (get_or bs (hash_id e.id - k) [])
unfolding flat
flat-get k [] e v i = absurd i
flat-get k (b ∷ bs) e v i = elim (In-append e b (flat bs) i) [
  | inl j ↦
      let none_left : hash_id e.id - k ≡ 0 = omega (arith, (bucket-In k 0 b e v.0 j).1) in
      rw none_left j
  | inr j ↦
      let far = flat-In (suc k) bs e v.1 j in
      let index : hash_id e.id - k ≡ suc (hash_id e.id - suc k) = omega (arith, far) in
      rw index (flat-get (suc k) bs e v.1 j)
]

pub In-get : (t : Table) (e : Entry) → IsTable t → In e (flat t) → In e (get_bucket t e.id)
In-get t e v i =
    let same : hash_id e.id - 0 ≡ hash_id e.id = omega arith in
    subst (λ n. In e (get_or t n [])) same (flat-get 0 t e v.buckets i)

-- The entries of the list are those that a search finds.
pub find-In :
    (t : Table) (q : ℕ) (e : Entry) → find_routing_data t q ≡ some e → In e (flat t) × (e.id ≡ q)
unfolding find_routing_data
find-In t q e h =
    let (i, s) = find_in_bucket-In q (get_bucket t q) e h in (In-flat t (hash_id q) e i, s)

pub In-find :
    (t : Table) (e : Entry) → IsTable t → In e (flat t) → find_routing_data t e.id ≡ some e
unfolding find_routing_data
In-find t e v i =
    In-find_in_bucket (hash_id e.id) 0 (get_bucket t e.id) e (get_bucket-IsBucket t e.id v)
      (In-get t e v i)

after-hit :
    (q : ℕ) (b rest : List Entry) (e : Entry)
    → In e b
    → e.id ≡ q
    → after_entry q (b ++ rest) ≡ after_entry q b ++ rest
unfolding after_entry
after-hit q [] rest e i s = absurd i
after-hit q (c ∷ b) rest e (inl h) s = ground (arith, h, s)
after-hit q (c ∷ b) rest e (inr i) s = ground (arith, after-hit q b rest e i s)

after-miss :
    (h low q : ℕ) (b rest : List Entry)
    → IsBucket h low b
    → hash_id q ≢ h
    → after_entry q (b ++ rest) ≡ after_entry q rest
unfolding after_entry
after-miss h low q [] rest v ne = refl
after-miss h low q (c ∷ b) rest v ne = elim (Bool-cases (c.id == q)) [
  | inl hit ↦ let same : c.id ≡ q = ground (arith, hit) in absurd (ne (sym (ap hash_id same) ∙ v.1))
  | inr miss ↦ rw miss (after-miss h (suc c.id) q b rest v.2 ne)
]

pub after-flat :
    (k i q : ℕ) (bs : Table) (e : Entry)
    → IsBuckets k bs
    → hash_id q ≡ k + i
    → In e (get_or bs i [])
    → e.id ≡ q
    → after_entry q (flat bs) ≡ after_entry q (get_or bs i []) ++ flat (drop (suc i) bs)
unfolding flat
after-flat k i q [] e v h j s = absurd j
after-flat k zero q (b ∷ bs) e v h j s = after-hit q b (flat bs) e j s
after-flat k (suc i) q (b ∷ bs) e v h j s =
    let other : hash_id q ≢ k = λ a. absurd (omega (arith, h, a)) in
    after-miss k 0 q b (flat bs) v.0 other ∙ after-flat (suc k) i q bs e v.1 (omega (arith, h)) j s
