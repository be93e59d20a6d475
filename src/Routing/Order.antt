-- ===== src/Routing/Order.antt =====
-- The table as one list, bucket after bucket: the loops over direct children and over all entries follow it.
use os_domotics.Prelude.{
  Bool-cases, List, [], ap, arith, if◌then◌else◌, inl, inr, none, refl, some, sym, ℕ, ◌++◌, ◌==◌,
  ◌∙◌, ◌∷◌, ◌≡◌, ◌≢◌, ◌⊎◌,
}
use os_domotics.Routing.{Entry, Table, after_entry, or_next, scan_bucket, scan_buckets}

unfoldable pub flat : Table → List Entry
flat [] = []
flat (b ∷ bs) = b ++ flat bs

abbrev pub In : Entry → List Entry → Type 0
In e [] = ⊥
In e (c ∷ cs) = (e ≡ c) ⊎ In e cs

-- No two entries have the same id.
abbrev pub IsDistinct : List Entry → Type 0
IsDistinct [] = Unit
IsDistinct (c ∷ cs) = ((e : Entry) → In e cs → e.id ≢ c.id) × IsDistinct cs

-- The entries with a parent, in their order.
abbrev pub offspring : ℕ → List Entry → List Entry
offspring p [] = []
offspring p (c ∷ cs) = if c.parent_id == p then c ∷ offspring p cs else offspring p cs

pub In-append_left : (e : Entry) (xs ys : List Entry) → In e xs → In e (xs ++ ys)
In-append_left e [] ys i = absurd i
In-append_left e (x ∷ xs) ys (inl h) = inl h
In-append_left e (x ∷ xs) ys (inr i) = inr (In-append_left e xs ys i)

pub In-append_right : (e : Entry) (xs ys : List Entry) → In e ys → In e (xs ++ ys)
In-append_right e [] ys i = i
In-append_right e (x ∷ xs) ys i = inr (In-append_right e xs ys i)

pub In-append : (e : Entry) (xs ys : List Entry) → In e (xs ++ ys) → In e xs ⊎ In e ys
In-append e [] ys i = inr i
In-append e (x ∷ xs) ys (inl h) = inl (inl h)
In-append e (x ∷ xs) ys (inr i) = elim (In-append e xs ys i) [ inl h ↦ inl (inr h) | inr h ↦ inr h ]

pub IsDistinct-append :
    (xs ys : List Entry)
    → IsDistinct xs
    → IsDistinct ys
    → ((d e : Entry) → In d xs → In e ys → e.id ≢ d.id)
    → IsDistinct (xs ++ ys)
IsDistinct-append [] ys a b h = b
IsDistinct-append (x ∷ xs) ys a b h = (
  λ e i. elim (In-append e xs ys i) [ inl j ↦ a.0 e j | inr j ↦ h x e (inl refl) j ],
  IsDistinct-append xs ys a.1 b (λ d e i j. h d e (inr i) j),
)

-- What follows an entry.
pub after_entry-In : (id : ℕ) (e : Entry) (xs : List Entry) → In e (after_entry id xs) → In e xs
unfolding after_entry
after_entry-In id e [] i = i
after_entry-In id e (x ∷ xs) i = elim (Bool-cases (x.id == id)) [
  | inl hit ↦ inr (rw hit at i)
  | inr miss ↦ inr (after_entry-In id e xs (rw miss at i))
]

pub after_entry-IsDistinct :
    (id : ℕ) (xs : List Entry) → IsDistinct xs → IsDistinct (after_entry id xs)
unfolding after_entry
after_entry-IsDistinct id [] d = tt
after_entry-IsDistinct id (x ∷ xs) d = elim (Bool-cases (x.id == id)) [
  | inl hit ↦ rw hit d.1
  | inr miss ↦ rw miss (after_entry-IsDistinct id xs d.1)
]

-- What follows a later entry is the same from any entry before it.
pub after_entry-after_entry :
    (id : ℕ) (e : Entry) (xs : List Entry)
    → IsDistinct xs
    → In e (after_entry id xs)
    → after_entry e.id xs ≡ after_entry e.id (after_entry id xs)
unfolding after_entry
after_entry-after_entry id e [] d i = refl
after_entry-after_entry id e (x ∷ xs) d i =
    let deeper = after_entry-In id e (x ∷ xs) i in
    elim (Bool-cases (x.id == id)) [
      | inl hit ↦ let other = d.0 e (rw hit at i) in ground (arith, hit, other)
      | inr miss ↦
          let j = rw miss at i in
          let other = d.0 e (after_entry-In id e xs j) in
          ground (arith, miss, other, after_entry-after_entry id e xs d.1 j)
    ]

pub scan_bucket-append :
    (p : ℕ) (xs ys : List Entry)
    → scan_bucket p (xs ++ ys) ≡ or_next (scan_bucket p xs) (scan_bucket p ys)
unfolding scan_bucket
scan_bucket-append p [] ys = refl
scan_bucket-append p (x ∷ xs) ys = ground (arith, scan_bucket-append p xs ys)

pub scan_buckets-flat : (p : ℕ) (bs : Table) → scan_buckets p bs ≡ scan_bucket p (flat bs)
unfolding scan_buckets flat
scan_buckets-flat p [] = unfold scan_bucket in refl
scan_buckets-flat p (b ∷ bs) =
    ap (or_next (scan_bucket p b)) (scan_buckets-flat p bs) ∙ sym (scan_bucket-append p b (flat bs))

-- The first entry with a parent, and what follows it.
pub scan_bucket-offspring :
    (p : ℕ) (xs : List Entry) (c : Entry)
    → IsDistinct xs
    → scan_bucket p xs ≡ some c
    → In c xs × (c.parent_id ≡ p) × (offspring p xs ≡ c ∷ offspring p (after_entry c.id xs))
unfolding scan_bucket after_entry
scan_bucket-offspring p [] c d h = cc
scan_bucket-offspring p (x ∷ xs) c d h = elim (Bool-cases (x.parent_id == p)) [
  | inl hit ↦
      let same : x ≡ c = ground (arith, h, hit) in
      (inl (sym same), ground (arith, hit, same), ground (arith, hit, same))
  | inr miss ↦
      let (i, parent, tail) = scan_bucket-offspring p xs c d.1 (rw miss at h) in
      let other = d.0 c i in (inr i, parent, ground (arith, miss, other, tail))
]

pub scan_bucket-none : (p : ℕ) (xs : List Entry) → scan_bucket p xs ≡ none → offspring p xs ≡ []
unfolding scan_bucket
scan_bucket-none p [] h = refl
scan_bucket-none p (x ∷ xs) h = ground (arith, h, scan_bucket-none p xs)
