-- ===== src/Routing/Sorted.antt =====
-- The order of the entries in a table, which determines the list of the direct children.
use os_domotics.Prelude.{
  Bool-cases, List, [], ap, arith, inl, inr, refl, subst, suc, sym, ℕ, ◌++◌, ◌<◌, ◌==◌, ◌∙◌, ◌∷◌,
  ◌≡◌, ◌⊎◌,
}
use os_domotics.Routing.{Bucket, Entry, Table, hash_id}
use os_domotics.Routing.Bucket.{IsBucket}
use os_domotics.Routing.Loops.{direct_children, offspring-In}
use os_domotics.Routing.Order.{In, In-append, flat, offspring}
use os_domotics.Routing.Siblings.{bucket-In, flat-In}
use os_domotics.Routing.Table.{IsBuckets, IsTable}

-- Before in the order of buckets, and of ids in a bucket.
abbrev pub Before : Entry → Entry → Type 0
Before d e = (hash_id d.id < hash_id e.id) ⊎ ((hash_id d.id ≡ hash_id e.id) × (d.id < e.id))

abbrev pub IsSorted : List Entry → Type 0
IsSorted [] = Unit
IsSorted (c ∷ cs) = ((e : Entry) → In e cs → Before c e) × IsSorted cs

Before-irrefl : (e : Entry) → ¬ Before e e
Before-irrefl e (inl h) = omega arith
Before-irrefl e (inr h) = omega (arith, h.1)

Before-asym : (d e : Entry) → Before d e → ¬ Before e d
Before-asym d e (inl h) (inl k) = omega (arith, h, k)
Before-asym d e (inl h) (inr k) = omega (arith, h, k.0)
Before-asym d e (inr h) (inl k) = omega (arith, h.0, k)
Before-asym d e (inr h) (inr k) = omega (arith, h.1, k.1)

IsSorted-append :
    (xs ys : List Entry)
    → IsSorted xs
    → IsSorted ys
    → ((d e : Entry) → In d xs → In e ys → Before d e)
    → IsSorted (xs ++ ys)
IsSorted-append [] ys a b h = b
IsSorted-append (x ∷ xs) ys a b h = (
  λ e i. elim (In-append e xs ys i) [ inl j ↦ a.0 e j | inr j ↦ h x e (inl refl) j ],
  IsSorted-append xs ys a.1 b (λ d e i j. h d e (inr i) j),
)

bucket-IsSorted : (h low : ℕ) (b : Bucket) → IsBucket h low b → IsSorted b
bucket-IsSorted h low [] v = tt
bucket-IsSorted h low (c ∷ b) v = (
  λ e i.
      let (above, hash) = bucket-In h (suc c.id) b e v.2 i in
      inr (v.1 ∙ sym hash, omega (arith, above)),
  bucket-IsSorted h (suc c.id) b v.2,
)

flat_from-IsSorted : (k : ℕ) (bs : Table) → IsBuckets k bs → IsSorted (flat bs)
unfolding flat
flat_from-IsSorted k [] v = tt
flat_from-IsSorted k (b ∷ bs) v =
    IsSorted-append b (flat bs) (bucket-IsSorted k 0 b v.0) (flat_from-IsSorted (suc k) bs v.1)
      (λ d e i j.
        let left = (bucket-In k 0 b d v.0 i).1 in
        let right = flat-In (suc k) bs e v.1 j in inl (omega (arith, left, right)))

pub flat-IsSorted : (t : Table) → IsTable t → IsSorted (flat t)
flat-IsSorted t v = flat_from-IsSorted 0 t v.buckets

offspring-IsSorted : (p : ℕ) (xs : List Entry) → IsSorted xs → IsSorted (offspring p xs)
offspring-IsSorted p [] s = tt
offspring-IsSorted p (x ∷ xs) s = elim (Bool-cases (x.parent_id == p)) [
  | inr miss ↦ rw miss (offspring-IsSorted p xs s.1)
  | inl hit ↦ rw hit (λ e i. s.0 e (offspring-In p xs e i).0, offspring-IsSorted p xs s.1)
]

pub direct_children-IsSorted : (t : Table) (p : ℕ) → IsTable t → IsSorted (direct_children t p)
direct_children-IsSorted t p v = offspring-IsSorted p (flat t) (flat-IsSorted t v)

-- Sorted lists with the same members are equal.
pub IsSorted-ext :
    (xs ys : List Entry)
    → IsSorted xs
    → IsSorted ys
    → ((e : Entry) → In e xs → In e ys)
    → ((e : Entry) → In e ys → In e xs)
    → xs ≡ ys
IsSorted-ext [] [] a b f g = refl
IsSorted-ext [] (y ∷ ys) a b f g = absurd (g y (inl refl))
IsSorted-ext (x ∷ xs) [] a b f g = absurd (f x (inl refl))
IsSorted-ext (x ∷ xs) (y ∷ ys) a b f g =
    let heads : x ≡ y = heads_equal (f x (inl refl)) (g y (inl refl)) in
    let tails : xs ≡ ys =
      IsSorted-ext xs ys a.1 b.1
        (λ e i.
          drop_head e (f e (inr i))
            (λ s. Before-irrefl x (subst (Before x) (s ∙ sym heads) (a.0 e i))))
        (λ e i.
          drop_head' e (g e (inr i))
            (λ s. Before-irrefl y (subst (Before y) (s ∙ heads) (b.0 e i)))) in
    ap (λ h. h ∷ xs) heads ∙ ap (λ t. y ∷ t) tails
  where
    heads_equal : (x ≡ y) ⊎ In x ys → (y ≡ x) ⊎ In y xs → x ≡ y
    heads_equal (inl h) k = h
    heads_equal (inr i) (inl h) = sym h
    heads_equal (inr i) (inr j) = absurd (Before-asym y x (b.0 x i) (a.0 y j))

    drop_head : (e : Entry) → (e ≡ y) ⊎ In e ys → ¬ (e ≡ y) → In e ys
    drop_head e (inl h) n = absurd (n h)
    drop_head e (inr i) n = i

    drop_head' : (e : Entry) → (e ≡ x) ⊎ In e xs → ¬ (e ≡ x) → In e xs
    drop_head' e (inl h) n = absurd (n h)
    drop_head' e (inr i) n = i
