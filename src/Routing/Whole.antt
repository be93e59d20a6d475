-- ===== src/Routing/Whole.antt =====
-- The loop over all entries of a table by `find_unreachable_routing_data`, and what is left of it when the entry
-- that it stands at is removed.
use os_domotics.Prelude.{
  List, Option, Option-cases, [], ap, arith, drop, inl, inr, length, none, refl, some, subst, suc,
  sym, ℕ, ◌++◌, ◌∙◌, ◌∷◌, ◌≡◌, ◌≢◌,
}
use os_domotics.Routing.{
  Bucket, Entry, Table, after_entry, find_routing_data, find_unreachable_routing_data, first_entry,
  get_bucket, hash_id,
}
use os_domotics.Routing.Bucket.{with_type}
use os_domotics.Routing.Order.{In, In-append_right, IsDistinct, flat}
use os_domotics.Routing.Siblings.{In-find, In-get, after-flat, find-In, flat-IsDistinct}
use os_domotics.Routing.Sorted.{Before, IsSorted, IsSorted-ext, flat-IsSorted}
use os_domotics.Routing.Table.{IsTable}

abbrev pub first : List Entry → Option Entry
first [] = none
first (e ∷ es) = some e

abbrev pub map_entries : (Entry → Entry) → List Entry → List Entry
map_entries f [] = []
map_entries f (e ∷ es) = f e ∷ map_entries f es

first_entry-flat : (bs : Table) → first_entry bs ≡ first (flat bs)
unfolding flat
first_entry-flat [] = refl
first_entry-flat ([] ∷ bs) = first_entry-flat bs
first_entry-flat ((e ∷ b) ∷ bs) = refl

first-append : (xs : List Entry) (bs : Table) → xs ≡ [] → first_entry bs ≡ first (xs ++ flat bs)
first-append xs bs h = rw h (first_entry-flat bs)

pub find_unreachable-first : (t : Table) → find_unreachable_routing_data t none ≡ first (flat t)
unfolding find_unreachable_routing_data
find_unreachable-first t = first_entry-flat t

pub after_entry-middle :
    (xs ys : List Entry) (e : Entry)
    → IsDistinct (xs ++ e ∷ ys)
    → after_entry e.id (xs ++ e ∷ ys) ≡ ys
unfolding after_entry
after_entry-middle [] ys e d = ground arith
after_entry-middle (x ∷ xs) ys e d =
    let other = d.0 e (In-append_right e xs (e ∷ ys) (inl refl)) in
    ground (arith, other, after_entry-middle xs ys e d.1)

-- The next entry of the loop.
pub find_unreachable-next :
    (t : Table) (xs ys : List Entry) (e : Entry)
    → IsTable t
    → flat t ≡ xs ++ e ∷ ys
    → find_unreachable_routing_data t (some e) ≡ first ys
unfolding find_unreachable_routing_data
find_unreachable-next t xs ys e v list =
    let inside = subst (In e) (sym list) (In-append_right e xs (e ∷ ys) (inl refl)) in
    let cut =
      after-flat 0 (hash_id e.id) e.id t e v.buckets (omega arith) (In-get t e v inside) refl in
    let rest = after_entry-middle xs ys e (subst IsDistinct list (flat-IsDistinct t v)) in
    let whole : after_entry e.id (get_bucket t e.id) ++ flat (drop (suc (hash_id e.id)) t) ≡ ys =
      sym cut ∙ (ap (after_entry e.id) list ∙ rest) in
    go (after_entry e.id (get_bucket t e.id)) whole
  where
    go :
        (after : Bucket)
        → after ++ flat (drop (suc (hash_id e.id)) t) ≡ ys
        → (elim after as (λ _. Option Entry) [
          | [] ↦ first_entry (drop (suc (hash_id e.id)) t)
          | current ∷ next ↦ some current
        ])
          ≡ first ys
    go [] h = first_entry-flat _ ∙ ap first h
    go (c ∷ next) h = ap first h

pub without_middle :
    (xs ys : List Entry) (e d : Entry) → In d (xs ++ e ∷ ys) → d.id ≢ e.id → In d (xs ++ ys)
without_middle [] ys e d (inl s) ne = absurd (ne (ap (λ x. x.id) s))
without_middle [] ys e d (inr i) ne = i
without_middle (x ∷ xs) ys e d (inl s) ne = inl s
without_middle (x ∷ xs) ys e d (inr i) ne = inr (without_middle xs ys e d i ne)

pub with_middle : (xs ys : List Entry) (e d : Entry) → In d (xs ++ ys) → In d (xs ++ e ∷ ys)
with_middle [] ys e d i = inr i
with_middle (x ∷ xs) ys e d (inl s) = inl s
with_middle (x ∷ xs) ys e d (inr i) = inr (with_middle xs ys e d i)

pub middle_apart :
    (xs ys : List Entry) (e d : Entry) → IsDistinct (xs ++ e ∷ ys) → In d (xs ++ ys) → d.id ≢ e.id
middle_apart [] ys e d h i = h.0 d i
middle_apart (x ∷ xs) ys e d h (inl s) =
    let other = h.0 e (In-append_right e xs (e ∷ ys) (inl refl)) in
    λ k. other (sym k ∙ ap (λ z. z.id) s)
middle_apart (x ∷ xs) ys e d h (inr i) = middle_apart xs ys e d h.1 i

IsSorted-without : (xs ys : List Entry) (e : Entry) → IsSorted (xs ++ e ∷ ys) → IsSorted (xs ++ ys)
IsSorted-without [] ys e s = s.1
IsSorted-without (x ∷ xs) ys e s =
    (λ d i. s.0 d (with_middle xs ys e d i), IsSorted-without xs ys e s.1)

pub In-map_entries :
    (f : Entry → Entry) (xs : List Entry) (e : Entry)
    → In e (map_entries f xs)
    → (x : Entry) × In x xs × (e ≡ f x)
In-map_entries f [] e i = absurd i
In-map_entries f (x ∷ xs) e (inl s) = (x, inl refl, s)
In-map_entries f (x ∷ xs) e (inr i) = let (y, j, s) = In-map_entries f xs e i in (y, inr j, s)

pub map_entries-In :
    (f : Entry → Entry) (xs : List Entry) (x : Entry) → In x xs → In (f x) (map_entries f xs)
map_entries-In f [] x i = absurd i
map_entries-In f (y ∷ xs) x (inl s) = inl (ap f s)
map_entries-In f (y ∷ xs) x (inr i) = inr (map_entries-In f xs x i)

pub map_entries-append :
    (f : Entry → Entry) (xs ys : List Entry)
    → map_entries f (xs ++ ys) ≡ map_entries f xs ++ map_entries f ys
map_entries-append f [] ys = refl
map_entries-append f (x ∷ xs) ys = ap (λ l. f x ∷ l) (map_entries-append f xs ys)

pub length-map_entries :
    (f : Entry → Entry) (xs : List Entry) → length (map_entries f xs) ≡ length xs
length-map_entries f [] = refl
length-map_entries f (x ∷ xs) = ap suc (length-map_entries f xs)

IsSorted-map_entries :
    (f : Entry → Entry) (xs : List Entry)
    → ((x : Entry) → (f x).id ≡ x.id)
    → IsSorted xs
    → IsSorted (map_entries f xs)
IsSorted-map_entries f [] same s = tt
IsSorted-map_entries f (x ∷ xs) same s = (
  λ e i.
      let (y, j, h) = In-map_entries f xs e i in
      subst (Before (f x)) (sym h) (moved (f x) x (f y) y (same x) (same y) (s.0 y j)),
  IsSorted-map_entries f xs same s.1,
)
  where
    moved : (a x b y : Entry) → a.id ≡ x.id → b.id ≡ y.id → Before x y → Before a b
    moved a x b y h k (inl l) = inl (omega (arith, l, ap hash_id h, ap hash_id k))
    moved a x b y h k (inr (m, l)) =
        inr (ap hash_id h ∙ (m ∙ sym (ap hash_id k)), omega (arith, l, h, k))

-- An entry is removed, and the types of others change: the list is the old one without it, retyped.
pub flat-removed :
    (t u : Table) (xs ys : List Entry) (e : Entry) (types : ℕ → ℕ)
    → IsTable t
    → IsTable u
    → flat t ≡ xs ++ e ∷ ys
    → find_routing_data u e.id ≡ none
    → ((q : ℕ) → q ≢ e.id → find_routing_data u q ≡ with_type (types q) (find_routing_data t q))
    → flat u ≡ map_entries (λ x. record x { type = types x.id }) (xs ++ ys)
flat-removed t u xs ys e types v w list gone kept =
    let f : Entry → Entry = λ x. record x { type = types x.id } in
    let sorted = subst IsSorted list (flat-IsSorted t v) in
    let distinct = subst IsDistinct list (flat-IsDistinct t v) in
    IsSorted-ext (flat u) (map_entries f (xs ++ ys)) (flat-IsSorted u w)
      (IsSorted-map_entries f (xs ++ ys) (λ x. refl) (IsSorted-without xs ys e sorted))
      (λ y i.
        let stored = In-find u y w i in
        let other : y.id ≢ e.id =
          λ s. cc (subst (λ n. find_routing_data u n ≡ some y) s stored, gone) in
        elim (Option-cases (find_routing_data t y.id)) [
          | inl out ↦ ground (arith, stored, kept y.id other, out)
          | inr (x, found) ↦
              let (j, s) = find-In t y.id x found in
              let made : record x { type = types y.id } ≡ y =
                ground (arith, stored, kept y.id other, found) in
              let there = without_middle xs ys e x (subst (In x) list j) (λ k. other (sym s ∙ k)) in
              subst (λ z. In z (map_entries f (xs ++ ys)))
                (ap {A = ℕ} (λ n. record x { type = types n }) s ∙ made)
                (map_entries-In f (xs ++ ys) x there)
        ])
      (λ y i.
        let (x, j, s) = In-map_entries f (xs ++ ys) y i in
        let inside = subst (In x) (sym list) (with_middle xs ys e x j) in
        let stored = In-find t x v inside in
        let found : find_routing_data u x.id ≡ some (f x) =
          kept x.id (middle_apart xs ys e x distinct j) ∙ ap (with_type (types x.id)) stored in
        subst (λ z. In z (flat u)) (sym s) (find-In u x.id (f x) found).0)
