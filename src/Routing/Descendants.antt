-- ===== src/Routing/Descendants.antt =====
-- What the walk below a device goes through: everything below it, each entry once.
use os_domotics.Prelude.{
  List, [], ap, arith, inl, inr, none, refl, some, subst, suc, sym, zero, ℕ, ◌↔◌, ◌∙◌, ◌∷◌, ◌≡◌,
  ◌≤◌, ◌⊎◌,
}
use os_domotics.Routing.{Entry, Table, find_direct_routing_data, find_routing_data}
use os_domotics.Routing.Loops.{direct_children, find_direct_routing_data-Visits}
use os_domotics.Routing.Order.{
  In, In-append, In-append_left, In-append_right, IsDistinct, IsDistinct-append,
}
use os_domotics.Routing.Remove.{Below, Below-child, IsRanked, rank-Below, self, under}
use os_domotics.Routing.Table.{IsTable, find-id}
use os_domotics.Routing.Walk.{Walks, descendants, descendants-Walks, flat_map, preorder}

In-flat_map :
    (f : Entry → List Entry) (xs : List Entry) (e : Entry)
    → In e (flat_map f xs)
    → (x : Entry) × In x xs × In e (f x)
In-flat_map f [] e i = absurd i
In-flat_map f (x ∷ xs) e i = elim (In-append e (f x) (flat_map f xs) i) [
  | inl j ↦ (x, inl refl, j)
  | inr j ↦ let (y, k, l) = In-flat_map f xs e j in (y, inr k, l)
]

flat_map-In :
    (f : Entry → List Entry) (xs : List Entry) (x e : Entry)
    → In x xs
    → In e (f x)
    → In e (flat_map f xs)
flat_map-In f [] x e i j = absurd i
flat_map-In f (y ∷ xs) x e (inl s) j =
    In-append_left e (f y) (flat_map f xs) (subst (λ z. In e (f z)) s j)
flat_map-In f (y ∷ xs) x e (inr i) j =
    In-append_right e (f y) (flat_map f xs) (flat_map-In f xs x e i j)

preorder_head : (n : ℕ) (t : Table) (e : Entry) → In e (preorder n t e)
unfolding preorder
preorder_head zero t e = inl refl
preorder_head (suc n) t e = inl refl

module _ (rank : ℕ → ℕ) (t : Table) (v : IsTable t) (ranked : IsRanked rank t) where
  stored_child :
      (p : ℕ) (d : Entry)
      → In d (direct_children t p)
      → (find_routing_data t d.id ≡ some d) × (d.parent_id ≡ p)
  stored_child p d i = ((find_direct_routing_data-Visits t p v).1 d).0 i

  child_stored :
      (p : ℕ) (d : Entry)
      → find_routing_data t d.id ≡ some d
      → d.parent_id ≡ p
      → In d (direct_children t p)
  child_stored p d f h = ((find_direct_routing_data-Visits t p v).1 d).1 (f, h)

  preorder-Below :
      (n : ℕ) (c e : Entry)
      → find_routing_data t c.id ≡ some c
      → In e (preorder n t c)
      → (find_routing_data t e.id ≡ some e) × Below t c.id e.id
  unfolding preorder
  preorder-Below zero c e f (inl s) = (rw s f, subst (λ x. Below t c.id x.id) (sym s) Below.self)
  preorder-Below zero c e f (inr i) = absurd i
  preorder-Below (suc n) c e f (inl s) = (rw s f, subst (λ x. Below t c.id x.id) (sym s) Below.self)
  preorder-Below (suc n) c e f (inr i) =
      let (d, j, k) = In-flat_map (preorder n t) (direct_children t c.id) e i in
      let (g, h) = stored_child c.id d j in
      let (stored, b) = preorder-Below n d e g k in
      (stored, subst (λ q. Below t q e.id) h (Below-child t d e.id g b))

  preorder-child :
      (n : ℕ) (c f e : Entry)
      → find_routing_data t c.id ≡ some c
      → rank c.id ≤ n
      → In f (preorder n t c)
      → find_routing_data t e.id ≡ some e
      → e.parent_id ≡ f.id
      → In e (preorder n t c)
  unfolding preorder
  preorder-child zero c f e g deep (inl s) h p =
      absurd (omega (arith, deep, ranked e.id e h, ap rank p, ap (λ x. rank x.id) s))
  preorder-child zero c f e g deep (inr i) h p = absurd i
  preorder-child (suc n) c f e g deep (inl s) h p = inr (
      flat_map-In (preorder n t) (direct_children t c.id) e e
        (child_stored c.id e h (p ∙ ap (λ x. x.id) s)) (preorder_head n t e))
  preorder-child (suc n) c f e g deep (inr i) h p =
      let (d, j, k) = In-flat_map (preorder n t) (direct_children t c.id) f i in
      let (g', p') = stored_child c.id d j in
      let lower = ranked d.id d g' in
      inr (
        flat_map-In (preorder n t) (direct_children t c.id) d e j
          (preorder-child n d f e g' (omega (arith, deep, lower, ap rank p')) k h p))

  Below-comparable : (a b q : ℕ) → Below t a q → Below t b q → Below t a b ⊎ Below t b a
  Below-comparable a b q self y = inr y
  Below-comparable a b q (under _ e f x) self = inl (Below.under q e f x)
  Below-comparable a b q (under _ e f x) (under _ e' f' y) =
      let same : e' ≡ e = ground (arith, f, f') in
      Below-comparable a b e.parent_id x (subst (λ z. Below t b z.parent_id) same y)

  sibling-Below :
      (c d : Entry) (q : ℕ)
      → find_routing_data t c.id ≡ some c
      → find_routing_data t d.id ≡ some d
      → c.parent_id ≡ d.parent_id
      → q ≡ d.id
      → Below t c.id q
      → c ≡ d
  sibling-Below c d q f g p s self =
      let found : find_routing_data t c.id ≡ some d =
        subst (λ n. find_routing_data t n ≡ some d) (sym s) g in
      ground (arith, f, found)
  sibling-Below c d q f g p s (under _ e h b) =
      let found : find_routing_data t d.id ≡ some e =
        subst (λ n. find_routing_data t n ≡ some e) s h in
      let same : e ≡ d = ground (arith, g, found) in
      absurd (
        omega (
          arith,
          ranked c.id c f,
          rank-Below rank t c.id e.parent_id ranked b,
          ap rank p,
          ap (λ x. rank x.parent_id) same,
        ))

  pub siblings_apart :
      (c d : Entry) (q : ℕ)
      → find_routing_data t c.id ≡ some c
      → find_routing_data t d.id ≡ some d
      → c.parent_id ≡ d.parent_id
      → Below t c.id q
      → Below t d.id q
      → c ≡ d
  siblings_apart c d q f g p x y = elim (Below-comparable c.id d.id q x y) [
    | inl b ↦ sibling-Below c d d.id f g p refl b
    | inr b ↦ sym (sibling-Below d c c.id g f (sym p) refl b)
  ]

  preorders-IsDistinct :
      (n p : ℕ) (cs : List Entry)
      → ((c : Entry) → find_routing_data t c.id ≡ some c → IsDistinct (preorder n t c))
      → IsDistinct cs
      → ((d : Entry) → In d cs → (find_routing_data t d.id ≡ some d) × (d.parent_id ≡ p))
      → IsDistinct (flat_map (preorder n t) cs)
  preorders-IsDistinct n p [] each d stored = tt
  preorders-IsDistinct n p (c ∷ cs) each d stored =
      let (f, h) = stored c (inl refl) in
      IsDistinct-append (preorder n t c) (flat_map (preorder n t) cs) (each c f)
        (preorders-IsDistinct n p cs each d.1 (λ x i. stored x (inr i)))
        (λ a b i j s.
          let (x, k, l) = In-flat_map (preorder n t) cs b j in
          let (g, h') = stored x (inr k) in
          let left = (preorder-Below n c a f i).1 in
          let right = subst (Below t x.id) s (preorder-Below n x b g l).1 in
          d.0 x k (sym (ap (λ y. y.id) (siblings_apart c x a.id f g (h ∙ sym h') left right))))

  preorder-IsDistinct :
      (n : ℕ) (c : Entry) → find_routing_data t c.id ≡ some c → IsDistinct (preorder n t c)
  unfolding preorder
  preorder-IsDistinct zero c f = (λ e i. absurd i, tt)
  preorder-IsDistinct (suc n) c f = (
    λ e i s.
        let (d, j, k) = In-flat_map (preorder n t) (direct_children t c.id) e i in
        let (g, h) = stored_child c.id d j in
        absurd (
          omega (
            arith,
            rank-Below rank t d.id e.id ranked (preorder-Below n d e g k).1,
            ranked d.id d g,
            ap rank h,
            ap rank s,
          )),
    preorders-IsDistinct n c.id (direct_children t c.id) (preorder-IsDistinct n)
        (find_direct_routing_data-Visits t c.id v).2 (stored_child c.id),
  )

  descendants-In :
      (n top : ℕ) (e : Entry)
      → In e (descendants n t top)
      → (find_routing_data t e.id ≡ some e) × Below t top e.parent_id
  descendants-In n top e i =
      let (c, j, k) = In-flat_map (preorder n t) (direct_children t top) e i in
      let (f, h) = stored_child top c j in
      let (g, b) = preorder-Below n c e f k in (g, go c e f h g e.id refl b)
    where
      go :
          (c e : Entry)
          → find_routing_data t c.id ≡ some c
          → c.parent_id ≡ top
          → find_routing_data t e.id ≡ some e
          → (q : ℕ) → q ≡ e.id
          → Below t c.id q
          → Below t top e.parent_id
      go c e f h g q s self =
          let found : find_routing_data t c.id ≡ some e =
            subst (λ n. find_routing_data t n ≡ some e) (sym s) g in
          let same : c ≡ e = ground (arith, f, found) in
          subst (Below t top) (sym h ∙ ap (λ x. x.parent_id) same) Below.self
      go c e f h g q s (under _ e' g' b) =
          let found : find_routing_data t e.id ≡ some e' =
            subst (λ n. find_routing_data t n ≡ some e') s g' in
          let same : e' ≡ e = ground (arith, g, found) in
          subst (λ x. Below t top x.parent_id) same
            (subst (λ n. Below t n e'.parent_id) h (Below-child t c e'.parent_id f b))

  In-descendants :
      (n top q : ℕ) (e : Entry)
      → rank top ≤ suc n
      → find_routing_data t e.id ≡ some e
      → e.parent_id ≡ q
      → Below t top q
      → In e (descendants n t top)
  In-descendants n top q e deep f s self =
      flat_map-In (preorder n t) (direct_children t top) e e (child_stored top e f s)
        (preorder_head n t e)
  In-descendants n top q e deep f s (under _ d g b) =
      let same = find-id t q d g in
      let stored = subst (λ m. find_routing_data t m ≡ some d) (sym same) g in
      let above = In-descendants n top d.parent_id d deep stored refl b in
      let (c, j, k) = In-flat_map (preorder n t) (direct_children t top) d above in
      let (h, p) = stored_child top c j in
      flat_map-In (preorder n t) (direct_children t top) c e j (
        preorder-child n c d e h (omega (arith, deep, ranked c.id c h, ap rank p)) k f
          (s ∙ sym same))

-- In a well-formed table where no entry is above itself, the walk by `find_all_routing_data` below a device ends,
-- and every search in it has enough fuel with one more than the highest rank. It visits an entry exactly when
-- the entry is in the table and its parent is the device or something below it, and no entry twice.
pub find_all_routing_data-Walks :
    (rank : ℕ → ℕ) (bound n : ℕ) (t : Table) (top : ℕ)
    → IsTable t
    → IsRanked rank t
    → ((q : ℕ) → rank q ≤ bound)
    → rank top ≤ suc n
    → Walks bound t top (descendants n t top) (find_direct_routing_data t top none)
      × ((e : Entry)
          → In e (descendants n t top)
            ↔ ((find_routing_data t e.id ≡ some e) × Below t top e.parent_id))
      × IsDistinct (descendants n t top)
find_all_routing_data-Walks rank bound n t top v ranked low deep = (
  descendants-Walks rank bound t top v ranked low n deep,
  λ e. (
    descendants-In rank t v ranked n top e,
    λ (f, b). In-descendants rank t v ranked n top e.parent_id e deep f refl b,
  ),
  preorders-IsDistinct rank t v ranked n top (direct_children t top)
      (preorder-IsDistinct rank t v ranked n) (find_direct_routing_data-Visits t top v).2
      (stored_child rank t v ranked top),
)
