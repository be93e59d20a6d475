-- ===== src/Routing/Walk.antt =====
-- The walk of `find_all_routing_data` below a device, in a table where no entry is above itself: it goes
-- through the tree in preorder.
use os_domotics.Prelude.{
  List, Option, Option-cases, [], ap, append-nil, append_assoc, arith, inl, inr, none, refl, some,
  subst, suc, sym, zero, ℕ, ◌++◌, ◌+◌, ◌<◌, ◌∷◌, ◌≡◌, ◌≢◌, ◌≤◌,
}
use os_domotics.Routing.{
  Entry, Table, find_above, find_all_routing_data, find_direct_routing_data, find_routing_data,
}
use os_domotics.Routing.Loops.{
  Visits, direct_children, direct_children-Visits, find_direct_routing_data-Visits,
}
use os_domotics.Routing.Order.{In}
use os_domotics.Routing.Remove.{IsRanked}
use os_domotics.Routing.Table.{IsTable, find-id}

abbrev pub flat_map : (Entry → List Entry) → List Entry → List Entry
flat_map f [] = []
flat_map f (e ∷ es) = f e ++ flat_map f es

-- An entry and what is below it, in preorder; `n` levels are enough for an entry of rank `n`.
unfoldable pub preorder : ℕ → Table → Entry → List Entry
preorder zero t e = e ∷ []
preorder (suc n) t e = e ∷ flat_map (preorder n t) (direct_children t e.id)

abbrev pub descendants : ℕ → Table → ℕ → List Entry
descendants n t top = flat_map (preorder n t) (direct_children t top)

-- A loop that walks below `top` and is at `current` goes through these entries and ends. Each search has the
-- same result with every fuel above `bound`.
abbrev pub Walks : ℕ → Table → ℕ → List Entry → Option Entry → Type 0
Walks bound t top [] current = current ≡ none
Walks bound t top (e ∷ es) current =
    (current ≡ some e)
    × (next : Option Entry) × ((fuel : ℕ)
        → bound < fuel
        → find_all_routing_data fuel t top (some e) ≡ some next)
    × Walks bound t top es next

-- What `find_all_routing_data` gives after an entry that has no children.
abbrev next_after : ℕ → Table → ℕ → Entry → Option (Option Entry)
next_after fuel t top e = elim (find_direct_routing_data t e.parent_id (some e)) [
  | some sibling ↦ some (some sibling)
  | none ↦ find_above fuel t top e.parent_id
]

module _ (rank : ℕ → ℕ) (bound : ℕ) (t : Table) (top : ℕ) (v : IsTable t) (ranked : IsRanked rank t)
    (low : (q : ℕ) → rank q ≤ bound) where
  abbrev Climbs : ℕ → Option Entry → Type 0
  Climbs parent_id next =
      (fuel : ℕ) → bound < fuel + rank parent_id → find_above fuel t top parent_id ≡ some next

  abbrev IsNext : Entry → Option Entry → Type 0
  IsNext e next = (fuel : ℕ) → bound < fuel + rank e.parent_id → next_after fuel t top e ≡ some next

  Climbs-top : Climbs top none
  unfolding find_above
  Climbs-top zero h = absurd (omega (arith, low top))
  Climbs-top (suc fuel) h = elim (Option-cases (find_routing_data t top)) [
    | inl out ↦ ground (arith, out)
    | inr (parent, found) ↦ ground (arith, found, find-id t top parent found)
  ]

  IsNext-Climbs :
      (e : Entry) (next : Option Entry)
      → find_routing_data t e.id ≡ some e
      → rank e.id < rank top
      → IsNext e next
      → Climbs e.id next
  unfolding find_above
  IsNext-Climbs e next f h n zero above = absurd (omega (arith, low e.id))
  IsNext-Climbs e next f h n (suc fuel) above =
      let other : e.id ≢ top = λ s. absurd (omega (arith, h, ap rank s)) in
      let result = n fuel (omega (arith, above, ranked e.id e f)) in
      ground (arith, f, other, result)

  IsNext-sibling :
      (e s : Entry) → find_direct_routing_data t e.parent_id (some e) ≡ some s → IsNext e (some s)
  IsNext-sibling e s h fuel above = rw (next_after, h) refl

  IsNext-last :
      (e : Entry) (next : Option Entry)
      → find_direct_routing_data t e.parent_id (some e) ≡ none
      → Climbs e.parent_id next
      → IsNext e next
  IsNext-last e next h c fuel above = rw (next_after, h) (c fuel above)

  find_all-leaf :
      (e : Entry) (next : Option Entry)
      → find_direct_routing_data t e.id none ≡ none
      → IsNext e next
      → (fuel : ℕ) → bound < fuel
      → find_all_routing_data fuel t top (some e) ≡ some next
  unfolding find_all_routing_data
  find_all-leaf e next h n fuel above =
      rw (find_all_routing_data, h) (n fuel (omega (arith, above)))

  find_all-child :
      (e c : Entry)
      → find_direct_routing_data t e.id none ≡ some c
      → (fuel : ℕ) → bound < fuel
      → find_all_routing_data fuel t top (some e) ≡ some (some c)
  unfolding find_all_routing_data
  find_all-child e c h fuel above = rw (find_all_routing_data, h) refl

  -- The loops over some children, and then over what follows, and over one subtree and what follows.
  abbrev Subtrees : ℕ → Type 0
  Subtrees n =
      (e : Entry) (next : Option Entry) (es : List Entry)
      → find_routing_data t e.id ≡ some e
      → rank e.id ≤ n
      → rank e.id < rank top
      → IsNext e next
      → Walks bound t top es next
      → Walks bound t top (preorder n t e ++ es) (some e)

  forest :
      (n p : ℕ) (c : Entry) (cs : List Entry) (next : Option Entry) (es : List Entry)
      → Subtrees n
      → ((d : Entry) → In d (c ∷ cs) → (find_routing_data t d.id ≡ some d) × (d.parent_id ≡ p))
      → rank p ≤ suc n
      → rank p ≤ rank top
      → Visits t p (c ∷ cs) (some c)
      → Climbs p next
      → Walks bound t top es next
      → Walks bound t top (flat_map (preorder n t) (c ∷ cs) ++ es) (some c)
  forest n p c [] next es subtree stored deep inside visited climbs walked =
      let (f, h) = stored c (inl refl) in
      let lower = ranked c.id c f in
      let same = ap rank h in
      rw append-nil (
        subtree c next es f (omega (arith, lower, same)) (omega (arith, lower, same))
          (IsNext-last c next
            (subst (λ q. find_direct_routing_data t q (some c) ≡ none) (sym h) visited.1)
            (subst (λ q. Climbs q next) (sym h) climbs))
          walked)
  forest n p c (d ∷ cs) next es subtree stored deep inside visited climbs walked =
      let (f, h) = stored c (inl refl) in
      let lower = ranked c.id c f in
      let same = ap rank h in
      let rest =
        forest n p d cs next es subtree (λ e i. stored e (inr i)) deep inside (refl, visited.1.1)
          climbs walked in
      rw append_assoc (
        subtree c (some d) (flat_map (preorder n t) (d ∷ cs) ++ es) f (omega (arith, lower, same))
          (omega (arith, lower, same))
          (IsNext-sibling c d
            (subst (λ q. find_direct_routing_data t q (some c) ≡ some d) (sym h) visited.1.0))
          rest)

  -- What a visit of some children of an entry gives, one level down.
  below :
      (n : ℕ) (e : Entry) (cs : List Entry) (next : Option Entry) (es : List Entry)
      → Subtrees n
      → ((d : Entry) → In d cs → (find_routing_data t d.id ≡ some d) × (d.parent_id ≡ e.id))
      → Visits t e.id cs (find_direct_routing_data t e.id none)
      → find_routing_data t e.id ≡ some e
      → rank e.id ≤ suc n
      → rank e.id < rank top
      → IsNext e next
      → Walks bound t top es next
      → Walks bound t top (e ∷ (flat_map (preorder n t) cs ++ es)) (some e)
  below n e [] next es subtree stored visited f deep inside after walked =
      (refl, next, find_all-leaf e next visited after, walked)
  below n e (c ∷ cs) next es subtree stored visited f deep inside after walked = (
    refl,
    some c,
    find_all-child e c visited.0,
    forest n e.id c cs next es subtree stored deep (omega (arith, inside)) (refl, visited.1)
        (IsNext-Climbs e next f inside after) walked,
  )

  children_stored :
      (p : ℕ) (d : Entry)
      → In d (direct_children t p)
      → (find_routing_data t d.id ≡ some d) × (d.parent_id ≡ p)
  children_stored p d i = ((find_direct_routing_data-Visits t p v).1 d).0 i

  childless :
      (e : Entry) (cs : List Entry)
      → ((d : Entry) → In d cs → (find_routing_data t d.id ≡ some d) × (d.parent_id ≡ e.id))
      → rank e.id ≤ 0
      → cs ≡ []
  childless e [] stored h = refl
  childless e (c ∷ cs) stored h =
      let (f, s) = stored c (inl refl) in absurd (omega (arith, h, ranked c.id c f, ap rank s))

  subtrees : (n : ℕ) → Subtrees n
  unfolding preorder
  subtrees zero e next es f deep inside after walked =
      let visited = direct_children-Visits t e.id v in
      let out = childless e (direct_children t e.id) (children_stored e.id) deep in
      (
        refl,
        next,
        find_all-leaf e next
            (subst (λ cs. Visits t e.id cs (find_direct_routing_data t e.id none)) out visited)
            after,
        walked,
      )
  subtrees (suc n) e next es f deep inside after walked =
      below n e (direct_children t e.id) next es (subtrees n) (children_stored e.id)
        (direct_children-Visits t e.id v) f deep inside after walked

  from_top :
      (n : ℕ) (cs : List Entry)
      → rank top ≤ suc n
      → ((d : Entry) → In d cs → (find_routing_data t d.id ≡ some d) × (d.parent_id ≡ top))
      → Visits t top cs (find_direct_routing_data t top none)
      → Walks bound t top (flat_map (preorder n t) cs) (find_direct_routing_data t top none)
  from_top n [] deep stored visited = visited
  from_top n (c ∷ cs) deep stored visited =
      subst (Walks bound t top (flat_map (preorder n t) (c ∷ cs))) (sym visited.0) (
        rw append-nil at (
          forest n top c cs none [] (subtrees n) stored deep (omega arith) (refl, visited.1)
            Climbs-top refl))

  pub descendants-Walks :
      (n : ℕ)
      → rank top ≤ suc n
      → Walks bound t top (descendants n t top) (find_direct_routing_data t top none)
  descendants-Walks n deep =
      from_top n (direct_children t top) deep (children_stored top) (direct_children-Visits t top v)
