-- ===== src/Routing/Emptied.antt =====
-- `update_type_to_empty` ends, and makes the types above a device agree with its children again.
use native.Mathlib.Decide.{ℕ_discrete}
use os_domotics.Devices.{is_control, is_empty}
use os_domotics.Prelude.{
  Bool-cases, List, Option, Option-cases, [], ap, arith, false, inl, inr, none, refl, some, subst,
  suc, sym, true, zero, ℕ, ◌+◌, ◌<◌, ◌∙◌, ◌∷◌, ◌≡◌, ◌≢◌, ◌≤◌,
}
use os_domotics.Routing.{
  Entry, Table, emptied_type, find_routing_data, set_type, update_type_to_empty,
}
use os_domotics.Routing.Loops.{direct_children, find_direct_routing_data-Visits}
use os_domotics.Routing.Order.{In}
use os_domotics.Routing.Remove.{IsRanked}
use os_domotics.Routing.Table.{IsTable, find-id, find-set_type, set_type-IsTable, total}
use os_domotics.Routing.Types.{
  IsRanked-Retyped, Retyped, Retyped-refl, Retyped-set_type, Retyped-trans, all_empty-children,
  are_empty, total-set_type,
}

-- No direct child has a leaf type.
abbrev pub AreEmpty : Table → ℕ → Type 0
AreEmpty t p =
    (c : Entry) → find_routing_data t c.id ≡ some c → c.parent_id ≡ p → is_empty c.type ≡ true

-- What has no leaf type has no child with one.
abbrev pub IsSound : Table → Type 0
IsSound t =
    (e : Entry) → find_routing_data t e.id ≡ some e → is_empty e.type ≡ true → AreEmpty t e.id

-- A control device none of whose children has a leaf type has none itself, but for one device.
abbrev pub IsCompleteBut : Table → Option Entry → Type 0
IsCompleteBut t but =
    (e : Entry)
    → find_routing_data t e.id ≡ some e
    → ((x : Entry) → but ≡ some x → e.id ≢ x.id)
    → is_control e.type ≡ true
    → AreEmpty t e.id
    → is_empty e.type ≡ true

-- The type of every control device tells whether some child has a leaf type.
abbrev pub AreTyped : Table → Type 0
AreTyped t = IsSound t × IsCompleteBut t none

-- The result of an update of the types from a device on.
pub record IsUpdate (t : Table) (device : Option Entry) (u : Table) : Type 0 where
  pub table : IsTable u
  pub retyped : Retyped t u
  pub same_total : total u ≡ total t
  pub typed : IsSound t → IsCompleteBut t device → AreTyped u

are_empty-In :
    (cs : List Entry) (c : Entry) → are_empty cs ≡ true → In c cs → is_empty c.type ≡ true
are_empty-In [] c h i = absurd i
are_empty-In (d ∷ cs) c h (inl s) = ground (arith, h, s)
are_empty-In (d ∷ cs) c h (inr i) = are_empty-In cs c (ground (arith, h)) i

In-are_empty :
    (cs : List Entry) → ((c : Entry) → In c cs → is_empty c.type ≡ true) → are_empty cs ≡ true
In-are_empty [] h = refl
In-are_empty (d ∷ cs) h =
    let first = h d (inl refl) in ground (arith, first, In-are_empty cs (λ c i. h c (inr i)))

are_empty-AreEmpty :
    (t : Table) (p : ℕ) → IsTable t → are_empty (direct_children t p) ≡ true → AreEmpty t p
are_empty-AreEmpty t p v h c f s =
    are_empty-In (direct_children t p) c h (((find_direct_routing_data-Visits t p v).1 c).1 (f, s))

AreEmpty-are_empty :
    (t : Table) (p : ℕ) → IsTable t → AreEmpty t p → are_empty (direct_children t p) ≡ true
AreEmpty-are_empty t p v h =
    In-are_empty (direct_children t p)
      (λ c i. let (f, s) = ((find_direct_routing_data-Visits t p v).1 c).0 i in h c f s)

-- What a change of the type of `device` leaves as it was.
set_type-stored :
    (t : Table) (id type : ℕ) (e : Entry)
    → IsTable t
    → find_routing_data (set_type t id type) e.id ≡ some e
    → e.id ≢ id
    → find_routing_data t e.id ≡ some e
set_type-stored t id type e v f ne = ground (arith, find-set_type t id type v e.id, f, ne)

set_type-type :
    (t : Table) (id type : ℕ) (e : Entry)
    → IsTable t
    → find_routing_data (set_type t id type) e.id ≡ some e
    → e.id ≡ id
    → (e.type ≡ type)
set_type-type t id type e v f s = elim (Option-cases (find_routing_data t e.id)) [
  | inl out ↦ ground (arith, find-set_type t id type v e.id, f, s, out)
  | inr (d, found) ↦ ground (arith, find-set_type t id type v e.id, f, s, found)
]

emptied-is_empty : (type : ℕ) → is_empty (emptied_type type) ≡ true
emptied-is_empty type = ground arith

module _ (t : Table) (device : Entry) (v : IsTable t)
    (stored : find_routing_data t device.id ≡ some device) (apart : device.parent_id ≢ device.id)
    (empty : are_empty (direct_children t device.id) ≡ true) where
  abbrev emptied : Table
  emptied = set_type t device.id (emptied_type device.type)

  emptied-own :
      (e : Entry)
      → find_routing_data emptied e.id ≡ some e
      → e.id ≡ device.id
      → is_empty e.type ≡ true
  emptied-own e f s =
      let type = set_type-type t device.id (emptied_type device.type) e v f s in
      rw type (emptied-is_empty device.type)

  emptied-IsSound : IsSound t → IsSound emptied
  emptied-IsSound sound e f h c g p = elim (ℕ_discrete c.id device.id) [
    | yes s ↦ emptied-own c g s
    | no ne ↦
        let old = set_type-stored t device.id (emptied_type device.type) c v g ne in
        elim (ℕ_discrete e.id device.id) [
          | yes s ↦ are_empty-AreEmpty t device.id v empty c old (p ∙ s)
          | no ne' ↦
              sound e (set_type-stored t device.id (emptied_type device.type) e v f ne') h c old p
        ]
  ]

  emptied-IsComplete :
      IsCompleteBut t (some device)
      → IsCompleteBut emptied (find_routing_data emptied device.parent_id)
  emptied-IsComplete complete e f other control h = elim (ℕ_discrete e.id device.id) [
    | yes s ↦ emptied-own e f s
    | no ne ↦
        let old = set_type-stored t device.id (emptied_type device.type) e v f ne in
        complete e old
          (λ x s k. ne (k ∙ ap (λ o. elim o as (λ _. ℕ) [ none ↦ 0 | some y ↦ y.id ]) (sym s)))
          control
          (λ c g p.
            let away : c.id ≢ device.id = λ s.
              let found : find_routing_data t device.id ≡ some c =
                subst (λ n. find_routing_data t n ≡ some c) s g in
              let same : device ≡ c = ground (arith, stored, found) in
              let up : device.parent_id ≡ e.id = ap (λ x. x.parent_id) same ∙ p in
              other e (ap (find_routing_data emptied) up ∙ f) refl in
            h c
              (ground (arith, find-set_type t device.id (emptied_type device.type) v c.id, g, away))
              p)
  ]

IsUpdate-none : (t : Table) → IsTable t → IsUpdate t none t
IsUpdate-none t v = record {
  table = v;
  retyped = Retyped-refl t;
  same_total = refl;
  typed = λ sound complete. (sound, complete);
}

IsUpdate-empty :
    (t : Table) (device : Entry)
    → IsTable t
    → find_routing_data t device.id ≡ some device
    → is_empty device.type ≡ true
    → IsUpdate t (some device) t
IsUpdate-empty t device v f h = record {
  table = v;
  retyped = Retyped-refl t;
  same_total = refl;
  typed = λ sound complete. (
    sound,
    λ e g _ control below. elim (ℕ_discrete e.id device.id) [
      | yes s ↦
          let found : find_routing_data t device.id ≡ some e =
            subst (λ n. find_routing_data t n ≡ some e) s g in
          let same : device ≡ e = ground (arith, f, found) in
          subst (λ x. is_empty x.type ≡ true) same h
      | no ne ↦ complete e g (λ x s k. ne (k ∙ own s)) control below
    ],
  );
}
  where
    own : {x y : Entry} → some x ≡ some y → y.id ≡ x.id
    own {x} {y} s = ground (arith, s)

-- A device with a leaf type and a child with one needs no change.
IsUpdate-filled :
    (t u : Table) (device : Entry)
    → IsTable t
    → find_routing_data t device.id ≡ some device
    → are_empty (direct_children t device.id) ≡ false
    → IsUpdate t (find_routing_data t device.parent_id) u
    → IsUpdate t (some device) u
IsUpdate-filled t u device v f h a = record {
  table = a.table;
  retyped = a.retyped;
  same_total = a.same_total;
  typed = λ sound complete. a.typed sound (λ e g _ control below. elim (ℕ_discrete e.id device.id) [
    | yes s ↦
        let all = AreEmpty-are_empty t e.id v below in
        let same : are_empty (direct_children t device.id) ≡ true =
          subst (λ n. are_empty (direct_children t n) ≡ true) s all in
        cc (h, same)
    | no ne ↦ complete e g (λ x s k. ne (k ∙ own s)) control below
  ]);
}
  where
    own : {x y : Entry} → some x ≡ some y → y.id ≡ x.id
    own {x} {y} s = ground (arith, s)

IsUpdate-emptied :
    (t u : Table) (device : Entry)
    → IsTable t
    → find_routing_data t device.id ≡ some device
    → device.parent_id ≢ device.id
    → are_empty (direct_children t device.id) ≡ true
    → (let t' = set_type t device.id (emptied_type device.type) in
        IsUpdate t' (find_routing_data t' device.parent_id) u)
    → IsUpdate t (some device) u
IsUpdate-emptied t u device v f ne h a =
    let t' = set_type t device.id (emptied_type device.type) in
    record {
      table = a.table;
      retyped = Retyped-trans t t' u (Retyped-set_type t device.id _ v) a.retyped;
      same_total = a.same_total ∙ total-set_type t device.id _ v;
      typed = λ sound complete.
          a.typed (emptied-IsSound t device v f ne h sound)
            (emptied-IsComplete t device v f ne h complete);
    }

-- The end of the update, with its result.
abbrev pub Updates : Table → Option Entry → Option Table → Type 0
Updates t device result = (u : Table) × (result ≡ some u) × IsUpdate t device u

pub update_type_to_empty-Updates :
    (fuel : ℕ) (rank : ℕ → ℕ) (bound : ℕ) (t : Table) (device : Option Entry)
    → IsTable t
    → IsRanked rank t
    → ((q : ℕ) → rank q ≤ bound)
    → ((e : Entry)
        → device ≡ some e
        → (find_routing_data t e.id ≡ some e) × (bound + total t < fuel + rank e.id))
    → Updates t device (update_type_to_empty fuel t device)
unfolding update_type_to_empty
update_type_to_empty-Updates fuel rank bound t none v ranked low h = (t, refl, IsUpdate-none t v)
update_type_to_empty-Updates zero rank bound t (some e) v ranked low h =
    absurd (omega (arith, (h e refl).1, low e.id))
update_type_to_empty-Updates (suc fuel) rank bound t (some e) v ranked low h =
    let (f, enough) = h e refl in
    let higher = ranked e.id e f in
    let apart : e.parent_id ≢ e.id = λ s. absurd (omega (arith, higher, ap rank s)) in
    let inner = all_empty-children (suc fuel) t e.id v (omega (arith, enough, low e.id)) in
    elim (Bool-cases (is_empty e.type)) [
      | inl empty ↦ (t, ground (arith, empty), IsUpdate-empty t e v f empty)
      | inr filled ↦ elim (Bool-cases (are_empty (direct_children t e.id))) [
        | inr some_leaf ↦
            let (u, run, a) =
              update_type_to_empty-Updates fuel rank bound t (find_routing_data t e.parent_id) v
                ranked low (next t rank bound fuel e enough higher ranked) in
            (
              u,
              ground (arith, filled, inner, some_leaf, run),
              IsUpdate-filled t u e v f some_leaf a,
            )
        | inl no_leaf ↦
            let t' = set_type t e.id (emptied_type e.type) in
            let r = Retyped-set_type t e.id (emptied_type e.type) v in
            let same = total-set_type t e.id (emptied_type e.type) v in
            let ranked' = IsRanked-Retyped rank t t' r ranked in
            let (u, run, a) =
              update_type_to_empty-Updates fuel rank bound t' (find_routing_data t' e.parent_id)
                (set_type-IsTable t e.id (emptied_type e.type) v) ranked' low
                (next t' rank bound fuel e (omega (arith, enough, same)) higher ranked') in
            (
              u,
              ground (arith, filled, inner, no_leaf, run),
              IsUpdate-emptied t u e v f apart no_leaf a,
            )
      ]
    ]
  where
    next :
        (s : Table) (rank : ℕ → ℕ) (bound fuel : ℕ) (e : Entry)
        → bound + total s < suc fuel + rank e.id
        → rank e.id < rank e.parent_id
        → IsRanked rank s
        → (p : Entry) → find_routing_data s e.parent_id ≡ some p
        → (find_routing_data s p.id ≡ some p) × (bound + total s < fuel + rank p.id)
    next s rank bound fuel e enough higher ranked p g =
        let same = find-id s e.parent_id p g in
        (
          subst (λ n. find_routing_data s n ≡ some p) (sym same) g,
          omega (arith, enough, higher, ap rank same),
        )

-- In a well-formed table where no entry is above itself, `update_type_to_empty` from a device of the table ends,
-- with fuel for the levels above it and for its children. It changes only types. Where no device without a leaf
-- type has a direct child with one, and the device itself is the only control device that may have a leaf type
-- without such a child, every control device of the result has a leaf type exactly when one of its direct
-- children has one.
pub update_type_to_empty-AreTyped :
    (fuel : ℕ) (rank : ℕ → ℕ) (bound : ℕ) (t : Table) (device : Entry)
    → IsTable t
    → IsRanked rank t
    → ((q : ℕ) → rank q ≤ bound)
    → find_routing_data t device.id ≡ some device
    → bound + total t < fuel + rank device.id
    → IsSound t
    → IsCompleteBut t (some device)
    → (u : Table) × (update_type_to_empty fuel t (some device) ≡ some u)
      × IsTable u
      × Retyped t u
      × AreTyped u
update_type_to_empty-AreTyped fuel rank bound t device v ranked low f enough sound complete =
    let at_device : (e : Entry)
        → some device ≡ some e
        → (find_routing_data t e.id ≡ some e) × (bound + total t < fuel + rank e.id) =
      λ e s.
        let same : device ≡ e = ground (arith, s) in
        subst (λ x. (find_routing_data t x.id ≡ some x) × (bound + total t < fuel + rank x.id)) same
          (f, enough) in
    let (u, run, a) =
      update_type_to_empty-Updates fuel rank bound t (some device) v ranked low at_device in
    (u, run, a.table, a.retyped, a.typed sound complete)
