-- ===== src/Controller/Cycles.antt =====
-- A link that the controller accepts makes no cycle.
use os_domotics.Controller.Check.{check_link, check_parent, check_parents, has_direct_child}
use os_domotics.Devices.{child_type, controller_id, is_empty, is_leaf, is_timer}
use os_domotics.Prelude.{
  Bool-cases, Option, Option-cases, ap, arith, false, inl, inr, none, refl, some, subst, suc, sym,
  zero, ℕ, ◌&&◌, ◌+◌, ◌<◌, ◌==◌, ◌≡◌, ◌≢◌, ◌≤◌,
}
use os_domotics.ReturnCodes.{ok}
use os_domotics.Routing.{Entry, Table, find_routing_data}
use os_domotics.Routing.Remove.{IsRanked}
use os_domotics.Routing.Table.{find-id}

-- The devices from one up to the top.
pub data Above (t : Table) : Entry → Entry → Type 0 where
  here : (e : Entry) → Above t e e
  over : (e f g : Entry) → find_routing_data t e.parent_id ≡ some f → Above t f g → Above t e g

-- An error is never forgotten.
check_parents-keeps :
    (fuel : ℕ) (t : Table) (target : Entry) (parent : Option Entry) (error : ℕ)
    → error ≢ ok
    → check_parents fuel t target parent error ≢ some ok
unfolding check_parents
check_parents-keeps fuel t target none error h = λ e. h (ground (arith, e))
check_parents-keeps zero t target (some parent) error h = λ e. cc
check_parents-keeps (suc fuel) t target (some parent) error h =
    check_parents-keeps fuel t target (find_routing_data t parent.parent_id)
      (check_parent error target parent) (ground (arith, h))

-- The types of two devices go together: a device without a leaf type goes with all.
abbrev pub Agree : Entry → Entry → Type 0
Agree target parent =
    is_empty target.type ≡ false
    → is_empty parent.type ≡ false
    → child_type target.type ≡ child_type parent.type

check_parent-accepts :
    (target parent : Entry)
    → check_parent ok target parent ≡ ok
    → (parent.parent_id ≢ target.id) × Agree target parent
check_parent-accepts target parent h = ground (arith, h)

-- From the first turn, and the turns after it.
accepts-Above :
    (fuel : ℕ) (t : Table) (target parent g : Entry)
    → ((f g : Entry)
        → check_parents fuel t target (some f) ok ≡ some ok
        → Above t f g
        → (g.parent_id ≢ target.id) × Agree target g)
    → ((parent.parent_id ≢ target.id) × Agree target parent)
    → check_parents fuel t target (find_routing_data t parent.parent_id) ok ≡ some ok
    → Above t parent g
    → (g.parent_id ≢ target.id) × Agree target g
accepts-Above fuel t target parent g again first h (here _) = first
accepts-Above fuel t target parent g again first h (over _ f _ found above) =
    again f g (rw found at h) above

check_parents-accepts :
    (fuel : ℕ) (t : Table) (target parent g : Entry)
    → check_parents fuel t target (some parent) ok ≡ some ok
    → Above t parent g
    → (g.parent_id ≢ target.id) × Agree target g
unfolding check_parents
check_parents-accepts zero t target parent g h a = cc
check_parents-accepts (suc fuel) t target parent g h a =
    elim (Bool-cases (check_parent ok target parent == ok)) [
      | inl fine ↦
          let same : check_parent ok target parent ≡ ok = ground arith in
          accepts-Above fuel t target parent g (check_parents-accepts fuel t target)
            (check_parent-accepts target parent same)
            (subst
              (λ n. check_parents fuel t target (find_routing_data t parent.parent_id) n ≡ some ok)
              same h)
            a
      | inr wrong ↦
          let no =
            check_parents-keeps fuel t target (find_routing_data t parent.parent_id)
              (check_parent ok target parent) (ground arith) in
          absurd (no h)
    ]

Above-id :
    (t : Table) (target e g : Entry)
    → ((f : Entry) → Above t e f → f.parent_id ≢ target.id)
    → e.id ≢ target.id
    → Above t e g
    → g.id ≢ target.id
Above-id t target e g free h (here _) = h
Above-id t target e g free h (over _ f _ found above) =
    let same = find-id t e.parent_id f found in
    let next : f.id ≢ target.id = ground (arith, same, free e (here e)) in
    Above-id t target f g (λ x a. free x (over e f x found a)) next above

-- Where `check_user_command` accepts a link of a device to another than the controller, the new parent is in
-- the table and not a leaf, neither it nor any device above it is the linked device, none of them has the
-- linked device as its parent, and each has a type that goes with it; a timer has no child yet.
pub check_link-accepts :
    (fuel : ℕ) (t : Table) (target : Entry) (argument : ℕ)
    → argument ≢ controller_id
    → check_link fuel t target argument ≡ some ok
    → (parent : Entry) × (find_routing_data t argument ≡ some parent)
      × (is_leaf parent.type ≡ false)
      × ((is_timer parent.type && has_direct_child t parent.id) ≡ false)
      × ((g : Entry)
          → Above t parent g
          → (g.id ≢ target.id) × (g.parent_id ≢ target.id) × Agree target g)
unfolding check_link
check_link-accepts fuel t target argument other h =
    elim (Option-cases (find_routing_data t argument)) [
      | inl out ↦ ground (arith, out, h)
      | inr (parent, found) ↦
          let same = find-id t argument parent found in
          let (walked, leaf, timer, apart) : (check_parents fuel t target (some parent) ok
                ≡ some ok)
              × (is_leaf parent.type ≡ false)
              × ((is_timer parent.type && has_direct_child t parent.id) ≡ false)
              × (parent.id ≢ target.id) =
            ground (arith, found, h, same) in
          let accepted = λ (g : Entry). check_parents-accepts fuel t target parent g walked in
          (
            parent,
            found,
            leaf,
            timer,
            λ g above. (
              Above-id t target parent g (λ f a. (accepted f a).0) apart above,
              (accepted g above).0,
              (accepted g above).1,
            ),
          )
    ]

check_parents-none :
    (fuel : ℕ) (t : Table) (target : Entry) (error : ℕ)
    → check_parents fuel t target none error ≡ some error
unfolding check_parents
check_parents-none zero t target error = refl
check_parents-none (suc fuel) t target error = refl

-- The loop over the parents ends where no device is above itself: with fuel for the levels above the first
-- parent and one more, if `rank` rises from each entry to its parent and `top` is above all ranks.
pub check_parents-ends :
    (fuel : ℕ) (rank : ℕ → ℕ) (top : ℕ) (t : Table) (target parent : Entry) (error : ℕ)
    → IsRanked rank t
    → ((q : ℕ) → rank q ≤ top)
    → find_routing_data t parent.id ≡ some parent
    → top < fuel + rank parent.id
    → (result : ℕ) × (check_parents fuel t target (some parent) error ≡ some result)
unfolding check_parents
check_parents-ends zero rank top t target parent error r below found enough =
    absurd (omega (arith, below parent.id))
check_parents-ends (suc fuel) rank top t target parent error r below found enough =
    let rises = r parent.id parent found in
    go (find_routing_data t parent.parent_id) (λ f e. find-id t parent.parent_id f e)
      (λ f same e.
        check_parents-ends fuel rank top t target f (check_parent error target parent) r below
          (subst (λ n. find_routing_data t n ≡ some f) (sym same) e)
          (omega (arith, rises, enough, ap rank same)))
      refl
  where
    go :
        (next : Option Entry)
        → ((f : Entry) → next ≡ some f → f.id ≡ parent.parent_id)
        → ((f : Entry)
            → f.id ≡ parent.parent_id
            → find_routing_data t parent.parent_id ≡ some f
            → (result : ℕ) × (check_parents fuel t target
                  (some f)
                  (check_parent error target parent)
                ≡ some result))
        → find_routing_data t parent.parent_id ≡ next
        → (result : ℕ) × (check_parents fuel t target next (check_parent error target parent)
            ≡ some result)
    go none same again e = (
      check_parent error target parent,
      check_parents-none fuel t target (check_parent error target parent),
    )
    go (some f) same again e = again f (same f refl) e
