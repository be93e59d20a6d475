-- ===== src/Hub/Consensus.antt =====
-- The answer of a hub does not depend on the order in which its children answer.
use mathlib.Core.List.{Perm, Permᴰ}
use mathlib.Core.Logic.{∥∥₁_elim}
use os_domotics.Commands.{is_info, open_time_argument, state_argument}
use os_domotics.Devices.{state_manual_override, undefined_state}
use os_domotics.Hub.{Pending, combine, has_child_error, is_hub_entry, update_pending}
use os_domotics.Messages.{Response}
use os_domotics.Prelude.{
  All, Bool, Bool-cases, List, [], ap, arith, false, get_or, if◌then◌else◌, inl, inr, leb, ltb,
  refl, subst, true, ℕ, ◌&&◌, ◌<◌, ◌==◌, ◌||◌, ◌∙◌, ◌∷◌, ◌≡◌, ◌≢◌,
}
use os_domotics.ReturnCodes.{is_error}
use os_domotics.Routing.{Table, find_routing_data}

-- The answers of several children to one pending command.
pub gather : Table → Pending → List Response → Pending
gather t p [] = p
gather t p (r ∷ rs) = gather t (update_pending t p r) rs

-- States have one byte.
abbrev IsState : ℕ → Type 0
IsState s = s < 256

combine_comm :
    (s a b : ℕ) → IsState a → IsState b → combine (combine s a) b ≡ combine (combine s b) a
combine_comm s a b ha hb = ground arith

-- A response whose state is a byte.
abbrev pub HasState : Response → Type 0
HasState r = IsState (get_or r.arguments state_argument 0)

-- An answer to an info request with a state and a time.
abbrev pub is_live_info : Response → Bool
is_live_info r = is_info r.command_code && leb 2 r.arguments_size

-- What one answer does to a pending command.
abbrev absorb : Pending → Bool → ℕ → ℕ → Bool → Pending
absorb p live state time wrong = record p {
  state = if live then combine p.state state else p.state;
  max_time = if live && ltb p.max_time time then time else p.max_time;
  has_error = if wrong then true else p.has_error;
}

max_comm :
    (m a b : ℕ) (x y : Bool)
    → (let n = if x && ltb m a then a else m in if y && ltb n b then b else n)
      ≡ (let n = if y && ltb m b then b else m in if x && ltb n a then a else n)
max_comm m a b x y = ground arith

absorb_comm :
    (p : Pending) (x y : Bool) (s t a b : ℕ) (e f : Bool)
    → IsState s
    → IsState t
    → absorb (absorb p x s a e) y t b f ≡ absorb (absorb p y t b f) x s a e
absorb_comm p x y s t a b e f hs ht =
    let states : (if y
          then combine (if x then combine p.state s else p.state) t
          else if x
          then combine p.state s
          else p.state)
        ≡ (if x
            then combine (if y then combine p.state t else p.state) s
            else if y
            then combine p.state t
            else p.state) =
      states_comm p.state x y s t hs ht in
    let errors : (if f then true else if e then true else p.has_error)
        ≡ (if e then true else if f then true else p.has_error) =
      ground arith in
    λ i. record p {
      state = states i;
      max_time = max_comm p.max_time a b x y i;
      has_error = errors i;
    }
  where
    states_comm :
        (n : ℕ) (x y : Bool) (s t : ℕ)
        → IsState s
        → IsState t
        → (if y then combine (if x then combine n s else n) t else if x then combine n s else n)
          ≡ (if x then combine (if y then combine n t else n) s else if y then combine n t else n)
    states_comm n true true s t hs ht = combine_comm n s t hs ht
    states_comm n true false s t hs ht = refl
    states_comm n false true s t hs ht = refl
    states_comm n false false s t hs ht = refl

update_pending_comm :
    (t : Table) (p : Pending) (a b : Response)
    → HasState a
    → HasState b
    → update_pending t (update_pending t p a) b ≡ update_pending t (update_pending t p b) a
unfolding update_pending
update_pending_comm t p a b ha hb =
    let wrong = λ (r : Response).
      is_error r.response_code
      || is_hub_entry (find_routing_data t r.source) && has_child_error r in
    absorb_comm p (is_live_info a) (is_live_info b) (get_or a.arguments state_argument 0)
      (get_or b.arguments state_argument 0) (get_or a.arguments open_time_argument 0)
      (get_or b.arguments open_time_argument 0) (wrong a) (wrong b) ha hb

Pending-IsSet : IsSet Pending
Pending-IsSet = hlevel

All-Permᴰ : (rs qs : List Response) → Permᴰ rs qs → All HasState rs → All HasState qs
All-Permᴰ rs qs Permᴰ.nil h = h
All-Permᴰ (r ∷ rs) (q ∷ qs) (Permᴰ.cons e d) (first, h) =
    (subst HasState e first, All-Permᴰ rs qs d h)
All-Permᴰ (a ∷ b ∷ rs) (c ∷ d ∷ qs) (Permᴰ.swap e f) (first, (second, h)) =
    (subst HasState f second, (subst HasState e first, h))
All-Permᴰ rs qs (Permᴰ.trans d e) h = All-Permᴰ _ qs e (All-Permᴰ rs _ d h)

gather-Permᴰ :
    (t : Table) (p : Pending) (rs qs : List Response)
    → Permᴰ rs qs
    → All HasState rs
    → gather t p rs ≡ gather t p qs
unfolding gather
gather-Permᴰ t p rs qs Permᴰ.nil h = refl
gather-Permᴰ t p (r ∷ rs) (q ∷ qs) (Permᴰ.cons e d) (first, h) =
    ap (λ x. gather t (update_pending t p x) rs) e ∙ gather-Permᴰ t (update_pending t p q) rs qs d h
gather-Permᴰ t p (a ∷ b ∷ rs) (c ∷ d ∷ qs) (Permᴰ.swap e f) (first, (second, h)) =
    ap (λ x. gather t x rs) (update_pending_comm t p a b first second)
    ∙ ap (λ x. gather t (update_pending t (update_pending t p x) a) rs) f
    ∙ ap (λ x. gather t (update_pending t (update_pending t p c) x) rs) e
gather-Permᴰ t p rs qs (Permᴰ.trans d e) h =
    gather-Permᴰ t p rs _ d h ∙ gather-Permᴰ t p _ qs e (All-Permᴰ rs _ d h)

-- Whatever the order in which the children answer a command, the pending command ends with the same state,
-- time and error, for states of one byte.
pub gather-Perm :
    (t : Table) (p : Pending) (rs qs : List Response)
    → Perm rs qs
    → All HasState rs
    → gather t p rs ≡ gather t p qs
gather-Perm t p rs qs order h =
    ∥∥₁_elim order (Pending-IsSet (gather t p rs) (gather t p qs)) (λ d. gather-Permᴰ t p rs qs d h)

-- The states of the answers.
abbrev pub states_of : List Response → List ℕ
states_of [] = []
states_of (r ∷ rs) = get_or r.arguments state_argument 0 ∷ states_of rs

-- Whether all that is known is one state.
abbrev pub all_are : ℕ → List ℕ → Bool
all_are s [] = true
all_are s (x ∷ xs) = (x == s || x == undefined_state) && all_are s xs

-- What several states have in common: nothing is known, or one state, or a manual override.
abbrev pub consensus : List ℕ → ℕ
consensus [] = undefined_state
consensus (x ∷ xs) =
    if x == undefined_state then consensus xs else if all_are x xs then x else state_manual_override

abbrev pub IsLiveInfo : Response → Type 0
IsLiveInfo r = (is_live_info r ≡ true) × HasState r

update_pending-state :
    (t : Table) (p : Pending) (r : Response)
    → IsLiveInfo r
    → (update_pending t p r).state ≡ combine p.state (get_or r.arguments state_argument 0)
unfolding update_pending
update_pending-state t p r (live, _) = rw live refl

all_are-combine :
    (s a : ℕ) (xs : List ℕ)
    → s ≢ undefined_state
    → (if all_are (combine s a) xs then combine s a else state_manual_override)
      ≡ (if (a == s || a == undefined_state) && all_are s xs then s else state_manual_override)
all_are-combine s a xs known = ground arith

combine-first : (a : ℕ) → IsState a → combine undefined_state a ≡ a
combine-first a h = omega arith

gather_known :
    (t : Table) (p : Pending) (rs : List Response)
    → p.state ≢ undefined_state
    → All IsLiveInfo rs
    → (gather t p rs).state
      ≡ (if all_are p.state (states_of rs) then p.state else state_manual_override)
unfolding gather
gather_known t p [] known h = refl
gather_known t p (r ∷ rs) known (live, h) =
    let ih = gather_known t (update_pending t p r) rs in
    let step = update_pending-state t p r live in
    let next : (update_pending t p r).state ≢ undefined_state = ground (arith, step) in
    ih next h
    ∙ rw step (all_are-combine p.state (get_or r.arguments state_argument 0) (states_of rs) known)

-- The state of an info command after all its answers is what their states have in common, if each answer
-- has a state of one byte and a time, and nothing is known before them.
pub gather-consensus :
    (t : Table) (p : Pending) (rs : List Response)
    → p.state ≡ undefined_state
    → All IsLiveInfo rs
    → (gather t p rs).state ≡ consensus (states_of rs)
unfolding gather
gather-consensus t p [] fresh h = fresh
gather-consensus t p (r ∷ rs) fresh (live, h) =
    let s = get_or r.arguments state_argument 0 in
    let first : combine p.state s ≡ s = rw fresh (combine-first s live.1) in
    let step = update_pending-state t p r live ∙ first in
    elim (Bool-cases (s == undefined_state)) [
      | inl unknown ↦
          rw unknown (gather-consensus t (update_pending t p r) rs (ground (arith, step)) h)
      | inr known ↦
          let rest = gather_known t (update_pending t p r) rs (ground (arith, step)) h in
          rw (known, rest, step) refl
    ]
