-- ===== src/Hub/Pendings.antt =====
-- The commands that wait for the children: nobody waits for a child that is gone.
use os_domotics.Devices.{no_id}
use os_domotics.Hub.{
  Hub, Pending, at_position, check_complete_and_send, check_pending, complete_one,
  format_response_type, free_pending, later, strike,
}
use os_domotics.Messages.{Response}
use os_domotics.Prelude.{
  All, Bool, Bool-cases, List, Option, [], arith, false, if◌then◌else◌, inl, inr, none, not, refl,
  some, suc, true, zero, ℕ, ◌++◌, ◌+◌, ◌<◌, ◌==◌, ◌∷◌, ◌≡◌, ◌≢◌, ◌≤◌,
}
use os_domotics.Utils.{Effect, Kernel}

unfoldable pub occurrences : ℕ → List ℕ → ℕ
occurrences source [] = 0
occurrences source (device ∷ devices) =
    if device == source then suc (occurrences source devices) else occurrences source devices

-- How often the pending commands wait for a device.
abbrev pub waiting : ℕ → List Pending → ℕ
waiting source [] = 0
waiting source (p ∷ ps) = occurrences source p.pending_devices + waiting source ps

abbrev pub is_live : List ℕ → Bool
is_live [] = false
is_live (device ∷ devices) = if device == no_id then is_live devices else true

-- Somebody has not answered yet.
abbrev pub IsLive : Pending → Type 0
IsLive p = is_live p.pending_devices ≡ true

pub strike-found :
    (source : ℕ) (devices : List ℕ)
    → let (rest, complete, found) = strike source devices in
      found ≡ not (occurrences source devices == 0)
unfolding strike occurrences
strike-found source [] = refl
strike-found source (device ∷ devices) = ground (arith, strike-found source devices)

strike-occurrences :
    (source : ℕ) (devices : List ℕ)
    → source ≢ no_id
    → occurrences source (strike source devices).0 ≡ 0
unfolding strike occurrences
strike-occurrences source [] h = refl
strike-occurrences source (device ∷ devices) h = ground (arith, strike-occurrences source devices h)

strike_complete :
    (source : ℕ) (devices : List ℕ)
    → let (rest, complete, found) = strike source devices in complete ≡ not (is_live rest)
unfolding strike
strike_complete source [] = refl
strike_complete source (device ∷ devices) = ground (arith, strike_complete source devices)

strike-none :
    (source : ℕ) (devices : List ℕ)
    → occurrences source devices ≡ 0
    → (strike source devices).0 ≡ devices
unfolding strike occurrences
strike-none source [] h = refl
strike-none source (device ∷ devices) h = ground (arith, strike-none source devices)

-- What a search for a child that is gone finds: a pending command that waits for it no more, or nobody.
abbrev IsChecked : ℕ → List Pending → List Pending × Option ℕ → Type 0
IsChecked source ps (ps', none) = (waiting source ps' ≡ 0) × All IsLive ps'
IsChecked source ps (ps', some i) =
    (p : Pending) × (at_position ps' i ≡ some p)
    × (p.is_complete ≡ not (is_live p.pending_devices))
    × (waiting source ps' < waiting source ps)
    × All IsLive (free_pending i ps')

later-IsChecked :
    (source : ℕ) (p p' : Pending) (ps ps' : List Pending) (position : Option ℕ)
    → occurrences source p'.pending_devices ≡ 0
    → IsLive p'
    → IsChecked source ps (ps', position)
    → IsChecked source (p ∷ ps) (p' ∷ ps', later position)
unfolding free_pending
later-IsChecked source p p' ps ps' none absent live (nothing, rest) =
    (omega (arith, nothing, absent), (live, rest))
later-IsChecked source p p' ps ps' (some i) absent live (q, found, complete, fewer, rest) =
    (q, found, complete, omega (arith, absent, fewer), (live, rest))

check_pending-IsChecked :
    (r : Response) (ps : List Pending)
    → r.source ≢ no_id
    → All IsLive ps
    → IsChecked r.source ps (check_pending true r ps)
unfolding check_pending free_pending
check_pending-IsChecked r [] h live = (refl, live)
check_pending-IsChecked r (p ∷ ps) h (first, live) =
    let found = strike-found r.source p.pending_devices in
    let gone = strike-occurrences r.source p.pending_devices h in
    let complete = strike_complete r.source p.pending_devices in
    let same = strike-none r.source p.pending_devices in
    let ih = check_pending-IsChecked r ps h live in
    elim (Bool-cases (strike r.source p.pending_devices).2) [
      | inl hit ↦
          let waited : 0 < occurrences r.source p.pending_devices = ground arith in
          rw hit (_, refl, complete, omega (arith, gone, waited), live)
      | inr miss ↦
          let absent : occurrences r.source p.pending_devices ≡ 0 = ground arith in
          rw miss (
            later-IsChecked r.source p _ ps (check_pending true r ps).0 (check_pending true r ps).1
              gone (rw (same absent) first) ih)
    ]

waiting-free :
    (source i : ℕ) (ps : List Pending) → waiting source (free_pending i ps) ≤ waiting source ps
unfolding free_pending
waiting-free source i [] = omega arith
waiting-free source zero (p ∷ ps) = omega arith
waiting-free source (suc i) (p ∷ ps) = omega (arith, waiting-free source i ps)

All-restore :
    (i : ℕ) (p : Pending) (ps : List Pending)
    → at_position ps i ≡ some p
    → IsLive p
    → All IsLive (free_pending i ps)
    → All IsLive ps
unfolding free_pending
All-restore i p [] found live rest = rest
All-restore zero p (q ∷ ps) found live rest = ground (arith, rest, live, found)
All-restore (suc i) p (q ∷ ps) found live (first, rest) =
    (first, All-restore i p ps found live rest)

format_response_type-pending :
    (h : Hub) (r : Response) (p : Pending)
    → (format_response_type h r p).0.pending_responses ≡ h.pending_responses
unfolding format_response_type
format_response_type-pending h r p = ground arith

complete_one-pending :
    (k : Kernel) (h : Hub) (r : Response) (i : ℕ) (p : Pending)
    → (complete_one k h r i p).0.pending_responses
      ≡ (if p.is_complete then free_pending i h.pending_responses else h.pending_responses)
unfolding complete_one
complete_one-pending k h r i p = elim (Bool-cases p.is_complete) [
  | inl done ↦ rw (done, format_response_type-pending) refl
  | inr waits ↦ rw waits refl
]

-- One turn of the loop keeps the commands that somebody still owes an answer.
complete_one-lives :
    (k : Kernel) (h : Hub) (r : Response) (i source : ℕ) (p : Pending)
    → at_position h.pending_responses i ≡ some p
    → p.is_complete ≡ not (is_live p.pending_devices)
    → All IsLive (free_pending i h.pending_responses)
    → All IsLive (complete_one k h r i p).0.pending_responses
      × (waiting source (complete_one k h r i p).0.pending_responses
          ≤ waiting source h.pending_responses)
complete_one-lives k h r i source p found complete rest = elim (Bool-cases p.is_complete) [
  | inl done ↦ rw (complete_one-pending, done) (rest, waiting-free source i h.pending_responses)
  | inr waits ↦
      rw (complete_one-pending, waits)
        (All-restore i p h.pending_responses found (ground arith) rest, omega arith)
]

-- What the loop leaves: nobody waits for the source.
abbrev pub EndsFor : ℕ → Option (Hub × Response × List Effect) → Type 0
EndsFor source result =
    (u : Hub) × (r : Response) × (effects : List Effect) × (result ≡ some (u, r, effects))
    × (waiting source u.pending_responses ≡ 0)
    × All IsLive u.pending_responses

-- The loop that answers for a removed or deleted child ends, with fuel for each time that somebody waits
-- for it and one more, if its id is not `NO_ID` and every pending command waits for somebody. After it no
-- pending command waits for the child, and each one that is left waits for somebody else.
pub check_complete_and_send-total :
    (fuel : ℕ) (k : Kernel) (h : Hub) (r gone : Response)
    → gone.source ≢ no_id
    → All IsLive h.pending_responses
    → waiting gone.source h.pending_responses < fuel
    → EndsFor gone.source (check_complete_and_send fuel k h r gone)
unfolding check_complete_and_send
check_complete_and_send-total zero k h r gone ne live enough = absurd (omega arith)
check_complete_and_send-total (suc fuel) k h r gone ne live enough =
    go (λ h' r'. check_complete_and_send-total fuel k h' r' gone ne)
      (check_pending true gone h.pending_responses)
      (check_pending-IsChecked gone h.pending_responses ne live)
  where
    go :
        ((h' : Hub) (r' : Response)
          → All IsLive h'.pending_responses
          → waiting gone.source h'.pending_responses < fuel
          → EndsFor gone.source (check_complete_and_send fuel k h' r' gone))
        → (checked : List Pending × Option ℕ) → IsChecked gone.source h.pending_responses checked
        → EndsFor gone.source (
            let (pendings, position) = checked in
            let h' = record h { pending_responses = pendings } in
            elim position [
              | none ↦ some (h', r, [])
              | some i ↦ elim (at_position pendings i) [
                | none ↦ some (h', r, [])
                | some p ↦
                    let (h'', r', effects) = complete_one k h' r i p in
                    elim (check_complete_and_send fuel k h'' r' gone) [
                      | none ↦ none
                      | some (u, r'', more) ↦ some (u, r'', effects ++ more)
                    ]
              ]
            ])
    go again (ps, none) (nothing, rest) =
        (record h { pending_responses = ps }, r, [], refl, nothing, rest)
    go again (ps, some i) (p, found, complete, fewer, rest) =
        let h' = record h { pending_responses = ps } in
        let (alive, less) = complete_one-lives k h' r i gone.source p found complete rest in
        let (u, r', more, run, nothing, last) =
          again (complete_one k h' r i p).0 (complete_one k h' r i p).1 alive
            (omega (arith, less, fewer, enough)) in
        (u, r', (complete_one k h' r i p).2 ++ more, rw (found, run) refl, nothing, last)
