-- ===== src/Timer/Mirror.antt =====
-- The commands that wait for the child, and the answers that the timer gives for it.
use os_domotics.Commands.{
  begin_argument, command_mask, end_argument, info, is_info, max_response_arguments,
  max_response_size, on_time_argument, state_argument,
}
use os_domotics.Devices.{state_manual_override, undefined_state}
use os_domotics.Messages.{Response}
use os_domotics.Messages.Responses.{IsResponse, parse_response-head}
use os_domotics.Prelude.{
  List, [], ap, arith, bit_and, get_or, if◌then◌else◌, length, not, refl, replicate, set, suc, sym,
  true, ℕ, ◌&&◌, ◌++◌, ◌+◌, ◌==◌, ◌||◌, ◌∙◌, ◌∷◌, ◌≡◌, ◌≤◌,
}
use os_domotics.Routing.Whole.{first}
use os_domotics.Timer.{
  Timer, max_timer_arguments, response_bytes, send_response, take_pending, unlock_data,
  write_to_parent,
}
use os_domotics.Timer.Child.{handle_own_reply, mirror_info, mirrored, send_reply}
use os_domotics.Utils.{Kernel, wrote}

abbrev pub kind : ℕ → ℕ
kind code = bit_and code command_mask

-- How many commands of the kind of a code wait.
abbrev pub count_kind : ℕ → List ℕ → ℕ
count_kind code [] = 0
count_kind code (current ∷ next) =
    if kind current == kind code then suc (count_kind code next) else count_kind code next

-- An answer takes away one awaited command of its kind, if there is one, and leaves those of other kinds.
pub take_pending-count :
    (code other : ℕ) (pending : List ℕ)
    → let (rest, found) = take_pending code pending in
      (found ≡ not (count_kind code pending == 0))
      × (count_kind other rest + (if found && kind code == kind other then 1 else 0)
          ≡ count_kind other pending)
unfolding take_pending
take_pending-count code other [] = ground arith
take_pending-count code other (current ∷ next) = ground (arith, take_pending-count code other next)

count_kind-append :
    (other code : ℕ) (pending : List ℕ)
    → count_kind other (pending ++ code ∷ [])
      ≡ count_kind other pending + (if kind code == kind other then 1 else 0)
count_kind-append other code [] = ground arith
count_kind-append other code (current ∷ next) = ground (arith, count_kind-append other code next)

-- The answer of the timer to an info request: the live state and the time of the child, a manual override
-- where the child is not in the state that the timer commanded last, and the two times of the timer.
pub record IsMirrored (t : Timer) (r u : Response) : Type 0 where
  pub source : u.source ≡ t.id
  pub command_code : u.command_code ≡ r.command_code
  pub response_code : u.response_code ≡ r.response_code
  pub arguments_size : u.arguments_size ≡ max_timer_arguments
  pub state : get_or u.arguments state_argument 0 ≡ (
      let live = get_or r.arguments state_argument 0 in
      if live == t.state || live == undefined_state then live else state_manual_override)
  pub time : get_or u.arguments on_time_argument 0 ≡ get_or r.arguments on_time_argument 0
  pub begin_time : get_or u.arguments begin_argument 0 ≡ t.begin_time
  pub end_time : get_or u.arguments end_argument 0 ≡ t.end_time

four_cells :
    (xs : List ℕ) (s b e : ℕ)
    → 4 ≤ length xs
    → let ys = set (set (set xs 0 s) 2 b) 3 e in
      (get_or ys 0 0 ≡ s)
      × (get_or ys 1 0 ≡ get_or xs 1 0)
      × (get_or ys 2 0 ≡ b)
      × (get_or ys 3 0 ≡ e)
four_cells [] s b e h = absurd (omega arith)
four_cells (_ ∷ []) s b e h = absurd (omega arith)
four_cells (_ ∷ _ ∷ []) s b e h = absurd (omega arith)
four_cells (_ ∷ _ ∷ _ ∷ []) s b e h = absurd (omega arith)
four_cells (_ ∷ _ ∷ _ ∷ _ ∷ xs) s b e h = (refl, refl, refl, refl)

-- An answer of the child to an info request is turned into an answer of the timer: it keeps the codes and
-- the time, has the two times of the timer, and tells a manual override where the state of the child is
-- known and not the one that the timer commanded.
pub mirrored-IsMirrored :
    (t : Timer) (r : Response)
    → length r.arguments ≡ max_response_arguments
    → is_info r.command_code ≡ true
    → IsMirrored t r (mirrored t r)
unfolding mirrored mirror_info
mirrored-IsMirrored t r h info =
    let live = get_or r.arguments state_argument 0 in
    let state =
      if not (live == t.state) && not (live == undefined_state)
      then state_manual_override
      else live in
    let (first, second, third, fourth) =
      four_cells r.arguments state t.begin_time t.end_time (omega arith) in
    rw info (record {
      source = refl;
      command_code = refl;
      response_code = refl;
      arguments_size = refl;
      state = first ∙ ground arith;
      time = second;
      begin_time = third;
      end_time = fourth;
    })

send_reply-sends :
    (k : Kernel) (r : Response) (t : Timer)
    → IsResponse r
    → k.locked ≡ true
    → k.unlocked ≡ true
    → k.written t.snd_responses_fd (response_bytes r).0 ≡ true
    → ((send_reply k r t).1 ≡ wrote t.snd_responses_fd (response_bytes r).0 ∷ [])
      × ((send_reply k r t).0.pending_commands ≡ t.pending_commands)
unfolding send_reply send_response write_to_parent unlock_data
send_reply-sends k r t v locked unlocked written =
    let fine = (parse_response-head r r (replicate max_response_size 0) v refl).0 in
    rw (fine, locked, unlocked, written) (ground arith)

unlock_data-works : (k : Kernel) (t : Timer) → k.unlocked ≡ true → unlock_data k t ≡ (t, [])
unfolding unlock_data
unlock_data-works k t h = rw h refl

handle_own_reply-takes :
    (k : Kernel) (r : Response) (t : Timer)
    → IsResponse (mirrored t r)
    → k.locked ≡ true
    → k.unlocked ≡ true
    → k.written t.snd_responses_fd (response_bytes (mirrored t r)).0 ≡ true
    → let (u, effects, ours) = handle_own_reply k r t in
      (ours ≡ not (count_kind r.command_code t.pending_commands == 0))
      × (effects
          ≡ (if ours then wrote t.snd_responses_fd (response_bytes (mirrored t r)).0 ∷ [] else []))
      × (u.pending_commands ≡ (take_pending r.command_code t.pending_commands).0)
unfolding handle_own_reply
handle_own_reply-takes k r t v locked unlocked written =
    let (pending, found) = take_pending r.command_code t.pending_commands in
    let t' = record t { pending_commands = pending } in
    let (sends, same) = send_reply-sends k (mirrored t r) t' v locked unlocked written in
    let ours = (take_pending-count r.command_code 0 t.pending_commands).0 in
    rw (unlock_data-works k t' unlocked, locked) (ground (arith, sends, same, ours))

-- The timer sends its own answer in the place of the child's exactly when it waits for a command of that
-- kind, if the mutex works, the answer can be written and it is a response of the width of the protocol;
-- otherwise it writes nothing here. Where it sends one it awaits one command of that kind less, and it awaits
-- as many of every other kind as before.
pub handle_own_reply-mirrors :
    (k : Kernel) (r : Response) (t : Timer)
    → IsResponse (mirrored t r)
    → k.locked ≡ true
    → k.unlocked ≡ true
    → k.written t.snd_responses_fd (response_bytes (mirrored t r)).0 ≡ true
    → let (u, effects, ours) = handle_own_reply k r t in
      (ours ≡ not (count_kind r.command_code t.pending_commands == 0))
      × (effects
          ≡ (if ours then wrote t.snd_responses_fd (response_bytes (mirrored t r)).0 ∷ [] else []))
      × ((other : ℕ)
          → count_kind other u.pending_commands
              + (if ours && kind r.command_code == kind other then 1 else 0)
            ≡ count_kind other t.pending_commands)
handle_own_reply-mirrors k r t v locked unlocked written =
    let (u, _, ours) = handle_own_reply k r t in
    let (asked, effects, pending) = handle_own_reply-takes k r t v locked unlocked written in
    (
      asked,
      effects,
      λ other.
          let (found, fewer) = take_pending-count r.command_code other t.pending_commands in
          let same = kind r.command_code == kind other in
          let rest = (take_pending r.command_code t.pending_commands).0 in
          ap (λ l. count_kind other l + (if ours && same then 1 else 0)) pending
          ∙ (ap (λ b. count_kind other rest + (if b && same then 1 else 0)) (asked ∙ sym found)
              ∙ fewer),
    )
