-- ===== src/Timer/Schedule.antt =====
-- The thread of the timer that switches the child at the two times of the day.
use os_domotics.Commands.{
  position_off, position_on, switch, switch_close, switch_open, switch_power,
}
use os_domotics.Devices.{is_bulb_like, state_off, state_on}
use os_domotics.Messages.{Request}
use os_domotics.Prelude.{
  Bool, List, Option, bit_or, false, if◌then◌else◌, ltb, none, not, some, true, ℕ, ◌*◌, ◌++◌, ◌+◌,
  ◌==◌,
}
use os_domotics.ReturnCodes.{
  child_not_found, is_error, ok, unable_to_lock_mutex, unable_to_write_pipe,
}
use os_domotics.Timer.{
  Timer, lock_error, release_unreachable_child, seconds_in_a_day, unlock_data, write_request,
}
use os_domotics.Utils.{Effect, Kernel}

-- The request to the child, for its type.
abbrev pub switch_code : ℕ → Bool → ℕ
switch_code type activate =
    if is_bulb_like type
    then bit_or switch (bit_or switch_power (if activate then position_on else position_off))
    else bit_or switch (bit_or (if activate then switch_open else switch_close) position_on)

unfoldable pub send_child_switch : ℕ → Kernel → Bool → Timer → Option (Timer × ℕ × List Effect)
send_child_switch fuel k activate t =
    let (t', complained) = unlock_data k t in
    let q : Request = record {
      destination = t.child_id;
      command_code = switch_code t.child_type activate;
      argument = 0;
    } in
    let (code, written, effects) = write_request k q t.snd_requests_child_fd in
    let released : Option (Timer × ℕ × List Effect) = elim (release_unreachable_child fuel k t') [
      | none ↦ none
      | some (t'', more) ↦ some (t'', unable_to_write_pipe, complained ++ more)
    ] in
    if not k.locked
    then some (t, unable_to_lock_mutex, lock_error)
    else if not t.has_child
    then some (t', child_not_found, complained)
    else if is_error code
    then some (t', code, complained)
    else if written
    then some (t', ok, complained ++ effects)
    else released

-- The next switch, at a second of the day: whether it is on, and its second.
unfoldable pub next_switch : ℕ → ℕ → ℕ → Bool × ℕ
next_switch begin_time end_time now_second =
    let begin_second = begin_time * 60 in
    let end_second = end_time * 60 in
    if ltb now_second begin_second
    then (true, begin_second)
    else if ltb now_second end_second
    then (false, end_second)
    else (true, begin_second + seconds_in_a_day)

-- The end of a turn of the loop of `schedule_routine`, after its sleep.
unfoldable pub schedule_turn : ℕ → Kernel → Bool → Timer → Option (Timer × List Effect)
schedule_turn fuel k activate t = elim (send_child_switch fuel k activate t) [
  | none ↦ none
  | some (t', code, effects) ↦
      let (t'', complained) =
        unlock_data k (record t' { state = if activate then state_on else state_off }) in
      if not (code == ok)
      then some (t', effects)
      else if k.locked
      then some (t'', effects ++ complained)
      else some (t', effects ++ lock_error)
]
