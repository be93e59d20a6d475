-- ===== src/Timer/Bounds.antt =====
-- The two times of a timer.
use os_domotics.Commands.{registry_begin, registry_end}
use os_domotics.Prelude.{
  Bool, arith, if◌then◌else◌, leb, ltb, not, true, ℕ, ◌&&◌, ◌*◌, ◌+◌, ◌<◌, ◌==◌, ◌||◌, ◌≡◌, ◌≢◌,
  ◌≤◌,
}
use os_domotics.ReturnCodes.{invalid_request_argument, unable_to_unlock_mutex, unexpected_command}
use os_domotics.Timer.{Timer, default_begin, default_end, minutes_in_a_day, seconds_in_a_day}
use os_domotics.Timer.Schedule.{next_switch}
use os_domotics.Utils.{Kernel}

-- A timer does not run across midnight.
pub record IsScheduled (t : Timer) : Type 0 where
  pub ordered : t.begin_time ≤ t.end_time
  pub within : t.end_time < minutes_in_a_day

pub default_IsScheduled :
    (t : Timer) → t.begin_time ≡ default_begin → t.end_time ≡ default_end → IsScheduled t
default_IsScheduled t b e = record { ordered = omega arith; within = omega arith }

-- What a timer takes for its two times.
abbrev pub takes : Timer → ℕ → ℕ → Bool
takes t subcommand value =
    subcommand == registry_begin && leb value t.end_time
    || subcommand == registry_end && (leb t.begin_time value && ltb value 1440)

-- The time is set, and the other is not, if the timer takes it.
pub record IsRegistered (subcommand value : ℕ) (t u : Timer) : Type 0 where
  pub begin_time :
      u.begin_time
      ≡ (if takes t subcommand value && subcommand == registry_begin then value else t.begin_time)
  pub end_time :
      u.end_time
      ≡ (if takes t subcommand value && subcommand == registry_end then value else t.end_time)
  pub code : u.response.response_code ≡ (
      if takes t subcommand value
      then t.response.response_code
      else if subcommand == registry_begin || subcommand == registry_end
      then invalid_request_argument
      else unexpected_command)

-- What else a registry request changes: the answer, and the end of the timer where the mutex cannot be unlocked.
abbrev pub registered : Kernel → Timer → Timer → Timer
registered k t u = record t {
  begin_time = u.begin_time;
  end_time = u.end_time;
  response = u.response;
  force_exit = not k.unlocked || t.force_exit;
  shutdown_code = if k.unlocked then t.shutdown_code else unable_to_unlock_mutex;
}

-- The second of the next switch lies ahead, by a day at most, if the time is one of a day and the times of
-- the timer are ordered and within the day. The switch is off exactly within the window from begin to end,
-- and no begin or end, of this day or the next, lies between now and the switch.
pub next_switch-next :
    (b e now : ℕ)
    → b ≤ e
    → e < minutes_in_a_day
    → now < seconds_in_a_day
    → let (activate, second) = next_switch b e now in
      (now < second)
      × (second ≤ now + seconds_in_a_day)
      × (activate ≡ not (leb (b * 60) now && ltb now (e * 60)))
      × ((s : ℕ)
          → now < s
          → s < second
          → (s ≢ b * 60)
            × (s ≢ e * 60)
            × (s ≢ b * 60 + seconds_in_a_day)
            × (s ≢ e * 60 + seconds_in_a_day))
unfolding next_switch
next_switch-next b e now ordered within day = ground arith

-- A timer whose begin is its end, which `create_registry_response` allows, never switches off.
pub next_switch-same : (b now : ℕ) → (next_switch b b now).0 ≡ true
unfolding next_switch
next_switch-same b now = ground arith
