-- ===== src/Tests/Timer.antt =====
-- A timer with the bulb 5, from eight to nine.
use os_domotics.Commands.{info, max_response_arguments, registry, registry_begin}
use os_domotics.Devices.{state_off}
use os_domotics.Messages.{Response}
use os_domotics.Messages.Responses.{IsResponse}
use os_domotics.Prelude.{
  [], arith, bit_or, false, if◌then◌else◌, none, pos, refl, replicate, true, ℕ, ◌&&◌, ◌*◌, ◌+◌, ◌<◌,
  ◌==◌, ◌∷◌, ◌≡◌, ◌≢◌, ◌≤◌,
}
use os_domotics.ReturnCodes.{ok}
use os_domotics.Routing.{init_routing_table}
use os_domotics.Tests.Utils.{working}
use os_domotics.Timer.{Timer, response_bytes, seconds_in_a_day}
use os_domotics.Timer.Bounds.{next_switch-next}
use os_domotics.Timer.Child.{handle_own_reply, mirror_info, mirrored}
use os_domotics.Timer.Mirror.{
  IsMirrored, count_kind, handle_own_reply-mirrors, kind, mirrored-IsMirrored,
}
use os_domotics.Timer.Schedule.{next_switch}
use os_domotics.Utils.{wrote}

abbrev timer : Timer
timer = record {
  id = 2;
  device_type = 13;
  state = state_off;
  begin_time = 480;
  end_time = 540;
  parent_id = 0;
  has_child = true;
  child_id = 5;
  child_type = 1;
  routing_table = init_routing_table;
  parent_changed = false;
  pending_commands = info ∷ [];
  defer_response = false;
  rcv_requests_fd = pos 3;
  snd_responses_fd = pos 4;
  rcv_responses_child_fd = pos 5;
  snd_requests_child_fd = pos 6;
  force_exit = false;
  shutdown_code = ok;
  request = record {
    destination = 2;
    command_code = bit_or registry registry_begin;
    argument = 500;
  };
  response = record {
    source = 2;
    command_code = 0;
    response_code = ok;
    arguments = replicate max_response_arguments 0;
    arguments_size = 0;
  };
  exit = none;
}

-- The bulb is on, by hand.
abbrev on_by_hand : Response
on_by_hand = record {
  source = 5;
  command_code = info;
  response_code = ok;
  arguments = 1 ∷ 7 ∷ 0 ∷ 0 ∷ 0 ∷ 0 ∷ [];
  arguments_size = 2;
}

next_switch-next_example :
    let (activate, second) = next_switch 480 540 30000 in
    (30000 < second)
    × (second ≤ 30000 + seconds_in_a_day)
    × (activate ≡ false)
    × ((s : ℕ)
        → 30000 < s
        → s < second
        → (s ≢ 480 * 60)
          × (s ≢ 540 * 60)
          × (s ≢ 480 * 60 + seconds_in_a_day)
          × (s ≢ 540 * 60 + seconds_in_a_day))
next_switch-next_example = next_switch-next 480 540 30000 (omega arith) (omega arith) (omega arith)

mirrored-IsMirrored_example : IsMirrored timer on_by_hand (mirrored timer on_by_hand)
mirrored-IsMirrored_example = mirrored-IsMirrored timer on_by_hand refl refl

reply-IsResponse : IsResponse (mirrored timer on_by_hand)
unfolding mirrored mirror_info
reply-IsResponse = record {
  source = omega arith;
  command_code = omega arith;
  response_code = omega arith;
  cells = refl;
  arguments_size = omega arith;
  arguments = ground arith;
}

handle_own_reply-mirrors_example :
    let (u, effects, ours) = handle_own_reply working on_by_hand timer in
    (ours ≡ true)
    × (effects
        ≡ (if ours then wrote (pos 4) (response_bytes (mirrored timer on_by_hand)).0 ∷ [] else []))
    × ((other : ℕ)
        → count_kind other u.pending_commands + (if ours && kind info == kind other then 1 else 0)
          ≡ count_kind other (info ∷ []))
handle_own_reply-mirrors_example =
    handle_own_reply-mirrors working on_by_hand timer reply-IsResponse refl refl refl
