-- ===== src/Tests/Hub.antt =====
-- A hub that waits for two bulbs.
use os_domotics.Hub.Shutdown
use mathlib.Core.List.{Permᴰ}
use os_domotics.Commands.{info}
use os_domotics.Devices.{state_manual_override, undefined_state}
use os_domotics.Hub.{Hub, Pending, check_complete_and_send}
use os_domotics.Hub.Consensus.{gather, gather-Perm, gather-consensus}
use os_domotics.Hub.Pendings.{EndsFor, check_complete_and_send-total, occurrences, waiting}
use os_domotics.Hub.Shutdown.{closed_pipes, handle_shutdown, handle_shutdown-closes, next_hops}
use os_domotics.Messages.{Response}
use os_domotics.Prelude.{List, [], arith, false, pos, refl, some, true, ℕ, ◌<◌, ◌∷◌, ◌≡◌, ◌⊎◌}
use os_domotics.ReturnCodes.{is_error, ok}
use os_domotics.Routing.{init_routing_table}
use os_domotics.Routing.Loops.{direct_children}
use os_domotics.Tests.Routing.{devices, height}
use os_domotics.Tests.Sessions.{devices-IsTree}
use os_domotics.Tests.Utils.{working}
use os_domotics.Utils.{Effect}

abbrev answer : ℕ → ℕ → Response
answer source state = record {
  source = source;
  command_code = info;
  response_code = ok;
  arguments = state ∷ 7 ∷ 0 ∷ 0 ∷ 0 ∷ 0 ∷ [];
  arguments_size = 2;
}

abbrev question : Pending
question = record {
  command_code = info;
  pending_devices = 3 ∷ 4 ∷ [];
  state = undefined_state;
  max_time = 0;
  has_error = false;
  is_complete = false;
}

abbrev hub : Hub
hub = record {
  id = 2;
  device_type = 9;
  routing_table = init_routing_table;
  children = 2;
  has_children = true;
  pending_responses = question ∷ [];
  parent_id = 0;
  force_exit = false;
  parent_changed = false;
  remove_child_succeed = false;
  rcv_requests_parent_fd = pos 3;
  snd_responses_parent_fd = pos 4;
  rcv_responses_children_fd = pos 5;
}

gather-Perm_example :
    gather init_routing_table question (answer 3 1 ∷ answer 4 0 ∷ [])
    ≡ gather init_routing_table question (answer 4 0 ∷ answer 3 1 ∷ [])
gather-Perm_example =
    gather-Perm init_routing_table question (answer 3 1 ∷ answer 4 0 ∷ [])
      (answer 4 0 ∷ answer 3 1 ∷ []) ∣ Permᴰ.swap refl refl ∣₁ (ground arith)

gather-consensus_example :
    (gather init_routing_table question (answer 3 1 ∷ answer 4 0 ∷ [])).state
    ≡ state_manual_override
gather-consensus_example =
    gather-consensus init_routing_table question (answer 3 1 ∷ answer 4 0 ∷ []) refl (ground arith)

two_waits : waiting 3 hub.pending_responses < 2
unfolding occurrences
two_waits = omega arith

check_complete_and_send-total_example :
    EndsFor 3 (check_complete_and_send 2 working hub (answer 3 0) (answer 3 0))
check_complete_and_send-total_example =
    check_complete_and_send-total 2 working hub (answer 3 0) (answer 3 0) (ground arith)
      (ground arith) two_waits

abbrev house_hub : Hub
house_hub = record {
  id = 1;
  device_type = 9;
  routing_table = devices;
  children = 1;
  has_children = true;
  pending_responses = [];
  parent_id = 0;
  force_exit = true;
  parent_changed = false;
  remove_child_succeed = false;
  rcv_requests_parent_fd = pos 3;
  snd_responses_parent_fd = pos 4;
  rcv_responses_children_fd = pos 6;
}

handle_shutdown-closes_example :
    (h' : Hub) × (code : ℕ) × (effects : List Effect) × (Shutdown.handle_shutdown 12 working true
        false 0 house_hub
      ≡ some (h', code, effects))
    × ((is_error code ≡ true) ⊎ (code ≡ 0))
    × (closed_pipes effects ≡ next_hops (direct_children devices 1))
    × (direct_children h'.routing_table 1 ≡ [])
handle_shutdown-closes_example =
    handle_shutdown-closes height 3 12 working true false 0 house_hub devices-IsTree (λ fd. refl)
