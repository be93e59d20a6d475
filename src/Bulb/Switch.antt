-- ===== src/Bulb/Switch.antt =====
-- What a request that is for the bulb does to it.
use os_domotics.Bulb.{
  Bulb, create_info_response, create_link_response, create_switch_response, dispatch,
}
use os_domotics.Commands.{
  is_delete, is_switch, position_off, position_on, switch_label, switch_position, switch_power,
}
use os_domotics.Devices.{state_off, state_on}
use os_domotics.Prelude.{Bool, arith, bit_and_one, if◌then◌else◌, ℕ, ◌&&◌, ◌==◌, ◌||◌, ◌≡◌, ◌≤◌}
use os_domotics.ReturnCodes.{ok}
use os_domotics.Utils.{Kernel}

abbrev pub is_power : ℕ → Bool
is_power c = is_switch c && switch_label c == switch_power

-- The parts of the bulb that only switches and deletes change.
pub record IsSame (b u : Bulb) : Type 0 where
  pub state : u.state ≡ b.state
  pub last_turned_on : u.last_turned_on ≡ b.last_turned_on
  pub last_turned_off : u.last_turned_off ≡ b.last_turned_off
  pub force_exit : u.force_exit ≡ b.force_exit

create_info_response-IsSame : (k : Kernel) (b : Bulb) → IsSame b (create_info_response k b)
unfolding create_info_response
create_info_response-IsSame k b = ground arith

create_link_response-IsSame : (k : Kernel) (b : Bulb) → IsSame b (create_link_response k b)
unfolding create_link_response
create_link_response-IsSame k b = ground arith

-- The effect of the switch at a request code.
pub record IsSwitched (k : Kernel) (b : Bulb) (power : Bool) (u : Bulb) : Type 0 where
  pub state : u.state ≡ (if power then switch_position b.request.command_code else b.state)
  pub last_turned_on : u.last_turned_on ≡ (
      if power && (switch_position b.request.command_code == position_on && b.state == state_off)
      then k.now
      else b.last_turned_on)
  pub last_turned_off : u.last_turned_off ≡ (
      if power && (switch_position b.request.command_code == position_off && b.state == state_on)
      then k.now
      else b.last_turned_off)

create_switch_response-IsSwitched :
    (k : Kernel) (b : Bulb)
    → b.state ≤ 1
    → IsSwitched k b
        (switch_label b.request.command_code == switch_power)
        (create_switch_response k b)
      × ((create_switch_response k b).force_exit ≡ b.force_exit)
unfolding create_switch_response
create_switch_response-IsSwitched k b h = ground (arith, bit_and_one b.request.command_code)

-- A request for the bulb sets the state to the position of its switch if it is a power switch, and leaves
-- the state alone otherwise; the two times are set to now exactly when the state changes to theirs. The
-- exit is forced by a delete and by nothing else.
pub dispatch-IsSwitched :
    (k : Kernel) (b : Bulb)
    → b.state ≤ 1
    → IsSwitched k b (is_power b.request.command_code) (dispatch k b)
      × ((dispatch k b).force_exit ≡ (is_delete b.request.command_code || b.force_exit))
unfolding dispatch
dispatch-IsSwitched k b h =
    let b' = record b {
      response = record b.response { command_code = b.request.command_code; response_code = ok };
    } in
    let info = create_info_response-IsSame k b' in
    let link = create_link_response-IsSame k b' in
    let switched = create_switch_response-IsSwitched k b' h in ground arith
