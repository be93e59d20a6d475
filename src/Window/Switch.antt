-- ===== src/Window/Switch.antt =====
-- What a request that is for the window does to it.
use os_domotics.Commands.{
  is_delete, is_info, is_link, is_switch, link_change_parent, link_subcommand, position_on,
  switch_close, switch_label, switch_open, switch_position,
}
use os_domotics.Devices.{state_closed, state_open}
use os_domotics.Prelude.{
  Bool, arith, bit_and_one, if◌then◌else◌, not, refl, ℕ, ◌&&◌, ◌==◌, ◌||◌, ◌≡◌, ◌≤◌,
}
use os_domotics.ReturnCodes.{ok, unexpected_command}
use os_domotics.Utils.{Kernel, change_snd_responses_pipe}
use os_domotics.Window.{
  Window, create_info_response, create_link_response, create_switch_response, dispatch,
}

-- A switch request that opens, and one that closes.
abbrev pub opens : ℕ → Bool
opens c = is_switch c && (switch_label c == switch_open && switch_position c == position_on)

abbrev pub closes : ℕ → Bool
closes c = is_switch c && (switch_label c == switch_close && switch_position c == position_on)

-- The parts of the window that only switches and deletes change.
pub record IsSame (w u : Window) : Type 0 where
  pub state : u.state ≡ w.state
  pub last_opened : u.last_opened ≡ w.last_opened
  pub last_closed : u.last_closed ≡ w.last_closed
  pub force_exit : u.force_exit ≡ w.force_exit

create_info_response-IsSame : (k : Kernel) (w : Window) → IsSame w (create_info_response k w)
unfolding create_info_response
create_info_response-IsSame k w = ground arith

create_link_response-IsSame : (k : Kernel) (w : Window) → IsSame w (create_link_response k w)
unfolding create_link_response
create_link_response-IsSame k w = ground arith

-- The effect of a request that opens or closes.
pub record IsMoved (k : Kernel) (w : Window) (opening closing : Bool) (u : Window) : Type 0 where
  pub state : u.state ≡ (if opening then state_open else if closing then state_closed else w.state)
  pub last_opened :
      u.last_opened ≡ (if opening && w.state == state_closed then k.now else w.last_opened)
  pub last_closed :
      u.last_closed ≡ (if closing && w.state == state_open then k.now else w.last_closed)

-- The two positions of the labels `open` and `close`.
abbrev pub is_label : ℕ → ℕ → ℕ → Bool
is_label label position c = switch_label c == label && switch_position c == position

create_switch_response-IsMoved :
    (k : Kernel) (w : Window)
    → w.state ≤ 1
    → let c = w.request.command_code in
      let u = create_switch_response k w in
      IsMoved k w (is_label switch_open position_on c) (is_label switch_close position_on c) u
      × (u.force_exit ≡ w.force_exit)
      × (u.response.response_code ≡ (
          if switch_label c == switch_open || switch_label c == switch_close
          then w.response.response_code
          else unexpected_command))
unfolding create_switch_response
create_switch_response-IsMoved k w h = ground (arith, bit_and_one w.request.command_code)

-- The code of the answer to a link request: of the change of the pipe where the parent is new.
abbrev pub link_code : Kernel → Window → ℕ
link_code k w =
    if not (link_subcommand w.request.command_code == link_change_parent)
    then unexpected_command
    else if w.parent_id == w.request.argument
    then ok
    else (change_snd_responses_pipe k w.request.argument w.snd_responses_fd).1

-- The code of the answer to a request.
abbrev pub answer_code : Kernel → Window → ℕ
answer_code k w =
    let c = w.request.command_code in
    if is_info c || is_delete c
    then ok
    else if is_link c
    then link_code k w
    else if is_switch c && (switch_label c == switch_open || switch_label c == switch_close)
    then ok
    else unexpected_command

create_info_response-code :
    (k : Kernel) (w : Window)
    → (create_info_response k w).response.response_code ≡ w.response.response_code
unfolding create_info_response
create_info_response-code k w = refl

create_link_response-code :
    (k : Kernel) (w : Window)
    → w.response.response_code ≡ ok
    → (create_link_response k w).response.response_code ≡ link_code k w
unfolding create_link_response
create_link_response-code k w h = ground (arith, h)

-- A request for a window that is open or closed opens or closes it if it is an on switch with the label of
-- opening or closing, and leaves its state alone otherwise; the two times are set to now exactly when the
-- state changes to theirs. The exit is forced by a delete and by nothing else. It is answered with `OK` if
-- it is an info or a delete request, or a switch with one of the two labels, in either position; a link
-- request that changes the parent is answered with `OK` where the parent is the same, and with the result
-- of the change of the pipe where it is not; every other request is refused as unexpected.
pub dispatch-IsMoved :
    (k : Kernel) (w : Window)
    → w.state ≤ 1
    → let c = w.request.command_code in
      let u = dispatch k w in
      IsMoved k w (opens c) (closes c) u
      × (u.force_exit ≡ (is_delete c || w.force_exit))
      × (u.response.response_code ≡ answer_code k w)
unfolding dispatch
dispatch-IsMoved k w h =
    let w' = record w {
      response = record w.response { command_code = w.request.command_code; response_code = ok };
    } in
    let info = create_info_response-IsSame k w' in
    let link = create_link_response-IsSame k w' in
    let asked = create_info_response-code k w' in
    let linked = create_link_response-code k w' refl in
    let switched = create_switch_response-IsMoved k w' h in ground (arith, asked, linked)
