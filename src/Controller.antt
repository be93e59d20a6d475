-- ===== src/Controller.antt =====
-- The controller: code/src/controller.c, of which the commands of the user are here. This file parses them;
-- `Controller/Check` compares them with the routing table, and `Controller/Execute` sends them.
pub mod Check
pub mod Execute
pub mod Cycles
pub mod Parsed
pub mod Processes
pub mod Updates
pub mod Deletions
pub mod Deleted
pub mod Output
pub mod Responses
pub mod Dispatch
pub mod Exit
pub mod Ending
pub mod Shutdown
pub mod Cleared
pub mod Ended
pub mod Burial
pub mod Lacking
pub mod Buried
pub mod Session
pub mod Typed
use os_domotics.Commands.{
  delete, info, link, link_change_parent, position_off, position_on, registry, registry_begin,
  registry_delay, registry_end, switch, switch_close, switch_open, switch_power,
}
use os_domotics.Devices.{
  bulb_device, fridge_device, hub_device, max_delay, min_delay, timer_device, window_device,
}
use os_domotics.Prelude.{
  Bool, Bytes, Option, [], bit_and, bit_or, codes, false, if◌then◌else◌, ltb, negsuc, none, pos,
  some, true, u16, ℕ, ◌&&◌, ◌==◌, ◌||◌, ◌∷◌,
}
use os_domotics.ReturnCodes.{
  invalid_command, invalid_command_argument, invalid_target_id, is_error, ok,
}
use os_domotics.Text.{space, string_to_unsigned, strtok}
use os_domotics.Utils.{parse_time}

-- The commands of code/src/headers/utils.h.
abbrev pub message_flag : ℕ
message_flag = 0b1000

abbrev pub add_command : ℕ
add_command = 0b0000

abbrev pub list_command : ℕ
list_command = 0b0001

abbrev pub switch_main_command : ℕ
switch_main_command = 0b0010

abbrev pub sleep_command : ℕ
sleep_command = 0b0011

abbrev pub exit_command : ℕ
exit_command = 0b0100

abbrev pub info_command : ℕ
info_command = 0b1000

abbrev pub switch_command : ℕ
switch_command = 0b1001

abbrev pub set_command : ℕ
set_command = 0b1010

abbrev pub link_command : ℕ
link_command = 0b1011

abbrev pub delete_command : ℕ
delete_command = 0b1100

abbrev pub is_message : ℕ → Bool
is_message c = bit_and c message_flag == message_flag

abbrev pub main_off : ℕ
main_off = 0

abbrev pub main_on : ℕ
main_on = 1

pub record UserCommand : Type 0 where
  pub target : ℕ
  pub code : ℕ
  pub message_code : ℕ
  pub argument : ℕ

-- `strcmp(a, b) == 0`
unfoldable pub same_text : Bytes → Bytes → Bool
same_text [] [] = true
same_text [] (d ∷ b) = false
same_text (c ∷ a) [] = false
same_text (c ∷ a) (d ∷ b) = c == d && same_text a b

-- The type that a word names, and the bits of a label or a position.
abbrev pub type_word : Bytes → Option ℕ
type_word w =
    if same_text w (codes "bulb")
    then some bulb_device
    else if same_text w (codes "window")
    then some window_device
    else if same_text w (codes "fridge")
    then some fridge_device
    else if same_text w (codes "hub")
    then some hub_device
    else if same_text w (codes "timer")
    then some timer_device
    else none

-- The parsers take what `last` points at, and give what it points at after them.
unfoldable pub parse_add_command : UserCommand → Bytes → UserCommand × Bytes × ℕ
parse_add_command u last = elim (strtok space last) [
  | none ↦ (u, [], invalid_command_argument)
  | some (word, rest) ↦ elim (type_word word) [
    | none ↦ (u, rest, invalid_command_argument)
    | some type ↦ (record u { argument = type; code = add_command }, rest, ok)
  ]
]

-- A token that is a number; it is assigned to 16 bits without a test.
abbrev pub number_token : Bytes → Option (ℕ × Bytes)
number_token last = elim (strtok space last) [
  | none ↦ none
  | some (word, rest) ↦ elim (string_to_unsigned word) [
    | pos n ↦ some (u16 n, rest)
    | negsuc _ ↦ none
  ]
]

unfoldable pub parse_sleep_command : UserCommand → Bytes → UserCommand × Bytes × ℕ
parse_sleep_command u last = elim (number_token last) [
  | none ↦ (u, [], invalid_command_argument)
  | some (seconds, rest) ↦ (record u { code = sleep_command; argument = seconds }, rest, ok)
]

unfoldable pub parse_command_target : UserCommand → Bytes → UserCommand × Bytes × ℕ
parse_command_target u last = elim (number_token last) [
  | none ↦ (u, [], invalid_target_id)
  | some (target, rest) ↦ (record u { target = target }, rest, ok)
]

-- The position of a switch.
unfoldable pub parse_position : UserCommand → Bytes → UserCommand × Bytes × ℕ
parse_position u last = elim (strtok space last) [
  | none ↦ (u, [], invalid_command_argument)
  | some (word, rest) ↦
      if same_text word (codes "on")
      then (
        record u {
          argument = if u.code == switch_main_command then main_on else u.argument;
          message_code = bit_or u.message_code position_on;
        },
        rest,
        ok,
      )
      else if same_text word (codes "off")
      then (record u { message_code = bit_or u.message_code position_off }, rest, ok)
      else (u, rest, invalid_command_argument)
]

unfoldable pub parse_switch_command : UserCommand → Bytes → UserCommand × Bytes × ℕ
parse_switch_command u last =
    let labelled =
      λ (bits : ℕ). record u { code = switch_command; message_code = bit_or switch bits } in
    let main = record u {
      code = switch_main_command;
      message_code = switch;
      argument = main_off;
    } in
    elim (strtok space last) [
      | none ↦ (labelled 0, [], invalid_command_argument)
      | some (word, rest) ↦
          if same_text word (codes "power")
          then parse_position (labelled switch_power) rest
          else if same_text word (codes "open")
          then parse_position (labelled switch_open) rest
          else if same_text word (codes "close")
          then parse_position (labelled switch_close) rest
          else if same_text word (codes "main")
          then parse_position main rest
          else (labelled 0, rest, invalid_command_argument)
    ]

-- The value of a register, as an `int`: the delay has its limits, the two times are those of a day.
abbrev pub delay_value : Bytes → Option ℕ
delay_value word = elim (string_to_unsigned word) [
  | negsuc _ ↦ none
  | pos n ↦ if ltb n min_delay || ltb max_delay n then none else some n
]

abbrev pub time_value : Bytes → Option ℕ
time_value word = elim (parse_time word) [ negsuc _ ↦ none | pos n ↦ some n ]

unfoldable pub set_value : UserCommand → ℕ → Option ℕ → Bytes → UserCommand × Bytes × ℕ
set_value u bits none rest =
    (record u { message_code = bit_or registry bits }, rest, invalid_command_argument)
set_value u bits (some n) rest =
    (record u { message_code = bit_or registry bits; argument = u16 n }, rest, ok)

unfoldable pub parse_set_command : UserCommand → Bytes → UserCommand × Bytes × ℕ
parse_set_command u last =
    let u' = record u { code = set_command; message_code = registry } in
    elim (strtok space last) [
      | none ↦ (u', [], invalid_command_argument)
      | some (label, rest) ↦ elim (strtok space rest) [
        | none ↦ (u', [], invalid_command_argument)
        | some (value, rest') ↦
            if same_text label (codes "delay")
            then set_value u' registry_delay (delay_value value) rest'
            else if same_text label (codes "begin")
            then set_value u' registry_begin (time_value value) rest'
            else if same_text label (codes "end")
            then set_value u' registry_end (time_value value) rest'
            else (u', rest', invalid_command_argument)
      ]
    ]

unfoldable pub parse_link_command : UserCommand → Bytes → UserCommand × Bytes × ℕ
parse_link_command u last = elim (strtok space last) [
  | none ↦ (u, [], invalid_command)
  | some (to, rest) ↦
      let linked : UserCommand × Bytes × ℕ = elim (number_token rest) [
        | none ↦ (u, rest, invalid_command_argument)
        | some (parent, rest') ↦ (
          record u {
            code = link_command;
            message_code = bit_or link link_change_parent;
            argument = parent;
          },
          rest',
          ok,
        )
      ] in
      if same_text to (codes "to") then linked else (u, rest, invalid_command)
]

-- A command that has a target.
unfoldable pub parse_targeted : UserCommand → Bytes → Bytes → UserCommand × Bytes × ℕ
parse_targeted u token last =
    let (u', rest, code) = parse_command_target u last in
    if same_text token (codes "info")
    then (record u' { code = info_command; message_code = info }, rest, code)
    else if same_text token (codes "switch")
    then if is_error code then (u', rest, code) else parse_switch_command u' rest
    else if same_text token (codes "set")
    then if is_error code then (u', rest, code) else parse_set_command u' rest
    else if same_text token (codes "link")
    then if is_error code then (u', rest, code) else parse_link_command u' rest
    else if same_text token (codes "del")
    then (record u' { code = delete_command; message_code = delete }, rest, code)
    else (u', rest, invalid_command)

unfoldable pub parse_command_word : UserCommand → Bytes → Bytes → UserCommand × Bytes × ℕ
parse_command_word u token last =
    if same_text token (codes "add")
    then parse_add_command u last
    else if same_text token (codes "list")
    then (record u { code = list_command }, last, ok)
    else if same_text token (codes "sleep")
    then parse_sleep_command u last
    else if same_text token (codes "exit")
    then (record u { code = exit_command }, last, ok)
    else parse_targeted u token last

-- `CHECK_NO_OTHER_ARGUMENTS`
abbrev pub check_no_other_arguments : Bytes → ℕ
check_no_other_arguments last = elim (strtok space last) [
  | none ↦ ok
  | some _ ↦ invalid_command_argument
]

unfoldable pub parse_user_command : UserCommand → Bytes → UserCommand × ℕ
parse_user_command u text = elim (strtok space text) [
  | none ↦ (u, invalid_command)
  | some (token, last) ↦
      let (u', rest, code) = parse_command_word u token last in
      (u', if is_error code then code else check_no_other_arguments rest)
]
