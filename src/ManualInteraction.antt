-- ===== src/ManualInteraction.antt =====
-- The program for manual interaction: code/src/manual_interaction.c. It sends one command to a device in the
-- place of the controller. Its arguments are the texts of the command line after its own name; `argc` is
-- one more than their number.
pub mod Agreement
use os_domotics.Commands.{
  info, is_switch, position_off, position_on, registry, registry_begin, registry_delay,
  registry_end, registry_percentage, registry_subcommand, registry_thermostat, switch, switch_close,
  switch_label, switch_open, switch_power,
}
use os_domotics.Controller.{UserCommand, info_command, same_text, set_command, switch_command}
use os_domotics.Devices.{
  is_bulb_like, is_control, is_empty, is_fridge, is_timer, max_delay, max_thermostat, min_delay,
  min_thermostat,
}
use os_domotics.Fridge.{number}
use os_domotics.Messages.{Request}
use os_domotics.Prelude.{
  Bool, Bytes, List, Option, [], bit_or, codes, if◌then◌else◌, ltb, negsuc, none, pos, some, u16, ℕ,
  ◌&&◌, ◌==◌, ◌||◌, ◌∷◌,
}
use os_domotics.ReturnCodes.{
  device_type_mismatch, invalid_command, invalid_command_argument, invalid_target_id, ok,
}
use os_domotics.Text.{string_to_unsigned}
use os_domotics.Utils.{parse_time}

-- The message code of a switch or a register: a command code with the bits of a word.
abbrev pub switch_label_word : Bytes → Option ℕ
switch_label_word w =
    if same_text w (codes "power")
    then some switch_power
    else if same_text w (codes "open")
    then some switch_open
    else if same_text w (codes "close")
    then some switch_close
    else none

abbrev pub switch_position_word : Bytes → Option ℕ
switch_position_word w =
    if same_text w (codes "on")
    then some position_on
    else if same_text w (codes "off")
    then some position_off
    else none

abbrev pub register_word : Bytes → Option ℕ
register_word w =
    if same_text w (codes "begin")
    then some registry_begin
    else if same_text w (codes "end")
    then some registry_end
    else if same_text w (codes "delay")
    then some registry_delay
    else if same_text w (codes "thermostat")
    then some registry_thermostat
    else if same_text w (codes "perc")
    then some registry_percentage
    else none

-- The arguments are those after the name of the command.
unfoldable pub parse_switch_command : UserCommand → List Bytes → UserCommand × ℕ
parse_switch_command u (label ∷ position ∷ []) =
    let u' = record u { code = switch_command } in
    elim (switch_label_word label) [
      | none ↦ (u', invalid_command_argument)
      | some bits ↦ elim (switch_position_word position) [
        | none ↦ (u', invalid_command_argument)
        | some bit ↦ (record u' { message_code = bit_or (bit_or switch bits) bit }, ok)
      ]
    ]
parse_switch_command u _ = (record u { code = switch_command }, invalid_command_argument)

-- The value of a register, an `int`, and whether it is refused.
abbrev pub out_of_range : ℕ → ℕ → Bool
out_of_range register n =
    register == registry_delay && (ltb n min_delay || ltb max_delay n)
    || (register == registry_thermostat && (ltb n min_thermostat || ltb max_thermostat n)
        || register == registry_percentage && ltb 100 n)

abbrev pub register_value : ℕ → Bytes → Option ℕ
register_value register word =
    let time : Option ℕ = elim (parse_time word) [ pos n ↦ some n | negsuc _ ↦ none ] in
    let number : Option ℕ = elim (string_to_unsigned word) [
      | pos n ↦ if out_of_range register n then none else some n
      | negsuc _ ↦ none
    ] in
    if register == registry_begin || register == registry_end then time else number

unfoldable pub parse_set_command : UserCommand → List Bytes → UserCommand × ℕ
parse_set_command u (label ∷ value ∷ []) =
    let u' = record u { code = set_command } in
    elim (register_word label) [
      | none ↦ (u', invalid_command_argument)
      | some register ↦
          let u'' = record u' { message_code = bit_or registry register } in
          elim (register_value register value) [
            | none ↦ (u'', invalid_command_argument)
            | some n ↦ (record u'' { argument = u16 n }, ok)
          ]
    ]
parse_set_command u _ = (record u { code = set_command }, invalid_command_argument)

-- The command word and what follows it.
unfoldable pub parse_command : UserCommand → Bytes → List Bytes → UserCommand × ℕ
parse_command u word arguments =
    let alone : UserCommand × ℕ = elim arguments [
      | [] ↦ (record u { code = info_command; message_code = info }, ok)
      | _ ∷ _ ↦ (u, invalid_command)
    ] in
    if same_text word (codes "switch")
    then parse_switch_command u arguments
    else if same_text word (codes "set")
    then parse_set_command u arguments
    else if same_text word (codes "info")
    then alone
    else (u, invalid_command)

unfoldable pub parse_user_command : UserCommand → List Bytes → UserCommand × ℕ
parse_user_command u [] = (u, invalid_target_id)
parse_user_command u (target ∷ arguments) = elim (string_to_unsigned target) [
  | negsuc _ ↦ (u, invalid_target_id)
  | pos n ↦
      let u' = record u { target = u16 n } in
      elim arguments [ [] ↦ (u', invalid_command) | word ∷ rest ↦ parse_command u' word rest ]
]

unfoldable pub check_user_command : UserCommand → ℕ → ℕ
check_user_command u type =
    if u.code == info_command
    then ok
    else if is_switch u.message_code
    then if is_control type && is_empty type
      then device_type_mismatch
      else if switch_label u.message_code == switch_power
      then if is_bulb_like type then ok else device_type_mismatch
      else if is_bulb_like type
      then device_type_mismatch
      else ok
    else if registry_subcommand u.message_code == registry_begin
        || registry_subcommand u.message_code == registry_end
    then if is_timer type then ok else device_type_mismatch
    else if is_fridge type
    then ok
    else device_type_mismatch

-- The request that `main` sends.
abbrev pub request_of : UserCommand → Request
request_of u = record {
  destination = u.target;
  command_code = u.message_code;
  argument = u.argument;
}
