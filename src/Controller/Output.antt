-- ===== src/Controller/Output.antt =====
-- What the controller shows of a response: `format_info_user_message`, `format_set_user_message` and
-- `output_response`. A text that does not fit in its buffer is cut there, as snprintf does.
use os_domotics.Commands.{
  additional_info_argument, autoclose_delay_argument, begin_argument, end_argument,
  fill_percentage_argument, open_time_argument, registry_argument, registry_begin, registry_delay,
  registry_end, registry_percentage, registry_subcommand, registry_thermostat, state_argument,
  temperature_argument, thermostat_argument,
}
use os_domotics.Devices.{
  is_bulb, is_bulb_like, is_fridge, is_fridge_like, is_hub, is_window, is_window_like,
  state_manual_override, state_on, state_open, undefined_state,
}
use os_domotics.Messages.{Response}
use os_domotics.Prelude.{
  Bytes, [], codes, get_or, if◌then◌else◌, ltb, replicate, take, u8, ℕ, ◌%◌, ◌++◌, ◌+◌, ◌-◌, ◌/◌,
  ◌==◌, ◌∷◌,
}
use os_domotics.Text.{c_string, print_unsigned}
use os_domotics.Utils.{format_time, time_size}

abbrev pub user_message_size : ℕ
user_message_size = 256

abbrev pub response_status_size : ℕ
response_status_size = 128

abbrev pub child_error_size : ℕ
child_error_size = 32

-- The text that snprintf leaves in a buffer of a size.
abbrev pub printed_in : ℕ → Bytes → Bytes
printed_in size text = take (size - 1) text

-- One hexadecimal digit, and `%02x` of a byte or a word: two digits, and more where they are needed.
abbrev pub hex_digit : ℕ → ℕ
hex_digit n = if ltb n 10 then 48 + n else 87 + n

unfoldable pub print_hex : ℕ → Bytes
print_hex n =
    (if ltb n 4096 then [] else hex_digit (n / 4096) ∷ [])
    ++ ((if ltb n 256 then [] else hex_digit (n / 256 % 16) ∷ [])
        ++ hex_digit (n / 16 % 16) ∷ hex_digit (n % 16) ∷ [])

-- `"°C"` in UTF-8
abbrev pub celsius : Bytes
celsius = 194 ∷ 176 ∷ 67 ∷ []

unfoldable pub state_string : ℕ → ℕ → Bytes
state_string type state =
    if state == state_manual_override
    then codes "manual override"
    else if state == undefined_state
    then codes "undefined"
    else if is_bulb_like type
    then if state == state_on then codes "on" else codes "off"
    else if state == state_open
    then codes "open"
    else codes "closed"

-- `", child error 0x%02x"`
abbrev pub child_error_text : ℕ → Bytes
child_error_text code = printed_in child_error_size (codes ", child error 0x" ++ print_hex code)

abbrev pub response_argument : Response → ℕ → ℕ
response_argument r i = get_or r.arguments i 0

-- `"%.1f"` of tenths of a degree.
abbrev pub tenths : ℕ → Bytes
tenths n = print_unsigned (n / 10) ++ 46 ∷ print_unsigned (n % 10)

abbrev pub time_string : ℕ → Bytes
time_string minutes = c_string (format_time (replicate time_size 0) minutes)

abbrev pub fridge_message : Response → Bytes → Bytes
fridge_message r state =
    codes "state: "
    ++ (state
        ++ (codes ", last time open: "
            ++ (print_unsigned (response_argument r open_time_argument)
                ++ (codes "s, delay: "
                    ++ (print_unsigned (response_argument r autoclose_delay_argument)
                        ++ (codes "s, percentage: "
                            ++ (print_unsigned (response_argument r fill_percentage_argument)
                                ++ (codes "%, thermostat: "
                                    ++ (print_unsigned (response_argument r thermostat_argument)
                                        ++ (celsius
                                            ++ (codes ", temperature: "
                                                ++ (tenths
                                                      (response_argument r temperature_argument)
                                                    ++ celsius))))))))))))

-- What a hub and a timer have in common.
abbrev pub control_message : ℕ → Bytes → ℕ → Bytes
control_message type state time = printed_in response_status_size (
    codes "state: "
    ++ (state
        ++ (if is_bulb_like type
            then codes ", max last time on: " ++ (print_unsigned time ++ codes "m")
            else if is_window_like type
            then codes ", max last time open: " ++ (print_unsigned time ++ codes "m")
            else if is_fridge_like type
            then codes ", max last time open: " ++ (print_unsigned time ++ codes "s")
            else [])))

unfoldable pub format_info_user_message : Response → ℕ → Bytes
unfolding state_string
format_info_user_message r type =
    let state = state_string type (u8 (response_argument r state_argument)) in
    let time = response_argument r open_time_argument in
    printed_in user_message_size (
      if is_bulb type
      then codes "state: "
        ++ (state ++ (codes ", last time on: " ++ (print_unsigned time ++ codes "m")))
      else if is_window type
      then codes "state: "
        ++ (state ++ (codes ", last time open: " ++ (print_unsigned time ++ codes "m")))
      else if is_fridge type
      then fridge_message r state
      else if is_hub type
      then control_message type state time
        ++ (if r.arguments_size == 3
            then child_error_text (response_argument r additional_info_argument)
            else [])
      else control_message type state time
        ++ (codes ", begin: "
            ++ (time_string (response_argument r begin_argument)
                ++ (codes ", end: " ++ time_string (response_argument r end_argument)))))

-- The label and the value of a register.
unfoldable pub register_strings : ℕ → ℕ → Bytes × Bytes
register_strings code value =
    if registry_subcommand code == registry_begin
    then (codes "begin", time_string value)
    else if registry_subcommand code == registry_end
    then (codes "end", time_string value)
    else if registry_subcommand code == registry_delay
    then (codes "delay", print_unsigned value ++ codes "s")
    else if registry_subcommand code == registry_percentage
    then (codes "percentage", print_unsigned value ++ codes "%")
    else if registry_subcommand code == registry_thermostat
    then (codes "thermostat", print_unsigned value ++ celsius)
    else (codes "unknown", codes "undefined")

unfoldable pub format_set_user_message : Response → Bytes
unfolding register_strings
format_set_user_message r =
    let (label, value) = register_strings r.command_code (response_argument r registry_argument) in
    printed_in user_message_size
      (codes "set registry " ++ (label ++ (codes " to " ++ printed_in 16 value)))
