-- ===== src/Devices.antt =====
-- Device types and states of code/src/headers/devices.h, and code/src/devices.c.
pub mod Names
use os_domotics.Prelude.{ℕ, Bool, ◌==◌, bit_and, if◌then◌else◌, Bytes, codes, ◌++◌, ◌∷◌}

abbrev pub no_id : ℕ
no_id = 0xFFFF

abbrev pub controller_id : ℕ
controller_id = 0

abbrev pub leaf_device_mask : ℕ
leaf_device_mask = 0b0011

abbrev pub bulb_device : ℕ
bulb_device = 0b0001

abbrev pub window_device : ℕ
window_device = 0b0010

abbrev pub fridge_device : ℕ
fridge_device = 0b0011

abbrev pub control_device_flag : ℕ
control_device_flag = 0b1000

abbrev pub control_device_mask : ℕ
control_device_mask = 0b1100

abbrev pub hub_device : ℕ
hub_device = 0b1000

abbrev pub timer_device : ℕ
timer_device = 0b1100

abbrev pub is_leaf : ℕ → Bool
is_leaf t = bit_and t control_device_flag == 0b0000

abbrev pub is_bulb : ℕ → Bool
is_bulb t = t == bulb_device

abbrev pub is_window : ℕ → Bool
is_window t = t == window_device

abbrev pub is_fridge : ℕ → Bool
is_fridge t = t == fridge_device

abbrev pub is_control : ℕ → Bool
is_control t = bit_and t control_device_flag == control_device_flag

abbrev pub is_bulb_like : ℕ → Bool
is_bulb_like t = bit_and t leaf_device_mask == bulb_device

abbrev pub is_window_like : ℕ → Bool
is_window_like t = bit_and t leaf_device_mask == window_device

abbrev pub is_fridge_like : ℕ → Bool
is_fridge_like t = bit_and t leaf_device_mask == fridge_device

abbrev pub is_hub : ℕ → Bool
is_hub t = bit_and t control_device_mask == hub_device

abbrev pub is_timer : ℕ → Bool
is_timer t = bit_and t control_device_mask == timer_device

abbrev pub is_empty : ℕ → Bool
is_empty t = bit_and t leaf_device_mask == 0b0000

abbrev pub child_type : ℕ → ℕ
child_type t = bit_and t leaf_device_mask

abbrev pub state_closed : ℕ
state_closed = 0

abbrev pub state_off : ℕ
state_off = 0

abbrev pub state_open : ℕ
state_open = 1

abbrev pub state_on : ℕ
state_on = 1

abbrev pub state_manual_override : ℕ
state_manual_override = 2

abbrev pub undefined_state : ℕ
undefined_state = 3

abbrev pub min_delay : ℕ
min_delay = 5

abbrev pub max_delay : ℕ
max_delay = 180

abbrev pub min_thermostat : ℕ
min_thermostat = 2

abbrev pub max_thermostat : ℕ
max_thermostat = 6

abbrev pub max_fill_percentage : ℕ
max_fill_percentage = 100

-- `leaf` in `format_device_type`
unfoldable pub leaf_name : ℕ → Bytes
leaf_name t =
    if is_bulb_like t
    then codes "Bulb"
    else if is_window_like t
    then codes "Window"
    else if is_fridge_like t
    then codes "Fridge"
    else codes "Empty"

-- `control` in `format_device_type`, which is read only when one of the two tests holds
unfoldable pub control_name : ℕ → Bytes
control_name t = if is_hub t then codes "Hub" else codes "Timer"

-- The text before its terminator.
unfoldable pub format_device_type : ℕ → Bytes
unfolding leaf_name control_name
format_device_type t = if is_control t then leaf_name t ++ 32 ∷ control_name t else leaf_name t
