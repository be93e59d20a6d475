-- ===== src/Commands.antt =====
-- Command codes and argument positions of code/src/headers/messages.h.
pub mod Kinds
use os_domotics.Prelude.{ℕ, Bool, ◌==◌, bit_and}

abbrev pub max_request_size : ℕ
max_request_size = 24

abbrev pub max_response_arguments : ℕ
max_response_arguments = 6

abbrev pub max_response_size : ℕ
max_response_size = 64

abbrev pub request_argument_flag : ℕ
request_argument_flag = 0b0100000

abbrev pub response_arguments_flag : ℕ
response_arguments_flag = 0b1000000

abbrev pub position_mask : ℕ
position_mask = 0b0000001

abbrev pub position_off : ℕ
position_off = 0b0000000

abbrev pub position_on : ℕ
position_on = 0b0000001

abbrev pub switch_mask : ℕ
switch_mask = 0b0000110

abbrev pub switch_power : ℕ
switch_power = 0b0000010

abbrev pub switch_open : ℕ
switch_open = 0b0000100

abbrev pub switch_close : ℕ
switch_close = 0b0000110

abbrev pub link_mask : ℕ
link_mask = 0b0000001

abbrev pub link_change_parent : ℕ
link_change_parent = 0b0000000

abbrev pub link_remove_child : ℕ
link_remove_child = 0b0000001

abbrev pub registry_mask : ℕ
registry_mask = 0b0000111

abbrev pub registry_begin : ℕ
registry_begin = 0b0000001

abbrev pub registry_end : ℕ
registry_end = 0b0000010

abbrev pub registry_delay : ℕ
registry_delay = 0b0000101

abbrev pub registry_thermostat : ℕ
registry_thermostat = 0b0000110

abbrev pub registry_percentage : ℕ
registry_percentage = 0b0000111

abbrev pub command_mask : ℕ
command_mask = 0b1111000

abbrev pub info : ℕ
info = 0b1001000

abbrev pub switch : ℕ
switch = 0b0010000

abbrev pub delete : ℕ
delete = 0b0011000

abbrev pub link : ℕ
link = 0b1101000

abbrev pub registry : ℕ
registry = 0b1110000

abbrev pub null_command : ℕ
null_command = 0b0000000

abbrev pub is_info : ℕ → Bool
is_info c = bit_and c command_mask == info

abbrev pub is_link : ℕ → Bool
is_link c = bit_and c command_mask == link

abbrev pub link_subcommand : ℕ → ℕ
link_subcommand c = bit_and c link_mask

abbrev pub is_switch : ℕ → Bool
is_switch c = bit_and c command_mask == switch

abbrev pub switch_label : ℕ → ℕ
switch_label c = bit_and c switch_mask

abbrev pub switch_position : ℕ → ℕ
switch_position c = bit_and c position_mask

abbrev pub is_registry : ℕ → Bool
is_registry c = bit_and c command_mask == registry

abbrev pub registry_subcommand : ℕ → ℕ
registry_subcommand c = bit_and c registry_mask

abbrev pub is_delete : ℕ → Bool
is_delete c = bit_and c command_mask == delete

abbrev pub has_request_argument : ℕ → Bool
has_request_argument c = bit_and c request_argument_flag == request_argument_flag

abbrev pub has_response_arguments : ℕ → Bool
has_response_arguments c = bit_and c response_arguments_flag == response_arguments_flag

abbrev pub state_argument : ℕ
state_argument = 0

abbrev pub parent_id_argument : ℕ
parent_id_argument = 0

abbrev pub child_id_argument : ℕ
child_id_argument = 0

abbrev pub registry_argument : ℕ
registry_argument = 0

abbrev pub additional_switch_argument : ℕ
additional_switch_argument = 0

abbrev pub additional_delete_argument : ℕ
additional_delete_argument = 0

abbrev pub open_time_argument : ℕ
open_time_argument = 1

abbrev pub on_time_argument : ℕ
on_time_argument = 1

abbrev pub device_type_argument : ℕ
device_type_argument = 1

abbrev pub autoclose_delay_argument : ℕ
autoclose_delay_argument = 2

abbrev pub begin_argument : ℕ
begin_argument = 2

abbrev pub additional_info_argument : ℕ
additional_info_argument = 2

abbrev pub fill_percentage_argument : ℕ
fill_percentage_argument = 3

abbrev pub end_argument : ℕ
end_argument = 3

abbrev pub thermostat_argument : ℕ
thermostat_argument = 4

abbrev pub temperature_argument : ℕ
temperature_argument = 5
