-- ===== src/ReturnCodes.antt =====
-- Return codes of code/src/headers/return_codes.h, with the texts of code/src/return_codes.c.
pub mod Texts
pub mod Exits
use os_domotics.Prelude.{ℕ, Bool, not, ◌==◌, bit_and, ℤ, pos, negsuc, true, false}

abbrev pub ok : ℕ
ok = 0x00

abbrev pub error_mask : ℕ
error_mask = 0xF0

abbrev pub user_error : ℕ
user_error = 0x10

abbrev pub invalid_target_id : ℕ
invalid_target_id = 0x11

abbrev pub invalid_command : ℕ
invalid_command = 0x12

abbrev pub invalid_command_argument : ℕ
invalid_command_argument = 0x13

abbrev pub device_type_mismatch : ℕ
device_type_mismatch = 0x14

abbrev pub device_not_found : ℕ
device_not_found = 0x15

abbrev pub linking_parent_to_child : ℕ
linking_parent_to_child = 0x16

abbrev pub cannot_add_to_parent : ℕ
cannot_add_to_parent = 0x17

abbrev pub unexpected_shutdown : ℕ
unexpected_shutdown = 0x18

abbrev pub system_off : ℕ
system_off = 0x19

abbrev pub application_error : ℕ
application_error = 0x20

abbrev pub missing_id_argument : ℕ
missing_id_argument = 0x21

abbrev pub code_format_error : ℕ
code_format_error = 0x22

abbrev pub request_format_error : ℕ
request_format_error = 0x23

abbrev pub response_format_error : ℕ
response_format_error = 0x24

abbrev pub buffer_too_short : ℕ
buffer_too_short = 0x25

abbrev pub destination_id_mismatch : ℕ
destination_id_mismatch = 0x26

abbrev pub invalid_request_argument : ℕ
invalid_request_argument = 0x27

abbrev pub unexpected_command : ℕ
unexpected_command = 0x28

abbrev pub route_not_found : ℕ
route_not_found = 0x29

abbrev pub child_not_found : ℕ
child_not_found = 0x2a

abbrev pub child_error : ℕ
child_error = 0x2b

abbrev pub unable_to_create_windows : ℕ
unable_to_create_windows = 0x2c

abbrev pub registry_format_error : ℕ
registry_format_error = 0x2d

abbrev pub process_error : ℕ
process_error = 0x30

abbrev pub unable_to_allocate_heap : ℕ
unable_to_allocate_heap = 0x31

abbrev pub unable_to_set_sighandler : ℕ
unable_to_set_sighandler = 0x32

abbrev pub unable_to_fork : ℕ
unable_to_fork = 0x33

abbrev pub unable_to_exec : ℕ
unable_to_exec = 0x34

abbrev pub unable_to_send_signal : ℕ
unable_to_send_signal = 0x35

abbrev pub unable_to_wait : ℕ
unable_to_wait = 0x36

abbrev pub thread_error : ℕ
thread_error = 0x40

abbrev pub unable_to_create_thread : ℕ
unable_to_create_thread = 0x41

abbrev pub unable_to_join_thread : ℕ
unable_to_join_thread = 0x42

abbrev pub unable_to_cancel_thread : ℕ
unable_to_cancel_thread = 0x43

abbrev pub unable_to_lock_mutex : ℕ
unable_to_lock_mutex = 0x44

abbrev pub unable_to_unlock_mutex : ℕ
unable_to_unlock_mutex = 0x45

abbrev pub ipc_error : ℕ
ipc_error = 0x50

abbrev pub unable_to_open_pipe : ℕ
unable_to_open_pipe = 0x51

abbrev pub unable_to_create_pipe : ℕ
unable_to_create_pipe = 0x52

abbrev pub unable_to_close_pipe : ℕ
unable_to_close_pipe = 0x53

abbrev pub unable_to_remove_pipe : ℕ
unable_to_remove_pipe = 0x54

abbrev pub unable_to_read_pipe : ℕ
unable_to_read_pipe = 0x55

abbrev pub unable_to_write_pipe : ℕ
unable_to_write_pipe = 0x56

abbrev pub unexpected_end_of_file : ℕ
unexpected_end_of_file = 0x57

abbrev pub broken_pipe : ℕ
broken_pipe = 0x58

abbrev pub unable_to_set_fd_attr : ℕ
unable_to_set_fd_attr = 0x59

abbrev pub unable_to_restore_stderr : ℕ
unable_to_restore_stderr = 0x5a

abbrev pub file_error : ℕ
file_error = 0x60

abbrev pub unable_to_open_file : ℕ
unable_to_open_file = 0x61

abbrev pub unable_to_close_file : ℕ
unable_to_close_file = 0x62

abbrev pub unable_to_read_file : ℕ
unable_to_read_file = 0x63

abbrev pub unable_to_write_file : ℕ
unable_to_write_file = 0x64

abbrev pub unable_to_rename_file : ℕ
unable_to_rename_file = 0x65

abbrev pub unable_to_remove_file : ℕ
unable_to_remove_file = 0x66

-- `IS_ERROR`
abbrev pub is_error : ℕ → Bool
is_error e = not (bit_and e error_mask == ok)

abbrev pub is_user_error : ℕ → Bool
is_user_error e = bit_and e error_mask == user_error

abbrev pub is_application_error : ℕ → Bool
is_application_error e = bit_and e error_mask == application_error

abbrev pub is_process_error : ℕ → Bool
is_process_error e = bit_and e error_mask == process_error

abbrev pub is_thread_error : ℕ → Bool
is_thread_error e = bit_and e error_mask == thread_error

abbrev pub is_ipc_error : ℕ → Bool
is_ipc_error e = bit_and e error_mask == ipc_error

abbrev pub is_file_error : ℕ → Bool
is_file_error e = bit_and e error_mask == file_error

-- `IS_RETURN_ERROR`: a negative `int`.
abbrev pub is_return_error : ℤ → Bool
is_return_error (pos n) = false
is_return_error (negsuc n) = true
