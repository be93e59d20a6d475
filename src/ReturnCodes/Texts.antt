-- ===== src/ReturnCodes/Texts.antt =====
-- `set_error_type_info` of code/src/return_codes.c: the two texts that an error is printed with.
use os_domotics.Prelude.{ℕ, String, List, [], ◌∷◌, ◌==◌, if◌then◌else◌}
use os_domotics.ReturnCodes

unfoldable pub error_type : ℕ → String
error_type e =
    if ReturnCodes.is_user_error e
    then "User"
    else if ReturnCodes.is_application_error e
    then "Application"
    else if ReturnCodes.is_process_error e
    then "Process related"
    else if ReturnCodes.is_thread_error e
    then "Thread related"
    else if ReturnCodes.is_ipc_error e
    then "IPC related"
    else if ReturnCodes.is_file_error e
    then "File related"
    else "Unknown"

-- The cases of the `switch`, in order.
unfoldable pub error_infos : List (ℕ × String)
error_infos =
    (ReturnCodes.invalid_target_id, "invalid target ID")
    ∷ (ReturnCodes.invalid_command, "invalid command")
    ∷ (ReturnCodes.invalid_command_argument, "invalid command argument")
    ∷ (ReturnCodes.device_type_mismatch, "device type mismatch")
    ∷ (ReturnCodes.device_not_found, "device not found")
    ∷ (ReturnCodes.linking_parent_to_child, "linking parent to child")
    ∷ (ReturnCodes.cannot_add_to_parent, "cannot add to parent")
    ∷ (ReturnCodes.unexpected_shutdown, "unexpected shutdown")
    ∷ (ReturnCodes.system_off, "system off")
    ∷ (ReturnCodes.missing_id_argument, "missing ID argument")
    ∷ (ReturnCodes.code_format_error, "code format error")
    ∷ (ReturnCodes.request_format_error, "request format error")
    ∷ (ReturnCodes.response_format_error, "response format error")
    ∷ (ReturnCodes.buffer_too_short, "buffer too short")
    ∷ (ReturnCodes.destination_id_mismatch, "destination ID mismatch")
    ∷ (ReturnCodes.invalid_request_argument, "invalid request argument")
    ∷ (ReturnCodes.unexpected_command, "unexpected command")
    ∷ (ReturnCodes.route_not_found, "route not found")
    ∷ (ReturnCodes.child_not_found, "child not found")
    ∷ (ReturnCodes.child_error, "child error")
    ∷ (ReturnCodes.unable_to_create_windows, "unable to create windows")
    ∷ (ReturnCodes.registry_format_error, "registry format error")
    ∷ (ReturnCodes.unable_to_allocate_heap, "unable to allocate heap")
    ∷ (ReturnCodes.unable_to_set_sighandler, "unable to set signal handler")
    ∷ (ReturnCodes.unable_to_fork, "unable to fork")
    ∷ (ReturnCodes.unable_to_exec, "unable to exec")
    ∷ (ReturnCodes.unable_to_send_signal, "unable to send signal")
    ∷ (ReturnCodes.unable_to_wait, "unable to wait")
    ∷ (ReturnCodes.unable_to_create_thread, "unable to create thread")
    ∷ (ReturnCodes.unable_to_cancel_thread, "unable to cancel thread")
    ∷ (ReturnCodes.unable_to_join_thread, "unable to join thread")
    ∷ (ReturnCodes.unable_to_lock_mutex, "unable to lock mutex")
    ∷ (ReturnCodes.unable_to_unlock_mutex, "unable to unlock mutex")
    ∷ (ReturnCodes.unable_to_open_pipe, "unable to open pipe")
    ∷ (ReturnCodes.unable_to_create_pipe, "unable to create pipe")
    ∷ (ReturnCodes.unable_to_close_pipe, "unable to close pipe")
    ∷ (ReturnCodes.unable_to_remove_pipe, "unable to remove pipe")
    ∷ (ReturnCodes.unable_to_read_pipe, "unable to read pipe")
    ∷ (ReturnCodes.unable_to_write_pipe, "unable to write pipe")
    ∷ (ReturnCodes.broken_pipe, "broken pipe")
    ∷ (ReturnCodes.unexpected_end_of_file, "unexpected end of file")
    ∷ (ReturnCodes.unable_to_set_fd_attr, "unable to set fd attributes")
    ∷ (ReturnCodes.unable_to_restore_stderr, "unable to restore stderr")
    ∷ (ReturnCodes.unable_to_open_file, "unable to open file")
    ∷ (ReturnCodes.unable_to_close_file, "unable to close file")
    ∷ (ReturnCodes.unable_to_read_file, "unable to read file")
    ∷ (ReturnCodes.unable_to_write_file, "unable to write file")
    ∷ (ReturnCodes.unable_to_rename_file, "unable to rename file")
    ∷ (ReturnCodes.unable_to_remove_file, "unable to remove file")
    ∷ []

-- The first case with the code, or `default`.
unfoldable pub select : ℕ → List (ℕ × String) → String
select e [] = "no additional information"
select e ((code, info) ∷ rest) = if code == e then info else select e rest

unfoldable pub error_info : ℕ → String
unfolding select error_infos
error_info e = select e error_infos
