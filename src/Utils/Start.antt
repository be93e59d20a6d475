-- ===== src/Utils/Start.antt =====
-- The start of a device: its id and its pipes, or the exit with an error.
use os_domotics.Devices.{controller_id}
use os_domotics.Prelude.{
  Bool, Bytes, List, Option, if◌then◌else◌, inl, inr, negsuc, none, not, pos, some, ℕ, ℤ, ◌||◌, ◌∷◌,
  ◌⊎◌,
}
use os_domotics.ReturnCodes.{
  is_error, is_return_error, missing_id_argument, unable_to_create_pipe, unable_to_open_pipe,
}
use os_domotics.Text.{c_string, string_to_unsigned}
use os_domotics.Utils.{Kernel, direction_down, direction_up, local_name}

-- `argv` holds the executable's name first.
unfoldable pub get_id_from_arguments : List Bytes → ℤ ⊎ ℕ
get_id_from_arguments (name ∷ argument ∷ rest) = elim (string_to_unsigned argument) [
  | pos n ↦ inl (pos n)
  | negsuc _ ↦ inr missing_id_argument
]
get_id_from_arguments _ = inr missing_id_argument

-- One open, with the error of its failure.
abbrev pub open_fifo : Kernel → ℕ → Bool → ℕ → ℤ ⊎ ℕ
open_fifo k device_id direction error =
    let (name, code) = local_name device_id direction in
    let fd = k.opened (c_string name) in
    if is_error code || is_return_error fd then inr error else inl fd

-- `made` is mkfifo; `has_children` tells whether there is a third pipe (`rcv_responses_fd != NULL`).
unfoldable pub start_device_fifos : Kernel → (Bytes → Bool) → ℕ → Bool → (ℤ × ℤ × Option ℤ) ⊎ ℕ
start_device_fifos k made device_id has_children =
    elim (open_fifo k device_id direction_down unable_to_open_pipe) [
      | inr error ↦ inr error
      | inl rcv_requests_fd ↦ elim (open_fifo k controller_id direction_up unable_to_open_pipe) [
        | inr error ↦ inr error
        | inl snd_responses_fd ↦
            let third : (ℤ × ℤ × Option ℤ) ⊎ ℕ =
              elim (open_fifo k device_id direction_up unable_to_create_pipe) [
                | inr error ↦ inr error
                | inl fd ↦ inl (rcv_requests_fd, snd_responses_fd, some fd)
              ] in
            if not has_children
            then inl (rcv_requests_fd, snd_responses_fd, none)
            else if made (c_string (local_name device_id direction_up).0)
            then third
            else inr unable_to_create_pipe
      ]
    ]
