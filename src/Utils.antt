-- ===== src/Utils.antt =====
-- code/src/utils.c without its string functions, which are in `Text`: names of pipes and executables,
-- times of the day, and the pipes of a device. The operating system answers through a `Kernel`.
pub mod Times
pub mod Names
pub mod Pipes
pub mod Start
use os_domotics.Devices.{is_bulb, is_control, is_hub, is_window}
use os_domotics.Prelude.{
  Bool, Bytes, Option, [], codes, false, if◌then◌else◌, leb, length, ltb, negsuc, none, not, pos,
  replicate, some, true, ℕ, ℤ, ◌%◌, ◌*◌, ◌++◌, ◌+◌, ◌-◌, ◌/◌, ◌==◌, ◌||◌, ◌∷◌,
}
use os_domotics.ReturnCodes.{
  buffer_too_short, code_format_error, is_error, is_return_error, ok, unable_to_close_pipe,
  unable_to_open_pipe, unable_to_remove_pipe,
}
use os_domotics.Text.{c_string, colon, print_unsigned, snprintf, string_to_unsigned, strtok}

-- What the system calls of one step answer. A descriptor is the `int` that `open` returns, negative on
-- failure; the other calls tell whether they succeeded, and `write` whether all the bytes were written.
-- `created` and `cancelled` are those of threads.
pub record Kernel : Type 0 where
  pub opened : Bytes → ℤ
  pub closed : ℤ → Bool
  pub written : ℤ → Bytes → Bool
  pub removed : Bytes → Bool
  pub now : ℕ
  pub locked : Bool
  pub unlocked : Bool
  pub allocated : Bool
  pub created : Bool
  pub cancelled : Bool

-- What a step does to the outside: bytes written to a descriptor, an error printed, and what only the
-- controller does, a line put on the terminal, SIGTERM sent to a process, a descriptor closed, a file removed.
pub data Effect : Type 0 where
  wrote : ℤ → Bytes → Effect
  printed : ℕ → Effect
  shown : Bytes → Effect
  signalled : ℕ → Effect
  closed_pipe : ℤ → Effect
  unlinked : Bytes → Effect

-- What `read` gives: how many bytes, and the buffer; or -1.
pub data Reading : Type 0 where
  got : ℕ → Bytes → Reading
  failed : Reading

abbrev pub pipe_name_max_length : ℕ
pipe_name_max_length = 24

abbrev pub executable_name_max_length : ℕ
executable_name_max_length = 16

abbrev pub time_size : ℕ
time_size = 16

abbrev pub direction_up : Bool
direction_up = false

abbrev pub direction_down : Bool
direction_down = true

abbrev pub fifo_text : ℕ → Bool → Bytes
fifo_text device_id direction =
    codes "./ipc/"
    ++ (print_unsigned device_id
        ++ (95 ∷ ((if direction then codes "down" else codes "up") ++ codes ".fifo")))

unfoldable pub create_fifo_name : ℕ → Bool → Bytes → ℕ → Bytes × ℕ
create_fifo_name device_id direction buffer size = (
  snprintf size (fifo_text device_id direction) buffer,
  if leb size (length (fifo_text device_id direction)) then buffer_too_short else ok,
)

-- A name in a local buffer, whose first contents do not matter.
abbrev pub local_name : ℕ → Bool → Bytes × ℕ
local_name device_id direction =
    create_fifo_name device_id direction (replicate pipe_name_max_length 0) pipe_name_max_length

-- The descriptor is assigned before it is tested.
unfoldable pub change_snd_responses_pipe : Kernel → ℕ → ℤ → ℤ × ℕ
change_snd_responses_pipe k parent_id old_fd =
    let (name, code) = local_name parent_id direction_up in
    let fd = k.opened (c_string name) in
    if is_error code
    then (old_fd, unable_to_open_pipe)
    else if is_return_error fd
    then (fd, unable_to_open_pipe)
    else if k.closed old_fd
    then (fd, ok)
    else (fd, unable_to_close_pipe)

-- The last error of the steps; `none` is `NO_FILE_DESCRIPTOR`.
unfoldable pub end_device_fifos : Kernel → ℕ → ℤ → ℤ → Option ℤ → ℕ
end_device_fifos k device_id rcv_requests_fd snd_responses_fd rcv_responses_fd =
    let first = if k.closed rcv_requests_fd then ok else unable_to_close_pipe in
    let second = if k.closed snd_responses_fd then first else unable_to_close_pipe in
    let (name, code) = local_name device_id direction_up in
    elim rcv_responses_fd [
      | none ↦ second
      | some fd ↦
          let third = if k.closed fd then second else unable_to_close_pipe in
          if is_error code || not (k.removed (c_string name)) then unable_to_remove_pipe else third
    ]

-- `minutes` is `int`, and so is the result; hours and minutes are those of a day.
abbrev pub whole_day : ℕ → ℕ → Bytes → ℤ
whole_day hours minutes rest = elim (strtok colon rest) [
  | none ↦ pos (minutes + hours * 60)
  | some _ ↦ negsuc (code_format_error - 1)
]

abbrev pub minutes_of_day : ℕ → ℤ → Bytes → ℤ
minutes_of_day hours (negsuc _) rest = negsuc (code_format_error - 1)
minutes_of_day hours (pos minutes) rest =
    if leb 60 minutes then negsuc (code_format_error - 1) else whole_day hours minutes rest

abbrev pub after_hours : ℤ → Bytes → ℤ
after_hours (negsuc _) rest = negsuc (code_format_error - 1)
after_hours (pos hours) rest =
    if leb 24 hours then negsuc (code_format_error - 1) else elim (strtok colon rest) [
      | none ↦ negsuc (code_format_error - 1)
      | some (token, rest') ↦
          if length token == 2
          then minutes_of_day hours (string_to_unsigned token) rest'
          else negsuc (code_format_error - 1)
    ]

unfoldable pub parse_time : Bytes → ℤ
parse_time time = elim (strtok colon time) [
  | none ↦ negsuc (code_format_error - 1)
  | some (token, rest) ↦ after_hours (string_to_unsigned token) rest
]

abbrev pub time_text : ℕ → Bytes
time_text minutes =
    print_unsigned (minutes / 60)
    ++ (colon
        ∷ ((if ltb (minutes % 60) 10 then codes "0" else []) ++ print_unsigned (minutes % 60)))

unfoldable pub format_time : Bytes → ℕ → Bytes
format_time time minutes = snprintf time_size (time_text minutes) time

unfoldable pub executable_name : ℕ → Bytes
executable_name type =
    if is_control type
    then if is_hub type then codes "hub" else codes "timer"
    else if is_bulb type
    then codes "bulb"
    else if is_window type
    then codes "window"
    else codes "fridge"

-- The name and the path.
unfoldable pub create_executable_name : ℕ → Bytes → Bytes × Bytes
unfolding executable_name
create_executable_name type path = (
  executable_name type,
  snprintf executable_name_max_length (codes "./bin/" ++ executable_name type) path,
)
