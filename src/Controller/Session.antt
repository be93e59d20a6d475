-- ===== src/Controller/Session.antt =====
-- The commands of a session: those of the scenario file, and those typed by the user, which `input` reads
-- from the standard input or from the window of ncurses. The n-th command meets the n-th system of a sequence. `none` means that a walk
-- over the table has not ended within the fuel, or more commands than `turns` were read.
use os_domotics.Controller.Check.{Controller, id}
use os_domotics.Controller.Dispatch.{process_user_command}
use os_domotics.Controller.Processes.{System}
use os_domotics.Controller.Responses.{complaint}
use os_domotics.Controller.Shutdown.{handle_shutdown}
use os_domotics.Prelude.{
  Bool, Bytes, List, Option, [], codes, false, if◌then◌else◌, negsuc, none, pos, some, suc, true,
  zero, ℕ, ℤ, ◌++◌, ◌-◌, ◌==◌, ◌∷◌,
}
use os_domotics.ReturnCodes.{
  buffer_too_short, ok, unable_to_close_file, unable_to_create_thread, unable_to_join_thread,
  unable_to_open_file, unable_to_read_file,
}
use os_domotics.Routing.Registry.{read_line, without_line_feed}
use os_domotics.Text.{c_string, print_unsigned}
use os_domotics.Utils.{Effect, printed, shown}

abbrev pub user_buffer_size : ℕ
user_buffer_size = 64

-- What the reads of the standard input give: a byte, or a failure. The end of the list is the end of the file.
abbrev pub Reads : Type 0
Reads = List (Option ℕ)

-- What is typed: with ncurses, what each call of wgetnstr returns and the text that it leaves in the buffer, and
-- without them the standard input.
pub record Terminal : Type 0 where
  pub windows : ℕ → ℤ × Bytes
  pub stdin : Reads

-- How a loop of `input` ends: with some bytes, and whether a line feed came; at the end of the file; or at a
-- failed read.
pub data Taken : Type 0 where
  taken : Bytes → Bool → Reads → Taken
  no_more : Taken
  broken_off : Reads → Taken

-- The first loop of `input`: `room` bytes at most, up to a line feed.
unfoldable pub take_line : ℕ → Reads → Taken
take_line zero stdin = taken [] false stdin
take_line (suc room) [] = no_more
take_line (suc room) (none ∷ stdin) = broken_off stdin
take_line (suc room) (some c ∷ stdin) =
    let rest : Taken = elim (take_line room stdin) [
      | taken line new_line stdin' ↦ taken (c ∷ line) new_line stdin'
      | no_more ↦ no_more
      | broken_off stdin' ↦ broken_off stdin'
    ] in
    if c == 10 then taken [] true stdin else rest

-- The second loop: the bytes of a line that is too long.
unfoldable pub skip_line : Reads → Taken
skip_line [] = no_more
skip_line (none ∷ stdin) = broken_off stdin
skip_line (some c ∷ stdin) = if c == 10 then taken [] true stdin else skip_line stdin

-- What `input` gives: a line, an error, or the end of the file; and what is left to be typed.
pub data Input : Type 0 where
  line_of : Bytes → Terminal → Input
  failed_input : ℕ → Terminal → Input
  end_of_file : Input

-- The result of wgetnstr: `ERR`, which is -1, `OK`, or a key that is no text.
abbrev pub window_line : ℤ → Bytes → Terminal → Input
window_line (negsuc zero) buffer terminal = end_of_file
window_line (pos zero) buffer terminal = line_of (c_string buffer) terminal
window_line _ buffer terminal = failed_input unable_to_read_file terminal

abbrev pub after_skip : Taken → Terminal → Input
after_skip (taken _ _ stdin) terminal =
    failed_input buffer_too_short (record terminal { stdin = stdin })
after_skip no_more terminal = end_of_file
after_skip (broken_off stdin) terminal =
    failed_input unable_to_read_file (record terminal { stdin = stdin })

abbrev pub standard_line : Taken → Terminal → Input
standard_line (taken line true stdin) terminal = line_of line (record terminal { stdin = stdin })
standard_line (taken line false stdin) terminal = after_skip (skip_line stdin) terminal
standard_line no_more terminal = end_of_file
standard_line (broken_off stdin) terminal =
    failed_input unable_to_read_file (record terminal { stdin = stdin })

-- The buffer has `size` cells, at least two. `redirect` tells whether ncurses are used.
unfoldable pub input : Bool → ℕ → Terminal → Input
unfolding take_line skip_line
input redirect size terminal =
    let (n, buffer) = terminal.windows 0 in
    if redirect
    then window_line n buffer (record terminal { windows = λ m. terminal.windows (suc m) })
    else standard_line (take_line (size - 1) terminal.stdin) terminal

-- The loop of `execute_scenario`: a line is read even when it is not executed since the exit is forced.
unfoldable pub scenario_loop :
    ℕ → ℕ → (ℕ → System) → Bytes → Controller → Option (Controller × List Effect)
scenario_loop turns fuel systems [] c = some (c, [])
scenario_loop zero fuel systems (b ∷ text) c = none
scenario_loop (suc turns) fuel systems (b ∷ text) c =
    let (line, rest) = read_line (user_buffer_size - 1) (b ∷ text) in
    let command = without_line_feed (c_string line) in
    let executed : Option (Controller × List Effect) =
      elim (process_user_command fuel (systems 0) command c) [
        | none ↦ none
        | some (c', _, effects) ↦ elim (scenario_loop turns fuel (λ n. systems (suc n)) rest c') [
          | none ↦ none
          | some (c'', more) ↦ some (c'', effects ++ more)
        ]
      ] in
    if c.force_exit then some (c, []) else executed

-- The scenario file is left out where there is none (`none`), and an error where it cannot be opened.
unfoldable pub execute_scenario :
    ℕ → ℕ → (ℕ → System) → Option Bytes → Controller → Option (Controller × ℕ × List Effect)
unfolding scenario_loop
execute_scenario turns fuel systems none c = some (c, ok, [])
execute_scenario turns fuel systems (some text) c =
    let files = (systems 0).files in
    let executed : Option (Controller × ℕ × List Effect) =
      elim (scenario_loop turns fuel systems text c) [
        | none ↦ none
        | some (c', effects) ↦ some (c', if files.shut then ok else unable_to_close_file, effects)
      ] in
    if files.opened then executed else some (c, unable_to_open_file, [])

-- The loop of `main`. The second number is `error_code`, which the last command leaves.
unfoldable pub main_loop :
    ℕ → ℕ → (ℕ → System) → Terminal → Controller → ℕ → Option (Controller × ℕ × List Effect)
main_loop zero fuel systems terminal c error = none
main_loop (suc turns) fuel systems terminal c error =
    let after = λ (terminal' : Terminal) (c' : Controller) (error' : ℕ) (effects : List Effect).
      elim (main_loop turns fuel (λ n. systems (suc n)) terminal' c' error')
        as (λ _. Option (Controller × ℕ × List Effect)) [
          | none ↦ none
          | some (c'', error'', more) ↦ some (c'', error'', effects ++ more)
        ] in
    let turned : Option (Controller × ℕ × List Effect) =
      elim (input (systems 0).redirect user_buffer_size terminal) [
        | end_of_file ↦ some (c, error, [])
        | failed_input code terminal' ↦ after terminal' c error (printed code ∷ [])
        | line_of line terminal' ↦ elim (process_user_command fuel (systems 0) (c_string line) c) [
          | none ↦ none
          | some (c', error', effects) ↦ after terminal' c' error' effects
        ]
      ] in
    if c.force_exit then some (c, error, []) else turned

-- The end of `main`: where the exit command was given, the thread for responses is waited for.
unfoldable pub end_session : ℕ → System → ℕ → Controller → Option (Controller × List Effect)
end_session fuel s error c =
    if c.pending_shutdown
    then some (c, if s.joined then [] else printed unable_to_join_thread ∷ [])
    else handle_shutdown fuel s error false c

abbrev banner : List Effect
banner =
    shown (codes "Controller ID: " ++ print_unsigned id)
    ∷ shown (codes "Available commands:")
    ∷ shown (codes "- add <type>")
    ∷ shown (codes "- list")
    ∷ shown (codes "- sleep <seconds>")
    ∷ shown (codes "- info <id>")
    ∷ shown (codes "- switch <id> <label> <position>")
    ∷ shown (codes "- set <id> <label> <value>")
    ∷ shown (codes "- link <id1> to <id2>")
    ∷ shown (codes "- del <id>")
    ∷ shown (codes "- exit")
    ∷ []

-- The scenario, between the help and its end, unless the exit is forced already.
unfoldable pub begin_session :
    ℕ → ℕ → (ℕ → System) → Option Bytes → Controller → ℕ → Option (Controller × ℕ × List Effect)
unfolding execute_scenario
begin_session turns fuel systems scenario c error =
    let played : Option (Controller × ℕ × List Effect) =
      elim (execute_scenario turns fuel systems scenario c) [
        | none ↦ none
        | some (c', error', effects) ↦ some (
          c',
          error',
          banner
              ++ (effects ++ (complaint error' ++ shown (codes "--- Scenario executed ---") ∷ [])),
        )
      ] in
    if c.force_exit then some (c, error, []) else played

-- `main`, with the pipe for responses opened and the table empty. `ncurses` is the error of
-- `start_ncurses`; the first systems are those of the scenario.
unfoldable pub session :
    ℕ
    → ℕ
    → (ℕ → System)
    → (ℕ → System)
    → ℕ
    → Option Bytes
    → Terminal
    → Controller
    → Option (Controller × List Effect)
unfolding begin_session main_loop end_session
session turns fuel scenario_systems systems ncurses scenario terminal c =
    let created = (systems 0).kernel.created in
    let c' = if created then c else record c { force_exit = true } in
    let error = if created then ncurses else unable_to_create_thread in
    let complained =
      complaint ncurses ++ (if created then [] else printed unable_to_create_thread ∷ []) in
    elim (begin_session turns fuel scenario_systems scenario c' error) [
      | none ↦ none
      | some (c'', error', effects) ↦ elim (main_loop turns fuel systems terminal c'' error') [
        | none ↦ none
        | some (c''', error'', more) ↦ elim (end_session fuel (systems 0) error'' c''') [
          | none ↦ none
          | some (c4, last) ↦ some (c4, complained ++ (effects ++ (more ++ last)))
        ]
      ]
    ]
