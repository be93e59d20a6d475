-- ===== src/Messages.antt =====
-- Requests and responses: code/src/messages.c. strtok_r cuts the buffer that it parses, which no later
-- read sees, so that a parser takes the buffer as a value. snprintf fails on no format used here.
pub mod Joined
pub mod Requests
pub mod Responses
pub mod Sendable
pub mod Bounds
use os_domotics.Commands.{
  has_request_argument, has_response_arguments, is_delete, is_info, is_switch,
  max_response_arguments,
}
use os_domotics.Prelude.{
  Bool, Bytes, List, Option, drop, get_or, if◌then◌else◌, leb, length, ltb, negsuc, none, not, pos,
  set, some, suc, take, u16, u8, zero, ℕ, ℤ, ◌&&◌, ◌++◌, ◌+◌, ◌-◌, ◌==◌, ◌||◌, ◌∷◌,
}
use os_domotics.ReturnCodes.{
  buffer_too_short, is_error, ok, request_format_error, response_format_error,
}
use os_domotics.Text.{
  c_string, print_unsigned, snprintf, space, string_length, string_to_unsigned, strtok,
}

pub record Request : Type 0 where
  pub destination : ℕ
  pub command_code : ℕ
  pub argument : ℕ

-- `arguments` has `max_response_arguments` cells.
pub record Response : Type 0 where
  pub source : ℕ
  pub command_code : ℕ
  pub response_code : ℕ
  pub arguments : List ℕ
  pub arguments_size : ℕ

abbrev pub non_negative : ℤ → Bytes → Option (ℕ × Bytes)
non_negative (pos n) rest = some (n, rest)
non_negative (negsuc n) rest = none

-- A token by strtok_r and its number: `none` where the token is missing or is no number.
unfoldable pub next_unsigned : Bytes → Option (ℕ × Bytes)
next_unsigned s = elim (strtok space s) [
  | none ↦ none
  | some (token, rest) ↦ non_negative (string_to_unsigned token) rest
]

-- The argument of a request, if its command has one.
unfoldable pub parse_argument : Request → ℕ → Bytes → Request × ℕ
parse_argument r command s =
    if has_request_argument command
    then elim (next_unsigned s) [
      | none ↦ (r, request_format_error)
      | some (argument, _) ↦ (record r { argument = u16 argument }, ok)
    ]
    else (r, ok)

unfoldable pub parse_request : Request → Bytes → ℕ → Request × ℕ
unfolding parse_argument
parse_request r buffer size =
    if string_length buffer size == size
    then (r, buffer_too_short)
    else elim (next_unsigned (c_string buffer)) [
      | none ↦ (r, request_format_error)
      | some (destination, s) ↦ elim (next_unsigned s) [
        | none ↦ (r, request_format_error)
        | some (command, s') ↦
            parse_argument (record r { destination = u16 destination; command_code = u8 command })
              command s'
      ]
    ]

abbrev pub request_text : Request → Bytes
request_text r =
    if has_request_argument r.command_code
    then print_unsigned r.destination
      ++ (space ∷ (print_unsigned r.command_code ++ (space ∷ print_unsigned r.argument)))
    else print_unsigned r.destination ++ (space ∷ print_unsigned r.command_code)

unfoldable pub format_request : Request → Bytes → ℕ → Bytes × ℕ
format_request r buffer size = (
  snprintf size (request_text r) buffer,
  if leb size (length (request_text r)) then buffer_too_short else ok,
)

-- The `do` loop of `parse_response` from argument `i` on, with the token that is parsed next.
unfoldable pub parse_arguments : ℕ → ℕ → Bytes → Bytes → Response → Response × ℕ
parse_arguments zero i token rest r = (record r { arguments_size = i }, ok)
parse_arguments (suc left) i token rest r = elim (string_to_unsigned token) [
  | negsuc _ ↦ (r, response_format_error)
  | pos parsed ↦
      let r' = record r { arguments = set r.arguments i (u16 parsed) } in
      elim (strtok space rest) [
        | none ↦ (record r' { arguments_size = i + 1 }, ok)
        | some (next, rest') ↦ parse_arguments left (i + 1) next rest' r'
      ]
]

-- The last test of `parse_response`.
abbrev pub check_info : Response × ℕ → Response × ℕ
check_info (r, code) =
    if code == ok
      && (is_info r.command_code && (not (is_error r.response_code) && ltb r.arguments_size 2))
    then (r, response_format_error)
    else (r, code)

-- `parse_arguments` and `try_parse_arguments`
abbrev pub needs_arguments : ℕ → Response → Bool
needs_arguments command r =
    has_response_arguments command && not (is_info r.command_code && is_error r.response_code)

abbrev pub may_have_arguments : Response → Bool
may_have_arguments r = is_switch r.command_code || is_delete r.command_code

unfoldable pub parse_response_arguments : ℕ → Bytes → Response → Response × ℕ
unfolding parse_arguments
parse_response_arguments command s r =
    if needs_arguments command r || may_have_arguments r
    then elim (strtok space s) [
      | none ↦ (r, if needs_arguments command r then response_format_error else ok)
      | some (token, rest) ↦ check_info (parse_arguments max_response_arguments 0 token rest r)
    ]
    else check_info (r, ok)

unfoldable pub parse_response : Response → Bytes → ℕ → Response × ℕ
unfolding parse_response_arguments
parse_response r buffer size =
    if string_length buffer size == size
    then (r, buffer_too_short)
    else elim (next_unsigned (c_string buffer)) [
      | none ↦ (r, request_format_error)
      | some (source, s) ↦ elim (next_unsigned s) [
        | none ↦ (r, request_format_error)
        | some (command, s') ↦ elim (next_unsigned s') [
          | none ↦ (r, request_format_error)
          | some (code, s'') ↦ parse_response_arguments command s'' (record r {
            source = u16 source;
            command_code = u8 command;
            response_code = u8 code;
            arguments_size = 0;
          })
        ]
      ]
    ]

-- The loop of `format_response`: `left` arguments from `i` on, written at `position`, where `remaining`
-- cells are left. At most `max_response_arguments` are there to be read.
unfoldable pub format_arguments : ℕ → ℕ → List ℕ → ℕ → ℕ → Bytes → Bytes × ℕ
format_arguments zero i arguments position remaining buffer =
    if ltb remaining 1 then (buffer, buffer_too_short) else (set buffer position 0, ok)
format_arguments (suc left) i arguments position remaining buffer =
    let text = space ∷ print_unsigned (get_or arguments i 0) in
    let buffer' = take position buffer ++ snprintf remaining text (drop position buffer) in
    let rest =
      format_arguments left (i + 1) arguments (position + length text) (remaining - length text)
        buffer' in
    if leb remaining (length text) then (buffer', buffer_too_short) else rest

abbrev pub response_head : Response → Bytes
response_head r =
    print_unsigned r.source
    ++ (space ∷ (print_unsigned r.command_code ++ (space ∷ print_unsigned r.response_code)))

unfoldable pub format_response : Response → Bytes → ℕ → Bytes × ℕ
unfolding format_arguments
format_response r buffer size =
    let head = response_head r in
    let buffer' = snprintf size head buffer in
    if leb size (length head)
    then (buffer', buffer_too_short)
    else format_arguments r.arguments_size 0 r.arguments (length head) (size - length head) buffer'
