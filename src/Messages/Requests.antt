-- ===== src/Messages/Requests.antt =====
-- Requests written and read back.
use os_domotics.Commands.{has_request_argument, max_request_size}
use os_domotics.Messages.{Request, format_request, parse_argument, parse_request, request_text}
use os_domotics.Messages.Joined.{IsInt, joined, joined-Lacks, next_unsigned-joined}
use os_domotics.Prelude.{
  Bool-cases, Bytes, List, [], append-nil, arith, if◌then◌else◌, inl, inr, length, length-append,
  u16, u8, ℕ, ◌++◌, ◌<◌, ◌∙◌, ◌∷◌, ◌≡◌, ◌≤◌,
}
use os_domotics.ReturnCodes.{ok}
use os_domotics.Text.{print_unsigned, space}
use os_domotics.Text.Buffers.{c_string-append, snprintf_fits, string_length-append}
use os_domotics.Text.Decimal.{length-print_unsigned}

pub record IsRequest (r : Request) : Type 0 where
  pub destination : r.destination < 65536
  pub command_code : r.command_code < 256
  pub argument : r.argument < 65536

-- The numbers that a request is written as.
abbrev pub request_numbers : Request → List ℕ
request_numbers r =
    if has_request_argument r.command_code
    then r.destination ∷ r.command_code ∷ r.argument ∷ []
    else r.destination ∷ r.command_code ∷ []

request_text-joined : (r : Request) → request_text r ≡ joined (request_numbers r)
request_text-joined r = elim (Bool-cases (has_request_argument r.command_code)) [
  | inl e ↦ rw (e, append-nil)
  | inr e ↦ rw (e, append-nil)
]

-- A formatted request takes at most 15 bytes and its terminator.
length-request_text : (r : Request) → IsRequest r → length (request_text r) ≤ 15
length-request_text r v = elim (Bool-cases (has_request_argument r.command_code)) [
  | inl e ↦ rw e (
      omega (
        arith,
        length-append (print_unsigned r.destination)
            (space ∷ (print_unsigned r.command_code ++ (space ∷ print_unsigned r.argument))),
        length-append (print_unsigned r.command_code) (space ∷ print_unsigned r.argument),
        length-print_unsigned r.destination 4 (omega arith),
        length-print_unsigned r.command_code 2 (omega arith),
        length-print_unsigned r.argument 4 (omega arith),
      ))
  | inr e ↦ rw e (
      omega (
        arith,
        length-append (print_unsigned r.destination) (space ∷ print_unsigned r.command_code),
        length-print_unsigned r.destination 4 (omega arith),
        length-print_unsigned r.command_code 2 (omega arith),
      ))
]

-- The two numbers that every request begins with.
parse_request-joined :
    (old : Request) (d c : ℕ) (rest : List ℕ) (junk : Bytes) (size : ℕ)
    → IsInt d
    → IsInt c
    → length (joined (d ∷ c ∷ rest)) < size
    → parse_request old (joined (d ∷ c ∷ rest) ++ 0 ∷ junk) size
      ≡ parse_argument (record old { destination = u16 d; command_code = u8 c }) c (joined rest)
unfolding parse_request
parse_request-joined old d c rest junk size hd hc h = ground (
  arith,
  string_length-append (joined (d ∷ c ∷ rest)) junk size (joined-Lacks (d ∷ c ∷ rest)) h,
  c_string-append (joined (d ∷ c ∷ rest)) junk (joined-Lacks (d ∷ c ∷ rest)),
  next_unsigned-joined d (c ∷ rest) hd,
  next_unsigned-joined c rest hc,
)

-- What a parser gives for the text of a request; a command without an argument leaves the old one.
abbrev pub received_request : Request → Request → Request
received_request old r = record r {
  argument = if has_request_argument r.command_code then r.argument else old.argument;
}

parse_request_numbers :
    (old r : Request) (junk : Bytes) (size : ℕ)
    → IsRequest r
    → length (joined (request_numbers r)) < size
    → parse_request old (joined (request_numbers r) ++ 0 ∷ junk) size ≡ (received_request old r, ok)
parse_request_numbers old r junk size v h =
    elim (Bool-cases (has_request_argument r.command_code)) [
      | inl e ↦ rw e (
          parse_request-joined old r.destination r.command_code (r.argument ∷ []) junk size
            (omega arith) (omega arith) (rw e at h)
          ∙ (unfold parse_argument in ground (arith, next_unsigned-joined r.argument [])))
      | inr e ↦ rw e (
          parse_request-joined old r.destination r.command_code [] junk size (omega arith)
            (omega arith) (rw e at h)
          ∙ (unfold parse_argument in ground arith))
    ]

-- A formatted request always fits, and is read back: the parser gives the request, with the old argument
-- where the command has none, whatever the two buffers and the old request held before.
pub parse_request-format_request :
    (old r : Request) (buffer : Bytes)
    → IsRequest r
    → length buffer ≡ max_request_size
    → ((format_request r buffer max_request_size).1 ≡ ok)
      × (parse_request old (format_request r buffer max_request_size).0 max_request_size
          ≡ (received_request old r, ok))
unfolding format_request
parse_request-format_request old r buffer v fits =
    let short = length-request_text r v in
    (
      ground arith,
      rw (snprintf_fits max_request_size (request_text r) buffer (omega arith) (omega arith)) (
          rw (request_text-joined r) (
            parse_request_numbers old r _ max_request_size v
              (rw (← request_text-joined r) (omega arith)))),
    )
