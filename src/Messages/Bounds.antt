-- ===== src/Messages/Bounds.antt =====
-- What parsers leave in a request and a response, whatever they read.
use os_domotics.Messages.{
  Request, Response, format_arguments, format_response, next_unsigned, parse_argument,
  parse_request, response_head,
}
use os_domotics.Messages.Requests.{IsRequest}
use os_domotics.Messages.Responses.{IsWord}
use os_domotics.Prelude.{
  All, Bool-cases, Bytes, List, Option, [], ap, arith, drop, get_or, inl, inr, leb, length,
  length-append, length-set, none, set, some, suc, take, take-append-drop, u16, u8, zero, ℕ, ◌++◌,
  ◌+◌, ◌-◌, ◌<◌, ◌==◌, ◌∙◌, ◌∷◌, ◌≡◌,
}
use os_domotics.ReturnCodes.{request_format_error}
use os_domotics.Text.{c_string, print_unsigned, snprintf, space, string_length}
use os_domotics.Text.Buffers.{length-snprintf}

pub parse_request-IsRequest :
    (r : Request) (buffer : Bytes) (size : ℕ)
    → IsRequest r
    → IsRequest (parse_request r buffer size).0
unfolding parse_request
parse_request-IsRequest r buffer size v = elim (Bool-cases (string_length buffer size == size)) [
  | inl long ↦ rw long v
  | inr short ↦ rw short (destination (next_unsigned (c_string buffer)))
]
  where
    argument : (q : Request) (c : ℕ) (s : Bytes) → IsRequest q → IsRequest (parse_argument q c s).0
    argument q c s w = unfold parse_argument in ground arith

    command :
        (d : ℕ) (o : Option (ℕ × Bytes))
        → IsRequest
            (elim o as (λ _. Request × ℕ) [
              | none ↦ (r, request_format_error)
              | some (c, s) ↦
                  parse_argument (record r { destination = u16 d; command_code = u8 c }) c s
            ]).0
    command d none = v
    command d (some (c, s)) =
        argument (record r { destination = u16 d; command_code = u8 c }) c s
          (record { destination = omega arith; command_code = omega arith; argument = v.argument })

    destination :
        (o : Option (ℕ × Bytes))
        → IsRequest
            (elim o as (λ _. Request × ℕ) [
              | none ↦ (r, request_format_error)
              | some (d, s) ↦ elim (next_unsigned s) as (λ _. Request × ℕ) [
                | none ↦ (r, request_format_error)
                | some (c, s') ↦
                    parse_argument (record r { destination = u16 d; command_code = u8 c }) c s'
              ]
            ]).0
    destination none = v
    destination (some (d, s)) = command d (next_unsigned s)

-- A word stored among words.
pub All-set : (xs : List ℕ) (i v : ℕ) → All IsWord xs → IsWord v → All IsWord (set xs i v)
All-set [] i v h w = tt
All-set (x ∷ xs) zero v h w = (w, h.1)
All-set (x ∷ xs) (suc i) v h w = (h.0, All-set xs i v h.1 w)

pub parse_request-code :
    (r : Request) (buffer : Bytes) (size : ℕ) → (parse_request r buffer size).1 < 256
unfolding parse_request
parse_request-code r buffer size = elim (Bool-cases (string_length buffer size == size)) [
  | inl long ↦ rw long (omega arith)
  | inr short ↦ rw short (destination (next_unsigned (c_string buffer)))
]
  where
    command :
        (d : ℕ) (o : Option (ℕ × Bytes))
        → (elim o as (λ _. Request × ℕ) [
          | none ↦ (r, request_format_error)
          | some (c, s) ↦ parse_argument (record r { destination = u16 d; command_code = u8 c }) c s
        ]).1
          < 256
    command d none = omega arith
    command d (some (c, s)) = unfold parse_argument in ground arith

    destination :
        (o : Option (ℕ × Bytes))
        → (elim o as (λ _. Request × ℕ) [
          | none ↦ (r, request_format_error)
          | some (d, s) ↦ elim (next_unsigned s) as (λ _. Request × ℕ) [
            | none ↦ (r, request_format_error)
            | some (c, s') ↦
                parse_argument (record r { destination = u16 d; command_code = u8 c }) c s'
          ]
        ]).1
          < 256
    destination none = omega arith
    destination (some (d, s)) = command d (next_unsigned s)

length-piece :
    (position size : ℕ) (text buffer : Bytes)
    → length (take position buffer ++ snprintf size text (drop position buffer)) ≡ length buffer
length-piece position size text buffer = omega (
  arith,
  length-append (take position buffer) (snprintf size text (drop position buffer)),
  length-snprintf size text (drop position buffer),
  length-append (take position buffer) (drop position buffer),
  ap length (take-append-drop position buffer),
)

length-format_arguments :
    (left i : ℕ) (arguments : List ℕ) (position remaining : ℕ) (buffer : Bytes)
    → length (format_arguments left i arguments position remaining buffer).0 ≡ length buffer
unfolding format_arguments
length-format_arguments zero i arguments position remaining buffer =
    ground (arith, length-set buffer position 0)
length-format_arguments (suc left) i arguments position remaining buffer =
    let text : Bytes = space ∷ print_unsigned (get_or arguments i 0) in
    let buffer' = take position buffer ++ snprintf remaining text (drop position buffer) in
    let same = length-piece position remaining text buffer in
    elim (Bool-cases (leb remaining (length text))) [
      | inl full ↦ rw full same
      | inr fits ↦ rw fits (
          length-format_arguments left (i + 1) arguments (position + length text)
            (remaining - length text) buffer'
          ∙ same)
    ]

-- A buffer is written in place.
pub length-format_response :
    (r : Response) (buffer : Bytes) (size : ℕ)
    → length (format_response r buffer size).0 ≡ length buffer
unfolding format_response
length-format_response r buffer size = elim (Bool-cases (leb size (length (response_head r)))) [
  | inl full ↦ rw full (length-snprintf size (response_head r) buffer)
  | inr fits ↦ rw fits (
      length-format_arguments r.arguments_size 0 r.arguments (length (response_head r))
        (size - length (response_head r)) (snprintf size (response_head r) buffer)
      ∙ length-snprintf size (response_head r) buffer)
]
