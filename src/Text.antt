-- ===== src/Text.antt =====
-- C strings as lists of bytes: `string_length` and `string_to_unsigned` of code/src/utils.c, and the
-- functions of the C library that the program formats and parses with (strtok_r, snprintf).
pub mod Tokens
pub mod Decimal
pub mod Buffers
use os_domotics.Prelude.{
  Bytes, Option, [], if◌then◌else◌, ltb, negsuc, none, some, suc, take, to_int, u32, zero, ℕ, ℤ,
  ◌%◌, ◌*◌, ◌++◌, ◌+◌, ◌-◌, ◌/◌, ◌==◌, ◌||◌, ◌∷◌,
}
use os_domotics.ReturnCodes.{code_format_error}

abbrev pub space : ℕ
space = 32

abbrev pub colon : ℕ
colon = 58

-- The loop of `string_length`; the buffer has at least `max_length` bytes.
unfoldable pub string_length : Bytes → ℕ → ℕ
string_length s zero = 0
string_length [] (suc n) = 0
string_length (c ∷ s) (suc n) = if c == 0 then 0 else suc (string_length s n)

-- The bytes before the terminator, which is what a function on C strings sees of a buffer.
unfoldable pub c_string : Bytes → Bytes
c_string [] = []
c_string (c ∷ s) = if c == 0 then [] else c ∷ c_string s

-- The loop of `string_to_unsigned`; `code` is a 32-bit `unsigned`.
unfoldable pub scan_unsigned : Bytes → ℕ → ℤ
scan_unsigned [] code = to_int code
scan_unsigned (c ∷ s) code =
    let rest = scan_unsigned s (u32 (u32 (code * 10) + (c - 48))) in
    if c == 0 || c == 10
    then to_int code
    else if ltb c 48 || ltb 57 c
    then negsuc (code_format_error - 1)
    else rest

unfoldable pub string_to_unsigned : Bytes → ℤ
unfolding scan_unsigned
string_to_unsigned s = scan_unsigned s 0

-- `%u`: the decimal digits, the last one first. A number has fewer digits than its value, so that
-- the fuel is enough.
unfoldable pub digits_fuel : ℕ → ℕ → Bytes
digits_fuel zero n = (48 + n) ∷ []
digits_fuel (suc f) n =
    let rest = digits_fuel f (n / 10) in
    if ltb n 10 then (48 + n) ∷ [] else rest ++ (48 + n % 10) ∷ []

unfoldable pub print_unsigned : ℕ → Bytes
unfolding digits_fuel
print_unsigned n = digits_fuel n n

-- strtok_r with one delimiter: leading delimiters are skipped, and the token is what stands before
-- the next one. The second part is what `last` points at.
unfoldable pub skip_delimiters : ℕ → Bytes → Bytes
skip_delimiters d [] = []
skip_delimiters d (c ∷ s) = if c == d then skip_delimiters d s else c ∷ s

unfoldable pub token_of : ℕ → Bytes → Bytes
token_of d [] = []
token_of d (c ∷ s) = if c == d then [] else c ∷ token_of d s

unfoldable pub after_token : ℕ → Bytes → Bytes
after_token d [] = []
after_token d (c ∷ s) = if c == d then s else after_token d s

unfoldable pub strtok : ℕ → Bytes → Option (Bytes × Bytes)
unfolding skip_delimiters token_of after_token
strtok d s = elim (skip_delimiters d s) [
  | [] ↦ none
  | c ∷ r ↦ some (token_of d (c ∷ r), after_token d (c ∷ r))
]

-- The first cells of a buffer replaced; what does not fit is dropped.
unfoldable pub overwrite : Bytes → Bytes → Bytes
overwrite [] buffer = buffer
overwrite (c ∷ s) [] = []
overwrite (c ∷ s) (x ∷ buffer) = c ∷ overwrite s buffer

-- snprintf of a formatted text: at most `size - 1` bytes and a terminator. Its return value is the
-- length of the text.
unfoldable pub snprintf : ℕ → Bytes → Bytes → Bytes
unfolding overwrite
snprintf zero text buffer = buffer
snprintf (suc n) text buffer = overwrite (take n text ++ 0 ∷ []) buffer
