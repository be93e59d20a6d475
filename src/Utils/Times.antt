-- ===== src/Utils/Times.antt =====
-- Times of the day written and read back, and what is accepted as one.
use os_domotics.Prelude.{
  All, All-append, Bool, Bool-cases, Bytes, Lacks, Option, [], ap, arith, codes, drop, false,
  holds_upto, if◌then◌else◌, inl, inr, leb, length, length-append, ltb, ltb→lt, negsuc, none, pos,
  refl, some, suc, true, upto_holds, zero, ℕ, ℤ, ◌%◌, ◌*◌, ◌++◌, ◌+◌, ◌-◌, ◌/◌, ◌<◌, ◌==◌, ◌||◌,
  ◌∷◌, ◌≡◌, ◌≢◌, ◌⊎◌,
}
use os_domotics.ReturnCodes.{code_format_error}
use os_domotics.Text.{c_string, colon, digits_fuel, print_unsigned, string_to_unsigned, strtok}
use os_domotics.Text.Buffers.{c_string-append, snprintf_fits}
use os_domotics.Text.Decimal.{
  IsDigit, Lacks-IsDigit, length-print_unsigned, print_unsigned-IsDigit, print_unsigned-ne-nil,
  string_to_unsigned-print_unsigned,
}
use os_domotics.Text.Tokens.{strtok-Lacks, strtok-append}
use os_domotics.Utils.{
  after_hours, format_time, minutes_of_day, parse_time, time_size, time_text, whole_day,
}

print_unsigned-lt_ten : (n : ℕ) → n < 10 → print_unsigned n ≡ (48 + n) ∷ []
unfolding print_unsigned digits_fuel
print_unsigned-lt_ten zero h = refl
print_unsigned-lt_ten (suc n) h = ground arith

Lacks-colon : (n : ℕ) → Lacks colon (print_unsigned n)
Lacks-colon n =
    Lacks-IsDigit colon (print_unsigned n) (inr (omega arith)) (print_unsigned-IsDigit n)

-- The minutes, on two digits.
abbrev two_digits : ℕ → Bytes
two_digits m = (if ltb m 10 then codes "0" else []) ++ print_unsigned m

two_digit_table : holds_upto (λ m. ltb m 10 || length (print_unsigned m) == 2) 59 ≡ true
unfolding holds_upto print_unsigned
two_digit_table = refl

length-two_digits : (m : ℕ) → m < 60 → length (two_digits m) ≡ 2
length-two_digits m h = elim (Bool-cases (ltb m 10)) [
  | inl small ↦ rw (small, print_unsigned-lt_ten m (ltb→lt m 10 small))
  | inr large ↦
      let row =
        upto_holds (λ m. ltb m 10 || length (print_unsigned m) == 2) 59 m two_digit_table
          (omega arith) in
      rw large (ground arith)
]

string_to_unsigned-two_digits : (m : ℕ) → m < 60 → string_to_unsigned (two_digits m) ≡ pos m
string_to_unsigned-two_digits m h = elim (Bool-cases (ltb m 10)) [
  | inl small ↦
      rw (small, print_unsigned-lt_ten m (ltb→lt m 10 small))
        (unfold string_to_unsigned in ground arith)
  | inr large ↦ rw large (string_to_unsigned-print_unsigned m (omega arith))
]

Lacks-two_digits : (b m : ℕ) → (b < 48) ⊎ (57 < b) → Lacks b (two_digits m)
Lacks-two_digits b m h = Lacks-IsDigit b (two_digits m) h (
    All-append IsDigit (if ltb m 10 then codes "0" else []) (print_unsigned m)
      (zero_digit (ltb m 10)) (print_unsigned-IsDigit m))
  where
    zero_digit : (b : Bool) → All IsDigit (if b then codes "0" else [])
    zero_digit true = ((omega arith, omega arith), tt)
    zero_digit false = tt

parse_time-digits :
    (h m : ℕ)
    → h < 24
    → m < 60
    → parse_time (print_unsigned h ++ colon ∷ two_digits m) ≡ pos (m + h * 60)
unfolding parse_time
parse_time-digits h m hh hm = ground (
  arith,
  strtok-append colon (print_unsigned h) (two_digits m) (print_unsigned-ne-nil h) (Lacks-colon h),
  string_to_unsigned-print_unsigned h (omega arith),
  strtok-Lacks colon (two_digits m) (omega (arith, length-two_digits m hm))
      (Lacks-two_digits colon m (inr (omega arith))),
  string_to_unsigned-two_digits m hm,
  length-two_digits m hm,
  no_token,
)
  where
    no_token : strtok colon [] ≡ none
    no_token = unfold strtok in refl

-- Every minute of the day is read back from its formatted time, whatever the buffer held before.
pub parse_time-format_time :
    (m : ℕ) (buffer : Bytes)
    → m < 1440
    → length buffer ≡ time_size
    → parse_time (c_string (format_time buffer m)) ≡ pos m
unfolding format_time
parse_time-format_time m buffer h fits =
    let hours : m / 60 < 24 = omega arith in
    let lacks =
      All-append (λ c. c ≢ 0) (print_unsigned (m / 60)) (colon ∷ two_digits (m % 60))
        (Lacks-IsDigit 0 (print_unsigned (m / 60)) (inl (omega arith))
          (print_unsigned-IsDigit (m / 60)))
        (λ e. absurd (omega arith), Lacks-two_digits 0 (m % 60) (inl (omega arith))) in
    let short = length-append (print_unsigned (m / 60)) (colon ∷ two_digits (m % 60)) in
    rw
      (
        snprintf_fits time_size (time_text m) buffer
            (omega (
              arith,
              short,
              length-two_digits (m % 60) (omega arith),
              length-print_unsigned (m / 60) 4 (omega arith),
            ))
            (omega arith),
        c_string-append (time_text m) (drop (length (time_text m) + 1) buffer) lacks,
        parse_time-digits (m / 60) (m % 60) hours (omega arith),
      )
      (ap pos (omega arith))

-- What `parse_time` gives: a minute of the day, or `-CODE_FORMAT_ERROR`.
pub data IsTime : ℤ → Type 0 where
  minute : (n : ℕ) → n < 1440 → IsTime (pos n)
  refused : (n : ℕ) → n ≡ code_format_error - 1 → IsTime (negsuc n)

whole_day-IsTime : (h m : ℕ) (rest : Bytes) → h < 24 → m < 60 → IsTime (whole_day h m rest)
whole_day-IsTime h m rest p q =
    elim (strtok colon rest)
      as (λ o.
        IsTime (elim o [ none ↦ pos (m + h * 60) | some _ ↦ negsuc (code_format_error - 1) ])) [
          | none ↦ minute _ (omega arith)
          | some _ ↦ refused _ refl
        ]

minutes_of_day-IsTime : (h : ℕ) (m : ℤ) (rest : Bytes) → h < 24 → IsTime (minutes_of_day h m rest)
minutes_of_day-IsTime h (negsuc _) rest p = refused _ refl
minutes_of_day-IsTime h (pos m) rest p = elim (Bool-cases (leb 60 m)) [
  | inl late ↦ rw late (refused _ refl)
  | inr fine ↦ rw fine (whole_day-IsTime h m rest p (ground arith))
]

after_minutes-IsTime :
    (h : ℕ) (o : Option (Bytes × Bytes))
    → h < 24
    → IsTime (elim o [
      | none ↦ negsuc (code_format_error - 1)
      | some (token, rest') ↦
          if length token == 2
          then minutes_of_day h (string_to_unsigned token) rest'
          else negsuc (code_format_error - 1)
    ])
after_minutes-IsTime h none p = refused _ refl
after_minutes-IsTime h (some (token, rest)) p = elim (Bool-cases (length token == 2)) [
  | inl two ↦ rw two (minutes_of_day-IsTime h (string_to_unsigned token) rest p)
  | inr other ↦ rw other (refused _ refl)
]

after_hours-IsTime : (h : ℤ) (rest : Bytes) → IsTime (after_hours h rest)
after_hours-IsTime (negsuc _) rest = refused _ refl
after_hours-IsTime (pos h) rest = elim (Bool-cases (leb 24 h)) [
  | inl late ↦ rw late (refused _ refl)
  | inr fine ↦ rw fine (after_minutes-IsTime h (strtok colon rest) (ground arith))
]

-- Whatever the text, `parse_time` gives a minute of the day or `-CODE_FORMAT_ERROR`.
pub parse_time-IsTime : (s : Bytes) → IsTime (parse_time s)
unfolding parse_time
parse_time-IsTime s = go (strtok colon s)
  where
    go :
        (o : Option (Bytes × Bytes))
        → IsTime (elim o [
          | none ↦ negsuc (code_format_error - 1)
          | some (token, rest) ↦ after_hours (string_to_unsigned token) rest
        ])
    go none = refused _ refl
    go (some (token, rest)) = after_hours-IsTime (string_to_unsigned token) rest
