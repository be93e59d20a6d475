-- ===== src/Text/Decimal.antt =====
-- Numbers read back from their decimal digits.
use native.Mathlib.Nat.{pow-suc}
use os_domotics.Prelude.{
  All, All-append, Bool-cases, Bytes, Lacks, [], append-nil, append_assoc, arith, inl, inr, length,
  length-append, ltb, ltb→lt, pos, suc, zero, ℕ, ◌%◌, ◌++◌, ◌+◌, ◌/◌, ◌<◌, ◌^◌, ◌∙◌, ◌∷◌, ◌≡◌, ◌≤◌,
  ◌⊎◌,
}
use os_domotics.Text.{digits_fuel, print_unsigned, scan_unsigned, string_to_unsigned}

ten_le : {n f : ℕ} → n ≤ suc f → n / 10 ≤ f
ten_le h = omega arith

abbrev pub IsDigit : ℕ → Type 0
IsDigit c = (48 ≤ c) × (c ≤ 57)

digits_fuel-IsDigit : (f n : ℕ) → n ≤ f → All IsDigit (digits_fuel f n)
unfolding digits_fuel
digits_fuel-IsDigit zero n h = ((omega arith, omega arith), tt)
digits_fuel-IsDigit (suc f) n h = elim (Bool-cases (ltb n 10)) [
  | inl small ↦ rw small ((omega arith, omega (arith, ltb→lt n 10 small)), tt)
  | inr large ↦ rw large (
      All-append IsDigit (digits_fuel f (n / 10)) ((48 + n % 10) ∷ [])
        (digits_fuel-IsDigit f (n / 10) (ten_le h)) ((omega arith, omega arith), tt))
]

pub print_unsigned-IsDigit : (n : ℕ) → All IsDigit (print_unsigned n)
unfolding print_unsigned
print_unsigned-IsDigit n = digits_fuel-IsDigit n n (omega arith)

pub Lacks-IsDigit : (b : ℕ) (s : Bytes) → (b < 48) ⊎ (57 < b) → All IsDigit s → Lacks b s
Lacks-IsDigit b [] h d = tt
Lacks-IsDigit b (c ∷ s) h d = (λ e. absurd (omega arith), Lacks-IsDigit b s h d.1)

length-digits_fuel : (f n k : ℕ) → n ≤ f → n < 10 ^ suc k → length (digits_fuel f n) ≤ suc k
unfolding digits_fuel
length-digits_fuel zero n k h b = omega arith
length-digits_fuel (suc f) n zero h b = ground arith
length-digits_fuel (suc f) n (suc k) h b = elim (Bool-cases (ltb n 10)) [
  | inl small ↦ rw small (omega arith)
  | inr large ↦ rw large (
      omega (
        arith,
        length-append (digits_fuel f (n / 10)) ((48 + n % 10) ∷ []),
        length-digits_fuel f (n / 10) k (ten_le h) (tenth_lt n k b),
      ))
]
  where
    tenth_lt : (n k : ℕ) → n < 10 ^ suc (suc k) → n / 10 < 10 ^ suc k
    tenth_lt n k b = omega (arith, pow-suc 10 (suc k))

pub length-print_unsigned : (n k : ℕ) → n < 10 ^ suc k → length (print_unsigned n) ≤ suc k
unfolding print_unsigned
length-print_unsigned n k = length-digits_fuel n n k (omega arith)

digits_fuel-ne-nil : (f n : ℕ) → 0 < length (digits_fuel f n)
unfolding digits_fuel
digits_fuel-ne-nil zero n = omega arith
digits_fuel-ne-nil (suc f) n =
    ground (arith, length-append (digits_fuel f (n / 10)) ((48 + n % 10) ∷ []))

pub print_unsigned-ne-nil : (n : ℕ) → 0 < length (print_unsigned n)
unfolding print_unsigned
print_unsigned-ne-nil n = digits_fuel-ne-nil n n

-- One digit more.
scan_digit :
    (n : ℕ) (s : Bytes)
    → n < 2 ^ 32
    → scan_unsigned ((48 + n % 10) ∷ s) (n / 10) ≡ scan_unsigned s n
unfolding scan_unsigned
scan_digit n s h = ground arith

scan-digits_fuel :
    (f n : ℕ) (s : Bytes)
    → n ≤ f
    → n < 2 ^ 32
    → scan_unsigned (digits_fuel f n ++ s) 0 ≡ scan_unsigned s n
unfolding digits_fuel
scan-digits_fuel zero zero s h b = scan_digit 0 s b
scan-digits_fuel zero (suc n) s h b = absurd (omega arith)
scan-digits_fuel (suc f) n s h b = elim (Bool-cases (ltb n 10)) [
  | inl small ↦ rw small (one_digit n s (ltb→lt n 10 small))
  | inr large ↦
      rw (large, append_assoc)
        (scan-digits_fuel f (n / 10) ((48 + n % 10) ∷ s) (ten_le h) (omega arith)
          ∙ scan_digit n s b)
]
  where
    one_digit : (n : ℕ) (s : Bytes) → n < 10 → scan_unsigned ((48 + n) ∷ s) 0 ≡ scan_unsigned s n
    one_digit n s lt = unfold scan_unsigned in ground arith

-- Below 2 ^ 31 the number printed by `%u` is the number read.
pub string_to_unsigned-print_unsigned :
    (n : ℕ) → n < 2 ^ 31 → string_to_unsigned (print_unsigned n) ≡ pos n
unfolding string_to_unsigned print_unsigned
string_to_unsigned-print_unsigned n h =
    rw (← append-nil (digits_fuel n n))
      (scan-digits_fuel n n [] (omega arith) (omega arith) ∙ ground arith)
