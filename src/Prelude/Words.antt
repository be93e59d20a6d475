-- ===== src/Prelude/Words.antt =====
-- Machine words: conversions, the C `int`, and the masks of the low bits.
use Prim.Native.Nat.{
  ℕ, zero, suc, ◌+◌, ◌-◌, ◌*◌, ◌/◌, ◌%◌, ◌^◌, ◌≤◌, min, bit_and, digits, bit_and-bitwise,
}
use mathlib.Core.Path.{◌≡◌, refl, ap}
use mathlib.Core.Bool.{Bool, true, false}
use native.Mathlib.Omega.{arith}
use os_domotics.Prelude.Tests.{ltb, leb, if◌then◌else◌}

abbrev pub u8 : ℕ → ℕ
u8 n = n % 256

abbrev pub u16 : ℕ → ℕ
u16 n = n % 65536

abbrev pub u32 : ℕ → ℕ
u32 n = n % 2 ^ 32

-- A C `int`. `negsuc n` is -(n + 1).
pub data ℤ : Type 0 where
  pos : ℕ → ℤ
  negsuc : ℕ → ℤ

-- The conversion of a 32-bit `unsigned` to `int`.
abbrev pub to_int : ℕ → ℤ
to_int w = if ltb w (2 ^ 31) then pos w else negsuc (2 ^ 32 - w - 1)

-- The conversion of an `int` to `u_int16_t` or `u_int8_t`.
abbrev pub int_u16 : ℤ → ℕ
int_u16 (pos n) = u16 n
int_u16 (negsuc n) = 65535 - u16 n

abbrev pub int_u8 : ℤ → ℕ
int_u8 (pos n) = u8 n
int_u8 (negsuc n) = 255 - u8 n

-- `a - b` on `time_t`, a signed 64-bit type.
abbrev pub int_sub : ℕ → ℕ → ℤ
int_sub a b = if leb b a then pos (a - b) else negsuc (b - a - 1)

-- C division truncates towards zero.
abbrev pub int_div : ℤ → ℕ → ℤ
int_div (pos n) d = pos (n / d)
int_div (negsuc n) d = int_sub 0 (suc n / d)

-- The other operators on signed numbers. The remainder has the sign of the dividend.
abbrev pub int_minus : ℤ → ℤ → ℤ
int_minus (pos a) (pos b) = int_sub a b
int_minus (pos a) (negsuc b) = pos (a + b + 1)
int_minus (negsuc a) (pos b) = negsuc (a + b)
int_minus (negsuc a) (negsuc b) = int_sub b a

abbrev pub int_less : ℤ → ℤ → Bool
int_less (pos a) (pos b) = ltb a b
int_less (pos a) (negsuc b) = false
int_less (negsuc a) (pos b) = true
int_less (negsuc a) (negsuc b) = ltb b a

abbrev pub int_rem : ℤ → ℕ → ℤ
int_rem (pos a) d = pos (a % d)
int_rem (negsuc a) d = int_sub 0 (suc a % d)

-- `&` with a mask that keeps the numbers below `width`, whatever the fuel of its digits.
Masks : ℕ → ℕ → Type 0
Masks mask width = (fuel a : ℕ) → a ≤ fuel → digits (λ _. zero) min fuel a mask ≡ a % width

Masks-nothing : Masks 0 1
unfolding Masks
Masks-nothing zero zero bound = refl
Masks-nothing zero (suc a) bound = absurd (omega arith)
Masks-nothing (suc fuel) zero bound = refl
Masks-nothing (suc fuel) (suc a) bound = omega (arith, Masks-nothing fuel (suc a / 2) (omega arith))

digits-zero : (fuel mask : ℕ) → digits (λ _. zero) min fuel 0 mask ≡ 0
digits-zero zero mask = refl
digits-zero (suc fuel) mask = refl

-- One more low bit.
Masks-bit :
    (mask width doubled : ℕ)
    → ((a : ℕ) → a % doubled ≡ a / 2 % width * 2 + a % 2)
    → Masks mask width
    → Masks (mask * 2 + 1) doubled
unfolding Masks
Masks-bit mask width doubled split lower zero zero bound = ground (arith, split 0, lower 0 0)
Masks-bit mask width doubled split lower zero (suc a) bound = absurd (omega arith)
Masks-bit mask width doubled split lower (suc fuel) zero bound =
    omega (arith, split 0, lower 0 0 (omega arith), digits-zero 0 mask)
Masks-bit mask width doubled split lower (suc fuel) (suc a) bound =
    let half : (mask * 2 + 1) / 2 ≡ mask = omega arith in
    let rest = ap (digits (λ _. zero) min fuel (suc a / 2)) half in
    omega (arith, split (suc a), rest, lower fuel (suc a / 2) (omega arith))

Masks-one : Masks 1 2
Masks-one = Masks-bit 0 1 2 (λ a. omega arith) Masks-nothing

Masks-fifteen : Masks 15 16
Masks-fifteen =
    Masks-bit 7 8 16 (λ a. omega arith)
      (Masks-bit 3 4 8 (λ a. omega arith) (Masks-bit 1 2 4 (λ a. omega arith) Masks-one))

pub bit_and_fifteen : (a : ℕ) → bit_and a 15 ≡ a % 16
unfolding Masks
bit_and_fifteen a = omega (arith, bit_and-bitwise a 15, Masks-fifteen a a (omega arith))

pub bit_and_one : (a : ℕ) → bit_and a 1 ≡ a % 2
unfolding Masks
bit_and_one a = omega (arith, bit_and-bitwise a 1, Masks-one a a (omega arith))
