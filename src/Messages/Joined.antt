-- ===== src/Messages/Joined.antt =====
-- Numbers joined by spaces, the text of every message, and its tokens.
use os_domotics.Messages.{next_unsigned}
use os_domotics.Prelude.{
  All, All-append, Bytes, Lacks, List, [], ap, append-nil, append_assoc, arith, inl, length,
  length-append, none, refl, some, ℕ, ◌*◌, ◌++◌, ◌<◌, ◌^◌, ◌∷◌, ◌≡◌, ◌≤◌, ◌⊎◌,
}
use os_domotics.Text.{print_unsigned, space, strtok}
use os_domotics.Text.Decimal.{
  Lacks-IsDigit, length-print_unsigned, print_unsigned-IsDigit, print_unsigned-ne-nil,
  string_to_unsigned-print_unsigned,
}
use os_domotics.Text.Tokens.{strtok-Lacks, strtok-append}

abbrev pub IsInt : ℕ → Type 0
IsInt n = n < 2 ^ 31

-- Each number behind a space.
abbrev pub spaced : List ℕ → Bytes
spaced [] = []
spaced (x ∷ xs) = space ∷ (print_unsigned x ++ spaced xs)

abbrev pub joined : List ℕ → Bytes
joined [] = []
joined (x ∷ xs) = print_unsigned x ++ spaced xs

pub print_unsigned-Lacks : (b n : ℕ) → (b < 48) ⊎ (57 < b) → Lacks b (print_unsigned n)
print_unsigned-Lacks b n h = Lacks-IsDigit b (print_unsigned n) h (print_unsigned-IsDigit n)

pub strtok-joined :
    (x : ℕ) (xs : List ℕ) → strtok space (joined (x ∷ xs)) ≡ some (print_unsigned x, joined xs)
strtok-joined x [] = rw append-nil (
    strtok-Lacks space (print_unsigned x) (print_unsigned-ne-nil x)
      (print_unsigned-Lacks space x (inl (omega arith))))
strtok-joined x (y ∷ ys) =
    strtok-append space (print_unsigned x) (joined (y ∷ ys)) (print_unsigned-ne-nil x)
      (print_unsigned-Lacks space x (inl (omega arith)))

pub strtok-nil : strtok space [] ≡ none
unfolding strtok
strtok-nil = refl

pub next_unsigned-joined :
    (x : ℕ) (xs : List ℕ) → IsInt x → next_unsigned (joined (x ∷ xs)) ≡ some (x, joined xs)
unfolding next_unsigned
next_unsigned-joined x xs h =
    ground (arith, strtok-joined x xs, string_to_unsigned-print_unsigned x h)

spaced-Lacks : (xs : List ℕ) → Lacks 0 (spaced xs)
spaced-Lacks [] = tt
spaced-Lacks (x ∷ xs) = (
  λ e. absurd (omega arith),
  All-append _ (print_unsigned x) (spaced xs) (print_unsigned-Lacks 0 x (inl (omega arith)))
      (spaced-Lacks xs),
)

-- No message holds a terminator.
pub joined-Lacks : (xs : List ℕ) → Lacks 0 (joined xs)
joined-Lacks [] = tt
joined-Lacks (x ∷ xs) =
    All-append _ (print_unsigned x) (spaced xs) (print_unsigned-Lacks 0 x (inl (omega arith)))
      (spaced-Lacks xs)

pub joined-append :
    (x : ℕ) (xs ys : List ℕ) → joined (x ∷ xs) ++ spaced ys ≡ joined (x ∷ (xs ++ ys))
joined-append x xs ys = rw append_assoc (ap (λ l. print_unsigned x ++ l) (spaced-append xs ys))
  where
    spaced-append : (xs ys : List ℕ) → spaced xs ++ spaced ys ≡ spaced (xs ++ ys)
    spaced-append [] ys = refl
    spaced-append (x ∷ xs) ys =
        rw append_assoc (ap (λ l. space ∷ (print_unsigned x ++ l)) (spaced-append xs ys))

-- Every 16-bit number takes at most six bytes with its space.
pub length-spaced : (xs : List ℕ) → All (λ x. x < 65536) xs → length (spaced xs) ≤ 6 * length xs
length-spaced [] h = omega arith
length-spaced (x ∷ xs) h = omega (
  arith,
  length-append (print_unsigned x) (spaced xs),
  length-print_unsigned x 4 (omega arith),
  length-spaced xs h.1,
)
