-- ===== src/Utils/Names.antt =====
-- Names of pipes: they fit in their buffers, and no two pipes share one.
use os_domotics.Prelude.{
  All-append, Bool, Bytes, Lacks, ap, arith, codes, drop, false, if◌then◌else◌, inl, inr, length,
  length-append, refl, sym, true, ℕ, ◌++◌, ◌<◌, ◌^◌, ◌∙◌, ◌∷◌, ◌≡◌, ◌≢◌, ◌≤◌,
}
use os_domotics.ReturnCodes.{ok}
use os_domotics.Text.{after_token, c_string, print_unsigned, token_of}
use os_domotics.Text.Buffers.{c_string-append, snprintf_fits}
use os_domotics.Text.Decimal.{
  Lacks-IsDigit, length-print_unsigned, print_unsigned-IsDigit, string_to_unsigned-print_unsigned,
}
use os_domotics.Text.Tokens.{after_token-append, token_of-append}
use os_domotics.Utils.{create_fifo_name, fifo_text, pipe_name_max_length}

print_unsigned-injective :
    (a b : ℕ) → a < 2 ^ 31 → b < 2 ^ 31 → print_unsigned a ≡ print_unsigned b → a ≡ b
print_unsigned-injective a b ha hb e =
    ground
      (arith, string_to_unsigned-print_unsigned a ha, string_to_unsigned-print_unsigned b hb, e)

abbrev direction_text : Bool → Bytes
direction_text direction = if direction then codes "down" else codes "up"

Lacks-underscore : (n : ℕ) → Lacks 95 (print_unsigned n)
Lacks-underscore n =
    Lacks-IsDigit 95 (print_unsigned n) (inr (omega arith)) (print_unsigned-IsDigit n)

length-fifo_text : (id : ℕ) (direction : Bool) → id < 65536 → length (fifo_text id direction) ≤ 21
length-fifo_text id true h = omega (
  arith,
  length-append (print_unsigned id) (95 ∷ (codes "down" ++ codes ".fifo")),
  length-print_unsigned id 4 (omega arith),
)
length-fifo_text id false h = omega (
  arith,
  length-append (print_unsigned id) (95 ∷ (codes "up" ++ codes ".fifo")),
  length-print_unsigned id 4 (omega arith),
)

-- The name of a pipe of any device fits in the 24 bytes that every caller gives, so that no caller takes its
-- branch on an error of the name.
pub create_fifo_name-fits :
    (id : ℕ) (direction : Bool) (buffer : Bytes)
    → id < 65536
    → length buffer ≡ pipe_name_max_length
    → ((create_fifo_name id direction buffer pipe_name_max_length).1 ≡ ok)
      × (c_string (create_fifo_name id direction buffer pipe_name_max_length).0
          ≡ fifo_text id direction)
unfolding create_fifo_name
create_fifo_name-fits id direction buffer h fits =
    let short = length-fifo_text id direction h in
    (
      ground arith,
      rw
          (snprintf_fits pipe_name_max_length (fifo_text id direction) buffer (omega arith)
            (omega arith))
          (c_string-append (fifo_text id direction) _ (lacks_zero id direction)),
    )
  where
    letters : (direction : Bool) → Lacks 0 (95 ∷ (direction_text direction ++ codes ".fifo"))
    letters true = omega arith
    letters false = omega arith

    lacks_zero : (id : ℕ) (direction : Bool) → Lacks 0 (fifo_text id direction)
    lacks_zero id direction =
        All-append (λ c. c ≢ 0) (codes "./ipc/") _ (omega arith)
          (All-append (λ c. c ≢ 0) (print_unsigned id) _
            (Lacks-IsDigit 0 (print_unsigned id) (inl (omega arith)) (print_unsigned-IsDigit id))
            (letters direction))

-- Two pipes with the same name belong to the same device and have the same direction.
pub fifo_text-injective :
    (a b : ℕ) (d e : Bool)
    → a < 65536
    → b < 65536
    → fifo_text a d ≡ fifo_text b e
    → (a ≡ b) × (d ≡ e)
fifo_text-injective a b d e ha hb same =
    let behind = ap (drop 6) same in
    let digits =
      sym (
        token_of-append 95 (print_unsigned a) (direction_text d ++ codes ".fifo")
          (Lacks-underscore a))
      ∙ ap (token_of 95) behind
      ∙ token_of-append 95 (print_unsigned b) (direction_text e ++ codes ".fifo")
          (Lacks-underscore b) in
    let letters =
      sym (
        after_token-append 95 (print_unsigned a) (direction_text d ++ codes ".fifo")
          (Lacks-underscore a))
      ∙ ap (after_token 95) behind
      ∙ after_token-append 95 (print_unsigned b) (direction_text e ++ codes ".fifo")
          (Lacks-underscore b) in
    (print_unsigned-injective a b (omega arith) (omega arith) digits, apart d e letters)
  where
    apart :
        (d e : Bool) → direction_text d ++ codes ".fifo" ≡ direction_text e ++ codes ".fifo" → d ≡ e
    apart true true h = refl
    apart true false h = cc
    apart false true h = cc
    apart false false h = refl
