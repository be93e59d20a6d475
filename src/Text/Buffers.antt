-- ===== src/Text/Buffers.antt =====
-- What snprintf leaves in a buffer, and what is read from it.
use os_domotics.Prelude.{
  Bytes, Lacks, [], ap, append_assoc, arith, drop, length, length-append, refl, suc, take_all, zero,
  ℕ, ◌++◌, ◌+◌, ◌<◌, ◌∷◌, ◌≡◌, ◌≤◌,
}
use os_domotics.Text.{c_string, overwrite, snprintf, string_length}

pub length-overwrite : (s buffer : Bytes) → length (overwrite s buffer) ≡ length buffer
unfolding overwrite
length-overwrite [] buffer = refl
length-overwrite (c ∷ s) [] = refl
length-overwrite (c ∷ s) (x ∷ buffer) = ap suc (length-overwrite s buffer)

pub length-snprintf :
    (size : ℕ) (text buffer : Bytes) → length (snprintf size text buffer) ≡ length buffer
unfolding snprintf
length-snprintf zero text buffer = refl
length-snprintf (suc n) text buffer = length-overwrite _ buffer

pub overwrite-append :
    (s buffer : Bytes) → length s ≤ length buffer → overwrite s buffer ≡ s ++ drop (length s) buffer
unfolding overwrite
overwrite-append [] buffer h = refl
overwrite-append (c ∷ s) [] h = absurd (omega arith)
overwrite-append (c ∷ s) (x ∷ buffer) h = ap (λ l. c ∷ l) (overwrite-append s buffer (omega arith))

-- A text that fits stands whole before its terminator.
pub snprintf_fits :
    (size : ℕ) (text buffer : Bytes)
    → length text < size
    → size ≤ length buffer
    → snprintf size text buffer ≡ text ++ 0 ∷ drop (length text + 1) buffer
unfolding snprintf
snprintf_fits zero text buffer h k = absurd (omega arith)
snprintf_fits (suc n) text buffer h k = rw (
  take_all n text (omega arith),
  overwrite-append (text ++ 0 ∷ []) buffer (omega (arith, length-append text (0 ∷ []))),
  length-append text (0 ∷ []),
  append_assoc,
)

pub c_string-append : (text rest : Bytes) → Lacks 0 text → c_string (text ++ 0 ∷ rest) ≡ text
unfolding c_string
c_string-append [] rest l = refl
c_string-append (c ∷ text) rest l = ground (arith, l.0, c_string-append text rest l.1)

pub string_length-append :
    (text rest : Bytes) (n : ℕ)
    → Lacks 0 text
    → length text < n
    → string_length (text ++ 0 ∷ rest) n ≡ length text
unfolding string_length
string_length-append text rest zero l h = absurd (omega arith)
string_length-append [] rest (suc n) l h = refl
string_length-append (c ∷ text) rest (suc n) l h =
    ground (arith, l.0, string_length-append text rest n l.1)
