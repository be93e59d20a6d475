-- ===== src/ReturnCodes/Exits.antt =====
-- The code that a process exits with: an error of its shutdown, or else the error that it is ended for.
use os_domotics.Prelude.{Bool-cases, arith, if◌then◌else◌, inl, inr, true, ℕ, ◌≡◌, ◌⊎◌}
use os_domotics.ReturnCodes.{is_error}

abbrev pub exit_code : ℕ → ℕ → ℕ
exit_code last error = if is_error last then last else error

pub exit_code-cases :
    (last error : ℕ) → (is_error (exit_code last error) ≡ true) ⊎ (exit_code last error ≡ error)
exit_code-cases last error = elim (Bool-cases (is_error last)) [
  | inl bad ↦ inl (ground (arith, bad))
  | inr good ↦ inr (ground (arith, good))
]
