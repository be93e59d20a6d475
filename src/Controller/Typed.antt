-- ===== src/Controller/Typed.antt =====
-- The lines that the user types, as `input` gives them.
use os_domotics.Controller.Session.{
  Reads, Taken, Terminal, after_skip, broken_off, end_of_file, failed_input, input, line_of,
  no_more, skip_line, standard_line, take_line, taken,
}
use os_domotics.Prelude.{
  Bool-cases, Bytes, Lacks, Option, [], append-nil, arith, drop, false, if◌then◌else◌, inl, inr,
  length, ltb, ltb→lt, none, refl, some, subst, suc, take, true, zero, ℕ, ℤ, ◌++◌, ◌-◌, ◌<◌, ◌∷◌,
  ◌≡◌, ◌≤◌, ◌⊎◌,
}
use os_domotics.ReturnCodes.{buffer_too_short, unable_to_read_file}

-- The reads of some bytes.
abbrev pub typed : Bytes → Reads
typed [] = []
typed (c ∷ line) = some c ∷ typed line

take_line_short :
    (room : ℕ) (line : Bytes) (rest : Reads)
    → Lacks 10 line
    → length line < room
    → take_line room (typed line ++ some 10 ∷ rest) ≡ taken line true rest
unfolding take_line
take_line_short zero line rest l h = absurd (omega arith)
take_line_short (suc room) [] rest l h = ground arith
take_line_short (suc room) (c ∷ line) rest l h =
    ground (arith, l.0, take_line_short room line rest l.1 (omega arith))

take_line_long :
    (room : ℕ) (line : Bytes) (rest : Reads)
    → Lacks 10 line
    → room ≤ length line
    → take_line room (typed line ++ some 10 ∷ rest)
      ≡ taken (take room line) false (typed (drop room line) ++ some 10 ∷ rest)
unfolding take_line
take_line_long zero line rest l h = refl
take_line_long (suc room) [] rest l h = absurd (omega arith)
take_line_long (suc room) (c ∷ line) rest l h =
    ground (arith, l.0, take_line_long room line rest l.1 (omega arith))

Lacks-drop : (d n : ℕ) (s : Bytes) → Lacks d s → Lacks d (drop n s)
Lacks-drop d zero s l = l
Lacks-drop d (suc n) [] l = l
Lacks-drop d (suc n) (c ∷ s) l = Lacks-drop d n s l.1

skip_line_end :
    (line : Bytes) (rest : Reads)
    → Lacks 10 line
    → skip_line (typed line ++ some 10 ∷ rest) ≡ taken [] true rest
unfolding skip_line
skip_line_end [] rest l = ground arith
skip_line_end (c ∷ line) rest l = ground (arith, l.0, skip_line_end line rest l.1)

-- A line that is cut by the end of the file, or by a failed read with some reads after it.
abbrev cut : Option Reads → Reads
cut none = []
cut (some rest) = none ∷ rest

abbrev cut_off : Option Reads → Taken
cut_off none = no_more
cut_off (some rest) = broken_off rest

skip_line-cut :
    (line : Bytes) (o : Option Reads) → Lacks 10 line → skip_line (typed line ++ cut o) ≡ cut_off o
unfolding skip_line
skip_line-cut [] none l = refl
skip_line-cut [] (some rest) l = refl
skip_line-cut (c ∷ line) o l = ground (arith, l.0, skip_line-cut line o l.1)

take_line-cut :
    (room : ℕ) (line : Bytes) (o : Option Reads)
    → Lacks 10 line
    → (take_line room (typed line ++ cut o) ≡ cut_off o)
      ⊎ ((begun : Bytes) × (take_line room (typed line ++ cut o)
            ≡ taken begun false (typed (drop room line) ++ cut o)))
unfolding take_line
take_line-cut zero line o l = inr ([], refl)
take_line-cut (suc room) [] none l = inl refl
take_line-cut (suc room) [] (some rest) l = inl refl
take_line-cut (suc room) (c ∷ line) none l = elim (take_line-cut room line none l.1) [
  | inl out ↦ inl (ground (arith, l.0, out))
  | inr (begun, found) ↦ inr (c ∷ begun, ground (arith, l.0, found))
]
take_line-cut (suc room) (c ∷ line) (some rest) l = elim (take_line-cut room line (some rest) l.1) [
  | inl out ↦ inl (ground (arith, l.0, out))
  | inr (begun, found) ↦ inr (c ∷ begun, ground (arith, l.0, found))
]

abbrev pub terminal_of : (ℕ → ℤ × Bytes) → Reads → Terminal
terminal_of windows stdin = record { windows = windows; stdin = stdin }

input-cut :
    (size : ℕ) (windows : ℕ → ℤ × Bytes) (line : Bytes) (o : Option Reads)
    → Lacks 10 line
    → input false size (terminal_of windows (typed line ++ cut o))
      ≡ standard_line (cut_off o) (terminal_of windows (typed line ++ cut o))
unfolding input
input-cut size windows line o l =
    let skipped = skip_line-cut (drop (size - 1) line) o (Lacks-drop 10 (size - 1) line l) in
    elim (take_line-cut (size - 1) line o l) [
      | inl out ↦ rw (input, out) refl
      | inr (begun, found) ↦ rw (input, found, skipped) (passed o)
    ]
  where
    passed :
        (o : Option Reads)
        → after_skip (cut_off o) (terminal_of windows (typed line ++ cut o))
          ≡ standard_line (cut_off o) (terminal_of windows (typed line ++ cut o))
    passed none = refl
    passed (some rest) = refl

-- Without ncurses, each call of `input` with a buffer of at least two cells takes one whole line from the
-- standard input, of whatever length: a line that fits in the buffer with its line feed and a terminator is
-- given without the line feed, and a longer one is refused and skipped, so that the next call begins with the
-- next line. Where the file ends before a line feed comes, it is the end of the file, and where a read fails
-- before, the error is that of the file, and the next call begins behind the failed read.
pub input_whole_line :
    (size : ℕ) (windows : ℕ → ℤ × Bytes)
    → 2 ≤ size
    → ((line : Bytes) (rest : Reads)
        → Lacks 10 line
        → input false size (terminal_of windows (typed line ++ some 10 ∷ rest)) ≡ (
            if ltb (length line) (size - 1)
            then line_of line (terminal_of windows rest)
            else failed_input buffer_too_short (terminal_of windows rest)))
      × ((line : Bytes)
          → Lacks 10 line
          → input false size (terminal_of windows (typed line)) ≡ end_of_file)
      × ((line : Bytes) (rest : Reads)
          → Lacks 10 line
          → input false size (terminal_of windows (typed line ++ none ∷ rest))
            ≡ failed_input unable_to_read_file (terminal_of windows rest))
unfolding input
input_whole_line size windows h = (
  λ line rest l. elim (Bool-cases (ltb (length line) (size - 1))) [
    | inl short ↦
        let run = take_line_short (size - 1) line rest l (ltb→lt (length line) (size - 1) short) in
        rw (input, run, short) refl
    | inr long ↦
        let room : size - 1 ≤ length line = ground (arith, long) in
        let run = take_line_long (size - 1) line rest l room in
        let skipped = skip_line_end (drop (size - 1) line) rest (Lacks-drop 10 (size - 1) line l) in
        rw (input, run, long, skipped) refl
  ],
  λ line l.
      subst (λ r. input false size (terminal_of windows r) ≡ end_of_file) (append-nil (typed line))
        (input-cut size windows line none l),
  λ line rest l. input-cut size windows line (some rest) l,
)
