-- ===== src/Text/Tokens.antt =====
-- strtok_r on a text whose parts are known.
use os_domotics.Prelude.{
  Bytes, Lacks, [], append-nil, arith, length, refl, some, ℕ, ◌++◌, ◌<◌, ◌∷◌, ◌≡◌,
}
use os_domotics.Text.{after_token, skip_delimiters, strtok, token_of}

skip-Lacks :
    (d : ℕ) (t rest : Bytes) → 0 < length t → Lacks d t → skip_delimiters d (t ++ rest) ≡ t ++ rest
unfolding skip_delimiters
skip-Lacks d [] rest h l = absurd (omega arith)
skip-Lacks d (c ∷ t) rest h l = ground (arith, l.0)

pub token_of-append : (d : ℕ) (t rest : Bytes) → Lacks d t → token_of d (t ++ d ∷ rest) ≡ t
unfolding token_of
token_of-append d [] rest l = ground arith
token_of-append d (c ∷ t) rest l = ground (arith, l.0, token_of-append d t rest l.1)

token_of-Lacks : (d : ℕ) (t : Bytes) → Lacks d t → token_of d t ≡ t
unfolding token_of
token_of-Lacks d [] l = refl
token_of-Lacks d (c ∷ t) l = ground (arith, l.0, token_of-Lacks d t l.1)

pub after_token-append : (d : ℕ) (t rest : Bytes) → Lacks d t → after_token d (t ++ d ∷ rest) ≡ rest
unfolding after_token
after_token-append d [] rest l = ground arith
after_token-append d (c ∷ t) rest l = ground (arith, l.0, after_token-append d t rest l.1)

after_token-Lacks : (d : ℕ) (t : Bytes) → Lacks d t → after_token d t ≡ []
unfolding after_token
after_token-Lacks d [] l = refl
after_token-Lacks d (c ∷ t) l = ground (arith, l.0, after_token-Lacks d t l.1)

-- A token with its delimiter behind it.
pub strtok-append :
    (d : ℕ) (t rest : Bytes) → 0 < length t → Lacks d t → strtok d (t ++ d ∷ rest) ≡ some (t, rest)
unfolding strtok
strtok-append d [] rest h l = absurd (omega arith)
strtok-append d (c ∷ t) rest h l = ground (
  arith,
  skip-Lacks d (c ∷ t) (d ∷ rest) h l,
  token_of-append d (c ∷ t) rest l,
  after_token-append d (c ∷ t) rest l,
)

-- The last token.
pub strtok-Lacks : (d : ℕ) (t : Bytes) → 0 < length t → Lacks d t → strtok d t ≡ some (t, [])
unfolding strtok
strtok-Lacks d [] h l = absurd (omega arith)
strtok-Lacks d (c ∷ t) h l = ground (
  arith,
  skip-Lacks d (c ∷ t) [] h l,
  append-nil t,
  token_of-Lacks d (c ∷ t) l,
  after_token-Lacks d (c ∷ t) l,
)
