-- ===== src/Controller/Parsed.antt =====
-- The commands that the parser accepts.
use os_domotics.Commands.{
  is_registry, registry, registry_begin, registry_delay, registry_end, registry_subcommand,
}
use os_domotics.Controller.{
  UserCommand, delay_value, parse_set_command, same_text, set_command, set_value, time_value,
}
use os_domotics.Devices.{max_delay, min_delay}
use os_domotics.Prelude.{
  Bool, Bytes, Option, Option-cases, arith, bit_or, codes, false, if◌then◌else◌, inl, inr, ltb,
  negsuc, none, pos, refl, some, true, u16, ℕ, ℤ, ◌<◌, ◌||◌, ◌≡◌, ◌≤◌, ◌⊎◌,
}
use os_domotics.ReturnCodes.{invalid_command_argument, ok}
use os_domotics.Text.{space, string_to_unsigned, strtok}
use os_domotics.Utils.{parse_time}
use os_domotics.Utils.Times.{IsTime, minute, parse_time-IsTime}

-- The limits of the registers that the user can set.
pub record IsSetting (u : UserCommand) : Type 0 where
  pub code : u.code ≡ set_command
  pub is_set : is_registry u.message_code ≡ true
  pub argument :
      ((registry_subcommand u.message_code ≡ registry_delay)
        × (5 ≤ u.argument)
        × (u.argument ≤ 180))
      ⊎ ((registry_subcommand u.message_code ≡ registry_begin) × (u.argument < 1440))
      ⊎ ((registry_subcommand u.message_code ≡ registry_end) × (u.argument < 1440))

delay_value-bounds : (word : Bytes) (n : ℕ) → delay_value word ≡ some n → (5 ≤ n) × (n ≤ 180)
delay_value-bounds word n h = go (string_to_unsigned word) h
  where
    go :
        (z : ℤ)
        → (elim z [
          | negsuc _ ↦ none
          | pos m ↦ if ltb m min_delay || ltb max_delay m then none else some m
        ])
          ≡ some n
        → (5 ≤ n) × (n ≤ 180)
    go (negsuc _) h = cc
    go (pos m) h = ground (arith, h)

time_value-bounds : (word : Bytes) (n : ℕ) → time_value word ≡ some n → n < 1440
time_value-bounds word n h = go (parse_time word) (parse_time-IsTime word) h
  where
    go : (z : ℤ) → IsTime z → (elim z [ negsuc _ ↦ none | pos m ↦ some m ]) ≡ some n → n < 1440
    go (negsuc _) t h = cc
    go (pos m) (minute _ below) h = ground (arith, h)

abbrev Accepted : UserCommand × Bytes × ℕ → Type 0
Accepted result = result.2 ≡ ok → IsSetting result.0

set_value-Accepted :
    (u : UserCommand) (bits : ℕ) (value : Option ℕ) (rest : Bytes)
    → u.code ≡ set_command
    → ((n : ℕ)
        → value ≡ some n
        → ((bits ≡ registry_delay) × (5 ≤ n) × (n ≤ 180))
          ⊎ ((bits ≡ registry_begin) × (n < 1440))
          ⊎ ((bits ≡ registry_end) × (n < 1440)))
    → Accepted (set_value u bits value rest)
unfolding set_value
set_value-Accepted u bits none rest c h = λ e. cc
set_value-Accepted u bits (some n) rest c h = λ e. go (h n refl)
  where
    go :
        ((bits ≡ registry_delay) × (5 ≤ n) × (n ≤ 180))
          ⊎ ((bits ≡ registry_begin) × (n < 1440))
          ⊎ ((bits ≡ registry_end) × (n < 1440))
        → IsSetting (record u { message_code = bit_or registry bits; argument = u16 n })
    go (inl (e, low, high)) = record {
      code = c;
      is_set = rw e refl;
      argument = inl (rw e refl, omega arith, omega arith);
    }
    go (inr (inl (e, h))) = record {
      code = c;
      is_set = rw e refl;
      argument = inr (inl (rw e refl, omega arith));
    }
    go (inr (inr (e, h))) = record {
      code = c;
      is_set = rw e refl;
      argument = inr (inr (rw e refl, omega arith));
    }

one_of_four :
    (a b c : Bool) (x y z w : UserCommand × Bytes × ℕ)
    → Accepted x
    → Accepted y
    → Accepted z
    → Accepted w
    → Accepted (if a then x else if b then y else if c then z else w)
one_of_four true b c x y z w p q r s = p
one_of_four false true c x y z w p q r s = q
one_of_four false false true x y z w p q r s = r
one_of_four false false false x y z w p q r s = s

-- Whatever the text, a set command that the parser accepts sets the delay to 5 to 180 seconds, or the begin
-- or the end to a minute of the day: what the device takes.
pub parse_set_command-IsSetting :
    (u : UserCommand) (last : Bytes)
    → (parse_set_command u last).2 ≡ ok
    → IsSetting (parse_set_command u last).0
unfolding parse_set_command
parse_set_command-IsSetting u last =
    let u' = record u { code = set_command; message_code = registry } in
    elim (Option-cases (strtok space last)) [
      | inl out ↦ rw (parse_set_command, out) (λ e. cc)
      | inr ((label, rest), found) ↦ elim (Option-cases (strtok space rest)) [
        | inl out ↦ rw (parse_set_command, found, out) (λ e. cc)
        | inr ((value, rest'), found') ↦
            rw (parse_set_command, found, found')
              (one_of_four (same_text label (codes "delay")) (same_text label (codes "begin"))
                (same_text label (codes "end")) _ _ _ (u', rest', invalid_command_argument)
                (set_value-Accepted u' registry_delay (delay_value value) rest' refl
                  (λ n e. let (low, high) = delay_value-bounds value n e in inl (refl, low, high)))
                (set_value-Accepted u' registry_begin (time_value value) rest' refl
                  (λ n e. inr (inl (refl, time_value-bounds value n e))))
                (set_value-Accepted u' registry_end (time_value value) rest' refl
                  (λ n e. inr (inr (refl, time_value-bounds value n e))))
                (λ e. cc))
      ]
    ]
