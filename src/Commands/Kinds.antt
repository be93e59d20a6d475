-- ===== src/Commands/Kinds.antt =====
-- Facts about the bits of a command code, for every byte.
use os_domotics.Commands.{
  has_response_arguments, is_delete, is_info, is_link, is_registry, is_switch,
}
use os_domotics.Prelude.{
  arith, false, holds_upto, not, refl, true, upto_holds, ℕ, ◌&&◌, ◌<◌, ◌||◌, ◌≡◌,
}

-- Whether a response announces arguments is fixed by its command.
announces_table :
    holds_upto
      (λ c.
        (not (is_switch c || is_delete c) || not (has_response_arguments c))
        && (not (is_info c || (is_link c || is_registry c)) || has_response_arguments c))
      255
    ≡ true
unfolding holds_upto
announces_table = refl

announces :
    (c : ℕ)
    → c < 256
    → ((not (is_switch c || is_delete c) || not (has_response_arguments c))
        && (not (is_info c || (is_link c || is_registry c)) || has_response_arguments c))
      ≡ true
announces c h = upto_holds _ 255 c announces_table (omega arith)

pub switch_unannounced :
    (c : ℕ) → c < 256 → (is_switch c || is_delete c) ≡ true → has_response_arguments c ≡ false
switch_unannounced c h e = ground (arith, announces c h)

pub info_announced :
    (c : ℕ)
    → c < 256
    → (is_info c || (is_link c || is_registry c)) ≡ true
    → has_response_arguments c ≡ true
info_announced c h e = ground (arith, announces c h)
