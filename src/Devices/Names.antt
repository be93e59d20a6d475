-- ===== src/Devices/Names.antt =====
-- The names of the types of devices, by `format_device_type`.
use os_domotics.Controller.{same_text}
use os_domotics.Devices.{control_name, format_device_type, leaf_name}
use os_domotics.ManualInteraction.Agreement.{is_device_type}
use os_domotics.Prelude.{
  Bytes, [], arith, holds_upto, length, ltb, ltb→lt, not, refl, true, upto_holds, ℕ, ◌&&◌, ◌<◌,
  ◌==◌, ◌||◌, ◌∷◌, ◌≡◌,
}

same_text_refl : (s : Bytes) → same_text s s ≡ true
unfolding same_text
same_text_refl [] = refl
same_text_refl (c ∷ s) = ground (arith, same_text_refl s)

-- `DEVICE_TYPE_SIZE`
fits_table : holds_upto (λ type. ltb (length (format_device_type type)) 16) 255 ≡ true
unfolding holds_upto format_device_type leaf_name control_name
fits_table = refl

names_table :
    holds_upto
      (λ a.
        holds_upto
          (λ b.
            not (is_device_type a && is_device_type b)
            || (not (same_text (format_device_type a) (format_device_type b)) || a == b))
          15)
      15
    ≡ true
unfolding holds_upto format_device_type leaf_name control_name same_text
names_table = refl

-- The name of every type fits in its buffer with its terminator, and two types of devices that have the same
-- name are the same.
pub format_device_type-tells :
    (a b : ℕ)
    → a < 256
    → (length (format_device_type a) < 16)
      × (is_device_type a ≡ true
          → is_device_type b ≡ true
          → format_device_type a ≡ format_device_type b
          → a ≡ b)
format_device_type-tells a b h = (
  ltb→lt _ _ (
      upto_holds (λ type. ltb (length (format_device_type type)) 16) 255 a fits_table
        (omega arith)),
  λ da db same.
      let low : a < 16 = ground (arith, da) in
      let low' : b < 16 = ground (arith, db) in
      let row =
        upto_holds
          (λ a.
            holds_upto
              (λ b.
                not (is_device_type a && is_device_type b)
                || (not (same_text (format_device_type a) (format_device_type b)) || a == b))
              15)
          15 a names_table (omega arith) in
      let cell =
        upto_holds
          (λ b.
            not (is_device_type a && is_device_type b)
            || (not (same_text (format_device_type a) (format_device_type b)) || a == b))
          15 b row (omega arith) in
      let text : same_text (format_device_type a) (format_device_type b) ≡ true =
        rw same (same_text_refl (format_device_type b)) in
      ground (arith, cell, text, da, db),
)
