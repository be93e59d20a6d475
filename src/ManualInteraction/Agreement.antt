-- ===== src/ManualInteraction/Agreement.antt =====
-- The checks of a manual command agree with those of the controller, as long as it is on.
use os_domotics.Controller.Check
use os_domotics.Commands.{
  is_registry, is_switch, registry_begin, registry_delay, registry_end, registry_subcommand,
}
use os_domotics.Controller.{UserCommand, set_command, switch_command}
use os_domotics.Controller.Check.{Controller, check_registry, check_switch, check_target}
use os_domotics.Devices.{
  controller_id, is_bulb, is_bulb_like, is_control, is_empty, is_fridge, is_fridge_like, is_window,
  is_window_like, state_off,
}
use os_domotics.ManualInteraction.{check_user_command}
use os_domotics.Prelude.{
  Bool, Bool-cases, ap, arith, false, holds_upto, if◌then◌else◌, inl, inr, ltb, not, refl, some,
  true, upto_holds, ℕ, ◌&&◌, ◌==◌, ◌||◌, ◌≡◌, ◌⊎◌,
}
use os_domotics.ReturnCodes.{system_off}
use os_domotics.Routing.{Entry, find_routing_data}
use os_domotics.Timer.Mirror.{kind}
use os_domotics.Utils.{Kernel}

-- The types of devices: a leaf type, or a control device with or without one.
abbrev pub is_device_type : ℕ → Bool
is_device_type type =
    ltb type 16 && (is_control type || (is_bulb type || (is_window type || is_fridge type)))

-- A type has a leaf type or is an empty control type.
abbrev leaf_bits : ℕ → Bool
leaf_bits type = is_bulb_like type || (is_window_like type || is_fridge_like type)

leaf_table :
    holds_upto
      (λ type.
        not (is_device_type type)
        || (if is_control type && is_empty type then not (leaf_bits type) else leaf_bits type))
      15
    ≡ true
unfolding holds_upto
leaf_table = refl

leaf_or_empty :
    (type : ℕ)
    → is_device_type type ≡ true
    → leaf_bits type ≡ not (is_control type && is_empty type)
leaf_or_empty type t =
    let checked =
      upto_holds
        (λ type.
          not (is_device_type type)
          || (if is_control type && is_empty type then not (leaf_bits type) else leaf_bits type))
        15 type leaf_table in
    ground (arith, checked)

switches_agree :
    (u : UserCommand) (type : ℕ)
    → u.code ≡ switch_command
    → is_switch u.message_code ≡ true
    → is_device_type type ≡ true
    → check_switch type u.message_code ≡ check_user_command u type
unfolding check_user_command
switches_agree u type c s t = ground (arith, leaf_or_empty type t)

registers_agree :
    (u : UserCommand) (type : ℕ)
    → u.code ≡ set_command
    → is_registry u.message_code ≡ true
    → (registry_subcommand u.message_code == registry_begin
        || (registry_subcommand u.message_code == registry_end
            || registry_subcommand u.message_code == registry_delay))
      ≡ true
    → check_registry type u.message_code ≡ check_user_command u type
unfolding check_user_command
registers_agree u type c s known = ground arith

target_check :
    (fuel : ℕ) (k : Kernel) (c : Controller) (u : UserCommand) (error : ℕ)
    → ((u.code ≡ switch_command) × (is_switch u.message_code ≡ true))
      ⊎ ((u.code ≡ set_command) × (is_registry u.message_code ≡ true))
    → (u.target == controller_id) ≡ false
    → k.locked ≡ true
    → k.unlocked ≡ true
    → check_target fuel c.routing_table u ≡ some error
    → Check.check_user_command fuel k c u
      ≡ some (c, if c.state == state_off then system_off else error)
unfolding Check.check_user_command
target_check fuel k c u error kind away locked unlocked checked =
    elim (Bool-cases (c.state == state_off)) [
      | inl off ↦ elim kind [
        | inl (s, m) ↦ ground (arith, off, s, away)
        | inr (s, m) ↦ ground (arith, off, s, away)
      ]
      | inr on ↦ elim kind [
        | inl (s, m) ↦ rw (checked, on, locked, unlocked, s, away) (ground (arith, m))
        | inr (s, m) ↦ rw (checked, on, locked, unlocked, s, away) (ground (arith, m))
      ]
    ]

-- For a device of the controller's table, other than the controller and of any type that there is, and
-- while the controller's mutex works: the controller gives a switch of a user the same code as a manual
-- interaction gives the same switch, if the controller is on, and refuses every switch with `SYSTEM_OFF` if
-- it is off.
pub check_user_command-switch :
    (fuel : ℕ) (k : Kernel) (c : Controller) (u : UserCommand) (device : Entry)
    → u.code ≡ switch_command
    → is_switch u.message_code ≡ true
    → (u.target == controller_id) ≡ false
    → k.locked ≡ true
    → k.unlocked ≡ true
    → find_routing_data c.routing_table u.target ≡ some device
    → is_device_type device.type ≡ true
    → Check.check_user_command fuel k c u
      ≡ some (c, if c.state == state_off then system_off else check_user_command u device.type)
unfolding check_target
check_user_command-switch fuel k c u device code s away locked unlocked found t =
    target_check fuel k c u (check_user_command u device.type) (inl (code, s)) away locked unlocked
      (rw (check_target, found, s) (ap some (switches_agree u device.type code s t)))

-- For a device of the controller's table, other than the controller and of any type, and while the
-- controller's mutex works: the controller gives a set command for the begin, the end or the delay the same
-- code as a manual interaction gives the same command, if the controller is on, and refuses it with
-- `SYSTEM_OFF` if it is off.
pub check_user_command-registry :
    (fuel : ℕ) (k : Kernel) (c : Controller) (u : UserCommand) (device : Entry)
    → u.code ≡ set_command
    → is_registry u.message_code ≡ true
    → (registry_subcommand u.message_code == registry_begin
        || (registry_subcommand u.message_code == registry_end
            || registry_subcommand u.message_code == registry_delay))
      ≡ true
    → (u.target == controller_id) ≡ false
    → k.locked ≡ true
    → k.unlocked ≡ true
    → find_routing_data c.routing_table u.target ≡ some device
    → Check.check_user_command fuel k c u
      ≡ some (c, if c.state == state_off then system_off else check_user_command u device.type)
unfolding check_target
check_user_command-registry fuel k c u device code s known away locked unlocked found =
    let no_switch : is_switch u.message_code ≡ false = ground (arith, s) in
    target_check fuel k c u (check_user_command u device.type) (inr (code, s)) away locked unlocked
      (rw (check_target, found, no_switch, s)
        (ap some (registers_agree u device.type code s known)))
