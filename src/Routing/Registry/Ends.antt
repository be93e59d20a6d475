-- ===== src/Routing/Registry/Ends.antt =====
-- An export ends, whatever the calls on the files answer.
use os_domotics.Prelude.{
  Bool-cases, Bytes, List, Option, [], arith, if◌then◌else◌, inl, inr, length, none, not, refl,
  some, suc, zero, ℕ, ◌++◌, ◌+◌, ◌<◌, ◌∷◌, ◌≡◌,
}
use os_domotics.ReturnCodes.{
  is_error, ok, unable_to_close_file, unable_to_open_file, unable_to_rename_file,
  unable_to_write_file,
}
use os_domotics.Routing.{Entry, Table, find_direct_routing_data}
use os_domotics.Routing.Registry.{Files, export_lines, export_routing_table, is_put, registry_line}
use os_domotics.Routing.Tree.{IsTree, below_in, below_in-Walks, below_in-enough}
use os_domotics.Routing.Walk.{Walks}

export_lines-ends :
    (bound fuel : ℕ) (f : Files) (t : Table) (top : ℕ) (es : List Entry) (current : Option Entry)
    → Walks bound t top es current
    → bound + length es < fuel
    → (result : Bytes × ℕ) × (export_lines fuel f t top current ≡ some result)
unfolding export_lines
export_lines-ends bound fuel f t top [] current w h = (([], ok), rw w refl)
export_lines-ends bound zero f t top (e ∷ es) current w h = absurd (omega arith)
export_lines-ends bound (suc fuel) f t top (e ∷ es) current (here_now, next, found, w) h =
    let hit = found fuel (omega (arith, h)) in
    let (result, run) = export_lines-ends bound fuel f t top es next w (omega (arith, h)) in
    elim (Bool-cases (is_put f (registry_line e))) [
      | inl put ↦
          ((registry_line e ++ result.0, result.1), rw (here_now, export_lines, hit, run, put) refl)
      | inr bad ↦ (([], unable_to_write_file), rw (here_now, export_lines, hit, run, bad) refl)
    ]

closed_export : Files → Option Bytes → Bytes × ℕ → Option Bytes × ℕ
closed_export f registry (text, code) =
    if not f.shut
    then (registry, unable_to_close_file)
    else if is_error code
    then (registry, code)
    else if f.renamed
    then (some text, ok)
    else (registry, unable_to_rename_file)

pub export_routing_table-ends :
    (rank : ℕ → ℕ) (bound fuel : ℕ) (f : Files) (t : Table) (parent_id : ℕ)
    (registry : Option Bytes)
    → IsTree rank bound fuel t
    → (result : Option Bytes × ℕ) × (export_routing_table fuel f t parent_id registry ≡ some result)
unfolding export_routing_table closed_export
export_routing_table-ends rank bound fuel f t parent_id registry tree =
    let (result, run) =
      export_lines-ends bound fuel f t parent_id (below_in bound t parent_id)
        (find_direct_routing_data t parent_id none)
        (below_in-Walks rank bound fuel t tree parent_id)
        (below_in-enough rank bound fuel t tree parent_id) in
    elim (Bool-cases (f.opened)) [
      | inl opened ↦ (closed_export f registry result, rw (export_routing_table, run, opened) refl)
      | inr bad ↦ ((registry, unable_to_open_file), rw (export_routing_table, bad) refl)
    ]
