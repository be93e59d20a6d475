-- ===== src/Tests/Trees.antt =====
-- The loops over the devices of `Routing`, and the registry that is exported from them.
use native.Mathlib.Decide.{ℕ_discrete}
use os_domotics.Prelude.{
  Bytes, List, Option, [], ap, arith, false, inl, inr, length, none, refl, some, sym, true, ℕ, ◌+◌,
  ◌<◌, ◌↔◌, ◌∙◌, ◌∷◌, ◌≡◌, ◌≢◌, ◌≤◌, ◌⊎◌,
}
use os_domotics.ReturnCodes.{device_not_found, is_error, ok, unable_to_write_file}
use os_domotics.Routing.{
  Entry, Table, find_direct_routing_data, find_in_bucket, find_routing_data, init_routing_table,
  insert_routing_data, insert_routing_data_in_bucket, remove_entry, remove_routing_data_from_bucket,
  scan_bucket, scan_buckets, update_type_to_empty,
}
use os_domotics.Routing.Descendants.{find_all_routing_data-Walks}
use os_domotics.Routing.Emptied.{AreTyped, IsCompleteBut, IsSound, update_type_to_empty-AreTyped}
use os_domotics.Routing.Loops.{Visits, direct_children, find_direct_routing_data-Visits}
use os_domotics.Routing.Order.{In, IsDistinct, flat}
use os_domotics.Routing.Refinement.{
  Call, insert_indirect, promised_run, remove, retype, run, run_refines,
}
use os_domotics.Routing.Registry.{
  Files, export_lines, export_routing_table, find_device_type, registry_line,
}
use os_domotics.Routing.Registry.Exported.{IsWide, IsWorking, export_routing_table-atomic}
use os_domotics.Routing.Registry.RoundTrip.{find_device_type-exported}
use os_domotics.Routing.Remove.{Below, IsRanked}
use os_domotics.Routing.Table.{
  IsTable, find-id, find-init, find-insert_routing_data, find-remove_entry, init-IsTable,
  insert-IsTable, remove_entry-IsTable, total,
}
use os_domotics.Routing.Types.{Retyped}
use os_domotics.Routing.Walk.{Walks, descendants, preorder}
use os_domotics.Tests.Routing.{bulb, devices, devices-IsRanked, devices-IsTable, height, hub, timer}
use os_domotics.Text.{print_unsigned}

abbrev pub height_bound : ℕ
height_bound = 3

pub height-low : (q : ℕ) → height q ≤ height_bound
height-low q = ground arith

pub stored_cases :
    (q : ℕ) (e : Entry)
    → find_routing_data devices q ≡ some e
    → (e ≡ hub) ⊎ (e ≡ timer) ⊎ (e ≡ bulb)
stored_cases q e f =
    let first = insert_routing_data init_routing_table bulb in
    let second = insert_routing_data first hub in
    let first-IsTable = insert-IsTable init_routing_table bulb init-IsTable in
    let second-IsTable = insert-IsTable first hub first-IsTable in
    elim (ℕ_discrete q 17) [
      | yes s ↦
          inr (inl (ground (arith, f, s, find-insert_routing_data second timer second-IsTable q)))
      | no n ↦ elim (ℕ_discrete q 1) [
        | yes s ↦ inl (
            ground (
              arith,
              f,
              s,
              n,
              find-insert_routing_data second timer second-IsTable q,
              find-insert_routing_data first hub first-IsTable q,
            ))
        | no m ↦ inr (
            inr (
              ground (
                arith,
                f,
                n,
                m,
                find-insert_routing_data second timer second-IsTable q,
                find-insert_routing_data first hub first-IsTable q,
                find-insert_routing_data init_routing_table bulb init-IsTable q,
                find-init q,
              )))
      ]
    ]

find_direct_routing_data-Visits_example :
    Visits devices 1 (direct_children devices 1) (find_direct_routing_data devices 1 none)
    × ((e : Entry)
        → In e (direct_children devices 1)
          ↔ ((find_routing_data devices e.id ≡ some e) × (e.parent_id ≡ 1)))
    × IsDistinct (direct_children devices 1)
find_direct_routing_data-Visits_example = find_direct_routing_data-Visits devices 1 devices-IsTable

find_all_routing_data-Walks_example :
    Walks 3 devices 0 (descendants 3 devices 0) (find_direct_routing_data devices 0 none)
    × ((e : Entry)
        → In e (descendants 3 devices 0)
          ↔ ((find_routing_data devices e.id ≡ some e) × Below devices 0 e.parent_id))
    × IsDistinct (descendants 3 devices 0)
find_all_routing_data-Walks_example =
    find_all_routing_data-Walks height 3 3 devices 0 devices-IsTable devices-IsRanked height-low
      (omega arith)

abbrev pub good_files : Files
good_files = record { opened = true; put = λ _. true; shut = true; renamed = true }

good_files-IsWorking : IsWorking good_files
good_files-IsWorking = record { opened = refl; put = λ _. refl; shut = refl; renamed = refl }

three : length (descendants 3 devices 0) ≡ 3
unfolding preorder flat insert_routing_data insert_routing_data_in_bucket init_routing_table
three = refl

wide : (q : ℕ) (e : Entry) → find_routing_data devices q ≡ some e → IsWide e
wide q e f = elim (stored_cases q e f) [
  | inl s ↦ ground (arith, s)
  | inr (inl s) ↦ ground (arith, s)
  | inr (inr s) ↦ ground (arith, s)
]

find_device_type-exported_example :
    (text : Bytes) × (export_routing_table 7 good_files devices 0 none ≡ some (some text, ok))
    × ((e : Entry) (type : ℕ)
        → find_routing_data devices e.id ≡ some e
        → Below devices 0 e.parent_id
        → find_device_type 3 good_files (some text) e.id type ≡ some (e.type, ok))
    × ((q type : ℕ)
        → ((e : Entry) → find_routing_data devices q ≡ some e → ¬ Below devices 0 e.parent_id)
        → find_device_type 3 good_files (some text) q type ≡ some (type, device_not_found))
find_device_type-exported_example =
    find_device_type-exported height 3 3 7 3 good_files devices 0 none devices-IsTable
      devices-IsRanked height-low (omega arith) wide good_files-IsWorking (omega (arith, three))
      (omega (arith, three))

abbrev full_disk : Files
full_disk = record { opened = true; put = λ _. false; shut = true; renamed = true }

abbrev old_registry : Option Bytes
old_registry = some []

not_exported :
    export_routing_table 7 full_disk devices 0 old_registry
    ≡ some (old_registry, unable_to_write_file)
unfolding export_routing_table export_lines find_direct_routing_data scan_buckets scan_bucket
    insert_routing_data insert_routing_data_in_bucket init_routing_table registry_line
    print_unsigned
not_exported = refl

export_routing_table-atomic_example :
    ((is_error unable_to_write_file ≡ true) × (old_registry ≡ old_registry))
    ⊎ ((unable_to_write_file ≡ ok)
        × (text : Bytes) × (export_lines 7 full_disk devices 0
              (find_direct_routing_data devices 0 none)
            ≡ some (text, ok))
        × (old_registry ≡ some text))
export_routing_table-atomic_example =
    export_routing_table-atomic 7 full_disk devices 0 old_registry old_registry unable_to_write_file
      not_exported

-- The bulb is gone, and the types above it are not yet updated.
abbrev dark : Table
dark = remove_entry devices 33

dark_cases : (q : ℕ) (e : Entry) → find_routing_data dark q ≡ some e → (e ≡ hub) ⊎ (e ≡ timer)
dark_cases q e f =
    let removed = find-remove_entry devices 33 devices-IsTable q in
    let other : q ≢ 33 = λ s. ground (arith, f, removed, s) in
    let found : find_routing_data devices q ≡ some e = ground (arith, f, removed, other) in
    elim (stored_cases q e found) [
      | inl s ↦ inl s
      | inr (inl s) ↦ inr s
      | inr (inr s) ↦
          let same = find-id devices q e found in absurd (other (sym same ∙ ap (λ x. x.id) s))
    ]

dark-timer : find_routing_data dark 17 ≡ some timer
unfolding find_routing_data insert_routing_data insert_routing_data_in_bucket init_routing_table
    find_in_bucket remove_entry remove_routing_data_from_bucket
dark-timer = refl

dark-IsRanked : IsRanked height dark
dark-IsRanked q e f = elim (dark_cases q e f) [
  | inl s ↦ ground (arith, s)
  | inr s ↦ ground (arith, s)
]

dark-few : height_bound + total dark < 10 + height 17
unfolding insert_routing_data insert_routing_data_in_bucket init_routing_table remove_entry
    remove_routing_data_from_bucket
dark-few = omega arith

dark-IsSound : IsSound dark
dark-IsSound e f h = elim (dark_cases e.id e f) [
  | inl s ↦ ground (arith, s, h)
  | inr s ↦ ground (arith, s, h)
]

dark-IsComplete : IsCompleteBut dark (some timer)
dark-IsComplete e f other control below = elim (dark_cases e.id e f) [
  | inr s ↦ absurd (other timer refl (ap (λ x. x.id) s))
  | inl s ↦ let filled = below timer dark-timer (sym (ap (λ x. x.id) s)) in ground (arith, filled)
]

update_type_to_empty-AreTyped_example :
    (u : Table) × (update_type_to_empty 10 dark (some timer) ≡ some u)
    × IsTable u
    × Retyped dark u
    × AreTyped u
update_type_to_empty-AreTyped_example =
    update_type_to_empty-AreTyped 10 height 3 dark timer
      (remove_entry-IsTable devices 33 devices-IsTable) dark-IsRanked height-low dark-timer dark-few
      dark-IsSound dark-IsComplete

abbrev calls : List Call
calls = insert_indirect true 49 500 1 17 ∷ remove 33 ∷ retype 17 12 ∷ []

run_refines_example :
    IsTable (run calls devices).0
    × (find_routing_data (run calls devices).0 ≡ (promised_run calls (find_routing_data devices)).0)
    × ((run calls devices).1 ≡ (promised_run calls (find_routing_data devices)).1)
run_refines_example = run_refines calls devices devices-IsTable
