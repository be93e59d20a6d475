-- ===== src/Routing/Registry/RoundTrip.antt =====
-- What a manual interaction reads in the registry that the controller has exported.
use os_domotics.Prelude.{
  All, Bytes, List, Option, [], ap, arith, inl, inr, length, none, refl, some, subst, suc, zero, ℕ,
  ◌+◌, ◌<◌, ◌∙◌, ◌∷◌, ◌≡◌, ◌≢◌, ◌≤◌,
}
use os_domotics.ReturnCodes.{device_not_found, ok}
use os_domotics.Routing.{Entry, Table, find_routing_data}
use os_domotics.Routing.Descendants.{find_all_routing_data-Walks}
use os_domotics.Routing.Order.{In, IsDistinct}
use os_domotics.Routing.Registry.{Files, export_routing_table, find_device_type}
use os_domotics.Routing.Registry.Exported.{
  IsWide, IsWorking, find_device_type-export_routing_table, type_in, walk,
}
use os_domotics.Routing.Remove.{Below, IsRanked}
use os_domotics.Routing.Table.{IsTable}
use os_domotics.Routing.Walk.{Walks, descendants}

pub walk-Walks :
    (bound fuel : ℕ) (t : Table) (top : ℕ) (es : List Entry) (current : Option Entry)
    → Walks bound t top es current
    → bound + length es < fuel
    → walk fuel t top current ≡ some es
unfolding walk
walk-Walks bound fuel t top [] current w h = rw w refl
walk-Walks bound zero t top (e ∷ es) current w h = absurd (omega arith)
walk-Walks bound (suc fuel) t top (e ∷ es) current (s, next, found, w) h =
    let hit = found fuel (omega (arith, h)) in
    let ih = walk-Walks bound fuel t top es next w (omega (arith, h)) in
    rw s (ground (arith, hit, ih))

type_in-In : (es : List Entry) (e : Entry) → IsDistinct es → In e es → type_in es e.id ≡ some e.type
type_in-In [] e d i = absurd i
type_in-In (c ∷ es) e d (inl s) = ground (arith, s)
type_in-In (c ∷ es) e d (inr i) =
    let other = d.0 e i in ground (arith, other, type_in-In es e d.1 i)

type_in-none : (es : List Entry) (q : ℕ) → ((e : Entry) → In e es → e.id ≢ q) → type_in es q ≡ none
type_in-none [] q h = refl
type_in-none (c ∷ es) q h =
    let other = h c (inl refl) in ground (arith, other, type_in-none es q (λ e i. h e (inr i)))

All-In : (es : List Entry) → ((e : Entry) → In e es → IsWide e) → All IsWide es
All-In [] h = tt
All-In (e ∷ es) h = (h e (inl refl), All-In es (λ d i. h d (inr i)))

-- In a well-formed table where no entry is above itself, with ids and types within their widths, and where
-- every call on the files succeeds, an export ends, with fuel for the highest rank and the entries below
-- `parent_id`, and reports no error. A search for a device that is below `parent_id` in the table then finds
-- the type that the table has; for any other id it reports DEVICE_NOT_FOUND and leaves the type as it was.
pub find_device_type-exported :
    (rank : ℕ → ℕ) (bound n fuel m : ℕ) (f : Files) (t : Table) (parent_id : ℕ)
    (registry : Option Bytes)
    → IsTable t
    → IsRanked rank t
    → ((q : ℕ) → rank q ≤ bound)
    → rank parent_id ≤ suc n
    → ((q : ℕ) (e : Entry) → find_routing_data t q ≡ some e → IsWide e)
    → IsWorking f
    → bound + length (descendants n t parent_id) < fuel
    → length (descendants n t parent_id) ≤ m
    → (text : Bytes) × (export_routing_table fuel f t parent_id registry ≡ some (some text, ok))
      × ((e : Entry) (type : ℕ)
          → find_routing_data t e.id ≡ some e
          → Below t parent_id e.parent_id
          → find_device_type m f (some text) e.id type ≡ some (e.type, ok))
      × ((q type : ℕ)
          → ((e : Entry) → find_routing_data t q ≡ some e → ¬ Below t parent_id e.parent_id)
          → find_device_type m f (some text) q type ≡ some (type, device_not_found))
find_device_type-exported rank bound n fuel m f t parent_id registry v ranked low deep wide k enough
      lines_enough =
    let es = descendants n t parent_id in
    let (walks, members, distinct) =
      find_all_routing_data-Walks rank bound n t parent_id v ranked low deep in
    let walked = walk-Walks bound fuel t parent_id es _ walks enough in
    let all_wide = All-In es (λ e i. wide e.id e ((members e).0 i).0) in
    let (text, exported, found) =
      find_device_type-export_routing_table fuel m f t parent_id registry es k all_wide walked
        lines_enough in
    (
      text,
      exported,
      λ e type stored b.
          found e.id type
          ∙ ap
              (λ o. some (elim o as (λ _. ℕ × ℕ) [
                | none ↦ (type, device_not_found)
                | some current_type ↦ (current_type, ok)
              ]))
              (type_in-In es e distinct ((members e).1 (stored, b))),
      λ q type out.
          found q type
          ∙ ap
              (λ o. some (elim o as (λ _. ℕ × ℕ) [
                | none ↦ (type, device_not_found)
                | some current_type ↦ (current_type, ok)
              ]))
              (type_in-none es q (λ e i s.
                let (stored, b) = (members e).0 i in
                out e (subst (λ x. find_routing_data t x ≡ some e) s stored) b)),
    )
