-- ===== src/Routing.antt =====
-- The routing table: code/src/routing.c. A bucket is a linked list in the order of the ids, and a table
-- is the array of its buckets. A pointer to an entry is the entry: its id tells where it stands.
pub mod Bucket
pub mod Table
pub mod Children
pub mod Remove
pub mod Registry
pub mod Order
pub mod Siblings
pub mod Loops
pub mod Walk
pub mod Descendants
pub mod Types
pub mod Emptied
pub mod Tree
pub mod Forgotten
pub mod Refinement
pub mod Sorted
pub mod Cleared
pub mod Whole
use os_domotics.Devices.{
  control_device_mask, hub_device, is_empty, is_hub, leaf_device_mask, timer_device,
}
use os_domotics.Prelude.{
  Bool, List, Option, [], bit_and, bit_or, drop, false, get_or, if◌then◌else◌, ltb, none, not,
  replicate, set, some, suc, true, zero, ℕ, ℤ, ◌==◌, ◌∷◌,
}
use os_domotics.ReturnCodes.{ok, route_not_found, unable_to_allocate_heap}

pub record Entry : Type 0 where
  pub id : ℕ
  pub pid : ℕ
  pub type : ℕ
  pub parent_id : ℕ
  pub next_hop_fd : ℤ

abbrev pub Bucket : Type 0
Bucket = List Entry

abbrev pub Table : Type 0
Table = List Bucket

abbrev pub unique_id_hashes : ℕ
unique_id_hashes = 16

abbrev pub no_pid : ℕ
no_pid = 0

abbrev pub hash_id : ℕ → ℕ
hash_id i = bit_and i 0xF

-- `*GET_BUCKET(t, i)`, and a write through it
abbrev pub get_bucket : Table → ℕ → Bucket
get_bucket t i = get_or t (hash_id i) []

abbrev pub set_bucket : Table → ℕ → Bucket → Table
set_bucket t i b = set t (hash_id i) b

unfoldable pub init_routing_table : Table
init_routing_table = replicate unique_id_hashes []

-- What follows the loop of `insert_routing_data_in_bucket`, at `current`.
abbrev pub place : Entry → Bucket → Entry → Bucket
place current next entry =
    if current.id == entry.id
    then entry ∷ next
    else if ltb entry.id current.id
    then entry ∷ current ∷ next
    else current ∷ entry ∷ next

unfoldable pub insert_routing_data_in_bucket : Bucket → Entry → Bucket
insert_routing_data_in_bucket [] entry = entry ∷ []
insert_routing_data_in_bucket (current ∷ []) entry = place current [] entry
insert_routing_data_in_bucket (current ∷ next ∷ rest) entry =
    if ltb current.id entry.id
    then current ∷ insert_routing_data_in_bucket (next ∷ rest) entry
    else place current (next ∷ rest) entry

unfoldable pub remove_routing_data_from_bucket : Bucket → ℕ → Bucket
remove_routing_data_from_bucket [] id = []
remove_routing_data_from_bucket (current ∷ next) id =
    if ltb current.id id
    then current ∷ remove_routing_data_from_bucket next id
    else if current.id == id
    then next
    else current ∷ next

-- The search of `find_routing_data` in a bucket.
unfoldable pub find_in_bucket : ℕ → Bucket → Option Entry
find_in_bucket id [] = none
find_in_bucket id (current ∷ next) =
    if ltb current.id id
    then find_in_bucket id next
    else if current.id == id
    then some current
    else none

unfoldable pub find_routing_data : Table → ℕ → Option Entry
find_routing_data t id = find_in_bucket id (get_bucket t id)

unfoldable pub insert_routing_data : Table → Entry → Table
insert_routing_data t entry =
    set_bucket t entry.id (insert_routing_data_in_bucket (get_bucket t entry.id) entry)

-- The first argument tells whether `malloc` succeeds.
unfoldable pub insert_direct_routing_data_pid : Bool → Table → ℕ → ℕ → ℕ → ℕ → ℤ → Table × ℕ
insert_direct_routing_data_pid allocated t id pid type current_id fd =
    if allocated
    then (
      insert_routing_data t
          (record { id = id; pid = pid; type = type; parent_id = current_id; next_hop_fd = fd }),
      ok,
    )
    else (t, unable_to_allocate_heap)

unfoldable pub insert_direct_routing_data : Bool → Table → ℕ → ℕ → ℕ → ℤ → Table × ℕ
unfolding insert_direct_routing_data_pid
insert_direct_routing_data allocated t id type current_id fd =
    insert_direct_routing_data_pid allocated t id no_pid type current_id fd

unfoldable pub insert_indirect_routing_data_pid : Bool → Table → ℕ → ℕ → ℕ → ℕ → Table × ℕ
insert_indirect_routing_data_pid allocated t id pid type parent_id =
    elim (find_routing_data t parent_id) [
      | none ↦ (t, route_not_found)
      | some parent ↦
          if allocated
          then (
            insert_routing_data t (record {
              id = id;
              pid = pid;
              type = type;
              parent_id = parent_id;
              next_hop_fd = parent.next_hop_fd;
            }),
            ok,
          )
          else (t, unable_to_allocate_heap)
    ]

unfoldable pub insert_indirect_routing_data : Bool → Table → ℕ → ℕ → ℕ → Table × ℕ
unfolding insert_indirect_routing_data_pid
insert_indirect_routing_data allocated t id type parent_id =
    insert_indirect_routing_data_pid allocated t id no_pid type parent_id

-- The inner loop of `find_direct_routing_data`.
unfoldable pub scan_bucket : ℕ → Bucket → Option Entry
scan_bucket parent_id [] = none
scan_bucket parent_id (current ∷ next) =
    if current.parent_id == parent_id then some current else scan_bucket parent_id next

abbrev pub or_next : Option Entry → Option Entry → Option Entry
or_next none rest = rest
or_next (some entry) rest = some entry

-- Its outer loop, from a bucket on.
unfoldable pub scan_buckets : ℕ → Table → Option Entry
unfolding scan_bucket
scan_buckets parent_id [] = none
scan_buckets parent_id (b ∷ bs) = or_next (scan_bucket parent_id b) (scan_buckets parent_id bs)

-- `last->next`
unfoldable pub after_entry : ℕ → Bucket → Bucket
after_entry id [] = []
after_entry id (current ∷ next) = if current.id == id then next else after_entry id next

unfoldable pub find_direct_routing_data : Table → ℕ → Option Entry → Option Entry
unfolding scan_bucket scan_buckets after_entry
find_direct_routing_data t parent_id none = scan_buckets parent_id t
find_direct_routing_data t parent_id (some last) =
    elim (after_entry last.id (get_bucket t last.id)) [
      | [] ↦ scan_buckets parent_id (drop (suc (hash_id last.id)) t)
      | current ∷ next ↦
          or_next (scan_bucket parent_id (current ∷ next))
            (scan_buckets parent_id (drop (suc (hash_id current.id)) t))
    ]

-- The end of `find_all_routing_data`: siblings of the ancestors, up to `top`. The C loop climbs as long as
-- there are parents, and `none` means that it has not ended within the fuel.
unfoldable pub find_above : ℕ → Table → ℕ → ℕ → Option (Option Entry)
find_above zero t top parent_id = none
find_above (suc fuel) t top parent_id = elim (find_routing_data t parent_id) [
  | none ↦ some none
  | some parent ↦
      let rest = find_above fuel t top parent.parent_id in
      if parent.id == top
      then some none
      else elim (find_direct_routing_data t parent.parent_id (some parent)) [
        | some sibling ↦ some (some sibling)
        | none ↦ rest
      ]
]

unfoldable pub find_all_routing_data : ℕ → Table → ℕ → Option Entry → Option (Option Entry)
unfolding find_above
find_all_routing_data fuel t parent_id none = some (find_direct_routing_data t parent_id none)
find_all_routing_data fuel t parent_id (some last) =
    elim (find_direct_routing_data t last.id none) [
      | some child ↦ some (some child)
      | none ↦ elim (find_direct_routing_data t last.parent_id (some last)) [
        | some sibling ↦ some (some sibling)
        | none ↦ find_above fuel t parent_id last.parent_id
      ]
    ]

abbrev pub first_entry : Table → Option Entry
first_entry [] = none
first_entry ([] ∷ bs) = first_entry bs
first_entry ((current ∷ next) ∷ bs) = some current

unfoldable pub find_unreachable_routing_data : Table → Option Entry → Option Entry
unfolding after_entry
find_unreachable_routing_data t none = first_entry t
find_unreachable_routing_data t (some last) = elim (after_entry last.id (get_bucket t last.id)) [
  | [] ↦ first_entry (drop (suc (hash_id last.id)) t)
  | current ∷ next ↦ some current
]

-- `remove_routing_data_from_bucket(GET_BUCKET(table, id), id)`
unfoldable pub remove_entry : Table → ℕ → Table
remove_entry t id = set_bucket t id (remove_routing_data_from_bucket (get_bucket t id) id)

-- `remove_routing_data` and its loop over the children. Each call takes one unit of fuel; `none` means that
-- the fuel is used up.
unfoldable mutual
  pub remove_routing_data : ℕ → Table → ℕ → ℕ → Option Table
  remove_routing_data zero t id parent_id = none
  remove_routing_data (suc fuel) t id parent_id = elim (find_routing_data t id) [
    | none ↦ some t
    | some found ↦
        let rest = remove_children fuel t id in
        if found.parent_id == parent_id then rest else some t
  ]

  pub remove_children : ℕ → Table → ℕ → Option Table
  remove_children zero t id = none
  remove_children (suc fuel) t id = elim (find_direct_routing_data t id none) [
    | none ↦ some (remove_entry t id)
    | some current ↦ elim (remove_routing_data fuel t current.id current.parent_id) [
      | none ↦ none
      | some t' ↦ remove_children fuel t' id
    ]
  ]

-- `current->type = type`
unfoldable pub set_type_in_bucket : ℕ → ℕ → Bucket → Bucket
set_type_in_bucket id type [] = []
set_type_in_bucket id type (current ∷ next) =
    if current.id == id
    then record current { type = type } ∷ next
    else current ∷ set_type_in_bucket id type next

unfoldable pub set_type : Table → ℕ → ℕ → Table
unfolding set_type_in_bucket
set_type t id type = set_bucket t id (set_type_in_bucket id type (get_bucket t id))

-- The inner loop of `update_type_to_empty`, from `child` on: whether no child has a leaf type.
unfoldable pub all_empty : ℕ → Table → ℕ → Option Entry → Option Bool
all_empty fuel t parent_id none = some true
all_empty zero t parent_id (some child) = none
all_empty (suc fuel) t parent_id (some child) =
    let rest = all_empty fuel t parent_id (find_direct_routing_data t parent_id (some child)) in
    if not (is_empty child.type) then some false else rest

abbrev pub emptied_type : ℕ → ℕ
emptied_type type = if is_hub type then hub_device else timer_device

unfoldable pub update_type_to_empty : ℕ → Table → Option Entry → Option Table
unfolding all_empty
update_type_to_empty fuel t none = some t
update_type_to_empty zero t (some current) = none
update_type_to_empty (suc fuel) t (some current) =
    let up =
      λ (t' : Table). update_type_to_empty fuel t' (find_routing_data t' current.parent_id) in
    if is_empty current.type
    then some t
    else elim (all_empty (suc fuel) t current.id (find_direct_routing_data t current.id none)) [
      | none ↦ none
      | some empty ↦ up (if empty then set_type t current.id (emptied_type current.type) else t)
    ]

-- The loop of `update_type_to_not_empty`.
unfoldable pub fill_types : ℕ → Table → ℕ → ℕ → Option Table
fill_types zero t parent_id leaf = none
fill_types (suc fuel) t parent_id leaf = elim (find_routing_data t parent_id) [
  | none ↦ some t
  | some parent ↦
      let type = bit_or (bit_and parent.type control_device_mask) leaf in
      let rest = fill_types fuel (set_type t parent.id type) parent.parent_id leaf in
      if not (is_empty parent.type) then some t else rest
]

unfoldable pub update_type_to_not_empty : ℕ → Table → Entry → Option Table
unfolding fill_types
update_type_to_not_empty fuel t device =
    if is_empty device.type
    then some t
    else fill_types fuel t device.parent_id (bit_and device.type leaf_device_mask)
