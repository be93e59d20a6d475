-- ===== src/Tests/Routing.antt =====
-- The routing table of a controller with the hub 1, the timer 17 below it and the bulb 33 below that: all
-- three are in the same bucket.
use os_domotics.Prelude.{arith, if◌then◌else◌, none, pos, refl, some, ℕ, ◌*◌, ◌+◌, ◌==◌, ◌≡◌, ◌≤◌}
use os_domotics.Routing.{
  Entry, Table, find_direct_routing_data, find_in_bucket, find_routing_data, init_routing_table,
  insert_routing_data, insert_routing_data_in_bucket, remove_routing_data, scan_bucket,
  scan_buckets,
}
use os_domotics.Routing.Remove.{Below, IsRanked, remove_routing_data-total}
use os_domotics.Routing.Table.{
  IsTable, find-init, find-insert_routing_data, init-IsTable, insert-IsTable, total,
}

abbrev pub hub : Entry
hub = record { id = 1; pid = 101; type = 9; parent_id = 0; next_hop_fd = pos 5 }

abbrev pub timer : Entry
timer = record { id = 17; pid = 117; type = 13; parent_id = 1; next_hop_fd = pos 5 }

abbrev pub bulb : Entry
bulb = record { id = 33; pid = 133; type = 1; parent_id = 17; next_hop_fd = pos 5 }

abbrev pub devices : Table
devices =
    insert_routing_data (insert_routing_data (insert_routing_data init_routing_table bulb) hub)
      timer

pub devices-IsTable : IsTable devices
devices-IsTable =
    insert-IsTable (insert_routing_data (insert_routing_data init_routing_table bulb) hub) timer (
      insert-IsTable (insert_routing_data init_routing_table bulb) hub
        (insert-IsTable init_routing_table bulb init-IsTable))

pub find_timer : find_routing_data devices 17 ≡ some timer
unfolding find_routing_data insert_routing_data insert_routing_data_in_bucket init_routing_table
    find_in_bucket
find_timer = refl

first_child : find_direct_routing_data devices 1 none ≡ some timer
unfolding find_routing_data insert_routing_data insert_routing_data_in_bucket init_routing_table
    find_in_bucket find_direct_routing_data scan_buckets scan_bucket
first_child = refl

no_child : find_direct_routing_data devices 33 none ≡ none
unfolding find_routing_data insert_routing_data insert_routing_data_in_bucket init_routing_table
    find_in_bucket find_direct_routing_data scan_buckets scan_bucket
no_child = refl

-- The controller is above all.
abbrev pub height : ℕ → ℕ
height q = if q == 0 then 3 else if q == 1 then 2 else if q == 17 then 1 else 0

pub devices-IsRanked : IsRanked height devices
devices-IsRanked q e f =
    let first = insert_routing_data init_routing_table bulb in
    let second = insert_routing_data first hub in
    let first-IsTable = insert-IsTable init_routing_table bulb init-IsTable in
    let second-IsTable = insert-IsTable first hub first-IsTable in
    ground (
      arith,
      f,
      find-insert_routing_data second timer second-IsTable q,
      find-insert_routing_data first hub first-IsTable q,
      find-insert_routing_data init_routing_table bulb init-IsTable q,
      find-init q,
    )

pub few : total devices + 2 * height timer.id + 2 ≤ 20
unfolding insert_routing_data insert_routing_data_in_bucket init_routing_table
few = omega arith

remove_routing_data-total_example :
    (u : Table) × (remove_routing_data 20 devices 17 1 ≡ some u)
    × IsTable u
    × ((q : ℕ) → Below devices 17 q → find_routing_data u q ≡ none)
    × ((q : ℕ) → ¬ Below devices 17 q → find_routing_data u q ≡ find_routing_data devices q)
remove_routing_data-total_example =
    remove_routing_data-total 20 height devices timer devices-IsTable devices-IsRanked find_timer
      few
