-- ===== src/Tests/Controller.antt =====
-- Commands of the user on the controller with the hub 1, the timer 17 below it and the bulb 33 below that.
use os_domotics.Controller.{UserCommand, parse_set_command, same_text, set_value}
use os_domotics.Controller.Check.{check_link, check_parents, has_direct_child}
use os_domotics.Controller.Cycles.{Above, Agree, check_link-accepts, check_parents-ends}
use os_domotics.Controller.Parsed.{IsSetting, parse_set_command-IsSetting}
use os_domotics.Devices.{is_leaf, is_timer}
use os_domotics.Prelude.{arith, codes, false, pos, refl, some, ℕ, ◌&&◌, ◌≡◌, ◌≢◌}
use os_domotics.ReturnCodes.{ok}
use os_domotics.Routing.{
  Entry, Table, find_in_bucket, find_routing_data, init_routing_table, insert_routing_data,
  insert_routing_data_in_bucket,
}
use os_domotics.Tests.Routing.{devices, devices-IsRanked, height, hub}
use os_domotics.Text.{
  after_token, scan_unsigned, skip_delimiters, string_to_unsigned, strtok, token_of,
}
use os_domotics.Utils.{parse_time}

abbrev lamp : Entry
lamp = record { id = 2; pid = 0; type = 1; parent_id = 0; next_hop_fd = pos 6 }

abbrev house : Table
house = insert_routing_data devices lamp

abbrev nothing : UserCommand
nothing = record { target = 0; code = 0; message_code = 0; argument = 0 }

is_accepted : (parse_set_command nothing (codes "begin 08:05")).2 ≡ ok
unfolding parse_set_command set_value same_text parse_time strtok string_to_unsigned scan_unsigned
    skip_delimiters token_of after_token
is_accepted = refl

parse_set_command-IsSetting_example : IsSetting (parse_set_command nothing (codes "begin 08:05")).0
parse_set_command-IsSetting_example =
    parse_set_command-IsSetting nothing (codes "begin 08:05") is_accepted

find_hub : find_routing_data house 1 ≡ some hub
unfolding find_routing_data insert_routing_data insert_routing_data_in_bucket init_routing_table
    find_in_bucket
find_hub = refl

is_linked : check_link 3 house lamp 1 ≡ some ok
unfolding check_link check_parents find_routing_data insert_routing_data
    insert_routing_data_in_bucket init_routing_table find_in_bucket
is_linked = refl

check_link-accepts_example :
    (parent : Entry) × (find_routing_data house 1 ≡ some parent)
    × (is_leaf parent.type ≡ false)
    × ((is_timer parent.type && has_direct_child house parent.id) ≡ false)
    × ((g : Entry)
        → Above house parent g
        → (g.id ≢ lamp.id) × (g.parent_id ≢ lamp.id) × Agree lamp g)
check_link-accepts_example = check_link-accepts 3 house lamp 1 (ground arith) is_linked

top_found : find_routing_data devices 1 ≡ some hub
unfolding find_routing_data insert_routing_data insert_routing_data_in_bucket init_routing_table
    find_in_bucket
top_found = refl

check_parents-ends_example :
    (result : ℕ) × (check_parents 2 devices lamp (some hub) ok ≡ some result)
check_parents-ends_example =
    check_parents-ends 2 height 3 devices lamp hub ok devices-IsRanked (λ q. ground arith) top_found
      (omega arith)
