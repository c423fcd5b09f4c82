-- ===== src/Tests/Returns.antt =====
-- The way back of a failed return, on a server of two addresses.
use vpn_director.Prelude.{Text, ◌≡◌, refl, some, List, [], ◌∷◌, runes, text_eq, keep_if}
use vpn_director.VpnConfig.Servers.{Server, same_choice}
use vpn_director.Subwatch.Choice.{chosen_index, chosen_loop, rank, same_server}
use vpn_director.Subwatch.Watch.Guards.{itoa, itoa_loop}
use vpn_director.Subwatch.Copies.{
  copies_of, or_itself, per_address, server_id, dialed_address, dial_ip,
}
use vpn_director.Subwatch.Returns.{
  is_server_of, is_copy, take_copy, way_back, entry_copies, rollback_order,
}
use vpn_director.Subwatch.Returns.Ways.{IsWay, rollback_order-IsWay}
use vpn_director.Tests.Walk.{kinds, oslo_twin, in_north, chosen}

abbrev literal : Text → Text
literal s = s

abbrev twin_at : Text → Server
twin_at ip = record (in_north oslo_twin) { ips = ip ∷ [] }

abbrev near : Text
near = runes "10.0.0.1"

abbrev far : Text
far = runes "10.0.0.2"

abbrev two_addresses : List Server
two_addresses = record (in_north oslo_twin) { ips = near ∷ far ∷ [] } ∷ []

-- the address that ran leads
far_first :
    rollback_order literal kinds two_addresses (some chosen) (some (twin_at far))
    ≡ twin_at far ∷ twin_at near ∷ []
unfolding rollback_order way_back entry_copies take_copy is_copy is_server_of per_address or_itself
    copies_of server_id dialed_address dial_ip chosen_index chosen_loop rank same_server same_choice
    text_eq itoa itoa_loop
far_first = refl

-- also when the list no longer has it
gone_first :
    rollback_order literal kinds two_addresses (some chosen) (some (twin_at (runes "10.0.0.3")))
    ≡ twin_at (runes "10.0.0.3") ∷ twin_at near ∷ twin_at far ∷ []
unfolding rollback_order way_back entry_copies take_copy is_copy is_server_of per_address or_itself
    copies_of server_id dialed_address dial_ip chosen_index chosen_loop rank same_server same_choice
    text_eq itoa itoa_loop keep_if
gone_first = refl

rollback_order-IsWay_example :
    IsWay literal
      (entry_copies literal kinds two_addresses (some chosen))
      (some chosen)
      (some (twin_at far))
      (rollback_order literal kinds two_addresses (some chosen) (some (twin_at far)))
rollback_order-IsWay_example =
    rollback_order-IsWay literal kinds two_addresses (some chosen) (some (twin_at far))
