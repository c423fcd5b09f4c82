-- ===== src/Tests/Restore.antt =====
-- An unfinished restore of the sample router, and its exits.
use vpn_director.Prelude.{
  true, false, runes, text_eq, ◌≡◌, ◌≢◌, refl, none, some, List, [], ◌∷◌, contains, all, any,
  sort_texts,
}
use vpn_director.VpnConfig.Address.{run_addresses}
use vpn_director.VpnConfig.Config.{
  XrayPendingRestore, is_paused, collect_clients, client_infos, tunnel_infos, clients_of,
  get_tunnel, tunnel_names,
}
use vpn_director.VpnConfig.Pending.{
  failover_snapshot, snapshot_of, snapshot_loop, snapshot_step, stored_loop, is_appended,
  restore_list_contains, nonempty_snapshot,
}
use vpn_director.VpnConfig.Pending.Owned.{is_owned, failover_snapshot-owned}
use vpn_director.VpnConfig.Exits.{PlatformTunnel, by_id, is_up, has_clients, is_exit, next_td_exit}
use vpn_director.VpnConfig.Exits.Progress.{next_td_exit-untried}
use vpn_director.Tests.Sample.{phone, laptop, wg, router, recorded}

-- the phone was restored, and so was the laptop, which the user has paused since
abbrev unfinished : XrayPendingRestore
unfinished = record { snapshot = some recorded; restored = phone ∷ laptop ∷ []; active = none }

phone_comes_back : failover_snapshot unfinished router ≡ some recorded
unfolding failover_snapshot snapshot_of snapshot_loop snapshot_step stored_loop is_appended
    restore_list_contains nonempty_snapshot collect_clients client_infos tunnel_infos clients_of
    is_paused any text_eq contains sort_texts run_addresses get_tunnel
phone_comes_back = refl

failover_snapshot-owned_example :
    (all (is_owned router recorded) recorded.clients ≡ true) × (recorded.clients ≢ [])
failover_snapshot-owned_example =
    failover_snapshot-owned unfinished router recorded recorded refl phone_comes_back

abbrev platform : List PlatformTunnel
platform =
    record {
      id = wg;
      iface = runes "wgc1";
      kind = runes "wireguard";
      connected = true;
      description = [];
    }
    ∷ []

wg_up : is_exit router platform wg ≡ true
unfolding is_exit is_up by_id has_clients clients_of text_eq get_tunnel
wg_up = refl

wg_configured : contains (tunnel_names router.tunnels) wg ≡ true
unfolding contains text_eq
wg_configured = refl

next_td_exit-untried_example :
    (is_exit router platform (next_td_exit router platform []) ≡ true)
    × (contains (tunnel_names router.tunnels) (next_td_exit router platform []) ≡ true)
    × (contains [] (next_td_exit router platform []) ≡ false)
next_td_exit-untried_example =
    next_td_exit-untried router platform [] wg wg_up wg_configured untried
  where
    untried : contains [] wg ≡ false
    untried = unfold contains in refl
