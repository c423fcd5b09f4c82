-- ===== src/VpnConfig/Pending.antt =====
-- server/internal/vpnconfig/pending_restore.go: the restore that is recorded until its routing apply
-- has finished, and the failover it comes back to if that fails.
pub mod Owned
use vpn_director.Prelude.{
  Text, Bool, true, false, ◌&&◌, ◌||◌, not, Option, none, some, List, [], ◌∷◌, ◌++◌, if◌then◌else◌,
  text_eq, any, contains,
}
use vpn_director.VpnConfig.Address.{addr_key, td_carries}
use vpn_director.VpnConfig.Config.{
  Config, XrayConfig, XrayFailover, XrayPendingRestore, ClientInfo, collect_clients, xray_route,
}
use vpn_director.VpnConfig.Failover.{failover_committed}
use vpn_director.VpnConfig.Moves.{restore_xray_clients_from_failover}

unfoldable pub begin_restore_of : Config → XrayFailover → Config × Option XrayPendingRestore
begin_restore_of cfg fo =
    let (restored_cfg, restored) = restore_xray_clients_from_failover cfg in
    let pending : XrayPendingRestore = record {
      snapshot = some (record fo { committed = failover_committed cfg });
      restored = restored;
      active = cfg.xray.active_server;
    } in
    (
      record restored_cfg { xray = record restored_cfg.xray { pending_restore = some pending } },
      some pending,
    )

-- `BeginXrayRestore`
unfoldable pub begin_xray_restore : Config → Config × Option XrayPendingRestore
begin_xray_restore cfg = elim cfg.xray.failover [
  | none ↦ (cfg, none)
  | some fo ↦ elim cfg.xray.pending_restore [
    | some p ↦ (cfg, none)
    | none ↦ begin_restore_of cfg fo
  ]
]

unfoldable pub restore_list_contains : List Text → Text → Bool
restore_list_contains list addr = any (λ entry. text_eq (addr_key entry) (addr_key addr)) list

-- the loop over the clients: the spelling on Xray of an address with the key, empty once a route that
-- is not the restore's holds it
unfoldable pub stored_loop : List ClientInfo → Text → Text → Bool → Text → Text
stored_loop [] key tunnel appended stored = stored
stored_loop (c ∷ clients) key tunnel appended stored =
    let skip = stored_loop clients key tunnel appended stored in
    let on_xray = stored_loop clients key tunnel appended c.ip in
    if not (text_eq (addr_key c.ip) key)
    then skip
    else if text_eq c.route xray_route
    then on_xray
    else if not (text_eq c.route tunnel) || appended
    then []
    else skip

unfoldable pub is_appended : XrayFailover → Text → Bool
is_appended fo addr = elim fo.added [ none ↦ true | some a ↦ restore_list_contains a addr ]

-- one of the restored addresses with what the snapshot holds so far
unfoldable pub snapshot_step : Config → XrayFailover → Text → XrayFailover → XrayFailover
snapshot_step cfg original addr snapshot =
    let appended = is_appended original addr in
    let stored = stored_loop (collect_clients cfg) (addr_key addr) original.tunnel appended [] in
    if restore_list_contains cfg.paused_clients addr
      || not (td_carries addr)
      || not (restore_list_contains original.clients addr)
      || restore_list_contains snapshot.clients addr
    then snapshot
    else if text_eq stored []
    then snapshot
    else record snapshot {
      clients = snapshot.clients ++ stored ∷ [];
      added = elim original.added [
        | none ↦ snapshot.added
        | some a ↦ elim snapshot.added [
          | none ↦ none
          | some b ↦ some (if appended then b ++ stored ∷ [] else b)
        ]
      ];
    }

unfoldable pub snapshot_loop : Config → XrayFailover → List Text → XrayFailover → XrayFailover
snapshot_loop cfg original [] snapshot = snapshot
snapshot_loop cfg original (addr ∷ restored) snapshot =
    snapshot_loop cfg original restored (snapshot_step cfg original addr snapshot)

unfoldable pub nonempty_snapshot : XrayFailover → Option XrayFailover
nonempty_snapshot fo = elim fo.clients [ [] ↦ none | c ∷ cs ↦ some fo ]

unfoldable pub snapshot_of : Config → XrayFailover → List Text → Option XrayFailover
snapshot_of cfg original restored =
    if text_eq original.tunnel []
    then none
    else nonempty_snapshot (
        snapshot_loop cfg original restored (record {
          tunnel = original.tunnel;
          clients = [];
          added = elim original.added [ none ↦ none | some a ↦ some [] ];
          committed = original.committed;
        }))

-- `FailoverSnapshot`
unfoldable pub failover_snapshot : XrayPendingRestore → Config → Option XrayFailover
failover_snapshot p cfg = elim p.snapshot [
  | none ↦ none
  | some original ↦ snapshot_of cfg original p.restored
]
