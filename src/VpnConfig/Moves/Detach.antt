-- ===== src/VpnConfig/Moves/Detach.antt =====
-- `DetachFailoverClient` and a restore behind it, on an address that the user moved or deleted.
use vpn_director.Prelude.{
  Text, true, false, ◌&&◌, not, ◌≡◌, List, arith, text_eq, text_eq_iff, contains, keep_if,
  contains-keep_if, Option-cases, inl, inr,
}
use vpn_director.VpnConfig.Address.{same_addr, without_addr}
use vpn_director.VpnConfig.Config.{Config, Tunnels, XrayFailover, get_tunnel, clients_of}
use vpn_director.VpnConfig.Config.Maps.{get-put_tunnel}
use vpn_director.VpnConfig.Failover.{snapshot_on_tunnel}
use vpn_director.VpnConfig.Moves.{
  detach_record, detach_failover_client, restore_xray_clients_from_failover, restore_tunnels,
  restore_drop,
}
use vpn_director.VpnConfig.Moves.RoundTrip.{clients-restore}
use vpn_director.VpnConfig.Moves.Safety.{contains-still_on, on_tunnel}

pub contains-without_addr :
    (list : List Text) (addr s : Text)
    → contains (without_addr list addr) s ≡ (not (same_addr s addr) && contains list s)
unfolding without_addr
contains-without_addr list addr s = contains-keep_if (λ s. not (same_addr s addr)) list s

-- The snapshot of a detached configuration is that of before without the address.
pub snapshot-detach :
    (cfg : Config) (addr s : Text)
    → contains (snapshot_on_tunnel (detach_failover_client cfg addr)) s
      ≡ (not (same_addr s addr) && contains (snapshot_on_tunnel cfg) s)
unfolding snapshot_on_tunnel detach_failover_client detach_record
snapshot-detach cfg addr s = elim (Option-cases cfg.xray.failover) [
  | inl e ↦ unfold contains in ground arith
  | inr (fo, e) ↦ ground (
    arith,
    contains-still_on (get_tunnel cfg.tunnels fo.tunnel) fo.clients s,
    contains-still_on (get_tunnel cfg.tunnels fo.tunnel) (without_addr fo.clients addr) s,
    contains-without_addr fo.clients addr s,
  )
]

-- What a restore takes off the tunnel, when the address has been detached.
contains-restore_drop :
    (fo : XrayFailover) (addr : Text) (back : List Text) (s : Text)
    → same_addr s addr ≡ true
    → contains back s ≡ false
    → contains (restore_drop (detach_record addr fo) back) s ≡ false
unfolding restore_drop detach_record
contains-restore_drop fo addr back s d b = elim (Option-cases fo.added) [
  | inl e ↦ ground arith
  | inr (a, e) ↦ ground (arith, contains-without_addr a addr s)
]

contains-restore_tunnels :
    (m : Tunnels) (fo : XrayFailover) (back : List Text) (id s : Text)
    → contains (clients_of (get_tunnel (restore_tunnels m fo back) id)) s ≡ (
        contains (clients_of (get_tunnel m id)) s
        && not (text_eq fo.tunnel id && contains (restore_drop fo back) s))
unfolding restore_tunnels clients_of contains
contains-restore_tunnels m fo back id s = elim (Option-cases (get_tunnel m fo.tunnel)) [
  | inl g ↦ ground (arith, text_eq_iff fo.tunnel id)
  | inr (tun, g) ↦
      let kept = keep_if (λ (ip : Text). not (contains (restore_drop fo back) ip)) tun.clients in
      ground (
        arith,
        get-put_tunnel m fo.tunnel id (record tun { clients = kept }),
        contains-keep_if (λ (ip : Text). not (contains (restore_drop fo back) ip)) tun.clients s,
        text_eq_iff fo.tunnel id,
      )
]

tunnels-restore_detach :
    (cfg : Config) (addr id s : Text)
    → same_addr s addr ≡ true
    → contains
        (on_tunnel (restore_xray_clients_from_failover (detach_failover_client cfg addr)).0 id)
        s
      ≡ contains (on_tunnel cfg id) s
unfolding restore_xray_clients_from_failover detach_failover_client
tunnels-restore_detach cfg addr id s d = elim (Option-cases cfg.xray.failover) [
  | inl e ↦ ground arith
  | inr (fo, e) ↦
      let back = snapshot_on_tunnel (detach_failover_client cfg addr) in
      ground (
        arith,
        contains-restore_tunnels cfg.tunnels (detach_record addr fo) back id s,
        contains-restore_drop fo addr back s,
        snapshot-detach cfg addr s,
      )
]

-- Once the user's choice has detached an address, a restore neither puts any spelling of it back on
-- Xray nor takes one off a tunnel.
pub restore-detach :
    (cfg : Config) (addr s : Text)
    → same_addr s addr ≡ true
    → (contains
          (restore_xray_clients_from_failover (detach_failover_client cfg addr)).0.xray.clients
          s
        ≡ contains cfg.xray.clients s)
      × ((id : Text)
          → contains
              (on_tunnel
                (restore_xray_clients_from_failover (detach_failover_client cfg addr)).0
                id)
              s
            ≡ contains (on_tunnel cfg id) s)
restore-detach cfg addr s d = (
  rw (clients-restore, snapshot-detach, d) (unfold detach_failover_client in ground arith),
  λ id. tunnels-restore_detach cfg addr id s d,
)
