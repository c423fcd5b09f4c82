-- ===== src/VpnConfig/Pending/Owned.antt =====
-- The clients of the failover that an unfinished restore comes back to.
use vpn_director.Prelude.{
  Text, Bool, true, false, ◌≡◌, ◌≢◌, ap, all, all-append, ◌⊎◌, refl, inl, inr, ◌&&◌, not, none,
  some, List, [], ◌∷◌, text_eq, text_eq_iff, any, arith, Bool-cases,
}
use vpn_director.VpnConfig.Address.{addr_key}
use vpn_director.VpnConfig.Config.{
  Config, XrayFailover, XrayPendingRestore, ClientInfo, collect_clients, xray_route,
}
use vpn_director.VpnConfig.Pending.{
  restore_list_contains, stored_loop, is_appended, snapshot_step, snapshot_loop, nonempty_snapshot,
  snapshot_of, failover_snapshot,
}

-- the address is on the route of Xray in this spelling
unfoldable pub is_listed : List ClientInfo → Text → Bool
is_listed clients ip = any (λ c. text_eq c.ip ip && text_eq c.route xray_route) clients

stored_loop-listed :
    (clients : List ClientInfo) (key tunnel : Text) (appended : Bool) (stored : Text)
    → (stored_loop clients key tunnel appended stored ≡ stored)
      ⊎ (stored_loop clients key tunnel appended stored ≡ [])
      ⊎ ((is_listed clients (stored_loop clients key tunnel appended stored) ≡ true)
          × (addr_key (stored_loop clients key tunnel appended stored) ≡ key))
unfolding stored_loop is_listed any
stored_loop-listed [] key tunnel appended stored = inl refl
stored_loop-listed (c ∷ clients) key tunnel appended stored = ground (
  arith,
  stored_loop-listed clients key tunnel appended stored,
  stored_loop-listed clients key tunnel appended c.ip,
  text_eq_iff c.ip c.ip,
  text_eq_iff (addr_key c.ip) key,
)

restore_list_contains-key :
    (list : List Text) (a b : Text)
    → addr_key a ≡ addr_key b
    → restore_list_contains list a ≡ restore_list_contains list b
unfolding restore_list_contains
restore_list_contains-key list a b e = ap (λ k. any (λ entry. text_eq (addr_key entry) k) list) e

-- still a client of Xray, in no spelling paused, and in some spelling of the failover that was
-- restored
unfoldable pub is_owned : Config → XrayFailover → Text → Bool
is_owned cfg original ip =
    is_listed (collect_clients cfg) ip
    && not (restore_list_contains cfg.paused_clients ip)
    && restore_list_contains original.clients ip

snapshot_step-owned :
    (cfg : Config) (original : XrayFailover) (addr : Text) (snapshot : XrayFailover)
    → all (is_owned cfg original) snapshot.clients ≡ true
    → all (is_owned cfg original) (snapshot_step cfg original addr snapshot).clients ≡ true
unfolding snapshot_step is_owned all
snapshot_step-owned cfg original addr snapshot h =
    let stored =
      stored_loop (collect_clients cfg) (addr_key addr) original.tunnel (is_appended original addr)
        [] in
    ground (
      arith,
      stored_loop-listed (collect_clients cfg) (addr_key addr) original.tunnel
          (is_appended original addr) [],
      all-append (is_owned cfg original) snapshot.clients (stored ∷ []),
      restore_list_contains-key cfg.paused_clients stored addr,
      restore_list_contains-key original.clients stored addr,
      text_eq_iff stored [],
    )

snapshot_loop-owned :
    (cfg : Config) (original : XrayFailover) (restored : List Text) (snapshot : XrayFailover)
    → all (is_owned cfg original) snapshot.clients ≡ true
    → all (is_owned cfg original) (snapshot_loop cfg original restored snapshot).clients ≡ true
unfolding snapshot_loop
snapshot_loop-owned cfg original [] snapshot h = h
snapshot_loop-owned cfg original (addr ∷ restored) snapshot h =
    snapshot_loop-owned cfg original restored (snapshot_step cfg original addr snapshot)
      (snapshot_step-owned cfg original addr snapshot h)

nonempty_snapshot-owned :
    (cfg : Config) (original fo fo' : XrayFailover)
    → nonempty_snapshot fo ≡ some fo'
    → all (is_owned cfg original) fo.clients ≡ true
    → (all (is_owned cfg original) fo'.clients ≡ true) × (fo'.clients ≢ [])
unfolding nonempty_snapshot
nonempty_snapshot-owned cfg original fo fo' e h = ground arith

snapshot_of-owned :
    (cfg : Config) (original fo : XrayFailover) (restored : List Text)
    → snapshot_of cfg original restored ≡ some fo
    → (all (is_owned cfg original) fo.clients ≡ true) × (fo.clients ≢ [])
unfolding snapshot_of
snapshot_of-owned cfg original fo restored h = elim (Bool-cases (text_eq original.tunnel [])) [
  | inl y ↦ ground arith
  | inr n ↦
      nonempty_snapshot-owned cfg original (snapshot_loop cfg original restored empty) fo
        (by_tunnel n) (snapshot_loop-owned cfg original restored empty (unfold all in refl))
]
  where
    empty : XrayFailover
    empty = record {
      tunnel = original.tunnel;
      clients = [];
      added = elim original.added [ none ↦ none | some a ↦ some [] ];
      committed = original.committed;
    }

    by_tunnel :
        text_eq original.tunnel [] ≡ false
        → nonempty_snapshot (snapshot_loop cfg original restored empty) ≡ some fo
    by_tunnel n = ground arith

-- A manual move off Xray, a pause or a deletion is never rolled back: the failover that a restore
-- comes back to has a client, and each is still on the route of Xray, is paused in no spelling, and
-- was one of the failover's.
pub failover_snapshot-owned :
    (p : XrayPendingRestore) (cfg : Config) (original fo : XrayFailover)
    → p.snapshot ≡ some original
    → failover_snapshot p cfg ≡ some fo
    → (all (is_owned cfg original) fo.clients ≡ true) × (fo.clients ≢ [])
unfolding failover_snapshot
failover_snapshot-owned p cfg original fo e h =
    snapshot_of-owned cfg original fo p.restored (ground arith)
