-- ===== src/VpnConfig/Moves/Routes.antt =====
-- The routes of an address through the failover operations: none takes the last one away.
use vpn_director.Prelude.{
  Text, true, ◌&&◌, not, ◌≡◌, ◌⊎◌, refl, Option, none, some, List, [], ◌∷◌, arith, text_eq,
  text_eq_iff, text_eq_refl, contains, contains-keep_if, keep_if, Bool-cases, Option-cases, inl,
  inr,
}
use vpn_director.VpnConfig.Config.{
  Config, TunnelConfig, Tunnels, XrayFailover, is_paused, get_tunnel, put_tunnel, clients_of,
}
use vpn_director.VpnConfig.Config.Maps.{get-put_tunnel}
use vpn_director.VpnConfig.Failover.{
  append_all_new, snapshot_on_tunnel, xray_clients_outside_failover,
}
use vpn_director.VpnConfig.Moves.{
  stage_xray_clients_to_tunnel, commit_xray_failover, extend_on, extend_xray_failover, restore_drop,
  restore_tunnels, restore_xray_clients_from_failover, ensure_failover_staged,
  apply_failover_snapshot, apply_snapshot_on,
}
use vpn_director.VpnConfig.Moves.Texts.{contains-append_all_new}
use vpn_director.VpnConfig.Moves.Stage.{moved_clients, stage_cases}
use vpn_director.VpnConfig.Moves.Safety.{on_tunnel, contains-still_on, clients-commit}
use vpn_director.VpnConfig.Moves.Extend.{extend_loop_lem}

-- the address is on Xray or on a tunnel
abbrev pub IsRouted : Config → Text → Type 0
IsRouted cfg ip =
    (contains cfg.xray.clients ip ≡ true) ⊎ ((id : Text) × (contains (on_tunnel cfg id) ip ≡ true))

-- the addresses that a failover has added to its tunnel are of its snapshot
pub record IsTidy (failover : Option XrayFailover) : Type 0 where
  pub within :
      (fo : XrayFailover) (added : List Text) (s : Text)
      → failover ≡ some fo
      → fo.added ≡ some added
      → contains added s ≡ true
      → contains fo.clients s ≡ true

on-put_tunnel :
    (m : Tunnels) (id j : Text) (t : TunnelConfig) (ip : Text)
    → (text_eq id j ≡ true → contains t.clients ip ≡ true)
    → contains (clients_of (get_tunnel m j)) ip ≡ true
    → contains (clients_of (get_tunnel (put_tunnel m id t) j)) ip ≡ true
unfolding clients_of
on-put_tunnel m id j t ip h on = elim (Bool-cases (text_eq id j)) [
  | inl e ↦ rw (get-put_tunnel, e) (h e)
  | inr e ↦ rw (get-put_tunnel, e) on
]

-- a tunnel that grows keeps its clients
on-grown :
    (m : Tunnels) (id j : Text) (tun : TunnelConfig) (ips : List Text) (ip : Text)
    → get_tunnel m id ≡ some tun
    → contains (clients_of (get_tunnel m j)) ip ≡ true
    → contains
        (clients_of (
          get_tunnel (put_tunnel m id (record tun { clients = append_all_new tun.clients ips })) j))
        ip
      ≡ true
unfolding clients_of
on-grown m id j tun ips ip g on =
    on-put_tunnel m id j (record tun { clients = append_all_new tun.clients ips }) ip
      (λ e. ground (arith, text_eq_iff id j, contains-append_all_new tun.clients ips ip)) on

pub stage-IsRouted :
    (cfg : Config) (id ip : Text)
    → IsRouted cfg ip
    → IsRouted (stage_xray_clients_to_tunnel cfg id) ip
stage-IsRouted cfg id ip r = elim (stage_cases cfg id) [
  | inl e ↦ rw e r
  | inr (tun, g, f, e) ↦ rw e (elim r [
    | inl x ↦ inl x
    | inr (j, on) ↦ inr (j, on-grown cfg.tunnels id j tun (moved_clients cfg) ip g on)
  ])
]

pub commit-IsRouted :
    (cfg : Config) (ip : Text) → IsRouted cfg ip → IsRouted (commit_xray_failover cfg) ip
commit-IsRouted cfg ip r = elim (Option-cases cfg.xray.failover) [
  | inl n ↦
      let same : commit_xray_failover cfg ≡ cfg = unfold commit_xray_failover in ground arith in
      rw same r
  | inr (fo, f) ↦
      let (left, kept) = clients-commit cfg fo ip f in
      elim r [
        | inr (j, on) ↦ inr (j, rw kept on)
        | inl x ↦ elim (Bool-cases (contains (on_tunnel cfg fo.tunnel) ip)) [
          | inl on ↦ inr (fo.tunnel, rw kept on)
          | inr off ↦ inl (ground (arith, left))
        ]
      ]
]

extend_on-IsRouted :
    (cfg : Config) (fo : XrayFailover) (tun : TunnelConfig) (ips : List Text) (ip : Text)
    → get_tunnel cfg.tunnels fo.tunnel ≡ some tun
    → IsRouted cfg ip
    → IsRouted (extend_on cfg fo tun ips) ip
unfolding extend_on
extend_on-IsRouted cfg fo tun ips ip g (inl x) = inl x
extend_on-IsRouted cfg fo tun ips ip g (inr (j, on)) = inr (
  j,
  rw (extend_loop_lem ips tun.clients fo).0 (on-grown cfg.tunnels fo.tunnel j tun ips ip g on),
)

-- an extension is one of a recorded failover on a tunnel that is there, or changes nothing
pub extend_cases :
    (cfg : Config)
    → ((extend_xray_failover cfg).0 ≡ cfg)
      ⊎ ((fo : XrayFailover) × (tun : TunnelConfig) × (ips : List Text) × (cfg.xray.failover
            ≡ some fo)
          × (get_tunnel cfg.tunnels fo.tunnel ≡ some tun)
          × ((extend_xray_failover cfg).0 ≡ extend_on cfg fo tun ips))
unfolding extend_xray_failover
extend_cases cfg = elim (Option-cases cfg.xray.failover) [
  | inl n ↦ inl (split (xray_clients_outside_failover cfg) refl n)
  | inr (fo, f) ↦ elim (Option-cases (get_tunnel cfg.tunnels fo.tunnel)) [
    | inl n ↦ inl (ground arith)
    | inr (tun, g) ↦ joined (xray_clients_outside_failover cfg) refl fo tun f g
  ]
]
  where
    split :
        (ips : List Text)
        → xray_clients_outside_failover cfg ≡ ips
        → cfg.xray.failover ≡ none
        → (extend_xray_failover cfg).0 ≡ cfg
    split ips e n = ground arith

    joined :
        (ips : List Text)
        → xray_clients_outside_failover cfg ≡ ips
        → (fo : XrayFailover) (tun : TunnelConfig) → cfg.xray.failover ≡ some fo
        → get_tunnel cfg.tunnels fo.tunnel ≡ some tun
        → ((extend_xray_failover cfg).0 ≡ cfg)
          ⊎ ((fo' : XrayFailover) × (tun' : TunnelConfig) × (ips' : List Text) × (cfg.xray.failover
                ≡ some fo')
              × (get_tunnel cfg.tunnels fo'.tunnel ≡ some tun')
              × ((extend_xray_failover cfg).0 ≡ extend_on cfg fo' tun' ips'))
    joined [] e fo tun f g = inl (ground arith)
    joined (ip ∷ ips) e fo tun f g = inr (fo, tun, ip ∷ ips, f, g, ground arith)

pub extend-IsRouted :
    (cfg : Config) (ip : Text) → IsRouted cfg ip → IsRouted (extend_xray_failover cfg).0 ip
extend-IsRouted cfg ip r = elim (extend_cases cfg) [
  | inl e ↦ rw e r
  | inr (fo, tun, ips, f, g, e) ↦ rw e (extend_on-IsRouted cfg fo tun ips ip g r)
]

-- what a restore takes off the tunnel goes back to Xray
restored-on_xray :
    (cfg : Config) (fo : XrayFailover) (ip : Text)
    → IsTidy cfg.xray.failover
    → cfg.xray.failover ≡ some fo
    → contains (on_tunnel cfg fo.tunnel) ip ≡ true
    → contains (restore_drop fo (snapshot_on_tunnel cfg)) ip ≡ true
    → contains (snapshot_on_tunnel cfg) ip ≡ true
unfolding restore_drop snapshot_on_tunnel
restored-on_xray cfg fo ip t f on d = elim (Option-cases fo.added) [
  | inl n ↦ ground arith
  | inr (a, s) ↦ ground (
    arith,
    t.within fo a ip f s,
    contains-still_on (get_tunnel cfg.tunnels fo.tunnel) fo.clients ip,
  )
]

restore_tunnels-none :
    (m : Tunnels) (fo : XrayFailover) (restored : List Text)
    → get_tunnel m fo.tunnel ≡ none
    → restore_tunnels m fo restored ≡ m
unfolding restore_tunnels
restore_tunnels-none m fo restored n = ground arith

restore_tunnels-some :
    (m : Tunnels) (fo : XrayFailover) (restored : List Text) (tun : TunnelConfig)
    → get_tunnel m fo.tunnel ≡ some tun
    → restore_tunnels m fo restored
      ≡ put_tunnel m fo.tunnel (record tun {
        clients = keep_if (λ ip. not (contains (restore_drop fo restored) ip)) tun.clients;
      })
unfolding restore_tunnels
restore_tunnels-some m fo restored tun g = ground arith

restore_tunnels-on :
    (m : Tunnels) (fo : XrayFailover) (restored : List Text) (j ip : Text)
    → contains (clients_of (get_tunnel m j)) ip ≡ true
    → (contains (clients_of (get_tunnel (restore_tunnels m fo restored) j)) ip ≡ true)
      ⊎ ((contains (clients_of (get_tunnel m fo.tunnel)) ip ≡ true)
          × (contains (restore_drop fo restored) ip ≡ true))
unfolding clients_of
restore_tunnels-on m fo restored j ip on = elim (Option-cases (get_tunnel m fo.tunnel)) [
  | inl n ↦ inl (rw (restore_tunnels-none m fo restored n) on)
  | inr (tun, g) ↦
      elim (Bool-cases (text_eq fo.tunnel j && contains (restore_drop fo restored) ip)) [
        | inl d ↦ inr (ground (arith, text_eq_iff fo.tunnel j), ground arith)
        | inr k ↦ inl (
            rw (restore_tunnels-some m fo restored tun g) (
              on-put_tunnel m fo.tunnel j _ ip
                (λ e. ground (
                  arith,
                  text_eq_iff fo.tunnel j,
                  contains-keep_if (λ (s : Text). not (contains (restore_drop fo restored) s))
                      tun.clients ip,
                ))
                on))
      ]
]

restore_parts :
    (cfg : Config) (fo : XrayFailover)
    → cfg.xray.failover ≡ some fo
    → ((restore_xray_clients_from_failover cfg).0.tunnels
        ≡ restore_tunnels cfg.tunnels fo (snapshot_on_tunnel cfg))
      × ((restore_xray_clients_from_failover cfg).0.xray.clients
          ≡ append_all_new cfg.xray.clients (snapshot_on_tunnel cfg))
unfolding restore_xray_clients_from_failover
restore_parts cfg fo f = (ground arith, ground arith)

restore_none :
    (cfg : Config) → cfg.xray.failover ≡ none → (restore_xray_clients_from_failover cfg).0 ≡ cfg
unfolding restore_xray_clients_from_failover
restore_none cfg n = ground arith

pub restore-IsRouted :
    (cfg : Config) (ip : Text)
    → IsTidy cfg.xray.failover
    → IsRouted cfg ip
    → IsRouted (restore_xray_clients_from_failover cfg).0 ip
restore-IsRouted cfg ip t r = elim (Option-cases cfg.xray.failover) [
  | inl n ↦ rw (restore_none cfg n) r
  | inr (fo, f) ↦
      let (tunnels, clients) = restore_parts cfg fo f in
      let back = contains-append_all_new cfg.xray.clients (snapshot_on_tunnel cfg) ip in
      elim r [
        | inl x ↦ inl (rw clients (ground (arith, back)))
        | inr (j, on) ↦ elim (restore_tunnels-on cfg.tunnels fo (snapshot_on_tunnel cfg) j ip on) [
          | inl stays ↦ inr (j, rw tunnels stays)
          | inr (was, d) ↦
              inl (rw clients (ground (arith, back, restored-on_xray cfg fo ip t f was d)))
        ]
      ]
]

pub ensure-IsRouted :
    (cfg : Config) (ip : Text) → IsRouted cfg ip → IsRouted (ensure_failover_staged cfg) ip
unfolding ensure_failover_staged
ensure-IsRouted cfg ip r = elim (Option-cases cfg.xray.failover) [
  | inl n ↦ rw n r
  | inr (fo, f) ↦ rw f (elim r [
    | inl x ↦ inl (
        ground (
          arith,
          contains-append_all_new cfg.xray.clients
              (keep_if (λ s. not (is_paused cfg s)) (snapshot_on_tunnel cfg)) ip,
        ))
    | inr on ↦ inr on
  ])
]

apply_snapshot_on-IsRouted :
    (cfg : Config) (fo : XrayFailover) (tun : TunnelConfig) (ip : Text)
    → get_tunnel cfg.tunnels fo.tunnel ≡ some tun
    → IsRouted cfg ip
    → IsRouted (apply_snapshot_on cfg fo tun) ip
unfolding apply_snapshot_on clients_of
apply_snapshot_on-IsRouted cfg fo tun ip g (inr (j, on)) =
    inr (
      j,
      on-grown cfg.tunnels fo.tunnel j tun (keep_if (λ s. not (text_eq s [])) fo.clients) ip g on,
    )
apply_snapshot_on-IsRouted cfg fo tun ip g (inl x) =
    let ips = keep_if (λ (s : Text). not (text_eq s [])) fo.clients in
    elim (Bool-cases (fo.committed && contains ips ip)) [
      | inl moved ↦ inr (
        fo.tunnel,
        rw (get-put_tunnel, text_eq_refl fo.tunnel)
            (ground (arith, contains-append_all_new tun.clients ips ip)),
      )
      | inr stays ↦ inl (
          ground (arith, contains-keep_if (λ (s : Text). not (contains ips s)) cfg.xray.clients ip))
    ]

pub reinstate-IsRouted :
    (cfg : Config) (fo : XrayFailover) (ip : Text)
    → IsRouted cfg ip
    → IsRouted (apply_failover_snapshot cfg fo) ip
unfolding apply_failover_snapshot
reinstate-IsRouted cfg fo ip r = elim (Bool-cases (text_eq fo.tunnel [])) [
  | inl e ↦ rw e r
  | inr e ↦ rw e (elim (Option-cases (get_tunnel cfg.tunnels fo.tunnel)) [
    | inl n ↦ rw n r
    | inr (tun, g) ↦ rw g (apply_snapshot_on-IsRouted cfg fo tun ip g r)
  ])
]
