-- ===== src/VpnConfig/Moves.antt =====
-- The operations of server/internal/vpnconfig/failover.go that move Xray clients onto a Tunnel
-- Director tunnel while Xray is down, and back. Each is a function of the configuration it mutates.
pub mod Texts
pub mod Stage
pub mod RoundTrip
pub mod Safety
pub mod Resume
pub mod Extend
pub mod Detach
pub mod Routes
pub mod Tidy
use vpn_director.Prelude.{
  ℕ, Text, Bool, true, false, ◌&&◌, ◌||◌, not, Option, none, some, List, [], ◌∷◌, ◌++◌,
  if◌then◌else◌, text_eq, contains, keep_if,
}
use vpn_director.VpnConfig.Address.{td_carries, without_addr}
use vpn_director.VpnConfig.Config.{
  Config, XrayFailover, TunnelConfig, Tunnels, get_tunnel, put_tunnel, is_paused,
}
use vpn_director.VpnConfig.Failover.{
  append_new, append_all_new, snapshot_on_tunnel, failover_committed, xray_clients_outside_failover,
}

-- the loop of `ExtendXrayFailover` over the tunnel's clients and the failover record
unfoldable pub extend_loop : List Text → List Text → XrayFailover → List Text × XrayFailover
extend_loop [] tun fo = (tun, fo)
extend_loop (ip ∷ ips) tun fo =
    let added : Option (List Text) =
      if contains tun ip
      then fo.added
      else elim fo.added [ none ↦ none | some a ↦ some (append_new a ip) ] in
    extend_loop ips (append_new tun ip)
      (record fo { clients = append_new fo.clients ip; added = added })

unfoldable pub extend_on : Config → XrayFailover → TunnelConfig → List Text → Config
extend_on cfg fo tun outside =
    let (ips, fo') = extend_loop outside tun.clients fo in
    record cfg {
      tunnels = put_tunnel cfg.tunnels fo.tunnel (record tun { clients = ips });
      xray = record cfg.xray { failover = some fo' };
    }

-- `ExtendXrayFailover`: whether anything changed, and the configuration
unfoldable pub extend_xray_failover : Config → Config × Bool
extend_xray_failover cfg = elim (xray_clients_outside_failover cfg) [
  | [] ↦ (cfg, false)
  | ip ∷ ips ↦ elim cfg.xray.failover [
    | none ↦ (cfg, false)
    | some fo ↦ elim (get_tunnel cfg.tunnels fo.tunnel) [
      | none ↦ (cfg, false)
      | some tun ↦ (extend_on cfg fo tun (ip ∷ ips), true)
    ]
  ]
]

unfoldable pub detach_record : Text → XrayFailover → XrayFailover
detach_record addr fo = record fo {
  clients = without_addr fo.clients addr;
  added = elim fo.added [ none ↦ none | some a ↦ some (without_addr a addr) ];
}

unfoldable pub detach_failover_client : Config → Text → Config
detach_failover_client cfg addr = record cfg {
  xray = record cfg.xray {
    failover = elim cfg.xray.failover [ none ↦ none | some fo ↦ some (detach_record addr fo) ];
    pending_restore = elim cfg.xray.pending_restore [
      | none ↦ none
      | some p ↦ some (record p {
        snapshot = elim p.snapshot [ none ↦ none | some fo ↦ some (detach_record addr fo) ];
        restored = without_addr p.restored addr;
      })
    ];
  };
}

-- the locals of `StageXrayClientsToTunnel`'s loop
pub record Staging : Type 0 where
  pub tun : List Text
  pub dropped : List Text
  pub added : List Text

unfoldable pub stage_loop : Config → List Text → Staging → Staging
stage_loop cfg [] st = st
stage_loop cfg (ip ∷ ips) st = stage_loop cfg ips (
    if is_paused cfg ip || not (td_carries ip) then st else record {
      tun = append_new st.tun ip;
      dropped = st.dropped ++ ip ∷ [];
      added = if contains st.tun ip then st.added else st.added ++ ip ∷ [];
    })

-- what a stage that dropped nobody, or somebody, writes
unfoldable pub record_stage : Config → Text → TunnelConfig → Staging → Config
record_stage cfg tunnel tun st = elim st.dropped [
  | [] ↦ cfg
  | _ ∷ _ ↦ record cfg {
    tunnels = put_tunnel cfg.tunnels tunnel (record tun { clients = st.tun });
    xray = record cfg.xray {
      failover = some (record {
        tunnel = tunnel;
        clients = st.dropped;
        added = some st.added;
        committed = false;
      });
    };
  }
]

unfoldable pub stage_on : Config → Text → Option TunnelConfig → Config
stage_on cfg tunnel none = cfg
stage_on cfg tunnel (some tun) =
    record_stage cfg tunnel tun
      (stage_loop cfg cfg.xray.clients (record { tun = tun.clients; dropped = []; added = [] }))

unfoldable pub stage_xray_clients_to_tunnel : Config → Text → Config
stage_xray_clients_to_tunnel cfg tunnel =
    if text_eq tunnel [] then cfg else elim cfg.xray.failover [
      | some _ ↦ cfg
      | none ↦ stage_on cfg tunnel (get_tunnel cfg.tunnels tunnel)
    ]

unfoldable pub commit_xray_failover : Config → Config
commit_xray_failover cfg = elim cfg.xray.failover [
  | none ↦ cfg
  | some fo ↦ record cfg {
    xray = record cfg.xray {
      failover = some (record fo { committed = true });
      clients =
          keep_if (λ ip. is_paused cfg ip || not (contains (snapshot_on_tunnel cfg) ip))
            cfg.xray.clients;
    };
  }
]

unfoldable pub move_xray_clients_to_tunnel : Config → Text → Config
move_xray_clients_to_tunnel cfg tunnel =
    commit_xray_failover (stage_xray_clients_to_tunnel cfg tunnel)

-- the addresses that a restore takes off the tunnel
unfoldable pub restore_drop : XrayFailover → List Text → List Text
restore_drop fo restored = elim fo.added [ none ↦ restored | some a ↦ a ]

unfoldable pub restore_tunnels : Tunnels → XrayFailover → List Text → Tunnels
restore_tunnels m fo restored = elim (get_tunnel m fo.tunnel) [
  | none ↦ m
  | some tun ↦ put_tunnel m fo.tunnel (record tun {
    clients = keep_if (λ ip. not (contains (restore_drop fo restored) ip)) tun.clients;
  })
]

-- `RestoreXrayClientsFromFailover`: the configuration, and the addresses restored
unfoldable pub restore_xray_clients_from_failover : Config → Config × List Text
restore_xray_clients_from_failover cfg = elim cfg.xray.failover [
  | none ↦ (cfg, [])
  | some fo ↦ (
    record cfg {
      tunnels = restore_tunnels cfg.tunnels fo (snapshot_on_tunnel cfg);
      xray = record cfg.xray {
        clients = append_all_new cfg.xray.clients (snapshot_on_tunnel cfg);
        failover = none;
      };
    },
    snapshot_on_tunnel cfg,
  )
]

unfoldable pub apply_snapshot_on : Config → XrayFailover → TunnelConfig → Config
apply_snapshot_on cfg fo tun =
    let ips = keep_if (λ ip. not (text_eq ip [])) fo.clients in
    record cfg {
      tunnels =
          put_tunnel cfg.tunnels fo.tunnel
            (record tun { clients = append_all_new tun.clients ips });
      xray = record cfg.xray {
        clients =
            if fo.committed
            then keep_if (λ ip. not (contains ips ip)) cfg.xray.clients
            else cfg.xray.clients;
        failover = some (record fo { clients = ips });
      };
    }

-- `ApplyFailoverSnapshot`
unfoldable pub apply_failover_snapshot : Config → XrayFailover → Config
apply_failover_snapshot cfg fo =
    if text_eq fo.tunnel [] then cfg else elim (get_tunnel cfg.tunnels fo.tunnel) [
      | none ↦ cfg
      | some tun ↦ apply_snapshot_on cfg fo tun
    ]

-- `EnsureFailoverStaged`
unfoldable pub ensure_failover_staged : Config → Config
ensure_failover_staged cfg = elim cfg.xray.failover [
  | none ↦ cfg
  | some fo ↦ record cfg {
    xray = record cfg.xray {
      failover = some (record fo { committed = fo.committed || failover_committed cfg });
      clients =
          append_all_new cfg.xray.clients
            (keep_if (λ ip. not (is_paused cfg ip)) (snapshot_on_tunnel cfg));
    };
  }
]
