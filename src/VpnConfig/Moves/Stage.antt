-- ===== src/VpnConfig/Moves/Stage.antt =====
-- What `StageXrayClientsToTunnel` computes, with its loop gone.
use vpn_director.Prelude.{
  Text, Bool, false, ◌&&◌, not, ◌≡◌, ◌⊎◌, refl, List, [], ◌∷◌, ◌++◌, if◌then◌else◌, arith, text_eq,
  contains, keep_if, append_assoc, append-nil, Bool-cases, Option-cases, inl, inr, some, none,
}
use vpn_director.VpnConfig.Address.{td_carries}
use vpn_director.VpnConfig.Config.{Config, TunnelConfig, is_paused, get_tunnel, put_tunnel}
use vpn_director.VpnConfig.Failover.{append_new, append_all_new}
use vpn_director.VpnConfig.Moves.{
  Staging, stage_loop, stage_on, record_stage, stage_xray_clients_to_tunnel,
}
use vpn_director.VpnConfig.Moves.Texts.{new_texts}

-- the clients that a stage moves
abbrev pub is_movable : Config → Text → Bool
is_movable cfg ip = not (is_paused cfg ip) && td_carries ip

abbrev pub moved_clients : Config → List Text
moved_clients cfg = keep_if (is_movable cfg) cfg.xray.clients

-- the locals after staging `ips`
abbrev staged_locals : Staging → List Text → Staging
staged_locals st ips = record {
  tun = append_all_new st.tun ips;
  dropped = st.dropped ++ ips;
  added = st.added ++ new_texts st.tun ips;
}

abbrev stage_one : Staging → Text → Staging
stage_one st ip = record {
  tun = append_new st.tun ip;
  dropped = st.dropped ++ ip ∷ [];
  added = if contains st.tun ip then st.added else st.added ++ ip ∷ [];
}

staged_locals-one :
    (st : Staging) (ip : Text) (ips : List Text)
    → staged_locals (stage_one st ip) ips ≡ staged_locals st (ip ∷ ips)
unfolding append_all_new new_texts
staged_locals-one st ip ips = ground (
  arith,
  append_assoc st.dropped (ip ∷ []) ips,
  append_assoc st.added (ip ∷ []) (new_texts (append_new st.tun ip) ips),
)

stage_loop_lem :
    (cfg : Config) (ips : List Text) (st : Staging)
    → stage_loop cfg ips st ≡ staged_locals st (keep_if (is_movable cfg) ips)
unfolding stage_loop keep_if
stage_loop_lem cfg [] st =
    unfold append_all_new new_texts in ground (arith, append-nil st.dropped, append-nil st.added)
stage_loop_lem cfg (ip ∷ ips) st = ground (
  arith,
  stage_loop_lem cfg ips st,
  stage_loop_lem cfg ips (stage_one st ip),
  staged_locals-one st ip (keep_if (is_movable cfg) ips),
)

-- the configuration after a stage that moves `ips`
abbrev pub staged : Config → Text → TunnelConfig → List Text → Config
staged cfg tunnel tun ips = record cfg {
  tunnels = put_tunnel cfg.tunnels tunnel (record tun { clients = append_all_new tun.clients ips });
  xray = record cfg.xray {
    failover = some (record {
      tunnel = tunnel;
      clients = ips;
      added = some (new_texts tun.clients ips);
      committed = false;
    });
  };
}

stage_on_lem :
    (cfg : Config) (tunnel : Text) (tun : TunnelConfig)
    → ((moved_clients cfg ≡ []) × (stage_on cfg tunnel (some tun) ≡ cfg))
      ⊎ (stage_on cfg tunnel (some tun) ≡ staged cfg tunnel tun (moved_clients cfg))
unfolding stage_on record_stage
stage_on_lem cfg tunnel tun = split (moved_clients cfg) refl
  where
    split :
        (m : List Text)
        → moved_clients cfg ≡ m
        → ((moved_clients cfg ≡ []) × (stage_on cfg tunnel (some tun) ≡ cfg))
          ⊎ (stage_on cfg tunnel (some tun) ≡ staged cfg tunnel tun (moved_clients cfg))
    split [] e = inl (
      e,
      rw
          (
            stage_on,
            stage_loop_lem cfg cfg.xray.clients
                (record { tun = tun.clients; dropped = []; added = [] }),
            e,
          )
          refl,
    )
    split (x ∷ xs) e = inr (
        rw
          (
            stage_on,
            stage_loop_lem cfg cfg.xray.clients
                (record { tun = tun.clients; dropped = []; added = [] }),
            e,
          )
          refl)

-- A stage changes nothing, or there is no failover yet and it moves every movable client.
pub stage_cases :
    (cfg : Config) (tunnel : Text)
    → (stage_xray_clients_to_tunnel cfg tunnel ≡ cfg)
      ⊎ ((tun : TunnelConfig) × (get_tunnel cfg.tunnels tunnel ≡ some tun)
          × (cfg.xray.failover ≡ none)
          × (stage_xray_clients_to_tunnel cfg tunnel ≡ staged cfg tunnel tun (moved_clients cfg)))
unfolding stage_xray_clients_to_tunnel
stage_cases cfg tunnel = elim (Bool-cases (text_eq tunnel [])) [
  | inl e ↦ inl (rw e refl)
  | inr e ↦ elim (Option-cases cfg.xray.failover) [
    | inr (fo, f) ↦ inl (ground arith)
    | inl f ↦ elim (Option-cases (get_tunnel cfg.tunnels tunnel)) [
      | inl g ↦ inl (unfold stage_on in ground arith)
      | inr (tun, g) ↦ elim (stage_on_lem cfg tunnel tun) [
        | inl (_, s) ↦ inl (ground arith)
        | inr s ↦ inr (tun, g, f, ground arith)
      ]
    ]
  ]
]
