-- ===== src/VpnConfig/Moves/Extend.antt =====
-- `ExtendXrayFailover`, on clients added while Xray is down.
use vpn_director.Prelude.{
  Text, Bool, true, false, ◌&&◌, not, ◌≡◌, ◌≢◌, ◌⊎◌, refl, ◌∙◌, ap, sym, List, [], ◌∷◌, arith,
  contains, keep_if, contains-keep_if, Option-cases, inl, inr, some, none,
}
use vpn_director.VpnConfig.Config.{Config, TunnelConfig, XrayFailover, is_paused, get_tunnel}
use vpn_director.VpnConfig.Config.Maps.{get-put_tunnel_self}
use vpn_director.VpnConfig.Failover.{
  append_new, append_all_new, effective_xray_clients, carriable_xray_clients,
  xray_clients_outside_failover,
}
use vpn_director.VpnConfig.Moves.{extend_loop, extend_on, extend_xray_failover}
use vpn_director.VpnConfig.Moves.Texts.{contains-append_all_new, keep_if_no_members}

pub extend_loop_lem :
    (ips tun : List Text) (fo : XrayFailover)
    → ((extend_loop ips tun fo).0 ≡ append_all_new tun ips)
      × ((extend_loop ips tun fo).1.clients ≡ append_all_new fo.clients ips)
      × ((extend_loop ips tun fo).1.tunnel ≡ fo.tunnel)
unfolding extend_loop append_all_new
extend_loop_lem [] tun fo = (refl, refl, refl)
extend_loop_lem (ip ∷ ips) tun fo = extend_loop_lem ips (append_new tun ip) _

-- the clients outside a failover that is recorded, on a tunnel that is there
outside_of : XrayFailover → List Text → List Text → List Text
outside_of fo tun ips = keep_if (λ ip. not (contains fo.clients ip && contains tun ip)) ips

outside_lem :
    (cfg : Config) (fo : XrayFailover) (tun : TunnelConfig)
    → cfg.xray.failover ≡ some fo
    → get_tunnel cfg.tunnels fo.tunnel ≡ some tun
    → xray_clients_outside_failover cfg ≡ outside_of fo tun.clients (carriable_xray_clients cfg)
unfolding xray_clients_outside_failover outside_of
outside_lem cfg fo tun e g = ground arith

-- Once the outside clients are in both lists, none is outside.
outside_of-extended :
    (fo fo' : XrayFailover) (tun ips : List Text)
    → fo'.clients ≡ append_all_new fo.clients (outside_of fo tun ips)
    → outside_of fo' (append_all_new tun (outside_of fo tun ips)) ips ≡ []
unfolding outside_of
outside_of-extended fo fo' tun ips e = rw e (
    keep_if_no_members _ ips (λ s m. ground (
      arith,
      contains-append_all_new fo.clients (outside_of fo tun ips) s,
      contains-append_all_new tun (outside_of fo tun ips) s,
      contains-keep_if (λ (ip : Text). not (contains fo.clients ip && contains tun ip)) ips s,
    )))

carriable-extend_on :
    (cfg : Config) (fo : XrayFailover) (tun : TunnelConfig) (ips : List Text)
    → carriable_xray_clients (extend_on cfg fo tun ips) ≡ carriable_xray_clients cfg
unfolding extend_on carriable_xray_clients effective_xray_clients is_paused
carriable-extend_on cfg fo tun ips = refl

extend_on-outside :
    (cfg : Config) (fo : XrayFailover) (tun : TunnelConfig)
    → xray_clients_outside_failover
        (extend_on cfg fo tun (outside_of fo tun.clients (carriable_xray_clients cfg)))
      ≡ []
unfolding extend_on
extend_on-outside cfg fo tun =
    outside_lem (extend_on cfg fo tun ips) loop.1 (record tun { clients = loop.0 }) refl
      (rw (extend_loop_lem ips tun.clients fo).2 (get-put_tunnel_self cfg.tunnels fo.tunnel _))
    ∙ ap (outside_of loop.1 loop.0) (carriable-extend_on cfg fo tun ips)
    ∙ rw (extend_loop_lem ips tun.clients fo).0 (
        outside_of-extended fo loop.1 tun.clients (carriable_xray_clients cfg)
          (extend_loop_lem ips tun.clients fo).1)
  where
    ips : List Text
    ips = outside_of fo tun.clients (carriable_xray_clients cfg)

    loop : List Text × XrayFailover
    loop = extend_loop ips tun.clients fo

-- `result` leaves nobody outside the failover and nobody off Xray, and reports a change exactly if
-- somebody was outside; without one it is the configuration that there was.
pub record IsExtended (cfg : Config) (result : Config × Bool) : Type 0 where
  pub covered : xray_clients_outside_failover result.0 ≡ []
  pub clients : result.0.xray.clients ≡ cfg.xray.clients
  pub paused : result.0.paused_clients ≡ cfg.paused_clients
  pub reported :
      ((xray_clients_outside_failover cfg ≡ []) × (result ≡ (cfg, false)))
      ⊎ ((xray_clients_outside_failover cfg ≢ []) × (result.1 ≡ true))

extend_some :
    (cfg : Config) (fo : XrayFailover) (tun : TunnelConfig) (ips : List Text)
    → xray_clients_outside_failover cfg ≢ []
    → ips ≡ outside_of fo tun.clients (carriable_xray_clients cfg)
    → IsExtended cfg (extend_on cfg fo tun ips, true)
extend_some cfg fo tun ips some_out e = record {
  covered = rw e (extend_on-outside cfg fo tun);
  clients = unfold extend_on in refl;
  paused = unfold extend_on in refl;
  reported = inr (some_out, refl);
}

no_failover : (cfg : Config) → cfg.xray.failover ≡ none → xray_clients_outside_failover cfg ≡ []
unfolding xray_clients_outside_failover
no_failover cfg e = ground arith

no_tunnel :
    (cfg : Config) (fo : XrayFailover)
    → cfg.xray.failover ≡ some fo
    → get_tunnel cfg.tunnels fo.tunnel ≡ none
    → xray_clients_outside_failover cfg ≡ []
unfolding xray_clients_outside_failover
no_tunnel cfg fo e g = ground arith

extend_nobody :
    (cfg : Config)
    → xray_clients_outside_failover cfg ≡ []
    → extend_xray_failover cfg ≡ (cfg, false)
unfolding extend_xray_failover
extend_nobody cfg o = ground arith

extend_somebody :
    (cfg : Config) (fo : XrayFailover) (tun : TunnelConfig) (ip : Text) (ips : List Text)
    → cfg.xray.failover ≡ some fo
    → get_tunnel cfg.tunnels fo.tunnel ≡ some tun
    → xray_clients_outside_failover cfg ≡ ip ∷ ips
    → extend_xray_failover cfg ≡ (extend_on cfg fo tun (ip ∷ ips), true)
unfolding extend_xray_failover
extend_somebody cfg fo tun ip ips e g o = ground arith

extend_same :
    (cfg : Config)
    → xray_clients_outside_failover cfg ≡ []
    → IsExtended cfg (extend_xray_failover cfg)
extend_same cfg o =
    rw (extend_nobody cfg o)
      (record { covered = o; clients = refl; paused = refl; reported = inl (o, refl) })

extend_result :
    (cfg : Config) (fo : XrayFailover) (tun : TunnelConfig) (ips : List Text)
    → cfg.xray.failover ≡ some fo
    → get_tunnel cfg.tunnels fo.tunnel ≡ some tun
    → xray_clients_outside_failover cfg ≡ ips
    → IsExtended cfg (extend_xray_failover cfg)
extend_result cfg fo tun [] e g o = extend_same cfg o
extend_result cfg fo tun (ip ∷ ips) e g o = rw (extend_somebody cfg fo tun ip ips e g o) (
    extend_some cfg fo tun (ip ∷ ips)
      (λ none_out. absurd (let k : ip ∷ ips ≡ [] = sym o ∙ none_out in cc))
      (sym o ∙ outside_lem cfg fo tun e g))

-- After an extension no client that Tunnel Director could carry is outside the failover; it takes
-- none off Xray and changes no pause. It reports a change exactly if some such client was outside
-- before, and otherwise it gives the configuration back as it was.
pub extend-IsExtended : (cfg : Config) → IsExtended cfg (extend_xray_failover cfg)
extend-IsExtended cfg = elim (Option-cases cfg.xray.failover) [
  | inl e ↦ extend_same cfg (no_failover cfg e)
  | inr (fo, e) ↦ elim (Option-cases (get_tunnel cfg.tunnels fo.tunnel)) [
    | inl g ↦ extend_same cfg (no_tunnel cfg fo e g)
    | inr (tun, g) ↦ extend_result cfg fo tun (xray_clients_outside_failover cfg) e g refl
  ]
]
