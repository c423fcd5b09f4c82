-- ===== src/VpnConfig/Clients/Others.antt =====
-- `MoveClient` on the addresses that are no spelling of the one moved.
use vpn_director.Prelude.{
  Text, Bool, true, false, ◌≡◌, refl, ◌∙◌, ap, List, [], ◌∷◌, ◌++◌, arith, text_eq, text_eq_iff,
  contains, contains-append, Bool-cases, inl, inr, some, none, Option,
}
use vpn_director.VpnConfig.Address.{addr_key, same_addr, without_addr}
use vpn_director.VpnConfig.Address.Normal.{addr_key_idem}
use vpn_director.VpnConfig.Config.{
  Config, TunnelConfig, get_tunnel, put_tunnel, clients_of, xray_route, is_paused,
}
use vpn_director.VpnConfig.Config.Maps.{get-put_tunnel}
use vpn_director.VpnConfig.Moves.{detach_failover_client}
use vpn_director.VpnConfig.Moves.Detach.{contains-without_addr}
use vpn_director.VpnConfig.Moves.Safety.{on_tunnel}
use vpn_director.VpnConfig.Clients.{
  client_routes, take_off_route, take_off_routes, put_on_route, tunnel_or_zero, tunnel_or_new,
  repause, relocate, move_from, move_client, was_paused,
}

-- `after` has the address `s` where `cfg` has it, and paused as `cfg` has it.
pub record IsLeft (cfg after : Config) (s : Text) : Type 0 where
  pub on_xray : contains after.xray.clients s ≡ contains cfg.xray.clients s
  pub on_tunnels : (r : Text) → contains (on_tunnel after r) s ≡ contains (on_tunnel cfg r) s
  pub paused : is_paused after s ≡ is_paused cfg s

IsLeft-refl : (cfg : Config) (s : Text) → IsLeft cfg cfg s
IsLeft-refl cfg s = record { on_xray = refl; on_tunnels = λ r. refl; paused = refl }

IsLeft-trans : (a b c : Config) (s : Text) → IsLeft a b s → IsLeft b c s → IsLeft a c s
IsLeft-trans a b c s p q = record {
  on_xray = q.on_xray ∙ p.on_xray;
  on_tunnels = λ r. q.on_tunnels r ∙ p.on_tunnels r;
  paused = q.paused ∙ p.paused;
}

contains-tunnel_or_zero :
    (o : Option TunnelConfig) (s : Text)
    → contains (tunnel_or_zero o).clients s ≡ contains (clients_of o) s
unfolding tunnel_or_zero clients_of
contains-tunnel_or_zero none s = refl
contains-tunnel_or_zero (some t) s = refl

contains-tunnel_or_new :
    (cfg : Config) (o : Option TunnelConfig) (s : Text)
    → contains (tunnel_or_new cfg o).clients s ≡ contains (clients_of o) s
unfolding tunnel_or_new clients_of
contains-tunnel_or_new cfg none s = refl
contains-tunnel_or_new cfg (some t) s = refl

module _ (addr s : Text) (other : same_addr s addr ≡ false) where
  key_other : text_eq (addr_key addr) s ≡ false
  key_other = elim (Bool-cases (text_eq (addr_key addr) s)) [
    | inr no_match ↦ no_match
    | inl e ↦ ground (
      arith,
      ap addr_key ((text_eq_iff (addr_key addr) s).0 e),
      addr_key_idem addr,
      text_eq_iff (addr_key s) (addr_key addr),
    )
  ]

  contains-append_key :
      (list : List Text) → contains (list ++ addr_key addr ∷ []) s ≡ contains list s
  contains-append_key list =
      contains-append list (addr_key addr ∷ []) s ∙ unfold contains in ground (arith, key_other)

  IsLeft-put_tunnel :
      (cfg : Config) (r : Text) (t : TunnelConfig)
      → contains t.clients s ≡ contains (on_tunnel cfg r) s
      → IsLeft cfg (record cfg { tunnels = put_tunnel cfg.tunnels r t }) s
  unfolding is_paused clients_of
  IsLeft-put_tunnel cfg r t e = record {
    on_xray = refl;
    on_tunnels = λ j. ground (arith, get-put_tunnel cfg.tunnels r j t, text_eq_iff r j);
    paused = refl;
  }

  IsLeft-set_xray :
      (cfg : Config) (ips : List Text)
      → contains ips s ≡ contains cfg.xray.clients s
      → IsLeft cfg (record cfg { xray = record cfg.xray { clients = ips } }) s
  unfolding is_paused
  IsLeft-set_xray cfg ips e = record { on_xray = e; on_tunnels = λ j. refl; paused = refl }

  contains-without_other :
      (list : List Text) → contains (without_addr list addr) s ≡ contains list s
  contains-without_other list = ground (arith, contains-without_addr list addr s, other)

  IsLeft-take_off : (cfg : Config) (r : Text) → IsLeft cfg (take_off_route cfg addr r) s
  unfolding take_off_route
  IsLeft-take_off cfg r = elim (Bool-cases (text_eq r xray_route)) [
    | inl e ↦ rw e (IsLeft-set_xray cfg _ (contains-without_other cfg.xray.clients))
    | inr e ↦ rw e (
        IsLeft-put_tunnel cfg r _ (
          contains-without_other (tunnel_or_zero (get_tunnel cfg.tunnels r)).clients
          ∙ contains-tunnel_or_zero (get_tunnel cfg.tunnels r) s))
  ]

  IsLeft-take_off_routes :
      (cfg : Config) (rs : List Text) → IsLeft cfg (take_off_routes cfg addr rs) s
  unfolding take_off_routes
  IsLeft-take_off_routes cfg [] = IsLeft-refl cfg s
  IsLeft-take_off_routes cfg (r ∷ rs) =
      IsLeft-trans cfg (take_off_route cfg addr r) _ s (IsLeft-take_off cfg r)
        (IsLeft-take_off_routes (take_off_route cfg addr r) rs)

  IsLeft-put_on :
      (cfg : Config) (route : Text) → IsLeft cfg (put_on_route cfg (addr_key addr) route) s
  unfolding put_on_route
  IsLeft-put_on cfg route = elim (Bool-cases (text_eq route xray_route)) [
    | inl e ↦ rw e (IsLeft-set_xray cfg _ (contains-append_key cfg.xray.clients))
    | inr e ↦ rw e (
        IsLeft-put_tunnel cfg route _ (
          contains-append_key (tunnel_or_new cfg (get_tunnel cfg.tunnels route)).clients
          ∙ contains-tunnel_or_new cfg (get_tunnel cfg.tunnels route) s))
  ]

  contains-repause : (ps : List Text) (w : Bool) → contains (repause ps addr w) s ≡ contains ps s
  unfolding repause
  contains-repause [] w = refl
  contains-repause (p ∷ ps) true =
      contains-append_key (without_addr (p ∷ ps) addr) ∙ contains-without_other (p ∷ ps)
  contains-repause (p ∷ ps) false = contains-without_other (p ∷ ps)

  IsLeft-relocate :
      (cfg : Config) (route : Text) (on : List Text) → IsLeft cfg (relocate cfg addr route on) s
  unfolding relocate detach_failover_client is_paused
  IsLeft-relocate cfg route on =
      let off = take_off_routes cfg addr on in
      let moved =
        IsLeft-trans cfg off _ s (IsLeft-take_off_routes cfg on) (IsLeft-put_on off route) in
      record {
        on_xray = moved.on_xray;
        on_tunnels = moved.on_tunnels;
        paused = contains-repause _ (was_paused cfg addr) ∙ moved.paused;
      }

  IsLeft-move_from :
      (cfg : Config) (route : Text) (on : List Text) → IsLeft cfg (move_from cfg addr route on).0 s
  unfolding move_from
  IsLeft-move_from cfg route [] = IsLeft-refl cfg s
  IsLeft-move_from cfg route (r ∷ []) = elim (Bool-cases (text_eq r route)) [
    | inl e ↦ rw e (IsLeft-refl cfg s)
    | inr e ↦ rw e (IsLeft-relocate cfg route (r ∷ []))
  ]
  IsLeft-move_from cfg route (r ∷ q ∷ rs) = IsLeft-relocate cfg route (r ∷ q ∷ rs)

-- A move changes nothing for another address: where it is stored, on Xray and on every tunnel, and
-- whether it is paused.
pub move_client-IsLeft :
    (cfg : Config) (addr route s : Text)
    → same_addr s addr ≡ false
    → IsLeft cfg (move_client cfg addr route).0 s
unfolding move_client
move_client-IsLeft cfg addr route s other =
    IsLeft-move_from addr s other cfg route (client_routes cfg addr)
