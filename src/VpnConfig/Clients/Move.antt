-- ===== src/VpnConfig/Clients/Move.antt =====
-- The routes of the moved address after `MoveClient`.
use vpn_director.Prelude.{
  Text, Bool, true, false, ◌&&◌, ◌||◌, not, ◌≡◌, refl, ◌∙◌, List, [], ◌∷◌, ◌++◌, arith, text_eq,
  text_eq_iff, text_eq_refl, contains, any, keep_if, none,
}
use vpn_director.VpnConfig.Address.{addr_key, without_addr}
use vpn_director.VpnConfig.Address.Normal.{addr_key_idem}
use vpn_director.VpnConfig.Config.{Config, TunnelConfig, get_tunnel, clients_of, xray_route}
use vpn_director.VpnConfig.Config.Maps.{get-put_tunnel}
use vpn_director.VpnConfig.Moves.{detach_failover_client}
use vpn_director.VpnConfig.Clients.{
  client_routes, take_off_route, take_off_routes, put_on_route, tunnel_or_zero, tunnel_or_new,
  relocate,
}
use vpn_director.VpnConfig.Clients.Routes.{
  singleton_of, distinct-client_routes, holds, contains-client_routes,
}

-- No spelling of an address is left of a list without it.
holds-without_addr : (addr : Text) (list : List Text) → holds addr (without_addr list addr) ≡ false
unfolding holds without_addr any keep_if
holds-without_addr addr [] = refl
holds-without_addr addr (ip ∷ ips) = ground (arith, holds-without_addr addr ips)

holds-append_key : (addr : Text) (list : List Text) → holds addr (list ++ addr_key addr ∷ []) ≡ true
unfolding holds any
holds-append_key addr [] = rw (addr_key_idem addr, text_eq_refl (addr_key addr)) refl
holds-append_key addr (ip ∷ ips) = ground (arith, holds-append_key addr ips)

-- the clients that `CollectClients` lists under a route, apart from the route's name
abbrev on_xray : Config → Text → Bool
on_xray cfg addr = holds addr cfg.xray.clients

abbrev on_tun : Config → Text → Text → Bool
on_tun cfg addr r = holds addr (clients_of (get_tunnel cfg.tunnels r))

take_off-xray :
    (cfg : Config) (addr r : Text)
    → on_xray (take_off_route cfg addr r) addr ≡ (not (text_eq r xray_route) && on_xray cfg addr)
unfolding take_off_route
take_off-xray cfg addr r = ground (arith, holds-without_addr addr cfg.xray.clients)

take_off-tunnel :
    (cfg : Config) (addr r j : Text)
    → on_tun (take_off_route cfg addr r) addr j
      ≡ (not (not (text_eq r xray_route) && text_eq r j) && on_tun cfg addr j)
unfolding take_off_route clients_of
take_off-tunnel cfg addr r j = ground (
  arith,
  get-put_tunnel cfg.tunnels r j (record (tunnel_or_zero (get_tunnel cfg.tunnels r)) {
    clients = without_addr (tunnel_or_zero (get_tunnel cfg.tunnels r)).clients addr;
  }),
  holds-without_addr addr (tunnel_or_zero (get_tunnel cfg.tunnels r)).clients,
)

take_off_all-xray :
    (rs : List Text) (cfg : Config) (addr : Text)
    → on_xray (take_off_routes cfg addr rs) addr
      ≡ (not (contains rs xray_route) && on_xray cfg addr)
unfolding take_off_routes contains
take_off_all-xray [] cfg addr = refl
take_off_all-xray (r ∷ rs) cfg addr =
    ground (arith, take_off_all-xray rs (take_off_route cfg addr r) addr, take_off-xray cfg addr r)

take_off_all-tunnel :
    (rs : List Text) (cfg : Config) (addr j : Text)
    → text_eq j xray_route ≡ false
    → on_tun (take_off_routes cfg addr rs) addr j ≡ (not (contains rs j) && on_tun cfg addr j)
unfolding take_off_routes contains
take_off_all-tunnel [] cfg addr j h = refl
take_off_all-tunnel (r ∷ rs) cfg addr j h = ground (
  arith,
  take_off_all-tunnel rs (take_off_route cfg addr r) addr j,
  take_off-tunnel cfg addr r j,
  text_eq_iff r j,
  text_eq_iff r xray_route,
)

take_off-xray_tunnel :
    (rs : List Text) (cfg : Config) (addr : Text)
    → get_tunnel (take_off_routes cfg addr rs).tunnels xray_route
      ≡ get_tunnel cfg.tunnels xray_route
unfolding take_off_routes take_off_route
take_off-xray_tunnel [] cfg addr = refl
take_off-xray_tunnel (r ∷ rs) cfg addr =
    take_off-xray_tunnel rs (take_off_route cfg addr r) addr
    ∙ ground (
      arith,
      get-put_tunnel cfg.tunnels r xray_route (record (tunnel_or_zero (get_tunnel cfg.tunnels r)) {
        clients = without_addr (tunnel_or_zero (get_tunnel cfg.tunnels r)).clients addr;
      }),
    )

put_on-xray :
    (cfg : Config) (addr route : Text)
    → on_xray (put_on_route cfg (addr_key addr) route) addr
      ≡ (text_eq route xray_route || on_xray cfg addr)
unfolding put_on_route
put_on-xray cfg addr route = ground (arith, holds-append_key addr cfg.xray.clients)

abbrev grown : Config → Text → Text → TunnelConfig
grown cfg key route = record (tunnel_or_new cfg (get_tunnel cfg.tunnels route)) {
  clients = (tunnel_or_new cfg (get_tunnel cfg.tunnels route)).clients ++ key ∷ [];
}

put_on-tunnel :
    (cfg : Config) (addr route j : Text)
    → on_tun (put_on_route cfg (addr_key addr) route) addr j
      ≡ ((not (text_eq route xray_route) && text_eq route j) || on_tun cfg addr j)
unfolding put_on_route clients_of
put_on-tunnel cfg addr route j = ground (
  arith,
  get-put_tunnel cfg.tunnels route j (grown cfg (addr_key addr) route),
  holds-append_key addr (tunnel_or_new cfg (get_tunnel cfg.tunnels route)).clients,
)

put_on-xray_tunnel :
    (cfg : Config) (key route : Text)
    → get_tunnel (put_on_route cfg key route).tunnels xray_route ≡ get_tunnel cfg.tunnels xray_route
unfolding put_on_route
put_on-xray_tunnel cfg key route =
    ground (arith, get-put_tunnel cfg.tunnels route xray_route (grown cfg key route))

-- where the address is once it has left its old routes and entered the new one
replaced : Config → Text → Text → Config
replaced cfg addr route =
    put_on_route (take_off_routes cfg addr (client_routes cfg addr)) (addr_key addr) route

module _ (cfg : Config) (addr route : Text) (free : get_tunnel cfg.tunnels xray_route ≡ none) where
  replaced-xray : on_xray (replaced cfg addr route) addr ≡ text_eq route xray_route
  unfolding replaced clients_of holds any
  replaced-xray =
      let on = client_routes cfg addr in
      ground (
        arith,
        put_on-xray (take_off_routes cfg addr on) addr route,
        take_off_all-xray on cfg addr,
        contains-client_routes cfg addr xray_route,
        text_eq_refl xray_route,
      )

  replaced-xray_tunnel : on_tun (replaced cfg addr route) addr xray_route ≡ false
  unfolding replaced clients_of holds any
  replaced-xray_tunnel =
      let on = client_routes cfg addr in
      rw (put_on-xray_tunnel, take_off-xray_tunnel on cfg addr, free) refl

  replaced-tunnel :
      (r : Text)
      → text_eq xray_route r ≡ false
      → on_tun (replaced cfg addr route) addr r ≡ text_eq route r
  unfolding replaced
  replaced-tunnel r h =
      let on = client_routes cfg addr in
      ground (
        arith,
        put_on-tunnel (take_off_routes cfg addr on) addr route r,
        take_off_all-tunnel on cfg addr r,
        contains-client_routes cfg addr r,
        text_eq_iff xray_route r,
        text_eq_iff r xray_route,
        text_eq_iff route xray_route,
        text_eq_iff route r,
      )

  routes-replaced :
      (r : Text)
      → ((text_eq xray_route r && on_xray (replaced cfg addr route) addr)
          || on_tun (replaced cfg addr route) addr r)
        ≡ text_eq route r
  routes-replaced r = ground (
    arith,
    replaced-xray,
    replaced-xray_tunnel,
    replaced-tunnel r,
    text_eq_iff xray_route r,
    text_eq_iff route xray_route,
    text_eq_iff route r,
  )

  pub routes-relocate :
      client_routes (relocate cfg addr route (client_routes cfg addr)) addr ≡ route ∷ []
  unfolding relocate detach_failover_client replaced
  routes-relocate =
      singleton_of _ route (distinct-client_routes _ addr)
        (λ r. contains-client_routes _ addr r ∙ routes-replaced r)
