-- ===== src/VpnConfig/Clients/Routes.antt =====
-- What `ClientRoutes` lists, route by route.
use vpn_director.Prelude.{
  Text, Bool, true, false, ◌&&◌, ◌||◌, not, ◌≡◌, refl, ◌∙◌, ap₂, List, [], ◌∷◌, ◌++◌, arith,
  text_eq, text_eq_iff, text_eq_refl, contains, contains-append, any, any-append, any-sort_texts,
  sort_texts,
}
use vpn_director.VpnConfig.Address.{addr_key, same_addr}
use vpn_director.VpnConfig.Config.{
  Config, Tunnels, ClientInfo, get_tunnel, tunnel_names, client_infos, tunnel_infos,
  collect_clients, clients_of, xray_route,
}
use vpn_director.VpnConfig.Failover.{append_new}
use vpn_director.VpnConfig.Moves.Texts.{contains-append_new}
use vpn_director.VpnConfig.Clients.{route_loop, client_routes}

-- whether a list holds some spelling of an address
unfoldable pub holds : Text → List Text → Bool
holds addr list = any (λ ip. same_addr ip addr) list

contains-route_loop :
    (key r : Text) (cs : List ClientInfo) (routes : List Text)
    → contains (route_loop key cs routes) r
      ≡ (contains routes r || any (λ c. text_eq (addr_key c.ip) key && text_eq c.route r) cs)
unfolding route_loop any
contains-route_loop key r [] routes = ground arith
contains-route_loop key r (c ∷ cs) routes = ground (
  arith,
  contains-route_loop key r cs routes,
  contains-route_loop key r cs (append_new routes c.route),
  contains-append_new routes c.route r,
)

-- a stored client that is the address on the route
abbrev is_on : Text → Text → ClientInfo → Bool
is_on addr r c = text_eq (addr_key c.ip) (addr_key addr) && text_eq c.route r

any-client_infos :
    (cfg : Config) (addr route r : Text) (ips : List Text)
    → any (is_on addr r) (client_infos cfg route ips) ≡ (text_eq route r && holds addr ips)
unfolding any client_infos holds
any-client_infos cfg addr route r [] = ground arith
any-client_infos cfg addr route r (ip ∷ ips) = ground (arith, any-client_infos cfg addr route r ips)

any-tunnel_infos :
    (cfg : Config) (addr r : Text) (names : List Text)
    → any (is_on addr r) (tunnel_infos cfg names)
      ≡ any (λ n. text_eq n r && holds addr (clients_of (get_tunnel cfg.tunnels n))) names
unfolding any tunnel_infos
any-tunnel_infos cfg addr r [] = refl
any-tunnel_infos cfg addr r (n ∷ names) =
    any-append (is_on addr r) (client_infos cfg n (clients_of (get_tunnel cfg.tunnels n))) _
    ∙ ap₂ ◌||◌ (any-client_infos cfg addr n r _) (any-tunnel_infos cfg addr r names)

any_names :
    (p : Text → Bool) (r : Text) (m : Tunnels)
    → any (λ n. text_eq n r && p n) (tunnel_names m) ≡ (contains (tunnel_names m) r && p r)
unfolding any contains
any_names p r [] = refl
any_names p r ((n, t) ∷ m) = ground (arith, any_names p r m, text_eq_iff n r)

holds-missing :
    (addr r : Text) (m : Tunnels)
    → contains (tunnel_names m) r ≡ false
    → holds addr (clients_of (get_tunnel m r)) ≡ false
unfolding contains get_tunnel clients_of holds any
holds-missing addr r [] h = refl
holds-missing addr r ((n, t) ∷ m) h = ground (arith, holds-missing addr r m)

any-tunnels :
    (cfg : Config) (addr r : Text)
    → any (is_on addr r) (tunnel_infos cfg (sort_texts (tunnel_names cfg.tunnels)))
      ≡ holds addr (clients_of (get_tunnel cfg.tunnels r))
any-tunnels cfg addr r =
    any-tunnel_infos cfg addr r (sort_texts (tunnel_names cfg.tunnels))
    ∙ any-sort_texts (λ n. text_eq n r && on n) (tunnel_names cfg.tunnels)
    ∙ any_names on r cfg.tunnels
    ∙ ground (arith, holds-missing addr r cfg.tunnels)
  where
    on : Text → Bool
    on n = holds addr (clients_of (get_tunnel cfg.tunnels n))

-- A route holds an address if it is Xray's and a stored Xray client is some spelling of it, or if
-- it is a tunnel's and one of its clients is.
pub contains-client_routes :
    (cfg : Config) (addr r : Text)
    → contains (client_routes cfg addr) r ≡ (
        (text_eq xray_route r && holds addr cfg.xray.clients)
        || holds addr (clients_of (get_tunnel cfg.tunnels r)))
unfolding client_routes collect_clients contains
contains-client_routes cfg addr r =
    contains-route_loop (addr_key addr) r (collect_clients cfg) []
    ∙ any-append (is_on addr r) (client_infos cfg xray_route cfg.xray.clients) _
    ∙ ap₂ ◌||◌ (any-client_infos cfg addr xray_route r cfg.xray.clients) (any-tunnels cfg addr r)

-- no route twice
unfoldable pub distinct : List Text → Bool
distinct [] = true
distinct (x ∷ xs) = not (contains xs x) && distinct xs

distinct-append :
    (list : List Text) (r : Text)
    → contains list r ≡ false
    → distinct list ≡ true
    → distinct (list ++ r ∷ []) ≡ true
unfolding distinct contains
distinct-append [] r n d = refl
distinct-append (x ∷ xs) r n d =
    ground
      (arith, distinct-append xs r, contains-append xs (r ∷ []) x, text_eq_iff x r, text_eq_iff r x)

distinct-route_loop :
    (key : Text) (cs : List ClientInfo) (routes : List Text)
    → distinct routes ≡ true
    → distinct (route_loop key cs routes) ≡ true
unfolding route_loop append_new
distinct-route_loop key [] routes d = d
distinct-route_loop key (c ∷ cs) routes d = ground (
  arith,
  distinct-route_loop key cs routes,
  distinct-route_loop key cs (routes ++ c.route ∷ []),
  distinct-append routes c.route,
)

-- A list that holds one text alone, once, is that text.
pub singleton_of :
    (list : List Text) (r : Text)
    → distinct list ≡ true
    → ((s : Text) → contains list s ≡ text_eq r s)
    → list ≡ r ∷ []
unfolding distinct contains
singleton_of [] r d h = ground (arith, h r, text_eq_refl r)
singleton_of (x ∷ []) r d h = ground (arith, h x, text_eq_refl x, text_eq_iff r x)
singleton_of (x ∷ y ∷ xs) r d h =
    ground (arith, h x, h y, text_eq_refl x, text_eq_refl y, text_eq_iff r x, text_eq_iff r y)

pub distinct-client_routes : (cfg : Config) (addr : Text) → distinct (client_routes cfg addr) ≡ true
unfolding client_routes distinct
distinct-client_routes cfg addr = distinct-route_loop (addr_key addr) (collect_clients cfg) [] refl
