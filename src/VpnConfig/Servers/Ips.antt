-- ===== src/VpnConfig/Servers/Ips.antt =====
-- `SubscriptionIPs` against the addresses of the listed servers.
use vpn_director.Prelude.{
  Text, Bool, ◌≡◌, ◌∙◌, sym, refl, ◌&&◌, ◌||◌, not, List, [], ◌∷◌, ◌++◌, text_eq, text_eq_iff,
  contains, contains-append, contains-any, any, any-append, any-sort_texts, sort_texts, arith,
}
use vpn_director.VpnConfig.Servers.{
  Server, Subscription, tag_servers, all_servers, ips_loop, server_ips_loop, server_ips,
  subscription_ips,
}

-- the server has the address, and it is one
unfoldable pub has_ip : Text → Server → Bool
has_ip ip s = not (text_eq ip []) && contains s.ips ip

unfoldable pub lists_ip : Text → Subscription → Bool
lists_ip ip sub = any (has_ip ip) sub.servers

contains-ips_loop :
    (ip : Text) (ips seen : List Text)
    → contains (ips_loop ips seen) ip
      ≡ (contains seen ip || (not (text_eq ip []) && contains ips ip))
unfolding ips_loop contains
contains-ips_loop ip [] seen = ground arith
contains-ips_loop ip (x ∷ ips) seen = ground (
  arith,
  contains-ips_loop ip ips seen,
  contains-ips_loop ip ips (seen ++ x ∷ []),
  contains-append seen (x ∷ []) ip,
  text_eq_iff x ip,
)

contains-server_ips_loop :
    (ip : Text) (ss : List Server) (seen : List Text)
    → contains (server_ips_loop ss seen) ip ≡ (contains seen ip || any (has_ip ip) ss)
unfolding server_ips_loop any has_ip
contains-server_ips_loop ip [] seen = ground arith
contains-server_ips_loop ip (s ∷ ss) seen =
    ground
      (arith, contains-server_ips_loop ip ss (ips_loop s.ips seen), contains-ips_loop ip s.ips seen)

contains-sort_texts : (xs : List Text) (s : Text) → contains (sort_texts xs) s ≡ contains xs s
contains-sort_texts xs s =
    contains-any (sort_texts xs) s ∙ any-sort_texts (λ x. text_eq x s) xs ∙ sym (contains-any xs s)

any-tag_servers :
    (ip id : Text) (ss : List Server) → any (has_ip ip) (tag_servers id ss) ≡ any (has_ip ip) ss
unfolding any tag_servers has_ip
any-tag_servers ip id [] = refl
any-tag_servers ip id (s ∷ ss) = ground (arith, any-tag_servers ip id ss)

any-all_servers :
    (ip : Text) (subs : List Subscription)
    → any (has_ip ip) (all_servers subs) ≡ any (lists_ip ip) subs
unfolding all_servers any lists_ip
any-all_servers ip [] = refl
any-all_servers ip (sub ∷ subs) = ground (
  arith,
  any-append (has_ip ip) (tag_servers sub.id sub.servers) (all_servers subs),
  any-tag_servers ip sub.id sub.servers,
  any-all_servers ip subs,
)

-- An address is in the set exactly if some server of some subscription has it.
pub contains-subscription_ips :
    (ip : Text) (subs : List Subscription)
    → contains (subscription_ips subs) ip ≡ any (lists_ip ip) subs
unfolding subscription_ips server_ips contains
contains-subscription_ips ip subs = ground (
  arith,
  contains-sort_texts (server_ips_loop (all_servers subs) []) ip,
  contains-server_ips_loop ip (all_servers subs) [],
  any-all_servers ip subs,
)

pub lists_ip-tagged :
    (ip : Text) (sub : Subscription)
    → lists_ip ip (record sub { servers = tag_servers sub.id sub.servers }) ≡ lists_ip ip sub
unfolding lists_ip
lists_ip-tagged ip sub = any-tag_servers ip sub.id sub.servers
