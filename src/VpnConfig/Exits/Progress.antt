-- ===== src/VpnConfig/Exits/Progress.antt =====
-- `NextTDExit` and the exits not tried yet.
use vpn_director.Prelude.{
  Text, true, false, ◌≡◌, ◌∙◌, sym, ◌&&◌, List, [], ◌∷◌, text_eq, text_eq_iff, contains,
  contains-any, contains-keep_if, any-sort_texts, keep_if, sort_texts, arith,
}
use vpn_director.VpnConfig.Config.{Config, tunnel_names}
use vpn_director.VpnConfig.Exits.{PlatformTunnel, is_exit, td_exits, first_untried, next_td_exit}

-- The exits are the configured tunnels with clients that the platform reports up.
pub contains-td_exits :
    (cfg : Config) (plat : List PlatformTunnel) (id : Text)
    → contains (td_exits cfg plat) id
      ≡ (is_exit cfg plat id && contains (tunnel_names cfg.tunnels) id)
unfolding td_exits
contains-td_exits cfg plat id =
    let kept = keep_if (is_exit cfg plat) (tunnel_names cfg.tunnels) in
    contains-any (sort_texts kept) id
    ∙ any-sort_texts (λ x. text_eq x id) kept
    ∙ sym (contains-any kept id)
    ∙ contains-keep_if (is_exit cfg plat) (tunnel_names cfg.tunnels) id

first_untried-member :
    (tried ids : List Text) (id : Text)
    → contains ids id ≡ true
    → contains tried id ≡ false
    → (contains ids (first_untried tried ids) ≡ true)
      × (contains tried (first_untried tried ids) ≡ false)
unfolding first_untried contains
first_untried-member tried [] id h n = ground arith
first_untried-member tried (x ∷ ids) id h n =
    ground (arith, first_untried-member tried ids id, text_eq_iff x id, text_eq_iff x x)

-- While an exit has not been tried, the next exit is one that has not been tried: a configured
-- tunnel with clients that the platform reports up.
pub next_td_exit-untried :
    (cfg : Config) (plat : List PlatformTunnel) (tried : List Text) (id : Text)
    → is_exit cfg plat id ≡ true
    → contains (tunnel_names cfg.tunnels) id ≡ true
    → contains tried id ≡ false
    → (is_exit cfg plat (next_td_exit cfg plat tried) ≡ true)
      × (contains (tunnel_names cfg.tunnels) (next_td_exit cfg plat tried) ≡ true)
      × (contains tried (next_td_exit cfg plat tried) ≡ false)
unfolding next_td_exit
next_td_exit-untried cfg plat tried id up listed new = ground (
  arith,
  contains-td_exits cfg plat id,
  contains-td_exits cfg plat (first_untried tried (td_exits cfg plat)),
  first_untried-member tried (td_exits cfg plat) id,
)
