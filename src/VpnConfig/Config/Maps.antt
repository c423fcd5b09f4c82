-- ===== src/VpnConfig/Config/Maps.antt =====
-- The laws of the tunnel map, and what `CollectClients` lists.
use vpn_director.Prelude.{
  Text, ◌≡◌, refl, some, [], ◌∷◌, if◌then◌else◌, arith, text_eq, text_eq_iff, text_eq_refl,
}
use vpn_director.VpnConfig.Config.{TunnelConfig, Tunnels, get_tunnel, put_tunnel}

-- A write of one tunnel is read back, and changes no other.
pub get-put_tunnel :
    (m : Tunnels) (id j : Text) (t : TunnelConfig)
    → get_tunnel (put_tunnel m id t) j ≡ (if text_eq id j then some t else get_tunnel m j)
unfolding get_tunnel put_tunnel
get-put_tunnel [] id j t = refl
get-put_tunnel ((k, u) ∷ m) id j t = ground (
  arith,
  get-put_tunnel m id j t,
  text_eq_iff k id,
  text_eq_iff k j,
  text_eq_iff id j,
  text_eq_refl id,
  text_eq_refl k,
)

pub get-put_tunnel_self :
    (m : Tunnels) (id : Text) (t : TunnelConfig) → get_tunnel (put_tunnel m id t) id ≡ some t
get-put_tunnel_self m id t = ground (arith, get-put_tunnel m id id t, text_eq_refl id)

pub put-put_tunnel :
    (m : Tunnels) (id : Text) (t u : TunnelConfig)
    → put_tunnel (put_tunnel m id t) id u ≡ put_tunnel m id u
unfolding put_tunnel
put-put_tunnel [] id t u = ground (arith, text_eq_refl id)
put-put_tunnel ((k, v) ∷ m) id t u = ground (arith, put-put_tunnel m id t u)

-- Writing what is there changes nothing.
pub put-get_tunnel_self :
    (m : Tunnels) (id : Text) (t : TunnelConfig) → get_tunnel m id ≡ some t → put_tunnel m id t ≡ m
unfolding get_tunnel put_tunnel
put-get_tunnel_self [] id t h = cc
put-get_tunnel_self ((k, v) ∷ m) id t h = ground (arith, put-get_tunnel_self m id t)
