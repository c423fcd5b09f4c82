-- ===== src/Tests/Sample.antt =====
-- A router: three Xray clients, one of them paused and one outside the LAN, and two tunnels.
use vpn_director.Prelude.{Text, runes, some, none, [], ◌∷◌, false}
use vpn_director.VpnConfig.Config.{Config, TunnelConfig, XrayFailover}

abbrev pub phone : Text
phone = runes "192.168.1.10"

abbrev pub laptop : Text
laptop = runes "192.168.1.11"

abbrev pub outsider : Text
outsider = runes "8.8.8.8"

abbrev pub camera : Text
camera = runes "192.168.1.50"

abbrev pub wg : Text
wg = runes "wgc1"

abbrev pub ovpn : Text
ovpn = runes "ovpnc1"

abbrev pub wg_tunnel : TunnelConfig
wg_tunnel = record { clients = camera ∷ []; exclude = []; gateway = [] }

abbrev pub router : Config
router = record {
  data_dir = runes "/opt/vpn-director/data";
  interfaces = [];
  paused_clients = laptop ∷ [];
  tunnels = (wg, wg_tunnel) ∷ (ovpn, record wg_tunnel { clients = [] }) ∷ [];
  xray = record {
    clients = phone ∷ laptop ∷ outsider ∷ [];
    servers = [];
    exclude_ips = [];
    exclude_sets = runes "ru" ∷ [];
    active_server = none;
    failover = none;
    pending_restore = none;
    preferred_server = none;
  };
}

-- the failover that a stage onto the WireGuard tunnel records
abbrev pub recorded : XrayFailover
recorded = record {
  tunnel = wg;
  clients = phone ∷ [];
  added = some (phone ∷ []);
  committed = false;
}

-- the router while the failover is staged
abbrev pub staged_router : Config
staged_router = record router {
  tunnels =
      (wg, record wg_tunnel { clients = camera ∷ phone ∷ [] })
      ∷ (ovpn, record wg_tunnel { clients = [] })
      ∷ [];
  xray = record router.xray { failover = some recorded };
}
