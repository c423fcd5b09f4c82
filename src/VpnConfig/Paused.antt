-- ===== src/VpnConfig/Paused.antt =====
-- `RepointPausedClients` of server/internal/vpnconfig/vpnconfig.go: paused entries in the spelling
-- that the clients are stored under.
pub mod Spelling
use vpn_director.Prelude.{
  Text, Bool, Option, none, some, List, [], ◌∷◌, ◌++◌, if◌then◌else◌, text_eq, contains,
}
use vpn_director.VpnConfig.Address.{addr_key}
use vpn_director.VpnConfig.Config.{ClientInfo}

-- `stored[key]`, the first client of the key
unfoldable pub stored_spelling : List ClientInfo → Text → Option Text
stored_spelling [] key = none
stored_spelling (c ∷ clients) key =
    let rest = stored_spelling clients key in
    if text_eq (addr_key c.ip) key then some c.ip else rest

unfoldable pub respelled : List ClientInfo → Text → Text
respelled clients entry = elim (stored_spelling clients (addr_key entry)) [
  | none ↦ entry
  | some s ↦ s
]

-- the loop, with the entries put out so far, which are those seen
unfoldable pub repoint_loop : List ClientInfo → List Text → List Text → List Text
repoint_loop clients [] out = out
repoint_loop clients (entry ∷ paused) out =
    let s = respelled clients entry in
    repoint_loop clients paused (if contains out s then out else out ++ s ∷ [])

-- `RepointPausedClients`
unfoldable pub repoint_paused_clients : List Text → List ClientInfo → List Text
repoint_paused_clients paused clients = repoint_loop clients paused []
