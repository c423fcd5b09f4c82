-- ===== src/Tests/Pauses.antt =====
-- A paused entry in another spelling than its client.
use vpn_director.Prelude.{
  Text, true, false, runes, text_eq, contains, any, ◌≡◌, refl, List, [], ◌∷◌,
}
use vpn_director.VpnConfig.Address.{run_addresses}
use vpn_director.VpnConfig.Config.{ClientInfo, xray_route}
use vpn_director.VpnConfig.Paused.{stored_spelling, respelled, repoint_loop, repoint_paused_clients}
use vpn_director.VpnConfig.Paused.Spelling.{
  spelling, distinct_texts, contains-repoint_paused_clients,
}
use vpn_director.Tests.Sample.{phone, laptop}

abbrev clients : List ClientInfo
clients = record { ip = phone; route = xray_route; paused = false } ∷ []

abbrev spelled : Text
spelled = runes "192.168.1.10/32"

repoints : repoint_paused_clients (spelled ∷ laptop ∷ phone ∷ []) clients ≡ phone ∷ laptop ∷ []
unfolding repoint_paused_clients repoint_loop respelled stored_spelling contains run_addresses
repoints = refl

contains-repoint_paused_clients_example :
    (contains (repoint_paused_clients (spelled ∷ laptop ∷ []) clients) phone
      ≡ any (λ entry. text_eq (spelling clients entry) phone) (spelled ∷ laptop ∷ []))
    × (distinct_texts (repoint_paused_clients (spelled ∷ laptop ∷ []) clients) ≡ true)
contains-repoint_paused_clients_example =
    contains-repoint_paused_clients clients (spelled ∷ laptop ∷ []) phone
