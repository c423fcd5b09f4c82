-- ===== src/Subwatch/Copies.antt =====
-- The copies of servers, one for each address: `PerAddress` of server/internal/endpoint/endpoint.go,
-- `dialIP` and `dialable` of server/internal/subwatch/reach.go and `serverID` of watch.go. What
-- net.ParseIP(s).To4().String() gives, and an empty text where there is none, is an argument.
use vpn_director.Prelude.{Text, text_eq, not, List, [], ◌∷◌, ◌++◌, if◌then◌else◌, keep_if}
use vpn_director.VpnConfig.Servers.{Server}
use vpn_director.Subwatch.Watch.Guards.{unit_separator, itoa}

-- a copy for each address that is not empty
unfoldable pub copies_of : Server → List Text → List Server
copies_of s [] = []
copies_of s (ip ∷ ips) =
    let rest = copies_of s ips in if text_eq ip [] then rest else record s { ips = ip ∷ [] } ∷ rest

unfoldable pub or_itself : Server → List Server → List Server
or_itself s [] = s ∷ []
or_itself s (c ∷ cs) = c ∷ cs

-- `PerAddress`
unfoldable pub per_address : List Server → List Server
per_address [] = []
per_address (s ∷ ss) = or_itself s (copies_of s s.ips) ++ per_address ss

-- `serverID`
unfoldable pub server_id : Server → Text
server_id s =
    s.subscription
    ++ (unit_separator ∷ s.name ++ (unit_separator ∷ s.address ++ (unit_separator ∷ itoa s.port)))

-- the first address that is not empty, or else the server's own
unfoldable pub dialed_address : Text → List Text → Text
dialed_address address [] = address
dialed_address address (ip ∷ ips) =
    let rest = dialed_address address ips in if text_eq ip [] then rest else ip

module _ (ipv4 : Text → Text) where
  -- `dialIP`
  unfoldable pub dial_ip : Server → Text
  dial_ip c = ipv4 (dialed_address c.address c.ips)

  unfoldable pub dialable : List Server → List Server
  dialable copies = keep_if (λ c. not (text_eq (dial_ip c) [])) copies
