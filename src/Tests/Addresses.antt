-- ===== src/Tests/Addresses.antt =====
-- Client addresses on concrete texts.
use vpn_director.Prelude.{runes, some, none, true, false, ◌≡◌, refl}
use vpn_director.VpnConfig.Address.{normalize_client_addr, td_carries, run_addresses}
use vpn_director.VpnConfig.Address.Normal.{normalize_client_addr_idem}

normalize_host_bits :
    normalize_client_addr (runes " 192.168.50.10/24 ") ≡ some (runes "192.168.50.0/24")
unfolding run_addresses
normalize_host_bits = refl

normalize_bare_mask : normalize_client_addr (runes "1.2.3.4/032") ≡ some (runes "1.2.3.4")
unfolding run_addresses
normalize_bare_mask = refl

normalize_refuses :
    (normalize_client_addr (runes "1.2.3.04") ≡ none)
    × (normalize_client_addr (runes "::1") ≡ none)
    × (normalize_client_addr (runes "1.2.3.4/33") ≡ none)
    × (normalize_client_addr (runes "1.2.3") ≡ none)
unfolding run_addresses
normalize_refuses = (refl, refl, refl, refl)

carries_lan :
    (td_carries (runes "172.16.0.0/12") ≡ true)
    × (td_carries (runes "172.32.0.1") ≡ false)
    × (td_carries (runes "10.0.0.0/08") ≡ false)
    × (td_carries (runes " 10.0.0.1") ≡ false)
unfolding run_addresses
carries_lan = (refl, refl, refl, refl)

normalize_client_addr_idem_example :
    normalize_client_addr (runes "192.168.50.0/24") ≡ some (runes "192.168.50.0/24")
normalize_client_addr_idem_example =
    normalize_client_addr_idem (runes " 192.168.50.10/24 ") (runes "192.168.50.0/24")
      normalize_host_bits
