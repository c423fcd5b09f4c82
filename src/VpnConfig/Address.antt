-- ===== src/VpnConfig/Address.antt =====
-- Client addresses: `NormalizeClientAddr` of server/internal/vpnconfig/validate.go, and `addrKey`,
-- `withoutAddr` and `TDCarries` of server/internal/vpnconfig/failover.go.
pub mod Parse
pub mod Octets
pub mod Normal
use vpn_director.Prelude.{
  ℕ, ◌<◌, Text, Bool, true, false, ◌&&◌, ◌||◌, Option, none, some, List, [], ◌∷◌, if◌then◌else◌,
  ◌==◌, leb, ltb, any, keep_if, text_eq, not, length,
}
use vpn_director.VpnConfig.Address.Parse.{
  Ip4, trim_space, cut, decimal, parse_ip, parse_mask, mask_ip, print_ip, print_net,
}

-- `net.ParseCIDR` of the text around the first slash, printed without "/32"
unfoldable pub normalize_net : Text → Text → Option Text
normalize_net addr mask = elim (parse_ip addr) [
  | none ↦ none
  | some ip ↦ elim (parse_mask mask) [ none ↦ none | some n ↦ some (print_net (mask_ip n ip) n) ]
]

unfoldable pub normalize_trimmed : Text → Option Text
normalize_trimmed s = elim (cut b'/' s) [
  | some (addr, mask) ↦ normalize_net addr mask
  | none ↦ elim (parse_ip s) [ none ↦ none | some ip ↦ some (print_ip ip) ]
]

-- `none` is `ErrInvalidClientAddr`.
unfoldable pub normalize_client_addr : Text → Option Text
normalize_client_addr s =
    let t = trim_space s in
    if text_eq t [] || any (λ c. c == b':') t then none else normalize_trimmed t

-- the form two spellings of one address share
unfoldable pub addr_key : Text → Text
addr_key s = elim (normalize_client_addr s) [ none ↦ s | some n ↦ n ]

-- whether two spellings name one client
abbrev pub same_addr : Text → Text → Bool
same_addr s t = text_eq (addr_key s) (addr_key t)

unfoldable pub without_addr : List Text → Text → List Text
without_addr list addr = keep_if (λ s. not (same_addr s addr)) list

-- a mask with a zero before another digit
unfoldable pub zero_padded : Text → Bool
zero_padded (c ∷ d ∷ s) = c == b'0'
zero_padded _ = false

unfoldable pub is_rfc1918 : Ip4 → Bool
is_rfc1918 ip =
    ip.a == 10 || (ip.a == 172 && leb 16 ip.b && leb ip.b 31) || (ip.a == 192 && ip.b == 168)

unfoldable pub private_host : Option Ip4 → Bool
private_host none = false
private_host (some ip) = is_rfc1918 ip

-- the two tests on the text around the slash
unfoldable pub carried_net : Text → Option (Text × Text) → Bool
carried_net addr none = private_host (parse_ip addr)
carried_net addr (some (host, prefix)) =
    if zero_padded prefix then false else private_host (parse_ip host)

unfoldable pub td_carries : Text → Bool
td_carries addr =
    if text_eq addr [] || not (text_eq addr (trim_space addr))
    then false
    else elim (normalize_client_addr addr) [
      | none ↦ false
      | some _ ↦ carried_net addr (cut b'/' addr)
    ]

-- Opens all of the above, for evaluation on concrete addresses.
unfoldable pub run_addresses : Unit {0}
unfolding td_carries carried_net private_host is_rfc1918 zero_padded without_addr addr_key
    normalize_client_addr normalize_trimmed normalize_net trim_space cut parse_ip parse_mask mask_ip
    print_net print_ip decimal text_eq any keep_if
run_addresses = tt
