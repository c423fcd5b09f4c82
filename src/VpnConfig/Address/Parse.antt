-- ===== src/VpnConfig/Address/Parse.antt =====
-- What client addresses need of Go's library: `strings.TrimSpace`, `strings.Cut`, `net.ParseIP`
-- and `net.ParseCIDR` on text without a colon (which leaves IPv4 alone), and their printers.
use vpn_director.Prelude.{
  ℕ, suc, ◌+◌, ◌-◌, ◌*◌, ◌/◌, ◌%◌, ◌^◌, Text, Bool, ◌&&◌, ◌||◌, Option, none, some, List, [], ◌∷◌,
  ◌++◌, if◌then◌else◌, ◌==◌, leb, ltb, min,
}
use mathlib.Core.List.{reverse}

-- `unicode.IsSpace`
unfoldable pub is_space : ℕ → Bool
is_space c =
    (leb 9 c && leb c 13)
    || c == 32
    || c == 0x85
    || c == 0xA0
    || c == 0x1680
    || (leb 0x2000 c && leb c 0x200a)
    || c == 0x2028
    || c == 0x2029
    || c == 0x202f
    || c == 0x205f
    || c == 0x3000

unfoldable pub trim_left : Text → Text
unfolding is_space
trim_left [] = []
trim_left (c ∷ s) = let rest = trim_left s in if is_space c then rest else c ∷ s

-- `strings.TrimSpace`
unfoldable pub trim_space : Text → Text
unfolding trim_left
trim_space s = reverse (trim_left (reverse (trim_left s)))

-- `strings.Cut` at one character: the text before its first occurrence and the text after.
unfoldable pub cut : ℕ → Text → Option (Text × Text)
cut sep [] = none
cut sep (c ∷ s) =
    let rest = cut sep s in
    if c == sep
    then some ([], s)
    else elim rest [ none ↦ none | some (before, after) ↦ some (c ∷ before, after) ]

abbrev pub is_digit : ℕ → Bool
is_digit c = leb b'0' c && leb c b'9'

-- An IPv4 address by its four bytes.
pub record Ip4 : Type 0 where
  pub a : ℕ
  pub b : ℕ
  pub c : ℕ
  pub d : ℕ

-- The loop of netip's IPv4 parser: the octet read so far, its number of digits, and the octets
-- before it, latest first. A dot needs a digit before it, and a fourth dot is refused.
unfoldable pub parse_fields : Text → ℕ → ℕ → List ℕ → Option Ip4
parse_fields [] val digits (c ∷ b ∷ a ∷ []) =
    if digits == 0 then none else some (record { a = a; b = b; c = c; d = val })
parse_fields [] val digits fields = none
parse_fields (ch ∷ s) val digits fields =
    let val' = val * 10 + (ch - b'0') in
    let more = parse_fields s val' (suc digits) fields in
    let next = parse_fields s 0 0 (val ∷ fields) in
    if is_digit ch
    then (if (digits == 1 && val == 0) || ltb 255 val' then none else more)
    else if ch == b'.' && ltb 0 digits
    then next
    else none

-- `net.ParseIP(s).To4()` for text without a colon; nil is `none`.
unfoldable pub parse_ip : Text → Option Ip4
unfolding parse_fields
parse_ip s = parse_fields s 0 0 []

-- `dtoi` on a text that it must read to the end.
unfoldable pub parse_prefix : Text → ℕ → Option ℕ
parse_prefix [] n = some n
parse_prefix (ch ∷ s) n =
    let rest = parse_prefix s (n * 10 + (ch - b'0')) in if is_digit ch then rest else none

-- the mask length that `net.ParseCIDR` accepts
unfoldable pub parse_mask : Text → Option ℕ
unfolding parse_prefix
parse_mask [] = none
parse_mask (ch ∷ s) = elim (parse_prefix (ch ∷ s) 0) [
  | none ↦ none
  | some n ↦ if leb n 32 then some n else none
]

-- `o & m` for the byte m of a mask whose first `n` bits are set
unfoldable pub mask_byte : ℕ → ℕ → ℕ
mask_byte n o = let low = 8 - min n 8 in (o / 2 ^ low) * 2 ^ low

-- `IP.Mask(CIDRMask(n, 32))`
unfoldable pub mask_ip : ℕ → Ip4 → Ip4
unfolding mask_byte
mask_ip n ip = record {
  a = mask_byte n ip.a;
  b = mask_byte (n - 8) ip.b;
  c = mask_byte (n - 16) ip.c;
  d = mask_byte (n - 24) ip.d;
}

-- A number below 1000 in decimal, without leading zeros.
unfoldable pub decimal : ℕ → Text
decimal n =
    if ltb n 10
    then (n + b'0') ∷ []
    else if ltb n 100
    then (n / 10 + b'0') ∷ (n % 10 + b'0') ∷ []
    else (n / 100 + b'0') ∷ (n / 10 % 10 + b'0') ∷ (n % 10 + b'0') ∷ []

-- `IP.String`
unfoldable pub print_ip : Ip4 → Text
print_ip ip = decimal ip.a ++ b'.' ∷ (decimal ip.b ++ b'.' ∷ (decimal ip.c ++ b'.' ∷ decimal ip.d))

-- `IPNet.String` without a trailing "/32"
unfoldable pub print_net : Ip4 → ℕ → Text
print_net ip n = if n == 32 then print_ip ip else print_ip ip ++ b'/' ∷ decimal n
