-- ===== src/VpnConfig/Address/Normal.antt =====
-- `NormalizeClientAddr` on what it returns.
use vpn_director.Prelude.{
  ℕ, ◌<◌, ◌≤◌, ◌≡◌, refl, ap, ◌∙◌, Text, Bool, true, false, ◌||◌, none, some, [], ◌∷◌, ◌++◌, ◌==◌,
  arith, all, any, text_eq, all-append, all_mono, all-reverse, Bool-cases, Option-cases, inl, inr,
}
use mathlib.Core.List.{reverse, reverse-reverse}
use vpn_director.VpnConfig.Address.{
  normalize_net, normalize_trimmed, normalize_client_addr, addr_key,
}
use vpn_director.VpnConfig.Address.Parse.{
  Ip4, is_space, is_digit, trim_left, trim_space, cut, parse_ip, parse_mask, mask_ip, decimal,
  print_ip, print_net,
}
use vpn_director.VpnConfig.Address.Octets.{
  IsIp4, parse_ip-print_ip, parse_ip-IsIp4, parse_mask-decimal, mask_ip-IsIp4, mask_ip_idem,
}

-- the characters of a printed address, and of a printed network
is_addr_char : ℕ → Bool
is_addr_char c = is_digit c || c == b'.'

is_net_char : ℕ → Bool
is_net_char c = is_digit c || c == b'.' || c == b'/'

addr_char_in_net : (c : ℕ) → is_addr_char c ≡ true → is_net_char c ≡ true
unfolding is_addr_char is_net_char
addr_char_in_net c h = ground arith

decimal_chars : (n : ℕ) → n < 256 → all is_addr_char (decimal n) ≡ true
unfolding all decimal is_addr_char
decimal_chars n h = ground arith

dotted_chars :
    (s t : Text)
    → all is_addr_char s ≡ true
    → all is_addr_char t ≡ true
    → all is_addr_char (s ++ b'.' ∷ t) ≡ true
unfolding all is_addr_char
dotted_chars s t h k = rw all-append (ground arith)

print_ip_chars : (ip : Ip4) → IsIp4 ip → all is_addr_char (print_ip ip) ≡ true
unfolding print_ip
print_ip_chars ip v = dotted_chars _ _ (decimal_chars ip.a v.a) (
    dotted_chars _ _ (decimal_chars ip.b v.b)
      (dotted_chars _ _ (decimal_chars ip.c v.c) (decimal_chars ip.d v.d)))

trim_left_id : (s : Text) → all is_net_char s ≡ true → trim_left s ≡ s
unfolding trim_left all is_net_char is_space
trim_left_id [] h = refl
trim_left_id (c ∷ s) h = ground arith

trim_space_id : (s : Text) → all is_net_char s ≡ true → trim_space s ≡ s
unfolding trim_space
trim_space_id s h =
    ap (λ t. reverse (trim_left (reverse t))) (trim_left_id s h)
    ∙ ap reverse (trim_left_id (reverse s) (all-reverse is_net_char s h))
    ∙ reverse-reverse s

no_colon : (s : Text) → all is_net_char s ≡ true → any (λ c. c == b':') s ≡ false
unfolding all any is_net_char
no_colon [] h = refl
no_colon (c ∷ s) h = ground (arith, no_colon s)

-- Nothing of such a text is trimmed or refused before it is parsed.
normalize_plain :
    (s : Text)
    → text_eq s [] ≡ false
    → all is_net_char s ≡ true
    → normalize_client_addr s ≡ normalize_trimmed s
unfolding normalize_client_addr
normalize_plain s e h = rw (trim_space_id s h, no_colon s h, e) refl

cut-none : (s : Text) → all is_addr_char s ≡ true → cut b'/' s ≡ none
unfolding cut all is_addr_char
cut-none [] h = refl
cut-none (c ∷ s) h = ground (arith, cut-none s)

cut-append_slash : (s t : Text) → all is_addr_char s ≡ true → cut b'/' (s ++ b'/' ∷ t) ≡ some (s, t)
unfolding cut all is_addr_char
cut-append_slash [] t h = refl
cut-append_slash (c ∷ s) t h = ground (arith, cut-append_slash s t)

normalize_bare : (ip : Ip4) → IsIp4 ip → normalize_trimmed (print_ip ip) ≡ some (print_ip ip)
unfolding normalize_trimmed
normalize_bare ip v =
    rw (normalize_trimmed, cut-none (print_ip ip) (print_ip_chars ip v), parse_ip-print_ip ip v)
      refl

normalize_masked :
    (ip : Ip4) (n : ℕ)
    → IsIp4 ip
    → mask_ip n ip ≡ ip
    → n < 32
    → normalize_trimmed (print_ip ip ++ b'/' ∷ decimal n) ≡ some (print_net ip n)
unfolding normalize_trimmed normalize_net
normalize_masked ip n v m h =
    rw
      (
        normalize_trimmed,
        cut-append_slash (print_ip ip) (decimal n) (print_ip_chars ip v),
        normalize_net,
        parse_ip-print_ip ip v,
        parse_mask-decimal n h,
        m,
      )
      refl

starts_plain : (n : ℕ) (t : Text) → text_eq (decimal n ++ t) [] ≡ false
unfolding decimal text_eq
starts_plain n t = ground arith

-- An address that is printed is in normal form.
normalize-print_ip :
    (ip : Ip4) → IsIp4 ip → normalize_client_addr (print_ip ip) ≡ some (print_ip ip)
unfolding print_ip
normalize-print_ip ip v =
    normalize_plain (print_ip ip) (starts_plain ip.a _)
      (all_mono is_addr_char is_net_char addr_char_in_net (print_ip ip) (print_ip_chars ip v))
    ∙ normalize_bare ip v

net_chars :
    (s t : Text)
    → all is_addr_char s ≡ true
    → all is_addr_char t ≡ true
    → all is_net_char (s ++ b'/' ∷ t) ≡ true
unfolding all is_net_char
net_chars s t h k = rw all-append (
    ground (
      arith,
      all_mono is_addr_char is_net_char addr_char_in_net s h,
      all_mono is_addr_char is_net_char addr_char_in_net t k,
    ))

net_nonempty : (ip : Ip4) (t : Text) → text_eq (print_ip ip ++ b'/' ∷ t) [] ≡ false
unfolding print_ip decimal text_eq
net_nonempty ip t = ground arith

print_net_slash :
    (ip : Ip4) (n : ℕ) → (n == 32) ≡ false → print_net ip n ≡ print_ip ip ++ b'/' ∷ decimal n
unfolding print_net
print_net_slash ip n e = rw e refl

-- So is a network that is printed.
normalize-print_net :
    (ip : Ip4) (n : ℕ)
    → IsIp4 ip
    → mask_ip n ip ≡ ip
    → n ≤ 32
    → normalize_client_addr (print_net ip n) ≡ some (print_net ip n)
unfolding print_net
normalize-print_net ip n v m h = elim (Bool-cases (n == 32)) [
  | inl bare ↦ rw bare (normalize-print_ip ip v)
  | inr net ↦ rw net (
      normalize_plain (print_ip ip ++ b'/' ∷ decimal n) (net_nonempty ip (decimal n))
        (net_chars (print_ip ip) (decimal n) (print_ip_chars ip v) (decimal_chars n (omega arith)))
      ∙ normalize_masked ip n v m (ground arith)
      ∙ ap some (print_net_slash ip n net))
]

parse_mask-le : (s : Text) (n : ℕ) → parse_mask s ≡ some n → n ≤ 32
unfolding parse_mask
parse_mask-le [] n h = cc
parse_mask-le (c ∷ s) n h = ground arith

net_normal :
    (addr mask n : Text) → normalize_net addr mask ≡ some n → normalize_client_addr n ≡ some n
unfolding normalize_net
net_normal addr mask n h = elim (Option-cases (parse_ip addr)) [
  | inl e ↦ absurd (ground arith)
  | inr (ip, e) ↦ elim (Option-cases (parse_mask mask)) [
    | inl f ↦ absurd (ground arith)
    | inr (k, f) ↦
        let q : print_net (mask_ip k ip) k ≡ n = ground arith in
        rw (← q) (
          normalize-print_net (mask_ip k ip) k (mask_ip-IsIp4 k ip (parse_ip-IsIp4 addr ip e))
            (mask_ip_idem k ip) (parse_mask-le mask k f))
  ]
]

trimmed_normal : (s n : Text) → normalize_trimmed s ≡ some n → normalize_client_addr n ≡ some n
unfolding normalize_trimmed
trimmed_normal s n h = elim (Option-cases (cut b'/' s)) [
  | inr ((addr, mask), e) ↦ net_normal addr mask n (ground arith)
  | inl e ↦ elim (Option-cases (parse_ip s)) [
    | inl f ↦ absurd (ground arith)
    | inr (ip, f) ↦
        let q : print_ip ip ≡ n = ground arith in
        rw (← q) (normalize-print_ip ip (parse_ip-IsIp4 s ip f))
  ]
]

-- A normalized address is its own normal form.
pub normalize_client_addr_idem :
    (s n : Text) → normalize_client_addr s ≡ some n → normalize_client_addr n ≡ some n
unfolding normalize_client_addr
normalize_client_addr_idem s n h = trimmed_normal (trim_space s) n (ground arith)

-- The key of an address is its own key, whether the address is valid or not.
pub addr_key_idem : (s : Text) → addr_key (addr_key s) ≡ addr_key s
unfolding addr_key
addr_key_idem s = elim (Option-cases (normalize_client_addr s)) [
  | inl e ↦ ground arith
  | inr (n, e) ↦ ground (arith, normalize_client_addr_idem s n e)
]
