-- ===== src/VpnConfig/Address/Octets.antt =====
-- Reading back what `IP.String` prints (VpnConfig/Address/Parse).
use vpn_director.Prelude.{
  ℕ, zero, suc, ◌+◌, ◌-◌, ◌*◌, ◌/◌, ◌%◌, ◌^◌, ◌<◌, ◌≤◌, ◌≡◌, refl, Text, Bool, true, false, ◌&&◌,
  Option, none, some, List, [], ◌∷◌, ◌++◌, if◌then◌else◌, ◌==◌, ltb, min, arith, sym, ap, ◌∙◌,
  Bool-cases, inl, inr, passes_under, passes_under_elim,
}
use Prim.Native.Nat.add
use native.Mathlib.Nat.{div-mul-le_self, mul-div_cancel}
use mathlib.Core.List.{append-nil}
use vpn_director.VpnConfig.Address.Parse.{
  Ip4, parse_fields, parse_ip, parse_mask, decimal, print_ip, mask_ip, mask_byte,
}

-- An address whose parts are bytes.
pub record IsIp4 (ip : Ip4) : Type 0 where
  pub a : ip.a < 256
  pub b : ip.b < 256
  pub c : ip.c < 256
  pub d : ip.d < 256

opt_eq : Option ℕ → ℕ → Bool
opt_eq none n = false
opt_eq (some m) n = m == n

opt_eq_sound : (o : Option ℕ) (n : ℕ) → opt_eq o n ≡ true → o ≡ some n
unfolding opt_eq
opt_eq_sound none n h = cc
opt_eq_sound (some m) n h = ground arith

-- One digit moves the loop on, unless it would follow a leading zero or leave the byte range.
digit_step :
    (d val k : ℕ) (rest : Text) (fields : List ℕ)
    → d < 10
    → val * 10 + d < 256
    → ((k == 1) && (val == 0)) ≡ false
    → parse_fields ((d + 48) ∷ rest) val k fields ≡ parse_fields rest (val * 10 + d) (suc k) fields
unfolding parse_fields
digit_step d val k rest fields h r z =
    let e : d + 48 - 48 ≡ d = omega arith in rw (e, z) (ground arith)

digit_count : ℕ → ℕ
digit_count n = if ltb n 10 then 1 else if ltb n 100 then 2 else 3

module _ (n : ℕ) (rest : Text) (fields : List ℕ) where
  two_digits :
      ltb n 10 ≡ false
      → n < 100
      → parse_fields ((n / 10 + 48) ∷ (n % 10 + 48) ∷ rest) 0 0 fields
        ≡ parse_fields rest n 2 fields
  two_digits big h =
      let e : (0 * 10 + n / 10) * 10 + n % 10 ≡ n = omega arith in
      digit_step (n / 10) 0 0 ((n % 10 + 48) ∷ rest) fields (omega arith) (omega arith) refl
      ∙ digit_step (n % 10) (0 * 10 + n / 10) 1 rest fields (omega arith) (omega arith)
          (ground arith)
      ∙ ap (λ v. parse_fields rest v 2 fields) e

  three_digits :
      ltb n 100 ≡ false
      → n < 256
      → parse_fields ((n / 100 + 48) ∷ (n / 10 % 10 + 48) ∷ (n % 10 + 48) ∷ rest) 0 0 fields
        ≡ parse_fields rest n 3 fields
  three_digits big h =
      let e : ((0 * 10 + n / 100) * 10 + n / 10 % 10) * 10 + n % 10 ≡ n = omega arith in
      digit_step (n / 100) 0 0 ((n / 10 % 10 + 48) ∷ (n % 10 + 48) ∷ rest) fields (omega arith)
        (omega arith) refl
      ∙ digit_step (n / 10 % 10) (0 * 10 + n / 100) 1 ((n % 10 + 48) ∷ rest) fields (omega arith)
          (omega arith) (ground arith)
      ∙ digit_step (n % 10) ((0 * 10 + n / 100) * 10 + n / 10 % 10) 2 rest fields (omega arith)
          (omega arith) refl
      ∙ ap (λ v. parse_fields rest v 3 fields) e

  -- The loop reads a printed byte back, and stands behind it with at least one digit.
  parse_fields-decimal :
      n < 256
      → parse_fields (decimal n ++ rest) 0 0 fields ≡ parse_fields rest n (digit_count n) fields
  unfolding decimal digit_count
  parse_fields-decimal h = elim (Bool-cases (ltb n 10)) [
    | inl small ↦ rw small (
        digit_step n 0 0 rest fields (ground arith) (omega arith) refl
        ∙ ap (λ v. parse_fields rest v 1 fields) (add.zero n))
    | inr big ↦ elim (Bool-cases (ltb n 100)) [
      | inl small ↦ rw (big, small) (two_digits big (ground arith))
      | inr bigger ↦ rw (big, bigger) (three_digits bigger h)
    ]
  ]

  dot_step :
      parse_fields (b'.' ∷ rest) n (digit_count n) fields ≡ parse_fields rest 0 0 (n ∷ fields)
  unfolding parse_fields digit_count
  dot_step = ground arith

octet_dot :
    (n : ℕ) (rest : Text) (fields : List ℕ)
    → n < 256
    → parse_fields (decimal n ++ b'.' ∷ rest) 0 0 fields ≡ parse_fields rest 0 0 (n ∷ fields)
octet_dot n rest fields h = parse_fields-decimal n (b'.' ∷ rest) fields h ∙ dot_step n rest fields

last_octet :
    (a b c n : ℕ)
    → n < 256
    → parse_fields (decimal n) 0 0 (c ∷ b ∷ a ∷ []) ≡ some (record { a = a; b = b; c = c; d = n })
unfolding parse_fields digit_count
last_octet a b c n h =
    ap (λ s. parse_fields s 0 0 (c ∷ b ∷ a ∷ [])) (sym (append-nil (decimal n)))
    ∙ parse_fields-decimal n [] (c ∷ b ∷ a ∷ []) h
    ∙ ground arith

-- Parsing what `IP.String` prints gives the address back.
pub parse_ip-print_ip : (ip : Ip4) → IsIp4 ip → parse_ip (print_ip ip) ≡ some ip
unfolding parse_ip print_ip
parse_ip-print_ip ip v =
    octet_dot ip.a (decimal ip.b ++ b'.' ∷ (decimal ip.c ++ b'.' ∷ decimal ip.d)) [] v.a
    ∙ octet_dot ip.b (decimal ip.c ++ b'.' ∷ decimal ip.d) (ip.a ∷ []) v.b
    ∙ octet_dot ip.c (decimal ip.d) (ip.b ∷ ip.a ∷ []) v.c
    ∙ last_octet ip.a ip.b ip.c ip.d v.d

-- A mask length reads back too: of the 32 below a bare address, one by one.
mask_table : passes_under (λ n. opt_eq (parse_mask (decimal n)) n) 32 ≡ true
unfolding passes_under opt_eq parse_mask decimal
mask_table = refl

pub parse_mask-decimal : (n : ℕ) → n < 32 → parse_mask (decimal n) ≡ some n
parse_mask-decimal n h =
    opt_eq_sound (parse_mask (decimal n)) n
      (passes_under_elim (λ k. opt_eq (parse_mask (decimal k)) k) 32 n h mask_table)

mask_byte-le : (n o : ℕ) → mask_byte n o ≤ o
unfolding mask_byte
mask_byte-le n o = div-mul-le_self o (2 ^ (8 - min n 8))

pow2_pos : (k : ℕ) → 0 < 2 ^ k
pow2_pos zero = omega arith
pow2_pos (suc k) = omega (arith, pow2_pos k)

mask_byte_idem : (n o : ℕ) → mask_byte n (mask_byte n o) ≡ mask_byte n o
unfolding mask_byte
mask_byte_idem n o =
    let low = 8 - min n 8 in ap (λ q. q * 2 ^ low) (mul-div_cancel (o / 2 ^ low) (pow2_pos low))

pub mask_ip-IsIp4 : (n : ℕ) (ip : Ip4) → IsIp4 ip → IsIp4 (mask_ip n ip)
unfolding mask_ip
mask_ip-IsIp4 n ip v = record {
  a = omega (arith, mask_byte-le n ip.a, v.a);
  b = omega (arith, mask_byte-le (n - 8) ip.b, v.b);
  c = omega (arith, mask_byte-le (n - 16) ip.c, v.c);
  d = omega (arith, mask_byte-le (n - 24) ip.d, v.d);
}

-- Masking a network address again changes nothing.
pub mask_ip_idem : (n : ℕ) (ip : Ip4) → mask_ip n (mask_ip n ip) ≡ mask_ip n ip
unfolding mask_ip
mask_ip_idem n ip = λ i. record {
  a = mask_byte_idem n ip.a i;
  b = mask_byte_idem (n - 8) ip.b i;
  c = mask_byte_idem (n - 16) ip.c i;
  d = mask_byte_idem (n - 24) ip.d i;
}

-- What the parser accepts is an address of four bytes, at every point of the loop.
abbrev AreBytes : List ℕ → Type 0
AreBytes [] = Unit {0}
AreBytes (x ∷ xs) = (x < 256) × AreBytes xs

parse_fields-IsIp4 :
    (s : Text) (val k : ℕ) (fields : List ℕ) (ip : Ip4)
    → val < 256
    → AreBytes fields
    → parse_fields s val k fields ≡ some ip
    → IsIp4 ip
unfolding parse_fields
parse_fields-IsIp4 [] val k (c ∷ b ∷ a ∷ []) ip h bs e = ground arith
parse_fields-IsIp4 [] val k [] ip h bs e = cc
parse_fields-IsIp4 [] val k (c ∷ []) ip h bs e = cc
parse_fields-IsIp4 [] val k (c ∷ b ∷ []) ip h bs e = cc
parse_fields-IsIp4 [] val k (c ∷ b ∷ a ∷ z ∷ rest) ip h bs e = cc
parse_fields-IsIp4 (ch ∷ s) val k fields ip h bs e = ground (
  arith,
  parse_fields-IsIp4 s (val * 10 + (ch - b'0')) (suc k) fields ip,
  parse_fields-IsIp4 s 0 0 (val ∷ fields) ip,
)

pub parse_ip-IsIp4 : (s : Text) (ip : Ip4) → parse_ip s ≡ some ip → IsIp4 ip
unfolding parse_ip
parse_ip-IsIp4 s ip e = parse_fields-IsIp4 s 0 0 [] ip (omega arith) tt e
