-- ===== src/Updater/Versions/Safe.antt =====
-- `ParseVersion` against `IsValidVersion`.
use vpn_director.Prelude.{
  ℕ, ◌+◌, ◌*◌, ◌-◌, Text, Bool, true, false, ◌≡◌, refl, inl, inr, some, Option-cases, [], ◌∷◌, ltb,
  all, length, arith,
}
use vpn_director.Updater.Versions.{
  Version, is_digit, read_digits, read_number, read_dot, drop_v, read_part, at_end, read_version,
  parse_version, is_version_char, is_valid_version,
}

abbrev safe : Text → Bool
safe s = all is_version_char s

read_digits-safe : (n : ℕ) (s : Text) → safe (read_digits n s).1 ≡ true → safe s ≡ true
unfolding read_digits is_digit is_version_char all
read_digits-safe n [] h = refl
read_digits-safe n (c ∷ cs) h = ground (arith, read_digits-safe (n * 10 + (c - 48)) cs)

read_number-safe :
    (max_int : ℕ) (s : Text) (n : ℕ) (rest : Text)
    → read_number max_int s ≡ some (n, rest)
    → safe rest ≡ true
    → safe s ≡ true
unfolding read_number
read_number-safe max_int [] n rest e h = cc
read_number-safe max_int (c ∷ cs) n rest e h = ground (arith, read_digits-safe 0 (c ∷ cs))

read_part-safe :
    (max_int : ℕ) (s : Text) (n : ℕ) (rest : Text)
    → read_part max_int s ≡ some (n, rest)
    → safe rest ≡ true
    → safe s ≡ true
unfolding read_part read_dot is_version_char all
read_part-safe max_int s n rest e h = elim (Option-cases (read_number max_int s)) [
  | inl f ↦ ground arith
  | inr ((m, []), f) ↦ ground arith
  | inr ((m, c ∷ cs), f) ↦ ground (arith, read_number-safe max_int s m (c ∷ cs) f)
]

drop_v-safe : (s : Text) → safe (drop_v s) ≡ true → safe s ≡ true
unfolding drop_v is_version_char all
drop_v-safe [] h = refl
drop_v-safe (c ∷ cs) h = ground arith

read_version-safe :
    (max_int : ℕ) (s : Text) (v : Version)
    → read_version max_int s ≡ some v
    → (safe s ≡ true) × (v.raw ≡ s)
unfolding read_version at_end
read_version-safe max_int s v e = elim (Option-cases (read_part max_int (drop_v s))) [
  | inl f ↦ ground arith
  | inr ((a, first), f) ↦ elim (Option-cases (read_part max_int first)) [
    | inl g ↦ ground arith
    | inr ((b, second), g) ↦ elim (Option-cases (read_number max_int second)) [
      | inl h ↦ ground arith
      | inr ((c, d ∷ ds), h) ↦ ground arith
      | inr ((c, []), h) ↦ (
        drop_v-safe s (
            read_part-safe max_int (drop_v s) a first f (
              read_part-safe max_int first b second g
                (read_number-safe max_int second c [] h (unfold all in refl)))),
        ground arith,
      )
    ]
  ]
]

-- A version that parses and has at most 50 characters passes the check for text that is put into a
-- shell script, and it is kept as it was written.
pub is_valid-parse :
    (max_int : ℕ) (s : Text) (v : Version)
    → parse_version max_int s ≡ some v
    → ltb 50 (length s) ≡ false
    → (is_valid_version s ≡ true) × (v.raw ≡ s)
unfolding parse_version is_valid_version
is_valid-parse max_int s v e l = ground (arith, read_version-safe max_int s v)
