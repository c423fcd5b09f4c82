-- ===== src/Updater/Versions.antt =====
-- server/internal/updater/version.go: versions "vX.Y.Z" and their order. An error is `none`, whatever
-- its text; the largest int of the build is a parameter, since the routers are 32-bit and 64-bit.
pub mod Order
pub mod Safe
use vpn_director.Prelude.{
  ℕ, ◌+◌, ◌*◌, ◌-◌, Text, Bool, true, false, ◌&&◌, ◌||◌, not, Option, none, some, List, [], ◌∷◌,
  if◌then◌else◌, ◌==◌, ltb, leb, text_eq, any, all, length,
}
use vpn_director.VpnConfig.Address.Parse.{trim_space}

pub record Version : Type 0 where
  pub major : ℕ
  pub minor : ℕ
  pub patch : ℕ
  pub raw : Text

unfoldable pub is_digit : ℕ → Bool
is_digit c = leb 48 c && leb c 57

-- `\d*` at the front, as the rest behind it and the value read, from the value so far
unfoldable pub read_digits : ℕ → Text → ℕ × Text
read_digits n [] = (n, [])
read_digits n (c ∷ cs) =
    let more = read_digits (n * 10 + (c - 48)) cs in if is_digit c then more else (n, c ∷ cs)

-- `(\d+)` and `strconv.Atoi` of it
unfoldable pub read_number : ℕ → Text → Option (ℕ × Text)
read_number max_int [] = none
read_number max_int (c ∷ cs) =
    let (n, rest) = read_digits 0 (c ∷ cs) in
    if not (is_digit c) then none else if ltb max_int n then none else some (n, rest)

-- `\.` in front
unfoldable pub read_dot : Text → Option Text
read_dot [] = none
read_dot (c ∷ cs) = if c == 46 then some cs else none

unfoldable pub drop_v : Text → Text
drop_v [] = []
drop_v (c ∷ cs) = if c == 118 then cs else c ∷ cs

unfoldable pub read_part : ℕ → Text → Option (ℕ × Text)
read_part max_int s = elim (read_number max_int s) [
  | none ↦ none
  | some (n, rest) ↦ elim (read_dot rest) [ none ↦ none | some after ↦ some (n, after) ]
]

unfoldable pub at_end : ℕ → ℕ → Text → ℕ × Text → Option Version
at_end major minor raw (patch, []) =
    some (record { major = major; minor = minor; patch = patch; raw = raw })
at_end major minor raw (patch, c ∷ cs) = none

-- the pattern and the conversions of its groups
unfoldable pub read_version : ℕ → Text → Option Version
read_version max_int s = elim (read_part max_int (drop_v s)) [
  | none ↦ none
  | some (major, first) ↦ elim (read_part max_int first) [
    | none ↦ none
    | some (minor, second) ↦ elim (read_number max_int second) [
      | none ↦ none
      | some last ↦ at_end major minor s last
    ]
  ]
]

-- `ParseVersion`
unfoldable pub parse_version : ℕ → Text → Option Version
parse_version max_int s =
    if text_eq s []
    then none
    else if not (text_eq (trim_space s) s)
    then none
    else if any (λ c. c == 45) s
    then none
    else read_version max_int s

pub data Comparison : Type 0 where
  less : Comparison
  equal : Comparison
  greater : Comparison

-- `Compare`
unfoldable pub compare_versions : Version → Version → Comparison
compare_versions v w =
    if not (v.major == w.major)
    then (if ltb v.major w.major then less else greater)
    else if not (v.minor == w.minor)
    then (if ltb v.minor w.minor then less else greater)
    else if not (v.patch == w.patch)
    then (if ltb v.patch w.patch then less else greater)
    else equal

unfoldable pub is_less : Comparison → Bool
is_less less = true
is_less equal = false
is_less greater = false

unfoldable pub is_older_than : Version → Version → Bool
is_older_than v w = is_less (compare_versions v w)

-- `[a-zA-Z0-9.v-]`
unfoldable pub is_version_char : ℕ → Bool
is_version_char c =
    (leb 97 c && leb c 122)
    || (leb 65 c && leb c 90)
    || is_digit c
    || c == 46
    || c == 118
    || c == 45

-- `IsValidVersion`; a text of other characters is refused, so its length is in bytes
unfoldable pub is_valid_version : Text → Bool
is_valid_version s = not (text_eq s []) && not (ltb 50 (length s)) && all is_version_char s
