-- ===== src/VpnConfig/Names.antt =====
-- Names and ids of subscriptions: server/internal/vpnconfig/substore.go. A name is a list of code
-- points, so it is never invalid UTF-8.
use mathlib.Core.List.{reverse}
use vpn_director.Prelude.{
  ℕ, ◌+◌, Text, Bool, false, ◌&&◌, ◌||◌, not, List, [], ◌∷◌, if◌then◌else◌, ◌==◌, ltb, leb, text_eq,
  length, all, any,
}
use vpn_director.VpnConfig.Servers.{Subscription}

abbrev pub max_subscription_name : ℕ
max_subscription_name = 32

unfoldable pub is_hex_digit : ℕ → Bool
is_hex_digit c = (leb 48 c && leb c 57) || (leb 97 c && leb c 102)

unfoldable pub valid_subscription_id : Text → Bool
valid_subscription_id id = length id == 8 && all is_hex_digit id

unfoldable pub is_control : ℕ → Bool
is_control r = ltb r 32 || r == 127 || (leb 128 r && leb r 159)

-- `strings.Trim(name, " ")`
unfoldable pub trim_left_spaces : Text → Text
trim_left_spaces [] = []
trim_left_spaces (c ∷ cs) = let rest = trim_left_spaces cs in if c == 32 then rest else c ∷ cs

unfoldable pub trim_spaces : Text → Text
trim_spaces name = reverse (trim_left_spaces (reverse (trim_left_spaces name)))

pub data CleanName : Type 0 where
  clean : Text → CleanName
  empty_name : CleanName
  long_name : CleanName
  control_name : CleanName

unfoldable pub check_name : Text → CleanName
check_name name =
    if length name == 0
    then empty_name
    else if ltb max_subscription_name (length name)
    then long_name
    else if any is_control name
    then control_name
    else clean name

unfoldable pub clean_subscription_name : Text → CleanName
clean_subscription_name name = check_name (trim_spaces name)

unfoldable pub fold_byte : ℕ → ℕ
fold_byte c = if leb 65 c && leb c 90 then c + 32 else c

unfoldable pub fold_ascii : Text → Text
fold_ascii [] = []
fold_ascii (c ∷ cs) = fold_byte c ∷ fold_ascii cs

unfoldable pub subscription_name_taken : List Subscription → Text → Text → Bool
subscription_name_taken [] name except = false
subscription_name_taken (s ∷ subs) name except =
    (not (text_eq s.id except) && text_eq (fold_ascii s.name) (fold_ascii name))
    || subscription_name_taken subs name except
