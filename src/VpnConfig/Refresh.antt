-- ===== src/VpnConfig/Refresh.antt =====
-- `MergeRefresh` and `followRenames` of server/internal/vpnconfig/refresh.go.
pub mod Kept
use vpn_director.Prelude.{
  ℕ, suc, ◌+◌, Text, Bool, true, false, ◌&&◌, not, Option, none, some, List, [], ◌∷◌, ◌++◌,
  if◌then◌else◌, ◌==◌, runes, text_eq, get_elem?, sort_texts,
}
use vpn_director.VpnConfig.Config.{Config, ActiveServer, XrayPendingRestore}
use vpn_director.VpnConfig.Servers.{Server, Kinds, recorded_index}
use vpn_director.VpnConfig.Pairs.{Identities, pair_servers, has_pair}

unfoldable pub texts_eq : List Text → List Text → Bool
texts_eq [] [] = true
texts_eq [] (y ∷ ys) = false
texts_eq (x ∷ xs) [] = false
texts_eq (x ∷ xs) (y ∷ ys) = text_eq x y && texts_eq xs ys

-- `slices.Compact`: of equal neighbours the first
unfoldable pub compact : List Text → List Text
compact [] = []
compact (x ∷ []) = x ∷ []
compact (x ∷ y ∷ ys) = let rest = compact (y ∷ ys) in if text_eq x y then rest else x ∷ rest

unfoldable pub same_ip_set : List Text → List Text → Bool
same_ip_set a b = texts_eq (compact (sort_texts a)) (compact (sort_texts b))

pub record RefreshMerge : Type 0 where
  pub servers : List Server
  pub added : ℕ
  pub removed : ℕ
  pub renamed : ℕ
  pub readdressed : ℕ
  pub pairs : List (Option ℕ)

unfoldable pub is_empty {ℓ} : {A : Type ℓ} → List A → Bool
is_empty [] = true
is_empty (x ∷ xs) = false

unfoldable pub one_if : Bool → ℕ
one_if b = if b then 1 else 0

-- the new addresses of a stored server that a listed one pairs with
unfoldable pub readdresses : Server → Server → Bool
readdresses l s = not (is_empty l.ips) && not (same_ip_set l.ips s.ips)

unfoldable pub merged_server : Server → Server → Server
merged_server l s = record s { name = l.name; ips = if readdresses l s then l.ips else s.ips }

-- the loop over the listed servers and their pairs
unfoldable pub merge_loop :
    List Server → List Server → List (Option ℕ) → RefreshMerge → RefreshMerge
merge_loop stored [] pairs m = m
merge_loop stored (l ∷ listed) [] m = m
merge_loop stored (l ∷ listed) (none ∷ pairs) m =
    merge_loop stored listed pairs (
      if is_empty l.ips then m else record m { servers = m.servers ++ l ∷ []; added = m.added + 1 })
merge_loop stored (l ∷ listed) (some si ∷ pairs) m = elim (get_elem? stored si) [
  | none ↦ merge_loop stored listed pairs m
  | some s ↦ merge_loop stored listed pairs (record m {
    servers = m.servers ++ merged_server l s ∷ [];
    renamed = m.renamed + one_if (not (text_eq l.name s.name));
    readdressed = m.readdressed + one_if (readdresses l s);
  })
]

unfoldable pub count_unpaired : List Server → List (Option ℕ) → ℕ → ℕ
count_unpaired [] pairs i = 0
count_unpaired (s ∷ stored) pairs i =
    one_if (not (has_pair pairs i)) + count_unpaired stored pairs (suc i)

unfoldable pub merge_refresh : Identities → List Server → List Server → RefreshMerge
merge_refresh ids stored listed =
    let pairs = pair_servers ids stored listed in
    let m = merge_loop stored listed pairs (record {
      servers = [];
      added = 0;
      removed = 0;
      renamed = 0;
      readdressed = 0;
      pairs = pairs;
    }) in
    record m { removed = count_unpaired stored pairs 0 }

-- `renamed[i]`, the last of the pairs with a new name
unfoldable pub renamed_to : List Server → List Server → List (Option ℕ) → ℕ → Option Text
renamed_to stored [] pairs i = none
renamed_to stored (f ∷ fresh) [] i = none
renamed_to stored (f ∷ fresh) (none ∷ pairs) i = renamed_to stored fresh pairs i
renamed_to stored (f ∷ fresh) (some si ∷ pairs) i = elim (renamed_to stored fresh pairs i) [
  | some n ↦ some n
  | none ↦ elim (get_elem? stored si) [
    | none ↦ none
    | some s ↦ if si == i && not (text_eq f.name s.name) then some f.name else none
  ]
]

pub record RecordRename : Type 0 where
  pub what : Text
  pub old_name : Text
  pub new_name : Text
  pub address : Text
  pub port : ℕ

-- the new name of the server that a record names
unfoldable pub followed_name :
    Kinds → Text → List Server → List Server → List (Option ℕ) → Option ActiveServer → Option Text
followed_name kinds id stored fresh pairs none = none
followed_name kinds id stored fresh pairs (some a) =
    if not (text_eq a.subscription id) then none else elim (recorded_index kinds (some a) stored) [
      | none ↦ none
      | some i ↦ renamed_to stored fresh pairs i
    ]

unfoldable pub follow_record :
    Kinds
    → Text
    → List Server
    → List Server
    → List (Option ℕ)
    → Option ActiveServer
    → Option ActiveServer
follow_record kinds id stored fresh pairs none = none
follow_record kinds id stored fresh pairs (some a) =
    elim (followed_name kinds id stored fresh pairs (some a)) [
      | none ↦ some a
      | some n ↦ some (record a { name = n })
    ]

unfoldable pub rename_note :
    Kinds
    → Text
    → List Server
    → List Server
    → List (Option ℕ)
    → Text
    → Option ActiveServer
    → List RecordRename
rename_note kinds id stored fresh pairs what none = []
rename_note kinds id stored fresh pairs what (some a) =
    elim (followed_name kinds id stored fresh pairs (some a)) [
      | none ↦ []
      | some n ↦
          record {
            what = what;
            old_name = a.name;
            new_name = n;
            address = a.address;
            port = a.port;
          }
          ∷ []
    ]

unfoldable pub pending_active : Option XrayPendingRestore → Option ActiveServer
pending_active none = none
pending_active (some p) = p.active

-- `followRenames`
unfoldable pub follow_renames :
    Kinds → Config → Text → List Server → List Server → List (Option ℕ) → Config × List RecordRename
follow_renames kinds cfg id stored fresh pairs =
    let follow = follow_record kinds id stored fresh pairs in
    let note = rename_note kinds id stored fresh pairs in
    (
      record cfg {
        xray = record cfg.xray {
          active_server = follow cfg.xray.active_server;
          preferred_server = follow cfg.xray.preferred_server;
          pending_restore = elim cfg.xray.pending_restore [
            | none ↦ none
            | some p ↦ some (record p { active = follow p.active })
          ];
        };
      },
      note (runes "active_server") cfg.xray.active_server
          ++ note (runes "preferred_server") cfg.xray.preferred_server
          ++ note (runes "pending_restore.active") (pending_active cfg.xray.pending_restore),
    )
