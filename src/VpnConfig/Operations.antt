-- ===== src/VpnConfig/Operations.antt =====
-- The subscription operations of server/internal/vpnconfig/subops.go, each with what it returns, its
-- error and the store it leaves. The time of a call is a whole number of seconds.
pub mod Atomic
pub mod Bypass
pub mod Errors
pub mod Rename
use vpn_director.Prelude.{
  ℕ, suc, Text, Bool, true, false, ◌&&◌, ◌||◌, not, Option, none, some, List, [], ◌∷◌, ◌++◌, take,
  drop, if◌then◌else◌, ◌==◌, text_eq, get_elem?,
}
use vpn_director.VpnConfig.Config.{Config, ActiveServer, XrayConfig}
use vpn_director.VpnConfig.Servers.{
  Server, Kinds, Subscription, find_subscription, subscription_ips,
}
use vpn_director.VpnConfig.Names.{
  CleanName, clean, clean_subscription_name, subscription_name_taken,
}
use vpn_director.VpnConfig.Pairs.{Identities, pair_servers}
use vpn_director.VpnConfig.Refresh.{follow_renames}
use vpn_director.VpnConfig.Store.{
  Store, Disk, Failure, file_unsaved, files_unread, subscription_gone, subscription_static,
  name_taken, name_refused, nothing_to_write, saved, Change, refuse, load_subscriptions,
  save_subscription, delete_subscription_file, drop_file, update_vpn_config,
}

-- the subscription with the id, as `FindSubscription` and the index give it
unfoldable pub get_subscription : List Subscription → Text → Option Subscription
get_subscription subs id = elim (find_subscription subs id) [
  | none ↦ none
  | some i ↦ get_elem? subs i
]

-- `subs[i] = sub` at the first subscription with the id
unfoldable pub set_subscription : List Subscription → Subscription → List Subscription
set_subscription [] sub = []
set_subscription (s ∷ subs) sub =
    let rest = set_subscription subs sub in if text_eq s.id sub.id then sub ∷ subs else s ∷ rest

unfoldable pub with_servers : Config → List Subscription → Config
with_servers cfg subs = record cfg { xray = record cfg.xray { servers = subscription_ips subs } }

-- the files written, if they could be
unfoldable pub change_file {ℓ} :
    {A : Type ℓ} → Disk → Store → Subscription → A → A → Config → Change A
change_file disk store sub before after cfg = elim (save_subscription disk sub store.files) [
  | none ↦ refuse store before file_unsaved
  | some files ↦ record { files = files; config = cfg; value = after; wrote = true; failure = none }
]

-- an operation that wrote a file before it failed reports `ServersSaved`
unfoldable pub report {ℓ} : {A : Type ℓ} → Change A → Option Failure
report c = elim c.failure [ none ↦ none | some f ↦ if c.wrote then some (saved f) else some f ]

-- `RecordSubscriptionErrorChanged`: whether the file changed, and the error
unfoldable pub record_error_change : Disk → Text → Text → ℕ → Text → Store → Change Bool
record_error_change disk id url since msg store = elim (load_subscriptions disk store) [
  | none ↦ refuse store false files_unread
  | some subs ↦ elim (get_subscription subs id) [
    | none ↦ refuse store false subscription_gone
    | some sub ↦
        if not (text_eq sub.url url)
        then refuse store false subscription_gone
        else if not (sub.refreshed == since) || text_eq sub.error msg
        then refuse store false nothing_to_write
        else change_file disk store (record sub { error = msg }) false true store.config
  ]
]

unfoldable pub ignore_nothing : Option Failure → Option Failure
ignore_nothing none = none
ignore_nothing (some nothing_to_write) = none
ignore_nothing (some f) = some f

unfoldable pub record_subscription_error :
    Disk → Store → Text → Text → ℕ → Text → Store × Bool × Option Failure
record_subscription_error disk store id url since msg =
    let (after, c) =
      update_vpn_config disk store false (record_error_change disk id url since msg) in
    (after, c.value, ignore_nothing c.failure)

-- `RenameSubscription`
unfoldable pub rename_change : Disk → Text → Text → Store → Change (Option Subscription)
rename_change disk id name store = elim (load_subscriptions disk store) [
  | none ↦ refuse store none files_unread
  | some subs ↦ elim (get_subscription subs id) [
    | none ↦ refuse store none subscription_gone
    | some sub ↦
        let renamed = record sub { name = name } in
        if subscription_name_taken subs name id
        then refuse store none name_taken
        else change_file disk store renamed (some renamed) (some renamed) store.config
  ]
]

unfoldable pub rename_clean :
    Disk → Store → Text → CleanName → Store × Option Subscription × Option Failure
rename_clean disk store id (clean name) =
    let (after, c) = update_vpn_config disk store none (rename_change disk id name) in
    (after, c.value, c.failure)
rename_clean disk store id refused = (store, none, some name_refused)

unfoldable pub rename_subscription :
    Disk → Store → Text → Text → Store × Option Subscription × Option Failure
rename_subscription disk store id name = rename_clean disk store id (clean_subscription_name name)

-- whether a record names the subscription
unfoldable pub names_subscription : Option ActiveServer → Text → Bool
names_subscription none id = false
names_subscription (some a) id = text_eq a.subscription id

-- the configuration without the subscription
unfoldable pub forget_subscription : Config → Text → List Subscription → Config
forget_subscription cfg id left = record cfg {
  xray = record cfg.xray {
    servers = subscription_ips left;
    preferred_server =
        if names_subscription cfg.xray.preferred_server id then none else cfg.xray.preferred_server;
  };
}

-- `DeleteSubscription`: whether the active server was in it, and the error
unfoldable pub delete_change : Disk → Text → Store → Change Bool
delete_change disk id store = elim (load_subscriptions disk store) [
  | none ↦ refuse store false files_unread
  | some subs ↦ elim (find_subscription subs id) [
    | none ↦ refuse store false subscription_gone
    | some i ↦ elim (delete_subscription_file disk id store.files) [
      | none ↦ refuse store false file_unsaved
      | some files ↦ record {
        files = files;
        config = forget_subscription store.config id (take i subs ++ drop (suc i) subs);
        value = names_subscription store.config.xray.active_server id;
        wrote = true;
        failure = none;
      }
    ]
  ]
]

unfoldable pub delete_subscription : Disk → Store → Text → Store × Bool × Option Failure
delete_subscription disk store id =
    let (after, c) = update_vpn_config disk store false (delete_change disk id) in
    (after, c.value, report c)

-- `refreshSubscription`
module _ (kinds : Kinds) (ids : Identities) where
  -- the configuration with the addresses, and with the records moved along if the call follows
  unfoldable pub refreshed_config :
      Config → List Subscription → Bool → Text → List Server → List Server → Config
  refreshed_config cfg subs follow id stored servers =
      if follow
      then (follow_renames kinds (with_servers cfg subs) id stored servers
          (pair_servers ids stored servers)).0
      else with_servers cfg subs

  unfoldable pub refresh_change :
      Disk → Text → Text → List Server → ℕ → Bool → Store → Change (Option Subscription)
  refresh_change disk id url servers now follow store = elim (load_subscriptions disk store) [
    | none ↦ refuse store none files_unread
    | some subs ↦ elim (get_subscription subs id) [
      | none ↦ refuse store none subscription_gone
      | some sub ↦
          let fresh = record sub { servers = servers; refreshed = now; error = [] } in
          if not (text_eq sub.url url)
          then refuse store none subscription_gone
          else change_file disk store fresh (some fresh) (some fresh) (
              refreshed_config store.config (set_subscription subs fresh) follow id sub.servers
                servers)
    ]
  ]

  -- the subscription is returned on success and with a file written; `none` is the zero value
  unfoldable pub refresh_subscription :
      Disk
      → Store
      → Text
      → Text
      → List Server
      → ℕ
      → Bool
      → Store × Option Subscription × Option Failure
  refresh_subscription disk store id url servers now follow =
      let (after, c) =
        update_vpn_config disk store none (refresh_change disk id url servers now follow) in
      if text_eq url [] then (store, none, some subscription_static) else elim c.failure [
        | none ↦ (after, c.value, none)
        | some f ↦ if c.wrote then (after, c.value, some (saved f)) else (after, none, some f)
      ]
