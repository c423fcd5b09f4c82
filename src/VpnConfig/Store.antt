-- ===== src/VpnConfig/Store.antt =====
-- The state that the subscription operations change: the configuration file and the subscription
-- files, with `UpdateVPNConfig` of server/internal/service/config.go around every change. The files
-- stand in the order and with the tags that `LoadSubscriptions` of
-- server/internal/vpnconfig/substore.go gives them: by the time of adding, then by id.
use vpn_director.Prelude.{
  Text, Bool, false, ◌&&◌, ◌||◌, not, Option, none, some, List, [], ◌∷◌, if◌then◌else◌, ◌==◌, ltb,
  text_eq, text_lt,
}
use vpn_director.VpnConfig.Config.{Config}
use vpn_director.VpnConfig.Servers.{Subscription, tag_servers}
use vpn_director.VpnConfig.Names.{valid_subscription_id}

pub record Store : Type 0 where
  pub config : Config
  pub files : List Subscription

-- which file operations succeed during one update, the lock among them
pub record Disk : Type 0 where
  pub locks : Bool
  pub reads_config : Bool
  pub reads_files : Bool
  pub writes_file : Bool
  pub writes_config : Bool

-- the errors of the operations; `saved` is `ServersSaved`
pub data Failure : Type 0 where
  not_locked : Failure
  config_unread : Failure
  files_unread : Failure
  config_unsaved : Failure
  file_unsaved : Failure
  subscription_gone : Failure
  subscription_static : Failure
  subscription_limit : Failure
  name_taken : Failure
  name_refused : Failure
  no_link : Failure
  no_id : Failure
  nothing_to_write : Failure
  refresh_superseded : Failure
  no_server_resolved : Failure
  saved : Failure → Failure

-- what the function given to an update comes to: the files as it left them, the configuration to
-- write, what it found, whether it wrote a file, and its error
pub record Change {ℓ} (A : Type ℓ) : Type ℓ where
  pub files : List Subscription
  pub config : Config
  pub value : A
  pub wrote : Bool
  pub failure : Option Failure

-- a change that does nothing but fail
unfoldable pub refuse {ℓ} : {A : Type ℓ} → Store → A → Failure → Change A
refuse store a f = record {
  files = store.files;
  config = store.config;
  value = a;
  wrote = false;
  failure = some f;
}

-- `LoadSubscriptions`
unfoldable pub load_subscriptions : Disk → Store → Option (List Subscription)
load_subscriptions disk store = if disk.reads_files then some store.files else none

unfoldable pub listed_before : Subscription → Subscription → Bool
listed_before a b = ltb a.added b.added || (a.added == b.added && text_lt a.id b.id)

unfoldable pub insert_file : Subscription → List Subscription → List Subscription
insert_file sub [] = sub ∷ []
insert_file sub (s ∷ files) =
    let rest = insert_file sub files in if listed_before sub s then sub ∷ s ∷ files else s ∷ rest

unfoldable pub drop_file : Text → List Subscription → List Subscription
drop_file id [] = []
drop_file id (s ∷ files) =
    let rest = drop_file id files in if text_eq s.id id then rest else s ∷ rest

unfoldable pub tagged : Subscription → Subscription
tagged sub = record sub { servers = tag_servers sub.id sub.servers }

-- `SaveSubscription`, read back
unfoldable pub save_subscription :
    Disk → Subscription → List Subscription → Option (List Subscription)
save_subscription disk sub files =
    if not (valid_subscription_id sub.id) || not disk.writes_file
    then none
    else some (insert_file (tagged sub) (drop_file sub.id files))

-- `DeleteSubscriptionFile`
unfoldable pub delete_subscription_file :
    Disk → Text → List Subscription → Option (List Subscription)
delete_subscription_file disk id files =
    if not (valid_subscription_id id) || not disk.writes_file
    then none
    else some (drop_file id files)

-- what follows the function: without an error of it the configuration is saved
unfoldable pub save_change {ℓ} : {A : Type ℓ} → Disk → Store → Change A → Store × Change A
save_change disk store c = elim c.failure [
  | some f ↦ (record store { files = c.files }, c)
  | none ↦
      if disk.writes_config
      then (record { config = c.config; files = c.files }, c)
      else (record store { files = c.files }, record c { failure = some config_unsaved })
]

-- `UpdateVPNConfig`
unfoldable pub update_vpn_config {ℓ} :
    {A : Type ℓ} → Disk → Store → A → (Store → Change A) → Store × Change A
update_vpn_config disk store zero_value fn =
    if not disk.locks
    then (store, refuse store zero_value not_locked)
    else if not disk.reads_config
    then (store, refuse store zero_value config_unread)
    else save_change disk store (fn store)
