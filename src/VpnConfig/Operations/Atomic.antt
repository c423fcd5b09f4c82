-- ===== src/VpnConfig/Operations/Atomic.antt =====
-- What an operation leaves behind when it fails.
use vpn_director.Prelude.{
  ℕ, Text, Bool, true, false, ◌≡◌, ◌⊎◌, inr, refl, Option, none, some, List, arith,
}
use vpn_director.VpnConfig.Config.{Config}
use vpn_director.VpnConfig.Servers.{Server, Kinds, Subscription}
use vpn_director.VpnConfig.Pairs.{Identities}
use vpn_director.VpnConfig.Store.{
  Store, Disk, Failure, saved, Change, refuse, save_change, load_subscriptions, update_vpn_config,
}
use vpn_director.VpnConfig.Operations.{
  change_file, report, refresh_change, refresh_subscription, delete_change, delete_subscription,
}

-- A change that fails itself has written no file and left the files as they were.
abbrev IsGuarded {ℓ} : {A : Type ℓ} → Store → Change A → Type 0
IsGuarded store c =
    ((c.failure ≡ none) × (c.wrote ≡ true))
    ⊎ ((f : Failure) × (c.failure ≡ some f) × (c.wrote ≡ false) × (c.files ≡ store.files))

-- The store after an operation that may fail: as it was after a failure, except that one that is
-- reported as saved has changed the files alone.
abbrev pub IsAtomic : Store → Store → Option Failure → Type 0
IsAtomic before after failure =
    (failure ≡ none)
    ⊎ ((after ≡ before) × ((f : Failure) × (failure ≡ some f)))
    ⊎ ((after.config ≡ before.config) × ((f : Failure) × (failure ≡ some (saved f))))

module _ {ℓ} {A : Type ℓ} where
  refuse-IsGuarded : (store : Store) (a : A) (f : Failure) → IsGuarded store (refuse store a f)
  unfolding refuse
  refuse-IsGuarded store a f = inr (f, refl, refl, refl)

  change_file-IsGuarded :
      (disk : Disk) (store : Store) (sub : Subscription) (before after : A) (cfg : Config)
      → IsGuarded store (change_file disk store sub before after cfg)
  unfolding change_file refuse
  change_file-IsGuarded disk store sub before after cfg = ground arith

  -- an update of a guarded change, as it is reported
  update-IsAtomic :
      (disk : Disk) (store : Store) (a : A) (fn : Store → Change A)
      → IsGuarded store (fn store)
      → IsAtomic store
          (update_vpn_config disk store a fn).0
          (report (update_vpn_config disk store a fn).1)
  unfolding update_vpn_config save_change report refuse
  update-IsAtomic disk store a fn g = ground arith

delete_change-IsGuarded :
    (disk : Disk) (id : Text) (store : Store) → IsGuarded store (delete_change disk id store)
unfolding delete_change refuse load_subscriptions
delete_change-IsGuarded disk id store = ground arith

-- A deletion that fails leaves the store as it was, or reports that the file is gone and has left
-- the configuration as it was.
pub delete_subscription-IsAtomic :
    (disk : Disk) (store : Store) (id : Text)
    → IsAtomic store (delete_subscription disk store id).0 (delete_subscription disk store id).2
unfolding delete_subscription
delete_subscription-IsAtomic disk store id =
    update-IsAtomic disk store false (delete_change disk id) (delete_change-IsGuarded disk id store)

module _ (kinds : Kinds) (ids : Identities) where
  refresh_change-IsGuarded :
      (disk : Disk) (id url : Text) (servers : List Server) (now : ℕ) (follow : Bool)
      (store : Store)
      → IsGuarded store (refresh_change kinds ids disk id url servers now follow store)
  unfolding refresh_change change_file refuse load_subscriptions
  refresh_change-IsGuarded disk id url servers now follow store = ground arith

  -- A refresh that fails leaves the store as it was, or reports that the list is out and has left the
  -- configuration as it was.
  pub refresh_subscription-IsAtomic :
      (disk : Disk) (store : Store) (id url : Text) (servers : List Server) (now : ℕ)
      (follow : Bool)
      → IsAtomic store
          (refresh_subscription kinds ids disk store id url servers now follow).0
          (refresh_subscription kinds ids disk store id url servers now follow).2
  unfolding refresh_subscription report
  refresh_subscription-IsAtomic disk store id url servers now follow = ground (
    arith,
    update-IsAtomic disk store none (refresh_change kinds ids disk id url servers now follow)
        (refresh_change-IsGuarded disk id url servers now follow store),
  )
