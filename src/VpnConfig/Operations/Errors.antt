-- ===== src/VpnConfig/Operations/Errors.antt =====
-- `RecordSubscriptionErrorChanged`: what it changes, and when.
use vpn_director.Prelude.{
  ℕ, Text, Bool, true, false, ◌≡◌, ◌⊎◌, ◌&&◌, not, Option, none, some, text_eq, arith, ◌==◌,
}
use vpn_director.VpnConfig.Servers.{Subscription}
use vpn_director.VpnConfig.Names.{valid_subscription_id}
use vpn_director.VpnConfig.Store.{
  Store, Disk, refuse, save_change, load_subscriptions, save_subscription, update_vpn_config,
}
use vpn_director.VpnConfig.Operations.{
  get_subscription, change_file, record_error_change, record_subscription_error,
}

-- whether an error is due: the subscription has the link, no other refresh wrote it since, the
-- error is new, and its id is one that the store writes
unfoldable pub can_record : Option Subscription → Text → ℕ → Text → Bool
can_record none url since msg = false
can_record (some sub) url since msg =
    text_eq sub.url url
    && sub.refreshed == since
    && not (text_eq sub.error msg)
    && valid_subscription_id sub.id

unfoldable pub is_writable : Disk → Bool
is_writable disk = disk.locks && disk.reads_config && disk.reads_files && disk.writes_file

-- A call reports a change exactly if the error is due and the files can be read and written; it never
-- touches the configuration, and without a change not the store.
pub record_error-changed :
    (disk : Disk) (store : Store) (id url : Text) (since : ℕ) (msg : Text)
    → ((record_subscription_error disk store id url since msg).1
        ≡ (is_writable disk && can_record (get_subscription store.files id) url since msg))
      × ((record_subscription_error disk store id url since msg).0.config ≡ store.config)
      × (((record_subscription_error disk store id url since msg).1 ≡ true)
          ⊎ ((record_subscription_error disk store id url since msg).0 ≡ store))
unfolding record_subscription_error record_error_change change_file update_vpn_config save_change
    refuse load_subscriptions save_subscription can_record is_writable
record_error-changed disk store id url since msg = ground arith
