-- ===== src/Tests/Operations.antt =====
-- The subscription operations on two saved subscriptions.
use vpn_director.Prelude.{
  Text, true, false, runes, text_eq, ◌≡◌, refl, none, some, [], ◌∷◌, contains, any, all,
}
use vpn_director.VpnConfig.Servers.{Subscription, find_subscription}
use vpn_director.VpnConfig.Servers.Ips.{lists_ip}
use vpn_director.VpnConfig.Names.{
  clean_subscription_name, check_name, trim_spaces, trim_left_spaces, is_control, is_hex_digit,
  fold_ascii, fold_byte, subscription_name_taken, valid_subscription_id,
}
use vpn_director.VpnConfig.Pairs.{Identities}
use vpn_director.VpnConfig.Store.{
  Store, Disk, saved, config_unsaved, name_taken, save_change, refuse, load_subscriptions,
  save_subscription, delete_subscription_file, update_vpn_config,
}
use vpn_director.VpnConfig.Operations.{
  get_subscription, change_file, rename_change, rename_clean, rename_subscription, delete_change,
  delete_subscription, refresh_change, refresh_subscription, report,
}
use vpn_director.VpnConfig.Operations.Atomic.{IsAtomic, refresh_subscription-IsAtomic}
use vpn_director.VpnConfig.Operations.Bypass.{distinct_ids, refresh-bypass}
use vpn_director.VpnConfig.Operations.Rename.{distinct_names, clashes, rename-distinct_names}
use vpn_director.Tests.Sample.{router}
use vpn_director.Tests.Walk.{kinds, riga, oslo}

abbrev pub identities : Identities
identities = record { server_identity = λ s. s.uuid; loose_identity = λ s. s.network }

abbrev url : Text
url = runes "https://a.example/s"

abbrev first_id : Text
first_id = runes "0000000a"

abbrev first : Subscription
first = record {
  id = first_id;
  name = runes "East";
  url = url;
  added = 5;
  refreshed = 7;
  error = [];
  servers = record riga { subscription = first_id } ∷ [];
}

abbrev second : Subscription
second = record first { id = runes "0000000b"; name = runes "North"; servers = [] }

abbrev store : Store
store = record { config = router; files = first ∷ second ∷ [] }

abbrev sound : Disk
sound = record {
  locks = true;
  reads_config = true;
  reads_files = true;
  writes_file = true;
  writes_config = true;
}

-- a disk that fails when the configuration is written
abbrev failing : Disk
failing = record sound { writes_config = false }

refresh_failing :
    (refresh_subscription kinds identities failing store first_id url (oslo ∷ []) 9 false).2
    ≡ some (saved config_unsaved)
unfolding refresh_subscription refresh_change change_file update_vpn_config save_change
    load_subscriptions save_subscription get_subscription find_subscription valid_subscription_id
    is_hex_digit all text_eq
refresh_failing = refl

refresh_sound :
    (refresh_subscription kinds identities sound store first_id url (oslo ∷ []) 9 false).2 ≡ none
unfolding refresh_subscription refresh_change change_file update_vpn_config save_change
    load_subscriptions save_subscription get_subscription find_subscription valid_subscription_id
    is_hex_digit all text_eq
refresh_sound = refl

refresh_subscription-IsAtomic_example :
    IsAtomic store
      (refresh_subscription kinds identities failing store first_id url (oslo ∷ []) 9 false).0
      (refresh_subscription kinds identities failing store first_id url (oslo ∷ []) 9 false).2
refresh_subscription-IsAtomic_example =
    refresh_subscription-IsAtomic kinds identities failing store first_id url (oslo ∷ []) 9 false

ids_differ : distinct_ids store.files ≡ true
unfolding distinct_ids any text_eq
ids_differ = refl

refresh-bypass_example :
    contains
      (refresh_subscription kinds identities sound store first_id url
        (oslo ∷ [])
        9
        false).0.config.xray.servers
      (runes "1.1.1.2")
    ≡ any
        (lists_ip (runes "1.1.1.2"))
        (refresh_subscription kinds identities sound store first_id url (oslo ∷ []) 9 false).0.files
refresh-bypass_example =
    refresh-bypass kinds identities sound store first_id url (oslo ∷ []) 9 false (runes "1.1.1.2")
      ids_differ refresh_sound

delete_sound : (delete_subscription sound store first_id).2 ≡ none
unfolding delete_subscription delete_change update_vpn_config save_change report load_subscriptions
    delete_subscription_file find_subscription valid_subscription_id is_hex_digit all text_eq
delete_sound = refl

names_differ : distinct_names store.files ≡ true
unfolding distinct_names any clashes fold_ascii fold_byte text_eq
names_differ = refl

-- a name that differs in the case of a letter alone is taken
rename_taken : (rename_subscription sound store first_id (runes " NORTH")).2 ≡ some name_taken
unfolding rename_subscription rename_clean rename_change refuse update_vpn_config save_change
    load_subscriptions get_subscription find_subscription clean_subscription_name check_name
    trim_spaces trim_left_spaces is_control any subscription_name_taken fold_ascii fold_byte text_eq
rename_taken = refl

rename-distinct_names_example :
    distinct_names (rename_subscription sound store first_id (runes "West")).0.files ≡ true
rename-distinct_names_example =
    rename-distinct_names sound store first_id (runes "West") names_differ
