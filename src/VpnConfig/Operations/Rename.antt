-- ===== src/VpnConfig/Operations/Rename.antt =====
-- The names of the subscriptions under `RenameSubscription`.
use vpn_director.Prelude.{
  Text, Bool, true, false, ◌≡◌, ◌⊎◌, ◌&&◌, ◌||◌, not, refl, inl, inr, Option-cases, Option, none,
  some, List, [], ◌∷◌, text_eq, text_eq_iff, text_eq_refl, any, arith, if◌then◌else◌,
}
use vpn_director.VpnConfig.Servers.{Subscription, find_subscription}
use vpn_director.VpnConfig.Names.{
  fold_ascii, subscription_name_taken, CleanName, clean, empty_name, long_name, control_name,
  clean_subscription_name,
}
use vpn_director.VpnConfig.Store.{
  Store, Disk, Change, refuse, save_change, load_subscriptions, save_subscription, insert_file,
  drop_file, tagged, update_vpn_config,
}
use vpn_director.VpnConfig.Operations.{
  get_subscription, change_file, rename_change, rename_clean, rename_subscription,
}

unfoldable pub clashes : Text → Subscription → Bool
clashes name s = text_eq (fold_ascii s.name) (fold_ascii name)

-- no two subscriptions share a name
unfoldable pub distinct_names : List Subscription → Bool
distinct_names [] = true
distinct_names (s ∷ subs) = not (any (clashes s.name) subs) && distinct_names subs

text_eq_sym : (s t : Text) → text_eq s t ≡ text_eq t s
text_eq_sym s t = ground (arith, text_eq_iff s t, text_eq_iff t s, text_eq_refl s)

pub any-insert_file :
    (p : Subscription → Bool) (s : Subscription) (subs : List Subscription)
    → any p (insert_file s subs) ≡ (p s || any p subs)
unfolding any insert_file
any-insert_file p s [] = refl
any-insert_file p s (t ∷ subs) = ground (arith, any-insert_file p s subs)

distinct_names-insert_file :
    (s : Subscription) (subs : List Subscription)
    → distinct_names (insert_file s subs) ≡ (not (any (clashes s.name) subs) && distinct_names subs)
unfolding distinct_names insert_file any clashes
distinct_names-insert_file s [] = refl
distinct_names-insert_file s (t ∷ subs) = ground (
  arith,
  distinct_names-insert_file s subs,
  any-insert_file (clashes t.name) s subs,
  text_eq_sym (fold_ascii s.name) (fold_ascii t.name),
)

any-drop_file :
    (p : Subscription → Bool) (id : Text) (subs : List Subscription)
    → any p subs ≡ false
    → any p (drop_file id subs) ≡ false
unfolding any drop_file
any-drop_file p id [] h = refl
any-drop_file p id (t ∷ subs) h = ground (arith, any-drop_file p id subs)

distinct_names-drop_file :
    (id : Text) (subs : List Subscription)
    → distinct_names subs ≡ true
    → distinct_names (drop_file id subs) ≡ true
unfolding distinct_names drop_file
distinct_names-drop_file id [] h = refl
distinct_names-drop_file id (t ∷ subs) h =
    ground (arith, distinct_names-drop_file id subs, any-drop_file (clashes t.name) id subs)

-- a name that is not taken clashes with no other subscription
clashes-drop_file :
    (name id : Text) (subs : List Subscription)
    → any (clashes name) (drop_file id subs) ≡ subscription_name_taken subs name id
unfolding any drop_file clashes subscription_name_taken
clashes-drop_file name id [] = refl
clashes-drop_file name id (t ∷ subs) = ground (arith, clashes-drop_file name id subs)

pub get_subscription-cons :
    (s : Subscription) (subs : List Subscription) (id : Text)
    → get_subscription (s ∷ subs) id
      ≡ (if text_eq s.id id then some s else get_subscription subs id)
unfolding get_subscription find_subscription
get_subscription-cons s subs id = ground arith

pub get_subscription-id :
    (subs : List Subscription) (id : Text) (sub : Subscription)
    → get_subscription subs id ≡ some sub
    → sub.id ≡ id
get_subscription-id [] id sub e = unfold get_subscription find_subscription in ground arith
get_subscription-id (s ∷ subs) id sub e =
    ground
      (arith, get_subscription-cons s subs id, get_subscription-id subs id sub, text_eq_iff s.id id)

rename_change-distinct :
    (disk : Disk) (id name : Text) (store : Store)
    → distinct_names store.files ≡ true
    → distinct_names (rename_change disk id name store).files ≡ true
unfolding rename_change change_file refuse load_subscriptions save_subscription tagged
rename_change-distinct disk id name store h =
    elim (Option-cases (get_subscription store.files id)) [
      | inl e ↦ ground arith
      | inr (sub, e) ↦ ground (
        arith,
        get_subscription-id store.files id sub e,
        distinct_names-insert_file (tagged (record sub { name = name }))
            (drop_file sub.id store.files),
        distinct_names-drop_file id store.files h,
        clashes-drop_file name id store.files,
      )
    ]

update_files :
    (disk : Disk) (store : Store) (a : Option Subscription)
    (fn : Store → Change (Option Subscription))
    → ((update_vpn_config disk store a fn).0.files ≡ store.files)
      ⊎ ((update_vpn_config disk store a fn).0.files ≡ (fn store).files)
unfolding update_vpn_config save_change
update_files disk store a fn = ground arith

-- However a rename ends, names that were distinct stay so, in ASCII letters of either case.
pub rename-distinct_names :
    (disk : Disk) (store : Store) (id name : Text)
    → distinct_names store.files ≡ true
    → distinct_names (rename_subscription disk store id name).0.files ≡ true
unfolding rename_subscription
rename-distinct_names disk store id name h = by_name (clean_subscription_name name)
  where
    by_name : (c : CleanName) → distinct_names (rename_clean disk store id c).0.files ≡ true
    by_name (clean n) =
        unfold rename_clean in
        ground (
          arith,
          update_files disk store none (rename_change disk id n),
          rename_change-distinct disk id n store h,
        )
    by_name empty_name = unfold rename_clean in h
    by_name long_name = unfold rename_clean in h
    by_name control_name = unfold rename_clean in h
