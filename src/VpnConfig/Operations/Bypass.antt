-- ===== src/VpnConfig/Operations/Bypass.antt =====
-- `xray.servers` after a refresh or a deletion.
use vpn_director.Prelude.{
  ℕ, zero, suc, Text, Bool, true, false, ◌≡◌, ◌∙◌, ap, sym, refl, ◌&&◌, ◌||◌, not, inl, inr, none,
  some, Option-cases, Bool-cases, List, [], ◌∷◌, ◌++◌, text_eq, text_eq_iff, contains, any, take,
  drop, arith,
}
use vpn_director.VpnConfig.Config.{Config}
use vpn_director.VpnConfig.Servers.{
  Server, Kinds, Subscription, find_subscription, subscription_ips,
}
use vpn_director.VpnConfig.Servers.Ips.{lists_ip, lists_ip-tagged, contains-subscription_ips}
use vpn_director.VpnConfig.Pairs.{Identities}
use vpn_director.VpnConfig.Refresh.{follow_renames}
use vpn_director.VpnConfig.Store.{
  Store, Disk, Change, refuse, save_change, load_subscriptions, save_subscription, drop_file,
  tagged, update_vpn_config, delete_subscription_file,
}
use vpn_director.VpnConfig.Operations.{
  get_subscription, set_subscription, with_servers, change_file, report, refreshed_config,
  refresh_change, refresh_subscription, forget_subscription, delete_change, delete_subscription,
}
use vpn_director.VpnConfig.Operations.Rename.{
  get_subscription-cons, get_subscription-id, any-insert_file,
}

-- no two files have one id
unfoldable pub distinct_ids : List Subscription → Bool
distinct_ids [] = true
distinct_ids (s ∷ subs) = not (any (λ t. text_eq t.id s.id) subs) && distinct_ids subs

drop_file_absent :
    (id : Text) (subs : List Subscription)
    → any (λ t. text_eq t.id id) subs ≡ false
    → drop_file id subs ≡ subs
unfolding drop_file any
drop_file_absent id [] h = refl
drop_file_absent id (s ∷ subs) h = ground (arith, drop_file_absent id subs)

-- in any list, the one subscription replaced and the file dropped and inserted agree
any-set_subscription :
    (p : Subscription → Bool) (subs : List Subscription) (sub fresh : Subscription)
    → distinct_ids subs ≡ true
    → get_subscription subs fresh.id ≡ some sub
    → any p (set_subscription subs fresh) ≡ (p fresh || any p (drop_file fresh.id subs))
unfolding any set_subscription drop_file distinct_ids
any-set_subscription p [] sub fresh d g = unfold get_subscription find_subscription in ground arith
any-set_subscription p (s ∷ subs) sub fresh d g = elim (Bool-cases (text_eq s.id fresh.id)) [
  | inl y ↦ ground (arith, text_eq_iff s.id fresh.id, drop_file_absent s.id subs)
  | inr n ↦
      ground (arith, get_subscription-cons s subs fresh.id, any-set_subscription p subs sub fresh)
]

-- the list without the index of an id is the list without the id
without_index :
    (subs : List Subscription) (id : Text) (i : ℕ)
    → distinct_ids subs ≡ true
    → find_subscription subs id ≡ some i
    → take i subs ++ drop (suc i) subs ≡ drop_file id subs
unfolding find_subscription drop_file distinct_ids
without_index [] id i d e = cc
without_index (s ∷ subs) id zero d e =
    ground (arith, text_eq_iff s.id id, drop_file_absent s.id subs)
without_index (s ∷ subs) id (suc i) d e = ground (arith, without_index subs id i)

any-save :
    (p : Subscription → Bool) (disk : Disk) (sub : Subscription) (files after : List Subscription)
    → save_subscription disk sub files ≡ some after
    → any p after ≡ (p (tagged sub) || any p (drop_file sub.id files))
unfolding save_subscription
any-save p disk sub files after e =
    ground (arith, any-insert_file p (tagged sub) (drop_file sub.id files))

-- the saved files and the list with the subscription replaced have the same addresses
saved_ips :
    (ip : Text) (disk : Disk) (subs files : List Subscription) (id : Text)
    (sub fresh : Subscription)
    → distinct_ids subs ≡ true
    → get_subscription subs id ≡ some sub
    → fresh.id ≡ sub.id
    → save_subscription disk fresh subs ≡ some files
    → any (lists_ip ip) files ≡ contains (subscription_ips (set_subscription subs fresh)) ip
unfolding tagged
saved_ips ip disk subs files id sub fresh d g same f =
    any-save (lists_ip ip) disk fresh subs files f
    ∙ ap (λ b. b || any (lists_ip ip) (drop_file fresh.id subs)) (lists_ip-tagged ip fresh)
    ∙ sym (any-set_subscription (lists_ip ip) subs sub fresh d found)
    ∙ sym (contains-subscription_ips ip (set_subscription subs fresh))
  where
    found : get_subscription subs fresh.id ≡ some sub
    found = ap (get_subscription subs) (same ∙ get_subscription-id subs id sub g) ∙ g

-- a store written without an error is the one that the change made
update_success :
    {A : Type 0} (disk : Disk) (store : Store) (a : A) (fn : Store → Change A)
    → (update_vpn_config disk store a fn).1.failure ≡ none
    → ((update_vpn_config disk store a fn).0.config ≡ (fn store).config)
      × ((update_vpn_config disk store a fn).0.files ≡ (fn store).files)
      × ((fn store).failure ≡ none)
unfolding update_vpn_config save_change refuse
update_success disk store a fn h = ground arith

module _ (kinds : Kinds) (ids : Identities) where
  servers-refreshed_config :
      (cfg : Config) (subs : List Subscription) (follow : Bool) (id : Text)
      (stored servers : List Server)
      → (refreshed_config kinds ids cfg subs follow id stored servers).xray.servers
        ≡ subscription_ips subs
  unfolding refreshed_config follow_renames with_servers
  servers-refreshed_config cfg subs true id stored servers = refl
  servers-refreshed_config cfg subs false id stored servers = refl

  refresh_change-bypass :
      (disk : Disk) (id url : Text) (servers : List Server) (now : ℕ) (follow : Bool)
      (store : Store) (ip : Text)
      → distinct_ids store.files ≡ true
      → (refresh_change kinds ids disk id url servers now follow store).failure ≡ none
      → contains
          (refresh_change kinds ids disk id url servers now follow store).config.xray.servers
          ip
        ≡ any (lists_ip ip) (refresh_change kinds ids disk id url servers now follow store).files
  unfolding refresh_change change_file refuse load_subscriptions
  refresh_change-bypass disk id url servers now follow store ip d h =
      elim (Option-cases (get_subscription store.files id)) [
        | inl e ↦ ground arith
        | inr (sub, e) ↦
            let fresh = record sub { servers = servers; refreshed = now; error = [] } in
            let subs = set_subscription store.files fresh in
            elim (Option-cases (save_subscription disk fresh store.files)) [
              | inl f ↦ ground arith
              | inr (files, f) ↦ ground (
                arith,
                servers-refreshed_config store.config subs follow id sub.servers servers,
                saved_ips ip disk store.files files id sub fresh d e refl f,
              )
            ]
      ]

  -- Once a refresh has succeeded over files of distinct ids, `xray.servers` holds exactly the
  -- addresses of the listed servers.
  pub refresh-bypass :
      (disk : Disk) (store : Store) (id url : Text) (servers : List Server) (now : ℕ)
      (follow : Bool) (ip : Text)
      → distinct_ids store.files ≡ true
      → (refresh_subscription kinds ids disk store id url servers now follow).2 ≡ none
      → contains
          (refresh_subscription kinds ids disk store id url servers now
            follow).0.config.xray.servers
          ip
        ≡ any
            (lists_ip ip)
            (refresh_subscription kinds ids disk store id url servers now follow).0.files
  unfolding refresh_subscription
  refresh-bypass disk store id url servers now follow ip d h = ground (
    arith,
    update_success disk store none (refresh_change kinds ids disk id url servers now follow),
    refresh_change-bypass disk id url servers now follow store ip d,
  )

delete_change-bypass :
    (disk : Disk) (id : Text) (store : Store) (ip : Text)
    → distinct_ids store.files ≡ true
    → (delete_change disk id store).failure ≡ none
    → contains (delete_change disk id store).config.xray.servers ip
      ≡ any (lists_ip ip) (delete_change disk id store).files
unfolding delete_change refuse load_subscriptions delete_subscription_file forget_subscription
delete_change-bypass disk id store ip d h = elim (Option-cases (find_subscription store.files id)) [
  | inl e ↦ ground arith
  | inr (i, e) ↦ ground (
    arith,
    without_index store.files id i d e,
    contains-subscription_ips ip (drop_file id store.files),
  )
]

-- Once a deletion has succeeded over files of distinct ids, `xray.servers` holds exactly the addresses
-- of the servers left.
pub delete-bypass :
    (disk : Disk) (store : Store) (id ip : Text)
    → distinct_ids store.files ≡ true
    → (delete_subscription disk store id).2 ≡ none
    → contains (delete_subscription disk store id).0.config.xray.servers ip
      ≡ any (lists_ip ip) (delete_subscription disk store id).0.files
unfolding delete_subscription report
delete-bypass disk store id ip d h = ground (
  arith,
  update_success disk store false (delete_change disk id),
  delete_change-bypass disk id store ip d,
)
