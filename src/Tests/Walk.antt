-- ===== src/Tests/Walk.antt =====
-- The subscription watch on two subscriptions, with the security as the kind of a server and the
-- user id as its mark.
use mathlib.Core.List.{Perm}
use vpn_director.Prelude.{
  Text, true, false, runes, text_eq, ◌≡◌, ◌⊎◌, ◌≤◌, ◌<◌, refl, ℕ, some, List, [], ◌∷◌, get_elem?,
  keep_if,
}
use vpn_director.VpnConfig.Config.{Config, ActiveServer}
use vpn_director.VpnConfig.Servers.{
  Server, Kinds, Subscription, tag_servers, all_servers, find_subscription, same_choice,
  same_choice_record,
}
use vpn_director.VpnConfig.Servers.Walked.{record_walk, choice, choice-record_walk}
use vpn_director.Subwatch.Choice.{
  chosen_index, chosen_loop, rank, same_server, pick_order, move_to_front,
}
use vpn_director.Subwatch.Choice.Best.{chosen_index-best}
use vpn_director.Subwatch.Order.{
  walk_order, order_from, own_index, queues_of, pass, turns, enough_turns,
}
use vpn_director.Subwatch.Order.Permutation.{walk_order-perm}
use vpn_director.Subwatch.Actuality.{
  changed, classify_active, classify_loop, placeless, at_place, sole, carries_mark,
}
use vpn_director.Subwatch.Actuality.Kind.{
  described, first_of, stands, in_place, elsewhere, classify_active-described,
}
use vpn_director.Tests.Sample.{router}

abbrev pub kinds : Kinds
kinds = record { group = λ s. s.security; identity_mark = λ s. s.uuid }

abbrev listed : Text → Text → Text → Server
listed name address uuid = record {
  address = address;
  port = 443;
  uuid = uuid;
  name = name;
  ips = [];
  outbound = [];
  security = runes "reality";
  network = [];
  flow = [];
  sni = [];
  fingerprint = [];
  public_key = [];
  short_id = [];
  alpn = [];
  subscription = [];
}

abbrev pub riga : Server
riga = listed (runes "Riga") (runes "1.1.1.1") (runes "a")

abbrev pub oslo : Server
oslo = listed (runes "Oslo") (runes "1.1.1.2") (runes "b")

abbrev pub oslo_twin : Server
oslo_twin = listed (runes "Oslo") (runes "1.1.1.2") (runes "c")

abbrev east : Subscription
east = record {
  id = runes "e";
  name = runes "East";
  url = [];
  added = 0;
  refreshed = 0;
  error = [];
  servers = riga ∷ [];
}

abbrev north : Subscription
north = record east { id = runes "n"; name = runes "North"; servers = oslo ∷ oslo_twin ∷ riga ∷ [] }

abbrev subs : List Subscription
subs = east ∷ north ∷ []

abbrev pub in_north : Server → Server
in_north s = record s { subscription = runes "n" }

-- the record of the twin in the second subscription
abbrev pub chosen : ActiveServer
chosen = record {
  name = runes "Oslo";
  address = runes "1.1.1.2";
  port = 443;
  subscription = runes "n";
  seq = 4;
  identity = runes "c";
  group = runes "reality";
}

order_of_walk : walk_order kinds subs (some chosen) ≡ (
  in_north oslo_twin
      ∷ in_north oslo
      ∷ in_north riga
      ∷ record riga { subscription = runes "e" }
      ∷ [],
  true,
)
unfolding walk_order order_from own_index queues_of pass turns enough_turns pick_order move_to_front
    chosen_index chosen_loop rank same_server same_choice tag_servers text_eq
order_of_walk = refl

walk_order-perm_example : Perm (walk_order kinds subs (some chosen)).0 (all_servers subs)
walk_order-perm_example = walk_order-perm kinds subs (some chosen)

abbrev north_servers : List Server
north_servers = in_north oslo ∷ in_north oslo_twin ∷ in_north riga ∷ []

picked_oslo : same_choice kinds chosen (in_north oslo) ≡ true
unfolding same_choice text_eq
picked_oslo = refl

chosen_named : text_eq chosen.name [] ≡ false
unfolding text_eq
chosen_named = refl

chosen_placed : text_eq chosen.subscription [] ≡ false
unfolding text_eq
chosen_placed = refl

chosen_index-best_example :
    (i : ℕ) × (s : Server) × (chosen_index kinds north_servers (some chosen) ≡ some i)
    × (get_elem? north_servers i ≡ some s)
    × (same_choice kinds chosen s ≡ true)
    × (rank kinds chosen s ≤ rank kinds chosen (in_north oslo))
    × ((i ≤ 0) ⊎ (rank kinds chosen s < rank kinds chosen (in_north oslo)))
chosen_index-best_example =
    chosen_index-best kinds chosen north_servers 0 (in_north oslo) chosen_named refl picked_oslo

find_north : find_subscription subs chosen.subscription ≡ some 1
unfolding find_subscription text_eq
find_north = refl

classify_active-described_example :
    classify_active kinds subs (some chosen)
    ≡ described kinds chosen
        (first_of (stands kinds chosen) (tag_servers north.id north.servers))
        (first_of (in_place kinds chosen) (tag_servers north.id north.servers))
        (keep_if (elsewhere kinds chosen) (tag_servers north.id north.servers))
classify_active-described_example =
    classify_active-described kinds subs chosen 1 north chosen_placed chosen_named find_north refl

twin_listed : get_elem? (tag_servers north.id north.servers) 1 ≡ some (in_north oslo_twin)
unfolding tag_servers
twin_listed = refl

oslo_named : text_eq (runes "Oslo") [] ≡ false
unfolding text_eq
oslo_named = refl

-- new keys behind the recorded name and address
changed_keys :
    (classify_active kinds subs (some (record chosen { identity = runes "z" }))).0 ≡ changed
unfolding classify_active classify_loop placeless at_place sole carries_mark find_subscription
    same_choice tag_servers text_eq
changed_keys = refl

abbrev walking_router : Config
walking_router = record router { xray = record router.xray { active_server = some chosen } }

chosen_kept : choice walking_router ≡ some chosen
unfolding choice
chosen_kept = refl

choice-record_walk_example :
    (b : ActiveServer) × (choice (record_walk kinds walking_router (riga ∷ in_north oslo ∷ []))
      ≡ some b)
    × (same_choice_record chosen b ≡ true)
choice-record_walk_example =
    choice-record_walk kinds walking_router chosen (riga ∷ in_north oslo ∷ []) chosen_kept
