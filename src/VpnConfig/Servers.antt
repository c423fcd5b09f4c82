-- ===== src/VpnConfig/Servers.antt =====
-- Servers and the records that name one: `Server`, `SameChoice`, `RecordedIndex`,
-- `RecordActiveServer` and `RecordWalkedServer` of server/internal/vpnconfig/vpnconfig.go, and the
-- subscriptions of server/internal/vpnconfig/substore.go as lists.
pub mod Ips
pub mod Walked
use vpn_director.Prelude.{
  ℕ, suc, ◌+◌, Text, Bool, true, false, ◌&&◌, ◌||◌, not, Option, none, some, List, [], ◌∷◌, ◌++◌,
  map, if◌then◌else◌, ◌==◌, text_eq, contains, keep_if, sort_texts,
}
use vpn_director.VpnConfig.Config.{Config, ActiveServer, XrayConfig}

-- The outbound is the stored JSON text; an absent one is empty. The other fields are those of
-- records from before outbounds were stored.
pub record Server : Type 0 where
  pub address : Text
  pub port : ℕ
  pub uuid : Text
  pub name : Text
  pub ips : List Text
  pub outbound : Text
  pub security : Text
  pub network : Text
  pub flow : Text
  pub sni : Text
  pub fingerprint : Text
  pub public_key : Text
  pub short_id : Text
  pub alpn : List Text
  pub subscription : Text

-- `Server.Group` and `IdentityMark`: what the decoded outbound and its hash say of a server. The
-- decisions below use nothing of them but that they are functions of the server.
pub record Kinds : Type 0 where
  pub group : Server → Text
  pub identity_mark : Server → Text

pub record Subscription : Type 0 where
  pub id : Text
  pub name : Text
  pub url : Text
  pub added : ℕ
  pub refreshed : ℕ
  pub error : Text
  pub servers : List Server

-- `s.Subscription = sub.ID` for each server of a list
unfoldable pub tag_servers : Text → List Server → List Server
tag_servers id [] = []
tag_servers id (s ∷ ss) = record s { subscription = id } ∷ tag_servers id ss

unfoldable pub all_servers : List Subscription → List Server
all_servers [] = []
all_servers (sub ∷ subs) = tag_servers sub.id sub.servers ++ all_servers subs

-- the index of the subscription with the id; `none` is -1
unfoldable pub find_subscription : List Subscription → Text → Option ℕ
find_subscription [] id = none
find_subscription (s ∷ subs) id =
    let rest = find_subscription subs id in
    if text_eq s.id id then some 0 else elim rest [ none ↦ none | some i ↦ some (suc i) ]

-- `ServerIPs`: the loop, with the addresses seen so far
unfoldable pub ips_loop : List Text → List Text → List Text
ips_loop [] seen = seen
ips_loop (ip ∷ ips) seen =
    ips_loop ips (if text_eq ip [] || contains seen ip then seen else seen ++ ip ∷ [])

unfoldable pub server_ips_loop : List Server → List Text → List Text
server_ips_loop [] seen = seen
server_ips_loop (s ∷ ss) seen = server_ips_loop ss (ips_loop s.ips seen)

unfoldable pub server_ips : List Server → List Text
server_ips servers = sort_texts (server_ips_loop servers [])

unfoldable pub subscription_ips : List Subscription → List Text
subscription_ips subs = server_ips (all_servers subs)

unfoldable pub active_seq : Option ActiveServer → ℕ
active_seq none = 0
active_seq (some a) = a.seq

unfoldable pub same_choice_record : ActiveServer → ActiveServer → Bool
same_choice_record a b =
    text_eq a.subscription b.subscription
    && text_eq a.name b.name
    && (text_eq a.group [] || text_eq b.group a.group)

module _ (kinds : Kinds) where
  unfoldable pub same_choice : ActiveServer → Server → Bool
  same_choice a s =
      text_eq a.subscription s.subscription
      && text_eq a.name s.name
      && (text_eq a.group [] || text_eq (kinds.group s) a.group)

  -- the entries that `RecordedIndex` looks at
  unfoldable pub is_recorded : ActiveServer → Server → Bool
  is_recorded a s =
      text_eq s.name a.name
      && text_eq s.address a.address
      && s.port == a.port
      && (text_eq a.group [] || text_eq (kinds.group s) a.group)

  unfoldable pub recorded_loop : ActiveServer → List Server → ℕ → Option ℕ → Option ℕ
  recorded_loop a [] i first = first
  recorded_loop a (s ∷ ss) i first =
      let skip = recorded_loop a ss (suc i) first in
      let keep = recorded_loop a ss (suc i) (elim first [ none ↦ some i | some f ↦ some f ]) in
      if not (is_recorded a s)
      then skip
      else if text_eq a.identity [] || text_eq (kinds.identity_mark s) a.identity
      then some i
      else keep

  -- `RecordedIndex`; `none` is -1
  unfoldable pub recorded_index : Option ActiveServer → List Server → Option ℕ
  recorded_index none servers = none
  recorded_index (some a) servers = recorded_loop a servers 0 none

  unfoldable pub new_active_server : Server → ActiveServer
  new_active_server s = record {
    name = s.name;
    address = s.address;
    port = s.port;
    subscription = s.subscription;
    seq = 0;
    identity = kinds.identity_mark s;
    group = kinds.group s;
  }

  unfoldable pub record_active_server : Option ActiveServer → Server → ActiveServer
  record_active_server prev s = record (new_active_server s) { seq = active_seq prev + 1 }

  -- what the walk keeps as the user's choice
  unfoldable pub walked_preference :
      Option ActiveServer → Option ActiveServer → Server → Option ActiveServer
  walked_preference (some p) active s = if same_choice p s then none else some p
  walked_preference none (some a) s = if same_choice a s then none else some (record a { seq = 0 })
  walked_preference none none s = none

  unfoldable pub record_walked_server : Config → Server → Config
  record_walked_server cfg s = record cfg {
    xray = record cfg.xray {
      preferred_server = walked_preference cfg.xray.preferred_server cfg.xray.active_server s;
      active_server = some (record_active_server cfg.xray.active_server s);
    };
  }
