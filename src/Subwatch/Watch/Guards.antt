-- ===== src/Subwatch/Watch/Guards.antt =====
-- The guards of the watch's writes, in server/internal/subwatch: `superseded` and `probedServer` of
-- watch.go, and `pendingRestoreGuard` of recovery.go. A record of active_server that another
-- process wrote refuses a write that rests on an older one.
use vpn_director.Prelude.{
  ℕ, zero, suc, ◌+◌, ◌/◌, ◌%◌, Text, Bool, true, false, ◌&&◌, ◌||◌, not, Option, none, some, [],
  ◌∷◌, ◌++◌, if◌then◌else◌, ◌==◌, ltb, text_eq,
}
use vpn_director.VpnConfig.Config.{Config, ActiveServer, XrayPendingRestore}
use vpn_director.VpnConfig.Servers.{active_seq}
use vpn_director.Subwatch.Watch.{WatchError, superseded}

abbrev pub unit_separator : ℕ
unit_separator = 31

-- `strconv.Itoa` of a number of at most as many digits as there is fuel
unfoldable pub itoa_loop : ℕ → ℕ → Text → Text
itoa_loop zero n digits = digits
itoa_loop (suc fuel) n digits =
    let rest = itoa_loop fuel (n / 10) ((n % 10 + b'0') ∷ digits) in
    if ltb n 10 then (n + b'0') ∷ digits else rest

-- twenty digits hold every number of 64 bits
unfoldable pub itoa : ℕ → Text
unfolding itoa_loop
itoa n = itoa_loop 20 n []

unfoldable pub id_of : ActiveServer → Text
id_of a =
    if text_eq a.address [] && a.port == 0
    then a.subscription ++ (unit_separator ∷ a.name)
    else a.subscription
      ++ (unit_separator ∷ a.name ++ (unit_separator ∷ a.address ++ (unit_separator ∷ itoa a.port)))

-- `activeID`
unfoldable pub active_id : Option ActiveServer → Text
active_id none = []
active_id (some a) = id_of a

unfoldable pub record_mark : Option ActiveServer → Text
record_mark none = []
record_mark (some a) = a.group ++ (unit_separator ∷ a.identity)

-- a record with neither address nor port
unfoldable pub is_bare : Option ActiveServer → Bool
is_bare none = false
is_bare (some a) = text_eq a.address [] && a.port == 0

-- `superseded`
unfoldable pub is_superseded : Text → Text → ℕ → Config → Bool
is_superseded started last_recorded expected_seq cfg =
    let current = active_id cfg.xray.active_server in
    if not (active_seq cfg.xray.active_server == expected_seq)
    then true
    else if text_eq last_recorded []
    then not (text_eq current []) && not (text_eq current started)
    else if text_eq current [] || text_eq current last_recorded
    then false
    else not (is_bare cfg.xray.active_server)

-- `probedServer`, of the configuration that the tick read
unfoldable pub probed_server : Config → Config → Option WatchError
probed_server cfg current =
    if is_superseded (active_id cfg.xray.active_server) [] (active_seq cfg.xray.active_server)
      current
    then some superseded
    else none

unfoldable pub active_eq : ActiveServer → ActiveServer → Bool
active_eq a b =
    text_eq a.name b.name
    && text_eq a.address b.address
    && a.port == b.port
    && text_eq a.subscription b.subscription
    && a.seq == b.seq
    && text_eq a.identity b.identity
    && text_eq a.group b.group

unfoldable pub same_restore_active : Option ActiveServer → Option ActiveServer → Bool
same_restore_active none none = true
same_restore_active (some a) (some b) = active_eq a b
same_restore_active _ _ = false

unfoldable pub is_pending : Config → XrayPendingRestore → XrayPendingRestore → Bool
is_pending cfg expected pending =
    same_restore_active cfg.xray.active_server expected.active
    && same_restore_active pending.active expected.active

-- `pendingRestoreGuard`
unfoldable pub pending_restore_guard : Config → Option XrayPendingRestore → Option WatchError
pending_restore_guard cfg none = some superseded
pending_restore_guard cfg (some expected) = elim cfg.xray.pending_restore [
  | none ↦ some superseded
  | some pending ↦ elim cfg.xray.failover [
    | some fo ↦ some superseded
    | none ↦ if is_pending cfg expected pending then none else some superseded
  ]
]
