-- ===== src/Notifications/History/Unique.antt =====
-- The ids that the store gives out over crashes and failed writes.
use mathlib.Core.Path.{subst}
use vpn_director.Prelude.{ℕ, ◌≤◌, Text, true, List, ◌≡◌, sym, refl, arith}
use vpn_director.Notifications.Events.{EventId, max_uint64}
use vpn_director.Notifications.State.{Recipient, prune, defer, ack_event}
use vpn_director.Notifications.Recipients.{replace_recipients}
use vpn_director.Notifications.History.{
  System, Step, publish, wait, ack, replace, begin, written, unwritten, restart, Reach, here, next,
  first_start,
}
use vpn_director.Notifications.History.Leases.{
  distinct_ids, IsSound, quiet-IsSound, publish-IsSound, begin-IsSound, written-IsSound,
  unwritten-IsSound,
}
use vpn_director.Notifications.History.Starts.{load-IsSound, first_start-IsSound}

defer-IsSound :
    (y : System) (text : Text) (at : ℕ)
    → IsSound y
    → IsSound (record y { store = defer text at y.store })
unfolding defer
defer-IsSound y text at v = quiet-IsSound y (defer text at y.store) refl refl refl v

ack-IsSound :
    (y : System) (at chat : ℕ) (id : EventId)
    → IsSound y
    → IsSound (record y { store = ack_event at chat id y.store })
unfolding ack_event prune
ack-IsSound y at chat id v = quiet-IsSound y (ack_event at chat id y.store) refl refl refl v

replace-IsSound :
    (y : System) (at : ℕ) (recipients : List Recipient)
    → IsSound y
    → IsSound (record y { store = replace_recipients at recipients y.store })
unfolding replace_recipients prune
replace-IsSound y at recipients v =
    quiet-IsSound y (replace_recipients at recipients y.store) refl refl refl v

Step-IsSound : (y z : System) → Step y z → IsSound y → IsSound z
Step-IsSound y z (publish text at top h e) v = subst IsSound (sym e) (publish-IsSound y text at h v)
Step-IsSound y z (wait text at e) v = subst IsSound (sym e) (defer-IsSound y text at v)
Step-IsSound y z (ack at chat id e) v = subst IsSound (sym e) (ack-IsSound y at chat id v)
Step-IsSound y z (replace at recipients e) v =
    subst IsSound (sym e) (replace-IsSound y at recipients v)
Step-IsSound y z (begin at reserve free e) v = subst IsSound (sym e) (begin-IsSound y at reserve v)
Step-IsSound y z (written failure state revision f e) v =
    subst IsSound (sym e) (written-IsSound y failure state revision f v)
Step-IsSound y z (unwritten failure state revision f e) v =
    subst IsSound (sym e) (unwritten-IsSound y failure state revision v)
Step-IsSound y z (restart epoch at new e) v = subst IsSound (sym e) (load-IsSound y epoch at new v)

pub Reach-IsSound : (y z : System) → Reach y z → IsSound y → IsSound z
Reach-IsSound y z here v = v
Reach-IsSound y z (next {z = w} r st) v = Step-IsSound w z st (Reach-IsSound y w r v)

-- Whatever the order of publications, acknowledgements, saves that succeed or fail, and crashes, no
-- event id is given out twice, and no sequence passes the largest 64-bit number.
pub Reach-distinct_ids :
    (epoch : Text) (z : System)
    → Reach (first_start epoch) z
    → (distinct_ids z.issued ≡ true) × (z.store.sequence ≤ max_uint64)
Reach-distinct_ids epoch z r =
    let v = Reach-IsSound (first_start epoch) z r (first_start-IsSound epoch) in
    (v.distinct, omega (arith, v.leased, v.bounded))
