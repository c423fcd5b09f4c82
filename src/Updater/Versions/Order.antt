-- ===== src/Updater/Versions/Order.antt =====
-- `IsOlderThan` as an order of the three numbers.
use vpn_director.Prelude.{true, false, ◌≡◌, ◌⊎◌, arith}
use vpn_director.Updater.Versions.{Version, compare_versions, is_less, is_older_than}

-- Of three versions in a row the last is newer than the first, and no version is older than itself.
pub is_older_than_trans :
    (u v w : Version)
    → is_older_than u v ≡ true
    → is_older_than v w ≡ true
    → (is_older_than u w ≡ true) × (is_older_than w u ≡ false)
unfolding is_older_than compare_versions is_less
is_older_than_trans u v w p q = ground arith

-- Of two versions exactly one is older, or the numbers are the same.
pub is_older_than-total :
    (v w : Version)
    → ((is_older_than v w ≡ true) × (is_older_than w v ≡ false))
      ⊎ ((is_older_than v w ≡ false) × (is_older_than w v ≡ true))
      ⊎ ((v.major ≡ w.major)
          × (v.minor ≡ w.minor)
          × (v.patch ≡ w.patch)
          × (is_older_than v w ≡ false)
          × (is_older_than w v ≡ false))
unfolding is_older_than compare_versions is_less
is_older_than-total v w = ground arith
