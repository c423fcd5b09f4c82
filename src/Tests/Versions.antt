-- ===== src/Tests/Versions.antt =====
-- Versions of releases.
use vpn_director.Prelude.{Text, true, runes, text_eq, any, ◌≡◌, refl, some, none, [], ℕ}
use vpn_director.VpnConfig.Address.{run_addresses}
use vpn_director.Updater.Versions.{
  Version, parse_version, read_version, read_part, read_number, read_digits, read_dot, drop_v,
  at_end, is_digit, is_valid_version, is_older_than, compare_versions, is_less,
}
use vpn_director.Updater.Versions.Safe.{is_valid-parse}

abbrev release : ℕ → ℕ → Version
release minor patch = record { major = 1; minor = minor; patch = patch; raw = [] }

abbrev written : Text
written = runes "v1.12.3"

abbrev parsed : Version
parsed = record (release 12 3) { raw = written }

parse_release : parse_version 2147483647 written ≡ some parsed
unfolding parse_version read_version read_part read_number read_digits read_dot drop_v at_end
    is_digit any text_eq run_addresses
parse_release = refl

parse_candidate : parse_version 2147483647 (runes "v1.2.3-rc1") ≡ none
unfolding parse_version any text_eq run_addresses
parse_candidate = refl

is_valid-parse_example : (is_valid_version written ≡ true) × (parsed.raw ≡ written)
is_valid-parse_example = is_valid-parse 2147483647 written parsed parse_release refl

older_minor : is_older_than (release 9 5) (release 10 0) ≡ true
unfolding is_older_than compare_versions is_less
older_minor = refl

older_patch : is_older_than (release 10 0) (release 10 1) ≡ true
unfolding is_older_than compare_versions is_less
older_patch = refl
