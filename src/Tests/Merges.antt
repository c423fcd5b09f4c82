-- ===== src/Tests/Merges.antt =====
-- A merge of a downloaded list with the stored one.
use vpn_director.Prelude.{true, runes, text_eq, ◌≡◌, refl, List, [], ◌∷◌, all}
use vpn_director.VpnConfig.Servers.{Server}
use vpn_director.VpnConfig.Pairs.{has_index, first_unpaired, strict_pass, loose_pass, pair_servers}
use vpn_director.VpnConfig.Refresh.{is_empty, readdresses, merged_server, merge_loop, merge_refresh}
use vpn_director.VpnConfig.Refresh.Kept.{is_stored, merge_refresh-kept}
use vpn_director.Tests.Walk.{riga, oslo}
use vpn_director.Tests.Operations.{identities}

-- the listed server has another name and the identity of the first stored one
abbrev renamed_riga : Server
renamed_riga = record riga { name = runes "Riga 2"; outbound = runes "new" }

abbrev merged : List Server
merged = (merge_refresh identities (riga ∷ oslo ∷ []) (renamed_riga ∷ [])).servers

merge_renames : merged ≡ record riga { name = runes "Riga 2" } ∷ []
unfolding merge_refresh merge_loop merged_server readdresses pair_servers strict_pass first_unpaired
    has_index loose_pass is_empty text_eq
merge_renames = refl

nothing_added : (merge_refresh identities (riga ∷ oslo ∷ []) (renamed_riga ∷ [])).added ≡ 0
unfolding merge_refresh merge_loop pair_servers strict_pass first_unpaired has_index loose_pass
    text_eq
nothing_added = refl

merge_refresh-kept_example : all (is_stored (riga ∷ oslo ∷ [])) merged ≡ true
merge_refresh-kept_example =
    merge_refresh-kept identities (riga ∷ oslo ∷ []) (renamed_riga ∷ []) nothing_added
