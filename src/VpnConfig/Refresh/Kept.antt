-- ===== src/VpnConfig/Refresh/Kept.antt =====
-- The endpoints of a merged list.
use vpn_director.Prelude.{
  ℕ, zero, suc, ◌+◌, ◌≤◌, Bool, true, ◌≡◌, refl, inl, inr, ◌&&◌, not, Option, none, some,
  Option-cases, List, [], ◌∷◌, ◌++◌, ◌==◌, text_eq, text_eq_refl, get_elem?, any, all, all-append,
  arith,
}
use vpn_director.VpnConfig.Servers.{Server}
use vpn_director.VpnConfig.Pairs.{Identities, pair_servers}
use vpn_director.VpnConfig.Refresh.{
  RefreshMerge, one_if, readdresses, merged_server, merge_loop, merge_refresh,
}

-- the same outbound at the same place
unfoldable pub same_endpoint : Server → Server → Bool
same_endpoint s t =
    text_eq t.outbound s.outbound
    && text_eq t.uuid s.uuid
    && text_eq t.address s.address
    && t.port == s.port

-- the endpoint of a stored server
unfoldable pub is_stored : List Server → Server → Bool
is_stored stored s = any (same_endpoint s) stored

merged_server-stored :
    (stored : List Server) (i : ℕ) (l s : Server)
    → get_elem? stored i ≡ some s
    → is_stored stored (merged_server l s) ≡ true
unfolding is_stored any same_endpoint merged_server
merged_server-stored [] i l s e = cc
merged_server-stored (t ∷ stored) zero l s e =
    ground (arith, text_eq_refl t.outbound, text_eq_refl t.uuid, text_eq_refl t.address)
merged_server-stored (t ∷ stored) (suc i) l s e =
    ground (arith, merged_server-stored stored i l s e)

added-merge_loop :
    (stored listed : List Server) (pairs : List (Option ℕ)) (m : RefreshMerge)
    → m.added ≤ (merge_loop stored listed pairs m).added
unfolding merge_loop
added-merge_loop stored [] pairs m = omega arith
added-merge_loop stored (l ∷ listed) [] m = omega arith
added-merge_loop stored (l ∷ listed) (none ∷ pairs) m = ground (
  arith,
  added-merge_loop stored listed pairs m,
  added-merge_loop stored listed pairs
      (record m { servers = m.servers ++ l ∷ []; added = m.added + 1 }),
)
added-merge_loop stored (l ∷ listed) (some i ∷ pairs) m = elim (Option-cases (get_elem? stored i)) [
  | inl e ↦ ground (arith, added-merge_loop stored listed pairs m)
  | inr (s, e) ↦ ground (
    arith,
    added-merge_loop stored listed pairs (record m {
      servers = m.servers ++ merged_server l s ∷ [];
      renamed = m.renamed + one_if (not (text_eq l.name s.name));
      readdressed = m.readdressed + one_if (readdresses l s);
    }),
  )
]

merge_loop-kept :
    (stored listed : List Server) (pairs : List (Option ℕ)) (m : RefreshMerge)
    → (merge_loop stored listed pairs m).added ≡ 0
    → all (is_stored stored) m.servers ≡ true
    → all (is_stored stored) (merge_loop stored listed pairs m).servers ≡ true
unfolding merge_loop
merge_loop-kept stored [] pairs m e h = h
merge_loop-kept stored (l ∷ listed) [] m e h = h
merge_loop-kept stored (l ∷ listed) (none ∷ pairs) m e h = ground (
  arith,
  merge_loop-kept stored listed pairs m,
  added-merge_loop stored listed pairs
      (record m { servers = m.servers ++ l ∷ []; added = m.added + 1 }),
)
merge_loop-kept stored (l ∷ listed) (some i ∷ pairs) m e h =
    elim (Option-cases (get_elem? stored i)) [
      | inl f ↦ ground (arith, merge_loop-kept stored listed pairs m)
      | inr (s, f) ↦
          let next : RefreshMerge = record m {
            servers = m.servers ++ merged_server l s ∷ [];
            renamed = m.renamed + one_if (not (text_eq l.name s.name));
            readdressed = m.readdressed + one_if (readdresses l s);
          } in
          ground (arith, merge_loop-kept stored listed pairs next, grown l s f)
    ]
  where
    grown :
        (l s : Server)
        → get_elem? stored i ≡ some s
        → all (is_stored stored) (m.servers ++ merged_server l s ∷ []) ≡ true
    grown l s f =
        unfold all in
        ground (
          arith,
          all-append (is_stored stored) m.servers (merged_server l s ∷ []),
          merged_server-stored stored i l s f,
        )

-- A merge that adds no server keeps the endpoints: each server of it has the outbound, the user id,
-- the address and the port of a stored one.
pub merge_refresh-kept :
    (ids : Identities) (stored listed : List Server)
    → (merge_refresh ids stored listed).added ≡ 0
    → all (is_stored stored) (merge_refresh ids stored listed).servers ≡ true
unfolding merge_refresh
merge_refresh-kept ids stored listed e =
    merge_loop-kept stored listed (pair_servers ids stored listed)
      (record {
        servers = [];
        added = 0;
        removed = 0;
        renamed = 0;
        readdressed = 0;
        pairs = pair_servers ids stored listed;
      })
      e (unfold all in refl)
