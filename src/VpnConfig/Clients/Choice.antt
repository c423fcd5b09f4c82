-- ===== src/VpnConfig/Clients/Choice.antt =====
-- What a user's `MoveClient` means for the address, for every other address, and for a failover
-- restore that runs after it.
use vpn_director.Prelude.{
  Text, ◌&&◌, ◌||◌, ◌≢◌, true, false, ◌≡◌, ◌⊎◌, refl, ◌∙◌, ap, ap₂, sym, List, [], ◌∷◌, arith,
  text_eq, text_eq_iff, contains, any-ext, Bool-cases, inl, inr, none,
}
use vpn_director.VpnConfig.Address.{same_addr}
use vpn_director.VpnConfig.Config.{Config, get_tunnel, xray_route}
use vpn_director.VpnConfig.Moves.{detach_failover_client, restore_xray_clients_from_failover}
use vpn_director.VpnConfig.Moves.Detach.{restore-detach}
use vpn_director.VpnConfig.Moves.Safety.{on_tunnel}
use vpn_director.VpnConfig.Clients.{
  client_routes, relocate, move_from, move_client, MoveResult, client_moved, client_already_there,
  client_not_found,
}
use vpn_director.VpnConfig.Clients.Routes.{
  holds, singleton_of, distinct-client_routes, contains-client_routes,
}
use vpn_director.VpnConfig.Clients.Move.{routes-relocate}

-- The three outcomes, of which exactly one holds: the address is on no route, on the target route
-- alone, or else it is there alone afterwards.
abbrev pub IsMoved : Config → Text → Text → Config × MoveResult → Type 0
IsMoved cfg addr route result =
    ((client_routes cfg addr ≡ []) × (result ≡ (cfg, client_not_found)))
    ⊎ ((client_routes cfg addr ≡ route ∷ []) × (result ≡ (cfg, client_already_there)))
    ⊎ ((client_routes cfg addr ≢ [])
        × (client_routes cfg addr ≢ route ∷ [])
        × (result.1 ≡ client_moved)
        × (client_routes result.0 addr ≡ route ∷ []))

another : (r route : Text) → text_eq r route ≡ false → ¬ (r ∷ [] ≡ route ∷ [])
another r route other =
    λ h. let s : r ≡ route = cc in let k : text_eq r route ≡ true = (text_eq_iff r route).1 s in cc

move_from-IsMoved :
    (cfg : Config) (addr route : Text) (on : List Text)
    → client_routes cfg addr ≡ on
    → client_routes (relocate cfg addr route on) addr ≡ route ∷ []
    → IsMoved cfg addr route (move_from cfg addr route on)
unfolding move_from
move_from-IsMoved cfg addr route [] e k = inl (e, refl)
move_from-IsMoved cfg addr route (r ∷ []) e k = elim (Bool-cases (text_eq r route)) [
  | inl same ↦ rw same (inr (inl (e ∙ ap (λ t. t ∷ []) ((text_eq_iff r route).0 same), refl)))
  | inr other ↦ rw other (
      inr (
        inr (
          λ n. absurd (let h : r ∷ [] ≡ [] = sym e ∙ n in cc),
          λ n. absurd (let h : r ∷ [] ≡ route ∷ [] = sym e ∙ n in another r route other h),
          refl,
          k,
        )))
]
move_from-IsMoved cfg addr route (r ∷ q ∷ rs) e k = inr (
    inr (
      λ n. absurd (let h : r ∷ q ∷ rs ≡ [] = sym e ∙ n in cc),
      λ n. absurd (let h : r ∷ q ∷ rs ≡ route ∷ [] = sym e ∙ n in cc),
      refl,
      k,
    ))

-- While no tunnel is named "xray": an address on no route is not found and nothing changes; one on
-- the target route alone is already there and nothing changes; any other is moved, and the target
-- route is the only route that holds it in any spelling.
pub move_client-IsMoved :
    (cfg : Config) (addr route : Text)
    → get_tunnel cfg.tunnels xray_route ≡ none
    → IsMoved cfg addr route (move_client cfg addr route)
unfolding move_client
move_client-IsMoved cfg addr route free =
    move_from-IsMoved cfg addr route (client_routes cfg addr) refl
      (routes-relocate cfg addr route free)

-- A restore after the detach finds every spelling of the address where it was.
contains-restore-detach :
    (cfg : Config) (addr r : Text)
    → contains
        (client_routes
          (restore_xray_clients_from_failover (detach_failover_client cfg addr)).0
          addr)
        r
      ≡ contains (client_routes (detach_failover_client cfg addr) addr) r
unfolding holds detach_failover_client
contains-restore-detach cfg addr r =
    contains-client_routes _ addr r
    ∙ ap₂ (λ x t. (text_eq xray_route r && x) || t)
        (any-ext (λ ip. same_addr ip addr) _ cfg.xray.clients
          (λ s d. (restore-detach cfg addr s d).0))
        (any-ext (λ ip. same_addr ip addr) _ (on_tunnel cfg r)
          (λ s d. (restore-detach cfg addr s d).1 r))
    ∙ sym (contains-client_routes (detach_failover_client cfg addr) addr r)

contains_one : (route r : Text) → contains (route ∷ []) r ≡ text_eq route r
unfolding contains
contains_one route r = ground arith

restore-relocate :
    (cfg : Config) (addr route : Text) (on : List Text)
    → client_routes (relocate cfg addr route on) addr ≡ route ∷ []
    → client_routes (restore_xray_clients_from_failover (relocate cfg addr route on)).0 addr
      ≡ route ∷ []
unfolding relocate
restore-relocate cfg addr route on k =
    singleton_of _ route (distinct-client_routes _ addr)
      (λ r. contains-restore-detach _ addr r ∙ ap (λ l. contains l r) k ∙ contains_one route r)

restore-move_from :
    (cfg : Config) (addr route : Text) (on : List Text)
    → client_routes (relocate cfg addr route on) addr ≡ route ∷ []
    → (move_from cfg addr route on).1 ≡ client_moved
    → client_routes (restore_xray_clients_from_failover (move_from cfg addr route on).0).0 addr
      ≡ route ∷ []
unfolding move_from
restore-move_from cfg addr route [] k m = cc
restore-move_from cfg addr route (r ∷ []) k m = elim (Bool-cases (text_eq r route)) [
  | inl same ↦ absurd (ground arith)
  | inr other ↦ rw other (restore-relocate cfg addr route (r ∷ []) k)
]
restore-move_from cfg addr route (r ∷ q ∷ rs) k m = restore-relocate cfg addr route (r ∷ q ∷ rs) k

-- While no tunnel is named "xray": a failover restore that runs after a MoveClient that has moved the
-- address leaves it on the route that the user chose, and there alone. Of a MoveClient that finds the
-- address already there, nothing is said.
pub restore-move_client :
    (cfg : Config) (addr route : Text)
    → get_tunnel cfg.tunnels xray_route ≡ none
    → (move_client cfg addr route).1 ≡ client_moved
    → client_routes (restore_xray_clients_from_failover (move_client cfg addr route).0).0 addr
      ≡ route ∷ []
unfolding move_client
restore-move_client cfg addr route free m =
    restore-move_from cfg addr route (client_routes cfg addr) (routes-relocate cfg addr route free)
      m
