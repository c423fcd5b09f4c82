-- ===== src/Tests/Clients.antt =====
-- A user's move of one client of the sample router.
use vpn_director.Prelude.{
  runes, keep_if, any, none, true, false, ◌≡◌, refl, contains, text_eq, [], ◌∷◌, sort_texts,
}
use vpn_director.VpnConfig.Address.{run_addresses, same_addr}
use vpn_director.VpnConfig.Config.{
  Config, is_paused, get_tunnel, put_tunnel, clients_of, client_infos, tunnel_infos,
  collect_clients,
}
use vpn_director.VpnConfig.Failover.{append_new, append_all_new, snapshot_on_tunnel, still_on}
use vpn_director.VpnConfig.Moves.{
  detach_record, detach_failover_client, restore_xray_clients_from_failover, stage_loop,
  record_stage, stage_on, stage_xray_clients_to_tunnel, commit_xray_failover,
  move_xray_clients_to_tunnel, restore_drop, restore_tunnels,
}
use vpn_director.VpnConfig.Clients.{
  MoveResult, client_moved, client_already_there, client_routes, route_loop, was_paused,
  tunnel_or_zero, take_off_route, take_off_routes, tunnel_or_new, put_on_route, repause, relocate,
  move_from, move_client,
}
use vpn_director.VpnConfig.Clients.Choice.{IsMoved, move_client-IsMoved, restore-move_client}
use vpn_director.VpnConfig.Clients.Others.{IsLeft, move_client-IsLeft}
use vpn_director.Tests.Sample.{phone, laptop, camera, wg, ovpn, router, staged_router}

run_clients : Unit {0}
unfolding move_client move_from relocate repause put_on_route tunnel_or_new take_off_routes
    take_off_route tunnel_or_zero was_paused client_routes route_loop append_new collect_clients
    tunnel_infos client_infos clients_of get_tunnel put_tunnel is_paused contains sort_texts
    detach_failover_client detach_record run_addresses
run_clients = tt

run_moves : Unit {0}
unfolding move_xray_clients_to_tunnel stage_xray_clients_to_tunnel stage_on stage_loop record_stage
    commit_xray_failover snapshot_on_tunnel still_on restore_xray_clients_from_failover
    restore_tunnels restore_drop append_all_new keep_if any
run_moves = tt

routes_of_staged : client_routes staged_router (runes "192.168.1.10/32") ≡ runes "xray" ∷ wg ∷ []
unfolding run_clients
routes_of_staged = refl

moved : (move_client staged_router (runes "192.168.1.10/32") ovpn).1 ≡ client_moved
unfolding run_clients
moved = refl

pause_follows : was_paused (move_client router laptop ovpn).0 laptop ≡ true
unfolding run_clients
pause_follows = refl

no_xray_tunnel : get_tunnel staged_router.tunnels (runes "xray") ≡ none
unfolding get_tunnel text_eq
no_xray_tunnel = refl

move_client-IsMoved_example :
    IsMoved staged_router phone ovpn (move_client staged_router phone ovpn)
move_client-IsMoved_example = move_client-IsMoved staged_router phone ovpn no_xray_tunnel

restore-move_client_example :
    client_routes
      (restore_xray_clients_from_failover
        (move_client staged_router (runes "192.168.1.10/32") ovpn).0).0
      (runes "192.168.1.10/32")
    ≡ ovpn ∷ []
restore-move_client_example =
    restore-move_client staged_router (runes "192.168.1.10/32") ovpn no_xray_tunnel moved

-- the choice of the tunnel that the failover has already moved the client to
abbrev at_home : Config × MoveResult
at_home = move_client (move_xray_clients_to_tunnel router wg) phone wg

stays_recorded : at_home.1 ≡ client_already_there
unfolding run_clients run_moves
stays_recorded = refl

-- which a restore does not keep
taken_back :
    client_routes (restore_xray_clients_from_failover at_home.0).0 phone ≡ runes "xray" ∷ []
unfolding run_clients run_moves
taken_back = refl

others : same_addr camera phone ≡ false
unfolding run_addresses
others = refl

move_client-IsLeft_example : IsLeft staged_router (move_client staged_router phone ovpn).0 camera
move_client-IsLeft_example = move_client-IsLeft staged_router phone ovpn camera others
