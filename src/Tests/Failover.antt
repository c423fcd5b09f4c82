-- ===== src/Tests/Failover.antt =====
-- A failover of the sample router.
use vpn_director.Prelude.{true, ◌≡◌, ◌⊎◌, refl, contains, text_eq}
use vpn_director.VpnConfig.Address.{run_addresses}
use vpn_director.VpnConfig.Config.{is_paused, get_tunnel, put_tunnel}
use vpn_director.VpnConfig.Failover.{append_new}
use vpn_director.VpnConfig.Moves.{
  stage_loop, record_stage, stage_on, stage_xray_clients_to_tunnel, move_xray_clients_to_tunnel,
  restore_xray_clients_from_failover, extend_xray_failover,
}
use vpn_director.VpnConfig.Moves.RoundTrip.{IsUndone, restore-move}
use vpn_director.VpnConfig.Moves.Safety.{on_tunnel, move-keeps_route}
use vpn_director.VpnConfig.Moves.Stage.{is_movable}
use vpn_director.VpnConfig.Moves.Extend.{IsExtended, extend-IsExtended}
use vpn_director.Tests.Sample.{phone, wg, router, staged_router}

stage_router : stage_xray_clients_to_tunnel router wg ≡ staged_router
unfolding stage_xray_clients_to_tunnel stage_on record_stage stage_loop append_new is_paused
    contains get_tunnel put_tunnel run_addresses
stage_router = refl

restore-move_example :
    IsUndone router (restore_xray_clients_from_failover (move_xray_clients_to_tunnel router wg)).0
restore-move_example = restore-move router wg refl

phone_on_xray : contains router.xray.clients phone ≡ true
unfolding contains text_eq
phone_on_xray = refl

move-keeps_route_example :
    (contains (move_xray_clients_to_tunnel router wg).xray.clients phone ≡ true)
    ⊎ ((is_movable router phone ≡ true)
        × (contains (on_tunnel (move_xray_clients_to_tunnel router wg) wg) phone ≡ true))
move-keeps_route_example = move-keeps_route router wg phone refl phone_on_xray

extend-IsExtended_example : IsExtended staged_router (extend_xray_failover staged_router)
extend-IsExtended_example = extend-IsExtended staged_router
