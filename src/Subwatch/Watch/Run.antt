-- ===== src/Subwatch/Watch/Run.antt =====
-- Opens the watch's functions, for evaluation on concrete lives.
use vpn_director.Subwatch.Watch.{
  match_outcome, change, field, log, set_locked, set_config, ask, mutation_allowed, load_vpn,
  fast_guard_now, refuse_outbound, outbound_allowed_now, is_refused, apply, outbound_refuses, save,
  update_locked, update,
}
use vpn_director.Subwatch.Watch.Methods.{pure, gets, modify, ◌>>=◌, match_option}
use vpn_director.Subwatch.Watch.Notes.{
  is_route, note_number, last_kind, keep_kind, begin_note, send, notify,
}
use vpn_director.Subwatch.Watch.Deaths.{
  reset_fail, missed, dead_by, dead_reason, not_before, settled, reset_fallback_state,
  back_off_return, return_held, return_after_death, note_selection, check_reach, is_young, look,
  see, see_all,
}
use vpn_director.Subwatch.Watch.Guards.{
  itoa_loop, itoa, id_of, active_id, record_mark, is_bare, is_superseded, probed_server, active_eq,
  same_restore_active, is_pending, pending_restore_guard,
}
use vpn_director.Subwatch.Watch.Fallback.{
  failover_tunnel, committed_failover, is_recent, set_pending_apply, reload, fallback_ready,
  guard_commit, drop_staged, apply_or_owe, pay_apply, commit_staged, apply_failover, join_failover,
  extend_failover, fallback_carries,
}
use vpn_director.Subwatch.Watch.Outbound.{
  has_tunnel, has_firmware_tunnels, is_silent, retarget, note_moved_off, hold_fallback, try_exit,
  same_time, stage_death, is_stop, apply_anyway, announce_left, after_leaving, leave_fallback,
  fallback_gone, judge_fallback, watch_fallback, switch_to, switch_fallback, switch_unless_held,
  still_unready, retry_or_switch_fallback, stage_guarded, begin_episode, explain_unready,
  finish_move, move_to, no_tunnel, exit_for, settle_returns, declare_dead, fail_guarded,
  fail_outbound,
}
use vpn_director.Subwatch.Watch.Restore.{
  ends_walk, forget_restore, end_restore, settle, tproxy_failed, end_guarded, after_ending,
  finalize_restore, discard, discard_restore, after_failed_apply, announce, finish_pending,
  or_apply, resume, reconcile_restore,
}
use vpn_director.Subwatch.Watch.Commit.{
  ending_error, is_superseding, unstage_restore, retry_tproxy, await_tproxy, stage_back,
  begin_guarded, unstage_if, finish_restore, drop_fallback, begin_restore, confirm_restore,
  restore_staged, apply_pick, commit_restore,
}
use vpn_director.Subwatch.Watch.Tick.{
  wave_of, reconcile_first, goes_on, end_fail, probe_ok, announce_restored, restore_clients,
  begin_failing, announce_moved, see_fallback, after_apply, keep_fallback, tick_failover,
  resume_pending, retry_apply, tick_outbound, tick_armed, can_keep, keeps, tick_role, tick_loaded,
  tick_body, tick,
}
use vpn_director.VpnConfig.Failover.{
  append_new, append_all_new, effective_xray_clients, carriable_xray_clients, still_on,
  snapshot_on_tunnel, failover_staged, failover_committed, failover_carries,
  xray_clients_outside_failover, armed,
}
use vpn_director.VpnConfig.Moves.{
  extend_loop, extend_on, extend_xray_failover, detach_record, detach_failover_client, stage_loop,
  record_stage, stage_on, stage_xray_clients_to_tunnel, commit_xray_failover,
  move_xray_clients_to_tunnel, restore_drop, restore_tunnels, restore_xray_clients_from_failover,
  apply_snapshot_on, apply_failover_snapshot, ensure_failover_staged,
}
use vpn_director.VpnConfig.Pending.{
  begin_restore_of, begin_xray_restore, restore_list_contains, stored_loop, is_appended,
  snapshot_step, snapshot_loop, nonempty_snapshot, snapshot_of, failover_snapshot,
}
use vpn_director.VpnConfig.Exits.{
  by_id, is_up, has_clients, is_exit, td_exits, first_exit, first_td_exit, failover_td_exit,
  first_untried, next_td_exit,
}
use vpn_director.VpnConfig.Config.{
  get_tunnel, put_tunnel, clients_of, is_paused, client_infos, tunnel_infos, collect_clients,
}
use vpn_director.VpnConfig.Servers.{active_seq}
use vpn_director.VpnConfig.Address.{run_addresses}
use vpn_director.Prelude.{contains, keep_if, any, text_eq, sort_texts}
use vpn_director.Subwatch.Watch.Acts.{perform, live}

unfoldable pub run_watch : Unit {0}
unfolding match_outcome change field log set_locked set_config ask mutation_allowed load_vpn
    fast_guard_now refuse_outbound outbound_allowed_now is_refused apply outbound_refuses save
    update_locked update pure gets modify ◌>>=◌ match_option is_route note_number last_kind
    keep_kind begin_note send notify reset_fail missed dead_by dead_reason not_before settled
    reset_fallback_state back_off_return return_held return_after_death note_selection check_reach
    is_young look see see_all itoa_loop itoa id_of active_id record_mark is_bare is_superseded
    probed_server active_eq same_restore_active is_pending pending_restore_guard failover_tunnel
    committed_failover is_recent set_pending_apply reload fallback_ready guard_commit drop_staged
    apply_or_owe pay_apply commit_staged apply_failover join_failover extend_failover
    fallback_carries has_tunnel has_firmware_tunnels is_silent retarget note_moved_off hold_fallback
    try_exit same_time stage_death is_stop apply_anyway announce_left after_leaving leave_fallback
    fallback_gone judge_fallback watch_fallback switch_to switch_fallback switch_unless_held
    still_unready retry_or_switch_fallback stage_guarded begin_episode explain_unready finish_move
    move_to no_tunnel exit_for settle_returns declare_dead fail_guarded fail_outbound ends_walk
    forget_restore end_restore settle tproxy_failed end_guarded after_ending finalize_restore
    discard discard_restore after_failed_apply announce finish_pending or_apply resume
    reconcile_restore ending_error is_superseding unstage_restore retry_tproxy await_tproxy
    stage_back begin_guarded unstage_if finish_restore drop_fallback begin_restore confirm_restore
    restore_staged apply_pick commit_restore wave_of reconcile_first goes_on end_fail probe_ok
    announce_restored restore_clients begin_failing announce_moved see_fallback after_apply
    keep_fallback tick_failover resume_pending retry_apply tick_outbound tick_armed can_keep keeps
    tick_role tick_loaded tick_body tick append_new append_all_new effective_xray_clients
    carriable_xray_clients still_on snapshot_on_tunnel failover_staged failover_committed
    failover_carries xray_clients_outside_failover armed extend_loop extend_on extend_xray_failover
    detach_record detach_failover_client stage_loop record_stage stage_on
    stage_xray_clients_to_tunnel commit_xray_failover move_xray_clients_to_tunnel restore_drop
    restore_tunnels restore_xray_clients_from_failover apply_snapshot_on apply_failover_snapshot
    ensure_failover_staged begin_restore_of begin_xray_restore restore_list_contains stored_loop
    is_appended snapshot_step snapshot_loop nonempty_snapshot snapshot_of failover_snapshot by_id
    is_up has_clients is_exit td_exits first_exit first_td_exit failover_td_exit first_untried
    next_td_exit get_tunnel put_tunnel clients_of is_paused client_infos tunnel_infos
    collect_clients active_seq run_addresses contains keep_if any text_eq sort_texts perform live
run_watch = tt
