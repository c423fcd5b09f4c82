-- ===== src/Subwatch/Watch/Notes.antt =====
-- `notify` of server/internal/subwatch/watch.go: a message is sent once while nothing else is. The
-- callback that sends it changes no kind itself.
use vpn_director.Prelude.{Bool, true, false, if◌then◌else◌, ◌==◌, ℕ}
use vpn_director.Subwatch.Watch.Methods.{match_option, pure, modify, ◌>>=◌, ◌>>◌}
use vpn_director.Subwatch.Watch.{
  WatchState, NoteKind, note_none, note_moved, note_no_tunnel, note_fallback_not_ready,
  note_refresh_failed, note_no_live, note_restored, note_returned, Env, M, sent, log, change, field,
  is_refused,
}

unfoldable pub is_route : NoteKind → Bool
is_route note_moved = true
is_route note_no_tunnel = true
is_route note_fallback_not_ready = true
is_route _ = false

unfoldable pub note_number : NoteKind → ℕ
note_number note_none = 0
note_number note_moved = 1
note_number note_no_tunnel = 2
note_number note_fallback_not_ready = 3
note_number note_refresh_failed = 4
note_number note_no_live = 5
note_number note_restored = 6
note_number note_returned = 7

unfoldable pub last_kind : NoteKind → WatchState → NoteKind
last_kind kind s = if is_route kind then s.last_route_kind else s.last_import_kind

unfoldable pub keep_kind : NoteKind → WatchState → WatchState
keep_kind kind s =
    if is_route kind
    then record s { last_route_kind = kind; last_import_kind = note_none }
    else record s { last_import_kind = kind }

-- a restore makes the next message about the route news
unfoldable pub begin_note : NoteKind → WatchState → WatchState
begin_note note_restored s = record s { last_route_kind = note_none }
begin_note _ s = s

unfoldable pub send : NoteKind → M Unit
unfolding modify change log
send kind = do
  change (begin_note kind)
  last ← field (last_kind kind)
  if note_number last == note_number kind
      then pure tt
      else (do log (sent kind); change (keep_kind kind))

module _ (env : Env) where
  unfoldable pub notify : NoteKind → M Unit
  notify kind = do r ← is_refused env; match_option r (send kind) (λ e. pure tt)
