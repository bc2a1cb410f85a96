-- ===== src/Runs/Store.antt =====
-- The tables of the service: sessions by their id, database rows, published snapshots.
use comet_l.Prelude.{
  ℕ, not, Option, none, some, List, [], ◌∷◌, ◌++◌, Text, text_eq, Dict, lookup, insert, or_else,
  contains, filter_by, if◌then◌else◌, codes,
}
use comet_l.LogRouter.{Router, Update, ensure_stream}
use comet_l.Runs.Types.{cancelled, Session, RunRecord, Snapshot, Service}

-- `self._sessions[run_id]`
unfoldable pub find_session : Text → List Session → Option Session
find_session id [] = none
find_session id (s ∷ ss) = if text_eq s.run_id id then some s else find_session id ss

-- The session object of a run is changed in place.
unfoldable pub modify_session : Text → (Session → Session) → List Session → List Session
modify_session id f [] = []
modify_session id f (s ∷ ss) = if text_eq s.run_id id then f s ∷ ss else s ∷ modify_session id f ss

-- `self._sessions[session.run_id] = session`
unfoldable pub put_session : Session → List Session → List Session
put_session t [] = t ∷ []
put_session t (s ∷ ss) = if text_eq s.run_id t.run_id then t ∷ ss else s ∷ put_session t ss

abbrev pub update_session : Text → (Session → Session) → Service → Service
update_session id f svc = record svc { sessions = modify_session id f svc.sessions }

-- The `finished_at` that `_persist_session` writes.
abbrev pub finished_at : Session → Option ℕ
finished_at s = elim s.status [
  | cancelled ↦ or_else s.failed_at s.completed_at
  | _ ↦ or_else s.completed_at s.failed_at
]

abbrev pub record_of : Session → RunRecord
record_of s = record {
  id = s.run_id;
  status = s.status;
  user_id = s.user_id;
  created_at = s.created_at;
  started_at = s.started_at;
  finished_at = finished_at s;
  error = s.error;
  queue_position = s.queue_position;
  cancel_requested = s.cancel_requested;
  cancellation_reason = s.cancellation_reason;
}

-- `update_run_record` passes over a value that is None: the column keeps what it had.
abbrev pub updated : RunRecord → RunRecord → RunRecord
updated new old = record new {
  user_id = old.user_id;
  created_at = old.created_at;
  started_at = or_else new.started_at old.started_at;
  finished_at = or_else new.finished_at old.finished_at;
  error = or_else new.error old.error;
  queue_position = or_else new.queue_position old.queue_position;
  cancellation_reason = or_else new.cancellation_reason old.cancellation_reason;
}

-- A row is created, or updated.
unfoldable pub upsert : Session → List RunRecord → List RunRecord
upsert s [] = record_of s ∷ []
upsert s (r ∷ rs) = if text_eq r.id s.run_id then updated (record_of s) r ∷ rs else r ∷ upsert s rs

abbrev persist_rows : Option Session → Option (List RunRecord) → Option (List RunRecord)
persist_rows none rows = rows
persist_rows (some s) none = none
persist_rows (some s) (some rs) = some (upsert s rs)

-- `_persist_session`
unfoldable pub persist : Text → Service → Service
persist id svc = record svc { records = persist_rows (find_session id svc.sessions) svc.records }

abbrev snapshot_of : Session → Snapshot
snapshot_of s = record {
  run_id = s.run_id;
  status = s.status;
  queue_position = s.queue_position;
  cancel_requested = s.cancel_requested;
}

abbrev add_snapshot : Option Session → List Snapshot → List Snapshot
add_snapshot none shots = shots
add_snapshot (some s) shots = shots ++ snapshot_of s ∷ []

-- `publish_runtime_snapshot`, for a run that is there
unfoldable pub publish_snapshot : Text → Service → Service
publish_snapshot id svc = record svc {
  snapshots = add_snapshot (find_session id svc.sessions) svc.snapshots;
}

-- `d.pop(id, None)` on a table of which only the keys are kept.
abbrev pub remove_key : Text → List Text → List Text
remove_key id = filter_by (λ x. not (text_eq x id))

abbrev pub add_key : Text → List Text → List Text
add_key id keys = if contains id keys then keys else keys ++ id ∷ []

-- `self._log_routers[id].ensure_stream("main", …)`; every session has a router.
abbrev pub update_main : Text → Update → Dict Router → Dict Router
update_main id u routers = elim (lookup id routers) [
  | none ↦ routers
  | some r ↦ insert id (ensure_stream (codes "main") u r) routers
]

-- `if self._active_run_id == id: self._active_run_id = None`
abbrev pub clear_active : Text → Option Text → Option Text
clear_active id none = none
clear_active id (some a) = if text_eq a id then none else some a
