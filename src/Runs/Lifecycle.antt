-- ===== src/Runs/Lifecycle.antt =====
-- Creating a run, and what its background thread reports: that it runs, and how it ended.
use comet_l.Prelude.{
  ℕ, ◌-◌, Bool, true, false, ◌||◌, Option, none, some, List, Text, codes, insert, erase, or_else,
  count_of, leb, ◌&&◌, if◌then◌else◌,
}
use comet_l.LogRouter as Log
use comet_l.LogRouter.{no_update, new_router, ensure_stream}
use comet_l.Runs.Types.{
  Status, pending, running, cancelling, completed, failed, cancelled, is_pending, Policy, Session,
  RunRecord, Service, same_user,
}
use comet_l.Runs.Store.{
  find_session, modify_session, put_session, persist, publish_snapshot, remove_key, add_key,
  update_main, clear_active,
}
use comet_l.Runs.Queue.{refresh_queue_positions}
use comet_l.Runs.Scheduler.{cancel_session, dispatch_pending_runs}

pub data CreateError : Type 0 where
  global_queue_full user_queue_full : CreateError
  import_failed : ℕ → CreateError

-- `count_run_records_by_statuses(PENDING_STATUSES)`, of one user if one is given
abbrev pub count_pending : List RunRecord → ℕ
count_pending = count_of (λ r. is_pending r.status)

abbrev pub count_user_pending : Option ℕ → List RunRecord → ℕ
count_user_pending u = count_of (λ r. is_pending r.status && same_user r.user_id u)

-- `_assert_queue_capacity`: the error that it raises.
unfoldable pub assert_queue_capacity :
    Policy → Option ℕ → Option (List RunRecord) → Option CreateError
assert_queue_capacity policy user none = none
assert_queue_capacity policy user (some rs) =
    if leb policy.global_max_pending_tasks (count_pending rs)
    then some global_queue_full
    else elim user [
      | none ↦ none
      | some u ↦
          if leb policy.per_user_max_pending_tasks (count_user_pending (some u) rs)
          then some user_queue_full
          else none
    ]

-- What `create_run` takes from the request, the settings and the repository import: the error of
-- a failed import, or whether a GitHub repository is configured.
pub data Prepared : Type 0 where
  import_error : ℕ → Prepared
  ready : Bool → Prepared

pub data Creation : Type 0 where
  made : Service → Session → Creation
  raised : CreateError → Creation

abbrev pub new_session : ℕ → Text → Option ℕ → Policy → Session
new_session now id user policy = record {
  run_id = id;
  status = pending;
  user_id = user;
  created_at = now;
  policy = policy;
  started_at = none;
  completed_at = none;
  failed_at = none;
  error = none;
  queue_position = none;
  cancel_requested = false;
  cancellation_reason = none;
}

abbrev main_update : Log.StreamStatus → Option ℕ → Option ℕ → Option ℕ → Option ℕ → Log.Update
main_update status started finished completion seconds = record {
  status = some status;
  started_at = started;
  ended_at = finished;
  completed_at = completion;
  duration_seconds = seconds;
}

-- The tables after a session was made; the id is new.
unfoldable pub register : Session → Bool → Service → Service
unfolding put_session persist refresh_queue_positions
register s github svc = refresh_queue_positions (
    persist s.run_id (record svc {
      sessions = put_session s svc.sessions;
      routers =
          insert s.run_id
            (ensure_stream (codes "main")
              (main_update Log.pending (some s.created_at) none none none) (new_router 200))
            svc.routers;
      github_configs = if github then add_key s.run_id svc.github_configs else svc.github_configs;
      active_run_id = some s.run_id;
    }))

-- `create_run`
unfoldable pub create_run : ℕ → Text → Option ℕ → Policy → Prepared → Service → Creation
unfolding assert_queue_capacity register
create_run now id user policy prepared svc = elim (assert_queue_capacity policy user svc.records) [
  | some e ↦ raised e
  | none ↦ elim prepared [
    | import_error code ↦ raised (import_failed code)
    | ready github ↦ let s = new_session now id user policy in made (register s github svc) s
  ]
]

-- A session that runs.
abbrev pub run_session : ℕ → Session → Session
run_session now s = record s { status = running; started_at = some now; queue_position = none }

-- The tables after `mark_running`.
unfoldable pub running_service : ℕ → Text → Session → Service → Service
unfolding persist publish_snapshot
running_service now id s svc =
    if s.cancel_requested
    then persist id (record svc {
      sessions = modify_session id (cancel_session now) svc.sessions;
      github_configs = remove_key id svc.github_configs;
    })
    else publish_snapshot id (
        persist id (record svc {
          sessions = modify_session id (run_session now) svc.sessions;
          routers = update_main id (main_update Log.running (some now) none none none) svc.routers;
        }))

-- `mark_running`
unfoldable pub mark_running : ℕ → Text → Service → Option Service
unfolding find_session running_service
mark_running now id svc = elim (find_session id svc.sessions) [
  | none ↦ none
  | some s ↦ some (running_service now id s svc)
]

-- `_finish_cancelled_run_locked`
abbrev pub finish_cancelled_session : ℕ → Session → Session
finish_cancelled_session at s = record s {
  status = cancelled;
  completed_at = none;
  failed_at = some at;
  queue_position = none;
  error = none;
}

abbrev finish_cancelled_run : ℕ → Session → Service → Service
finish_cancelled_run at s svc =
    let id = s.run_id in
    persist id (record svc {
      sessions = modify_session id (finish_cancelled_session at) svc.sessions;
      routers =
          update_main id
            (main_update Log.cancelled (or_else s.started_at (some s.created_at)) (some at) none
              none)
            svc.routers;
      active_run_id = clear_active id svc.active_run_id;
      github_configs = remove_key id svc.github_configs;
      specs = remove_key id svc.specs;
      controls = erase id svc.controls;
    })

-- `max((ended - started).total_seconds(), 0.0)`, if the run has started
abbrev duration : ℕ → Option ℕ → Option ℕ
duration at none = none
duration at (some started) = some (at - started)

abbrev end_session : Status → Option ℕ → Option ℕ → Option Text → Session → Session
end_session status completed_at failed_at error s = record s {
  status = status;
  completed_at = completed_at;
  failed_at = failed_at;
  error = error;
}

-- The tables after a run that was not cancelled has ended.
abbrev end_run : Log.Update → (Session → Session) → Text → Service → Service
end_run update change id svc = publish_snapshot id (
    persist id (record svc {
      sessions = modify_session id change svc.sessions;
      routers = update_main id update svc.routers;
      active_run_id = clear_active id svc.active_run_id;
      github_configs = remove_key id svc.github_configs;
      specs = remove_key id svc.specs;
      controls = erase id svc.controls;
    }))

abbrev end_completed : ℕ → Option Text → Session → Service → Service
end_completed at pull_request_error s =
    end_run
      (main_update Log.completed (or_else s.started_at (some s.created_at)) (some at) (some at)
        (duration at s.started_at))
      (λ t. end_session completed (some at) t.failed_at pull_request_error t) s.run_id

abbrev end_failed : ℕ → Text → Session → Service → Service
end_failed now error s =
    end_run
      (main_update Log.failed (or_else s.started_at (some s.created_at)) (some now) none
        (duration now s.started_at))
      (λ t. end_session failed t.completed_at (some now) (some error) t) s.run_id

abbrev pub is_cancelling : Status → Bool
is_cancelling cancelling = true
is_cancelling _ = false

-- The tables after `mark_completed`, up to the dispatch. The report and the pull request stand
-- outside: the error that the pull request raised is an argument.
unfoldable pub completed_service : ℕ → Option Text → Session → Service → Service
unfolding persist publish_snapshot
completed_service at pull_request_error s svc =
    if s.cancel_requested || is_cancelling s.status
    then publish_snapshot s.run_id (finish_cancelled_run at s svc)
    else end_completed at pull_request_error s svc

-- `mark_completed`, where the report could be written
unfoldable pub mark_completed : ℕ → Option Text → Text → Service → Option Service
unfolding find_session completed_service dispatch_pending_runs
mark_completed at pull_request_error id svc = elim (find_session id svc.sessions) [
  | none ↦ none
  | some s ↦ dispatch_pending_runs at (completed_service at pull_request_error s svc)
]

-- The tables after `mark_failed`, up to the dispatch.
unfoldable pub failed_service : ℕ → Text → Session → Service → Service
unfolding persist publish_snapshot
failed_service now error s svc = end_failed now error s svc

-- `mark_failed`
unfoldable pub mark_failed : ℕ → Text → Text → Service → Option Service
unfolding find_session failed_service dispatch_pending_runs
mark_failed now error id svc = elim (find_session id svc.sessions) [
  | none ↦ none
  | some s ↦ dispatch_pending_runs now (failed_service now error s svc)
]
