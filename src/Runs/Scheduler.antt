-- ===== src/Runs/Scheduler.antt =====
-- Claiming, starting and cancelling runs. A claim marks the session as starting under the lock;
-- its background thread is launched right after.
use comet_l.Prelude.{
  ℕ, zero, suc, Bool, true, false, not, Option, none, some, List, [], ◌∷◌, map, Text, Dict, lookup,
  insert, contains, is_some, count_of, sort_by, if◌then◌else◌,
}
use comet_l.Runs.Types.{
  Status, pending, starting, running, cancelling, cancelled, is_pending, Session, launched, Service,
}
use comet_l.Runs.Store.{
  find_session, modify_session, persist, publish_snapshot, remove_key, add_key,
}
use comet_l.Runs.Queue.{queued_before, can_start_session, refresh_queue_positions}

-- A session that is cancelled before it has run.
abbrev pub cancel_session : ℕ → Session → Session
cancel_session now s = record s { status = cancelled; failed_at = some now; queue_position = none }

abbrev pub start_session : ℕ → Session → Session
start_session now s = record s { status = starting; started_at = some now; queue_position = none }

-- A pending session whose cancellation was asked for is closed.
abbrev pub drop_cancelled : ℕ → Text → Service → Service
drop_cancelled now id svc = persist id (record svc {
  sessions = modify_session id (cancel_session now) svc.sessions;
  github_configs = remove_key id svc.github_configs;
})

-- The session is marked as starting, saved and published.
abbrev pub claim_session : ℕ → Text → Service → Service
claim_session now id svc = publish_snapshot id (
    persist id (record svc {
      sessions = modify_session id (start_session now) svc.sessions;
      active_run_id = some id;
    }))

-- What the loop of the claim does with one session.
pub data Choice : Type 0 where
  skip drop claim : Choice

unfoldable pub choose : Session → Service → Choice
unfolding can_start_session
choose s svc =
    if not (is_pending s.status)
    then skip
    else if not (contains s.run_id svc.specs)
    then skip
    else if s.cancel_requested
    then drop
    else if not (can_start_session s svc.sessions)
    then skip
    else claim

-- The loop of `_claim_next_pending_run_locked` over the sessions, each named by its id, since the
-- session objects are those of the table and change with it.
unfoldable pub claim_from : ℕ → List Text → Service → Service × Option Text
unfolding find_session
claim_from now [] svc = (svc, none)
claim_from now (id ∷ ids) svc = elim (find_session id svc.sessions) [
  | none ↦ claim_from now ids svc
  | some s ↦ elim (choose s svc) [
    | skip ↦ claim_from now ids svc
    | drop ↦ claim_from now ids (drop_cancelled now id svc)
    | claim ↦ (claim_session now id svc, some id)
  ]
]

-- The ids in the order of the queue.
abbrev pub queue_order : List Session → List Text
queue_order sessions = map (λ (s : Session). s.run_id) (sort_by queued_before sessions)

-- `_claim_next_pending_run_locked`
unfoldable pub claim_next_pending_run : ℕ → Service → Service × Option Text
unfolding claim_from sort_by
claim_next_pending_run now svc = claim_from now (queue_order svc.sessions) svc

-- `_start_claimed_run`
abbrev pub start_claimed_run : Text → Service → Service
start_claimed_run id svc = record svc {
  controls = insert id false svc.controls;
  threads = insert id launched svc.threads;
}

-- `dispatch_pending_runs`: the loop claims runs until none can start. `none` means that the fuel
-- ran out.
unfoldable pub dispatch_from : ℕ → ℕ → Service → Option Service
unfolding refresh_queue_positions claim_next_pending_run
dispatch_from zero now svc = none
dispatch_from (suc fuel) now svc =
    let (svc', claimed) = claim_next_pending_run now (refresh_queue_positions svc) in
    elim claimed [
      | none ↦ some svc'
      | some id ↦ elim (contains id svc'.specs) [
        | true ↦ dispatch_from fuel now (start_claimed_run id svc')
        | false ↦ some svc'
      ]
    ]

-- One round for each pending session, and one that finds none.
unfoldable pub dispatch_pending_runs : ℕ → Service → Option Service
unfolding dispatch_from
dispatch_pending_runs now svc =
    dispatch_from (suc (count_of (λ s. is_pending s.status) svc.sessions)) now svc

-- `start_run`
unfoldable pub start_run : ℕ → Text → Service → Option Service
unfolding dispatch_pending_runs
start_run now id svc = dispatch_pending_runs now (record svc { specs = add_key id svc.specs })

-- The session after `cancel_run`, by its status.
abbrev pub request_cancel : ℕ → Text → Session → Session
request_cancel now reason s =
    let asked = record s { cancel_requested = true; cancellation_reason = some reason } in
    elim s.status [
      | pending ↦ cancel_session now asked
      | starting ↦ record asked { status = cancelling }
      | running ↦ record asked { status = cancelling }
      | _ ↦ asked
    ]

-- What a cancellation takes out of the tables: only that of a pending run.
abbrev pub forget_pending : Text → Status → List Text → List Text
forget_pending id pending keys = remove_key id keys
forget_pending id _ keys = keys

-- `control.set()`, if the run has one
abbrev pub set_control : Text → Dict Bool → Dict Bool
set_control id controls = if is_some (lookup id controls) then insert id true controls else controls

-- `cancel_run` up to the dispatch.
unfoldable pub cancel_session_of : ℕ → Text → Session → Service → Service
unfolding persist refresh_queue_positions publish_snapshot
cancel_session_of now reason s svc =
    let id = s.run_id in
    publish_snapshot id (
      refresh_queue_positions (
        persist id (record svc {
          sessions = modify_session id (request_cancel now reason) svc.sessions;
          specs = forget_pending id s.status svc.specs;
          github_configs = forget_pending id s.status svc.github_configs;
          controls = set_control id svc.controls;
        })))

-- `cancel_run`
unfoldable pub cancel_run : ℕ → Text → Text → Service → Option Service
unfolding find_session cancel_session_of dispatch_pending_runs
cancel_run now id reason svc = elim (find_session id svc.sessions) [
  | none ↦ none
  | some s ↦ dispatch_pending_runs now (cancel_session_of now reason s svc)
]
