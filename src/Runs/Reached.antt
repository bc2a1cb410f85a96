-- ===== src/Runs/Reached.antt =====
-- The limits hold in every state that the service reaches.
use comet_l.Prelude.{
  ℕ, ◌≤◌, ◌≡◌, ◌≢◌, Option, some, Text, text_eq_iff, lookup, insert, lookup-insert, arith,
  Option-cases, inl, inr,
}
use comet_l.Runs.Types.{Policy, Thread, launched, executing, ended, Service}
use comet_l.Runs.Store.{find_session, add_key}
use comet_l.Runs.Scheduler.{start_run, cancel_session_of, cancel_run}
use comet_l.Runs.Lifecycle.{
  running_service, mark_running, completed_service, mark_completed, failed_service, mark_failed,
}
use comet_l.Runs.Lookup.{find_session-run_id, find_session_self}
use comet_l.Runs.Limits.{active_count, user_active_count, WithinLimits}
use comet_l.Runs.Dispatching.{dispatch_pending_runs-WithinLimits}
use comet_l.Runs.Steps.{
  Step, create, start, cancel, begin, complete, fail, Reach, here, next, set_thread,
}
use comet_l.Runs.Keeps.{
  set_thread-WithinLimits, create-WithinLimits, cancel-WithinLimits, running-WithinLimits,
  completed-WithinLimits, failed-WithinLimits,
}

module _ (policy : Policy) where
  -- After `set_thread` a run's thread is not waiting to begin.
  begun :
      (id : Text) (t : Thread) (svc : Service)
      → t ≢ launched
      → lookup id (insert id t svc.threads) ≢ some launched
  begun id t svc other e = ground (arith, lookup-insert id id t svc.threads, text_eq_iff id id)

  begin-WithinLimits :
      (now : ℕ) (id : Text) (svc : Service) {svc' : Service}
      → lookup id svc.threads ≡ some launched
      → mark_running now id (set_thread id executing svc) ≡ some svc'
      → WithinLimits policy svc
      → WithinLimits policy svc'
  unfolding mark_running
  begin-WithinLimits now id svc {svc'} l e h = elim (Option-cases (find_session id svc.sessions)) [
    | inl missing ↦ absurd (ground arith)
    | inr (s, found) ↦
        let same : running_service now id s (set_thread id executing svc) ≡ svc' = ground arith in
        rw same at (
          running-WithinLimits policy now id s (set_thread id executing svc) found
            (begun id executing svc (λ x. cc)) (h.launched_active id s l found)
            (set_thread-WithinLimits policy id executing svc (λ x. cc) h))
  ]

  complete-WithinLimits :
      (at : ℕ) (error : Option Text) (id : Text) (svc : Service) {svc' : Service}
      → mark_completed at error id (set_thread id ended svc) ≡ some svc'
      → WithinLimits policy svc
      → WithinLimits policy svc'
  unfolding mark_completed
  complete-WithinLimits at error id svc {svc'} e h =
      elim (Option-cases (find_session id svc.sessions)) [
        | inl missing ↦ absurd (ground arith)
        | inr (s, found) ↦
            dispatch_pending_runs-WithinLimits policy at
              (completed_service at error s (set_thread id ended svc)) {svc' = svc'}
              (completed-WithinLimits policy at error s (set_thread id ended svc)
                (find_session_self id svc.sessions found)
                (rw (find_session-run_id id svc.sessions found) (begun id ended svc (λ x. cc)))
                (set_thread-WithinLimits policy id ended svc (λ x. cc) h))
              (ground arith)
      ]

  fail-WithinLimits :
      (now : ℕ) (id error : Text) (svc : Service) {svc' : Service}
      → mark_failed now error id (set_thread id ended svc) ≡ some svc'
      → WithinLimits policy svc
      → WithinLimits policy svc'
  unfolding mark_failed
  fail-WithinLimits now id error svc {svc'} e h =
      elim (Option-cases (find_session id svc.sessions)) [
        | inl missing ↦ absurd (ground arith)
        | inr (s, found) ↦
            dispatch_pending_runs-WithinLimits policy now
              (failed_service now error s (set_thread id ended svc)) {svc' = svc'}
              (failed-WithinLimits policy now error s (set_thread id ended svc)
                (find_session_self id svc.sessions found)
                (rw (find_session-run_id id svc.sessions found) (begun id ended svc (λ x. cc)))
                (set_thread-WithinLimits policy id ended svc (λ x. cc) h))
              (ground arith)
      ]

  cancel_run-WithinLimits :
      (now : ℕ) (id reason : Text) (svc : Service) {svc' : Service}
      → cancel_run now id reason svc ≡ some svc'
      → WithinLimits policy svc
      → WithinLimits policy svc'
  unfolding cancel_run
  cancel_run-WithinLimits now id reason svc {svc'} e h =
      elim (Option-cases (find_session id svc.sessions)) [
        | inl missing ↦ absurd (ground arith)
        | inr (s, found) ↦
            dispatch_pending_runs-WithinLimits policy now (cancel_session_of now reason s svc)
              {svc' = svc'}
              (cancel-WithinLimits policy now reason s svc (find_session_self id svc.sessions found)
                h)
              (ground arith)
      ]

  start-WithinLimits :
      (now : ℕ) (id : Text) (svc : Service) {svc' : Service}
      → start_run now id svc ≡ some svc'
      → WithinLimits policy svc
      → WithinLimits policy svc'
  unfolding start_run
  start-WithinLimits now id svc {svc'} e h =
      dispatch_pending_runs-WithinLimits policy now (record svc { specs = add_key id svc.specs })
        {svc' = svc'} h e

  -- Every step keeps the limits on running tasks.
  pub Step-WithinLimits :
      {svc svc' : Service}
      → Step policy svc svc'
      → WithinLimits policy svc
      → WithinLimits policy svc'
  Step-WithinLimits {svc} (create now id user github s absent fresh e) h =
      create-WithinLimits policy now id user github s svc absent fresh e h
  Step-WithinLimits {svc} (start now id e) h = start-WithinLimits now id svc e h
  Step-WithinLimits {svc} (cancel now id reason e) h = cancel_run-WithinLimits now id reason svc e h
  Step-WithinLimits {svc} (begin now id l e) h = begin-WithinLimits now id svc l e h
  Step-WithinLimits {svc} (complete at id error l e) h = complete-WithinLimits at error id svc e h
  Step-WithinLimits {svc} (fail now id error l e) h = fail-WithinLimits now id error svc e h

  pub Reach-WithinLimits :
      {svc svc' : Service}
      → WithinLimits policy svc
      → Reach policy svc svc'
      → WithinLimits policy svc'
  Reach-WithinLimits h here = h
  Reach-WithinLimits h (next r st) = Step-WithinLimits st (Reach-WithinLimits h r)

  -- Where all runs have the same policy: in every state that the service reaches from one within
  -- the limits, at most `global_max_running_tasks` runs are active in all, and at most
  -- `per_user_max_running_tasks` of each user.
  pub Reach-limits :
      {svc svc' : Service}
      → WithinLimits policy svc
      → Reach policy svc svc'
      → (active_count svc' ≤ policy.global_max_running_tasks)
        × ((u : ℕ) → user_active_count u svc' ≤ policy.per_user_max_running_tasks)
  Reach-limits h r = let all = Reach-WithinLimits h r in (all.in_all, all.for_user)
