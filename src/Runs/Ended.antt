-- ===== src/Runs/Ended.antt =====
-- A run that has ended does not run again.
use comet_l.Prelude.{ℕ, ◌≡◌, true, Option, some, Text, arith, Option-cases, inl, inr}
use comet_l.Runs.Types.{is_active, Policy, Session, executing, ended, Service}
use comet_l.Runs.Store.{find_session, add_key}
use comet_l.Runs.Scheduler.{start_run, cancel_session_of, cancel_run}
use comet_l.Runs.Lifecycle.{
  running_service, mark_running, completed_service, mark_completed, failed_service, mark_failed,
}
use comet_l.Runs.Lookup.{find_session_self}
use comet_l.Runs.Limits.{WithinLimits}
use comet_l.Runs.Steps.{
  Step, create, start, cancel, begin, complete, fail, Reach, here, next, set_thread,
}
use comet_l.Runs.Reached.{Reach-WithinLimits}
use comet_l.Runs.StaysEnded.{
  HasEnded, dispatch-HasEnded, create-HasEnded, cancel-HasEnded, running-HasEnded,
  completed-HasEnded, failed-HasEnded,
}

module _ (id : Text) where
  begin-HasEnded :
      (now : ℕ) (j : Text) (svc : Service) {svc' : Service}
      → ((s : Session) → find_session j svc.sessions ≡ some s → is_active s.status ≡ true)
      → mark_running now j (set_thread j executing svc) ≡ some svc'
      → HasEnded id svc
      → HasEnded id svc'
  unfolding mark_running
  begin-HasEnded now j svc {svc'} was e h = elim (Option-cases (find_session j svc.sessions)) [
    | inl missing ↦ absurd (ground arith)
    | inr (s, found) ↦
        let same : running_service now j s (set_thread j executing svc) ≡ svc' = ground arith in
        rw same at (running-HasEnded id now j s (set_thread j executing svc) found (was s found) h)
  ]

  complete-HasEnded :
      (at : ℕ) (error : Option Text) (j : Text) (svc : Service) {svc' : Service}
      → mark_completed at error j (set_thread j ended svc) ≡ some svc'
      → HasEnded id svc
      → HasEnded id svc'
  unfolding mark_completed
  complete-HasEnded at error j svc {svc'} e h = elim (Option-cases (find_session j svc.sessions)) [
    | inl missing ↦ absurd (ground arith)
    | inr (s, found) ↦
        dispatch-HasEnded id at (completed_service at error s (set_thread j ended svc))
          {svc' = svc'}
          (completed-HasEnded id at error s (set_thread j ended svc)
            (find_session_self j svc.sessions found) h)
          (ground arith)
  ]

  fail-HasEnded :
      (now : ℕ) (j error : Text) (svc : Service) {svc' : Service}
      → mark_failed now error j (set_thread j ended svc) ≡ some svc'
      → HasEnded id svc
      → HasEnded id svc'
  unfolding mark_failed
  fail-HasEnded now j error svc {svc'} e h = elim (Option-cases (find_session j svc.sessions)) [
    | inl missing ↦ absurd (ground arith)
    | inr (s, found) ↦
        dispatch-HasEnded id now (failed_service now error s (set_thread j ended svc)) {svc' = svc'}
          (failed-HasEnded id now error s (set_thread j ended svc)
            (find_session_self j svc.sessions found) h)
          (ground arith)
  ]

  cancel_run-HasEnded :
      (now : ℕ) (j reason : Text) (svc : Service) {svc' : Service}
      → cancel_run now j reason svc ≡ some svc'
      → HasEnded id svc
      → HasEnded id svc'
  unfolding cancel_run
  cancel_run-HasEnded now j reason svc {svc'} e h =
      elim (Option-cases (find_session j svc.sessions)) [
        | inl missing ↦ absurd (ground arith)
        | inr (s, found) ↦
            dispatch-HasEnded id now (cancel_session_of now reason s svc) {svc' = svc'}
              (cancel-HasEnded id now reason s svc (find_session_self j svc.sessions found) h)
              (ground arith)
      ]

  start-HasEnded :
      (now : ℕ) (j : Text) (svc : Service) {svc' : Service}
      → start_run now j svc ≡ some svc'
      → HasEnded id svc
      → HasEnded id svc'
  unfolding start_run
  start-HasEnded now j svc {svc'} e h =
      dispatch-HasEnded id now (record svc { specs = add_key j svc.specs }) {svc' = svc'} h e

  Step-HasEnded :
      (policy : Policy) {svc svc' : Service}
      → WithinLimits policy svc
      → Step policy svc svc'
      → HasEnded id svc
      → HasEnded id svc'
  Step-HasEnded policy {svc} w (create now j user github s absent fresh e) h =
      create-HasEnded id now j user policy github s svc absent e h
  Step-HasEnded policy {svc} w (start now j e) h = start-HasEnded now j svc e h
  Step-HasEnded policy {svc} w (cancel now j reason e) h = cancel_run-HasEnded now j reason svc e h
  Step-HasEnded policy {svc} w (begin now j l e) h =
      begin-HasEnded now j svc (λ s found. w.launched_active j s l found) e h
  Step-HasEnded policy {svc} w (complete at j error l e) h = complete-HasEnded at error j svc e h
  Step-HasEnded policy {svc} w (fail now j error l e) h = fail-HasEnded now j error svc e h

  -- A run that has completed, failed or was cancelled is in such a state ever after: from a state
  -- within the limits, no sequence of steps makes it wait or run again.
  pub Reach-HasEnded :
      (policy : Policy) {svc svc' : Service}
      → WithinLimits policy svc
      → Reach policy svc svc'
      → HasEnded id svc
      → HasEnded id svc'
  Reach-HasEnded policy w here h = h
  Reach-HasEnded policy w (next r st) h =
      Step-HasEnded policy (Reach-WithinLimits policy w r) st (Reach-HasEnded policy w r h)
