-- ===== src/Runs/Steps.antt =====
-- The service as a transition system: requests of users, and what background threads report.
use comet_l.Prelude.{ℕ, ◌≡◌, Bool, Option, none, some, Text, lookup, insert}
use comet_l.Runs.Types.{Policy, Session, Thread, launched, executing, ended, Service}
use comet_l.Runs.Store.{find_session}
use comet_l.Runs.Scheduler.{start_run, cancel_run}
use comet_l.Runs.Lifecycle.{ready, made, create_run, mark_running, mark_completed, mark_failed}

abbrev pub set_thread : Text → Thread → Service → Service
set_thread id t svc = record svc { threads = insert id t svc.threads }

-- One step: a request, or one of the two ends of `_run_in_background`, which calls `mark_running`
-- when the launched thread begins, and `mark_completed` or `mark_failed` when the run has ended.
-- A method of the source gives the lock back between its change and each claim of the dispatch that
-- follows; a step is the whole method. New ids are made of a time and a random number, so they are
-- not in use.
pub data Step (policy : Policy) (svc : Service) (next : Service) : Type 0 where
  create :
      (now : ℕ) (id : Text) (user : Option ℕ) (github : Bool) (s : Session)
      → find_session id svc.sessions ≡ none
      → lookup id svc.threads ≡ none
      → create_run now id user policy (ready github) svc ≡ made next s
      → Step policy svc next
  start : (now : ℕ) (id : Text) → start_run now id svc ≡ some next → Step policy svc next
  cancel :
      (now : ℕ) (id reason : Text) → cancel_run now id reason svc ≡ some next → Step policy svc next
  begin :
      (now : ℕ) (id : Text)
      → lookup id svc.threads ≡ some launched
      → mark_running now id (set_thread id executing svc) ≡ some next
      → Step policy svc next
  complete :
      (at : ℕ) (id : Text) (error : Option Text)
      → lookup id svc.threads ≡ some executing
      → mark_completed at error id (set_thread id ended svc) ≡ some next
      → Step policy svc next
  fail :
      (now : ℕ) (id error : Text)
      → lookup id svc.threads ≡ some executing
      → mark_failed now error id (set_thread id ended svc) ≡ some next
      → Step policy svc next

-- What a service comes to by any number of steps.
pub data Reach (policy : Policy) (svc : Service) : Service → Type 0 where
  here : Reach policy svc svc
  next : {a b : Service} → Reach policy svc a → Step policy a b → Reach policy svc b
