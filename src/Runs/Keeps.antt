-- ===== src/Runs/Keeps.antt =====
-- Each change of the tables that a method makes keeps the limits.
use comet_l.Prelude.{
  ℕ, ◌≡◌, ◌≢◌, refl, Bool, true, false, ◌&&◌, ◌||◌, Option, none, some, List, [], ◌∷◌, ◌++◌, Text,
  text_eq, text_eq_iff, Dict, lookup, lookup-insert, count_of-append, All-append, arith, Bool-cases,
  inl, inr, if◌then◌else◌,
}
use comet_l.Runs.Types.{is_active, Policy, Session, Thread, launched, Service, same_user}
use comet_l.Runs.Store.{find_session, modify_session, put_session, persist, publish_snapshot}
use comet_l.Runs.Queue.{refresh_queue_positions}
use comet_l.Runs.Scheduler.{request_cancel, cancel_session, cancel_session_of}
use comet_l.Runs.Lifecycle.{
  ready, made, new_session, register, create_run, running_service, completed_service,
  failed_service, is_cancelling, finish_cancelled_session, run_session,
}
use comet_l.Runs.Limits.{Within, WithinLimits, modify-Within}
use comet_l.Runs.Claims.{refresh-Within}
use comet_l.Runs.Steps.{set_thread}

-- A session of a new id goes to the end.
pub put_session_absent :
    (s : Session) (ss : List Session)
    → find_session s.run_id ss ≡ none
    → put_session s ss ≡ ss ++ s ∷ []
unfolding find_session put_session
put_session_absent s [] e = refl
put_session_absent s (t ∷ ss) e = ground (arith, put_session_absent s ss)

pub find_session-append :
    (j : Text) (ss : List Session) (s : Session)
    → find_session j (ss ++ s ∷ []) ≡ elim (find_session j ss) [
      | none ↦ if text_eq s.run_id j then some s else none
      | some t ↦ some t
    ]
unfolding find_session
find_session-append j [] s = refl
find_session-append j (t ∷ ss) s = ground (arith, find_session-append j ss s)

module _ (policy : Policy) where
  append-Within :
      (ss : List Session) (threads : Dict Thread) (s : Session)
      → s.policy ≡ policy
      → is_active s.status ≡ false
      → lookup s.run_id threads ≡ none
      → Within policy ss threads
      → Within policy (ss ++ s ∷ []) threads
  append-Within ss threads s same idle fresh h = record {
    uniform = All-append _ ss (s ∷ []) h.uniform (same, tt);
    in_all =
        ground (arith, count_of-append (λ (c : Session). is_active c.status) ss (s ∷ []), h.in_all);
    for_user = λ u. ground (
      arith,
      count_of-append (λ (c : Session). is_active c.status && same_user c.user_id (some u)) ss
          (s ∷ []),
      h.for_user u,
    );
    launched_active = λ j t l e.
        ground (arith, text_eq_iff s.run_id j, find_session-append j ss s, h.launched_active j t l);
  }

  pub set_thread-WithinLimits :
      (id : Text) (t : Thread) (svc : Service)
      → t ≢ launched
      → WithinLimits policy svc
      → WithinLimits policy (set_thread id t svc)
  set_thread-WithinLimits id t svc other h = record {
    uniform = h.uniform;
    in_all = h.in_all;
    for_user = h.for_user;
    launched_active = λ j s l e.
        ground (arith, lookup-insert id j t svc.threads, text_eq_iff id j, h.launched_active j s);
  }

  register-WithinLimits :
      (s : Session) (github : Bool) (svc : Service)
      → find_session s.run_id svc.sessions ≡ none
      → lookup s.run_id svc.threads ≡ none
      → s.policy ≡ policy
      → is_active s.status ≡ false
      → WithinLimits policy svc
      → WithinLimits policy (register s github svc)
  unfolding register persist refresh_queue_positions
  register-WithinLimits s github svc absent fresh same idle h =
      refresh-Within policy (put_session s svc.sessions) svc.threads (
        rw (put_session_absent s svc.sessions absent)
          (append-Within svc.sessions svc.threads s same idle fresh h))

  pub create-WithinLimits :
      (now : ℕ) (id : Text) (user : Option ℕ) (github : Bool) (s : Session) (svc : Service)
      {svc' : Service}
      → find_session id svc.sessions ≡ none
      → lookup id svc.threads ≡ none
      → create_run now id user policy (ready github) svc ≡ made svc' s
      → WithinLimits policy svc
      → WithinLimits policy svc'
  create-WithinLimits now id user github s svc {svc'} absent fresh e h =
      let same : register (new_session now id user policy) github svc ≡ svc' =
        unfold create_run in ground arith in
      rw same at
        (register-WithinLimits (new_session now id user policy) github svc absent fresh refl refl h)

  pub cancel-WithinLimits :
      (now : ℕ) (reason : Text) (s : Session) (svc : Service)
      → find_session s.run_id svc.sessions ≡ some s
      → WithinLimits policy svc
      → WithinLimits policy (cancel_session_of now reason s svc)
  unfolding cancel_session_of persist publish_snapshot refresh_queue_positions
  cancel-WithinLimits now reason s svc found h =
      refresh-Within policy (modify_session s.run_id (request_cancel now reason) svc.sessions)
        svc.threads
        (modify-Within policy svc.threads svc.sessions s.run_id (request_cancel now reason) s
          (record {
            same_id = λ t. ground arith;
            same_policy = λ t. ground arith;
            same_owner = λ t. ground arith;
          })
          found h (λ a. ground arith)
          (λ l. let a = h.launched_active s.run_id s l found in ground arith))

  pub running-WithinLimits :
      (now : ℕ) (id : Text) (s : Session) (svc : Service)
      → find_session id svc.sessions ≡ some s
      → lookup id svc.threads ≢ some launched
      → is_active s.status ≡ true
      → WithinLimits policy svc
      → WithinLimits policy (running_service now id s svc)
  unfolding running_service persist publish_snapshot
  running-WithinLimits now id s svc found other was h = elim (Bool-cases s.cancel_requested) [
    | inl asked ↦ rw asked (
        modify-Within policy svc.threads svc.sessions id (cancel_session now) s
          (record { same_id = λ t. refl; same_policy = λ t. refl; same_owner = λ t. refl }) found h
          (λ a. cc) (λ l. absurd (other l)))
    | inr free ↦ rw free (
        modify-Within policy svc.threads svc.sessions id (run_session now) s
          (record { same_id = λ t. refl; same_policy = λ t. refl; same_owner = λ t. refl }) found h
          (λ a. was) (λ l. absurd (other l)))
  ]

  pub completed-WithinLimits :
      (at : ℕ) (error : Option Text) (s : Session) (svc : Service)
      → find_session s.run_id svc.sessions ≡ some s
      → lookup s.run_id svc.threads ≢ some launched
      → WithinLimits policy svc
      → WithinLimits policy (completed_service at error s svc)
  unfolding completed_service persist publish_snapshot
  completed-WithinLimits at error s svc found other h =
      elim (Bool-cases (s.cancel_requested || is_cancelling s.status)) [
        | inl asked ↦ rw asked (
            modify-Within policy svc.threads svc.sessions s.run_id (finish_cancelled_session at) s
              (record { same_id = λ t. refl; same_policy = λ t. refl; same_owner = λ t. refl })
              found h (λ a. cc) (λ l. absurd (other l)))
        | inr free ↦ rw free (
            modify-Within policy svc.threads svc.sessions s.run_id _ s
              (record { same_id = λ t. refl; same_policy = λ t. refl; same_owner = λ t. refl })
              found h (λ a. cc) (λ l. absurd (other l)))
      ]

  pub failed-WithinLimits :
      (now : ℕ) (error : Text) (s : Session) (svc : Service)
      → find_session s.run_id svc.sessions ≡ some s
      → lookup s.run_id svc.threads ≢ some launched
      → WithinLimits policy svc
      → WithinLimits policy (failed_service now error s svc)
  unfolding failed_service persist publish_snapshot
  failed-WithinLimits now error s svc found other h =
      modify-Within policy svc.threads svc.sessions s.run_id _ s
        (record { same_id = λ t. refl; same_policy = λ t. refl; same_owner = λ t. refl }) found h
        (λ a. cc) (λ l. absurd (other l))
