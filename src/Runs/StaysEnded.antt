-- ===== src/Runs/StaysEnded.antt =====
-- No change of the tables that a method makes takes a run out of its final state.
use comet_l.Prelude.{
  ℕ, zero, suc, ◌≡◌, refl, sym, ◌∙◌, Bool, true, false, Option, none, some, List, map, Text,
  text_eq_iff, arith, Bool-cases, Option-cases, inl, inr, ◌||◌,
}
use comet_l.Runs.Types.{
  Status, completed, failed, cancelled, stale, is_active, Policy, Session, Service,
}
use comet_l.Runs.Store.{find_session, modify_session, put_session, persist, publish_snapshot}
use comet_l.Runs.Queue.{refresh_queue_positions, reposition, queue_positions}
use comet_l.Runs.Scheduler.{
  cancel_session, start_session, claim_next_pending_run, start_claimed_run, dispatch_from,
  dispatch_pending_runs, request_cancel, cancel_session_of,
}
use comet_l.Runs.Lifecycle.{
  ready, made, new_session, register, create_run, running_service, completed_service,
  failed_service, is_cancelling, finish_cancelled_session, run_session,
}
use comet_l.Runs.Lookup.{find_session-modify, find_session-map}
use comet_l.Runs.Claims.{claim_from_rule}
use comet_l.Runs.Dispatching.{round, dispatch_from-stop, dispatch_from-next, pending_count}
use comet_l.Runs.Keeps.{put_session_absent, find_session-append}

abbrev pub is_ended : Status → Bool
is_ended completed = true
is_ended failed = true
is_ended cancelled = true
is_ended stale = true
is_ended _ = false

abbrev ended_in : Text → List Session → Bool
ended_in id ss = elim (find_session id ss) [ none ↦ false | some s ↦ is_ended s.status ]

module _ (id : Text) where
  -- The run is there, and has ended.
  abbrev pub HasEnded : Service → Type 0
  HasEnded svc = ended_in id svc.sessions ≡ true

  ended-modify :
      (j : Text) (f : Session → Session) (ss : List Session) (s : Session)
      → find_session j ss ≡ some s
      → ((t : Session) → (f t).run_id ≡ t.run_id)
      → (is_ended s.status ≡ true → is_ended (f s).status ≡ true)
      → ended_in id ss ≡ true
      → ended_in id (modify_session j f ss) ≡ true
  ended-modify j f ss s found keep stays h =
      ground (arith, find_session-modify j id f ss keep, text_eq_iff j id, stays)

  refresh-HasEnded : (svc : Service) → HasEnded svc → HasEnded (refresh_queue_positions svc)
  unfolding refresh_queue_positions
  refresh-HasEnded svc h = ground (
    arith,
    find_session-map id (reposition (queue_positions svc.sessions)) svc.sessions (λ s. refl),
  )

  claim_next-HasEnded :
      (now : ℕ) (svc : Service) → HasEnded svc → HasEnded (claim_next_pending_run now svc).0
  unfolding claim_next_pending_run persist publish_snapshot
  claim_next-HasEnded now svc =
      claim_from_rule now HasEnded (λ r. HasEnded r.0)
        (λ j svc s found waits h.
          ended-modify j (cancel_session now) svc.sessions s found (λ t. refl) (λ e. refl) h)
        (λ svc h. h)
        (λ j svc s found c h.
          let waits = c.waits in
          ended-modify j (start_session now) svc.sessions s found (λ t. refl)
            (λ e. absurd (ground arith)) h)
        _ svc

  dispatch_from-HasEnded :
      (fuel now : ℕ) (svc : Service) {svc' : Service}
      → HasEnded svc
      → dispatch_from fuel now svc ≡ some svc'
      → HasEnded svc'
  dispatch_from-HasEnded zero now svc h e = unfold dispatch_from in cc
  dispatch_from-HasEnded (suc fuel) now svc {svc'} h e =
      let h' = claim_next-HasEnded now (refresh_queue_positions svc) (refresh-HasEnded svc h) in
      elim (Option-cases (round now svc).1) [
        | inl stop ↦
            let same : (round now svc).0 ≡ svc' = cc (dispatch_from-stop fuel now svc stop) in
            rw same at h'
        | inr (j, more) ↦
            dispatch_from-HasEnded fuel now (start_claimed_run j (round now svc).0) {svc' = svc'} h'
              (sym (dispatch_from-next fuel now svc j more) ∙ e)
      ]

  pub dispatch-HasEnded :
      (now : ℕ) (svc : Service) {svc' : Service}
      → HasEnded svc
      → dispatch_pending_runs now svc ≡ some svc'
      → HasEnded svc'
  unfolding dispatch_pending_runs
  dispatch-HasEnded now svc = dispatch_from-HasEnded (suc (pending_count svc)) now svc

  map-ended :
      (ss : List Session)
      → ended_in id ss ≡ true
      → ended_in id (map (reposition (queue_positions ss)) ss) ≡ true
  map-ended ss h =
      ground (arith, find_session-map id (reposition (queue_positions ss)) ss (λ s. refl))

  register-HasEnded :
      (s : Session) (github : Bool) (svc : Service)
      → find_session s.run_id svc.sessions ≡ none
      → HasEnded svc
      → HasEnded (register s github svc)
  unfolding register persist refresh_queue_positions
  register-HasEnded s github svc absent h =
      let placed : ended_in id (put_session s svc.sessions) ≡ true =
        rw (put_session_absent s svc.sessions absent)
          (ground (arith, find_session-append id svc.sessions s)) in
      map-ended (put_session s svc.sessions) placed

  pub create-HasEnded :
      (now : ℕ) (j : Text) (user : Option ℕ) (policy : Policy) (github : Bool) (s : Session)
      (svc : Service) {svc' : Service}
      → find_session j svc.sessions ≡ none
      → create_run now j user policy (ready github) svc ≡ made svc' s
      → HasEnded svc
      → HasEnded svc'
  create-HasEnded now j user policy github s svc {svc'} absent e h =
      let same : register (new_session now j user policy) github svc ≡ svc' =
        unfold create_run in ground arith in
      rw same at (register-HasEnded (new_session now j user policy) github svc absent h)

  pub cancel-HasEnded :
      (now : ℕ) (reason : Text) (s : Session) (svc : Service)
      → find_session s.run_id svc.sessions ≡ some s
      → HasEnded svc
      → HasEnded (cancel_session_of now reason s svc)
  unfolding cancel_session_of persist publish_snapshot refresh_queue_positions
  cancel-HasEnded now reason s svc found h = ground (
    arith,
    find_session-map id
        (reposition
          (queue_positions (modify_session s.run_id (request_cancel now reason) svc.sessions)))
        (modify_session s.run_id (request_cancel now reason) svc.sessions) (λ s. refl),
    ended-modify s.run_id (request_cancel now reason) svc.sessions s found (λ t. ground arith)
        (λ e. ground arith) h,
  )

  pub running-HasEnded :
      (now : ℕ) (j : Text) (s : Session) (svc : Service)
      → find_session j svc.sessions ≡ some s
      → is_active s.status ≡ true
      → HasEnded svc
      → HasEnded (running_service now j s svc)
  unfolding running_service persist publish_snapshot
  running-HasEnded now j s svc found was h = elim (Bool-cases s.cancel_requested) [
    | inl asked ↦
        rw asked
          (ended-modify j (cancel_session now) svc.sessions s found (λ t. refl) (λ e. refl) h)
    | inr free ↦ rw free (
        ended-modify j (run_session now) svc.sessions s found (λ t. refl)
          (λ e. absurd (ground arith)) h)
  ]

  pub completed-HasEnded :
      (at : ℕ) (error : Option Text) (s : Session) (svc : Service)
      → find_session s.run_id svc.sessions ≡ some s
      → HasEnded svc
      → HasEnded (completed_service at error s svc)
  unfolding completed_service persist publish_snapshot
  completed-HasEnded at error s svc found h =
      elim (Bool-cases (s.cancel_requested || is_cancelling s.status)) [
        | inl asked ↦ rw asked (
            ended-modify s.run_id (finish_cancelled_session at) svc.sessions s found (λ t. refl)
              (λ e. refl) h)
        | inr free ↦
            rw free (ended-modify s.run_id _ svc.sessions s found (λ t. refl) (λ e. refl) h)
      ]

  pub failed-HasEnded :
      (now : ℕ) (error : Text) (s : Session) (svc : Service)
      → find_session s.run_id svc.sessions ≡ some s
      → HasEnded svc
      → HasEnded (failed_service now error s svc)
  unfolding failed_service persist publish_snapshot
  failed-HasEnded now error s svc found h =
      ended-modify s.run_id _ svc.sessions s found (λ t. refl) (λ e. refl) h
