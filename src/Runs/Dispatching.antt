-- ===== src/Runs/Dispatching.antt =====
-- A dispatch ends, and keeps the limits on running tasks.
use comet_l.Prelude.{
  ℕ, zero, suc, ◌≤◌, ◌<◌, ◌≡◌, refl, sym, ◌∙◌, true, Option, none, some, Text, text_eq_iff,
  lookup-insert, contains, count_of, arith, Option-cases, inl, inr,
}
use comet_l.Runs.Types.{is_active, is_pending, Policy, Session, launched, Service}
use comet_l.Runs.Store.{find_session, persist, publish_snapshot}
use comet_l.Runs.Queue.{refresh_queue_positions, reposition, queue_positions}
use comet_l.Runs.Scheduler.{
  cancel_session, start_session, claim_session, claim_next_pending_run, start_claimed_run,
  dispatch_from, dispatch_pending_runs,
}
use comet_l.Runs.Lookup.{find_session-run_id, find_session-modify, count_of-modify, count_of-map}
use comet_l.Runs.Limits.{WithinLimits}
use comet_l.Runs.Claims.{
  refresh-WithinLimits, drop-WithinLimits, claim-WithinLimits, claim_from_rule,
}

pub claim_next-WithinLimits :
    (policy : Policy) (now : ℕ) (svc : Service)
    → WithinLimits policy svc
    → WithinLimits policy (claim_next_pending_run now svc).0
unfolding claim_next_pending_run
claim_next-WithinLimits policy now svc =
    claim_from_rule now (WithinLimits policy) (λ r. WithinLimits policy r.0)
      (drop-WithinLimits policy now) (λ svc h. h) (claim-WithinLimits policy now) _ svc

pub start_claimed-WithinLimits :
    (policy : Policy) (id : Text) (svc : Service)
    → ((s : Session) → find_session id svc.sessions ≡ some s → is_active s.status ≡ true)
    → WithinLimits policy svc
    → WithinLimits policy (start_claimed_run id svc)
start_claimed-WithinLimits policy id svc started h = record {
  uniform = h.uniform;
  in_all = h.in_all;
  for_user = h.for_user;
  launched_active = λ j s l e. ground (
    arith,
    lookup-insert id j launched svc.threads,
    text_eq_iff id j,
    started s,
    h.launched_active j s,
  );
}

claimed_found :
    (now : ℕ) (id : Text) (svc : Service) {s t : Session}
    → find_session id svc.sessions ≡ some s
    → find_session id (claim_session now id svc).sessions ≡ some t
    → is_active t.status ≡ true
unfolding persist publish_snapshot
claimed_found now id svc f found = ground (
  arith,
  find_session-modify id id (start_session now) svc.sessions (λ s. refl),
  text_eq_iff id id,
)

-- The run that a claim names is active.
claimed_active :
    (now : ℕ) (svc : Service) (id : Text)
    → (claim_next_pending_run now svc).1 ≡ some id
    → (s : Session) → find_session id (claim_next_pending_run now svc).0.sessions ≡ some s
    → is_active s.status ≡ true
unfolding claim_next_pending_run
claimed_active now svc =
    claim_from_rule now (λ svc. Unit {0})
      (λ r.
        (id : Text)
        → r.1 ≡ some id
        → (s : Session) → find_session id r.0.sessions ≡ some s
        → is_active s.status ≡ true)
      (λ id svc s f w h. tt) (λ svc h id e. cc)
      (λ id svc s f c h j e t found.
        let same : j ≡ id = cc in claimed_found now id svc f (rw same at found))
      _ svc tt

-- The run that a claim names has a specification.
claimed_known :
    (now : ℕ) (svc : Service) (id : Text)
    → (claim_next_pending_run now svc).1 ≡ some id
    → contains id (claim_next_pending_run now svc).0.specs ≡ true
unfolding claim_next_pending_run persist publish_snapshot
claimed_known now svc =
    claim_from_rule now (λ svc. Unit {0})
      (λ r. (id : Text) → r.1 ≡ some id → contains id r.0.specs ≡ true) (λ id svc s f w h. tt)
      (λ svc h id e. cc)
      (λ id svc s f c h j e.
        let same : s.run_id ≡ j = find_session-run_id id svc.sessions f ∙ cc in rw same at c.known)
      _ svc tt

abbrev pub pending_count : Service → ℕ
pending_count svc = count_of (λ s. is_pending s.status) svc.sessions

-- A claim takes a run out of the queue.
claimed_fewer :
    (now : ℕ) (svc : Service) (id : Text)
    → (claim_next_pending_run now svc).1 ≡ some id
    → pending_count (claim_next_pending_run now svc).0 < pending_count svc
unfolding claim_next_pending_run persist publish_snapshot
claimed_fewer now svc =
    claim_from_rule now (λ svc'. pending_count svc' ≤ pending_count svc)
      (λ r. (id : Text) → r.1 ≡ some id → pending_count r.0 < pending_count svc)
      (λ id svc s f w h.
        ground (
          arith,
          count_of-modify (λ s. is_pending s.status) id (cancel_session now) svc.sessions f,
        ))
      (λ svc h id e. cc)
      (λ id svc s f c h j e. ground (
        arith,
        c.waits,
        count_of-modify (λ s. is_pending s.status) id (start_session now) svc.sessions f,
      ))
      _ svc (omega arith)

refresh-pending_count :
    (svc : Service) → pending_count (refresh_queue_positions svc) ≡ pending_count svc
unfolding refresh_queue_positions
refresh-pending_count svc =
    count_of-map (λ s. is_pending s.status) (reposition (queue_positions svc.sessions)) svc.sessions
      (λ s. refl)

-- One round of the loop.
abbrev pub round : ℕ → Service → Service × Option Text
round now svc = claim_next_pending_run now (refresh_queue_positions svc)

pub dispatch_from-stop :
    (fuel now : ℕ) (svc : Service)
    → (round now svc).1 ≡ none
    → dispatch_from (suc fuel) now svc ≡ some (round now svc).0
unfolding dispatch_from
dispatch_from-stop fuel now svc e = ground arith

pub dispatch_from-next :
    (fuel now : ℕ) (svc : Service) (id : Text)
    → (round now svc).1 ≡ some id
    → dispatch_from (suc fuel) now svc
      ≡ dispatch_from fuel now (start_claimed_run id (round now svc).0)
unfolding dispatch_from
dispatch_from-next fuel now svc id e =
    ground (arith, claimed_known now (refresh_queue_positions svc) id e)

-- However many sessions wait, the loop keeps the limits.
pub dispatch_from-WithinLimits :
    (policy : Policy) (fuel now : ℕ) (svc : Service) {svc' : Service}
    → WithinLimits policy svc
    → dispatch_from fuel now svc ≡ some svc'
    → WithinLimits policy svc'
dispatch_from-WithinLimits policy zero now svc h e = unfold dispatch_from in cc
dispatch_from-WithinLimits policy (suc fuel) now svc {svc'} h e =
    let h' =
      claim_next-WithinLimits policy now (refresh_queue_positions svc)
        (refresh-WithinLimits policy svc h) in
    elim (Option-cases (round now svc).1) [
      | inl stop ↦
          let same : (round now svc).0 ≡ svc' = cc (dispatch_from-stop fuel now svc stop) in
          rw same at h'
      | inr (id, next) ↦
          dispatch_from-WithinLimits policy fuel now (start_claimed_run id (round now svc).0)
            (start_claimed-WithinLimits policy id (round now svc).0
              (claimed_active now (refresh_queue_positions svc) id next) h')
            (sym (dispatch_from-next fuel now svc id next) ∙ e)
    ]

-- With more fuel than pending sessions the loop ends.
pub dispatch_from_total :
    (fuel now : ℕ) (svc : Service)
    → pending_count svc < fuel
    → (svc' : Service) × (dispatch_from fuel now svc ≡ some svc')
dispatch_from_total zero now svc h = absurd (omega arith)
dispatch_from_total (suc fuel) now svc h = elim (Option-cases (round now svc).1) [
  | inl stop ↦ ((round now svc).0, dispatch_from-stop fuel now svc stop)
  | inr (id, next) ↦
      let (svc', e) = dispatch_from_total fuel now (start_claimed_run id (round now svc).0) (
        omega (
          arith,
          claimed_fewer now (refresh_queue_positions svc) id next,
          refresh-pending_count svc,
        )) in
      (svc', dispatch_from-next fuel now svc id next ∙ e)
]

-- `dispatch_pending_runs` always ends: each round takes a run out of the queue.
pub dispatch_pending_runs_total :
    (now : ℕ) (svc : Service) → (svc' : Service) × (dispatch_pending_runs now svc ≡ some svc')
unfolding dispatch_pending_runs
dispatch_pending_runs_total now svc =
    dispatch_from_total (suc (pending_count svc)) now svc (omega arith)

-- A dispatch keeps the limits on running tasks.
pub dispatch_pending_runs-WithinLimits :
    (policy : Policy) (now : ℕ) (svc : Service) {svc' : Service}
    → WithinLimits policy svc
    → dispatch_pending_runs now svc ≡ some svc'
    → WithinLimits policy svc'
unfolding dispatch_pending_runs
dispatch_pending_runs-WithinLimits policy now svc =
    dispatch_from-WithinLimits policy (suc (pending_count svc)) now svc
