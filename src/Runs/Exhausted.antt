-- ===== src/Runs/Exhausted.antt =====
-- A dispatch leaves no run in the queue that could start.
use mathlib.Core.Path.{subst}
use comet_l.Prelude.{
  ℕ, zero, suc, ◌<◌, ◌≡◌, refl, sym, ◌∙◌, true, false, ◌&&◌, Option, none, some, List, [], ◌∷◌, map,
  Text, text_eq, text_eq_iff, contains, count_of, count_of-sort_by, sort_by, arith, Bool-cases,
  Option-cases, inl, inr,
}
use comet_l.Runs.Types.{pending, is_active, Session, Service, same_user}
use comet_l.Runs.Store.{find_session, persist}
use comet_l.Runs.Queue.{can_start_session, queued_before, refresh_queue_positions}
use comet_l.Runs.Scheduler.{
  cancel_session, drop_cancelled, claim_session, Choice, skip, drop, claim, choose, claim_from,
  queue_order, claim_next_pending_run, start_claimed_run, dispatch_from, dispatch_pending_runs,
}
use comet_l.Runs.Lookup.{find_session-modify, count_of-modify}
use comet_l.Runs.Claims.{claim_from_rule, choose-drop}
use comet_l.Runs.Dispatching.{round, dispatch_from-stop, dispatch_from-next, pending_count}

module _ (id : Text) where
  -- The loop of the claim would pass over the session of this id.
  abbrev IsSkipped : Service → Type 0
  IsSkipped svc = (s : Session) → find_session id svc.sessions ≡ some s → choose s svc ≡ skip

  drop-IsSkipped :
      (now : ℕ) (j : Text) (svc : Service) (s : Session)
      → find_session j svc.sessions ≡ some s
      → s.status ≡ pending
      → (text_eq j id ≡ false → IsSkipped svc)
      → IsSkipped (drop_cancelled now j svc)
  unfolding choose persist can_start_session
  drop-IsSkipped now j svc s found waits h t e = ground (
    arith,
    find_session-modify j id (cancel_session now) svc.sessions (λ s. refl),
    text_eq_iff j id,
    count_of-modify (λ c. is_active c.status) j (cancel_session now) svc.sessions found,
    count_of-modify (λ c. is_active c.status && same_user c.user_id t.user_id) j
        (cancel_session now) svc.sessions found,
    λ (o : text_eq j id ≡ false). h o t,
  )

  -- A session that would be passed over stays so, until a claim finds nothing.
  claim_from-IsSkipped :
      (now : ℕ) (ids : List Text) (svc : Service)
      → IsSkipped svc
      → (claim_from now ids svc).1 ≡ none
      → IsSkipped (claim_from now ids svc).0
  claim_from-IsSkipped now ids svc =
      claim_from_rule now IsSkipped (λ r. r.1 ≡ none → IsSkipped r.0)
        (λ j svc s found waits h. drop-IsSkipped now j svc s found waits (λ o. h)) (λ svc h e. h)
        (λ j svc s found c h e. absurd cc) ids svc

  -- What a claim that finds nothing leaves.
  abbrev IsPassed : Service × Option Text → Type 0
  IsPassed r = r.1 ≡ none → IsSkipped r.0

  onward :
      (now : ℕ) (j : Text) (js : List Text) (svc : Service)
      → contains id (j ∷ js) ≡ true
      → (text_eq j id ≡ true → IsSkipped svc)
      → (contains id js ≡ true → IsPassed (claim_from now js svc))
      → IsPassed (claim_from now js svc)
  onward now j js svc k own rest e = elim (Bool-cases (text_eq j id)) [
    | inl same ↦ claim_from-IsSkipped now js svc (own same) e
    | inr other ↦ rest (ground arith) e
  ]

  -- Each session that the loop has come by would be passed over in the end.
  claim_from-IsPassed :
      (now : ℕ) (ids : List Text) (svc : Service)
      → contains id ids ≡ true
      → IsPassed (claim_from now ids svc)
  unfolding claim_from
  claim_from-IsPassed now [] svc k = absurd cc
  claim_from-IsPassed now (j ∷ js) svc k = elim (Option-cases (find_session j svc.sessions)) [
    | inl missing ↦
        rw (missing, claim_from)
          (onward now j js svc k (λ same t e. absurd (ground (arith, text_eq_iff j id, missing, e)))
            (claim_from-IsPassed now js svc))
    | inr (s, found) ↦
        rw (found, claim_from)
          (chosen s found (choose s svc) refl (claim_from-IsPassed now js svc)
            (claim_from-IsPassed now js (drop_cancelled now j svc)))
  ]
    where
      chosen :
          (s : Session)
          → find_session j svc.sessions ≡ some s
          → (c : Choice) → choose s svc ≡ c
          → (contains id js ≡ true → IsPassed (claim_from now js svc))
          → (contains id js ≡ true → IsPassed (claim_from now js (drop_cancelled now j svc)))
          → IsPassed (elim c as (λ _. Service × Option Text) [
            | skip ↦ claim_from now js svc
            | drop ↦ claim_from now js (drop_cancelled now j svc)
            | claim ↦ (claim_session now j svc, some j)
          ])
      chosen s found skip e q d =
          onward now j js svc k
            (λ same t f.
              let own : s ≡ t = ground (arith, text_eq_iff j id) in
              subst (λ t. choose t svc ≡ skip) own e)
            q
      chosen s found drop e q d =
          onward now j js (drop_cancelled now j svc) k
            (λ same. drop-IsSkipped now j svc s found (choose-drop s svc e) (λ other. absurd cc)) d
      chosen s found claim e q d = λ n. absurd cc

  -- A session that is not there is not there after a claim.
  claim_from-absent :
      (now : ℕ) (ids : List Text) (svc : Service)
      → find_session id svc.sessions ≡ none
      → (claim_from now ids svc).1 ≡ none
      → find_session id (claim_from now ids svc).0.sessions ≡ none
  unfolding persist
  claim_from-absent now ids svc =
      claim_from_rule now (λ svc. find_session id svc.sessions ≡ none)
        (λ r. r.1 ≡ none → find_session id r.0.sessions ≡ none)
        (λ j svc s found waits h. dropped j svc h) (λ svc h e. h) (λ j svc s found c h e. absurd cc)
        ids svc
    where
      dropped :
          (j : Text) (svc : Service)
          → find_session id svc.sessions ≡ none
          → find_session id (drop_cancelled now j svc).sessions ≡ none
      dropped j svc h =
          ground (arith, find_session-modify j id (cancel_session now) svc.sessions (λ s. refl))

  found-count :
      (ss : List Session) {s : Session}
      → find_session id ss ≡ some s
      → 0 < count_of (λ (t : Session). text_eq t.run_id id) ss
  unfolding find_session
  found-count [] e = absurd cc
  found-count (t ∷ ss) {s} e = ground (arith, λ (h : find_session id ss ≡ some s). found-count ss h)

  contains-count :
      (ss : List Session)
      → 0 < count_of (λ (t : Session). text_eq t.run_id id) ss
      → contains id (map (λ (t : Session). t.run_id) ss) ≡ true
  contains-count [] h = absurd (omega arith)
  contains-count (t ∷ ss) h = ground (arith, contains-count ss)

  -- Every session stands in the order of the queue.
  queue_order-contains :
      (ss : List Session) {s : Session}
      → find_session id ss ≡ some s
      → contains id (queue_order ss) ≡ true
  queue_order-contains ss e = contains-count (sort_by queued_before ss) (
      omega (
        arith,
        found-count ss e,
        count_of-sort_by queued_before (λ (t : Session). text_eq t.run_id id) ss,
      ))

  claim_next-IsPassed : (now : ℕ) (svc : Service) → IsPassed (claim_next_pending_run now svc)
  unfolding claim_next_pending_run
  claim_next-IsPassed now svc e t f = elim (Option-cases (find_session id svc.sessions)) [
    | inl missing ↦ absurd (cc (claim_from-absent now (queue_order svc.sessions) svc missing e))
    | inr (s, found) ↦
        claim_from-IsPassed now (queue_order svc.sessions) svc
          (queue_order-contains svc.sessions found) e t f
  ]

  dispatch_from-IsSkipped :
      (fuel now : ℕ) (svc : Service) {svc' : Service}
      → dispatch_from fuel now svc ≡ some svc'
      → IsSkipped svc'
  dispatch_from-IsSkipped zero now svc e = unfold dispatch_from in cc
  dispatch_from-IsSkipped (suc fuel) now svc {svc'} e = elim (Option-cases (round now svc).1) [
    | inl stop ↦
        let same : (round now svc).0 ≡ svc' = cc (dispatch_from-stop fuel now svc stop) in
        rw same at (claim_next-IsPassed now (refresh_queue_positions svc) stop)
    | inr (j, next) ↦
        dispatch_from-IsSkipped fuel now (start_claimed_run j (round now svc).0)
          (sym (dispatch_from-next fuel now svc j next) ∙ e)
  ]

  choose-skip :
      (s : Session) (svc : Service)
      → choose s svc ≡ skip
      → s.status ≡ pending
      → contains s.run_id svc.specs ≡ true
      → (s.cancel_requested ≡ false) × (can_start_session s svc.sessions ≡ false)
  unfolding choose
  choose-skip s svc e waits known = ground arith

  -- After a dispatch, a run that is still pending and was given a specification is not cancelled
  -- and may not start: the limits leave no room for it.
  pub dispatch_pending_runs_exhausted :
      (now : ℕ) (svc : Service) {svc' : Service} (s : Session)
      → dispatch_pending_runs now svc ≡ some svc'
      → find_session id svc'.sessions ≡ some s
      → s.status ≡ pending
      → contains s.run_id svc'.specs ≡ true
      → (s.cancel_requested ≡ false) × (can_start_session s svc'.sessions ≡ false)
  unfolding dispatch_pending_runs
  dispatch_pending_runs_exhausted now svc {svc'} s e found =
      choose-skip s svc' (dispatch_from-IsSkipped (suc (pending_count svc)) now svc e s found)
