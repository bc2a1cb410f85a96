-- ===== src/Runs/Claims.antt =====
-- What a claim does to the sessions that it closes and to the one that it takes.
use comet_l.Prelude.{
  ℕ, ◌<◌, ◌≡◌, refl, true, false, ◌&&◌, Option, none, some, List, [], ◌∷◌, map, Text, Dict,
  contains, count_of, arith, Option-cases, inl, inr,
}
use comet_l.Runs.Types.{pending, is_active, Policy, Session, Thread, Service, same_user}
use comet_l.Runs.Store.{find_session, persist, publish_snapshot}
use comet_l.Runs.Queue.{refresh_queue_positions, reposition, queue_positions}
use comet_l.Runs.Scheduler.{
  cancel_session, start_session, drop_cancelled, claim_session, Choice, skip, drop, claim, choose,
  claim_from,
}
use comet_l.Runs.Lookup.{All-found}
use comet_l.Runs.Limits.{IsUpdate, Within, WithinLimits, map-Within, modify-Within, start-Within}

-- What a choice tells of the session.
pub record IsClaimable (s : Session) (svc : Service) : Type 0 where
  pub waits : s.status ≡ pending
  pub known : contains s.run_id svc.specs ≡ true
  pub wanted : s.cancel_requested ≡ false
  pub room : count_of (λ c. is_active c.status) svc.sessions < s.policy.global_max_running_tasks
  pub user_room :
      count_of (λ c. is_active c.status && same_user c.user_id s.user_id) svc.sessions
      < s.policy.per_user_max_running_tasks

choose-claim : (s : Session) (svc : Service) → choose s svc ≡ claim → IsClaimable s svc
unfolding choose
choose-claim s svc e = ground arith

pub choose-drop : (s : Session) (svc : Service) → choose s svc ≡ drop → s.status ≡ pending
unfolding choose
choose-drop s svc e = ground arith

cancel-IsUpdate : (now : ℕ) → IsUpdate (cancel_session now)
cancel-IsUpdate now = record {
  same_id = λ s. refl;
  same_policy = λ s. refl;
  same_owner = λ s. refl;
}

start-IsUpdate : (now : ℕ) → IsUpdate (start_session now)
start-IsUpdate now = record { same_id = λ s. refl; same_policy = λ s. refl; same_owner = λ s. refl }

pub refresh-Within :
    (policy : Policy) (ss : List Session) (threads : Dict Thread)
    → Within policy ss threads
    → Within policy (map (reposition (queue_positions ss)) ss) threads
refresh-Within policy ss threads =
    map-Within policy threads ss (reposition (queue_positions ss))
      (record { same_id = λ s. refl; same_policy = λ s. refl; same_owner = λ s. refl }) (λ s. refl)

pub refresh-WithinLimits :
    (policy : Policy) (svc : Service)
    → WithinLimits policy svc
    → WithinLimits policy (refresh_queue_positions svc)
unfolding refresh_queue_positions
refresh-WithinLimits policy svc = refresh-Within policy svc.sessions svc.threads

module _ (policy : Policy) (now : ℕ) where
  pub drop-WithinLimits :
      (id : Text) (svc : Service) (s : Session)
      → find_session id svc.sessions ≡ some s
      → s.status ≡ pending
      → WithinLimits policy svc
      → WithinLimits policy (drop_cancelled now id svc)
  unfolding persist
  drop-WithinLimits id svc s found waits h =
      modify-Within policy svc.threads svc.sessions id (cancel_session now) s (cancel-IsUpdate now)
        found h (λ a. cc) (λ l. let a = h.launched_active id s l found in ground arith)

  pub claim-WithinLimits :
      (id : Text) (svc : Service) (s : Session)
      → find_session id svc.sessions ≡ some s
      → IsClaimable s svc
      → WithinLimits policy svc
      → WithinLimits policy (claim_session now id svc)
  unfolding persist publish_snapshot
  claim-WithinLimits id svc s found c h =
      let same : s.policy ≡ policy = All-found _ id svc.sessions h.uniform found in
      start-Within policy svc.threads svc.sessions id (start_session now) s (start-IsUpdate now)
        found h (ground (arith, c.room)) (ground (arith, c.user_room)) refl

-- To prove what a claim gives: what holds before it holds after each session that it closes, and
-- gives the goal at the end of the queue and at the session that it takes.
module _ {κ μ} (now : ℕ) (I : Service → Type κ) (Q : Service × Option Text → Type μ)
    (closed : (id : Text) (svc : Service) (s : Session)
      → find_session id svc.sessions ≡ some s
      → s.status ≡ pending
      → I svc
      → I (drop_cancelled now id svc))
    (nothing : (svc : Service) → I svc → Q (svc, none))
    (taken : (id : Text) (svc : Service) (s : Session)
      → find_session id svc.sessions ≡ some s
      → IsClaimable s svc
      → I svc
      → Q (claim_session now id svc, some id)) where
  pub claim_from_rule : (ids : List Text) (svc : Service) → I svc → Q (claim_from now ids svc)
  unfolding claim_from
  claim_from_rule [] svc h = nothing svc h
  claim_from_rule (id ∷ ids) svc h = elim (Option-cases (find_session id svc.sessions)) [
    | inl missing ↦ rw (missing, claim_from) (claim_from_rule ids svc h)
    | inr (s, found) ↦
        rw (found, claim_from)
          (chosen s found (choose s svc) refl (claim_from_rule ids svc h)
            (claim_from_rule ids (drop_cancelled now id svc)))
  ]
    where
      chosen :
          (s : Session)
          → find_session id svc.sessions ≡ some s
          → (c : Choice) → choose s svc ≡ c
          → Q (claim_from now ids svc)
          → (I (drop_cancelled now id svc) → Q (claim_from now ids (drop_cancelled now id svc)))
          → Q (elim c as (λ _. Service × Option Text) [
            | skip ↦ claim_from now ids svc
            | drop ↦ claim_from now ids (drop_cancelled now id svc)
            | claim ↦ (claim_session now id svc, some id)
          ])
      chosen s found skip e q d = q
      chosen s found drop e q d = d (closed id svc s found (choose-drop s svc e) h)
      chosen s found claim e q d = taken id svc s found (choose-claim s svc e) h
