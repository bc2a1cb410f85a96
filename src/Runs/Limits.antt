-- ===== src/Runs/Limits.antt =====
-- The limits on running tasks: what the scheduler keeps while it claims and dispatches.
use comet_l.Prelude.{
  ℕ, ◌≤◌, ◌<◌, ◌≡◌, ap, ◌∙◌, Bool, true, ◌&&◌, Option, none, some, List, map, Text, text_eq_iff,
  Dict, lookup, count_of, All, arith, Bool-cases, Option-cases, inl, inr,
}
use comet_l.Runs.Types.{is_active, Policy, Session, Thread, launched, Service, same_user}
use comet_l.Runs.Store.{find_session, modify_session}
use comet_l.Runs.Lookup.{
  find_session-modify, count_of-modify, All-modify_session, find_session-map, count_of-map, All-map,
}

abbrev active : Session → Bool
active s = is_active s.status

abbrev active_of : ℕ → Session → Bool
active_of u s = is_active s.status && same_user s.user_id (some u)

abbrev pub active_count : Service → ℕ
active_count svc = count_of (λ s. is_active s.status) svc.sessions

abbrev pub user_active_count : ℕ → Service → ℕ
user_active_count u svc =
    count_of (λ s. is_active s.status && same_user s.user_id (some u)) svc.sessions

same_user→eq : (a : Option ℕ) (u : ℕ) → same_user a (some u) ≡ true → a ≡ some u
same_user→eq none u e = cc
same_user→eq (some a) u e = ground arith

-- Under one deployment policy: no more runs are active than it allows, in all and for each user,
-- and a thread that was launched and has not begun belongs to an active run.
pub record Within (policy : Policy) (ss : List Session) (threads : Dict Thread) : Type 0 where
  pub uniform : All (λ (s : Session). s.policy ≡ policy) ss
  pub in_all : count_of (λ s. is_active s.status) ss ≤ policy.global_max_running_tasks
  pub for_user :
      (u : ℕ)
      → count_of (λ s. is_active s.status && same_user s.user_id (some u)) ss
        ≤ policy.per_user_max_running_tasks
  pub launched_active :
      (id : Text) (s : Session)
      → lookup id threads ≡ some launched
      → find_session id ss ≡ some s
      → is_active s.status ≡ true

abbrev pub WithinLimits : Policy → Service → Type 0
WithinLimits policy svc = Within policy svc.sessions svc.threads

-- A change of sessions that keeps their id, policy and user.
pub record IsUpdate (f : Session → Session) : Type 0 where
  pub same_id : (s : Session) → (f s).run_id ≡ s.run_id
  pub same_policy : (s : Session) → (f s).policy ≡ s.policy
  pub same_owner : (s : Session) → (f s).user_id ≡ s.user_id

module _ (policy : Policy) (threads : Dict Thread) (ss : List Session) where
  -- All sessions are changed and keep their status.
  pub map-Within :
      (f : Session → Session)
      → IsUpdate f
      → ((s : Session) → (f s).status ≡ s.status)
      → Within policy ss threads
      → Within policy (map f ss) threads
  map-Within f keeps same h = record {
    uniform = All-map _ f ss (λ s e. keeps.same_policy s ∙ e) h.uniform;
    in_all = omega (arith, count_of-map active f ss (λ s. ap is_active (same s)), h.in_all);
    for_user = λ u. omega (
      arith,
      count_of-map (active_of u) f ss (λ s. rw (same s, keeps.same_owner s)),
      h.for_user u,
    );
    launched_active = λ id s l e. elim (Option-cases (find_session id ss)) [
      | inl missing ↦ ground (arith, find_session-map id f ss keeps.same_id)
      | inr (t, found) ↦
          ground
            (arith, find_session-map id f ss keeps.same_id, h.launched_active id t l found, same t)
    ];
  }

  module _ (id : Text) (f : Session → Session) (s : Session) (keeps : IsUpdate f)
      (found : find_session id ss ≡ some s) (h : Within policy ss threads) where
    modify_launched :
        (lookup id threads ≡ some launched → is_active (f s).status ≡ true)
        → (j : Text) (t : Session) → lookup j threads ≡ some launched
        → find_session j (modify_session id f ss) ≡ some t
        → is_active t.status ≡ true
    modify_launched still j t l e = ground (
      arith,
      text_eq_iff id j,
      find_session-modify id j f ss keeps.same_id,
      h.launched_active j t l,
      still,
    )

    -- A session that does not become active.
    pub modify-Within :
        (is_active (f s).status ≡ true → is_active s.status ≡ true)
        → (lookup id threads ≡ some launched → is_active (f s).status ≡ true)
        → Within policy (modify_session id f ss) threads
    modify-Within fewer still = record {
      uniform = All-modify_session _ id f ss (λ t e. keeps.same_policy t ∙ e) h.uniform;
      in_all = ground (arith, count_of-modify active id f ss found, h.in_all, fewer);
      for_user = λ u. ground (
        arith,
        count_of-modify (active_of u) id f ss found,
        h.for_user u,
        fewer,
        keeps.same_owner s,
      );
      launched_active = modify_launched still;
    }

    -- A session that becomes active where there is room.
    pub start-Within :
        count_of (λ c. is_active c.status) ss < policy.global_max_running_tasks
        → count_of (λ c. is_active c.status && same_user c.user_id s.user_id) ss
          < policy.per_user_max_running_tasks
        → is_active (f s).status ≡ true
        → Within policy (modify_session id f ss) threads
    start-Within room user_room now_active = record {
      uniform = All-modify_session _ id f ss (λ t e. keeps.same_policy t ∙ e) h.uniform;
      in_all = ground (arith, count_of-modify active id f ss found);
      for_user = λ u. elim (Bool-cases (same_user s.user_id (some u))) [
        | inl own ↦
            let room_of : count_of (active_of u) ss < policy.per_user_max_running_tasks =
              rw (same_user→eq s.user_id u own) at user_room in
            ground (arith, count_of-modify (active_of u) id f ss found, keeps.same_owner s)
        | inr other ↦
            ground
              (arith, count_of-modify (active_of u) id f ss found, h.for_user u, keeps.same_owner s)
      ];
      launched_active = modify_launched (λ l. now_active);
    }
