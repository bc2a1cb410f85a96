-- ===== src/AgentState/Blacklist.antt =====
-- What a failure leaves, and the counts of the batches.
use mathlib.Core.Path.{subst}
use comet_l.Prelude.{
  ◌+◌, ◌≡◌, refl, Bool, true, false, not, Option, none, some, List, [], ◌∷◌, ◌++◌, Text, text_eq,
  text_eq_iff, count_of, length, length-append, arith, Bool-cases, Option-cases, inl, inr,
}
use comet_l.MethodKeys.{build_method_key}
use comet_l.AgentState.Types.{FailedTarget, TargetInfo, WorkerResult, State}
use comet_l.AgentState.{
  same_text, is_blacklisted, update_target, clear_failed, key_of_target, failed_signature,
  add_failed_target, add_batch_result,
}
use comet_l.AgentState.Exclusive.{any_of-append}
use comet_l.AgentState.Traces.{clear_failed-failed}

update_target-none : (s : State) → (update_target none s).0.current_target ≡ none
unfolding update_target
update_target-none s = elim (Option-cases s.current_target) [
  | inl e ↦ rw (e, update_target) refl
  | inr (t, e) ↦ rw (e, update_target) refl
]

clear_failed-current :
    (digest : Text → Text) (key : Text) (o : Option TargetInfo) (s : State) (t : TargetInfo)
    → s.current_target ≡ o
    → (clear_failed digest key o s).current_target ≡ some t
    → same_text (key_of_target digest t) key ≡ false
unfolding update_target
clear_failed-current digest key none s t e f = cc
clear_failed-current digest key (some u) s t e f =
    elim (Bool-cases (same_text (key_of_target digest u) key)) [
      | inl same ↦
          let gone : (update_target none s).0.current_target ≡ some t =
            rw (same, clear_failed) at f in
          absurd (cc (update_target-none s, gone))
      | inr other ↦
          let kept : s.current_target ≡ some t = rw (other, clear_failed) at f in
          let own : u ≡ t = cc in
          subst (λ t. same_text (key_of_target digest t) key ≡ false) own other
    ]

-- A failure puts the key of the method into the blacklist and, if it was not there, leaves no
-- current target with that key.
pub add_failed_target_effect :
    (digest : Text → Text) (c m reason : Text) (signature : Option Text) (s : State)
    → let key = build_method_key digest c m (failed_signature c m signature s.current_target) in
      let s' = add_failed_target digest c m reason signature s in
      (is_blacklisted key s' ≡ true)
      × ((t : TargetInfo)
          → is_blacklisted key s ≡ false
          → s'.current_target ≡ some t
          → same_text (key_of_target digest t) key ≡ false)
unfolding add_failed_target
add_failed_target_effect digest c m reason signature s =
    let used = failed_signature c m signature s.current_target in
    let key = build_method_key digest c m used in
    let entry : FailedTarget = record {
      target = key;
      class_name = c;
      method_name = m;
      method_signature = used;
      reason = reason;
      iteration = s.iteration;
    } in
    let added = record s { failed_targets = s.failed_targets ++ entry ∷ [] } in
    elim (Bool-cases (is_blacklisted key s)) [
      | inl e ↦ rw (e, add_failed_target) (e, λ t new. absurd cc)
      | inr e ↦
          rw (e, add_failed_target)
            (
              ground (
                arith,
                text_eq_iff key key,
                any_of-append (λ (ft : FailedTarget). text_eq ft.target key) s.failed_targets entry,
                clear_failed-failed digest key s.current_target added,
              ),
              λ t new f. clear_failed-current digest key s.current_target added t refl f,
            )
    ]

count_of-not :
    (p : WorkerResult → Bool) (rs : List WorkerResult)
    → count_of p rs + count_of (λ r. not (p r)) rs ≡ length rs
count_of-not p [] = refl
count_of-not p (r ∷ rs) = ground (arith, count_of-not p rs)

-- Every worker of every batch either processed its target or failed, and the batches are counted.
pub record IsCounted (s : State) : Type 0 where
  pub batches : s.parallel_stats.total_batches ≡ length s.batch_results
  pub current : s.current_batch ≡ length s.batch_results
  pub workers :
      s.parallel_stats.total_workers_spawned
      ≡ s.parallel_stats.total_targets_processed + s.parallel_stats.failed_targets_in_parallel

-- The counts stay in step with the batches.
pub add_batch_result-IsCounted :
    (results : List WorkerResult) (s : State) → IsCounted s → IsCounted (add_batch_result results s)
unfolding add_batch_result
add_batch_result-IsCounted results s h = record {
  batches = omega (arith, length-append s.batch_results (results ∷ []), h.batches);
  current = omega (arith, length-append s.batch_results (results ∷ []), h.current);
  workers = omega (arith, count_of-not (λ (r : WorkerResult). r.success) results, h.workers);
}
