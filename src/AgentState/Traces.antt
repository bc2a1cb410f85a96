-- ===== src/AgentState/Traces.antt =====
-- Any sequence of calls of the workers and of the tools, each made after the one before it has returned.
use comet_l.Prelude.{
  ℕ, ◌≡◌, refl, Bool, false, Option, List, [], ◌∷◌, Text, text_eq, arith, Bool-cases, inl, inr,
}
use comet_l.MethodKeys.{build_method_key}
use comet_l.AgentState.Types.{TargetInfo, WorkerResult, State}
use comet_l.AgentState.{
  acquire_target, release_target, is_blacklisted, update_target, clear_failed, failed_signature,
  add_failed_target, add_action, add_batch_result, mark_target_processed, add_improvement,
  increment_llm_calls, update,
}
use comet_l.AgentState.Invariant.{
  IsState, acquire_target-IsState, release_target-IsState, mark_target_processed-IsState,
}

pub data Call : Type 0 where
  acquire : (now : ℕ) (class_name name : Text) (signature : Option Text) → Call
  release :
      (now : ℕ) (class_name name : Text) (signature : Option Text) (success : Bool)
      (result : Option WorkerResult)
      → Call
  fail : (class_name name reason : Text) (signature : Option Text) → Call
  act : (action : Text) (success : Bool) → Call
  finish_batch : List WorkerResult → Call
  mark : (key : Text) → Call
  move_on : (target : Option TargetInfo) → Call
  improve : (improvement : Text) → Call
  count_calls : (count : ℕ) → Call
  report : (iteration llm_calls : Option ℕ) → Call

module _ (digest : Text → Text) where
  unfoldable pub step : Call → State → State
  unfolding acquire_target release_target add_failed_target add_action add_batch_result
      mark_target_processed update_target add_improvement increment_llm_calls
  step (acquire now c m signature) s = (acquire_target digest now c m signature s).0
  step (release now c m signature success result) s =
      release_target digest now c m signature success result s
  step (fail c m reason signature) s = add_failed_target digest c m reason signature s
  step (act action success) s = add_action action success s
  step (finish_batch results) s = add_batch_result results s
  step (mark key) s = mark_target_processed key s
  step (move_on target) s = (update_target target s).0
  step (improve improvement) s = add_improvement improvement s
  step (count_calls count) s = increment_llm_calls count s
  step (report iteration llm_calls) s = update iteration llm_calls s

  unfoldable pub run : List Call → State → State
  unfolding step
  run [] s = s
  run (c ∷ cs) s = run cs (step c s)

  -- The call gives the key back.
  abbrev pub releases : Text → Call → Bool
  releases key (release now c m signature success result) =
      text_eq (build_method_key digest c m signature) key
  releases key _ = false

-- The fields that the tables of targets stand in.
pub record SameTables (s t : State) : Type 0 where
  pub active : t.active_targets ≡ s.active_targets
  pub lifecycle : t.target_lifecycle ≡ s.target_lifecycle
  pub counter : t.target_order_counter ≡ s.target_order_counter
  pub processed : t.processed_targets ≡ s.processed_targets

IsState-same : (s t : State) → SameTables s t → IsState s → IsState t
IsState-same s t e h = record {
  active_nodup = rw e.active h.active_nodup;
  active_known = λ k l f. ground (arith, e.active, e.lifecycle, h.active_known k l);
  active_running = λ k l f. h.active_running k l (rw e.active at f);
  order_below = λ k l f. rw e.counter (h.order_below k l (rw e.lifecycle at f));
  order_distinct =
      λ j k l m f g. h.order_distinct j k l m (rw e.lifecycle at f) (rw e.lifecycle at g);
}

pub update_target-SameTables :
    (target : Option TargetInfo) (s : State) → SameTables s (update_target target s).0
unfolding update_target
update_target-SameTables target s = record {
  active = ground arith;
  lifecycle = ground arith;
  counter = ground arith;
  processed = ground arith;
}

pub update_target-failed :
    (target : Option TargetInfo) (s : State)
    → (update_target target s).0.failed_targets ≡ s.failed_targets
unfolding update_target
update_target-failed target s = ground arith

clear_failed-SameTables :
    (digest : Text → Text) (key : Text) (o : Option TargetInfo) (s : State)
    → SameTables s (clear_failed digest key o s)
unfolding update_target
clear_failed-SameTables digest key o s = record {
  active = ground arith;
  lifecycle = ground arith;
  counter = ground arith;
  processed = ground arith;
}

pub clear_failed-failed :
    (digest : Text → Text) (key : Text) (o : Option TargetInfo) (s : State)
    → (clear_failed digest key o s).failed_targets ≡ s.failed_targets
unfolding update_target
clear_failed-failed digest key o s = ground arith

pub add_failed_target-SameTables :
    (digest : Text → Text) (c m reason : Text) (signature : Option Text) (s : State)
    → SameTables s (add_failed_target digest c m reason signature s)
unfolding add_failed_target
add_failed_target-SameTables digest c m reason signature s =
    elim (Bool-cases (
      is_blacklisted (build_method_key digest c m (failed_signature c m signature s.current_target))
        s)) [
          | inl e ↦
              rw (e, add_failed_target)
                (record { active = refl; lifecycle = refl; counter = refl; processed = refl })
          | inr e ↦
              rw (e, add_failed_target)
                (let same =
                    clear_failed-SameTables digest
                      (build_method_key digest c m
                        (failed_signature c m signature s.current_target))
                      s.current_target _ in
                  record {
                    active = same.active;
                    lifecycle = same.lifecycle;
                    counter = same.counter;
                    processed = same.processed;
                  })
        ]

module _ (digest : Text → Text) where
  step-IsState : (c : Call) (s : State) → IsState s → IsState (step digest c s)
  unfolding step add_action add_batch_result add_improvement increment_llm_calls update
  step-IsState (acquire now c m signature) s h = acquire_target-IsState digest now c m signature s h
  step-IsState (release now c m signature success result) s h =
      release_target-IsState digest now c m signature success result s h
  step-IsState (fail c m reason signature) s h =
      IsState-same s _ (add_failed_target-SameTables digest c m reason signature s) h
  step-IsState (act action success) s h =
      IsState-same s _
        (record { active = refl; lifecycle = refl; counter = refl; processed = refl }) h
  step-IsState (finish_batch results) s h =
      IsState-same s _
        (record { active = refl; lifecycle = refl; counter = refl; processed = refl }) h
  step-IsState (mark key) s h = mark_target_processed-IsState key s h
  step-IsState (move_on target) s h = IsState-same s _ (update_target-SameTables target s) h
  step-IsState (improve improvement) s h =
      IsState-same s _
        (record { active = refl; lifecycle = refl; counter = refl; processed = refl }) h
  step-IsState (count_calls count) s h =
      IsState-same s _
        (record { active = refl; lifecycle = refl; counter = refl; processed = refl }) h
  step-IsState (report iteration llm_calls) s h =
      IsState-same s _
        (record { active = refl; lifecycle = refl; counter = refl; processed = refl }) h

  -- Any sequence of calls keeps the tables of targets consistent: a target that is held has the same
  -- record, a running one, in the table of lifecycles, and all records have orders of their own, below
  -- the counter.
  pub run-IsState : (cs : List Call) (s : State) → IsState s → IsState (run digest cs s)
  unfolding run
  run-IsState [] s h = h
  run-IsState (c ∷ cs) s h = run-IsState cs (step digest c s) (step-IsState c s h)
