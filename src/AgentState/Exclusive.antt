-- ===== src/AgentState/Exclusive.antt =====
-- Two workers never hold one target, and a target that is done with is not taken again.
use comet_l.Prelude.{
  ℕ, ◌≡◌, refl, ap, Bool, true, false, ◌||◌, Option, List, [], ◌∷◌, ◌++◌, Text, text_eq,
  text_eq_iff, lookup-insert, lookup-erase_ne, has_key, contains, All, arith, Bool-cases, inl, inr,
  any_of,
}
use comet_l.MethodKeys.{build_method_key}
use comet_l.AgentState.Types.{FailedTarget, WorkerResult, State}
use comet_l.AgentState.{
  is_taken, new_lifecycle, acquire_target, lifecycle_of, give_back, mark_target_processed,
  release_target, is_blacklisted, failed_signature, add_failed_target, add_action, add_batch_result,
  add_improvement, increment_llm_calls, update,
}
use comet_l.AgentState.Invariant.{contains-append}
use comet_l.AgentState.Traces.{
  Call, acquire, release, fail, act, finish_batch, mark, move_on, improve, count_calls, report,
  step, run, releases, clear_failed-failed, add_failed_target-SameTables, update_target-SameTables,
  update_target-failed,
}

pub any_of-append :
    {A : Type 0} (p : A → Bool) (xs : List A) (y : A)
    → any_of p (xs ++ y ∷ []) ≡ (any_of p xs || p y)
any_of-append p [] y = ground arith
any_of-append p (x ∷ xs) y = ground (arith, any_of-append p xs y)

module _ (digest : Text → Text) (key : Text) where
  -- A worker holds the key.
  abbrev pub IsHeld : State → Type 0
  IsHeld s = has_key key s.active_targets ≡ true

  -- The key was processed, or stands in the blacklist.
  abbrev pub IsDone : State → Type 0
  IsDone s = (contains key s.processed_targets || is_blacklisted key s) ≡ true

  mark-active :
      (k : Text) (s : State) → (mark_target_processed k s).active_targets ≡ s.active_targets
  unfolding mark_target_processed
  mark-active k s = ground arith

  acquire-IsHeld :
      (now : ℕ) (c m : Text) (signature : Option Text) (s : State)
      → IsHeld s
      → IsHeld (acquire_target digest now c m signature s).0
  unfolding acquire_target
  acquire-IsHeld now c m signature s h =
      let k = build_method_key digest c m signature in
      elim (Bool-cases (is_taken k s)) [
        | inl e ↦ rw e h
        | inr e ↦ rw e (
            ground (
              arith,
              h,
              lookup-insert k key (new_lifecycle now k c m signature s.target_order_counter)
                  s.active_targets,
            ))
      ]

  release-IsHeld :
      (now : ℕ) (c m : Text) (signature : Option Text) (success : Bool)
      (result : Option WorkerResult) (s : State)
      → text_eq (build_method_key digest c m signature) key ≡ false
      → IsHeld s
      → IsHeld (release_target digest now c m signature success result s)
  unfolding release_target
  release-IsHeld now c m signature success result s other h =
      let k = build_method_key digest c m signature in
      let freed = give_back now k success result (lifecycle_of now k c m signature s) s in
      let kept : has_key key freed.active_targets ≡ true =
        ground (arith, h, text_eq_iff k key, lookup-erase_ne k key s.active_targets) in
      ground (arith, kept, mark-active k freed)

  step-IsHeld :
      (c : Call) (s : State) → releases digest key c ≡ false → IsHeld s → IsHeld (step digest c s)
  unfolding step add_action add_batch_result add_improvement increment_llm_calls update
  step-IsHeld (acquire now c m signature) s other h = acquire-IsHeld now c m signature s h
  step-IsHeld (release now c m signature success result) s other h =
      release-IsHeld now c m signature success result s other h
  step-IsHeld (fail c m reason signature) s other h =
      rw (ap (has_key key) (add_failed_target-SameTables digest c m reason signature s).active) h
  step-IsHeld (act action success) s other h = h
  step-IsHeld (finish_batch results) s other h = h
  step-IsHeld (mark k) s other h = rw (ap (has_key key) (mark-active k s)) h
  step-IsHeld (move_on target) s other h =
      rw (ap (has_key key) (update_target-SameTables target s).active) h
  step-IsHeld (improve improvement) s other h = h
  step-IsHeld (count_calls count) s other h = h
  step-IsHeld (report iteration llm_calls) s other h = h

  run-IsHeld :
      (cs : List Call) (s : State)
      → All (λ c. releases digest key c ≡ false) cs
      → IsHeld s
      → IsHeld (run digest cs s)
  unfolding run
  run-IsHeld [] s other h = h
  run-IsHeld (c ∷ cs) s other h =
      run-IsHeld cs (step digest c s) other.1 (step-IsHeld c s other.0 h)

  acquire-IsDone :
      (now : ℕ) (c m : Text) (signature : Option Text) (s : State)
      → IsDone s
      → IsDone (acquire_target digest now c m signature s).0
  unfolding acquire_target
  acquire-IsDone now c m signature s h =
      elim (Bool-cases (is_taken (build_method_key digest c m signature) s)) [
        | inl e ↦ rw e h
        | inr e ↦ rw e h
      ]

  mark-IsDone : (k : Text) (s : State) → IsDone s → IsDone (mark_target_processed k s)
  unfolding mark_target_processed
  mark-IsDone k s h = elim (Bool-cases (contains k s.processed_targets)) [
    | inl e ↦ rw e h
    | inr e ↦ rw e (ground (arith, h, contains-append key k s.processed_targets))
  ]

  release-IsDone :
      (now : ℕ) (c m : Text) (signature : Option Text) (success : Bool)
      (result : Option WorkerResult) (s : State)
      → IsDone s
      → IsDone (release_target digest now c m signature success result s)
  unfolding release_target
  release-IsDone now c m signature success result s h =
      let k = build_method_key digest c m signature in
      elim (Bool-cases success) [
        | inl e ↦
            rw e
              (mark-IsDone k (give_back now k true result (lifecycle_of now k c m signature s) s) h)
        | inr e ↦ rw e h
      ]

  fail-IsDone :
      (c m reason : Text) (signature : Option Text) (s : State)
      → IsDone s
      → IsDone (add_failed_target digest c m reason signature s)
  unfolding add_failed_target
  fail-IsDone c m reason signature s h =
      let used = failed_signature c m signature s.current_target in
      let k = build_method_key digest c m used in
      let entry : FailedTarget = record {
        target = k;
        class_name = c;
        method_name = m;
        method_signature = used;
        reason = reason;
        iteration = s.iteration;
      } in
      let same = (add_failed_target-SameTables digest c m reason signature s).processed in
      elim (Bool-cases (is_blacklisted k s)) [
        | inl e ↦ rw (e, add_failed_target) h
        | inr e ↦ ground (
          arith,
          h,
          e,
          same,
          any_of-append (λ (ft : FailedTarget). text_eq ft.target key) s.failed_targets entry,
          clear_failed-failed digest k s.current_target
              (record s { failed_targets = s.failed_targets ++ entry ∷ [] }),
        )
      ]

  step-IsDone : (c : Call) (s : State) → IsDone s → IsDone (step digest c s)
  unfolding step add_action add_batch_result add_improvement increment_llm_calls update
  step-IsDone (acquire now c m signature) s h = acquire-IsDone now c m signature s h
  step-IsDone (release now c m signature success result) s h =
      release-IsDone now c m signature success result s h
  step-IsDone (fail c m reason signature) s h = fail-IsDone c m reason signature s h
  step-IsDone (act action success) s h = h
  step-IsDone (finish_batch results) s h = h
  step-IsDone (mark k) s h = mark-IsDone k s h
  step-IsDone (move_on target) s h =
      ground
        (arith, h, (update_target-SameTables target s).processed, update_target-failed target s)
  step-IsDone (improve improvement) s h = h
  step-IsDone (count_calls count) s h = h
  step-IsDone (report iteration llm_calls) s h = h

  run-IsDone : (cs : List Call) (s : State) → IsDone s → IsDone (run digest cs s)
  unfolding run
  run-IsDone [] s h = h
  run-IsDone (c ∷ cs) s h = run-IsDone cs (step digest c s) (step-IsDone c s h)

module _ (digest : Text → Text) (c m : Text) (signature : Option Text) (cs : List Call)
    (s : State) where
  refused :
      (now : ℕ) (t : State)
      → is_taken (build_method_key digest c m signature) t ≡ true
      → acquire_target digest now c m signature t ≡ (t, false)
  unfolding acquire_target
  refused now t e = rw e refl

  acquired_IsHeld :
      (now : ℕ)
      → (acquire_target digest now c m signature s).1 ≡ true
      → IsHeld digest
          (build_method_key digest c m signature)
          (acquire_target digest now c m signature s).0
  unfolding acquire_target
  acquired_IsHeld now e =
      let key = build_method_key digest c m signature in
      ground (
        arith,
        text_eq_iff key key,
        lookup-insert key key (new_lifecycle now key c m signature s.target_order_counter)
            s.active_targets,
      )

  -- A target that a worker has taken is refused to all others, whatever calls are made before one of
  -- them gives it back.
  pub acquire_target_exclusive :
      (now later : ℕ)
      → (acquire_target digest now c m signature s).1 ≡ true
      → All (λ call. releases digest (build_method_key digest c m signature) call ≡ false) cs
      → (acquire_target digest later c m signature
          (run digest cs (acquire_target digest now c m signature s).0)).1
        ≡ false
  acquire_target_exclusive now later e other =
      let key = build_method_key digest c m signature in
      let held =
        run-IsHeld digest key cs (acquire_target digest now c m signature s).0 other
          (acquired_IsHeld now e) in
      ap (λ (r : State × Bool). r.1) (refused later _ (ground (arith, held)))

  -- A target that was processed, or that stands in the blacklist, is refused after any calls.
  pub acquire_target_done :
      (now : ℕ)
      → IsDone digest (build_method_key digest c m signature) s
      → acquire_target digest now c m signature (run digest cs s) ≡ (run digest cs s, false)
  acquire_target_done now h =
      let done = run-IsDone digest (build_method_key digest c m signature) cs s h in
      refused now _ (ground (arith, done))
