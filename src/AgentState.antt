-- ===== src/AgentState.antt =====
-- The state that the agents share (comet/agent/state.py, classes AgentState and
-- ParallelAgentState): the target at hand, the blacklist, the targets that workers hold, short
-- histories and the counts of batches. Each method is a function on the state; the clock's reading
-- and the digest of method keys are arguments. Not modelled: the metrics, which are only stored,
-- and the dictionaries that the state is saved to and loaded from.
mod Types
mod Invariant
mod Traces
mod Exclusive
mod Blacklist
mod Tests
pub use Types.{
  TargetInfo, FailedTarget, TargetStatus, running, completed, failed, Lifecycle, WorkerResult,
  Action, ParallelStats, State,
}
use comet_l.Prelude.{
  ℕ, ◌+◌, Bool, true, false, ◌&&◌, ◌||◌, not, Option, none, some, List, [], ◌∷◌, ◌++◌, Text,
  text_eq, Dict, lookup, insert, erase, has_key, contains, any_of, count_of, length, keep_last,
  or_else, get_or_else, if◌then◌else◌, is_some,
}
use comet_l.MethodKeys.{build_method_key}

-- `a == b`, where b is a text and a a text or None
abbrev pub same_text : Option Text → Text → Bool
same_text none b = false
same_text (some a) b = text_eq a b

abbrev pub same_option : Option Text → Option Text → Bool
same_option none none = true
same_option none (some b) = false
same_option (some a) b = elim b [ none ↦ false | some c ↦ text_eq a c ]

abbrev same_info : TargetInfo → TargetInfo → Bool
same_info a b =
    same_option a.class_name b.class_name
    && same_option a.method_name b.method_name
    && same_option a.method_signature b.method_signature
    && text_eq a.details b.details

-- `a == b` on targets or None
abbrev pub same_target : Option TargetInfo → Option TargetInfo → Bool
same_target none none = true
same_target none (some b) = false
same_target (some a) none = false
same_target (some a) (some b) = same_info a b

-- `update_target`, with the target that it returns
unfoldable pub update_target : Option TargetInfo → State → State × Option TargetInfo
update_target target s = if same_target target s.current_target then (s, none) else (
  record s { previous_target = s.current_target; current_target = target },
  s.current_target,
)

unfoldable pub add_improvement : Text → State → State
add_improvement improvement s =
    let recent = keep_last 5 (s.recent_improvements ++ improvement ∷ []) in
    record s {
      recent_improvements = recent;
      improvement_summary = (length recent, some improvement);
    }

unfoldable pub add_action : Text → Bool → State → State
add_action action success s = record s {
  action_history = keep_last 10 (
      s.action_history
      ++ record { iteration = s.iteration; action = action; success = success } ∷ []);
}

unfoldable pub mark_target_processed : Text → State → State
mark_target_processed target s =
    if contains target s.processed_targets
    then s
    else record s { processed_targets = s.processed_targets ++ target ∷ [] }

-- `update`, of which the iteration and the count of calls are modelled; none is a missing key.
unfoldable pub update : Option ℕ → Option ℕ → State → State
update iteration llm_calls s = record s {
  iteration = get_or_else iteration s.iteration;
  llm_calls = get_or_else llm_calls s.llm_calls;
}

unfoldable pub increment_llm_calls : ℕ → State → State
increment_llm_calls count s = record s { llm_calls = s.llm_calls + count }

-- `any(ft.get("target") == key for ft in self.failed_targets)`
abbrev pub is_blacklisted : Text → State → Bool
is_blacklisted key s = any_of (λ (ft : FailedTarget). text_eq ft.target key) s.failed_targets

-- The signature of the target at hand, where the caller gives none and the names are its own.
abbrev pub failed_signature : Text → Text → Option Text → Option TargetInfo → Option Text
failed_signature c m (some signature) current = some signature
failed_signature c m none none = none
failed_signature c m none (some t) =
    if same_text t.class_name c && same_text t.method_name m then t.method_signature else none

abbrev text_or_empty : Option Text → Text
text_or_empty none = []
text_or_empty (some t) = t

-- The key of the target at hand, if it has a class.
abbrev pub key_of_target : (Text → Text) → TargetInfo → Option Text
key_of_target digest t = elim t.class_name [
  | none ↦ none
  | some c ↦ elim c [
    | [] ↦ none
    | d ∷ cs ↦
        some (build_method_key digest (d ∷ cs) (text_or_empty t.method_name) t.method_signature)
  ]
]

-- A target that fails is no longer the one at hand.
abbrev pub clear_failed : (Text → Text) → Text → Option TargetInfo → State → State
unfolding update_target
clear_failed digest key none s = s
clear_failed digest key (some t) s =
    if same_text (key_of_target digest t) key then (update_target none s).0 else s

unfoldable pub add_failed_target : (Text → Text) → Text → Text → Text → Option Text → State → State
unfolding update_target
add_failed_target digest c m reason signature s =
    let used = failed_signature c m signature s.current_target in
    let key = build_method_key digest c m used in
    if is_blacklisted key s
    then s
    else clear_failed digest key s.current_target (record s {
      failed_targets =
          s.failed_targets
          ++ record {
            target = key;
            class_name = c;
            method_name = m;
            method_signature = used;
            reason = reason;
            iteration = s.iteration;
          }
            ∷ [];
    })

-- Whether `acquire_target` refuses a key.
abbrev pub is_taken : Text → State → Bool
is_taken key s =
    has_key key s.active_targets || contains key s.processed_targets || is_blacklisted key s

abbrev pub new_lifecycle : ℕ → Text → Text → Text → Option Text → ℕ → Lifecycle
new_lifecycle now key c m signature order = record {
  target_id = key;
  class_name = c;
  method_name = m;
  method_signature = signature;
  order = order;
  started_at = now;
  status = running;
  ended_at = none;
  completed_at = none;
  duration_seconds = none;
  error = none;
}

-- The tables after a key was taken.
abbrev pub take_target : ℕ → Text → Text → Text → Option Text → State → State
take_target now key c m signature s =
    let target = new_lifecycle now key c m signature s.target_order_counter in
    record s {
      target_order_counter = s.target_order_counter + 1;
      active_targets = insert key target s.active_targets;
      target_lifecycle = insert key target s.target_lifecycle;
    }

-- `acquire_target`, with what it returns
unfoldable pub acquire_target : (Text → Text) → ℕ → Text → Text → Option Text → State → State × Bool
acquire_target digest now c m signature s =
    let key = build_method_key digest c m signature in
    if is_taken key s then (s, false) else (take_target now key c m signature s, true)

abbrev pub ended : ℕ → Bool → Option WorkerResult → Lifecycle → Lifecycle
ended now success result l = record l {
  status = if success then completed else failed;
  ended_at = some now;
  completed_at = if success then some now else none;
  duration_seconds = elim result [ none ↦ l.duration_seconds | some r ↦ some r.processing_time ];
  error = elim result [ none ↦ l.error | some r ↦ or_else r.error l.error ];
}

-- The lifecycle record of a key, made if there is none, and the counter after.
abbrev pub lifecycle_of : ℕ → Text → Text → Text → Option Text → State → Lifecycle × ℕ
lifecycle_of now key c m signature s = elim (lookup key s.target_lifecycle) [
  | some l ↦ (l, s.target_order_counter)
  | none ↦ (new_lifecycle now key c m signature s.target_order_counter, s.target_order_counter + 1)
]

-- The tables after a key was given back.
abbrev pub give_back : ℕ → Text → Bool → Option WorkerResult → Lifecycle × ℕ → State → State
give_back now key success result (l, counter) s = record s {
  target_order_counter = counter;
  target_lifecycle = insert key (ended now success result l) s.target_lifecycle;
  active_targets = erase key s.active_targets;
}

-- `release_target`
unfoldable pub release_target :
    (Text → Text) → ℕ → Text → Text → Option Text → Bool → Option WorkerResult → State → State
unfolding mark_target_processed
release_target digest now c m signature success result s =
    let key = build_method_key digest c m signature in
    let freed = give_back now key success result (lifecycle_of now key c m signature s) s in
    if success then mark_target_processed key freed else freed

unfoldable pub add_batch_result : List WorkerResult → State → State
add_batch_result results s = record s {
  batch_results = s.batch_results ++ results ∷ [];
  current_batch = s.current_batch + 1;
  parallel_stats = record {
    total_batches = s.parallel_stats.total_batches + 1;
    total_workers_spawned = s.parallel_stats.total_workers_spawned + length results;
    total_targets_processed =
        s.parallel_stats.total_targets_processed + count_of (λ r. r.success) results;
    failed_targets_in_parallel =
        s.parallel_stats.failed_targets_in_parallel + count_of (λ r. not r.success) results;
  };
}
