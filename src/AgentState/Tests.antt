-- ===== src/AgentState/Tests.antt =====
-- Workers on a few targets, and the theorems at such states.
use comet_l.Prelude.{◌≡◌, refl, true, false, none, some, List, [], ◌∷◌, Text, codes, text_eq}
use comet_l.MethodKeys.{build_method_key}
use comet_l.AgentState.Types.{TargetInfo, State}
use comet_l.AgentState.{
  acquire_target, add_failed_target, is_blacklisted, same_text, key_of_target, failed_signature,
}
use comet_l.AgentState.Invariant.{IsState}
use comet_l.AgentState.Traces.{Call, acquire, release, fail, act, mark, run, run-IsState}
use comet_l.AgentState.Exclusive.{acquire_target_exclusive, acquire_target_done}
use comet_l.AgentState.Blacklist.{add_failed_target_effect}

abbrev plain : Text → Text
plain t = t

abbrev div_target : TargetInfo
div_target = record {
  class_name = some (codes "Calculator");
  method_name = some (codes "div");
  method_signature = none;
  details = [];
}

abbrev new_state : State
new_state = record {
  iteration = 0;
  llm_calls = 0;
  current_target = some div_target;
  previous_target = none;
  action_history = [];
  recent_improvements = [];
  improvement_summary = (0, none);
  processed_targets = [];
  failed_targets = [];
  active_targets = [];
  target_lifecycle = [];
  target_order_counter = 1;
  current_batch = 0;
  batch_results = [];
  parallel_stats = record {
    total_batches = 0;
    total_workers_spawned = 0;
    total_targets_processed = 0;
    failed_targets_in_parallel = 0;
  };
}

abbrev calls : List Call
calls =
    acquire 1 (codes "Calculator") (codes "add") none
    ∷ fail (codes "Calculator") (codes "div") (codes "no tests") none
    ∷ mark (codes "Calculator.add")
    ∷ release 2 (codes "Calculator") (codes "add") none true none
    ∷ []

abbrev done : State
done = record new_state { processed_targets = codes "Calculator.add" ∷ [] }

new_state-IsState : IsState new_state
new_state-IsState = record {
  active_nodup = tt;
  active_known = λ k l e. cc;
  active_running = λ k l e. cc;
  order_below = λ k l e. cc;
  order_distinct = λ j k l m e f same. cc;
}

processed_test : (run plain calls new_state).processed_targets ≡ codes "Calculator.add" ∷ []
unfolding run text_eq build_method_key
processed_test = refl

cleared_test : (run plain calls new_state).current_target ≡ none
unfolding run text_eq build_method_key
cleared_test = refl

refused_test :
    (acquire_target plain 3 (codes "Calculator") (codes "div") none (run plain calls new_state)).1
    ≡ false
unfolding run text_eq build_method_key
refused_test = refl

run-IsState_example : IsState (run plain calls new_state)
run-IsState_example = run-IsState plain calls new_state new_state-IsState

abbrev others : List Call
others = acquire 2 (codes "Shape") (codes "area") none ∷ act (codes "select_target") true ∷ []

abbrev held : State
unfolding acquire_target
held = (acquire_target plain 1 (codes "Calculator") (codes "add") none new_state).0

acquire_target_exclusive_example :
    (acquire_target plain 5 (codes "Calculator") (codes "add") none (run plain others held)).1
    ≡ false
unfolding acquire_target
acquire_target_exclusive_example =
    acquire_target_exclusive plain (codes "Calculator") (codes "add") none others new_state 1 5 refl
      (refl, (refl, tt))

acquire_target_done_example :
    acquire_target plain 5 (codes "Calculator") (codes "add") none (run plain others done)
    ≡ (run plain others done, false)
unfolding build_method_key text_eq
acquire_target_done_example =
    acquire_target_done plain (codes "Calculator") (codes "add") none others done 5 refl

abbrev div_key : Text
unfolding build_method_key
div_key =
    build_method_key plain (codes "Calculator") (codes "div")
      (failed_signature (codes "Calculator") (codes "div") none (some div_target))

add_failed_target_effect_example :
    (is_blacklisted div_key (
        add_failed_target plain
          (codes "Calculator")
          (codes "div")
          (codes "no tests")
          none
          new_state)
      ≡ true)
    × ((t : TargetInfo)
        → is_blacklisted div_key new_state ≡ false
        → (add_failed_target plain
            (codes "Calculator")
            (codes "div")
            (codes "no tests")
            none
            new_state).current_target
          ≡ some t
        → same_text (key_of_target plain t) div_key ≡ false)
unfolding div_key build_method_key
add_failed_target_effect_example =
    add_failed_target_effect plain (codes "Calculator") (codes "div") (codes "no tests") none
      new_state
