-- ===== src/Evaluation/Tests.antt =====
-- Evaluations of concrete mutants, and the theorems at such inputs.
use mathlib.Core.List.Perm as Perm
use comet_l.Prelude.{
  if◌then◌else◌, ℕ, ◌≡◌, sym, refl, Bool-cases, inl, inr, text_eq→eq, Bool, true, false, not,
  Option, none, some, List, [], ◌∷◌, Text, codes, text_eq, Dict, contains, filter_by, arith, length,
}
use comet_l.Evaluation.Types.{
  Mutant, TestClass, TestResult, KillMatrix, get_killers, get_survived_ids,
}
use comet_l.Evaluation.Verdict.{results_of_run, some_failed, results_of_run-failed}
use comet_l.Evaluation.Sandboxed.{Host, evaluate_mutant}
use comet_l.Evaluation.Builders.{build_kill_matrix, build_parallel, get_survived_mutants}
use comet_l.Evaluation.Executed.{evaluate_mutant-killed, HasFailedRun}
use comet_l.Evaluation.Orders.{find_mutant, build_kill_matrix-workers}
use comet_l.Evaluation.Survivors.{
  HasDistinctIds, mutant_ids, RaisedSurvive, build_parallel-survivors,
}

abbrev ledger_test : TestClass
ledger_test = record {
  id = codes "t1";
  class_name = codes "LedgerTest";
  package_name = codes "bank";
  methods = codes "adds" ∷ [];
}

abbrev other_test : TestClass
other_test = record {
  id = codes "t2";
  class_name = codes "OtherTest";
  package_name = [];
  methods = codes "runs" ∷ [];
}

abbrev failure : Text → Text → TestResult
failure c m = record { class_name = c; method_name = m; passed = false; skipped = false }

named_failure :
    results_of_run false
      (some ((failure (codes "bank.LedgerTest") (codes "adds") ∷ []) ∷ []))
      (ledger_test ∷ other_test ∷ [])
    ≡ (codes "t1", false) ∷ (codes "t2", true) ∷ []
unfolding results_of_run text_eq
named_failure = refl

unnamed_failure :
    results_of_run false
      (some ((failure (codes "X") (codes "y") ∷ []) ∷ []))
      (ledger_test ∷ other_test ∷ [])
    ≡ (codes "t1", false) ∷ (codes "t2", false) ∷ []
unfolding results_of_run text_eq
unnamed_failure = refl

results_of_run-failed_example :
    some_failed (
      results_of_run false
        (some ((failure (codes "X") (codes "y") ∷ []) ∷ []))
        (ledger_test ∷ other_test ∷ []))
    ≡ true
results_of_run-failed_example =
    results_of_run-failed false (some ((failure (codes "X") (codes "y") ∷ []) ∷ [])) ledger_test
      (other_test ∷ [])

abbrev mutant : Text → Mutant
mutant id = record {
  id = id;
  patch = record {
    file_path = codes "/p/src/A.java";
    line_start = 3;
    line_end = 4;
    original_code = codes "a";
    mutated_code = codes "b";
  };
  killed_by = [];
  survived = false;
  evaluated_at = none;
}

-- A world is the list of live sandboxes; a run of the tests fails, and leaves no reports.
abbrev example_host : Host (List Text)
example_host = record {
  parts = λ path. codes "p" ∷ codes "src" ∷ codes "A.java" ∷ [];
  name = λ path. path;
  join = λ dir path. dir;
  create_sandbox = λ project id live. (some id, id ∷ live);
  cleanup_sandbox = λ id live. filter_by (λ other. not (text_eq other id)) live;
  apply_mutation = λ file patch live. (some true, live);
  run_tests = λ sandbox live. (some false, live);
  exists = λ path live. contains path live;
  parse_surefire_reports = λ path live. [];
}

evaluate_mutant-killed_example :
    HasFailedRun example_host (codes "s") (mutant (codes "m")) (codes "/p") []
unfolding evaluate_mutant text_eq
evaluate_mutant-killed_example =
    evaluate_mutant-killed example_host (codes "s") (mutant (codes "m")) (ledger_test ∷ [])
      (codes "/p") [] ((codes "t1", false) ∷ []) refl refl

abbrev verdicts : Mutant → Option (Dict Bool)
verdicts m = some ((codes "t1", text_eq m.id (codes "b")) ∷ [])

abbrev clock : Mutant → ℕ
clock m = length m.id

abbrev two : List Mutant
two = mutant (codes "a") ∷ mutant (codes "b") ∷ []

abbrev two_reversed : List Mutant
two_reversed = mutant (codes "b") ∷ mutant (codes "a") ∷ []

abbrev judged_two : List Mutant × KillMatrix
judged_two = (
  record (mutant (codes "a")) { killed_by = codes "t1" ∷ []; evaluated_at = some 1 }
      ∷ record (mutant (codes "b")) { survived = true; evaluated_at = some 1 }
      ∷ [],
  (codes "a", codes "t1" ∷ []) ∷ [],
)

build_kill_matrix-workers_example :
    (r : List Mutant × KillMatrix) × (build_kill_matrix verdicts clock (some 4) two_reversed two
      ≡ some r)
    × (get_killers (codes "a") r.1 ≡ codes "t1" ∷ [])
    × (find_mutant (codes "a") r.0 ≡ find_mutant (codes "a") judged_two.0)
unfolding build_kill_matrix text_eq
build_kill_matrix-workers_example =
    build_kill_matrix-workers verdicts clock 4 two two_reversed (codes "a") judged_two refl
      (Perm.swap (mutant (codes "b")) (mutant (codes "a")) []) (omega arith)

two-HasDistinctIds : HasDistinctIds two
unfolding text_eq
two-HasDistinctIds i = elim (Bool-cases (text_eq (codes "a") i)) [
  | inl own ↦
      let apart : text_eq (codes "b") i ≡ false = rw (sym (text_eq→eq (codes "a") i own)) refl in
      ground arith
  | inr other ↦ ground arith
]

-- The evaluation of `b` raises.
abbrev raising : Mutant → Option (Dict Bool)
raising m = if text_eq m.id (codes "b") then none else some ((codes "t1", false) ∷ [])

build_parallel-survivors_example :
    (mutant_ids (get_survived_mutants (build_parallel raising clock two []).0)
      ≡ get_survived_ids (build_parallel raising clock two []).1 (mutant_ids two))
    × RaisedSurvive raising clock (build_parallel raising clock two []).0 two
build_parallel-survivors_example = build_parallel-survivors raising clock two two-HasDistinctIds
