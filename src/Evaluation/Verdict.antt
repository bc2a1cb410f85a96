-- ===== src/Evaluation/Verdict.antt =====
-- What a run of the tests says of each test class (`evaluate_mutant` after `run_tests`, and
-- `get_failed_test_names`), and that the verdict on the mutant is the run's.
use comet_l.Prelude.{
  ◌≡◌, refl, Bool, true, false, not, ◌&&◌, Option, none, some, List, [], ◌∷◌, ◌++◌, Text, codes,
  Dict, insert, contains, any_of, arith, if◌then◌else◌,
}
use comet_l.Evaluation.Types.{TestClass, TestResult}

-- `f"{test_case.class_name}.{test_case.method_name}"`
abbrev reported_name : TestResult → Text
reported_name r = r.class_name ++ codes "." ++ r.method_name

unfoldable pub failed_of_suite : List TestResult → List Text
failed_of_suite [] = []
failed_of_suite (r ∷ rs) =
    let rest = failed_of_suite rs in
    if not r.passed && not r.skipped then reported_name r ∷ rest else rest

-- `get_failed_test_names` on the suites of the reports
unfoldable pub get_failed_test_names : List (List TestResult) → List Text
unfolding failed_of_suite
get_failed_test_names [] = []
get_failed_test_names (suite ∷ suites) = failed_of_suite suite ++ get_failed_test_names suites

-- `full_name`: with the package, where there is one
abbrev full_name : TestClass → Text → Text
full_name t method = elim t.package_name [
  | [] ↦ t.class_name ++ codes "." ++ method
  | c ∷ p ↦ (c ∷ p) ++ codes "." ++ t.class_name ++ codes "." ++ method
]

abbrev pub test_failed : List Text → TestClass → Bool
test_failed failed t = any_of (λ method. contains (full_name t method) failed) t.methods

-- `results[test_case.id] = …` for every test class
unfoldable pub results_by : (TestClass → Bool) → List TestClass → Dict Bool → Dict Bool
results_by passed [] results = results
results_by passed (t ∷ ts) results = results_by passed ts (insert t.id (passed t) results)

abbrev pub some_failed : Dict Bool → Bool
some_failed = any_of (λ (e : Text × Bool). not e.1)

-- Reports with failed tests: if none of them is a test of the classes, all classes count as failed.
unfoldable pub matched_results : List Text → List TestClass → Dict Bool
unfolding results_by
matched_results failed ts =
    let results = results_by (λ t. not (test_failed failed t)) ts [] in
    if some_failed results then results else results_by (λ t. false) ts results

-- `evaluate_mutant` after `run_tests`: whether the run succeeded, and the suites of the reports, if
-- there is a directory of reports.
unfoldable pub results_of_run : Bool → Option (List (List TestResult)) → List TestClass → Dict Bool
unfolding results_by matched_results get_failed_test_names
results_of_run true reports ts = results_by (λ t. true) ts []
results_of_run false none ts = results_by (λ t. false) ts []
results_of_run false (some suites) ts = elim (get_failed_test_names suites) [
  | [] ↦ results_by (λ t. false) ts []
  | name ∷ names ↦ matched_results (name ∷ names) ts
]

some_failed-insert-true :
    (id : Text) (d : Dict Bool) → some_failed d ≡ false → some_failed (insert id true d) ≡ false
some_failed-insert-true id [] h = refl
some_failed-insert-true id ((j, b) ∷ d) h = ground (arith, some_failed-insert-true id d)

some_failed-insert-false : (id : Text) (d : Dict Bool) → some_failed (insert id false d) ≡ true
some_failed-insert-false id [] = refl
some_failed-insert-false id ((j, b) ∷ d) = ground (arith, some_failed-insert-false id d)

all_passed :
    (ts : List TestClass) (d : Dict Bool)
    → some_failed d ≡ false
    → some_failed (results_by (λ t. true) ts d) ≡ false
unfolding results_by
all_passed [] d h = h
all_passed (t ∷ ts) d h = all_passed ts (insert t.id true d) (some_failed-insert-true t.id d h)

pub passed_run :
    (reports : Option (List (List TestResult))) (ts : List TestClass)
    → some_failed (results_of_run true reports ts) ≡ false
unfolding results_of_run
passed_run reports ts = all_passed ts [] refl

all_failed_on :
    (ts : List TestClass) (d : Dict Bool)
    → some_failed d ≡ true
    → some_failed (results_by (λ t. false) ts d) ≡ true
unfolding results_by
all_failed_on [] d h = h
all_failed_on (t ∷ ts) d h =
    all_failed_on ts (insert t.id false d) (some_failed-insert-false t.id d)

all_failed :
    (t : TestClass) (ts : List TestClass) (d : Dict Bool)
    → some_failed (results_by (λ t. false) (t ∷ ts) d) ≡ true
unfolding results_by
all_failed t ts d = all_failed_on ts (insert t.id false d) (some_failed-insert-false t.id d)

matched_results-failed :
    (failed : List Text) (t : TestClass) (ts : List TestClass)
    → some_failed (matched_results failed (t ∷ ts)) ≡ true
unfolding matched_results
matched_results-failed failed t ts =
    ground (arith, all_failed t ts (results_by (λ t. not (test_failed failed t)) (t ∷ ts) []))

-- Where there is a test class, some class is said to fail if and only if the run failed: with reports
-- or without, and whether or not the names in the reports are those of the classes.
pub results_of_run-failed :
    (success : Bool) (reports : Option (List (List TestResult))) (t : TestClass)
    (ts : List TestClass)
    → some_failed (results_of_run success reports (t ∷ ts)) ≡ not success
unfolding results_of_run
results_of_run-failed true reports t ts = all_passed (t ∷ ts) [] refl
results_of_run-failed false none t ts = all_failed t ts []
results_of_run-failed false (some suites) t ts = named (get_failed_test_names suites)
  where
    named :
        (names : List Text)
        → some_failed (elim names as (λ _. Dict Bool) [
          | [] ↦ results_by (λ t. false) (t ∷ ts) []
          | name ∷ names ↦ matched_results (name ∷ names) (t ∷ ts)
        ])
          ≡ true
    named [] = all_failed t ts []
    named (name ∷ names) = matched_results-failed (name ∷ names) t ts
