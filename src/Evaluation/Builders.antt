-- ===== src/Evaluation/Builders.antt =====
-- The kill matrix of a list of mutants, one after the other or in parallel. The updates of a parallel
-- run stand under a lock, so the run is the order in which they come. `evaluate` is the evaluation of
-- a mutant, where `none` stands for an exception; `now` reads the clock after it.
use comet_l.Prelude.{
  ℕ, Bool, true, false, Option, none, some, List, [], ◌∷◌, Text, Dict, leb, if◌then◌else◌,
  filter_by,
}
use comet_l.Evaluation.Types.{Mutant, KillMatrix, add_kill, is_killed, get_killers}

-- `for test_id, passed in test_results.items(): …`
unfoldable pub record_kills : Text → Dict Bool → KillMatrix → KillMatrix
unfolding add_kill
record_kills mutant_id [] matrix = matrix
record_kills mutant_id ((test_id, passed) ∷ results) matrix =
    record_kills mutant_id results (if passed then matrix else add_kill mutant_id test_id matrix)

-- The mutant after its kills are recorded
unfoldable pub judged : ℕ → KillMatrix → Mutant → Mutant
judged now matrix m =
    if is_killed m.id matrix
    then record m { survived = false; killed_by = get_killers m.id matrix; evaluated_at = some now }
    else record m { survived = true; evaluated_at = some now }

module _ (evaluate : Mutant → Option (Dict Bool)) (now : Mutant → ℕ) where
  -- `_build_kill_matrix_serial` from a matrix on; an exception ends it.
  unfoldable pub build_serial : List Mutant → KillMatrix → Option (List Mutant × KillMatrix)
  unfolding record_kills judged
  build_serial [] matrix = some ([], matrix)
  build_serial (m ∷ ms) matrix = elim (evaluate m) [
    | none ↦ none
    | some results ↦
        let matrix' = record_kills m.id results matrix in
        elim (build_serial ms matrix') [
          | none ↦ none
          | some (done, final) ↦ some (judged (now m) matrix' m ∷ done, final)
        ]
  ]

  -- `_build_kill_matrix_parallel`, for the mutants in the order in which they are done
  unfoldable pub build_parallel : List Mutant → KillMatrix → List Mutant × KillMatrix
  unfolding record_kills judged
  build_parallel [] matrix = ([], matrix)
  build_parallel (m ∷ ms) matrix = elim (evaluate m) [
    | none ↦
        let (done, final) = build_parallel ms matrix in
        (record m { survived = true; evaluated_at = some (now m) } ∷ done, final)
    | some results ↦
        let matrix' = record_kills m.id results matrix in
        let (done, final) = build_parallel ms matrix' in (judged (now m) matrix' m ∷ done, final)
  ]

  -- `build_kill_matrix`
  unfoldable pub build_kill_matrix :
      Option ℕ → List Mutant → List Mutant → Option (List Mutant × KillMatrix)
  unfolding build_serial build_parallel
  build_kill_matrix max_workers order [] = some ([], [])
  build_kill_matrix none order (m ∷ ms) = build_serial (m ∷ ms) []
  build_kill_matrix (some workers) order (m ∷ ms) =
      if leb workers 1 then build_serial (m ∷ ms) [] else some (build_parallel order [])

-- `MutationEvaluator.get_survived_mutants`
unfoldable pub get_survived_mutants : List Mutant → List Mutant
get_survived_mutants = filter_by (λ (m : Mutant). m.survived)
