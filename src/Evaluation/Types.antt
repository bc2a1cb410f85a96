-- ===== src/Evaluation/Types.antt =====
-- Mutants, test classes and reports. A kill matrix is a dictionary from a mutant to the tests that
-- kill it.
use comet_l.Prelude.{
  ℕ, Bool, true, false, if◌then◌else◌, Option, List, [], ◌∷◌, ◌++◌, not, Text, Dict, lookup, insert,
  contains, filter_by, get_or_else,
}

-- `MutationPatch`; the name of the operator is left out.
pub record Patch : Type 0 where
  pub file_path : Text
  pub line_start : ℕ
  pub line_end : ℕ
  pub original_code : Text
  pub mutated_code : Text

-- The fields of `Mutant` that its evaluation reads or writes.
pub record Mutant : Type 0 where
  pub id : Text
  pub patch : Patch
  pub killed_by : List Text
  pub survived : Bool
  pub evaluated_at : Option ℕ

-- `TestCase`: a test class with the names of its methods; an absent package name is the empty one.
pub record TestClass : Type 0 where
  pub id : Text
  pub class_name : Text
  pub package_name : Text
  pub methods : List Text

-- `TestResult` of a report; times and messages are left out.
pub record TestResult : Type 0 where
  pub class_name : Text
  pub method_name : Text
  pub passed : Bool
  pub skipped : Bool

abbrev pub KillMatrix : Type 0
KillMatrix = Dict (List Text)

abbrev pub is_empty : List Text → Bool
is_empty [] = true
is_empty (t ∷ ts) = false

-- `get_killers`
abbrev pub get_killers : Text → KillMatrix → List Text
get_killers mutant_id matrix = get_or_else (lookup mutant_id matrix) []

-- `add_kill`
unfoldable pub add_kill : Text → Text → KillMatrix → KillMatrix
add_kill mutant_id test_id matrix =
    let killers = get_killers mutant_id matrix in
    insert mutant_id (if contains test_id killers then killers else killers ++ test_id ∷ []) matrix

-- `is_killed`
abbrev pub is_killed : Text → KillMatrix → Bool
is_killed mutant_id matrix = not (is_empty (get_killers mutant_id matrix))

-- `KillMatrix.get_survived_mutants`
unfoldable pub get_survived_ids : KillMatrix → List Text → List Text
get_survived_ids matrix = filter_by (λ id. not (is_killed id matrix))
