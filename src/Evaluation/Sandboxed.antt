-- ===== src/Evaluation/Sandboxed.antt =====
-- `evaluate_mutant`: one mutant in a sandbox of its own. The sandbox manager, the executor of Java and
-- the file system are operations on a world; `none` stands for an exception.
use comet_l.Prelude.{
  Bool, not, Option, none, some, List, [], ◌∷◌, Text, codes, Dict, length, leb, text_eq,
  if◌then◌else◌, keep_last,
}
use comet_l.Evaluation.Types.{Patch, Mutant, TestClass, TestResult}
use comet_l.Evaluation.Verdict.{results_of_run}

pub record Host {ℓ} (W : Type ℓ) : Type ℓ where
  -- `pathlib`: the parts of a path, its last name, and a path under another.
  pub parts : Text → List Text
  pub name : Text → Text
  pub join : Text → List Text → Text
  -- `SandboxManager`
  pub create_sandbox : Text → Text → W → Option Text × W
  pub cleanup_sandbox : Text → W → W
  -- `JavaExecutor`: whether the mutation was applied, and whether the tests passed.
  pub apply_mutation : Text → Patch → W → Option Bool × W
  pub run_tests : Text → W → Option Bool × W
  -- The file system, and the suites that `parse_surefire_reports` reads
  pub exists : Text → W → Bool
  pub parse_surefire_reports : Text → W → List (List TestResult)

-- `parts[parts.index("src"):]`
unfoldable pub from_src : List Text → Option (List Text)
from_src [] = none
from_src (p ∷ ps) = if text_eq p (codes "src") then some (p ∷ ps) else from_src ps

module _ {ℓ} {W : Type ℓ} (host : Host W) where
  -- `rel_path`: from `src` on, or the last five parts, or the last one
  unfoldable pub relative_path : Text → List Text
  unfolding from_src
  relative_path path =
      let parts = host.parts path in
      elim (from_src parts) [
        | some rel ↦ rel
        | none ↦ if leb 5 (length parts) then keep_last 5 parts else host.name path ∷ []
      ]

  -- The tests' run, and what it says of each test class
  unfoldable pub run_and_judge : Text → List TestClass → W → Option (Dict Bool) × W
  unfolding results_of_run
  run_and_judge sandbox tests w =
      let (ran, w') = host.run_tests sandbox w in
      elim ran [
        | none ↦ (none, w')
        | some success ↦
            let dir = host.join sandbox (codes "target" ∷ codes "surefire-reports" ∷ []) in
            let reports =
              if host.exists dir w' then some (host.parse_surefire_reports dir w') else none in
            (some (results_of_run success reports tests), w')
      ]

  -- The mutation of a file in the sandbox, and the run; a mutant that cannot be applied has no results.
  unfoldable pub apply_and_run : Text → Text → Mutant → List TestClass → W → Option (Dict Bool) × W
  unfolding run_and_judge
  apply_and_run sandbox file m tests w =
      if not (host.exists file w)
      then (some [], w)
      else let (applied, w') = host.apply_mutation file (record m.patch { file_path = file }) w in
        elim applied [
          | none ↦ (none, w')
          | some success ↦ if success then run_and_judge sandbox tests w' else (some [], w')
        ]

  -- The body of the `try`
  unfoldable pub in_sandbox : Text → Mutant → List TestClass → W → Option (Dict Bool) × W
  unfolding relative_path apply_and_run
  in_sandbox sandbox m tests w = elim m.patch.file_path [
    | [] ↦ (some [], w)
    | c ∷ path ↦ apply_and_run sandbox (host.join sandbox (relative_path (c ∷ path))) m tests w
  ]

  -- `evaluate_mutant`: the sandbox is cleaned up however the body ends.
  unfoldable pub evaluate_mutant :
      Text → Mutant → List TestClass → Text → W → Option (Dict Bool) × W
  unfolding in_sandbox
  evaluate_mutant sandbox_id m tests project w =
      let (created, w') = host.create_sandbox project sandbox_id w in
      elim created [
        | none ↦ (some [], w')
        | some sandbox ↦
            let (results, w'') = in_sandbox sandbox m tests w' in
            (results, host.cleanup_sandbox sandbox_id w'')
      ]
