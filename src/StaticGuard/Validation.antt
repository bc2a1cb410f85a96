-- ===== src/StaticGuard/Validation.antt =====
-- `validate_mutant` and `filter_mutants`.
use comet_l.Prelude.{
  ℕ, zero, suc, Bool, true, false, not, Option, none, some, List, [], ◌∷◌, Text, if◌then◌else◌,
}
use comet_l.StaticGuard.Types.{Candidate, valid, invalid, Attempt, done, raised, Tools, Guard}
use comet_l.StaticGuard.Source.{mutated_lines}
use comet_l.StaticGuard.Classpath.{build_classpath, is_retryable_javac_failure}

-- How a validation ends without an exception
pub data Verdict : Type 0 where
  not_applied : Verdict  -- the range starts after the last line
  compiled compiled_by_maven : Verdict
  rejected : Text → Verdict

-- The mutant after its validation, and what `validate_mutant` returns
unfoldable pub concluded : Attempt Verdict → Candidate → Bool × Candidate
concluded (done not_applied) m = (false, m)
concluded (done compiled) m = (true, record m { status = valid })
concluded (done compiled_by_maven) m = (true, record m { status = valid; compile_error = none })
concluded (done (rejected stderr)) m =
    (false, record m { status = invalid; compile_error = some stderr })
concluded (raised message) m = (false, record m { status = invalid; compile_error = some message })

module _ {ℓ} {W : Type ℓ} (tools : Tools W) where
  -- `_find_project_root`: the nearest of the directories above the file with a
  -- `pom.xml`; the root of the file system is not among them.
  unfoldable pub find_project_root : List Text → W → Option Text
  find_project_root [] w = none
  find_project_root (dir ∷ dirs) w =
      if tools.has_pom dir w then some dir else find_project_root dirs w

  -- The class path, for which a project without compiled classes is compiled first
  unfoldable pub prepare_classpath : Option Text → Guard W → Option Text × Guard W
  unfolding build_classpath
  prepare_classpath none g = build_classpath tools none g
  prepare_classpath (some root) g =
      let (path, g') = build_classpath tools (some root) g in
      if tools.exists (tools.classes_dir root) g'.world
      then (path, g')
      else let (success, w) = tools.compile_project root g'.world in
        let compiled_guard = record g' { world = w } in
        if success then build_classpath tools (some root) compiled_guard else (path, compiled_guard)

  -- `_compile_mutant_with_maven`
  unfoldable pub compile_mutant_with_maven : Candidate → Text → Text → W → Attempt Bool × W
  unfolding mutated_lines
  compile_mutant_with_maven m file root w = elim (tools.read_text file w) [
    | raised message ↦ (raised message, w)
    | done content ↦ elim (mutated_lines m (tools.split_lines content)) [
      | none ↦ (done false, w)
      | some source ↦ tools.compile_copy root file source w
    ]
  ]

  -- After javac: a failure that may be the class path's is tried again with Maven.
  unfoldable pub judge_javac : Candidate → Text → Option Text → ℕ → Text → W → Attempt Verdict × W
  unfolding compile_mutant_with_maven is_retryable_javac_failure
  judge_javac m file root zero stderr w = (done compiled, w)
  judge_javac m file none (suc code) stderr w = (done (rejected stderr), w)
  judge_javac m file (some root) (suc code) stderr w =
      if not (is_retryable_javac_failure tools stderr)
      then (done (rejected stderr), w)
      else let (result, w') = compile_mutant_with_maven m file root w in
        elim result [
          | raised message ↦ (raised message, w')
          | done success ↦ (done (if success then compiled_by_maven else rejected stderr), w')
        ]

  -- The body of the `try`, with the class path at hand
  unfoldable pub check_source :
      Candidate → Text → Option Text → Option Text → W → Attempt Verdict × W
  unfolding mutated_lines judge_javac
  check_source m file root classpath w = elim (tools.read_lines file w) [
    | raised message ↦ (raised message, w)
    | done lines ↦ elim (mutated_lines m lines) [
      | none ↦ (done not_applied, w)
      | some source ↦
          let (ran, w') = tools.run_javac file source classpath w in
          elim ran [
            | raised message ↦ (raised message, w')
            | done (code, stderr) ↦ judge_javac m file root code stderr w'
          ]
    ]
  ]

  -- `validate_mutant`, with the directories above the file
  unfoldable pub validate_mutant :
      Candidate → Text → List Text → Guard W → (Bool × Candidate) × Guard W
  unfolding concluded find_project_root prepare_classpath check_source
  validate_mutant m file dirs g =
      let root = find_project_root dirs g.world in
      let (classpath, g') = prepare_classpath root g in
      let (verdict, w) = check_source m file root classpath g'.world in
      (concluded verdict m, record g' { world = w })

  -- `filter_mutants`: all mutants as they are left, those that are kept, and the guard
  unfoldable pub filter_mutants :
      List Candidate → Text → List Text → Guard W → List Candidate × (List Candidate × Guard W)
  unfolding validate_mutant
  filter_mutants [] file dirs g = ([], ([], g))
  filter_mutants (m ∷ ms) file dirs g =
      let ((kept, m'), g') = validate_mutant m file dirs g in
      let (judged, (valid_mutants, g'')) = filter_mutants ms file dirs g' in
      (m' ∷ judged, (if kept then m' ∷ valid_mutants else valid_mutants, g''))
