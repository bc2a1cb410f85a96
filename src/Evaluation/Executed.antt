-- ===== src/Evaluation/Executed.antt =====
-- What stands behind a kill: the mutation was applied in the mutant's sandbox, and the tests failed there.
use comet_l.Prelude.{
  ◌≡◌, ◌≢◌, ◌∙◌, ap, Bool, true, false, Option, none, some, List, [], ◌∷◌, Text, codes, Dict, arith,
  Bool-cases, Option-cases, inl, inr,
}
use comet_l.Evaluation.Types.{Mutant, TestClass}
use comet_l.Evaluation.Verdict.{results_of_run, passed_run, some_failed}
use comet_l.Evaluation.Sandboxed.{
  Host, evaluate_mutant, in_sandbox, apply_and_run, run_and_judge, relative_path,
}

module _ {ℓ} {W : Type ℓ} (host : Host W) where
  -- The file stands in the world, the mutation of it is applied, and then the tests do not pass.
  abbrev pub HasFailedAt : Text → Text → Mutant → W → Type ℓ
  HasFailedAt sandbox file m w =
      (w' : W) × (host.exists file w ≡ true)
      × (host.apply_mutation file (record m.patch { file_path = file }) w ≡ (some true, w'))
      × ((host.run_tests sandbox w').0 ≡ some false)

  -- The sandbox of the mutant was created, the mutant's patch was applied in it to the file that stands
  -- for the one that the patch names, and then the tests of that sandbox did not pass.
  abbrev pub HasFailedRun : Text → Mutant → Text → W → Type ℓ
  HasFailedRun id m project w =
      (sandbox : Text) × (w' : W) × (host.create_sandbox project id w ≡ (some sandbox, w'))
      × (m.patch.file_path ≢ [])
      × HasFailedAt sandbox (host.join sandbox (relative_path host m.patch.file_path)) m w'

  run_and_judge-killed :
      (sandbox : Text) (tests : List TestClass) (w : W) {r : Dict Bool}
      → (run_and_judge host sandbox tests w).0 ≡ some r
      → some_failed r ≡ true
      → (host.run_tests sandbox w).0 ≡ some false
  unfolding run_and_judge results_of_run
  run_and_judge-killed sandbox tests w {r} e k = elim (Option-cases (host.run_tests sandbox w).0) [
    | inl raised ↦ absurd (ground arith)
    | inr (success, ran) ↦ elim (Bool-cases success) [
      | inl passed ↦
          let w' = (host.run_tests sandbox w).1 in
          let dir = host.join sandbox (codes "target" ∷ codes "surefire-reports" ∷ []) in
          absurd (
            ground (
              arith,
              passed_run none tests,
              passed_run (some (host.parse_surefire_reports dir w')) tests,
            ))
      | inr failed ↦ ground arith
    ]
  ]

  apply_and_run-killed :
      (sandbox file : Text) (m : Mutant) (tests : List TestClass) (w : W) {r : Dict Bool}
      → (apply_and_run host sandbox file m tests w).0 ≡ some r
      → some_failed r ≡ true
      → HasFailedAt sandbox file m w
  unfolding apply_and_run
  apply_and_run-killed sandbox file m tests w {r} e k = elim (Bool-cases (host.exists file w)) [
    | inr absent ↦ absurd (ground arith)
    | inl there ↦
        let applied = host.apply_mutation file (record m.patch { file_path = file }) w in
        elim (Option-cases applied.0) [
          | inl raised ↦ absurd (ground arith)
          | inr (success, done) ↦ elim (Bool-cases success) [
            | inl worked ↦ (
              applied.1,
              there,
              (λ i. ((done ∙ ap some worked) i, applied.1)),
              run_and_judge-killed sandbox tests applied.1 {r = r} (ground arith) k,
            )
            | inr refused ↦ absurd (ground arith)
          ]
        ]
  ]

  in_sandbox-killed :
      (sandbox : Text) (m : Mutant) (tests : List TestClass) (w : W) {r : Dict Bool}
      → (in_sandbox host sandbox m tests w).0 ≡ some r
      → some_failed r ≡ true
      → (m.patch.file_path ≢ [])
        × HasFailedAt sandbox (host.join sandbox (relative_path host m.patch.file_path)) m w
  unfolding in_sandbox
  in_sandbox-killed sandbox m tests w {r} = at_path m.patch.file_path
    where
      at_path :
          (path : Text)
          → (elim path as (λ _. Option (Dict Bool) × W) [
            | [] ↦ (some [], w)
            | c ∷ path ↦
                apply_and_run host sandbox
                  (host.join sandbox (relative_path host (c ∷ path)))
                  m
                  tests
                  w
          ]).0
            ≡ some r
          → some_failed r ≡ true
          → (path ≢ []) × HasFailedAt sandbox (host.join sandbox (relative_path host path)) m w
      at_path [] e k = absurd (ground arith)
      at_path (c ∷ path) e k = (
        (λ no. cc),
        apply_and_run-killed sandbox (host.join sandbox (relative_path host (c ∷ path))) m tests w
            {r = r} e k,
      )

  -- A mutant that some test is said to kill was run: its sandbox was created, its patch was applied to
  -- the file in that sandbox, and after that the tests there did not pass.
  pub evaluate_mutant-killed :
      (id : Text) (m : Mutant) (tests : List TestClass) (project : Text) (w : W) (r : Dict Bool)
      → (evaluate_mutant host id m tests project w).0 ≡ some r
      → some_failed r ≡ true
      → HasFailedRun id m project w
  unfolding evaluate_mutant
  evaluate_mutant-killed id m tests project w r e k =
      let created = host.create_sandbox project id w in
      elim (Option-cases created.0) [
        | inl failed ↦ absurd (ground arith)
        | inr (sandbox, made) ↦
            let (named, ran) =
              in_sandbox-killed sandbox m tests created.1 {r = r} (ground arith) k in
            (sandbox, created.1, (λ i. (made i, created.1)), named, ran)
      ]
