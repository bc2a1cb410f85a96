-- ===== src/StaticGuard/Filtering.antt =====
-- What a validation says, and what the filter keeps.
use comet_l.Prelude.{
  ◌≡◌, sym, refl, Bool, true, false, some, List, [], ◌∷◌, Text, All, filter_by, Bool-cases, inl,
  inr,
}
use comet_l.StaticGuard.Types.{
  Candidate, pending, valid, invalid, Attempt, done, raised, Tools, Guard,
}
use comet_l.StaticGuard.Classpath.{build_classpath, build_classpath-cached}
use comet_l.StaticGuard.Validation.{
  Verdict, not_applied, compiled, compiled_by_maven, rejected, concluded, prepare_classpath,
  validate_mutant, filter_mutants,
}

abbrev pub is_valid : Candidate → Bool
is_valid m = elim m.status [ valid ↦ true | pending ↦ false | invalid ↦ false ]

concluded-is_valid :
    (a : Attempt Verdict) (m : Candidate)
    → is_valid m ≡ false
    → (concluded a m).0 ≡ is_valid (concluded a m).1
unfolding concluded
concluded-is_valid (done not_applied) m h = sym h
concluded-is_valid (done compiled) m h = refl
concluded-is_valid (done compiled_by_maven) m h = refl
concluded-is_valid (done (rejected stderr)) m h = refl
concluded-is_valid (raised message) m h = refl

module _ {ℓ} {W : Type ℓ} (tools : Tools W) (file : Text) (dirs : List Text) where
  validate_mutant-is_valid :
      (m : Candidate) (g : Guard W)
      → is_valid m ≡ false
      → (validate_mutant tools m file dirs g).0.0
        ≡ is_valid (validate_mutant tools m file dirs g).0.1
  unfolding validate_mutant
  validate_mutant-is_valid m g h = concluded-is_valid _ m h

  -- Where no mutant is marked valid at first, the mutants that the filter keeps are those that it leaves
  -- marked valid, in their order.
  pub filter_mutants-is_valid :
      (ms : List Candidate) (g : Guard W)
      → All (λ m. is_valid m ≡ false) ms
      → (filter_mutants tools ms file dirs g).1.0
        ≡ filter_by is_valid (filter_mutants tools ms file dirs g).0
  unfolding filter_mutants
  filter_mutants-is_valid [] g h = refl
  filter_mutants-is_valid (m ∷ ms) g h =
      rw
        (
          validate_mutant-is_valid m g h.0,
          filter_mutants-is_valid ms (validate_mutant tools m file dirs g).1 h.1,
        )
        refl

module _ {ℓ} {W : Type ℓ} (tools : Tools W) where
  -- Where a project has to be compiled first, the class path is still the one from before, also after a
  -- compilation that succeeds.
  pub prepare_classpath-build :
      (root : Text) (g : Guard W)
      → (prepare_classpath tools (some root) g).0 ≡ (build_classpath tools (some root) g).0
  unfolding prepare_classpath
  prepare_classpath-build root g =
      let first = build_classpath tools (some root) g in
      let build = tools.compile_project root first.1.world in
      elim (Bool-cases (tools.exists (tools.classes_dir root) first.1.world)) [
        | inl there ↦ rw there refl
        | inr missing ↦ elim (Bool-cases build.0) [
          | inl success ↦ rw (missing, success) (build_classpath-cached tools root g build.1)
          | inr failure ↦ rw (missing, failure) refl
        ]
      ]
