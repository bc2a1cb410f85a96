-- ===== src/Evaluation/Survivors.antt =====
-- The mutants that are marked as survivors are those without a kill.
use mathlib.Core.Path.{subst}
use comet_l.Prelude.{
  ℕ, ◌≤◌, ◌≡◌, sym, refl, Bool, true, not, Option, some, List, [], ◌∷◌, map, Text, Dict, count_of,
  none, contains, All, arith, text_eq_refl, Bool-cases, Option-cases, inl, inr,
}
use comet_l.Evaluation.Types.{Mutant, KillMatrix, is_killed, get_killers, get_survived_ids}
use comet_l.Evaluation.Builders.{record_kills, judged, build_parallel, get_survived_mutants}
use comet_l.Evaluation.Killed.{get_killers-record_kills_ne}
use comet_l.Evaluation.Orders.{has_mutant_id, judged-id, build_parallel-other}

abbrev pub mutant_ids : List Mutant → List Text
mutant_ids = map (λ (m : Mutant). m.id)

-- No id is given to two mutants.
abbrev pub HasDistinctIds : List Mutant → Type 0
HasDistinctIds ms = (i : Text) → count_of (has_mutant_id i) ms ≤ 1

judged-survived :
    (n : ℕ) (k : KillMatrix) (m : Mutant) → (judged n k m).survived ≡ not (is_killed m.id k)
unfolding judged
judged-survived n k m = ground arith

module _ (evaluate : Mutant → Option (Dict Bool)) (now : Mutant → ℕ) where
  -- The survivors of a build and those of its matrix
  abbrev Agrees : List Mutant → List Mutant × KillMatrix → Type 0
  Agrees ms b = mutant_ids (get_survived_mutants b.0) ≡ get_survived_ids b.1 (mutant_ids ms)

  cons-Agrees :
      (m m' : Mutant) (ms : List Mutant) (b b' : List Mutant × KillMatrix)
      → b' ≡ (m' ∷ b.0, b.1)
      → m'.id ≡ m.id
      → m'.survived ≡ not (is_killed m.id b.1)
      → Agrees ms b
      → Agrees (m ∷ ms) b'
  unfolding get_survived_mutants get_survived_ids
  cons-Agrees m m' ms b b' next same verdict rest =
      subst (Agrees (m ∷ ms)) (sym next) (elim (Bool-cases (is_killed m.id b.1)) [
        | inl killed ↦ rw (killed, verdict, killed) rest
        | inr alive ↦ rw (alive, verdict, alive, same, rest) refl
      ])

  build_parallel-Agrees :
      (ms : List Mutant) (k : KillMatrix)
      → HasDistinctIds ms
      → ((i : Text) → 1 ≤ count_of (has_mutant_id i) ms → get_killers i k ≡ [])
      → Agrees ms (build_parallel evaluate now ms k)
  unfolding build_parallel get_survived_mutants get_survived_ids
  build_parallel-Agrees [] k distinct fresh = refl
  build_parallel-Agrees (m ∷ ms) k distinct fresh = elim (Option-cases (evaluate m)) [
    | inl raised ↦
        let kept =
          build_parallel-other evaluate now m.id ms k
            (ground (arith, distinct m.id, text_eq_refl m.id)) in
        let none_killed = fresh m.id (ground (arith, text_eq_refl m.id)) in
        cons-Agrees m (record m { survived = true; evaluated_at = some (now m) }) ms
          (build_parallel evaluate now ms k) (build_parallel evaluate now (m ∷ ms) k)
          (rw (build_parallel, raised) refl) refl (rw (kept, none_killed) refl)
          (build_parallel-Agrees ms k (λ i. ground (arith, distinct i))
            (λ i h. ground (arith, fresh i)))
    | inr (r, e) ↦
        let k' = record_kills m.id r k in
        let kept =
          build_parallel-other evaluate now m.id ms k'
            (ground (arith, distinct m.id, text_eq_refl m.id)) in
        cons-Agrees m (judged (now m) k' m) ms (build_parallel evaluate now ms k')
          (build_parallel evaluate now (m ∷ ms) k) (rw (build_parallel, e) refl)
          (judged-id (now m) k' m) (rw (kept, judged-survived (now m) k' m) refl)
          (build_parallel-Agrees ms k' (λ i. ground (arith, distinct i))
            (λ i h. ground (arith, distinct i, fresh i, get_killers-record_kills_ne i m.id r k)))
  ]

  -- Each mutant whose evaluation raises is among the survivors.
  abbrev pub RaisedSurvive : List Mutant → List Mutant → Type 0
  RaisedSurvive done =
      All (λ m. evaluate m ≡ none → contains m.id (mutant_ids (get_survived_mutants done)) ≡ true)

  cons-RaisedSurvive :
      (m' : Mutant) (done ms : List Mutant) → RaisedSurvive done ms → RaisedSurvive (m' ∷ done) ms
  unfolding get_survived_mutants
  cons-RaisedSurvive m' done [] h = tt
  cons-RaisedSurvive m' done (m ∷ ms) h =
      ((λ e. ground (arith, h.0 e)), cons-RaisedSurvive m' done ms h.1)

  build_parallel-RaisedSurvive :
      (ms : List Mutant) (k : KillMatrix) → RaisedSurvive (build_parallel evaluate now ms k).0 ms
  unfolding build_parallel get_survived_mutants
  build_parallel-RaisedSurvive [] k = tt
  build_parallel-RaisedSurvive (m ∷ ms) k = elim (Option-cases (evaluate m)) [
    | inl raised ↦
        let m' : Mutant = record m { survived = true; evaluated_at = some (now m) } in
        let opened : (build_parallel evaluate now (m ∷ ms) k).0
            ≡ m' ∷ (build_parallel evaluate now ms k).0 =
          rw (build_parallel, raised) refl in
        subst (λ done. RaisedSurvive done (m ∷ ms)) (sym opened)
          (
            (λ e. ground (arith, text_eq_refl m.id)),
            cons-RaisedSurvive m' (build_parallel evaluate now ms k).0 ms
                (build_parallel-RaisedSurvive ms k),
          )
    | inr (r, e) ↦
        let k' = record_kills m.id r k in
        let opened : (build_parallel evaluate now (m ∷ ms) k).0
            ≡ judged (now m) k' m ∷ (build_parallel evaluate now ms k').0 =
          rw (build_parallel, e) refl in
        subst (λ done. RaisedSurvive done (m ∷ ms)) (sym opened)
          (
            (λ no. absurd (ground (arith, no, e))),
            cons-RaisedSurvive (judged (now m) k' m) (build_parallel evaluate now ms k').0 ms
                (build_parallel-RaisedSurvive ms k'),
          )
  ]

  -- Where the ids of the mutants are distinct, the mutants that a build in parallel marks as survivors
  -- are those that its kill matrix says survived, and each mutant whose evaluation raises is among them.
  pub build_parallel-survivors :
      (ms : List Mutant)
      → HasDistinctIds ms
      → (mutant_ids (get_survived_mutants (build_parallel evaluate now ms []).0)
          ≡ get_survived_ids (build_parallel evaluate now ms []).1 (mutant_ids ms))
        × RaisedSurvive (build_parallel evaluate now ms []).0 ms
  build_parallel-survivors ms distinct =
      (build_parallel-Agrees ms [] distinct (λ i h. refl), build_parallel-RaisedSurvive ms [])
