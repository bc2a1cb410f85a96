-- ===== src/Evaluation/Orders.antt =====
-- The order in which the mutants of a parallel run are done does not matter.
use mathlib.Core.List.{Permᴰ, Perm}
use mathlib.Core.Logic.{∥∥₁_elim}
use comet_l.Prelude.{
  ℕ, ◌≤◌, ◌≡◌, ◌∙◌, sym, ap, refl, Bool, true, Option, none, some, List, [], ◌∷◌, Text, Dict,
  count_of, leb, arith, if◌then◌else◌, text_eq, text_eq→eq, Bool-cases, Option-cases, inl, inr,
}
use comet_l.Evaluation.Types.{Mutant, KillMatrix, get_killers}
use comet_l.Evaluation.Builders.{
  record_kills, judged, build_serial, build_parallel, build_kill_matrix,
}
use comet_l.Evaluation.Killed.{killers_from, get_killers-record_kills, get_killers-record_kills_ne}

module _ {ℓ} {A : Type ℓ} (p : A → Bool) where
  count-Perm : {xs ys : List A} → Permᴰ xs ys → count_of p xs ≡ count_of p ys
  count-Perm Permᴰ.nil = refl
  count-Perm (Permᴰ.cons {a = a} {b = b} e h) = rw (e, count-Perm h) refl
  count-Perm (Permᴰ.swap e g) = rw (e, g) (omega arith)
  count-Perm (Permᴰ.trans h k) = count-Perm h ∙ count-Perm k

module _ {ℓ κ} {A : Type ℓ} {B : Type κ} (p : A → Bool) (f : A → B) (d : B) where
  -- The value at the first element of the test.
  unfoldable pub first : List A → B
  first [] = d
  first (x ∷ xs) = if p x then f x else first xs

  -- Where at most one element passes, the order does not matter.
  pub first-Perm : {xs ys : List A} → Permᴰ xs ys → count_of p xs ≤ 1 → first xs ≡ first ys
  unfolding first
  first-Perm Permᴰ.nil h = refl
  first-Perm (Permᴰ.cons {a = a} {b = b} {l₁} {l₂} e k) h =
      rw e (ground (arith, count-Perm p k, first-Perm k))
  first-Perm (Permᴰ.swap {a} {b} {a'} {b'} e g) h = rw (e, g) (ground arith)
  first-Perm (Permᴰ.trans h k) le = first-Perm h le ∙ first-Perm k (omega (arith, count-Perm p h))

judged-cong :
    (n : ℕ) (m : Mutant) (k k' : KillMatrix)
    → get_killers m.id k ≡ get_killers m.id k'
    → judged n k m ≡ judged n k' m
unfolding judged
judged-cong n m k k' e = rw e refl

pub judged-id : (n : ℕ) (k : KillMatrix) (m : Mutant) → (judged n k m).id ≡ m.id
unfolding judged
judged-id n k m = ground arith

abbrev pub has_mutant_id : Text → Mutant → Bool
has_mutant_id i m = text_eq m.id i

-- `next(m for m in ms if m.id == i)`
abbrev pub find_mutant : Text → List Mutant → Option Mutant
find_mutant i = first (has_mutant_id i) some none

texts_set : IsSet (List Text)
texts_set = hlevel

mutant_set : IsSet (Option Mutant)
mutant_set = hlevel

module _ (evaluate : Mutant → Option (Dict Bool)) (now : Mutant → ℕ) where
  kills_of : Mutant → List Text
  unfolding killers_from
  kills_of m = elim (evaluate m) [ none ↦ [] | some r ↦ killers_from r [] ]

  alone : Mutant → Mutant
  unfolding judged record_kills
  alone m = elim (evaluate m) [
    | none ↦ record m { survived = true; evaluated_at = some (now m) }
    | some r ↦ judged (now m) (record_kills m.id r []) m
  ]

  pub build_parallel-other :
      (i : Text) (ms : List Mutant) (k : KillMatrix)
      → count_of (has_mutant_id i) ms ≡ 0
      → get_killers i (build_parallel evaluate now ms k).1 ≡ get_killers i k
  unfolding build_parallel
  build_parallel-other i [] k h = refl
  build_parallel-other i (m ∷ ms) k h = elim (Option-cases (evaluate m)) [
    | inl raised ↦ rw (build_parallel, raised) (build_parallel-other i ms k (ground arith))
    | inr (r, e) ↦
        rw (build_parallel, e)
          (build_parallel-other i ms (record_kills m.id r k) (ground arith)
            ∙ get_killers-record_kills_ne i m.id r k (ground arith))
  ]

  build_parallel-kills :
      (i : Text) (ms : List Mutant) (k : KillMatrix)
      → count_of (has_mutant_id i) ms ≤ 1
      → get_killers i k ≡ []
      → get_killers i (build_parallel evaluate now ms k).1 ≡ first (has_mutant_id i) kills_of [] ms
  unfolding build_parallel first kills_of
  build_parallel-kills i [] k h z = z
  build_parallel-kills i (m ∷ ms) k h z = elim (Bool-cases (text_eq m.id i)) [
    | inl own ↦ elim (Option-cases (evaluate m)) [
      | inl raised ↦
          rw (build_parallel, kills_of, raised, own)
            (build_parallel-other i ms k (ground arith) ∙ z)
      | inr (r, e) ↦
          rw (build_parallel, kills_of, e, own)
            (build_parallel-other i ms (record_kills m.id r k) (ground arith) ∙ first_kills own r)
    ]
    | inr apart ↦ elim (Option-cases (evaluate m)) [
      | inl raised ↦
          rw (build_parallel, raised, apart) (build_parallel-kills i ms k (ground arith) z)
      | inr (r, e) ↦
          rw (build_parallel, e, apart)
            (build_parallel-kills i ms (record_kills m.id r k) (ground arith)
              (get_killers-record_kills_ne i m.id r k apart ∙ z))
    ]
  ]
    where
      first_kills :
          text_eq m.id i ≡ true
          → (r : Dict Bool) → get_killers i (record_kills m.id r k) ≡ killers_from r []
      first_kills own r = rw (text_eq→eq m.id i own, get_killers-record_kills i r k, z) refl

  build_parallel-mutant :
      (i : Text) (ms : List Mutant) (k : KillMatrix)
      → count_of (has_mutant_id i) ms ≤ 1
      → get_killers i k ≡ []
      → find_mutant i (build_parallel evaluate now ms k).0
        ≡ first (has_mutant_id i) (λ m. some (alone m)) none ms
  unfolding build_parallel first alone
  build_parallel-mutant i [] k h z = refl
  build_parallel-mutant i (m ∷ ms) k h z = elim (Option-cases (evaluate m)) [
    | inl raised ↦
        rw (build_parallel, alone, raised)
          (elim (Bool-cases (text_eq m.id i)) [
            | inl own ↦ rw own refl
            | inr apart ↦ rw apart (build_parallel-mutant i ms k (ground arith) z)
          ])
    | inr (r, e) ↦
        rw (build_parallel, alone, e, judged-id (now m) (record_kills m.id r k) m)
          (elim (Bool-cases (text_eq m.id i)) [
            | inl own ↦ rw own (
                ap (λ (x : Mutant). some x)
                  (judged-cong (now m) m (record_kills m.id r k) (record_kills m.id r [])
                    (same own r)))
            | inr apart ↦ rw apart (
                build_parallel-mutant i ms (record_kills m.id r k) (ground arith)
                  (get_killers-record_kills_ne i m.id r k apart ∙ z))
          ])
  ]
    where
      same :
          text_eq m.id i ≡ true
          → (r : Dict Bool)
          → get_killers m.id (record_kills m.id r k) ≡ get_killers m.id (record_kills m.id r [])
      same own r =
          rw
            (
              text_eq→eq m.id i own,
              get_killers-record_kills i r k,
              get_killers-record_kills i r [],
              z,
            )
            refl

  -- Whether no evaluation raises or some do: where the ids are distinct, each mutant has the same
  -- killers and is left the same in every order in which a parallel run may end.
  pub build_parallel-Perm :
      (ms order : List Mutant) (i : Text)
      → Perm ms order
      → count_of (has_mutant_id i) ms ≤ 1
      → (get_killers i (build_parallel evaluate now order []).1
          ≡ get_killers i (build_parallel evaluate now ms []).1)
        × (find_mutant i (build_parallel evaluate now order []).0
            ≡ find_mutant i (build_parallel evaluate now ms []).0)
  build_parallel-Perm ms order i perm one = ∥∥₁_elim perm (hlevel (texts_set, mutant_set)) (λ h. (
    build_parallel-kills i order [] (rw (sym (count-Perm (has_mutant_id i) h)) one) refl
        ∙ sym (first-Perm (has_mutant_id i) kills_of [] h one)
        ∙ sym (build_parallel-kills i ms [] one refl),
    build_parallel-mutant i order [] (rw (sym (count-Perm (has_mutant_id i) h)) one) refl
        ∙ sym (first-Perm (has_mutant_id i) (λ m. some (alone m)) none h one)
        ∙ sym (build_parallel-mutant i ms [] one refl),
  ))

  build_serial-parallel :
      (ms : List Mutant) (k : KillMatrix) {r : List Mutant × KillMatrix}
      → build_serial evaluate now ms k ≡ some r
      → build_parallel evaluate now ms k ≡ r
  unfolding build_serial build_parallel
  build_serial-parallel [] k e = cc
  build_serial-parallel (m ∷ ms) k {r} e = elim (Option-cases (evaluate m)) [
    | inl raised ↦ absurd (ground arith)
    | inr (results, f) ↦
        elim (Option-cases (build_serial evaluate now ms (record_kills m.id results k))) [
          | inl raised ↦ absurd (ground arith)
          | inr (rest, g) ↦
              rw (build_parallel, f, build_serial-parallel ms (record_kills m.id results k) g)
                (ground arith)
        ]
  ]

  -- Where the ids are distinct and the serial build returns, a build with workers, in whatever order its
  -- mutants are done, gives each mutant the same killers and leaves it the same.
  pub build_kill_matrix-workers :
      (workers : ℕ) (ms order : List Mutant) (i : Text) (r : List Mutant × KillMatrix)
      → build_kill_matrix evaluate now none order ms ≡ some r
      → Perm ms order
      → count_of (has_mutant_id i) ms ≤ 1
      → (r' : List Mutant × KillMatrix) × (build_kill_matrix evaluate now (some workers) order ms
          ≡ some r')
        × (get_killers i r'.1 ≡ get_killers i r.1)
        × (find_mutant i r'.0 ≡ find_mutant i r.0)
  unfolding build_kill_matrix
  build_kill_matrix-workers workers [] order i r e perm one = (r, e, refl, refl)
  build_kill_matrix-workers workers (m ∷ ms) order i r e perm one =
      elim (Bool-cases (leb workers 1)) [
        | inl few ↦ (r, rw (build_kill_matrix, few) e, refl, refl)
        | inr many ↦
            let same = build_parallel-Perm (m ∷ ms) order i perm one in
            let serial = build_serial-parallel (m ∷ ms) [] {r = r} e in
            (
              build_parallel evaluate now order [],
              rw (build_kill_matrix, many) refl,
              same.0 ∙ ap (λ s. get_killers i s.1) serial,
              same.1 ∙ ap (λ s. find_mutant i s.0) serial,
            )
      ]
