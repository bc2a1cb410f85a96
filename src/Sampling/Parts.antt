-- ===== src/Sampling/Parts.antt =====
-- What a draw takes from the methods that are left.
use comet_l.Prelude.{
  ℕ, zero, suc, ◌+◌, ◌≤◌, ◌<◌, ◌≡◌, refl, true, not, ◌&&◌, some, List, [], ◌∷◌, Text, text_eq,
  text_eq_refl, text_eq_iff, any_of, count_of, filter_by, length, All, sort_by, ltb, leb, arith,
  Bool-cases, inl, inr,
}
use comet_l.Sampling.Types.{StudyMethod, Generator}
use comet_l.Sampling.Queue.{get_elem?, pick_all, has_target, sample_methods, sample_first}

-- A generator that draws as many numbers as it is asked for, all of them below the bound
abbrev pub IsGenerator {ℓ} : {G : Type ℓ} → Generator G → Type ℓ
IsGenerator {G = G} generator =
    (n k : ℕ) (g : G)
    → k ≤ n
    → (length (generator.sample n k g).0 ≡ k) × All (λ i. i < n) (generator.sample n k g).0

-- The methods without those of a target
abbrev pub without_target : Text → List StudyMethod → List StudyMethod
without_target id = filter_by (λ (m : StudyMethod). not (text_eq m.target_id id))

get_elem?-lt :
    (ms : List StudyMethod) (i : ℕ)
    → i < length ms
    → (m : StudyMethod) × (get_elem? ms i ≡ some m) × (any_of (has_target m.target_id) ms ≡ true)
unfolding get_elem?
get_elem?-lt [] i h = absurd (omega arith)
get_elem?-lt (m ∷ ms) zero h = (m, refl, ground (arith, text_eq_refl m.target_id))
get_elem?-lt (m ∷ ms) (suc i) h =
    let (chosen, e, there) = get_elem?-lt ms i (omega arith) in (chosen, e, ground (arith, there))

pub length-without_target :
    (id : Text) (ms : List StudyMethod)
    → length (without_target id ms) + count_of (has_target id) ms ≡ length ms
length-without_target id [] = refl
length-without_target id (m ∷ ms) = ground (arith, length-without_target id ms)

pub count-any :
    (id : Text) (ms : List StudyMethod)
    → any_of (has_target id) ms ≡ true
    → 1 ≤ count_of (has_target id) ms
count-any id [] h = absurd cc
count-any id (m ∷ ms) h = ground (arith, count-any id ms)

pub any_of-without_target :
    (id other : Text) (ms : List StudyMethod)
    → any_of (has_target other) (without_target id ms)
      ≡ (any_of (has_target other) ms && not (text_eq id other))
any_of-without_target id other [] = refl
any_of-without_target id other (m ∷ ms) = ground (
  arith,
  text_eq_iff m.target_id id,
  text_eq_iff m.target_id other,
  text_eq_iff id other,
  any_of-without_target id other ms,
)

module _ {ℓ} {G : Type ℓ} (generator : Generator G) (law : IsGenerator generator) where
  one_index :
      (ms : List StudyMethod) (indexes : List ℕ)
      → length indexes ≡ 1
      → All (λ i. i < length ms) indexes
      → (m : StudyMethod) × (rest : List StudyMethod) × (pick_all ms (sort_by ltb indexes)
          ≡ some (m ∷ rest))
        × (any_of (has_target m.target_id) ms ≡ true)
  unfolding pick_all sort_by
  one_index ms [] one below = absurd (omega arith)
  one_index ms (i ∷ []) one below =
      let (m, e, there) = get_elem?-lt ms i below.0 in (m, [], rw (pick_all, e) refl, there)
  one_index ms (i ∷ j ∷ is) one below = absurd (omega arith)

  -- A draw from methods that are left gives one of them.
  pub sample_first_total :
      (m : StudyMethod) (ms : List StudyMethod) (g : G)
      → (chosen : StudyMethod) × ((sample_first generator (m ∷ ms) g).0 ≡ some chosen)
        × (any_of (has_target chosen.target_id) (m ∷ ms) ≡ true)
  unfolding sample_first
  sample_first_total m ms g = elim (Bool-cases (leb (length (m ∷ ms)) 1)) [
    | inl only ↦
        (m, rw (sample_first, sample_methods, only) refl, ground (arith, text_eq_refl m.target_id))
    | inr more ↦
        let drawn = generator.sample (length (m ∷ ms)) 1 g in
        let fits = law (length (m ∷ ms)) 1 g (omega arith) in
        let (chosen, rest, e, there) = one_index (m ∷ ms) drawn.0 fits.0 fits.1 in
        (chosen, rw (sample_first, sample_methods, more, e) refl, there)
  ]
