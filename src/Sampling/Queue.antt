-- ===== src/Sampling/Queue.antt =====
-- The queue of candidates and the sample. An IndexError, and the end of the fuel, are `none`.
use comet_l.Prelude.{
  ℕ, zero, suc, min, Bool, not, Option, none, some, List, [], ◌∷◌, ◌++◌, Text, text_eq, contains,
  filter_by, length, take, sort_by, ltb, leb, if◌then◌else◌,
}
use comet_l.Sampling.Types.{StudyMethod, Generator}

-- `methods[index]`
unfoldable pub get_elem? : List StudyMethod → ℕ → Option StudyMethod
get_elem? [] i = none
get_elem? (m ∷ ms) zero = some m
get_elem? (m ∷ ms) (suc i) = get_elem? ms i

-- `[methods[index] for index in indexes]`
unfoldable pub pick_all : List StudyMethod → List ℕ → Option (List StudyMethod)
unfolding get_elem?
pick_all ms [] = some []
pick_all ms (i ∷ is) = elim (get_elem? ms i) [
  | none ↦ none
  | some m ↦ elim (pick_all ms is) [ none ↦ none | some rest ↦ some (m ∷ rest) ]
]

-- `model_copy(update={"order": order})` for order, method in enumerate(methods, start=n)
unfoldable pub number_from : ℕ → List StudyMethod → List StudyMethod
number_from n [] = []
number_from n (m ∷ ms) = record m { order = n } ∷ number_from (suc n) ms

abbrev pub has_target : Text → StudyMethod → Bool
has_target id m = text_eq m.target_id id

-- `choose_study_sample_size`
abbrev pub choose_study_sample_size : ℕ → ℕ → ℕ
choose_study_sample_size total sample_size = min total sample_size

module _ {ℓ} {G : Type ℓ} (generator : Generator G) where
  -- `_sample_methods`
  unfoldable pub sample_methods : List StudyMethod → ℕ → G → Option (List StudyMethod) × G
  unfolding pick_all sort_by
  sample_methods [] k g = (some [], g)
  sample_methods (m ∷ ms) zero g = (some [], g)
  sample_methods (m ∷ ms) (suc k) g =
      if leb (length (m ∷ ms)) (suc k)
      then (some (m ∷ ms), g)
      else let (indexes, g') = generator.sample (length (m ∷ ms)) (suc k) g in
        (pick_all (m ∷ ms) (sort_by ltb indexes), g')

  -- `_sample_methods(remaining, 1, rng)[0]`
  unfoldable pub sample_first : List StudyMethod → G → Option StudyMethod × G
  unfolding sample_methods
  sample_first ms g =
      let (sampled, g') = sample_methods ms 1 g in
      (elim sampled [ some (m ∷ rest) ↦ some m | _ ↦ none ], g')

  -- `_build_partition_candidate_queue`, with fuel for its rounds
  unfoldable pub partition_queue : ℕ → List StudyMethod → G → Option (List StudyMethod) × G
  unfolding sample_first
  partition_queue fuel [] g = (some [], g)
  partition_queue zero (m ∷ ms) g = (none, g)
  partition_queue (suc fuel) (m ∷ ms) g =
      let (drawn, g') = sample_first (m ∷ ms) g in
      elim drawn [
        | none ↦ (none, g')
        | some chosen ↦
            let (rest, g'') =
              partition_queue fuel
                (filter_by (λ (o : StudyMethod). not (text_eq o.target_id chosen.target_id))
                  (m ∷ ms))
                g' in
            (elim rest [ none ↦ none | some queue ↦ some (chosen ∷ queue) ], g'')
      ]

  abbrev build_partition_candidate_queue : List StudyMethod → G → Option (List StudyMethod) × G
  build_partition_candidate_queue ms = partition_queue (length ms) ms

  -- The queue of the preferred methods, and behind it that of the others
  unfoldable pub preferred_queue : List Text → List StudyMethod → G → Option (List StudyMethod)
  unfolding partition_queue
  preferred_queue [] ms g = (build_partition_candidate_queue ms g).0
  preferred_queue (id ∷ ids) ms g =
      let preferred = filter_by (λ (m : StudyMethod). contains m.target_id (id ∷ ids)) ms in
      let fallback = filter_by (λ (m : StudyMethod). not (contains m.target_id (id ∷ ids))) ms in
      let (first, g') = build_partition_candidate_queue preferred g in
      let (second, g'') = build_partition_candidate_queue fallback g' in
      elim first [
        | none ↦ none
        | some queue ↦ elim second [ none ↦ none | some others ↦ some (queue ++ others) ]
      ]

  -- `build_cold_start_candidate_queue`, with a generator of the seed
  unfoldable pub build_cold_start_candidate_queue :
      List Text → List StudyMethod → G → Option (List StudyMethod)
  unfolding preferred_queue number_from
  build_cold_start_candidate_queue ids ms g =
      if leb (length ms) 1
      then some (number_from 0 ms)
      else elim (preferred_queue ids ms g) [ none ↦ none | some queue ↦ some (number_from 0 queue) ]

  -- `sample_cold_start_methods`
  unfoldable pub sample_cold_start_methods :
      ℕ → List Text → List StudyMethod → G → Option (List StudyMethod)
  unfolding build_cold_start_candidate_queue number_from
  sample_cold_start_methods sample_size ids ms g =
      let count = choose_study_sample_size (length ms) sample_size in
      if leb (length ms) count
      then some (number_from 0 ms)
      else elim (build_cold_start_candidate_queue ids ms g) [
        | none ↦ none
        | some queue ↦ some (number_from 0 (take count queue))
      ]
