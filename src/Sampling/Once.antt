-- ===== src/Sampling/Once.antt =====
-- The queue has every target once, whatever the generator draws.
use comet_l.Prelude.{
  ℕ, zero, suc, ◌≤◌, ◌≡◌, ◌∙◌, ap, refl, Bool, true, not, ◌&&◌, some, List, [], ◌∷◌, ◌++◌, Text,
  text_eq, text_eq→eq, text_eq_iff, contains, any_of, count_of, count_of-append, filter_by, length,
  leb, arith, if◌then◌else◌, Bool-cases, inl, inr,
}
use comet_l.Sampling.Types.{StudyMethod, Generator}
use comet_l.Sampling.Queue.{
  has_target, number_from, sample_first, partition_queue, preferred_queue,
  build_cold_start_candidate_queue,
}
use comet_l.Sampling.Parts.{
  IsGenerator, without_target, length-without_target, count-any, any_of-without_target,
  sample_first_total,
}

-- Each target of the methods is in the queue once, and no other is.
abbrev pub HasOnce : List StudyMethod → List StudyMethod → Type 0
HasOnce ms queue =
    (id : Text) → count_of (has_target id) queue ≡ (if any_of (has_target id) ms then 1 else 0)

any_of-same :
    (id other : Text) (ms : List StudyMethod)
    → text_eq id other ≡ true
    → any_of (has_target id) ms ≡ any_of (has_target other) ms
any_of-same id other [] same = refl
any_of-same id other (m ∷ ms) same = ground (
  arith,
  text_eq_iff id other,
  text_eq_iff m.target_id id,
  text_eq_iff m.target_id other,
  any_of-same id other ms,
)

cons-HasOnce :
    (chosen : StudyMethod) (ms queue : List StudyMethod)
    → any_of (has_target chosen.target_id) ms ≡ true
    → HasOnce (without_target chosen.target_id ms) queue
    → HasOnce ms (chosen ∷ queue)
cons-HasOnce chosen ms queue there rest id = ground (
  arith,
  rest id,
  any_of-without_target chosen.target_id id ms,
  any_of-same chosen.target_id id ms,
)

module _ {ℓ} {G : Type ℓ} (generator : Generator G) (law : IsGenerator generator) where
  partition_queue_total :
      (fuel : ℕ) (ms : List StudyMethod) (g : G)
      → length ms ≤ fuel
      → (queue : List StudyMethod) × ((partition_queue generator fuel ms g).0 ≡ some queue)
        × HasOnce ms queue
  unfolding partition_queue
  partition_queue_total fuel [] g h = ([], refl, λ id. refl)
  partition_queue_total zero (m ∷ ms) g h = absurd (omega arith)
  partition_queue_total (suc fuel) (m ∷ ms) g h =
      let (chosen, drawn, there) = sample_first_total generator law m ms g in
      let fewer : length (without_target chosen.target_id (m ∷ ms)) ≤ fuel = omega (
        arith,
        length-without_target chosen.target_id (m ∷ ms),
        count-any chosen.target_id (m ∷ ms) there,
      ) in
      let (queue, rest, once) =
        partition_queue_total fuel (without_target chosen.target_id (m ∷ ms))
          (sample_first generator (m ∷ ms) g).1 fewer in
      (
        chosen ∷ queue,
        rw (partition_queue, drawn, rest) refl,
        cons-HasOnce chosen (m ∷ ms) queue there once,
      )

same_test : (p : Text → Bool) (a b : Text) → text_eq a b ≡ true → p a ≡ p b
same_test p a b same = ap p (text_eq→eq a b same)

any_of-filter :
    (p : Text → Bool) (id : Text) (ms : List StudyMethod)
    → any_of (has_target id) (filter_by (λ (m : StudyMethod). p m.target_id) ms)
      ≡ (any_of (has_target id) ms && p id)
any_of-filter p id [] = refl
any_of-filter p id (m ∷ ms) = ground (arith, same_test p m.target_id id, any_of-filter p id ms)

append-HasOnce :
    (p : Text → Bool) (ms first second : List StudyMethod)
    → HasOnce (filter_by (λ (m : StudyMethod). p m.target_id) ms) first
    → HasOnce (filter_by (λ (m : StudyMethod). not (p m.target_id)) ms) second
    → HasOnce ms (first ++ second)
append-HasOnce p ms first second h k id = ground (
  arith,
  count_of-append (has_target id) first second,
  h id,
  k id,
  any_of-filter p id ms,
  any_of-filter (λ t. not (p t)) id ms,
)

-- The orders are n, n + 1, …
abbrev pub HasOrders : ℕ → List StudyMethod → Type 0
HasOrders n [] = Unit
HasOrders n (m ∷ ms) = (m.order ≡ n) × HasOrders (suc n) ms

number_from-HasOrders : (n : ℕ) (ms : List StudyMethod) → HasOrders n (number_from n ms)
unfolding number_from
number_from-HasOrders n [] = tt
number_from-HasOrders n (m ∷ ms) = (refl, number_from-HasOrders (suc n) ms)

count_of-number_from :
    (id : Text) (n : ℕ) (ms : List StudyMethod)
    → count_of (has_target id) (number_from n ms) ≡ count_of (has_target id) ms
unfolding number_from
count_of-number_from id n [] = refl
count_of-number_from id n (m ∷ ms) = ground (arith, count_of-number_from id (suc n) ms)

short-HasOnce : (ms : List StudyMethod) → leb (length ms) 1 ≡ true → HasOnce ms ms
short-HasOnce [] h id = refl
short-HasOnce (m ∷ []) h id = ground arith
short-HasOnce (m ∷ o ∷ ms) h id = absurd (ground arith)

module _ {ℓ} {G : Type ℓ} (generator : Generator G) (law : IsGenerator generator) where
  preferred_queue_total :
      (ids : List Text) (ms : List StudyMethod) (g : G)
      → (queue : List StudyMethod) × (preferred_queue generator ids ms g ≡ some queue)
        × HasOnce ms queue
  unfolding preferred_queue
  preferred_queue_total [] ms g = partition_queue_total generator law (length ms) ms g (omega arith)
  preferred_queue_total (i ∷ is) ms g =
      let preferred = filter_by (λ (m : StudyMethod). contains m.target_id (i ∷ is)) ms in
      let fallback = filter_by (λ (m : StudyMethod). not (contains m.target_id (i ∷ is))) ms in
      let g' = (partition_queue generator (length preferred) preferred g).1 in
      let (first, e, h) =
        partition_queue_total generator law (length preferred) preferred g (omega arith) in
      let (second, f, k) =
        partition_queue_total generator law (length fallback) fallback g' (omega arith) in
      (
        first ++ second,
        rw (preferred_queue, e, f) refl,
        append-HasOnce (λ t. contains t (i ∷ is)) ms first second h k,
      )

  -- Where the generator draws as many numbers as it is asked for, all below the bound, the queue of
  -- candidates is always built: it has each target of the methods once and no other, and the orders
  -- count from 0.
  pub build_cold_start_candidate_queue_total :
      (ids : List Text) (ms : List StudyMethod) (g : G)
      → (queue : List StudyMethod) × (build_cold_start_candidate_queue generator ids ms g
          ≡ some queue)
        × HasOnce ms queue
        × HasOrders 0 queue
  unfolding build_cold_start_candidate_queue
  build_cold_start_candidate_queue_total ids ms g = elim (Bool-cases (leb (length ms) 1)) [
    | inl short ↦ (
      number_from 0 ms,
      rw short refl,
      λ id. count_of-number_from id 0 ms ∙ short-HasOnce ms short id,
      number_from-HasOrders 0 ms,
    )
    | inr long ↦
        let (queue, e, once) = preferred_queue_total ids ms g in
        (
          number_from 0 queue,
          rw (long, e) refl,
          λ id. count_of-number_from id 0 queue ∙ once id,
          number_from-HasOrders 0 queue,
        )
  ]
