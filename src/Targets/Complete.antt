-- ===== src/Targets/Complete.antt =====
-- A selection by the numbers of mutants or by priority gives nothing only if all candidates are ruled out.
use comet_l.Prelude.{
  ◌+◌, ◌≤◌, text_eq_iff, filter_by, get_or_else, ◌≡◌, refl, Bool, true, false, ◌||◌, ◌&&◌, Option,
  none, some, List, [], ◌∷◌, Text, contains, All, All-sort_by_inv, ◌⊎◌, ltb, if◌then◌else◌, arith,
  Bool-cases, inl, inr,
}
use comet_l.Targets.Types.{
  Method, described, bare, Selector, Criteria, mutations, priority, Target, Selection, nothing,
  value_error,
}
use comet_l.Targets.Methods.{
  get_all_classes, get_public_methods, is_candidate, method_key, split_available, prefer,
  get_first_available_method,
}
use comet_l.Targets.Strategies.{
  target_of, select_in, select_by_mutations, select_by_priority, selection_of, strategy_unavailable,
  mutant_count, score,
}
use comet_l.Targets.Scanning.{All-imp, first_of-none}

module _ (s : Selector) (blacklist processed : List Text) (required : Bool) where
  -- A method is out of the question.
  abbrev pub IsRuledOut : Text → Method → Type 0
  IsRuledOut c m =
      (contains (method_key s c m) blacklist || (required && contains (method_key s c m) processed))
      ≡ true

  pub split_none :
      (c : Text) (stop : Bool) (ms : List Method)
      → (split_available (method_key s c) blacklist processed stop ms).0 ≡ []
      → (required ≡ false → (split_available (method_key s c) blacklist processed stop ms).1 ≡ [])
      → All (IsRuledOut c) ms
  unfolding split_available
  split_none c stop [] e k = tt
  split_none c stop (m ∷ ms) e k = elim (Bool-cases (contains (method_key s c m) blacklist)) [
    | inl b ↦ (
      ground arith,
      split_none c stop ms (rw (b, split_available) at e) (rw (b, split_available) at k),
    )
    | inr b ↦ elim (Bool-cases (contains (method_key s c m) processed)) [
      | inl p ↦ elim (Bool-cases required) [
        | inl r ↦
            (ground arith, split_none c stop ms (rw (b, split_available, p) at e) (λ no. absurd cc))
        | inr r ↦ absurd (cc (rw (b, split_available, p) at (k r)))
      ]
      | inr p ↦ elim (Bool-cases stop) [
        | inl x ↦ absurd (cc (rw (b, split_available, p, x) at e))
        | inr x ↦ absurd (cc (rw (b, split_available, p, x) at e))
      ]
    ]
  ]

  prefer-none :
      (lists : List Method × List Method) (q : Bool)
      → prefer true q lists ≡ none
      → (lists.0 ≡ []) × (q ≡ false → lists.1 ≡ [])
  unfolding prefer
  prefer-none (u ∷ us, ps) q e = absurd cc
  prefer-none ([], ps) true e = (refl, λ no. absurd cc)
  prefer-none ([], []) false e = (refl, λ f. refl)
  prefer-none ([], p ∷ ps) false e = absurd cc

  -- A class of which no method is available has none that is not ruled out.
  available-none :
      (c : Text)
      → get_first_available_method s c blacklist processed true true required ≡ none
      → All (IsRuledOut c) (get_public_methods s c)
  unfolding get_first_available_method
  available-none c e =
      let h =
        prefer-none
          (split_available (method_key s c) blacklist processed true (get_public_methods s c))
          required e in
      split_none c true (get_public_methods s c) h.0 h.1

  select_in-none :
      (strategy : Criteria) (cs : List Text)
      → select_in s strategy blacklist processed required cs ≡ none
      → All (λ c. All (IsRuledOut c) (get_public_methods s c)) cs
  unfolding select_in
  select_in-none strategy cs e =
      All-imp _ _ cs (λ c n. available-none c (target_none c n)) (first_of-none _ cs e)
    where
      target_none :
          (c : Text)
          → (elim (get_first_available_method s c blacklist processed true true required)
              as (λ _. Option Target) [ none ↦ none | some m ↦ some (target_of strategy c m) ])
            ≡ none
          → get_first_available_method s c blacklist processed true true required ≡ none
      target_none c n = ground arith

  selection_of-nothing : (o : Option Target) → selection_of o ≡ nothing → o ≡ none
  selection_of-nothing none e = refl
  selection_of-nothing (some t) e = absurd cc

  abbrev pub AllRuledOut : Type 0
  AllRuledOut = All (λ c. All (IsRuledOut c) (get_public_methods s c)) (get_all_classes s)

  past_error : (b : Bool) (x : Selection) → (if b then value_error else x) ≡ nothing → x ≡ nothing
  past_error true x e = absurd cc
  past_error false x e = e

  mutations-nothing : select_by_mutations s blacklist processed required ≡ nothing → AllRuledOut
  unfolding select_by_mutations
  mutations-nothing e =
      All-sort_by_inv (λ a b. ltb (mutant_count s a) (mutant_count s b)) _ (get_all_classes s)
        (select_in-none mutations _
          (selection_of-nothing _ (past_error (strategy_unavailable s mutations) _ e)))

  priority-nothing : select_by_priority s blacklist processed required ≡ nothing → AllRuledOut
  unfolding select_by_priority
  priority-nothing e =
      All-sort_by_inv (λ a b. ltb (score s a) (score s b)) _ (get_all_classes s)
        (select_in-none priority _
          (selection_of-nothing _ (past_error (strategy_unavailable s priority) _ e)))

  -- The list names the method for the class, and it has the least number of lines; a bare name, or an
  -- entry without a range of lines, passes.
  abbrev pub IsOffered : Text → Method → Type 0
  IsOffered c (described d name signature none) = d ≡ c
  IsOffered c (described d name signature (some (first, last))) =
      (d ≡ c) × (first + s.min_method_lines ≤ last + 1)
  IsOffered c (bare name) = Unit

  -- Each method of the lists of public methods that is offered for its class is ruled out.
  abbrev pub AllOfferedRuledOut : Type 0
  AllOfferedRuledOut =
      All (λ c. All (λ m. IsOffered c m → IsRuledOut c m) (get_or_else (s.public_methods c) []))
        (get_all_classes s)

  is_candidate-IsOffered : (c : Text) (m : Method) → IsOffered c m → is_candidate s c m ≡ true
  is_candidate-IsOffered c (described d name signature none) h = ground (arith, text_eq_iff d c, h)
  is_candidate-IsOffered c (described d name signature (some (first, last))) h =
      ground (arith, text_eq_iff d c, h.0, h.1)
  is_candidate-IsOffered c (bare name) h = refl

  IsOffered-IsRuledOut :
      (c : Text) (ms : List Method)
      → All (IsRuledOut c) (filter_by (is_candidate s c) ms)
      → All (λ m. IsOffered c m → IsRuledOut c m) ms
  IsOffered-IsRuledOut c [] h = tt
  IsOffered-IsRuledOut c (m ∷ ms) h = elim (Bool-cases (is_candidate s c m)) [
    | inl kept ↦
        let parts : IsRuledOut c m × All (IsRuledOut c) (filter_by (is_candidate s c) ms) =
          rw kept at h in
        ((λ o. parts.0), IsOffered-IsRuledOut c ms parts.1)
    | inr dropped ↦ (
      (λ o. absurd (ground (arith, is_candidate-IsOffered c m o, dropped))),
      IsOffered-IsRuledOut c ms (rw dropped at h),
    )
  ]

  every_class :
      (cs : List Text)
      → All (λ c. All (IsRuledOut c) (get_public_methods s c)) cs
      → All
          (λ c. All (λ m. IsOffered c m → IsRuledOut c m) (get_or_else (s.public_methods c) []))
          cs
  unfolding get_public_methods
  every_class cs =
      All-imp _ _ cs (λ c h. IsOffered-IsRuledOut c (get_or_else (s.public_methods c) []) h)

  -- If the selection by the numbers of mutants, or that by priority, gives nothing, then in each class
  -- of the selection (the cached ones, or all but the interfaces) every public method that is listed for
  -- it and has the least number of lines is in the blacklist or, where an unprocessed target is required,
  -- in the processed targets.
  pub select-nothing :
      (select_by_mutations s blacklist processed required ≡ nothing)
        ⊎ (select_by_priority s blacklist processed required ≡ nothing)
      → AllOfferedRuledOut
  select-nothing (inl e) = every_class (get_all_classes s) (mutations-nothing e)
  select-nothing (inr e) = every_class (get_all_classes s) (priority-nothing e)
