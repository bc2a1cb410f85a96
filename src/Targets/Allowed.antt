-- ===== src/Targets/Allowed.antt =====
-- A selection gives no target of the blacklist, nor one that is processed where none may be.
use mathlib.Core.Path.{subst}
use comet_l.Prelude.{
  ℕ, ◌≡◌, refl, Bool, true, false, Option, none, some, List, [], ◌∷◌, Text, contains, All, arith,
  Bool-cases, Option-cases, inl, inr,
}
use comet_l.MethodKeys.{build_method_key}
use comet_l.Targets.Types.{
  Method, Selector, Criteria, mutations, priority, Target, Selection, chosen, nothing, value_error,
}
use comet_l.Targets.Methods.{
  get_all_classes, get_public_methods, method_key, split_available, prefer,
  get_first_available_method,
}
use comet_l.Targets.Strategies.{
  target_of, select_in, select_by_mutations, select_by_priority, random_candidates, choose_random,
  random_target, select_random, pair_key, selection_of, strategy_unavailable,
}
use comet_l.Targets.Scanning.{All-imp, All-pick, first_of-holds, split_available-All, prefer-holds}

abbrev pub target_key : Selector → Target → Text
target_key s t = build_method_key s.digest t.class_name t.method_name t.method_signature

-- A signature that is there and is not empty.
abbrev pub IsSigned : Option Text → Type 0
IsSigned none = ⊥
IsSigned (some []) = ⊥
IsSigned (some (c ∷ s)) = Unit

module _ (s : Selector) (blacklist processed : List Text) (required : Bool) where
  -- A key that may be chosen.
  abbrev pub IsAllowed : Text → Type 0
  IsAllowed k = (contains k blacklist ≡ false) × (required ≡ true → contains k processed ≡ false)

  abbrev pub Allowed : Selection → Type 0
  Allowed nothing = Unit
  Allowed value_error = Unit
  Allowed (chosen t) = IsAllowed (target_key s t)

  pub split_available-IsAllowed {ℓ} :
      {A : Type ℓ} (key : A → Text) (preferred stop : Bool) (ms : List A) {m : A}
      → prefer preferred required (split_available key blacklist processed stop ms) ≡ some m
      → IsAllowed (key m)
  split_available-IsAllowed key preferred stop ms =
      let all = split_available-All key blacklist processed stop ms in
      prefer-holds (λ m. IsAllowed (key m)) preferred required _
        (All-imp _ (λ m. IsAllowed (key m)) _ (λ m h. (h.0, λ r. h.1)) all.0)
        (λ no. All-imp _ (λ m. IsAllowed (key m)) _ (λ m h. (h, λ r. absurd (cc))) all.1)

  pub selection_of-Allowed :
      (o : Option Target)
      → ((t : Target) → o ≡ some t → IsAllowed (target_key s t))
      → Allowed (selection_of o)
  selection_of-Allowed none h = tt
  selection_of-Allowed (some t) h = h t refl

  select_in-IsAllowed :
      (strategy : Criteria) (cs : List Text) (t : Target)
      → select_in s strategy blacklist processed required cs ≡ some t
      → IsAllowed (target_key s t)
  unfolding select_in get_first_available_method
  select_in-IsAllowed strategy cs t =
      first_of-holds (λ t. IsAllowed (target_key s t)) _ cs
        (λ c t e.
          elim (Option-cases
            (get_first_available_method s c blacklist processed true true required)) [
              | inl n ↦ ground (arith, n)
              | inr (m, found) ↦
                  let same : target_of strategy c m ≡ t = ground arith in
                  subst (λ t. IsAllowed (target_key s t)) same
                    (split_available-IsAllowed (method_key s c) true true (get_public_methods s c)
                      found)
            ])

  pub select_by_mutations-Allowed : Allowed (select_by_mutations s blacklist processed required)
  unfolding select_by_mutations
  select_by_mutations-Allowed = elim (Bool-cases (strategy_unavailable s mutations)) [
    | inl e ↦ rw e tt
    | inr e ↦ rw e (selection_of-Allowed _ (select_in-IsAllowed mutations _))
  ]

  pub select_by_priority-Allowed : Allowed (select_by_priority s blacklist processed required)
  unfolding select_by_priority
  select_by_priority-Allowed = elim (Bool-cases (strategy_unavailable s priority)) [
    | inl e ↦ rw e tt
    | inr e ↦ rw e (selection_of-Allowed _ (select_in-IsAllowed priority _))
  ]

  first_available-not_blacklisted :
      (c : Text) {m : Method}
      → get_first_available_method s c blacklist processed false false false ≡ some m
      → contains (method_key s c m) blacklist ≡ false
  unfolding get_first_available_method
  first_available-not_blacklisted c =
      let all =
        split_available-All (method_key s c) blacklist processed false (get_public_methods s c) in
      prefer-holds (λ m. contains (method_key s c m) blacklist ≡ false) false false _
        (All-imp _ _ _ (λ m h. h.0) all.0) (λ no. all.1)

  random_candidates-All :
      (cs : List Text)
      → All
          (λ x.
            (contains (pair_key s x) blacklist ≡ false)
            × (contains (pair_key s x) processed ≡ false))
          (random_candidates s blacklist processed cs).0
        × All
            (λ x. contains (pair_key s x) blacklist ≡ false)
            (random_candidates s blacklist processed cs).1
  unfolding random_candidates
  random_candidates-All [] = (tt, tt)
  random_candidates-All (c ∷ cs) =
      let ih = random_candidates-All cs in
      elim (Option-cases (get_first_available_method s c blacklist processed false false false)) [
        | inl n ↦ rw (n, random_candidates) ih
        | inr (m, found) ↦
            let b = first_available-not_blacklisted c found in
            elim (Bool-cases (contains (method_key s c m) processed)) [
              | inl e ↦ rw (found, random_candidates, e) (ih.0, (b, ih.1))
              | inr e ↦ rw (found, random_candidates, e) (((b, e), ih.0), ih.1)
            ]
      ]

  choose_random-Allowed :
      (drawn : ℕ) (lists : List (Text × Method) × List (Text × Method))
      → All
          (λ x.
            (contains (pair_key s x) blacklist ≡ false)
            × (contains (pair_key s x) processed ≡ false))
          lists.0
      → All (λ x. contains (pair_key s x) blacklist ≡ false) lists.1
      → (q : Bool) → q ≡ required
      → Allowed (random_target (choose_random q drawn lists))
  unfolding choose_random
  choose_random-Allowed drawn (u ∷ us, ps) h k q e =
      let all = All-pick _ drawn u us h.0 h.1 in (all.0, λ r. all.1)
  choose_random-Allowed drawn ([], ps) h k true e = tt
  choose_random-Allowed drawn ([], []) h k false e = tt
  choose_random-Allowed drawn ([], p ∷ ps) h k false e =
      (All-pick (λ x. contains (pair_key s x) blacklist ≡ false) drawn p ps k.0 k.1, λ r. absurd cc)

  pub select_random-Allowed :
      (drawn : ℕ) → Allowed (select_random drawn s blacklist processed required)
  unfolding select_random
  select_random-Allowed drawn =
      let all = random_candidates-All (get_all_classes s) in
      choose_random-Allowed drawn _ all.0 all.1 required refl
