-- ===== src/Targets/Draws.antt =====
-- A random selection that may give a processed target finds one whenever there is one.
use comet_l.Prelude.{
  ℕ, ◌≡◌, refl, false, none, List, [], ◌∷◌, Text, contains, All, Bool-cases, Option-cases, inl, inr,
}
use comet_l.Targets.Types.{Method, Selector, nothing}
use comet_l.Targets.Methods.{
  get_all_classes, get_public_methods, method_key, split_available, prefer,
  get_first_available_method,
}
use comet_l.Targets.Strategies.{random_candidates, choose_random, random_target, select_random}
use comet_l.Targets.Scanning.{All-imp}
use comet_l.Targets.Complete.{IsRuledOut, AllRuledOut, split_none}

prefer_any-none :
    (lists : List Method × List Method)
    → prefer false false lists ≡ none
    → (lists.0 ≡ []) × (lists.1 ≡ [])
unfolding prefer
prefer_any-none (us, p ∷ ps) e = absurd cc
prefer_any-none ([], []) e = (refl, refl)
prefer_any-none (u ∷ us, []) e = absurd cc

choose_random-nothing :
    (drawn : ℕ) (lists : List (Text × Method) × List (Text × Method))
    → random_target (choose_random false drawn lists) ≡ nothing
    → (lists.0 ≡ []) × (lists.1 ≡ [])
unfolding choose_random
choose_random-nothing drawn (u ∷ us, ps) e = absurd cc
choose_random-nothing drawn ([], p ∷ ps) e = absurd cc
choose_random-nothing drawn ([], []) e = (refl, refl)

module _ (s : Selector) (blacklist processed : List Text) where
  available_any-none :
      (c : Text)
      → get_first_available_method s c blacklist processed false false false ≡ none
      → All (IsRuledOut s blacklist processed false c) (get_public_methods s c)
  unfolding get_first_available_method
  available_any-none c e =
      let lists =
        split_available (method_key s c) blacklist processed false (get_public_methods s c) in
      let h = prefer_any-none lists e in
      split_none s blacklist processed false c false (get_public_methods s c) h.0 (λ f. h.1)

  random_candidates-none :
      (cs : List Text)
      → (random_candidates s blacklist processed cs).0 ≡ []
      → (random_candidates s blacklist processed cs).1 ≡ []
      → All (λ c. get_first_available_method s c blacklist processed false false false ≡ none) cs
  unfolding random_candidates
  random_candidates-none [] e f = tt
  random_candidates-none (c ∷ cs) e f =
      elim (Option-cases (get_first_available_method s c blacklist processed false false false)) [
        | inl n ↦ (
          n,
          random_candidates-none cs (rw (n, random_candidates) at e)
              (rw (n, random_candidates) at f),
        )
        | inr (m, found) ↦ elim (Bool-cases (contains (method_key s c m) processed)) [
          | inl p ↦ absurd (cc (rw (found, random_candidates, p) at f))
          | inr p ↦ absurd (cc (rw (found, random_candidates, p) at e))
        ]
      ]

  -- If a random selection that may give a processed target gives nothing, every candidate of
  -- every class is in the blacklist, whatever number is drawn.
  pub select_random-nothing :
      (drawn : ℕ)
      → select_random drawn s blacklist processed false ≡ nothing
      → AllRuledOut s blacklist processed false
  unfolding select_random
  select_random-nothing drawn e =
      let empty =
        choose_random-nothing drawn (random_candidates s blacklist processed (get_all_classes s))
          e in
      All-imp _ _ (get_all_classes s) (λ c n. available_any-none c n)
        (random_candidates-none (get_all_classes s) empty.0 empty.1)
