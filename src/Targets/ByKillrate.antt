-- ===== src/Targets/ByKillrate.antt =====
-- The selection by kill rate, and rows that name a method, give only targets that are allowed.
use mathlib.Core.Path.{subst}
use comet_l.Prelude.{
  ◌≡◌, refl, sym, ap, ◌∙◌, Bool, true, false, not, Option, none, some, List, [], ◌∷◌, Text, text_eq,
  text_eq_iff, Dict, insert, contains, filter_by, All, All-sort_by, arith, Bool-cases, inl, inr,
}
use comet_l.MethodKeys.{build_method_key}
use comet_l.Targets.Types.{
  Method, described, bare, Coverage, MutantGroup, MutantStat, Selector, Criteria, coverage,
  killrate, Selection, value_error,
}
use comet_l.Targets.Methods.{
  get_public_methods, resolve_from, coverage_key, group_key, collect_stats, get_method_mutant_stats,
}
use comet_l.Targets.Strategies.{
  resolved, killrate_candidates, killrate_choice, killrate_target, select_by_killrate,
  coverage_target, lower_killrate, strategy_unavailable,
}
use comet_l.Targets.Scanning.{All-filter_by}
use comet_l.Targets.Allowed.{target_key, IsSigned, IsAllowed, Allowed}

-- A described method that is found by its signature has that signature.
resolve_from-signed :
    (name : Text) (signature : Option Text) (ms : List Method)
    → IsSigned signature
    → (resolve_from name signature ms).1 ≡ signature
unfolding resolve_from
resolve_from-signed name none ms h = absurd h
resolve_from-signed name (some []) ms h = absurd h
resolve_from-signed name (some (c ∷ s)) [] h = refl
resolve_from-signed name (some (c ∷ s)) (bare n ∷ ms) h =
    resolve_from-signed name (some (c ∷ s)) ms h
resolve_from-signed name (some (c ∷ s)) (described k n none range ∷ ms) h =
    ground (arith, resolve_from-signed name (some (c ∷ s)) ms h)
resolve_from-signed name (some (c ∷ s)) (described k n (some []) range ∷ ms) h =
    ground (arith, resolve_from-signed name (some (c ∷ s)) ms h, text_eq_iff [] (c ∷ s))
resolve_from-signed name (some (c ∷ s)) (described k n (some (d ∷ t)) range ∷ ms) h =
    ground (arith, resolve_from-signed name (some (c ∷ s)) ms h, text_eq_iff (d ∷ t) (c ∷ s))

-- Every row of the coverage and of the mutants names the signature of its method.
pub record IsSignedSelector (s : Selector) : Type 0 where
  pub coverage_signed : All (λ (c : Coverage). IsSigned c.method_signature) s.coverage_rows
  pub mutants_signed : All (λ (g : MutantGroup). IsSigned g.method_signature) s.mutant_groups

resolved-key :
    (s : Selector) (strategy : Criteria) (c name : Text) (signature : Option Text)
    → IsSigned signature
    → target_key s (resolved s strategy c name signature)
      ≡ build_method_key s.digest c name signature
unfolding resolve_from get_public_methods
resolved-key s strategy c name signature h =
    ap (build_method_key s.digest c name)
      (resolve_from-signed name signature (get_public_methods s c) h)

All-insert {ℓ κ} :
    {V : Type ℓ} (P : Text × V → Type κ) (k : Text) (v : V) (d : Dict V)
    → P (k, v)
    → All P d
    → All P (insert k v d)
All-insert P k v [] h hs = (h, tt)
All-insert P k v ((j, w) ∷ d) h hs = elim (Bool-cases (text_eq j k)) [
  | inl e ↦ rw e (subst (λ i. P (i, v)) (sym ((text_eq_iff j k).0 e)) h, hs.1)
  | inr e ↦ rw e (hs.0, All-insert P k v d h hs.1)
]

-- The entries of the statistics stand under their own keys, and are signed.
abbrev IsEntry : Selector → Text × MutantStat → Type 0
IsEntry s (k, g) = (k ≡ group_key s g) × IsSigned g.method_signature

collect_stats-entries :
    (s : Selector) (d : Dict MutantStat) (gs : List MutantGroup)
    → All (IsEntry s) d
    → All (λ (g : MutantGroup). IsSigned g.method_signature) gs
    → All (IsEntry s) (collect_stats s d gs)
unfolding collect_stats
collect_stats-entries s d [] h hs = h
collect_stats-entries s d (g ∷ gs) h hs =
    collect_stats-entries s (insert (group_key s g) g d) gs
      (All-insert (IsEntry s) (group_key s g) g d (refl, hs.0) h) hs.1

module _ (s : Selector) (blacklist processed : List Text) where
  -- An entry whose key is not in the blacklist.
  abbrev IsCandidate : Text × MutantStat → Type 0
  IsCandidate x = IsEntry s x × (contains x.0 blacklist ≡ false)

  killrate_candidates-All :
      All (λ (g : MutantGroup). IsSigned g.method_signature) s.mutant_groups
      → All IsCandidate (killrate_candidates s blacklist)
  unfolding killrate_candidates collect_stats
  killrate_candidates-All h = All-sort_by lower_killrate IsCandidate _ (
      All-filter_by (IsEntry s) IsCandidate _ (get_method_mutant_stats s)
        (λ x entry e. (entry, ground arith)) (collect_stats-entries s [] s.mutant_groups tt h))

  killrate_target-Allowed :
      (required : Bool) (x : Text × MutantStat)
      → IsCandidate x
      → (required ≡ true → contains x.0 processed ≡ false)
      → Allowed s blacklist processed required (killrate_target s (some x))
  killrate_target-Allowed required (k, g) h p =
      subst (IsAllowed s blacklist processed required)
        (h.0.0 ∙ sym (resolved-key s killrate g.class_name g.method_name g.method_signature h.0.1))
        (h.1, p)

  killrate_choice-Allowed :
      (required : Bool) (fresh candidates : List (Text × MutantStat))
      → All (λ x. IsCandidate x × (contains x.0 processed ≡ false)) fresh
      → All IsCandidate candidates
      → Allowed s blacklist processed required
          (killrate_target s (killrate_choice required fresh candidates))
  killrate_choice-Allowed required (u ∷ us) cs h hs =
      killrate_target-Allowed required u h.0.0 (λ r. h.0.1)
  killrate_choice-Allowed true [] cs h hs = tt
  killrate_choice-Allowed false [] [] h hs = tt
  killrate_choice-Allowed false [] (c ∷ cs) h hs =
      killrate_target-Allowed false c hs.0 (λ r. absurd cc)

  pub select_by_killrate-Allowed :
      (required : Bool)
      → IsSignedSelector s
      → Allowed s blacklist processed required (select_by_killrate s blacklist processed required)
  unfolding select_by_killrate
  select_by_killrate-Allowed required h = elim (Bool-cases (strategy_unavailable s killrate)) [
    | inl e ↦ rw e tt
    | inr e ↦ rw e (go (get_method_mutant_stats s))
  ]
    where
      all : All IsCandidate (killrate_candidates s blacklist)
      all = killrate_candidates-All h.mutants_signed

      go :
          (d : Dict MutantStat)
          → Allowed s blacklist processed required (elim d as (λ _. Selection) [
            | [] ↦ value_error
            | e ∷ es ↦ killrate_target s (
                killrate_choice required
                  (filter_by
                    (λ (k, stat). not (contains k processed))
                    (killrate_candidates s blacklist))
                  (killrate_candidates s blacklist))
          ])
      go [] = tt
      go (e ∷ es) =
          killrate_choice-Allowed required _ _
            (All-filter_by IsCandidate _ _ _ (λ x c e. (c, ground arith)) all) all

  pub coverage_target-IsAllowed :
      (required : Bool) (c : Coverage)
      → IsSigned c.method_signature
      → IsAllowed s blacklist processed required (coverage_key s c)
      → IsAllowed s blacklist processed required (target_key s (coverage_target s c))
  coverage_target-IsAllowed required c h =
      subst (IsAllowed s blacklist processed required)
        (sym (resolved-key s coverage c.class_name c.method_name c.method_signature h))
