-- ===== src/Targets/Chosen.antt =====
-- The selection by coverage, and every selection, gives only targets that are allowed.
use mathlib.Core.Option
use mathlib.Core.Path.{subst}
use comet_l.Prelude.{
  ℕ, if◌then◌else◌, or_else, ◌≡◌, refl, Bool, true, false, not, Option, none, some, List, [], ◌∷◌,
  Text, contains, filter_by, All, All-sort_by, arith,
}
use comet_l.Targets.Types.{
  Method, Coverage, Selector, Criteria, coverage, killrate, mutations, priority, random, other,
  Target, Selection, chosen, nothing,
}
use comet_l.Targets.Methods.{
  get_all_classes, split_available, first, prefer, get_all_method_coverage,
  get_low_coverage_methods, coverage_key, lower_rate,
}
use comet_l.Targets.Strategies.{
  min_by, coverage_target, least_covered, all_methods, pair_key, select_default, default_target,
  selection_of, select_by_any_coverage, select_by_coverage, select,
}
use comet_l.Targets.Scanning.{All-filter_by, All-const, All-min_by, prefer-holds}
use comet_l.Targets.Scanning.{split_available-keeps}
use comet_l.Targets.Allowed.{
  target_key, IsSigned, IsAllowed, Allowed, split_available-IsAllowed, select_by_mutations-Allowed,
  select_by_priority-Allowed, select_random-Allowed,
}
use comet_l.Targets.ByKillrate.{
  IsSignedSelector, coverage_target-IsAllowed, select_by_killrate-Allowed,
}

module _ (s : Selector) (blacklist processed : List Text) where
  low_coverage-IsSigned :
      IsSignedSelector s
      → All (λ (c : Coverage). IsSigned c.method_signature) (get_low_coverage_methods s)
  unfolding get_low_coverage_methods
  low_coverage-IsSigned h =
      All-sort_by lower_rate _ _
        (All-filter_by _ _ _ s.coverage_rows (λ c k e. k) h.coverage_signed)

  low_coverage-IsAllowed :
      (required : Bool) {c : Coverage}
      → IsSignedSelector s
      → prefer true required
          (split_available (coverage_key s) blacklist processed true (get_low_coverage_methods s))
        ≡ some c
      → IsAllowed s blacklist processed required (target_key s (coverage_target s c))
  low_coverage-IsAllowed required {c} h e =
      let kept =
        split_available-keeps (coverage_key s) blacklist processed
          (λ (c : Coverage). IsSigned c.method_signature) true (get_low_coverage_methods s)
          (low_coverage-IsSigned h) in
      coverage_target-IsAllowed s blacklist processed required c
        (prefer-holds (λ (c : Coverage). IsSigned c.method_signature) true required _ kept.0
          (λ no. kept.1) e)
        (split_available-IsAllowed s blacklist processed required (coverage_key s) true true
          (get_low_coverage_methods s) e)

  -- A row that is signed and not in the blacklist.
  abbrev IsOpen : Coverage → Type 0
  IsOpen c = IsSigned c.method_signature × (contains (coverage_key s c) blacklist ≡ false)

  -- If there is a target, it is not in the blacklist.
  abbrev OpenTarget : Option Target → Type 0
  OpenTarget none = Unit
  OpenTarget (some t) = contains (target_key s t) blacklist ≡ false

  open_row : (c : Coverage) → IsOpen c → OpenTarget (some (coverage_target s c))
  open_row c h =
      (coverage_target-IsAllowed s blacklist processed false c h.0 (h.1, λ r. absurd cc)).0

  least_covered-open :
      (fresh filtered : List Coverage)
      → All IsOpen fresh
      → All IsOpen filtered
      → OpenTarget (Option.map (coverage_target s) (least_covered fresh filtered))
  unfolding least_covered
  least_covered-open (u ∷ us) cs h hs =
      open_row (min_by lower_rate u us) (All-min_by IsOpen lower_rate u us h.0 h.1)
  least_covered-open [] (u ∷ us) h hs =
      open_row (min_by lower_rate u us) (All-min_by IsOpen lower_rate u us hs.0 hs.1)
  least_covered-open [] [] h hs = tt

  first-open :
      (xs : List (Text × Method))
      → All (λ x. contains (pair_key s x) blacklist ≡ false) xs
      → OpenTarget (default_target (first xs))
  first-open [] h = tt
  first-open (x ∷ xs) h = h.0

  or_else-open : (a b : Option Target) → OpenTarget a → OpenTarget b → OpenTarget (or_else a b)
  or_else-open none b h k = k
  or_else-open (some t) b h k = h

  select_default-open :
      (ms : List (Text × Method)) → OpenTarget (select_default s blacklist processed ms)
  unfolding select_default
  select_default-open ms =
      let every = All-const (λ x. Unit {0}) ms (λ x. tt) in
      or_else-open _ _
        (first-open _ (All-filter_by (λ x. Unit {0}) _ _ ms (λ x u e. ground arith) every))
        (first-open _ (All-filter_by (λ x. Unit {0}) _ _ ms (λ x u e. ground arith) every))

  any_coverage-open : IsSignedSelector s → OpenTarget (select_by_any_coverage s blacklist processed)
  unfolding select_by_any_coverage get_all_method_coverage
  any_coverage-open h =
      go (get_all_method_coverage s)
        (All-filter_by _ _ _ s.coverage_rows (λ c k e. k) h.coverage_signed)
    where
      go :
          (rows : List Coverage)
          → All (λ (c : Coverage). IsSigned c.method_signature) rows
          → OpenTarget (elim rows as (λ _. Option Target) [
            | [] ↦ select_default s blacklist processed (all_methods s (get_all_classes s))
            | r ∷ rs ↦
                let filtered =
                  filter_by (λ c. not (contains (coverage_key s c) blacklist)) (r ∷ rs) in
                let fresh = filter_by (λ c. not (contains (coverage_key s c) processed)) filtered in
                Option.map (coverage_target s) (least_covered fresh filtered)
          ])
      go [] k = select_default-open _
      go (r ∷ rs) k =
          let all =
            All-filter_by _ IsOpen (λ c. not (contains (coverage_key s c) blacklist)) (r ∷ rs)
              (λ c n e. (n, ground arith)) k in
          least_covered-open _ _ (All-filter_by IsOpen IsOpen _ _ (λ c n e. n) all) all

  selected_open :
      (o : Option Target) → OpenTarget o → Allowed s blacklist processed false (selection_of o)
  selected_open none h = tt
  selected_open (some t) h = (h, λ r. absurd cc)

  select_by_coverage-Allowed :
      (required : Bool)
      → IsSignedSelector s
      → Allowed s blacklist processed required (select_by_coverage s blacklist processed required)
  unfolding select_by_coverage
  select_by_coverage-Allowed required h =
      go required _ refl (λ c e. low_coverage-IsAllowed required h e)
    where
      go :
          (q : Bool) (o : Option Coverage)
          → q ≡ required
          → ((c : Coverage)
              → o ≡ some c
              → IsAllowed s blacklist processed required (target_key s (coverage_target s c)))
          → Allowed s blacklist processed required (elim o as (λ _. Selection) [
            | some c ↦ chosen (coverage_target s c)
            | none ↦
                if q then nothing else selection_of (select_by_any_coverage s blacklist processed)
          ])
      go q (some c) e k = k c refl
      go true none e k = tt
      go false none e k =
          subst
            (λ r.
              Allowed s blacklist processed r
                (selection_of (select_by_any_coverage s blacklist processed)))
            e (selected_open _ (any_coverage-open h))

  -- A selection by any strategy gives no target whose key is in the blacklist and, where an
  -- unprocessed target is required, none whose key is in the processed targets, if the rows of the
  -- database that it reads name the signatures of their methods.
  pub select-Allowed :
      (drawn : ℕ) (criteria : Criteria) (required : Bool)
      → IsSignedSelector s
      → Allowed s blacklist processed required
          (select drawn s criteria blacklist processed required)
  unfolding select
  select-Allowed drawn coverage required h = select_by_coverage-Allowed required h
  select-Allowed drawn killrate required h =
      select_by_killrate-Allowed s blacklist processed required h
  select-Allowed drawn mutations required h =
      select_by_mutations-Allowed s blacklist processed required
  select-Allowed drawn priority required h =
      select_by_priority-Allowed s blacklist processed required
  select-Allowed drawn random required h =
      select_random-Allowed s blacklist processed required drawn
  select-Allowed drawn other required h = select_by_priority-Allowed s blacklist processed required
