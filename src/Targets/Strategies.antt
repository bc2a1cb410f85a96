-- ===== src/Targets/Strategies.antt =====
-- The strategies.
use mathlib.Core.Option
use comet_l.Prelude.{
  ℕ, zero, suc, ◌+◌, ◌*◌, Bool, true, false, ◌&&◌, ◌||◌, not, Option, none, some, List, [], ◌∷◌,
  ◌++◌, map, Text, text_eq, contains, filter_by, count_of, sort_by, ltb, or_else, if◌then◌else◌,
}
use comet_l.Targets.Types.{
  Method, Coverage, MutantStat, Selector, Criteria, coverage, killrate, mutations, priority, random,
  other, Target, Selection, chosen, nothing, value_error,
}
use comet_l.Targets.Methods.{
  get_all_classes, get_public_methods, name_of, signature_of, info_of, method_key, split_available,
  first, prefer, get_first_available_method, resolve_method_details, lower_rate,
  get_all_method_coverage, get_low_coverage_methods, coverage_key, get_method_mutant_stats,
}

-- `_ensure_strategy_available`: whether it raises.
unfoldable pub strategy_unavailable : Selector → Criteria → Bool
strategy_unavailable s mutations = not s.mutation_enabled
strategy_unavailable s killrate = not s.mutation_enabled
strategy_unavailable s priority = not s.mutation_enabled
strategy_unavailable s _ = false

abbrev pub target_of : Criteria → Text → Method → Target
target_of strategy c m = record {
  class_name = c;
  method_name = name_of m;
  method_signature = signature_of m;
  method_info = info_of m;
  strategy = strategy;
}

-- The target of a row that names its method, with the details of the method in the source.
abbrev pub resolved : Selector → Criteria → Text → Text → Option Text → Target
unfolding get_public_methods
resolved s strategy c name signature =
    let (info, found) = resolve_method_details s c name signature in
    record {
      class_name = c;
      method_name = name;
      method_signature = found;
      method_info = info;
      strategy = strategy;
    }

abbrev pub selection_of : Option Target → Selection
selection_of none = nothing
selection_of (some t) = chosen t

-- The first result of a search through a list.
unfoldable pub first_of {ℓ μ} : {A : Type ℓ} {B : Type μ} → (A → Option B) → List A → Option B
first_of f [] = none
first_of f (x ∷ xs) = let rest = first_of f xs in or_else (f x) rest

-- `min(xs, key=…)`: the first of the least.
unfoldable pub min_by {ℓ} : {A : Type ℓ} → (A → A → Bool) → A → List A → A
min_by lt x [] = x
min_by lt x (y ∷ ys) =
    let left = min_by lt x ys in let right = min_by lt y ys in if lt y x then right else left

-- The choice for the classes in an order: the first available method of the first class that has
-- one.
unfoldable pub select_in :
    Selector → Criteria → List Text → List Text → Bool → List Text → Option Target
unfolding get_first_available_method first_of
select_in s strategy blacklist processed required = first_of (λ c.
    elim (get_first_available_method s c blacklist processed true true required) [
      | none ↦ none
      | some m ↦ some (target_of strategy c m)
    ])

abbrev pub mutant_count : Selector → Text → ℕ
mutant_count s c = count_of (λ m. text_eq m c) s.mutant_classes

abbrev pub test_count : Selector → Text → ℕ
test_count s c = count_of (λ t. text_eq t c) s.test_classes

unfoldable pub select_by_mutations : Selector → List Text → List Text → Bool → Selection
unfolding strategy_unavailable get_all_classes sort_by select_in
select_by_mutations s blacklist processed required =
    if strategy_unavailable s mutations
    then value_error
    else selection_of (
        select_in s mutations blacklist processed required
          (sort_by (λ a b. ltb (mutant_count s a) (mutant_count s b)) (get_all_classes s)))

-- The score in tenths, exact where the source's `0.3 * mutants + 0.7 * tests` rounds.
abbrev pub score : Selector → Text → ℕ
score s c = 3 * mutant_count s c + 7 * test_count s c

unfoldable pub select_by_priority : Selector → List Text → List Text → Bool → Selection
unfolding strategy_unavailable get_all_classes sort_by select_in
select_by_priority s blacklist processed required =
    if strategy_unavailable s priority
    then value_error
    else selection_of (
        select_in s priority blacklist processed required
          (sort_by (λ a b. ltb (score s a) (score s b)) (get_all_classes s)))

-- The first candidates of the classes, those that are processed apart.
unfoldable pub random_candidates :
    Selector → List Text → List Text → List Text → List (Text × Method) × List (Text × Method)
unfolding get_first_available_method
random_candidates s blacklist processed [] = ([], [])
random_candidates s blacklist processed (c ∷ cs) =
    let rest = random_candidates s blacklist processed cs in
    elim (get_first_available_method s c blacklist processed false false false) [
      | none ↦ rest
      | some m ↦
          if contains (method_key s c m) processed
          then (rest.0, (c, m) ∷ rest.1)
          else ((c, m) ∷ rest.0, rest.1)
    ]

-- `random.choice(xs)`, with the index that was drawn; one beyond the end is the last.
unfoldable pub pick {ℓ} : {A : Type ℓ} → ℕ → A → List A → A
pick n x [] = x
pick zero x (y ∷ ys) = x
pick (suc n) x (y ∷ ys) = pick n y ys

unfoldable pub choose_random :
    Bool → ℕ → List (Text × Method) × List (Text × Method) → Option (Text × Method)
unfolding pick
choose_random required drawn (u ∷ us, ps) = some (pick drawn u us)
choose_random true drawn ([], ps) = none
choose_random false drawn ([], []) = none
choose_random false drawn ([], p ∷ ps) = some (pick drawn p ps)

abbrev pub random_target : Option (Text × Method) → Selection
random_target none = nothing
random_target (some (c, m)) = chosen (target_of random c m)

unfoldable pub select_random : ℕ → Selector → List Text → List Text → Bool → Selection
unfolding get_all_classes random_candidates choose_random
select_random drawn s blacklist processed required =
    random_target
      (choose_random required drawn (random_candidates s blacklist processed (get_all_classes s)))

-- `killed / total` is less; both totals are positive.
abbrev pub lower_killrate : Text × MutantStat → Text × MutantStat → Bool
lower_killrate (j, a) (k, b) = ltb (a.killed * b.total) (b.killed * a.total)

-- The methods with mutants that are not in the blacklist, the least killed first.
unfoldable pub killrate_candidates : Selector → List Text → List (Text × MutantStat)
unfolding sort_by
killrate_candidates s blacklist = sort_by lower_killrate (
    filter_by (λ (k, stat). not (contains k blacklist) && ltb 0 stat.total)
      (get_method_mutant_stats s))

abbrev pub killrate_choice :
    Bool → List (Text × MutantStat) → List (Text × MutantStat) → Option (Text × MutantStat)
killrate_choice required (u ∷ us) candidates = some u
killrate_choice true [] candidates = none
killrate_choice false [] candidates = first candidates

abbrev pub killrate_target : Selector → Option (Text × MutantStat) → Selection
killrate_target s none = nothing
killrate_target s (some (k, stat)) =
    chosen (resolved s killrate stat.class_name stat.method_name stat.method_signature)

unfoldable pub select_by_killrate : Selector → List Text → List Text → Bool → Selection
unfolding strategy_unavailable killrate_candidates
select_by_killrate s blacklist processed required =
    if strategy_unavailable s killrate then value_error else elim (get_method_mutant_stats s) [
      | [] ↦ value_error
      | e ∷ es ↦
          let candidates = killrate_candidates s blacklist in
          killrate_target s (
            killrate_choice required
              (filter_by (λ (k, stat). not (contains k processed)) candidates) candidates)
    ]

abbrev pub coverage_target : Selector → Coverage → Target
coverage_target s c = resolved s coverage c.class_name c.method_name c.method_signature

-- The least covered row that is not in the blacklist, one that is not processed if there is any.
unfoldable pub least_covered : List Coverage → List Coverage → Option Coverage
unfolding min_by
least_covered (c ∷ cs) filtered = some (min_by lower_rate c cs)
least_covered [] (c ∷ cs) = some (min_by lower_rate c cs)
least_covered [] [] = none

-- The methods of all classes, with their class.
unfoldable pub all_methods : Selector → List Text → List (Text × Method)
unfolding get_public_methods
all_methods s [] = []
all_methods s (c ∷ cs) = map (λ m. (c, m)) (get_public_methods s c) ++ all_methods s cs

abbrev pub pair_key : Selector → Text × Method → Text
pair_key s (c, m) = method_key s c m

abbrev pub default_target : Option (Text × Method) → Option Target
default_target none = none
default_target (some (c, m)) = some (target_of coverage c m)

-- The two passes through all methods: one that is not processed, else any.
unfoldable pub select_default :
    Selector → List Text → List Text → List (Text × Method) → Option Target
select_default s blacklist processed methods =
    or_else
      (default_target (
        first (
          filter_by
            (λ x. not (contains (pair_key s x) blacklist || contains (pair_key s x) processed))
            methods)))
      (default_target (first (filter_by (λ x. not (contains (pair_key s x) blacklist)) methods)))

-- The selection where no method of low coverage was taken, and one that was processed would do.
unfoldable pub select_by_any_coverage : Selector → List Text → List Text → Option Target
unfolding get_all_method_coverage get_all_classes all_methods select_default least_covered
select_by_any_coverage s blacklist processed = elim (get_all_method_coverage s) [
  | [] ↦ select_default s blacklist processed (all_methods s (get_all_classes s))
  | r ∷ rs ↦
      let filtered = filter_by (λ c. not (contains (coverage_key s c) blacklist)) (r ∷ rs) in
      let fresh = filter_by (λ c. not (contains (coverage_key s c) processed)) filtered in
      Option.map (coverage_target s) (least_covered fresh filtered)
]

unfoldable pub select_by_coverage : Selector → List Text → List Text → Bool → Selection
unfolding get_low_coverage_methods split_available prefer select_by_any_coverage
select_by_coverage s blacklist processed required =
    elim (prefer true required
      (split_available (coverage_key s) blacklist processed true (get_low_coverage_methods s))) [
        | some c ↦ chosen (coverage_target s c)
        | none ↦
            if required
            then nothing
            else selection_of (select_by_any_coverage s blacklist processed)
      ]

-- `select`; a strategy that is not known is the one by priority.
unfoldable pub select : ℕ → Selector → Criteria → List Text → List Text → Bool → Selection
unfolding select_by_coverage select_by_killrate select_by_mutations select_by_priority select_random
select drawn s coverage blacklist processed required =
    select_by_coverage s blacklist processed required
select drawn s killrate blacklist processed required =
    select_by_killrate s blacklist processed required
select drawn s mutations blacklist processed required =
    select_by_mutations s blacklist processed required
select drawn s priority blacklist processed required =
    select_by_priority s blacklist processed required
select drawn s random blacklist processed required =
    select_random drawn s blacklist processed required
select drawn s other blacklist processed required =
    select_by_priority s blacklist processed required
