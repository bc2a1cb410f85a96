-- ===== src/Targets/Methods.antt =====
-- The classes and the methods that may be chosen, and the queries of the database.
use comet_l.Prelude.{
  ℕ, ◌+◌, max, Bool, true, false, ◌&&◌, not, Option, none, some, List, [], ◌∷◌, Text, text_eq, Dict,
  insert, contains, any_of, filter_by, sort_by, ltb, ◌==◌, get_or_else, if◌then◌else◌,
}
use comet_l.MethodKeys.{build_method_key}
use comet_l.Targets.Types.{Method, described, bare, Coverage, MutantGroup, MutantStat, Selector}

-- `_get_all_classes`: the cached list, or all classes but the interfaces.
unfoldable pub get_all_classes : Selector → List Text
get_all_classes s =
    get_or_else s.class_cache
      (filter_by (λ c. not (any_of (λ m. text_eq m.0 c && m.1) s.class_mappings)) s.java_classes)

-- What `_get_all_classes` leaves in the cache.
abbrev pub fill_cache : Selector → Selector
unfolding get_all_classes
fill_cache s = record s { class_cache = some (get_all_classes s) }

abbrev pub clear_cache : Selector → Selector
clear_cache s = record s { class_cache = none }

abbrev long_enough : ℕ → Option (ℕ × ℕ) → Bool
long_enough lines none = true
long_enough lines (some (first, last)) = not (ltb (last + 1) (first + lines))

abbrev pub is_candidate : Selector → Text → Method → Bool
is_candidate s class_name (described c name signature range) =
    text_eq c class_name && long_enough s.min_method_lines range
is_candidate s class_name (bare name) = true

-- `_get_public_methods`
unfoldable pub get_public_methods : Selector → Text → List Method
get_public_methods s class_name =
    filter_by (is_candidate s class_name) (get_or_else (s.public_methods class_name) [])

abbrev pub name_of : Method → Text
name_of (described c name signature range) = name
name_of (bare name) = name

abbrev pub signature_of : Method → Option Text
signature_of (described c name signature range) = signature
signature_of (bare name) = none

-- `method if isinstance(method, dict) else None`
abbrev pub info_of : Method → Option Method
info_of (described c name signature range) = some (described c name signature range)
info_of (bare name) = none

abbrev pub method_key : Selector → Text → Method → Text
method_key s class_name m = build_method_key s.digest class_name (name_of m) (signature_of m)

-- A candidate loop: what is not in the blacklist, split into what is not in the processed targets
-- and what is. With `stop` the loop ends at the first that is not processed.
unfoldable pub split_available {ℓ} :
    {A : Type ℓ} → (A → Text) → List Text → List Text → Bool → List A → List A × List A
split_available key blacklist processed stop [] = ([], [])
split_available key blacklist processed stop (m ∷ ms) =
    let rest = split_available key blacklist processed stop ms in
    if contains (key m) blacklist
    then rest
    else if contains (key m) processed
    then (rest.0, m ∷ rest.1)
    else if stop
    then (m ∷ [], [])
    else (m ∷ rest.0, rest.1)

abbrev pub first {ℓ} : {A : Type ℓ} → List A → Option A
first [] = none
first (x ∷ xs) = some x

-- What `_get_first_available_method` returns of the two lists.
unfoldable pub prefer {ℓ} : {A : Type ℓ} → Bool → Bool → List A × List A → Option A
prefer true required (u ∷ us, ps) = some u
prefer true required ([], ps) = if required then none else first ps
prefer false true (us, ps) = first us
prefer false false (us, p ∷ ps) = some p
prefer false false (us, []) = first us

-- `_get_first_available_method`
unfoldable pub get_first_available_method :
    Selector → Text → List Text → List Text → Bool → Bool → Bool → Option Method
unfolding get_public_methods split_available prefer
get_first_available_method s class_name blacklist processed prefer_unprocessed allow_first_only
      require_unprocessed =
    prefer prefer_unprocessed require_unprocessed (
      split_available (method_key s class_name) blacklist processed
        (allow_first_only && prefer_unprocessed) (get_public_methods s class_name))

-- `selected_signature and method.get("signature") != selected_signature` does not hold
abbrev matches : Option Text → Option Text → Bool
matches none signature = true
matches (some []) signature = true
matches (some (c ∷ s)) none = false
matches (some (c ∷ s)) (some t) = text_eq t (c ∷ s)

-- `method.get("signature") or selected_signature`
abbrev signature_or : Option Text → Option Text → Option Text
signature_or none selected = selected
signature_or (some []) selected = selected
signature_or (some (c ∷ s)) selected = some (c ∷ s)

unfoldable pub resolve_from : Text → Option Text → List Method → Option Method × Option Text
resolve_from name selected [] = (none, selected)
resolve_from name selected (bare n ∷ ms) = resolve_from name selected ms
resolve_from name selected (described c n signature range ∷ ms) =
    let rest = resolve_from name selected ms in
    if text_eq n name && matches selected signature
    then (some (described c n signature range), signature_or signature selected)
    else rest

-- `_resolve_method_details`
abbrev pub resolve_method_details :
    Selector → Text → Text → Option Text → Option Method × Option Text
unfolding get_public_methods resolve_from
resolve_method_details s class_name name selected =
    resolve_from name selected (get_public_methods s class_name)

abbrev pub max_iteration : List Coverage → ℕ
max_iteration [] = 0
max_iteration (c ∷ cs) = max c.iteration (max_iteration cs)

abbrev pub lower_rate : Coverage → Coverage → Bool
lower_rate a b = ltb a.line_coverage_rate b.line_coverage_rate

-- `get_all_method_coverage`, for the latest iteration
unfoldable pub get_all_method_coverage : Selector → List Coverage
get_all_method_coverage s =
    filter_by (λ (c : Coverage). c.iteration == max_iteration s.coverage_rows) s.coverage_rows

-- `get_low_coverage_methods`
unfoldable pub get_low_coverage_methods : Selector → List Coverage
unfolding sort_by
get_low_coverage_methods s = sort_by lower_rate (
    filter_by
      (λ (c : Coverage).
        (c.iteration == max_iteration s.coverage_rows) && ltb c.line_coverage_rate s.low_threshold)
      s.coverage_rows)

abbrev pub coverage_key : Selector → Coverage → Text
coverage_key s c = build_method_key s.digest c.class_name c.method_name c.method_signature

abbrev pub group_key : Selector → MutantGroup → Text
group_key s g = build_method_key s.digest g.class_name g.method_name g.method_signature

unfoldable pub collect_stats : Selector → Dict MutantStat → List MutantGroup → Dict MutantStat
collect_stats s d [] = d
collect_stats s d (g ∷ gs) = collect_stats s (insert (group_key s g) g d) gs

-- `get_method_mutant_stats`
abbrev pub get_method_mutant_stats : Selector → Dict MutantStat
unfolding collect_stats
get_method_mutant_stats s = collect_stats s [] s.mutant_groups
