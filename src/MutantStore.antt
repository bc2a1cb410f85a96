-- ===== src/MutantStore.antt =====
-- The table of mutants (comet/store/database.py). Each method holds the database's lock, so it is a
-- function on the table; rows come in the order in which they were written. The operations here and in
-- KillInfo are on the values of the columns that they read or write; Stored has all columns as they are
-- written and read, with `save_mutant` and `get_mutant`.
mod Types
mod Stored
mod KillInfo
mod Written
mod Cleared
mod Batches
mod Tests
use comet_l.Prelude.{
  ℕ, Bool, true, false, not, ◌&&◌, ◌||◌, Option, none, some, is_some, List, [], ◌∷◌, ◌++◌, map,
  Text, codes, text_eq, filter_by, count_of, if◌then◌else◌,
}
use comet_l.MutantStore.Types.{MutantRow, has_id, same_signature}

-- `SELECT * FROM mutants WHERE id = ?`: the first row of the id
unfoldable pub select_by_id : Text → List MutantRow → Option MutantRow
select_by_id id [] = none
select_by_id id (r ∷ rs) = if has_id id r then some r else select_by_id id rs

-- `delete_mutant`
unfoldable pub delete_mutant : Text → List MutantRow → List MutantRow
delete_mutant id = filter_by (λ (r : MutantRow). not (has_id id r))

-- `status` as a filter: an empty text and None stand for all.
abbrev has_status : Option Text → MutantRow → Bool
has_status none r = true
has_status (some []) r = true
has_status (some (c ∷ s)) r = text_eq r.status (c ∷ s)

-- `get_all_mutants`
unfoldable pub get_all_mutants : Option Text → List MutantRow → List MutantRow
get_all_mutants status = filter_by (has_status status)

-- `get_pending_mutants`
abbrev get_pending_mutants : List MutantRow → List MutantRow
get_pending_mutants = get_all_mutants (some (codes "pending"))

-- `get_valid_mutants`
abbrev get_valid_mutants : List MutantRow → List MutantRow
get_valid_mutants = get_all_mutants (some (codes "valid"))

-- `get_all_evaluated_mutants`
unfoldable pub get_all_evaluated_mutants : List MutantRow → List MutantRow
get_all_evaluated_mutants = filter_by (λ (r : MutantRow).
    (text_eq r.status (codes "valid") || text_eq r.status (codes "outdated"))
    && is_some r.evaluated_at)

-- `get_mutants_by_class`
abbrev get_mutants_by_class : Text → List MutantRow → List MutantRow
get_mutants_by_class c = filter_by (λ (r : MutantRow). text_eq r.class_name c)

-- Whether a row is of the method; without a signature, of any method of the name
abbrev pub is_of_method : Text → Text → Option Text → MutantRow → Bool
is_of_method c m signature r =
    text_eq r.class_name c
    && same_signature (some m) r.method_name
    && (not (is_some signature) || same_signature signature r.method_signature)

-- `get_mutants_by_method`
unfoldable pub get_mutants_by_method :
    Text → Text → Option Text → Option Text → List MutantRow → List MutantRow
get_mutants_by_method c m status signature =
    filter_by (λ (r : MutantRow). is_of_method c m signature r && has_status status r)

abbrev pub outdates : Text → Text → Option Text → MutantRow → Bool
outdates c m signature r = is_of_method c m signature r && text_eq r.status (codes "valid")

-- `mark_mutants_outdated`: how many rows were marked, and the table
unfoldable pub mark_mutants_outdated :
    Text → Text → Option Text → List MutantRow → ℕ × List MutantRow
mark_mutants_outdated c m signature table = (
  count_of (outdates c m signature) table,
  map
      (λ (r : MutantRow).
        if outdates c m signature r then record r { status = codes "outdated" } else r)
      table,
)
