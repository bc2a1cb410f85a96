-- ===== src/MutantStore/KillInfo.antt =====
-- The tests that killed a mutant, when one of them is deleted.
use comet_l.Prelude.{
  ℕ, suc, Bool, true, false, ◌&&◌, Option, none, some, List, [], ◌∷◌, ◌++◌, map, Text, codes,
  text_eq, contains, if◌then◌else◌,
}
use comet_l.MutantStore.{select_by_id}
use comet_l.MutantStore.Types.{MutantRow, has_id}

-- `killed_by.remove(test)`: the first of the name
unfoldable pub remove_first : Text → List Text → List Text
remove_first test [] = []
remove_first test (t ∷ ts) =
    let rest = remove_first test ts in if text_eq t test then ts else t ∷ rest

abbrev pub is_empty : List Text → Bool
is_empty [] = true
is_empty (t ∷ ts) = false

-- The row without the test; a killed mutant without a killer is valid again.
unfoldable pub without_test : Text → MutantRow → MutantRow
unfolding remove_first
without_test test r =
    let killers = remove_first test r.killed_by in
    record r {
      killed_by = killers;
      status =
          if is_empty killers && text_eq r.status (codes "killed") then codes "valid" else r.status;
      survived = is_empty killers;
    }

-- `UPDATE mutants SET … WHERE id = ?`
abbrev pub update_row : Text → (MutantRow → MutantRow) → List MutantRow → List MutantRow
update_row id f = map (λ (r : MutantRow). if has_id id r then f r else r)

-- `update_mutant_kill_info`: whether the row changed, and the table
unfoldable pub update_mutant_kill_info : Text → Text → List MutantRow → Bool × List MutantRow
unfolding select_by_id without_test
update_mutant_kill_info id test table = elim (select_by_id id table) [
  | none ↦ (false, table)
  | some r ↦
      if contains test r.killed_by
      then (true, update_row id (without_test test) table)
      else (false, table)
]

-- The values that the loop writes, computed from the row that was read
abbrev pub rewritten : Text → MutantRow → MutantRow → MutantRow
rewritten test r o = without_test test (record o { killed_by = r.killed_by; status = r.status })

-- The loop of `batch_update_mutant_kill_info` over the rows that were read: the number of rows that
-- changed, and the table
unfoldable pub update_rows : Text → List MutantRow → List MutantRow → ℕ × List MutantRow
unfolding without_test
update_rows test [] table = (0, table)
update_rows test (r ∷ rs) table = elim (contains test r.killed_by) [
  | false ↦ update_rows test rs table
  | true ↦
      let (n, table') = update_rows test rs (update_row r.id (rewritten test r) table) in
      (suc n, table')
]

-- `batch_update_mutant_kill_info`, with the class names of the test classes by their ids
unfoldable pub batch_update_mutant_kill_info :
    (Text → Option Text) → Text → Text → List MutantRow → ℕ × List MutantRow
unfolding update_rows
batch_update_mutant_kill_info class_of test_case_id method table = elim (class_of test_case_id) [
  | none ↦ (0, table)
  | some c ↦ update_rows (c ++ codes "." ++ method) table table
]
