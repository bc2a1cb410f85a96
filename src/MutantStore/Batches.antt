-- ===== src/MutantStore/Batches.antt =====
-- A batch rewrites every row that the test killed, and no other.
use mathlib.Core.Path.{subst}
use comet_l.Prelude.{
  ◌≤◌, ◌≡◌, ◌∙◌, ap, sym, refl, true, false, Option, some, get_or_else, List, [], ◌∷◌, ◌++◌, map,
  Text, codes, text_eq, text_eq_refl, text_eq_iff, contains, count_of, All, arith, if◌then◌else◌,
  Bool-cases, inl, inr,
}
use comet_l.MutantStore.Cleared.{changed, cleared, NamesOnce, changed-cleared}
use comet_l.MutantStore.{select_by_id}
use comet_l.MutantStore.Types.{MutantRow, has_id}
use comet_l.MutantStore.KillInfo.{
  without_test, rewritten, update_row, update_rows, batch_update_mutant_kill_info,
}

-- No id is given to two rows.
abbrev pub HasUniqueIds : List MutantRow → Type 0
HasUniqueIds table = (id : Text) → count_of (has_id id) table ≤ 1

module _ (test : Text) where
  -- What one row read does to a row of the table
  step : MutantRow → MutantRow → MutantRow
  unfolding without_test
  step r o =
      if contains test r.killed_by then (if has_id r.id o then rewritten test r o else o) else o

  unfoldable steps : List MutantRow → MutantRow → MutantRow
  unfolding step
  steps [] o = o
  steps (r ∷ rs) o = steps rs (step r o)

  map-map :
      (f g : MutantRow → MutantRow) (table : List MutantRow)
      → map f (map g table) ≡ map (λ o. f (g o)) table
  map-map f g [] = refl
  map-map f g (r ∷ rs) = ap (λ t. f (g r) ∷ t) (map-map f g rs)

  map_same : (table : List MutantRow) → map (λ o. o) table ≡ table
  map_same [] = refl
  map_same (r ∷ rs) = ap (λ t. r ∷ t) (map_same rs)

  map_ext :
      (f g : MutantRow → MutantRow) (table : List MutantRow)
      → All (λ o. f o ≡ g o) table
      → map f table ≡ map g table
  map_ext f g [] h = refl
  map_ext f g (r ∷ rs) h = rw (h.0, map_ext f g rs h.1) refl

  pointwise {κ} :
      (P : MutantRow → Type κ) (table : List MutantRow) → ((o : MutantRow) → P o) → All P table
  pointwise P [] h = tt
  pointwise P (r ∷ rs) h = (h r, pointwise P rs h)

  step-killed :
      (r o : MutantRow)
      → contains test r.killed_by ≡ true
      → step r o ≡ (if has_id r.id o then rewritten test r o else o)
  unfolding step
  step-killed r o k = rw k refl

  step-other : (r o : MutantRow) → contains test r.killed_by ≡ false → step r o ≡ o
  unfolding step
  step-other r o k = rw k refl

  update_rows-steps :
      (rs table : List MutantRow) → (update_rows test rs table).1 ≡ map (steps rs) table
  unfolding update_rows steps
  update_rows-steps [] table = sym (map_same table)
  update_rows-steps (r ∷ rs) table = elim (Bool-cases (contains test r.killed_by)) [
    | inl killed ↦
        rw (update_rows, killed)
          (update_rows-steps rs (update_row r.id (rewritten test r) table)
            ∙ map-map (steps rs)
                (λ (o : MutantRow). if has_id r.id o then rewritten test r o else o) table
            ∙ map_ext (λ o. steps rs (if has_id r.id o then rewritten test r o else o))
                (steps (r ∷ rs)) table
                (pointwise
                  (λ o.
                    steps rs (if has_id r.id o then rewritten test r o else o) ≡ steps (r ∷ rs) o)
                  table (λ o. ap (steps rs) (sym (step-killed r o killed)))))
    | inr other ↦
        rw (update_rows, other)
          (update_rows-steps rs table
            ∙ map_ext (steps rs) (steps (r ∷ rs)) table (
                pointwise (λ o. steps rs o ≡ steps (r ∷ rs) o) table
                  (λ o. ap (steps rs) (sym (step-other r o other)))))
  ]

  update_rows-count :
      (rs table : List MutantRow)
      → (update_rows test rs table).0 ≡ count_of (λ (r : MutantRow). contains test r.killed_by) rs
  unfolding update_rows
  update_rows-count [] table = refl
  update_rows-count (r ∷ rs) table = ground (
    arith,
    update_rows-count rs table,
    update_rows-count rs (update_row r.id (rewritten test r) table),
  )

  steps-absent :
      (rs : List MutantRow) (o : MutantRow) → count_of (has_id o.id) rs ≡ 0 → steps rs o ≡ o
  unfolding steps step
  steps-absent [] o h = refl
  steps-absent (r ∷ rs) o h = elim (Bool-cases (contains test r.killed_by)) [
    | inr other ↦ rw other (steps-absent rs o (ground arith))
    | inl killed ↦ elim (Bool-cases (text_eq o.id r.id)) [
      | inl own ↦ absurd (ground (arith, text_eq_iff o.id r.id, text_eq_iff r.id o.id))
      | inr apart ↦ rw (killed, apart) (steps-absent rs o (ground arith))
    ]
  ]

  changed-id : (o : MutantRow) → (changed test o).id ≡ o.id
  unfolding without_test
  changed-id o = ground arith

  step_self : (o : MutantRow) → step o o ≡ changed test o
  unfolding step without_test
  step_self o = elim (Bool-cases (contains test o.killed_by)) [
    | inl killed ↦ rw (killed, text_eq_refl o.id) refl
    | inr other ↦ rw other refl
  ]

  step-apart : (r o : MutantRow) → text_eq r.id o.id ≡ false → step r o ≡ o
  unfolding step
  step-apart r o apart =
      let flipped : text_eq o.id r.id ≡ false =
        ground (arith, text_eq_iff o.id r.id, text_eq_iff r.id o.id) in
      elim (Bool-cases (contains test r.killed_by)) [
        | inl killed ↦ rw (killed, flipped) refl
        | inr other ↦ rw other refl
      ]

  steps-changed :
      (rs : List MutantRow) (o : MutantRow)
      → select_by_id o.id rs ≡ some o
      → count_of (has_id o.id) rs ≤ 1
      → steps rs o ≡ changed test o
  unfolding steps step select_by_id
  steps-changed [] o e h = cc
  steps-changed (r ∷ rs) o e h = elim (Bool-cases (text_eq r.id o.id)) [
    | inl own ↦
        let found : some r ≡ some o = rw⁻¹ e (rw own refl) in
        let none_left : count_of (has_id (changed test o).id) rs ≡ 0 =
          rw (changed-id o) (ground arith) in
        subst (λ x. steps rs (step x o) ≡ changed test o) (sym (ap (λ x. get_or_else x r) found))
          (ap (steps rs) (step_self o) ∙ steps-absent rs (changed test o) none_left)
    | inr apart ↦
        ap (steps rs) (step-apart r o apart) ∙ steps-changed rs o (ground arith) (ground arith)
  ]

select_by_id-count :
    (rs : List MutantRow) (o : MutantRow)
    → select_by_id o.id rs ≡ some o
    → 1 ≤ count_of (has_id o.id) rs
unfolding select_by_id
select_by_id-count [] o e = cc
select_by_id-count (r ∷ rs) o e = ground (arith, select_by_id-count rs o)

All-imp :
    (P Q : MutantRow → Type 0) (rs : List MutantRow)
    → ((o : MutantRow) → P o → Q o)
    → All P rs
    → All Q rs
All-imp P Q [] f h = tt
All-imp P Q (r ∷ rs) f h = (f r h.0, All-imp P Q rs f h.1)

-- Every row is found by its id.
rows_found :
    (table : List MutantRow)
    → HasUniqueIds table
    → All (λ o. select_by_id o.id table ≡ some o) table
unfolding select_by_id
rows_found [] unique = tt
rows_found (r ∷ rs) unique = (
  rw (text_eq_refl r.id) refl,
  All-imp (λ o. select_by_id o.id rs ≡ some o) (λ o. select_by_id o.id (r ∷ rs) ≡ some o) rs
      (λ o e. ground (arith, unique o.id, select_by_id-count rs o e))
      (rows_found rs (λ id. ground (arith, unique id))),
)

-- Where ids are unique, the test class exists and no row names the test twice, deleting one of the
-- methods of the class takes it from the killers of exactly the rows that name it, and counts them: such
-- a row keeps its other killers; without one it survives, and is valid if it was killed.
pub batch_update-cleared :
    (class_of : Text → Option Text) (test_case_id c method : Text) (table : List MutantRow)
    → HasUniqueIds table
    → NamesOnce (c ++ codes "." ++ method) table
    → class_of test_case_id ≡ some c
    → batch_update_mutant_kill_info class_of test_case_id method table ≡ (
      count_of (λ (r : MutantRow). contains (c ++ codes "." ++ method) r.killed_by) table,
      map (cleared (c ++ codes "." ++ method)) table,
    )
unfolding batch_update_mutant_kill_info
batch_update-cleared class_of test_case_id c method table unique once known =
    let test = c ++ codes "." ++ method in
    let found = rows_found table unique in
    let rows : (update_rows test table table).1 ≡ map (cleared test) table =
      update_rows-steps test table table
      ∙ map_ext test (steps test table) (changed test) table (
          All-imp (λ o. select_by_id o.id table ≡ some o) (λ o. steps test table o ≡ changed test o)
            table (λ o e. steps-changed test table o e (unique o.id)) found)
      ∙ map_ext test (changed test) (cleared test) table (
          All-imp (λ (r : MutantRow). count_of (λ t. text_eq t test) r.killed_by ≤ 1)
            (λ o. changed test o ≡ cleared test o) table (λ o e. changed-cleared test o e) once) in
    rw (batch_update_mutant_kill_info, known) (λ i. (update_rows-count test table table i, rows i))
