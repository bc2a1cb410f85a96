-- ===== src/MutantStore/Written.antt =====
-- What is written is what is read.
use comet_l.Prelude.{
  ℕ, ◌≡◌, ◌≢◌, ap, ◌∙◌, refl, Bool, true, false, not, Option, none, some, List, [], ◌∷◌, ◌++◌, Text,
  text_eq, text_eq_iff, filter_by, arith, if◌then◌else◌, ◌==◌,
}
use comet_l.MutantStore.Stored.{
  IsPatch, FullMutant, StoredRow, Codec, IsCodec, found, row_of_mutant, save_mutant, read_names,
  read_time, row_to_mutant, get_mutant, select_row, read_row,
}

select_row-append :
    (id : Text) (m : StoredRow) (table : List StoredRow)
    → select_row id (table ++ m ∷ []) ≡ (elim (select_row id table) [
      | some r ↦ some r
      | none ↦ if text_eq m.id id then some m else none
    ])
unfolding select_row
select_row-append id m [] = refl
select_row-append id m (r ∷ rs) = ground (arith, select_row-append id m rs)

select_row-without :
    (id other : Text) (table : List StoredRow)
    → select_row id (filter_by (λ (r : StoredRow). not (text_eq r.id other)) table)
      ≡ (if text_eq other id then none else select_row id table)
unfolding select_row
select_row-without id other [] = ground arith
select_row-without id other (r ∷ rs) = ground (
  arith,
  text_eq_iff r.id other,
  text_eq_iff r.id id,
  text_eq_iff other id,
  select_row-without id other rs,
)

-- The row that an id selects in the table that a row was written to
select_row-written :
    (id : Text) (m : StoredRow) (table : List StoredRow)
    → select_row id (filter_by (λ (r : StoredRow). not (text_eq r.id m.id)) table ++ m ∷ [])
      ≡ (if text_eq m.id id then some m else select_row id table)
select_row-written id m table = ground (
  arith,
  select_row-append id m (filter_by (λ (r : StoredRow). not (text_eq r.id m.id)) table),
  select_row-without id m.id table,
)

module _ (codec : Codec) (laws : IsCodec codec) where
  read_names-dumps : (names : List Text) → read_names codec (some (codec.dumps names)) ≡ some names
  read_names-dumps names =
      nonempty (codec.dumps names) (laws.names_written names) (laws.names_read names)
    where
      nonempty :
          (t : Text) → t ≢ [] → codec.loads t ≡ some names → read_names codec (some t) ≡ some names
      nonempty [] h e = absurd (h refl)
      nonempty (c ∷ s) h e = e

  read_time-isoformat :
      (default : Option ℕ) (t : ℕ)
      → read_time codec default (some (codec.isoformat t)) ≡ some (some t)
  read_time-isoformat default t =
      nonempty (codec.isoformat t) (laws.time_written t) (laws.time_read t)
    where
      nonempty :
          (s : Text)
          → s ≢ []
          → codec.fromisoformat s ≡ some t
          → read_time codec default (some s) ≡ some (some t)
      nonempty [] h e = absurd (h refl)
      nonempty (c ∷ s) h e = rw (read_time, e) refl

  read_time-evaluated :
      (o : Option ℕ)
      → read_time codec none (elim o [ none ↦ none | some t ↦ some (codec.isoformat t) ]) ≡ some o
  read_time-evaluated none = refl
  read_time-evaluated (some t) = read_time-isoformat none t

  flag_read : (b : Bool) → not ((if b then 1 else 0) == 0) ≡ b
  flag_read true = refl
  flag_read false = refl

  -- A row that was written gives its mutant back.
  row_to_mutant-row_of_mutant :
      (now : ℕ) (m : FullMutant)
      → IsPatch m.patch
      → row_to_mutant codec now (row_of_mutant codec m) ≡ some m
  unfolding row_to_mutant
  row_to_mutant-row_of_mutant now m bounds =
      rw
        (
          laws.patch_read m.patch bounds,
          read_names-dumps m.killed_by,
          read_time-isoformat (some now) m.created_at,
          read_time-evaluated m.evaluated_at,
          flag_read m.survived,
        )
        refl

  read_row-if :
      (now : ℕ) (m : FullMutant) (own : Bool) (other : Option StoredRow)
      → IsPatch m.patch
      → read_row codec now (if own then some (row_of_mutant codec m) else other)
        ≡ (if own then found m else read_row codec now other)
  unfolding read_row
  read_row-if now m true other bounds = rw (read_row, row_to_mutant-row_of_mutant now m bounds) refl
  read_row-if now m false other bounds = refl

  -- After a mutant with a valid patch is saved, its id gives back the mutant with all its fields, and
  -- every other id gives what it gave before. The JSON and date routines are to read what they wrote, and
  -- to write no empty text.
  pub get_mutant-save_mutant :
      (now : ℕ) (m : FullMutant) (id : Text) (table : List StoredRow)
      → IsPatch m.patch
      → get_mutant codec now id (save_mutant codec m table)
        ≡ (if text_eq m.id id then found m else get_mutant codec now id table)
  unfolding save_mutant get_mutant
  get_mutant-save_mutant now m id table bounds =
      ap (read_row codec now) (select_row-written id (row_of_mutant codec m) table)
      ∙ read_row-if now m (text_eq m.id id) (select_row id table) bounds
