-- ===== src/MutantStore/Stored.antt =====
-- A mutant as a row of the table, with its columns as `save_mutant` writes and `_row_to_mutant` reads
-- them. The texts of JSON and of dates are made and read by operations that are a parameter.
use comet_l.Prelude.{
  ℕ, ◌≤◌, ◌≡◌, ◌≢◌, Bool, not, Option, none, some, List, [], ◌∷◌, ◌++◌, Text, text_eq, filter_by,
  if◌then◌else◌, ◌==◌,
}

-- `MutationPatch`
pub record MutationPatch : Type 0 where
  pub file_path : Text
  pub line_start : ℕ
  pub line_end : ℕ
  pub original_code : Text
  pub mutated_code : Text
  pub mutator : Option Text
  pub operator : Option Text

-- The bounds that the model of a patch states
abbrev pub IsPatch : MutationPatch → Type 0
IsPatch p = (1 ≤ p.line_start) × (1 ≤ p.line_end)

-- `Mutant`, with all its fields
pub record FullMutant : Type 0 where
  pub id : Text
  pub class_name : Text
  pub method_name : Option Text
  pub method_signature : Option Text
  pub patch : MutationPatch
  pub status : Text
  pub killed_by : List Text
  pub survived : Bool
  pub compile_error : Option Text
  pub created_at : ℕ
  pub evaluated_at : Option ℕ

-- The columns of the table `mutants`; `none` is NULL.
pub record StoredRow : Type 0 where
  pub id : Text
  pub class_name : Text
  pub method_name : Option Text
  pub method_signature : Option Text
  pub patch : Text
  pub status : Text
  pub killed_by : Option Text
  pub survived : ℕ
  pub compile_error : Option Text
  pub code_hash : Option Text
  pub created_at : Option Text
  pub evaluated_at : Option Text

-- pydantic's `model_dump_json` and `model_validate_json`, `json.dumps` and `json.loads`, and `isoformat`
-- and `fromisoformat` of datetime; reading gives `none` where it raises.
pub record Codec : Type 0 where
  pub model_dump_json : MutationPatch → Text
  pub model_validate_json : Text → Option MutationPatch
  pub dumps : List Text → Text
  pub loads : Text → Option (List Text)
  pub isoformat : ℕ → Text
  pub fromisoformat : Text → Option ℕ

-- Each reads what the other wrote, and no written text is empty.
pub record IsCodec (codec : Codec) : Type 0 where
  pub patch_read :
      (p : MutationPatch) → IsPatch p → codec.model_validate_json (codec.model_dump_json p) ≡ some p
  pub names_read : (names : List Text) → codec.loads (codec.dumps names) ≡ some names
  pub time_read : (t : ℕ) → codec.fromisoformat (codec.isoformat t) ≡ some t
  pub names_written : (names : List Text) → codec.dumps names ≢ []
  pub time_written : (t : ℕ) → codec.isoformat t ≢ []

-- What `get_mutant` ends with: no row, an exception, or the mutant
pub data Reading : Type 0 where
  missing unreadable : Reading
  found : FullMutant → Reading

-- The row of an id
unfoldable pub select_row : Text → List StoredRow → Option StoredRow
select_row id [] = none
select_row id (r ∷ rs) = let rest = select_row id rs in if text_eq r.id id then some r else rest

module _ (codec : Codec) where
  -- The values that `save_mutant` binds
  abbrev pub row_of_mutant : FullMutant → StoredRow
  row_of_mutant m = record {
    id = m.id;
    class_name = m.class_name;
    method_name = m.method_name;
    method_signature = m.method_signature;
    patch = codec.model_dump_json m.patch;
    status = m.status;
    killed_by = some (codec.dumps m.killed_by);
    survived = if m.survived then 1 else 0;
    compile_error = m.compile_error;
    code_hash = none;
    created_at = some (codec.isoformat m.created_at);
    evaluated_at = elim m.evaluated_at [ none ↦ none | some t ↦ some (codec.isoformat t) ];
  }

  -- `save_mutant`: INSERT OR REPLACE writes the row anew.
  unfoldable pub save_mutant : FullMutant → List StoredRow → List StoredRow
  save_mutant m table =
      filter_by (λ (r : StoredRow). not (text_eq r.id m.id)) table ++ row_of_mutant m ∷ []

  -- `json.loads(row["killed_by"]) if row["killed_by"] else []`
  abbrev pub read_names : Option Text → Option (List Text)
  read_names none = some []
  read_names (some []) = some []
  read_names (some (c ∷ s)) = codec.loads (c ∷ s)

  -- `datetime.fromisoformat(column) if column else default`
  abbrev pub read_time : Option ℕ → Option Text → Option (Option ℕ)
  read_time default none = some default
  read_time default (some []) = some default
  read_time default (some (c ∷ s)) = elim (codec.fromisoformat (c ∷ s)) [
    | none ↦ none
    | some t ↦ some (some t)
  ]

  -- The mutant of the columns that could be read
  abbrev pub mutant_of :
      ℕ
      → StoredRow
      → Option MutationPatch
      → Option (List Text)
      → Option (Option ℕ)
      → Option (Option ℕ)
      → Option FullMutant
  mutant_of now row (some patch) (some names) (some created) (some evaluated) = some (record {
    id = row.id;
    class_name = row.class_name;
    method_name = row.method_name;
    method_signature = row.method_signature;
    patch = patch;
    status = row.status;
    killed_by = names;
    survived = not (row.survived == 0);
    compile_error = row.compile_error;
    created_at = elim created [ none ↦ now | some t ↦ t ];
    evaluated_at = evaluated;
  })
  mutant_of now row _ _ _ _ = none

  -- `_row_to_mutant`; `now` is the clock's reading, for a row without a time of creation.
  unfoldable pub row_to_mutant : ℕ → StoredRow → Option FullMutant
  row_to_mutant now row =
      mutant_of now row (codec.model_validate_json row.patch) (read_names row.killed_by)
        (read_time (some now) row.created_at) (read_time none row.evaluated_at)

  -- `self._row_to_mutant(row)`, if there is a row
  unfoldable pub read_row : ℕ → Option StoredRow → Reading
  unfolding row_to_mutant
  read_row now none = missing
  read_row now (some r) = elim (row_to_mutant now r) [ none ↦ unreadable | some m ↦ found m ]

  -- `get_mutant`
  unfoldable pub get_mutant : ℕ → Text → List StoredRow → Reading
  unfolding read_row select_row
  get_mutant now id table = read_row now (select_row id table)
