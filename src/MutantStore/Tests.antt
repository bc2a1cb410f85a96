-- ===== src/MutantStore/Tests.antt =====
-- The table of mutants on concrete rows, and the theorems at such inputs.
use comet_l.Prelude.{
  ℕ, zero, suc, ◌≢◌, ◌≡◌, refl, sym, true, false, Option, none, some, List, [], ◌∷◌, ◌++◌, map,
  Text, codes, text_eq, text_eq→eq, contains, count_of, arith, Bool-cases, inl, inr, if◌then◌else◌,
}
use comet_l.MutantStore.Stored.{
  MutationPatch, FullMutant, StoredRow, Codec, IsCodec, found, row_of_mutant, save_mutant,
  get_mutant,
}
use comet_l.MutantStore.Types.{MutantRow}
use comet_l.MutantStore.KillInfo.{update_mutant_kill_info, batch_update_mutant_kill_info}
use comet_l.MutantStore.Written.{get_mutant-save_mutant}
use comet_l.MutantStore.Cleared.{cleared}
use comet_l.MutantStore.Batches.{HasUniqueIds, batch_update-cleared}

abbrev row : Text → List Text → MutantRow
row id killers = record {
  id = id;
  class_name = codes "C";
  method_name = some (codes "m");
  method_signature = none;
  status = codes "killed";
  killed_by = killers;
  survived = false;
  evaluated_at = some 5;
}

abbrev example_table : List MutantRow
example_table =
    row (codes "a") (codes "T.x" ∷ codes "T.y" ∷ []) ∷ row (codes "b") (codes "T.x" ∷ []) ∷ []

abbrev class_names : Text → Option Text
class_names id = if text_eq id (codes "t") then some (codes "T") else none

abbrev cleared_table : List MutantRow
cleared_table =
    record (row (codes "a") (codes "T.y" ∷ [])) { survived = false }
    ∷ record (row (codes "b") []) { survived = true; status = codes "valid" }
    ∷ []

batch_test :
    batch_update_mutant_kill_info class_names (codes "t") (codes "x") example_table
    ≡ (2, cleared_table)
unfolding batch_update_mutant_kill_info text_eq
batch_test = refl

single_test : (update_mutant_kill_info (codes "b") (codes "T.x") example_table).0 ≡ true
unfolding update_mutant_kill_info text_eq
single_test = refl

-- A killer that is given by the id of its test class is not found.
by_class_id :
    batch_update_mutant_kill_info class_names
      (codes "t")
      (codes "x")
      (row (codes "a") (codes "t" ∷ []) ∷ [])
    ≡ (0, row (codes "a") (codes "t" ∷ []) ∷ [])
unfolding batch_update_mutant_kill_info text_eq
by_class_id = refl

example_table-HasUniqueIds : HasUniqueIds example_table
unfolding text_eq
example_table-HasUniqueIds id = elim (Bool-cases (text_eq (codes "a") id)) [
  | inl own ↦
      let apart : text_eq (codes "b") id ≡ false = rw (sym (text_eq→eq (codes "a") id own)) refl in
      ground arith
  | inr other ↦ ground arith
]

batch_update-cleared_example :
    batch_update_mutant_kill_info class_names (codes "t") (codes "x") example_table ≡ (
      count_of
          (λ (r : MutantRow). contains (codes "T" ++ codes "." ++ codes "x") r.killed_by)
          example_table,
      map (cleared (codes "T" ++ codes "." ++ codes "x")) example_table,
    )
unfolding text_eq
batch_update-cleared_example =
    batch_update-cleared class_names (codes "t") (codes "T") (codes "x") example_table
      example_table-HasUniqueIds (omega arith, (omega arith, tt)) refl

-- Lists of texts with marks between the characters: 2 before each character, 1 after each text, 0 at the end
put_name : Text → Text → Text
put_name [] rest = 1 ∷ rest
put_name (c ∷ name) rest = 2 ∷ c ∷ put_name name rest

put_names : List Text → Text
unfolding put_name
put_names [] = 0 ∷ []
put_names (name ∷ names) = put_name name (put_names names)

abbrev cons_char : ℕ → List Text → Option (List Text)
cons_char c [] = none
cons_char c (name ∷ names) = some ((c ∷ name) ∷ names)

take_names : Text → Option (List Text)
take_names [] = none
take_names (zero ∷ s) = some []
take_names (suc zero ∷ s) = elim (take_names s) [ none ↦ none | some names ↦ some ([] ∷ names) ]
take_names (suc (suc n) ∷ []) = none
take_names (suc (suc n) ∷ c ∷ s) = elim (take_names s) [
  | none ↦ none
  | some names ↦ cons_char c names
]

take_names-put_name :
    (name rest : Text) (names : List Text)
    → take_names rest ≡ some names
    → take_names (put_name name rest) ≡ some (name ∷ names)
unfolding take_names put_name
take_names-put_name [] rest names e = rw e refl
take_names-put_name (c ∷ name) rest names e = rw (take_names-put_name name rest names e) refl

take_names-put_names : (names : List Text) → take_names (put_names names) ≡ some names
unfolding put_names take_names
take_names-put_names [] = refl
take_names-put_names (name ∷ names) =
    take_names-put_name name (put_names names) names (take_names-put_names names)

put_names-ne : (names : List Text) → put_names names ≢ []
unfolding put_names
put_names-ne [] e = cc
put_names-ne ([] ∷ names) e = cc
put_names-ne ((c ∷ name) ∷ names) e = cc

abbrev put_option : Option Text → Text
put_option none = []
put_option (some t) = 0 ∷ t

abbrev take_option : Text → Option Text
take_option [] = none
take_option (c ∷ t) = some t

take_option-put_option : (o : Option Text) → take_option (put_option o) ≡ o
take_option-put_option none = refl
take_option-put_option (some t) = refl

abbrev fields_of : MutationPatch → List Text
fields_of p =
    p.file_path
    ∷ (p.line_start ∷ [])
    ∷ (p.line_end ∷ [])
    ∷ p.original_code
    ∷ p.mutated_code
    ∷ put_option p.mutator
    ∷ put_option p.operator
    ∷ []

abbrev patch_of : Option (List Text) → Option MutationPatch
patch_of (some (file ∷ (first ∷ []) ∷ (last ∷ []) ∷ original ∷ mutated ∷ mutator ∷ operator ∷ [])) =
    some (record {
      file_path = file;
      line_start = first;
      line_end = last;
      original_code = original;
      mutated_code = mutated;
      mutator = take_option mutator;
      operator = take_option operator;
    })
patch_of _ = none

abbrev take_time : Text → Option ℕ
take_time (t ∷ []) = some t
take_time _ = none

abbrev marks : Codec
marks = record {
  model_dump_json = λ p. put_names (fields_of p);
  model_validate_json = λ s. patch_of (take_names s);
  dumps = put_names;
  loads = take_names;
  isoformat = λ t. t ∷ [];
  fromisoformat = take_time;
}

marks-IsCodec : IsCodec marks
marks-IsCodec = record {
  patch_read = λ p bounds.
      rw
        (
          take_names-put_names (fields_of p),
          take_option-put_option p.mutator,
          take_option-put_option p.operator,
        )
        refl;
  names_read = take_names-put_names;
  time_read = λ t. refl;
  names_written = put_names-ne;
  time_written = λ t e. cc;
}

abbrev full : FullMutant
full = record {
  id = codes "a";
  class_name = codes "C";
  method_name = some (codes "m");
  method_signature = none;
  patch = record {
    file_path = codes "C.java";
    line_start = 3;
    line_end = 4;
    original_code = codes "x + 1";
    mutated_code = codes "x - 1";
    mutator = some (codes "MathMutator");
    operator = none;
  };
  status = codes "valid";
  killed_by = codes "t1" ∷ [] ∷ [];
  survived = false;
  compile_error = none;
  created_at = 7;
  evaluated_at = some 9;
}

abbrev older : List StoredRow
unfolding put_names
older =
    row_of_mutant marks (record full { id = codes "b" })
    ∷ row_of_mutant marks (record full { survived = true })
    ∷ []

read_test : get_mutant marks 0 (codes "a") (save_mutant marks full older) ≡ found full
unfolding get_mutant save_mutant text_eq put_names take_names older
read_test = refl

get_mutant-save_mutant_example :
    get_mutant marks 0 (codes "a") (save_mutant marks full older) ≡ found full
unfolding text_eq
get_mutant-save_mutant_example =
    get_mutant-save_mutant marks marks-IsCodec 0 full (codes "a") older (omega arith, omega arith)
