-- ===== src/MutantStore/Types.antt =====
-- The rows of the table of mutants, by the columns that selections and kills read or write.
use comet_l.Prelude.{ℕ, Bool, false, Option, none, some, List, Text, text_eq}

-- The columns of the patch, the error of the compiler and the time of creation stand in Stored only.
pub record MutantRow : Type 0 where
  pub id : Text
  pub class_name : Text
  pub method_name : Option Text
  pub method_signature : Option Text
  pub status : Text
  pub killed_by : List Text
  pub survived : Bool
  pub evaluated_at : Option ℕ

abbrev pub has_id : Text → MutantRow → Bool
has_id id r = text_eq r.id id

-- `column = ?` on columns that may be NULL
abbrev pub same_signature : Option Text → Option Text → Bool
same_signature none other = false
same_signature (some s) none = false
same_signature (some s) (some t) = text_eq s t
