-- ===== src/Sampling/Types.antt =====
-- The methods of a study, and the random generator.
use comet_l.Prelude.{ℕ, Bool, ◌&&◌, ◌||◌, List, Text, text_eq, text_lt}

-- `StudySampledMethodSchema`
pub record StudyMethod : Type 0 where
  pub target_id : Text
  pub class_name : Text
  pub method_name : Text
  pub method_signature : Text
  pub order : ℕ

-- `sample(range(n), k)`, with the generator after it
pub record Generator {ℓ} (G : Type ℓ) : Type ℓ where
  pub sample : ℕ → ℕ → G → List ℕ × G

-- The order of the tuples of class, method, signature and target
abbrev pub before_method : StudyMethod → StudyMethod → Bool
before_method a b =
    text_lt a.class_name b.class_name
    || (text_eq a.class_name b.class_name
        && (text_lt a.method_name b.method_name
            || (text_eq a.method_name b.method_name
                && (text_lt a.method_signature b.method_signature
                    || (text_eq a.method_signature b.method_signature
                        && text_lt a.target_id b.target_id)))))
