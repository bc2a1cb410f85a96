-- ===== src/Policy/Types.antt =====
-- Integers, the settings that the policy reads and writes, and its errors.
use comet_l.Prelude.{
  ℕ, Bool, true, false, Option, List, [], ◌∷◌, ◌++◌, Text, ltb, ◌==◌, contains, if◌then◌else◌,
}

pub data ℤ : Type 0 where
  pos : ℕ → ℤ
  negsuc : ℕ → ℤ  -- negsuc n is -(n + 1)

unfoldable pub lt_int : ℤ → ℤ → Bool
lt_int (pos a) (pos b) = ltb a b
lt_int (pos a) (negsuc b) = false
lt_int (negsuc a) (pos b) = true
lt_int (negsuc a) (negsuc b) = ltb b a

unfoldable pub same_int : ℤ → ℤ → Bool
same_int (pos a) (pos b) = a == b
same_int (pos a) (negsuc b) = false
same_int (negsuc a) (pos b) = false
same_int (negsuc a) (negsuc b) = a == b

abbrev max_int : ℤ → ℤ → ℤ
max_int a b = if lt_int a b then b else a

abbrev min_int : ℤ → ℤ → ℤ
min_int a b = if lt_int b a then b else a

-- `_clamp_int`
unfoldable pub clamp_int : ℤ → ℤ → ℤ → ℤ
unfolding lt_int
clamp_int value minimum maximum = min_int (max_int value minimum) maximum

-- The fields of `DeploymentPolicyConfig` that limit a run; the schema makes the numbers at least 1.
pub record Deployment : Type 0 where
  pub max_iterations : ℕ
  pub max_budget : ℕ
  pub max_run_timeout_seconds : ℕ
  pub allowed_java_versions : List Text

-- The fields of `Settings` that the policy reads or writes, and the others, of a type R.
pub record Settings {ℓ} (R : Type ℓ) : Type ℓ where
  pub max_iterations : ℤ  -- evolution.max_iterations
  pub budget_llm_calls : ℤ  -- evolution.budget_llm_calls
  pub timeout : ℤ  -- execution.timeout
  pub selected_java_version : Option Text  -- execution.selected_java_version
  pub parallel_enabled : Bool  -- agent.parallel.enabled
  pub deployment : Deployment
  pub others : R

-- `ConfigPolicyAnnotations`
pub record Annotations : Type 0 where
  pub overridden_fields : List Text
  pub clamped_fields : List Text
  pub redacted_fields : List Text

abbrev pub no_annotations : Annotations
no_annotations = record { overridden_fields = []; clamped_fields = []; redacted_fields = [] }

-- The path of a field in the settings
abbrev pub Keys : Type 0
Keys = List Text

pub data PolicyError : Type 0 where
  unknown_fields : List Keys → PolicyError  -- UnknownConfigFieldError
  int_type int_parsing : Keys → PolicyError  -- ConfigPolicyValueError
  invalid_java_version : PolicyError  -- ConfigPolicyValueError
  overflow : PolicyError  -- an OverflowError of `int`, which is not caught
  not_a_mapping : PolicyError  -- a TypeError of `_set_path`, which is not caught
  invalid_settings : PolicyError  -- a ValidationError of the settings' schema

pub data Checked {ℓ} (A : Type ℓ) : Type ℓ where
  accepted : A → Checked A
  refused : PolicyError → Checked A

-- `_append_unique`
abbrev pub append_unique : List Text → Text → List Text
append_unique values value = if contains value values then values else values ++ value ∷ []

-- `_merge_unique`
unfoldable pub merge_unique : List Text → List Text → List Text
merge_unique first [] = first
merge_unique first (value ∷ second) = merge_unique (append_unique first value) second

-- `ConfigPolicyAnnotations.extend`
unfoldable pub extend : Annotations → Annotations → Annotations
unfolding merge_unique
extend a b = record {
  overridden_fields = merge_unique a.overridden_fields b.overridden_fields;
  clamped_fields = merge_unique a.clamped_fields b.clamped_fields;
  redacted_fields = merge_unique a.redacted_fields b.redacted_fields;
}
