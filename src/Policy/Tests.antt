-- ===== src/Policy/Tests.antt =====
-- Concrete settings, forms and uploads, and the theorems at such inputs.
use comet_l.Prelude.{
  List, ℕ, ◌≤◌, ◌≡◌, refl, sym, ap, Bool, true, false, Option, none, some, List, [], ◌∷◌, map, Text,
  codes, arith, is_some,
}
use comet_l.Policy.Types.{
  pos, negsuc, Deployment, Settings, Annotations, no_annotations, accepted, refused,
  invalid_java_version, unknown_fields,
}
use comet_l.Policy.Limits.{
  enforce_deployment_policy, RunForm, apply_run_form_policy, iterations_field, budget_field,
}
use comet_l.Policy.Bounds.{IsPolicy, InBounds, apply_run_form_policy-InBounds}
use comet_l.Policy.Repeated.{enforce_deployment_policy_idempotent}
use comet_l.Policy.Values.{
  Value, null, flag, int, real, text, items, dict, Values, no_items, item, Fields, no_fields, field,
  flatten_fields,
}
use comet_l.Policy.Redaction.{redact_config_snapshot, redacted, masked, leaves_of}
use comet_l.Policy.Masked.{redact_config_snapshot-leaves_of}
use comet_l.Policy.Uploads.{
  Schema, no_more, leaf_field, nested_field, parsed, Parsed, not_int, apply_uploaded_config_policy,
}
use comet_l.Policy.Submitted.{apply_uploaded_config_policy-InBounds}

abbrev limits : Deployment
limits = record {
  max_iterations = 10;
  max_budget = 500;
  max_run_timeout_seconds = 7200;
  allowed_java_versions = codes "17" ∷ codes "21" ∷ [];
}

limits-IsPolicy : IsPolicy limits
limits-IsPolicy = record { iterations = omega arith; budget = omega arith; timeout = omega arith }

abbrev base : Settings (Unit {0})
base = record {
  max_iterations = pos 40;
  budget_llm_calls = pos 1000;
  timeout = pos 60;
  selected_java_version = none;
  parallel_enabled = false;
  deployment = limits;
  others = tt;
}

abbrev form : RunForm
form = record {
  max_iterations = some (negsuc 4);
  budget = some (pos 900);
  mutation_enabled = none;
  parallel = true;
  parallel_targets = none;
  selected_java_version = some (codes " 21 ");
}

abbrev formed : Settings (Unit {0})
formed = record base {
  max_iterations = pos 1;
  budget_llm_calls = pos 500;
  selected_java_version = some (codes "21");
  parallel_enabled = true;
}

abbrev form_notes : Annotations
form_notes = record no_annotations { clamped_fields = iterations_field ∷ budget_field ∷ [] }

form_test : apply_run_form_policy base form ≡ accepted (formed, form_notes)
unfolding apply_run_form_policy comet_l.Prelude.text_eq
form_test = refl

java_test :
    apply_run_form_policy base (record form { selected_java_version = some (codes "8") })
    ≡ refused invalid_java_version
unfolding apply_run_form_policy comet_l.Prelude.text_eq
java_test = refl

apply_run_form_policy-InBounds_example : InBounds formed × (limits ≡ limits)
unfolding apply_run_form_policy comet_l.Prelude.text_eq
apply_run_form_policy-InBounds_example =
    apply_run_form_policy-InBounds base formed form form_notes limits-IsPolicy refl

abbrev enforced : Settings (Unit {0})
enforced = record base { max_iterations = pos 10; budget_llm_calls = pos 500 }

enforce_deployment_policy_idempotent_example :
    enforce_deployment_policy enforced ≡ accepted (enforced, no_annotations)
unfolding enforce_deployment_policy comet_l.Prelude.text_eq
enforce_deployment_policy_idempotent_example =
    enforce_deployment_policy_idempotent base enforced form_notes limits-IsPolicy refl

abbrev snapshot : Fields
snapshot =
    field (codes "llm")
      (dict (
        field (codes "api_key") (text (codes "k"))
          (field (codes "model") (text (codes "m")) no_fields)))
      (field (codes "hooks")
        (items (item (dict (field (codes "password") (text (codes "p")) no_fields)) no_items))
        no_fields)

abbrev same_text : Text → Text
same_text s = s

redact_test : redact_config_snapshot same_text snapshot ≡ (
  field
      (codes "llm")
      (dict (field (codes "api_key") redacted (field (codes "model") (text (codes "m")) no_fields)))
      (field
        (codes "hooks")
        (items (item (dict (field (codes "password") redacted no_fields)) no_items))
        no_fields),
  codes "llm.api_key" ∷ [],
)
unfolding redact_config_snapshot comet_l.Policy.Values.same_keys comet_l.Prelude.text_eq
redact_test = refl

redact_config_snapshot-leaves_of_example :
    leaves_of same_text [] (redact_config_snapshot same_text snapshot).0
    ≡ map (masked same_text) (leaves_of same_text [] snapshot)
redact_config_snapshot-leaves_of_example = redact_config_snapshot-leaves_of same_text snapshot

-- A mapping under a secret key is not redacted itself: its fields are judged by their own keys.
abbrev nested : Fields
nested =
    field (codes "session") (dict (field (codes "token") (text (codes "x")) no_fields)) no_fields

nested_test : (redact_config_snapshot same_text nested).0 ≡ nested
unfolding redact_config_snapshot comet_l.Policy.Values.same_keys comet_l.Prelude.text_eq
nested_test = refl

abbrev int_of : Value → Parsed
int_of (int n) = parsed n
int_of v = not_int

-- A schema that knows the number of iterations; it takes the other settings from `base`.
abbrev example_schema : Schema (Unit {0})
example_schema = record {
  model =
      nested_field (codes "evolution")
        (leaf_field (codes "max_iterations") (leaf_field (codes "budget_llm_calls") no_more))
        no_more;
  model_dump = λ s.
      field (codes "evolution")
        (dict (field (codes "max_iterations") (int s.max_iterations) no_fields)) no_fields;
  model_validate = λ fs. some base;
  to_text = λ v. [];
  to_int = int_of;
  same_number = λ v n. false;
}

abbrev upload : Fields
upload =
    field (codes "deployment") (dict (field (codes "max_budget") (int (pos 9000)) no_fields)) (
      field (codes "evolution") (dict (field (codes "budget") (int (pos 9000)) no_fields))
        no_fields)

unknown_test :
    apply_uploaded_config_policy example_schema base (field (codes "x") null no_fields)
    ≡ refused (unknown_fields ((codes "x" ∷ []) ∷ []))
unfolding apply_uploaded_config_policy comet_l.Prelude.text_eq
unknown_test = refl

abbrev deployment_of : Option (Settings (Unit {0})) → Deployment
deployment_of none = limits
deployment_of (some s) = s.deployment

apply_uploaded_config_policy-InBounds_example : InBounds enforced × (limits ≡ limits)
unfolding apply_uploaded_config_policy comet_l.Prelude.text_eq
apply_uploaded_config_policy-InBounds_example =
    apply_uploaded_config_policy-InBounds example_schema base enforced upload
      (record no_annotations { clamped_fields = budget_field ∷ iterations_field ∷ [] })
      limits-IsPolicy (λ fs s e k. sym (ap deployment_of e)) refl
