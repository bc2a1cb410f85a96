-- ===== src/Policy/Submitted.antt =====
-- An uploaded configuration stays within the limits of the deployment.
use mathlib.Core.Path.{subst}
use comet_l.Prelude.{◌≡◌, sym, refl, Option, none, some, List, [], ◌∷◌, codes}
use comet_l.Policy.Types.{
  Settings, Annotations, no_annotations, Keys, Checked, accepted, refused, invalid_settings,
  unknown_fields,
}
use comet_l.Policy.Limits.{enforce_and_extend}
use comet_l.Policy.Values.{Value, Fields, flatten_fields}
use comet_l.Policy.Bounds.{IsPolicy, InBounds, Accepts, Complies, enforce_and_extend-Complies}
use comet_l.Policy.Uploads.{
  Schema, lookup_field, normalize_submitted_config, place_fields, find_unknown_fields,
  apply_uploaded_config_policy,
}
use comet_l.Policy.Untouched.{normalize-deployment, place_fields-KeptIn, flatten-IsAway}

module _ {ℓ} {R : Type ℓ} (schema : Schema R) where
  apply_uploaded-Complies :
      (base : Settings R) (submitted : Fields)
      → IsPolicy base.deployment
      → ((fs : Fields) (s : Settings R)
          → schema.model_validate fs ≡ some s
          → lookup_field (codes "deployment") fs
            ≡ lookup_field (codes "deployment") (schema.model_dump base)
          → s.deployment ≡ base.deployment)
      → Accepts (Complies base.deployment) (apply_uploaded_config_policy schema base submitted)
  unfolding apply_uploaded_config_policy
  apply_uploaded-Complies base submitted policy reads =
      known (find_unknown_fields schema.model [] normalized)
    where
      normalized : Fields
      normalized = normalize_submitted_config submitted

      entries : List (Keys × Value)
      entries = flatten_fields [] normalized

      dumped : Fields
      dumped = schema.model_dump base

      enforced :
          (s : Settings R) (annotations : Annotations)
          → s.deployment ≡ base.deployment
          → Accepts (Complies base.deployment) (enforce_and_extend s annotations)
      enforced s annotations e =
          subst (λ d. Accepts (Complies d) (enforce_and_extend s annotations)) e
            (enforce_and_extend-Complies s annotations (subst IsPolicy (sym e) policy))

      validated :
          (effective : Fields) (annotations : Annotations) (o : Option (Settings R))
          → lookup_field (codes "deployment") effective ≡ lookup_field (codes "deployment") dumped
          → schema.model_validate effective ≡ o
          → Accepts
              (Complies base.deployment)
              (elim o as (λ _. Checked (Settings R × Annotations)) [
                | none ↦ refused invalid_settings
                | some s ↦ enforce_and_extend s annotations
              ])
      validated effective annotations none kept e = tt
      validated effective annotations (some s) kept e =
          enforced s annotations (reads effective s e kept)

      placed :
          (c : Checked (Fields × Annotations))
          → Accepts
              (λ r.
                lookup_field (codes "deployment") r.0 ≡ lookup_field (codes "deployment") dumped)
              c
          → Accepts
              (Complies base.deployment)
              (elim c as (λ _. Checked (Settings R × Annotations)) [
                | refused e ↦ refused e
                | accepted (effective, annotations) ↦ elim (schema.model_validate effective) [
                  | none ↦ refused invalid_settings
                  | some s ↦ enforce_and_extend s annotations
                ]
              ])
      placed (refused e) kept = tt
      placed (accepted (effective, annotations)) kept =
          validated effective annotations (schema.model_validate effective) kept refl

      known :
          (unknown : List Keys)
          → Accepts
              (Complies base.deployment)
              (elim unknown as (λ _. Checked (Settings R × Annotations)) [
                | path ∷ paths ↦ refused (unknown_fields (path ∷ paths))
                | [] ↦ elim (place_fields schema base.deployment entries (dumped, no_annotations)) [
                  | refused e ↦ refused e
                  | accepted (effective, annotations) ↦ elim (schema.model_validate effective) [
                    | none ↦ refused invalid_settings
                    | some s ↦ enforce_and_extend s annotations
                  ]
                ]
              ])
      known (path ∷ paths) = tt
      known [] = placed (place_fields schema base.deployment entries (dumped, no_annotations)) (
          place_fields-KeptIn (codes "deployment") schema base.deployment entries dumped
            no_annotations
            (flatten-IsAway (codes "deployment") normalized (normalize-deployment submitted)))

  -- Where the deployment's limits are at least 1 and the schema reads the deployment from the field of
  -- that name, an uploaded configuration that is accepted leaves the settings within the limits of the
  -- deployment, and the deployment as it was, whatever was uploaded.
  pub apply_uploaded_config_policy-InBounds :
      (base s : Settings R) (submitted : Fields) (annotations : Annotations)
      → IsPolicy base.deployment
      → ((fs : Fields) (s : Settings R)
          → schema.model_validate fs ≡ some s
          → lookup_field (codes "deployment") fs
            ≡ lookup_field (codes "deployment") (schema.model_dump base)
          → s.deployment ≡ base.deployment)
      → apply_uploaded_config_policy schema base submitted ≡ accepted (s, annotations)
      → InBounds s × (s.deployment ≡ base.deployment)
  apply_uploaded_config_policy-InBounds base s submitted annotations policy reads e =
      subst (Accepts (Complies base.deployment)) e
        (apply_uploaded-Complies base submitted policy reads)
