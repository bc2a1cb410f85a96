-- ===== src/Policy/Repeated.antt =====
-- Within the limits, enforcing them changes nothing.
use mathlib.Core.Path.{subst}
use comet_l.Prelude.{ℕ, sym, ◌≡◌, ap, refl, Option, none, some, List, [], ◌∷◌, Text}
use comet_l.Policy.Types.{Settings, Annotations, no_annotations, Checked, accepted, refused}
use comet_l.Policy.Limits.{
  normalize_allowed_java_version, clamp_settings, enforce_deployment_policy,
}
use comet_l.Policy.Bounds.{
  clamp_int-within, same_int_refl, IsAllowed, InBounds, IsPolicy, Accepts, Complies,
  enforce-Complies,
}

normalize-IsAllowed_same :
    (c : ℕ) (v : Text) (allowed : List Text)
    → IsAllowed (some (c ∷ v)) allowed
    → normalize_allowed_java_version (c ∷ v) allowed ≡ accepted (some (c ∷ v))
unfolding normalize_allowed_java_version
normalize-IsAllowed_same c v allowed (listed, same) =
    rw (normalize_allowed_java_version, same, listed) refl

module _ {ℓ} {R : Type ℓ} where
  clamp_settings-InBounds : (s : Settings R) → InBounds s → clamp_settings s ≡ (s, no_annotations)
  unfolding clamp_settings
  clamp_settings-InBounds s h =
      rw
        (
          clamp_int-within s.max_iterations s.deployment.max_iterations h.iterations,
          clamp_int-within s.budget_llm_calls s.deployment.max_budget h.budget,
          clamp_int-within s.timeout s.deployment.max_run_timeout_seconds h.timeout,
          same_int_refl s.max_iterations,
          same_int_refl s.budget_llm_calls,
          same_int_refl s.timeout,
        )
        refl

  -- Settings within the limits are left as they are, and nothing is noted.
  pub enforce_deployment_policy-InBounds :
      (s : Settings R) → InBounds s → enforce_deployment_policy s ≡ accepted (s, no_annotations)
  unfolding enforce_deployment_policy
  enforce_deployment_policy-InBounds s h = version s.selected_java_version h.version
    where
      version :
          (o : Option Text)
          → IsAllowed o s.deployment.allowed_java_versions
          → enforce_deployment_policy (record s { selected_java_version = o })
            ≡ accepted (record s { selected_java_version = o }, no_annotations)
      version none ok =
          ap
            (λ (r : Settings R × Annotations).
              accepted (record r.0 { selected_java_version = none }, r.1))
            (clamp_settings-InBounds s h)
      version (some []) ok = absurd ok
      version (some (c ∷ v)) ok =
          subst
            (λ n.
              (elim n as (λ _. Checked (Settings R × Annotations)) [
                | refused e ↦ refused e
                | accepted v ↦ accepted (
                  record (clamp_settings s).0 { selected_java_version = v },
                  (clamp_settings s).1,
                )
              ])
              ≡ accepted (record s { selected_java_version = some (c ∷ v) }, no_annotations))
            (sym (normalize-IsAllowed_same c v s.deployment.allowed_java_versions ok))
            (ap
              (λ (r : Settings R × Annotations).
                accepted (record r.0 { selected_java_version = some (c ∷ v) }, r.1))
              (clamp_settings-InBounds s h))

  -- Enforcing the limits again changes nothing and notes nothing, where they are at least 1.
  pub enforce_deployment_policy_idempotent :
      (s s' : Settings R) (annotations : Annotations)
      → IsPolicy s.deployment
      → enforce_deployment_policy s ≡ accepted (s', annotations)
      → enforce_deployment_policy s' ≡ accepted (s', no_annotations)
  enforce_deployment_policy_idempotent s s' annotations h e =
      enforce_deployment_policy-InBounds s'
        (subst (Accepts (Complies s.deployment)) e (enforce-Complies s h)).0
