-- ===== src/Policy/Bounds.antt =====
-- What the policy leaves of the settings is within its limits.
use mathlib.Core.Path.{subst}
use comet_l.Prelude.{
  ℕ, ◌≤◌, ◌≡◌, refl, true, Option, none, some, List, [], ◌∷◌, Text, contains, strip,
  strip_idempotent, arith, if◌then◌else◌, Bool-cases, inl, inr, ltb,
}
use comet_l.Policy.Types.{
  ℤ, pos, negsuc, lt_int, same_int, clamp_int, Deployment, Settings, Annotations, Checked, accepted,
  refused, extend, invalid_java_version,
}
use comet_l.Policy.Limits.{
  normalize_allowed_java_version, clamp_settings, enforce_deployment_policy, enforce_and_extend,
  RunForm, apply_run_form_policy, submit_numbers,
}

-- A positive number up to the maximum
abbrev pub InRange : ℤ → ℕ → Type 0
InRange v maximum = (k : ℕ) × (v ≡ pos k) × (1 ≤ k) × (k ≤ maximum)

-- The limits of the deployment, where the schema makes them at least 1
pub record IsPolicy (d : Deployment) : Type 0 where
  pub iterations : 1 ≤ d.max_iterations
  pub budget : 1 ≤ d.max_budget
  pub timeout : 1 ≤ d.max_run_timeout_seconds

clamp_int-InRange :
    (v : ℤ) (maximum : ℕ) → 1 ≤ maximum → InRange (clamp_int v (pos 1) (pos maximum)) maximum
unfolding clamp_int lt_int
clamp_int-InRange (pos n) maximum h = elim (Bool-cases (ltb n 1)) [
  | inl low ↦ elim (Bool-cases (ltb maximum 1)) [
    | inl none_left ↦ absurd (ground arith)
    | inr some_left ↦ (1, rw (low, some_left) refl, omega arith, h)
  ]
  | inr high ↦ elim (Bool-cases (ltb maximum n)) [
    | inl above ↦ (maximum, rw (high, above) refl, h, omega arith)
    | inr within ↦ (n, rw (high, within) refl, ground arith, ground arith)
  ]
]
clamp_int-InRange (negsuc n) maximum h = elim (Bool-cases (ltb maximum 1)) [
  | inl none_left ↦ absurd (ground arith)
  | inr some_left ↦ (1, rw some_left refl, omega arith, h)
]

pub clamp_int-within :
    (v : ℤ) (maximum : ℕ) → InRange v maximum → clamp_int v (pos 1) (pos maximum) ≡ v
unfolding clamp_int lt_int
clamp_int-within v maximum (k, e, low, high) = rw e (at k low high)
  where
    at : (k : ℕ) → 1 ≤ k → k ≤ maximum → clamp_int (pos k) (pos 1) (pos maximum) ≡ pos k
    at k low high = ground arith

pub same_int_refl : (v : ℤ) → same_int v v ≡ true
unfolding same_int
same_int_refl (pos n) = ground arith
same_int_refl (negsuc n) = ground arith

-- The Java version is none, or one that is allowed and has no spaces around it.
abbrev pub IsAllowed : Option Text → List Text → Type 0
IsAllowed none allowed = Unit
IsAllowed (some []) allowed = ⊥
IsAllowed (some (c ∷ v)) allowed = (contains (c ∷ v) allowed ≡ true) × (strip (c ∷ v) ≡ c ∷ v)

module _ {ℓ} {R : Type ℓ} where
  -- The settings are within the limits of their deployment.
  pub record InBounds (s : Settings R) : Type ℓ where
    pub iterations : InRange s.max_iterations s.deployment.max_iterations
    pub budget : InRange s.budget_llm_calls s.deployment.max_budget
    pub timeout : InRange s.timeout s.deployment.max_run_timeout_seconds
    pub version : IsAllowed s.selected_java_version s.deployment.allowed_java_versions

-- A property of what is accepted
abbrev pub Accepts {ℓ κ} : {A : Type ℓ} → (A → Type κ) → Checked A → Type κ
Accepts P (accepted a) = P a
Accepts P (refused e) = Unit

normalize-IsAllowed :
    (value : Text) (allowed : List Text)
    → Accepts (λ v. IsAllowed v allowed) (normalize_allowed_java_version value allowed)
unfolding normalize_allowed_java_version
normalize-IsAllowed value allowed = go (strip value) (strip_idempotent value)
  where
    go :
        (t : Text)
        → strip t ≡ t
        → Accepts
            (λ v. IsAllowed v allowed)
            (elim t as (λ _. Checked (Option Text)) [
              | [] ↦ accepted none
              | c ∷ v ↦
                  if contains (c ∷ v) allowed
                  then accepted (some (c ∷ v))
                  else refused invalid_java_version
            ])
    go [] same = tt
    go (c ∷ t) same = elim (Bool-cases (contains (c ∷ t) allowed)) [
      | inl listed ↦ rw listed (listed, same)
      | inr other ↦ rw other tt
    ]

module _ {ℓ} {R : Type ℓ} where
  -- Within the limits of this deployment, which is kept
  abbrev pub Complies : Deployment → Settings R × Annotations → Type ℓ
  Complies d r = InBounds r.0 × (r.0.deployment ≡ d)

  pub enforce-Complies :
      (s : Settings R)
      → IsPolicy s.deployment
      → Accepts (Complies s.deployment) (enforce_deployment_policy s)
  unfolding enforce_deployment_policy clamp_settings
  enforce-Complies s h = version s.selected_java_version
    where
      clamped : Settings R
      clamped = (clamp_settings s).0

      bounded :
          (v : Option Text)
          → IsAllowed v s.deployment.allowed_java_versions
          → InBounds (record clamped { selected_java_version = v })
      bounded v ok = record {
        iterations = clamp_int-InRange s.max_iterations s.deployment.max_iterations h.iterations;
        budget = clamp_int-InRange s.budget_llm_calls s.deployment.max_budget h.budget;
        timeout = clamp_int-InRange s.timeout s.deployment.max_run_timeout_seconds h.timeout;
        version = ok;
      }

      checked :
          (v : Checked (Option Text))
          → Accepts (λ v. IsAllowed v s.deployment.allowed_java_versions) v
          → Accepts (Complies s.deployment) (elim v as (λ _. Checked (Settings R × Annotations)) [
            | refused e ↦ refused e
            | accepted v ↦
                accepted (record clamped { selected_java_version = v }, (clamp_settings s).1)
          ])
      checked (accepted v) ok = (bounded v ok, refl)
      checked (refused e) ok = tt

      version :
          (o : Option Text)
          → Accepts (Complies s.deployment) (elim o as (λ _. Checked (Settings R × Annotations)) [
            | none ↦ accepted (record clamped { selected_java_version = o }, (clamp_settings s).1)
            | some version ↦
                elim (normalize_allowed_java_version version s.deployment.allowed_java_versions) [
                  | refused e ↦ refused e
                  | accepted v ↦
                      accepted (record clamped { selected_java_version = v }, (clamp_settings s).1)
                ]
          ])
      version none = (bounded none tt, refl)
      version (some t) =
          checked (normalize_allowed_java_version t s.deployment.allowed_java_versions)
            (normalize-IsAllowed t s.deployment.allowed_java_versions)

  extend-Complies :
      (d : Deployment) (annotations : Annotations) (r : Checked (Settings R × Annotations))
      → Accepts (Complies d) r
      → Accepts (Complies d) (elim r as (λ _. Checked (Settings R × Annotations)) [
        | refused e ↦ refused e
        | accepted (s', more) ↦ accepted (s', extend annotations more)
      ])
  extend-Complies d annotations (accepted (s, more)) h = h
  extend-Complies d annotations (refused e) h = tt

  pub enforce_and_extend-Complies :
      (s : Settings R) (annotations : Annotations)
      → IsPolicy s.deployment
      → Accepts (Complies s.deployment) (enforce_and_extend s annotations)
  unfolding enforce_and_extend
  enforce_and_extend-Complies s annotations h =
      extend-Complies s.deployment annotations (enforce_deployment_policy s) (enforce-Complies s h)

  apply_run_form_policy-Complies :
      (s : Settings R) (form : RunForm)
      → IsPolicy s.deployment
      → Accepts (Complies s.deployment) (apply_run_form_policy s form)
  unfolding apply_run_form_policy submit_numbers
  apply_run_form_policy-Complies s form h = version form.selected_java_version
    where
      effective : Settings R
      effective = (submit_numbers s form).0

      annotations : Annotations
      annotations = (submit_numbers s form).1

      checked :
          (v : Checked (Option Text))
          → Accepts (Complies s.deployment) (elim v as (λ _. Checked (Settings R × Annotations)) [
            | refused e ↦ refused e
            | accepted v ↦
                enforce_and_extend (record effective { selected_java_version = v }) annotations
          ])
      checked (accepted v) =
          enforce_and_extend-Complies (record effective { selected_java_version = v }) annotations h
      checked (refused e) = tt

      version :
          (o : Option Text)
          → Accepts (Complies s.deployment) (elim o as (λ _. Checked (Settings R × Annotations)) [
            | none ↦ enforce_and_extend effective annotations
            | some version ↦
                elim (normalize_allowed_java_version version s.deployment.allowed_java_versions) [
                  | refused e ↦ refused e
                  | accepted v ↦
                      enforce_and_extend
                        (record effective { selected_java_version = v })
                        annotations
                ]
          ])
      version none = enforce_and_extend-Complies effective annotations h
      version (some t) =
          checked (normalize_allowed_java_version t s.deployment.allowed_java_versions)

  -- Where the deployment's limits are at least 1 and the form of a run is accepted, the settings are
  -- within the limits of the deployment, whatever they and the form were, and the deployment is kept.
  pub apply_run_form_policy-InBounds :
      (s s' : Settings R) (form : RunForm) (annotations : Annotations)
      → IsPolicy s.deployment
      → apply_run_form_policy s form ≡ accepted (s', annotations)
      → InBounds s' × (s'.deployment ≡ s.deployment)
  apply_run_form_policy-InBounds s s' form annotations h e =
      subst (Accepts (Complies s.deployment)) e (apply_run_form_policy-Complies s form h)
