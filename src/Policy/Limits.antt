-- ===== src/Policy/Limits.antt =====
-- The limits on settings and on the form of a run.
use comet_l.Prelude.{
  ℕ, Bool, true, Option, none, some, List, [], ◌∷◌, Text, codes, contains, strip, skip_spaces,
  drop_spaces_right, is_some, if◌then◌else◌,
}
use comet_l.Policy.Types.{
  ℤ, pos, clamp_int, same_int, Settings, Annotations, no_annotations, append_unique, extend,
  Checked, accepted, refused, invalid_java_version,
}

-- `_normalize_allowed_java_version` on a text: nothing if it is blank
unfoldable pub normalize_allowed_java_version : Text → List Text → Checked (Option Text)
unfolding skip_spaces drop_spaces_right
normalize_allowed_java_version value allowed = elim (strip value) [
  | [] ↦ accepted none
  | c ∷ v ↦
      if contains (c ∷ v) allowed then accepted (some (c ∷ v)) else refused invalid_java_version
]

abbrev pub iterations_field : Text
iterations_field = codes "evolution.max_iterations"

abbrev pub budget_field : Text
budget_field = codes "evolution.budget_llm_calls"

abbrev pub timeout_field : Text
timeout_field = codes "execution.timeout"

-- `if clamped != value: _append_unique(annotations.clamped_fields, field)`
abbrev pub note_clamp : ℤ → ℤ → Text → List Text → List Text
note_clamp clamped value field fields =
    if same_int clamped value then fields else append_unique fields field

module _ {ℓ} {R : Type ℓ} where
  -- The numbers of `enforce_deployment_policy`
  unfoldable pub clamp_settings : Settings R → Settings R × Annotations
  unfolding clamp_int same_int
  clamp_settings s =
      let policy = s.deployment in
      let iterations = clamp_int s.max_iterations (pos 1) (pos policy.max_iterations) in
      let budget = clamp_int s.budget_llm_calls (pos 1) (pos policy.max_budget) in
      let timeout = clamp_int s.timeout (pos 1) (pos policy.max_run_timeout_seconds) in
      (
        record s { max_iterations = iterations; budget_llm_calls = budget; timeout = timeout },
        record no_annotations {
          clamped_fields = note_clamp timeout s.timeout timeout_field (
              note_clamp budget s.budget_llm_calls budget_field
                (note_clamp iterations s.max_iterations iterations_field []));
        },
      )

  -- `enforce_deployment_policy`
  unfoldable pub enforce_deployment_policy : Settings R → Checked (Settings R × Annotations)
  unfolding clamp_settings normalize_allowed_java_version
  enforce_deployment_policy s =
      let (clamped, annotations) = clamp_settings s in
      elim s.selected_java_version [
        | none ↦ accepted (clamped, annotations)
        | some version ↦
            elim (normalize_allowed_java_version version s.deployment.allowed_java_versions) [
              | refused e ↦ refused e
              | accepted v ↦ accepted (record clamped { selected_java_version = v }, annotations)
            ]
      ]

  -- The policy's part of both entries: enforce, and extend the annotations.
  unfoldable pub enforce_and_extend : Settings R → Annotations → Checked (Settings R × Annotations)
  unfolding enforce_deployment_policy extend
  enforce_and_extend s annotations = elim (enforce_deployment_policy s) [
    | refused e ↦ refused e
    | accepted (s', more) ↦ accepted (s', extend annotations more)
  ]

-- What the form of a run submits
pub record RunForm : Type 0 where
  pub max_iterations : Option ℤ
  pub budget : Option ℤ
  pub mutation_enabled : Option Bool
  pub parallel : Bool
  pub parallel_targets : Option ℤ
  pub selected_java_version : Option Text

abbrev clamp_option : Option ℤ → ℕ → ℤ → ℤ
clamp_option none maximum value = value
clamp_option (some submitted) maximum value = clamp_int submitted (pos 1) (pos maximum)

abbrev note_option : Option ℤ → ℕ → Text → List Text → List Text
note_option none maximum field fields = fields
note_option (some submitted) maximum field fields =
    note_clamp (clamp_int submitted (pos 1) (pos maximum)) submitted field fields

module _ {ℓ} {R : Type ℓ} where
  -- `apply_run_form_policy` up to the Java version
  unfoldable pub submit_numbers : Settings R → RunForm → Settings R × Annotations
  unfolding clamp_int same_int
  submit_numbers s form = (
    record s {
      max_iterations =
          clamp_option form.max_iterations s.deployment.max_iterations s.max_iterations;
      budget_llm_calls = clamp_option form.budget s.deployment.max_budget s.budget_llm_calls;
      parallel_enabled = if form.parallel then true else s.parallel_enabled;
    },
    record no_annotations {
      clamped_fields =
          note_option form.budget s.deployment.max_budget budget_field
            (note_option form.max_iterations s.deployment.max_iterations iterations_field []);
      overridden_fields =
          let overridden =
            if is_some form.mutation_enabled
            then append_unique [] (codes "evolution.mutation_enabled")
            else [] in
          if is_some form.parallel_targets
          then append_unique overridden (codes "agent.parallel.max_parallel_targets")
          else overridden;
    },
  )

  -- `apply_run_form_policy`
  unfoldable pub apply_run_form_policy : Settings R → RunForm → Checked (Settings R × Annotations)
  unfolding submit_numbers normalize_allowed_java_version enforce_and_extend
  apply_run_form_policy s form =
      let (effective, annotations) = submit_numbers s form in
      elim form.selected_java_version [
        | none ↦ enforce_and_extend effective annotations
        | some version ↦
            elim (normalize_allowed_java_version version s.deployment.allowed_java_versions) [
              | refused e ↦ refused e
              | accepted v ↦
                  enforce_and_extend (record effective { selected_java_version = v }) annotations
            ]
      ]
