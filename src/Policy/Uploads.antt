-- ===== src/Policy/Uploads.antt =====
-- An uploaded configuration (`apply_uploaded_config_policy`). The schema of the settings is an
-- argument, as are `str`, `int` and `==` on the values that YAML and JSON have.
use comet_l.Prelude.{
  ℕ, Bool, Option, none, some, List, [], ◌∷◌, ◌++◌, Text, codes, text_eq, is_some, if◌then◌else◌,
}
use comet_l.Policy.Types.{
  ℤ, pos, clamp_int, Deployment, Settings, Annotations, no_annotations, Keys, append_unique,
  Checked, accepted, refused, unknown_fields, int_type, int_parsing, overflow, not_a_mapping,
  invalid_settings,
}
use comet_l.Policy.Limits.{normalize_allowed_java_version, enforce_and_extend}
use comet_l.Policy.Values.{
  Value, null, flag, int, text, dict, Fields, no_fields, field, same_keys, contains_keys,
  format_path, flatten_fields,
}

-- `int(value)`: an integer, a TypeError or ValueError, or an OverflowError
pub data Parsed : Type 0 where
  parsed : ℤ → Parsed
  not_int too_large : Parsed

-- The fields of a model of the schema; a field may be a model itself.
pub data Model : Type 0 where
  no_more : Model
  leaf_field : Text → Model → Model
  nested_field : Text → Model → Model → Model

pub record Schema {ℓ} (R : Type ℓ) : Type ℓ where
  pub model : Model
  pub model_dump : Settings R → Fields
  pub model_validate : Fields → Option (Settings R)
  pub to_text : Value → Text  -- `str(value)`
  pub to_int : Value → Parsed
  pub same_number : Value → ℤ → Bool  -- `value == n`

unfoldable pub lookup_field : Text → Fields → Option Value
lookup_field key no_fields = none
lookup_field key (field k v fs) = if text_eq k key then some v else lookup_field key fs

unfoldable pub insert_field : Text → Value → Fields → Fields
insert_field key v no_fields = field key v no_fields
insert_field key v (field k w fs) =
    let rest = insert_field key v fs in if text_eq k key then field k v fs else field k w rest

unfoldable pub erase_field : Text → Fields → Fields
erase_field key no_fields = no_fields
erase_field key (field k v fs) =
    let rest = erase_field key fs in if text_eq k key then rest else field k v rest

-- The field `evolution`, with `budget` as another name of `budget_llm_calls`
unfoldable pub rename_budget : Fields → Fields
unfolding lookup_field insert_field erase_field
rename_budget evolution = elim (lookup_field (codes "budget") evolution) [
  | none ↦ evolution
  | some budget ↦ erase_field (codes "budget") (
      if is_some (lookup_field (codes "budget_llm_calls") evolution)
      then evolution
      else insert_field (codes "budget_llm_calls") budget evolution)
]

-- `_normalize_submitted_config`
unfoldable pub normalize_submitted_config : Fields → Fields
unfolding rename_budget lookup_field insert_field erase_field
normalize_submitted_config submitted =
    let normalized = erase_field (codes "deployment") submitted in
    elim (lookup_field (codes "evolution") normalized) [
      | some (dict evolution) ↦
          insert_field (codes "evolution") (dict (rename_budget evolution)) normalized
      | _ ↦ normalized
    ]

-- Whether the model has the field, and the model that the field is
unfoldable pub find_model : Text → Model → Option (Option Model)
find_model key no_more = none
find_model key (leaf_field k rest) = if text_eq k key then some none else find_model key rest
find_model key (nested_field k inner rest) =
    if text_eq k key then some (some inner) else find_model key rest

unfoldable mutual
  unfolding find_model

  -- `_find_unknown_fields`
  pub find_unknown_fields : Model → Keys → Fields → List Keys
  find_unknown_fields model prefix no_fields = []
  find_unknown_fields model prefix (field k v fs) =
      find_unknown_in (find_model k model) (prefix ++ k ∷ []) v
      ++ find_unknown_fields model prefix fs

  pub find_unknown_in : Option (Option Model) → Keys → Value → List Keys
  find_unknown_in none path v = path ∷ []
  find_unknown_in (some none) path v = []
  find_unknown_in (some (some inner)) path (dict fs) = find_unknown_fields inner path fs
  find_unknown_in (some (some inner)) path v = []

-- `current.setdefault(segment, {})`, if it is a mapping
abbrev pub child_fields : Option Value → Option Fields
child_fields none = some no_fields
child_fields (some (dict fs)) = some fs
child_fields (some v) = none

-- `_set_path`
unfoldable pub set_path : Keys → Value → Fields → Option Fields
unfolding lookup_field insert_field
set_path [] v tree = some tree
set_path (k ∷ []) v tree = some (insert_field k v tree)
set_path (k ∷ l ∷ path) v tree = elim (child_fields (lookup_field k tree)) [
  | none ↦ none
  | some inner ↦ elim (set_path (l ∷ path) v inner) [
    | none ↦ none
    | some inner' ↦ some (insert_field k (dict inner') tree)
  ]
]

abbrev java_version_path : Keys
java_version_path = codes "execution" ∷ codes "selected_java_version" ∷ []

-- CLAMPED_CONFIG_FIELDS
abbrev max_iterations_path : Keys
max_iterations_path = codes "evolution" ∷ codes "max_iterations" ∷ []

abbrev budget_path : Keys
budget_path = codes "evolution" ∷ codes "budget_llm_calls" ∷ []

abbrev timeout_path : Keys
timeout_path = codes "execution" ∷ codes "timeout" ∷ []

abbrev pub fixed_config_fields : List Keys
fixed_config_fields =
    (codes "preprocessing" ∷ codes "max_workers" ∷ [])
    ∷ (codes "agent" ∷ codes "parallel" ∷ codes "max_parallel_targets" ∷ [])
    ∷ (codes "agent" ∷ codes "parallel" ∷ codes "max_eval_workers" ∷ [])
    ∷ (codes "execution" ∷ codes "runtime_java_home" ∷ [])
    ∷ (codes "execution" ∷ codes "target_java_home" ∷ [])
    ∷ (codes "execution" ∷ codes "maven_home" ∷ [])
    ∷ (codes "logging" ∷ codes "file" ∷ [])
    ∷ (codes "github" ∷ codes "oauth_client_secret" ∷ [])
    ∷ (codes "github" ∷ codes "encrypted_token_store_path" ∷ [])
    ∷ (codes "github" ∷ codes "encrypted_key_store_path" ∷ [])
    ∷ (codes "github" ∷ codes "managed_clone_root" ∷ [])
    ∷ []

-- The limit of a clamped field
abbrev pub field_limit : Deployment → Keys → Option ℕ
field_limit d path =
    if same_keys path max_iterations_path
    then some d.max_iterations
    else if same_keys path budget_path
    then some d.max_budget
    else if same_keys path timeout_path
    then some d.max_run_timeout_seconds
    else none

module _ {ℓ} {R : Type ℓ} (schema : Schema R) where
  -- `_parse_int`
  unfoldable pub parse_int : Keys → Value → Checked ℤ
  parse_int path (flag b) = refused (int_type path)
  parse_int path v = elim (schema.to_int v) [
    | parsed n ↦ accepted n
    | not_int ↦ refused (int_parsing path)
    | too_large ↦ refused overflow
  ]

  -- The value that replaces a submitted Java version
  unfoldable pub java_version_value : Deployment → Value → Checked Value
  unfolding normalize_allowed_java_version
  java_version_value d null = accepted null
  java_version_value d v =
      elim (normalize_allowed_java_version (schema.to_text v) d.allowed_java_versions) [
        | refused e ↦ refused e
        | accepted none ↦ accepted null
        | accepted (some version) ↦ accepted (text version)
      ]

  -- What one submitted field becomes: a value to set, if any, and the annotations
  unfoldable pub judge_field :
      Deployment → Keys → Value → Annotations → Checked (Option Value × Annotations)
  unfolding parse_int java_version_value same_keys format_path clamp_int
  judge_field d path v annotations =
      if same_keys path java_version_path
      then elim (java_version_value d v) [
        | refused e ↦ refused e
        | accepted w ↦ accepted (some w, annotations)
      ]
      else elim (field_limit d path) [
        | some limit ↦ elim (parse_int path v) [
          | refused e ↦ refused e
          | accepted n ↦
              let clamped = clamp_int n (pos 1) (pos limit) in
              accepted (
                some (int clamped),
                if schema.same_number v clamped then annotations else record annotations {
                  clamped_fields = append_unique annotations.clamped_fields (format_path path);
                },
              )
        ]
        | none ↦
            if contains_keys path fixed_config_fields
            then accepted (
              none,
              record annotations {
                overridden_fields = append_unique annotations.overridden_fields (format_path path);
              },
            )
            else accepted (some v, annotations)
      ]

  unfoldable pub place_field :
      Deployment → Keys → Value → Fields × Annotations → Checked (Fields × Annotations)
  unfolding judge_field set_path
  place_field d path v (effective, annotations) = elim (judge_field d path v annotations) [
    | refused e ↦ refused e
    | accepted (none, noted) ↦ accepted (effective, noted)
    | accepted (some w, noted) ↦ elim (set_path path w effective) [
      | none ↦ refused not_a_mapping
      | some effective' ↦ accepted (effective', noted)
    ]
  ]

  -- `for path, value in _flatten_mapping(normalized)`
  unfoldable pub place_fields :
      Deployment → List (Keys × Value) → Fields × Annotations → Checked (Fields × Annotations)
  unfolding place_field
  place_fields d [] done = accepted done
  place_fields d ((path, v) ∷ rest) done = elim (place_field d path v done) [
    | refused e ↦ refused e
    | accepted done' ↦ place_fields d rest done'
  ]

  -- `apply_uploaded_config_policy`
  unfoldable pub apply_uploaded_config_policy :
      Settings R → Fields → Checked (Settings R × Annotations)
  unfolding normalize_submitted_config find_unknown_fields place_fields flatten_fields
      enforce_and_extend
  apply_uploaded_config_policy base submitted =
      let normalized = normalize_submitted_config submitted in
      elim (find_unknown_fields schema.model [] normalized) [
        | path ∷ paths ↦ refused (unknown_fields (path ∷ paths))
        | [] ↦
            elim (place_fields base.deployment (flatten_fields [] normalized)
              (schema.model_dump base, no_annotations)) [
                | refused e ↦ refused e
                | accepted (effective, annotations) ↦ elim (schema.model_validate effective) [
                  | none ↦ refused invalid_settings
                  | some s ↦ enforce_and_extend s annotations
                ]
              ]
      ]
