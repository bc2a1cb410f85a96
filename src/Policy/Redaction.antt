-- ===== src/Policy/Redaction.antt =====
-- The redaction of secrets in a configuration that is shown to a client (`redact_config_snapshot`).
use comet_l.Prelude.{
  has_part, Bool, true, false, not, ◌&&◌, List, [], ◌∷◌, ◌++◌, map, Text, codes, any_of,
  if◌then◌else◌, filter_by,
}
use comet_l.Policy.Types.{Keys}
use comet_l.Policy.Values.{
  Value, null, flag, int, real, text, items, dict, Values, no_items, item, Fields, no_fields, field,
  contains_keys, format_path, flatten_fields,
}

abbrev secret_key_parts : List Text
secret_key_parts = codes "api_key" ∷ codes "secret" ∷ codes "password" ∷ codes "session" ∷ []

abbrev secret_config_fields : List Keys
secret_config_fields =
    (codes "github" ∷ codes "encrypted_token_store_path" ∷ [])
    ∷ (codes "github" ∷ codes "encrypted_key_store_path" ∷ [])
    ∷ []

-- The last key of a path that is not empty
unfoldable pub last_key : Text → Keys → Text
last_key k [] = k
last_key k (l ∷ path) = last_key l path

-- `[REDACTED]`
abbrev pub redacted : Value
redacted = text (codes "[REDACTED]")

abbrev pub is_null : Value → Bool
is_null null = true
is_null v = false

-- `lower` is `str.lower`.
module _ (lower : Text → Text) where
  -- `_is_secret_path`
  unfoldable pub is_secret_path : Keys → Bool
  unfolding last_key has_part
  is_secret_path [] = false
  is_secret_path (k ∷ path) =
      if contains_keys (k ∷ path) secret_config_fields
      then true
      else any_of (λ part. has_part part (lower (last_key k path))) secret_key_parts

  unfoldable mutual
    unfolding is_secret_path

    -- `_redact_value`
    pub redact_value : Keys → Value → Value
    redact_value path (dict fs) = dict (redact_fields path fs)
    redact_value path null = null
    redact_value path (items vs) =
        let inside = redact_items path vs in if is_secret_path path then redacted else items inside
    redact_value path (flag b) = if is_secret_path path then redacted else flag b
    redact_value path (int n) = if is_secret_path path then redacted else int n
    redact_value path (real r) = if is_secret_path path then redacted else real r
    redact_value path (text t) = if is_secret_path path then redacted else text t

    pub redact_items : Keys → Values → Values
    redact_items path no_items = no_items
    redact_items path (item v vs) = item (redact_value path v) (redact_items path vs)

    pub redact_fields : Keys → Fields → Fields
    redact_fields path no_fields = no_fields
    redact_fields path (field k v fs) =
        field k (redact_value (path ++ k ∷ []) v) (redact_fields path fs)

  -- `_collect_redacted_fields`
  unfoldable pub collect_redacted_fields : Fields → List Text
  unfolding is_secret_path flatten_fields format_path
  collect_redacted_fields config =
      map (λ (e : Keys × Value). format_path e.0)
        (filter_by (λ (e : Keys × Value). is_secret_path e.0 && not (is_null e.1))
          (flatten_fields [] config))

  -- `redact_config_snapshot`
  unfoldable pub redact_config_snapshot : Fields → Fields × List Text
  unfolding redact_fields collect_redacted_fields
  redact_config_snapshot config = (redact_fields [] config, collect_redacted_fields config)

  -- The leaves of a configuration, with their paths: the values that are neither mappings nor lists, and
  -- the lists at secret paths. A list at another path counts as an empty one, and its elements follow it
  -- at the path of the list.
  unfoldable mutual
    unfolding is_secret_path

    pub leaves_of_value : Keys → Value → List (Keys × Value)
    leaves_of_value path (dict fs) = leaves_of path fs
    leaves_of_value path (items vs) =
        let inside = leaves_of_items path vs in
        if is_secret_path path then (path, items vs) ∷ [] else (path, items no_items) ∷ inside
    leaves_of_value path null = (path, null) ∷ []
    leaves_of_value path (flag b) = (path, flag b) ∷ []
    leaves_of_value path (int n) = (path, int n) ∷ []
    leaves_of_value path (real r) = (path, real r) ∷ []
    leaves_of_value path (text t) = (path, text t) ∷ []

    pub leaves_of_items : Keys → Values → List (Keys × Value)
    leaves_of_items path no_items = []
    leaves_of_items path (item v vs) = leaves_of_value path v ++ leaves_of_items path vs

    pub leaves_of : Keys → Fields → List (Keys × Value)
    leaves_of path no_fields = []
    leaves_of path (field k v fs) = leaves_of_value (path ++ k ∷ []) v ++ leaves_of path fs

  -- A leaf as redaction should leave it
  abbrev pub masked : Keys × Value → Keys × Value
  masked (path, v) = if is_secret_path path && not (is_null v) then (path, redacted) else (path, v)
