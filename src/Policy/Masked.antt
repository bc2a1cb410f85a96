-- ===== src/Policy/Masked.antt =====
-- What redaction leaves of a configuration: no secret leaf, and everything else.
use comet_l.Prelude.{
  ◌≡◌, ap, sym, refl, true, ◌&&◌, ◌⊎◌, inl, inr, List, [], ◌∷◌, ◌++◌, map, Text, if◌then◌else◌,
  Bool-cases,
}
use comet_l.Policy.Types.{Keys}
use comet_l.Policy.Values.{
  Value, null, flag, int, real, text, items, dict, Values, no_items, item, Fields, no_fields, field,
}
use comet_l.Policy.Redaction.{
  is_secret_path, redacted, redact_value, redact_items, redact_fields, redact_config_snapshot,
  leaves_of_value, leaves_of_items, leaves_of, masked,
}

module _ (lower : Text → Text) where
  map_append :
      (xs ys : List (Keys × Value))
      → map (masked lower) (xs ++ ys) ≡ map (masked lower) xs ++ map (masked lower) ys
  map_append [] ys = refl
  map_append (x ∷ xs) ys = ap (λ zs. masked lower x ∷ zs) (map_append xs ys)

  leaves-scalar :
      (path : Keys) (v : Value)
      → leaves_of_value lower path v ≡ (path, v) ∷ []
      → leaves_of_value lower path (if is_secret_path lower path then redacted else v)
        ≡ (if is_secret_path lower path && true then (path, redacted) else (path, v)) ∷ []
  unfolding leaves_of_value
  leaves-scalar path v e = elim (Bool-cases (is_secret_path lower path)) [
    | inl secret ↦ rw secret refl
    | inr shown ↦ rw shown e
  ]

  mutual
    unfolding redact_value leaves_of_value

    leaves-redact_fields :
        (path : Keys) (fs : Fields)
        → leaves_of lower path (redact_fields lower path fs)
          ≡ map (masked lower) (leaves_of lower path fs)
    leaves-redact_fields path no_fields = refl
    leaves-redact_fields path (field k v fs) =
        rw (leaves-redact_value (path ++ k ∷ []) v, leaves-redact_fields path fs)
          (sym (map_append (leaves_of_value lower (path ++ k ∷ []) v) (leaves_of lower path fs)))

    leaves-redact_items :
        (path : Keys) (vs : Values)
        → leaves_of_items lower path (redact_items lower path vs)
          ≡ map (masked lower) (leaves_of_items lower path vs)
    leaves-redact_items path no_items = refl
    leaves-redact_items path (item v vs) =
        rw (leaves-redact_value path v, leaves-redact_items path vs)
          (sym (map_append (leaves_of_value lower path v) (leaves_of_items lower path vs)))

    leaves-redact_value :
        (path : Keys) (v : Value)
        → leaves_of_value lower path (redact_value lower path v)
          ≡ map (masked lower) (leaves_of_value lower path v)
    leaves-redact_value path null = elim (Bool-cases (is_secret_path lower path)) [
      | inl secret ↦ rw secret refl
      | inr shown ↦ rw shown refl
    ]
    leaves-redact_value path (flag b) = leaves-scalar path (flag b) refl
    leaves-redact_value path (int n) = leaves-scalar path (int n) refl
    leaves-redact_value path (real r) = leaves-scalar path (real r) refl
    leaves-redact_value path (text t) = leaves-scalar path (text t) refl
    leaves-redact_value path (items vs) = elim (Bool-cases (is_secret_path lower path)) [
      | inl secret ↦ rw (secret, secret) refl
      | inr shown ↦
          rw (shown, shown) (ap (λ ls. (path, items no_items) ∷ ls) (leaves-redact_items path vs))
    ]
    leaves-redact_value path (dict fs) = leaves-redact_fields path fs

  -- The leaves of the redacted snapshot are those of the configuration at the same paths in the same
  -- order, also inside lists: those at secret paths become the mark unless they are null, and all others
  -- are as they were. A mapping is no leaf, also at a secret path.
  pub redact_config_snapshot-leaves_of :
      (config : Fields)
      → leaves_of lower [] (redact_config_snapshot lower config).0
        ≡ map (masked lower) (leaves_of lower [] config)
  unfolding redact_config_snapshot
  redact_config_snapshot-leaves_of config = leaves-redact_fields [] config

  -- At a secret path the leaf is null or the mark.
  abbrev pub IsHidden : Keys × Value → Type 0
  IsHidden (path, v) = is_secret_path lower path ≡ true → (v ≡ null) ⊎ (v ≡ redacted)
