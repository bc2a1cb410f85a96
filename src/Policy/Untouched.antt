-- ===== src/Policy/Untouched.antt =====
-- An uploaded configuration does not reach the deployment's own settings.
use comet_l.Prelude.{
  ◌≡◌, ◌∙◌, refl, false, Option, none, some, List, [], ◌∷◌, ◌++◌, Text, codes, text_eq, text_eq_iff,
  All, All-append, arith,
}
use comet_l.Policy.Types.{Deployment, Annotations, Keys, Checked, accepted, refused, not_a_mapping}
use comet_l.Policy.Values.{
  Value, null, flag, int, real, text, items, dict, Fields, no_fields, field, flatten_fields,
  flatten_value,
}
use comet_l.Policy.Bounds.{Accepts}
use comet_l.Policy.Uploads.{
  Schema, lookup_field, insert_field, erase_field, rename_budget, normalize_submitted_config,
  child_fields, set_path, judge_field, place_field, place_fields,
}

module _ (key : Text) where
  lookup-insert_ne :
      (k : Text) (v : Value) (fs : Fields)
      → text_eq k key ≡ false
      → lookup_field key (insert_field k v fs) ≡ lookup_field key fs
  unfolding lookup_field insert_field
  lookup-insert_ne k v no_fields h = ground arith
  lookup-insert_ne k v (field j w fs) h =
      ground (arith, text_eq_iff j k, text_eq_iff j key, text_eq_iff k key, lookup-insert_ne k v fs)

  lookup-erase : (fs : Fields) → lookup_field key (erase_field key fs) ≡ none
  unfolding lookup_field erase_field
  lookup-erase no_fields = refl
  lookup-erase (field k v fs) = ground (arith, lookup-erase fs)

  -- A field that is set has the value that it had.
  abbrev Keeps : Fields → Option Fields → Type 0
  Keeps tree none = Unit
  Keeps tree (some tree') = lookup_field key tree' ≡ lookup_field key tree

  set_path-Keeps :
      (k : Text) (path : Keys) (v : Value) (tree : Fields)
      → text_eq k key ≡ false
      → Keeps tree (set_path (k ∷ path) v tree)
  unfolding set_path
  set_path-Keeps k [] v tree h = lookup-insert_ne k v tree h
  set_path-Keeps k (l ∷ path) v tree h = child (child_fields (lookup_field k tree))
    where
      inside :
          (o : Option Fields)
          → Keeps tree (elim o as (λ _. Option Fields) [
            | none ↦ none
            | some inner ↦ some (insert_field k (dict inner) tree)
          ])
      inside none = tt
      inside (some inner) = lookup-insert_ne k (dict inner) tree h

      child :
          (o : Option Fields)
          → Keeps tree (elim o as (λ _. Option Fields) [
            | none ↦ none
            | some inner ↦ elim (set_path (l ∷ path) v inner) [
              | none ↦ none
              | some inner' ↦ some (insert_field k (dict inner') tree)
            ]
          ])
      child none = tt
      child (some inner) = inside (set_path (l ∷ path) v inner)

  -- The path starts with another key.
  abbrev pub IsAway : Keys × Value → Type 0
  IsAway ([], v) = ⊥
  IsAway (k ∷ path, v) = text_eq k key ≡ false

  mutual
    unfolding flatten_fields

    flatten_fields-IsAway :
        (k : Text) (path : Keys) (fs : Fields)
        → text_eq k key ≡ false
        → All IsAway (flatten_fields (k ∷ path) fs)
    flatten_fields-IsAway k path no_fields h = tt
    flatten_fields-IsAway k path (field j v fs) h =
        All-append IsAway (flatten_value (k ∷ path ++ j ∷ []) v) (flatten_fields (k ∷ path) fs)
          (flatten_value-IsAway k (path ++ j ∷ []) v h) (flatten_fields-IsAway k path fs h)

    flatten_value-IsAway :
        (k : Text) (path : Keys) (v : Value)
        → text_eq k key ≡ false
        → All IsAway (flatten_value (k ∷ path) v)
    flatten_value-IsAway k path null h = (h, tt)
    flatten_value-IsAway k path (flag b) h = (h, tt)
    flatten_value-IsAway k path (int n) h = (h, tt)
    flatten_value-IsAway k path (real r) h = (h, tt)
    flatten_value-IsAway k path (text t) h = (h, tt)
    flatten_value-IsAway k path (items vs) h = (h, tt)
    flatten_value-IsAway k path (dict fs) h = flatten_fields-IsAway k path fs h

  pub flatten-IsAway :
      (fs : Fields) → lookup_field key fs ≡ none → All IsAway (flatten_fields [] fs)
  unfolding flatten_fields lookup_field
  flatten-IsAway no_fields h = tt
  flatten-IsAway (field k v fs) h =
      All-append IsAway (flatten_value (k ∷ []) v) (flatten_fields [] fs)
        (flatten_value-IsAway k [] v (ground arith)) (flatten-IsAway fs (ground arith))

  module _ {ℓ} {R : Type ℓ} (schema : Schema R) (d : Deployment) where
    -- The field is as it was in the tree.
    abbrev KeptIn : Fields → Fields × Annotations → Type 0
    KeptIn tree r = lookup_field key r.0 ≡ lookup_field key tree

    place_field-KeptIn :
        (path : Keys) (v : Value) (tree : Fields) (annotations : Annotations)
        → IsAway (path, v)
        → Accepts (KeptIn tree) (place_field schema d path v (tree, annotations))
    unfolding place_field
    place_field-KeptIn [] v tree annotations away = absurd away
    place_field-KeptIn (k ∷ path) v tree annotations away =
        judged (judge_field schema d (k ∷ path) v annotations)
      where
        set :
            (w : Value) (noted : Annotations) (o : Option Fields)
            → Keeps tree o
            → Accepts (KeptIn tree) (elim o as (λ _. Checked (Fields × Annotations)) [
              | none ↦ refused not_a_mapping
              | some tree' ↦ accepted (tree', noted)
            ])
        set w noted none h = tt
        set w noted (some tree') h = h

        judged :
            (j : Checked (Option Value × Annotations))
            → Accepts (KeptIn tree) (elim j as (λ _. Checked (Fields × Annotations)) [
              | refused e ↦ refused e
              | accepted (none, noted) ↦ accepted (tree, noted)
              | accepted (some w, noted) ↦ elim (set_path (k ∷ path) w tree) [
                | none ↦ refused not_a_mapping
                | some tree' ↦ accepted (tree', noted)
              ]
            ])
        judged (refused e) = tt
        judged (accepted (none, noted)) = refl
        judged (accepted (some w, noted)) =
            set w noted (set_path (k ∷ path) w tree) (set_path-Keeps k path w tree away)

    pub place_fields-KeptIn :
        (entries : List (Keys × Value)) (tree : Fields) (annotations : Annotations)
        → All IsAway entries
        → Accepts (KeptIn tree) (place_fields schema d entries (tree, annotations))
    unfolding place_fields
    place_fields-KeptIn [] tree annotations h = refl
    place_fields-KeptIn ((path, v) ∷ rest) tree annotations h =
        next (λ tree' noted. place_fields-KeptIn rest tree' noted h.1)
          (place_field schema d path v (tree, annotations))
          (place_field-KeptIn path v tree annotations h.0)
      where
        kept :
            (tree' : Fields) (r : Checked (Fields × Annotations))
            → lookup_field key tree' ≡ lookup_field key tree
            → Accepts (KeptIn tree') r
            → Accepts (KeptIn tree) r
        kept tree' (accepted r) e k = k ∙ e
        kept tree' (refused x) e k = tt

        next :
            ((tree' : Fields) (noted : Annotations)
              → Accepts (KeptIn tree') (place_fields schema d rest (tree', noted)))
            → (c : Checked (Fields × Annotations)) → Accepts (KeptIn tree) c
            → Accepts (KeptIn tree) (elim c as (λ _. Checked (Fields × Annotations)) [
              | refused e ↦ refused e
              | accepted done ↦ place_fields schema d rest done
            ])
        next others (refused e) k = tt
        next others (accepted (tree', noted)) k =
            kept tree' (place_fields schema d rest (tree', noted)) k (others tree' noted)

pub normalize-deployment :
    (submitted : Fields)
    → lookup_field (codes "deployment") (normalize_submitted_config submitted) ≡ none
unfolding normalize_submitted_config text_eq
normalize-deployment submitted =
    go (lookup_field (codes "evolution") (erase_field (codes "deployment") submitted))
  where
    erased : Fields
    erased = erase_field (codes "deployment") submitted

    go :
        (o : Option Value)
        → lookup_field (codes "deployment") (elim o as (λ _. Fields) [
          | some (dict evolution) ↦
              insert_field (codes "evolution") (dict (rename_budget evolution)) erased
          | _ ↦ erased
        ])
          ≡ none
    go none = lookup-erase (codes "deployment") submitted
    go (some null) = lookup-erase (codes "deployment") submitted
    go (some (flag b)) = lookup-erase (codes "deployment") submitted
    go (some (int n)) = lookup-erase (codes "deployment") submitted
    go (some (real r)) = lookup-erase (codes "deployment") submitted
    go (some (text t)) = lookup-erase (codes "deployment") submitted
    go (some (items vs)) = lookup-erase (codes "deployment") submitted
    go (some (dict evolution)) =
        lookup-insert_ne (codes "deployment") (codes "evolution") (dict (rename_budget evolution))
          erased refl
        ∙ lookup-erase (codes "deployment") submitted
