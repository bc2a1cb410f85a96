-- ===== src/Policy/Values.antt =====
-- The values of a submitted or dumped configuration (JSON or YAML), and its paths.
use comet_l.Prelude.{Bool, true, false, ◌&&◌, List, [], ◌∷◌, ◌++◌, Text, codes, text_eq, any_of}
use comet_l.Policy.Types.{ℤ, Keys}

mutual
  pub data Value : Type 0 where
    null : Value
    flag : Bool → Value
    int : ℤ → Value
    real : Text → Value  -- a float, by its literal
    text : Text → Value
    items : Values → Value
    dict : Fields → Value

  pub data Values : Type 0 where
    no_items : Values
    item : Value → Values → Values

  pub data Fields : Type 0 where
    no_fields : Fields
    field : Text → Value → Fields → Fields

-- `path == other` on paths
unfoldable pub same_keys : Keys → Keys → Bool
same_keys [] [] = true
same_keys [] (l ∷ q) = false
same_keys (k ∷ p) [] = false
same_keys (k ∷ p) (l ∷ q) = text_eq k l && same_keys p q

-- `path in paths`
abbrev pub contains_keys : Keys → List Keys → Bool
contains_keys path = any_of (same_keys path)

-- `_format_path`
unfoldable pub format_path : Keys → Text
format_path [] = []
format_path (k ∷ []) = k
format_path (k ∷ l ∷ path) = k ++ codes "." ++ format_path (l ∷ path)

unfoldable mutual
  -- `_flatten_mapping`: the values that are no mappings, with their paths
  pub flatten_fields : Keys → Fields → List (Keys × Value)
  flatten_fields prefix no_fields = []
  flatten_fields prefix (field k v rest) =
      flatten_value (prefix ++ k ∷ []) v ++ flatten_fields prefix rest

  pub flatten_value : Keys → Value → List (Keys × Value)
  flatten_value path null = (path, null) ∷ []
  flatten_value path (flag b) = (path, flag b) ∷ []
  flatten_value path (int n) = (path, int n) ∷ []
  flatten_value path (real r) = (path, real r) ∷ []
  flatten_value path (text t) = (path, text t) ∷ []
  flatten_value path (items vs) = (path, items vs) ∷ []
  flatten_value path (dict fs) = flatten_fields path fs
