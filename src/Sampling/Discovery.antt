-- ===== src/Sampling/Discovery.antt =====
-- `discover_cold_start_methods`: the public methods of the classes that are no interfaces.
use comet_l.Prelude.{
  ℕ, ◌+◌, Bool, true, false, not, ◌||◌, Option, none, some, List, [], ◌∷◌, ◌++◌, Text, codes,
  text_eq, text_lt, sort_by, ltb, if◌then◌else◌,
}
use comet_l.MethodKeys.{build_method_key}
use comet_l.Sampling.Types.{StudyMethod, before_method}

-- `MethodRecord`; an absent text is the empty one, and the range is its first and its last line.
pub record MethodInfo : Type 0 where
  pub class_name : Text
  pub name : Text
  pub signature : Text
  pub range : Option (ℕ × ℕ)

-- What the discovery reads: the classes, their files, whether a class is an interface in its file,
-- and the public methods of a file, or `none` where the executor raises.
pub record Project : Type 0 where
  pub digest : Text → Text
  pub classes : List Text
  pub find_java_file : Text → Option Text
  pub is_interface : Text → Text → Bool
  pub get_public_methods : Text → Option (List MethodInfo)

-- `_method_line_count(method) < min_method_lines`, where there is a range
abbrev pub is_too_short : ℕ → MethodInfo → Bool
is_too_short min_lines m = elim m.range [
  | none ↦ false
  | some (first, last) ↦ ltb (last + 1) (min_lines + first)
]

-- `method.get("signature") or f"public void {method_name}()"`
abbrev signature_of : MethodInfo → Text
signature_of m = elim m.signature [
  | [] ↦ codes "public void " ++ m.name ++ codes "()"
  | c ∷ s ↦ c ∷ s
]

abbrev study_method : (Text → Text) → Text → MethodInfo → StudyMethod
study_method digest c m = record {
  target_id = build_method_key digest c m.name (some (signature_of m));
  class_name = c;
  method_name = m.name;
  method_signature = signature_of m;
  order = 0;
}

abbrev has_name : MethodInfo → Bool
has_name m = elim m.name [ [] ↦ false | c ∷ n ↦ true ]

-- The loop over the methods of a class
unfoldable pub class_methods : (Text → Text) → ℕ → Text → List MethodInfo → List StudyMethod
unfolding build_method_key
class_methods digest min_lines c [] = []
class_methods digest min_lines c (m ∷ ms) =
    let rest = class_methods digest min_lines c ms in
    if not (text_eq m.class_name c) || not (has_name m) || is_too_short min_lines m
    then rest
    else study_method digest c m ∷ rest

-- The methods of a class
unfoldable pub methods_of_class : Project → ℕ → Text → List StudyMethod
unfolding class_methods
methods_of_class p min_lines c = elim (p.find_java_file c) [
  | none ↦ []
  | some file ↦ if p.is_interface file c then [] else elim (p.get_public_methods file) [
    | none ↦ []
    | some methods ↦ class_methods p.digest min_lines c methods
  ]
]

-- The loop over the classes
unfoldable pub methods_of_classes : Project → ℕ → List Text → List StudyMethod
unfolding methods_of_class
methods_of_classes p min_lines [] = []
methods_of_classes p min_lines (c ∷ cs) =
    methods_of_class p min_lines c ++ methods_of_classes p min_lines cs

-- `discover_cold_start_methods`
unfoldable pub discover_cold_start_methods : Project → ℕ → List StudyMethod
unfolding methods_of_classes sort_by
discover_cold_start_methods p min_lines =
    sort_by before_method (methods_of_classes p min_lines (sort_by text_lt p.classes))
