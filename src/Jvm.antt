-- ===== src/Jvm.antt =====
-- JVM method descriptors (comet/executor/jvm_descriptors.py). A position in the descriptor is
-- modelled by the text that is left from there; the index that a failing call returns is dropped,
-- since every caller drops it.
mod Types
mod Names
mod Complete
mod Sound
mod Tests
use mathlib.Core.Option
use comet_l.Prelude.{
  ℕ, zero, suc, ◌+◌, Option, none, some, List, [], ◌∷◌, ◌++◌, map, Text, codes, length, ◌==◌,
  if◌then◌else◌,
}

-- `_JVM_PRIMITIVE_TYPES.get(c)`
pub primitive_type : ℕ → Option Text
primitive_type c =
    if c == b'B'
    then some (codes "byte")
    else if c == b'C'
    then some (codes "char")
    else if c == b'D'
    then some (codes "double")
    else if c == b'F'
    then some (codes "float")
    else if c == b'I'
    then some (codes "int")
    else if c == b'J'
    then some (codes "long")
    else if c == b'S'
    then some (codes "short")
    else if c == b'Z'
    then some (codes "boolean")
    else if c == b'V'
    then some (codes "void")
    else none

-- The `while` over the opening brackets: their number, and what follows.
pub brackets : ℕ → Text → ℕ × Text
brackets depth [] = (depth, [])
brackets depth (c ∷ s) = if c == b'[' then brackets (depth + 1) s else (depth, c ∷ s)

-- `descriptor.find(";", index)`: what stands before the first semicolon, and what stands after.
pub split_semicolon : Text → Option (Text × Text)
split_semicolon [] = none
split_semicolon (c ∷ s) =
    if c == b';' then some ([], s) else Option.map (λ p. (c ∷ p.0, p.1)) (split_semicolon s)

-- `s.split("/")[-1]`, with the segment read so far.
pub last_segment : Text → Text → Text
last_segment segment [] = segment
last_segment segment (c ∷ s) = last_segment (if c == b'/' then [] else segment ++ c ∷ []) s

-- `s.replace("$", ".")`
pub dollars_to_dots : Text → Text
dollars_to_dots = map (λ c. if c == b'$' then b'.' else c)

-- `"[]" * array_depth`
pub array_suffix : ℕ → Text
array_suffix zero = []
array_suffix (suc depth) = codes "[]" ++ array_suffix depth

-- `parse_descriptor_type` behind the brackets.
pub parse_base_type : ℕ → Text → Option (Text × Text)
parse_base_type depth [] = none
parse_base_type depth (c ∷ s) =
    if c == b'L'
    then elim (split_semicolon s) [
      | none ↦ none
      | some (name, rest) ↦
          some (dollars_to_dots (last_segment [] name) ++ array_suffix depth, rest)
    ]
    else elim (primitive_type c) [
      | none ↦ none
      | some base_type ↦ some (base_type ++ array_suffix depth, s)
    ]

-- The type at the front, and the text after it.
pub parse_descriptor_type : Text → Option (Text × Text)
parse_descriptor_type s = let (depth, rest) = brackets 0 s in parse_base_type depth rest

-- How the loop over the parameters ends.
pub data Parameters : Type 0 where
  stopped : List Text → Text → Parameters
  malformed : Parameters
  out_of_fuel : Parameters

pub parse_parameters : ℕ → Text → List Text → Parameters
parse_parameters zero s types = out_of_fuel
parse_parameters (suc fuel) [] types = stopped types []
parse_parameters (suc fuel) (c ∷ s) types =
    if c == b')' then stopped types (c ∷ s) else elim (parse_descriptor_type (c ∷ s)) [
      | none ↦ malformed
      | some (type, rest) ↦ parse_parameters fuel rest (types ++ type ∷ [])
    ]

abbrev failed : List Text × Option Text
failed = ([], none)

-- The return type after the closing bracket, which must end the descriptor.
pub parse_return : List Text → Text → List Text × Option Text
parse_return types s = elim (parse_descriptor_type s) [
  | none ↦ failed
  | some (type, []) ↦ (types, some type)
  | some (type, c ∷ rest) ↦ failed
]

-- What stands after the parameters.
pub parse_closing : Parameters → List Text × Option Text
parse_closing (stopped types []) = failed
parse_closing (stopped types (c ∷ s)) = if c == b')' then parse_return types s else failed
parse_closing malformed = failed
parse_closing out_of_fuel = failed

pub parse_method_descriptor : Text → List Text × Option Text
parse_method_descriptor [] = failed
parse_method_descriptor (c ∷ s) =
    if c == b'(' then parse_closing (parse_parameters (suc (length s)) s []) else failed

-- `", ".join(types)`
pub join_commas : List Text → Text
join_commas [] = []
join_commas (t ∷ []) = t
join_commas (t ∷ u ∷ ts) = t ++ (codes ", " ++ join_commas (u ∷ ts))

render_signature : Text → List Text × Option Text → Option Text
render_signature name (types, none) = none
render_signature name (types, some return_type) =
    some (return_type ++ (codes " " ++ (name ++ (codes "(" ++ (join_commas types ++ codes ")")))))

pub build_method_signature : Text → Option Text → Option Text
build_method_signature name none = none
build_method_signature name (some []) = none
build_method_signature name (some (c ∷ s)) = render_signature name (parse_method_descriptor (c ∷ s))
