-- ===== src/Jvm/Sound.antt =====
-- Accepted texts are descriptors of the grammar, and the loop over the parameters always ends.
use mathlib.Core.List.{append-nil, append_assoc}
use native.Mathlib.Numerals.{add-one}
use comet_l.Prelude.{
  ℕ, zero, suc, ◌<◌, ◌≡◌, ◌≢◌, ap, ◌∙◌, inl, inr, some, List, [], ◌∷◌, ◌++◌, map, Text, codes, All,
  length, length-append, arith, Bool-cases, Option-cases, ◌==◌,
}
use comet_l.Jvm.{
  primitive_type, brackets, split_semicolon, array_suffix, parse_base_type, parse_descriptor_type,
  Parameters, parse_parameters, stopped, malformed, out_of_fuel, parse_return, parse_closing,
  parse_method_descriptor,
}
use comet_l.Jvm.Names.{primitive_type_sound, short_name-binary_name, parts-IsBinaryName}
use comet_l.Jvm.Types.{
  FieldType, primitive, object, array, IsFieldType, encode, encode_all, java_name, encode_method,
  length-encode_pos,
}

split_semicolon_sound :
    (s : Text) {p : Text × Text}
    → split_semicolon s ≡ some p
    → All (λ c. c ≢ b';') p.0 × (s ≡ p.0 ++ b';' ∷ p.1)
unfolding split_semicolon
split_semicolon_sound [] e = cc
split_semicolon_sound (c ∷ s) {p} e = elim (Bool-cases (c == b';')) [
  | inl found ↦ let front : ([], s) ≡ p = ground arith in rw (← front) (tt, ground arith)
  | inr other ↦ elim (Option-cases (split_semicolon s)) [
    | inl missing ↦ absurd (ground arith)
    | inr (q, found) ↦
        let front : (c ∷ q.0, q.1) ≡ p = ground arith in
        let (free, parts) = split_semicolon_sound s found in
        rw (← front) ((ground arith, free), ap (λ (r : Text). c ∷ r) parts)
  ]
]

-- What one type of the grammar at the front of a text gives, behind `depth` brackets.
abbrev IsFront : ℕ → Text → Text → Text → Type 0
IsFront depth s name rest =
    (t : FieldType) × IsFieldType t
    × (s ≡ encode t ++ rest)
    × (name ≡ java_name t ++ array_suffix depth)

parse_base_type_sound :
    (depth : ℕ) (s : Text) {name rest : Text}
    → parse_base_type depth s ≡ some (name, rest)
    → IsFront depth s name rest
unfolding parse_base_type encode java_name
parse_base_type_sound depth [] e = cc
parse_base_type_sound depth (c ∷ s) {name} {rest} e = elim (Bool-cases (c == b'L')) [
  | inl class ↦ elim (Option-cases (split_semicolon s)) [
    | inl missing ↦ absurd (ground arith)
    | inr (p, q) ↦
        let (free, parts) = split_semicolon_sound s q in
        let (packages, outer, nested, hp, ho, hs, whole) = parts-IsBinaryName p.0 free in
        (
          object packages outer nested,
          (hp, ho, hs),
          ground (arith, whole, append_assoc p.0 (b';' ∷ []) rest),
          ground (arith, whole, short_name-binary_name packages outer nested hp ho hs),
        )
  ]
  | inr other ↦ elim (Option-cases (primitive_type c)) [
    | inl missing ↦ absurd (ground arith)
    | inr (base_type, q) ↦
        let (base, at_letter, named) = primitive_type_sound c q in
        (primitive base, tt, ground arith, ground arith)
  ]
]

brackets_sound :
    (s : Text) (depth : ℕ) {name rest : Text}
    → parse_base_type (brackets depth s).0 (brackets depth s).1 ≡ some (name, rest)
    → IsFront depth s name rest
unfolding brackets encode java_name array_suffix
brackets_sound [] depth e = parse_base_type_sound depth [] e
brackets_sound (c ∷ s) depth {name} {rest} e = elim (Bool-cases (c == b'[')) [
  | inl bracket ↦
      let (t, valid, front, named) = brackets_sound s (suc depth) (rw (bracket, add-one) at e) in
      (
        array t,
        valid,
        ground arith,
        ground (arith, append_assoc (java_name t) (codes "[]") (array_suffix depth)),
      )
  | inr other ↦ parse_base_type_sound depth (c ∷ s) (rw other at e)
]

-- An accepted text has a type of the grammar at its front, under the name that is returned.
pub parse_descriptor_type_sound :
    (s : Text) {name rest : Text}
    → parse_descriptor_type s ≡ some (name, rest)
    → (t : FieldType) × IsFieldType t × (s ≡ encode t ++ rest) × (name ≡ java_name t)
unfolding parse_descriptor_type array_suffix
parse_descriptor_type_sound s e =
    let (t, valid, front, named) = brackets_sound s 0 e in
    (t, valid, front, named ∙ append-nil (java_name t))

parse_descriptor_type_shortens :
    (s : Text) {name rest : Text}
    → parse_descriptor_type s ≡ some (name, rest)
    → length rest < length s
parse_descriptor_type_shortens s {name} {rest} e =
    let (t, valid, front, named) = parse_descriptor_type_sound s e in
    omega (arith, ap length front, length-append (encode t) rest, length-encode_pos t)

-- With more fuel than characters the loop over the parameters never runs out of fuel: each
-- round reads at least one character.
pub parse_parameters-ne-out_of_fuel :
    (fuel : ℕ) (s : Text) (types : List Text)
    → length s < fuel
    → parse_parameters fuel s types ≢ out_of_fuel
unfolding parse_parameters
parse_parameters-ne-out_of_fuel zero s types h e = omega arith
parse_parameters-ne-out_of_fuel (suc fuel) [] types h e = cc
parse_parameters-ne-out_of_fuel (suc fuel) (c ∷ s) types h e =
    elim (Option-cases (parse_descriptor_type (c ∷ s))) [
      | inl none_left ↦ ground arith
      | inr (p, found) ↦
          let shorter = parse_descriptor_type_shortens (c ∷ s) found in
          ground (arith, parse_parameters-ne-out_of_fuel fuel p.1 (types ++ p.0 ∷ []) (omega arith))
    ]

-- What the loop has read when it stops.
parse_parameters_sound :
    (fuel : ℕ) (s : Text) (types : List Text) {all_types : List Text} {rest : Text}
    → parse_parameters fuel s types ≡ stopped all_types rest
    → (ts : List FieldType) × All IsFieldType ts
      × (s ≡ encode_all ts ++ rest)
      × (all_types ≡ types ++ map java_name ts)
unfolding parse_parameters encode_all
parse_parameters_sound zero s types e = cc
parse_parameters_sound (suc fuel) [] types e = ([], tt, cc, ground (arith, append-nil types))
parse_parameters_sound (suc fuel) (c ∷ s) types {all_types} {rest} e =
    elim (Bool-cases (c == b')')) [
      | inl closed ↦ ([], tt, ground arith, ground (arith, append-nil types))
      | inr other ↦ elim (Option-cases (parse_descriptor_type (c ∷ s))) [
        | inl missing ↦ absurd (ground arith)
        | inr (p, found) ↦
            let (t, valid, front, named) = parse_descriptor_type_sound (c ∷ s) found in
            let (ts, valids, left, names) =
              parse_parameters_sound fuel p.1 (types ++ p.0 ∷ []) {all_types = all_types}
                {rest = rest} (ground arith) in
            (
              t ∷ ts,
              (valid, valids),
              ground (arith, append_assoc (encode t) (encode_all ts) rest),
              ground (arith, append_assoc types (java_name t ∷ []) (map java_name ts)),
            )
      ]
    ]

parse_return_sound :
    (types : List Text) (s : Text) {all_types : List Text} {r : Text}
    → parse_return types s ≡ (all_types, some r)
    → (t : FieldType) × IsFieldType t × (s ≡ encode t) × (r ≡ java_name t) × (all_types ≡ types)
unfolding parse_return
parse_return_sound types s e = elim (Option-cases (parse_descriptor_type s)) [
  | inl missing ↦ absurd (ground arith)
  | inr ((name, []), found) ↦
      let (t, valid, front, named) = parse_descriptor_type_sound s found in
      (t, valid, front ∙ append-nil (encode t), ground arith, ground arith)
  | inr ((name, c ∷ rest), found) ↦ absurd (ground arith)
]

parse_closing_sound :
    (p : Parameters) {types : List Text} {r : Text}
    → parse_closing p ≡ (types, some r)
    → (read : List Text) × (s : Text) × (p ≡ stopped read (b')' ∷ s))
      × (parse_return read s ≡ (types, some r))
unfolding parse_closing
parse_closing_sound (stopped read []) e = absurd (ground arith)
parse_closing_sound (stopped read (c ∷ s)) e = elim (Bool-cases (c == b')')) [
  | inl closed ↦ (read, s, ground arith, ground arith)
  | inr other ↦ absurd (ground arith)
]
parse_closing_sound malformed e = absurd (ground arith)
parse_closing_sound out_of_fuel e = absurd (ground arith)

-- An accepted text is a descriptor of the grammar, and gives the Java names of its types: the keywords of
-- primitive types, and the names of classes without their packages. The grammar is the JVM's, but `void` is
-- one of its types everywhere, and the parts of a class name are any texts without the separators.
pub parse_method_descriptor_sound :
    (s : Text) {types : List Text} {r : Text}
    → parse_method_descriptor s ≡ (types, some r)
    → (ts : List FieldType) × (t : FieldType) × All IsFieldType ts
      × IsFieldType t
      × (s ≡ encode_method ts t)
      × (types ≡ map java_name ts)
      × (r ≡ java_name t)
unfolding parse_method_descriptor encode_method
parse_method_descriptor_sound [] e = absurd (ground arith)
parse_method_descriptor_sound (c ∷ s) {types} {r} e = elim (Bool-cases (c == b'(')) [
  | inl opened ↦
      let (read, left, stop, returns) =
        parse_closing_sound (parse_parameters (suc (length s)) s []) {types = types} {r = r}
          (ground arith) in
      let (ts, valids, front, names) = parse_parameters_sound (suc (length s)) s [] stop in
      let (t, valid, back, named, all_named) = parse_return_sound read left returns in
      (ts, t, valids, valid, ground arith, all_named ∙ names, named)
  | inr other ↦ absurd (ground arith)
]
