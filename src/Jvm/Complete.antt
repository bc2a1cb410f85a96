-- ===== src/Jvm/Complete.antt =====
-- Every descriptor that the grammar builds is parsed to the Java names of its types.
use mathlib.Core.List.{append-nil, append_assoc}
use native.Mathlib.Numerals.{add-one}
use comet_l.Prelude.{
  false, ◌==◌, ℕ, zero, suc, ◌≤◌, ◌<◌, ◌≡◌, ◌≢◌, refl, some, List, [], ◌∷◌, ◌++◌, map, Text, codes,
  All, length, length-append, arith,
}
use comet_l.Jvm.{
  primitive_type, brackets, split_semicolon, array_suffix, parse_base_type, parse_descriptor_type,
  parse_parameters, stopped, parse_return, parse_closing, parse_method_descriptor,
}
use comet_l.Jvm.Names.{binary_name-semicolon, short_name-binary_name}
use comet_l.Jvm.Types.{
  Base, byte, char, double, float, int, long, short, boolean, void, letter, keyword, binary_name,
  FieldType, primitive, object, array, IsFieldType, encode, encode_all, java_name, encode_method,
  length-encode_pos,
}

split_semicolon-append :
    (name rest : Text)
    → All (λ c. c ≢ b';') name
    → split_semicolon ((name ++ b';' ∷ []) ++ rest) ≡ some (name, rest)
unfolding split_semicolon
split_semicolon-append [] rest h = refl
split_semicolon-append (c ∷ name) rest h = ground (arith, split_semicolon-append name rest h.1)

primitive-front :
    (base : Base) (depth : ℕ) (rest : Text)
    → parse_base_type
        (brackets depth (letter base ∷ rest)).0
        (brackets depth (letter base ∷ rest)).1
      ≡ some (keyword base ++ array_suffix depth, rest)
unfolding primitive_type brackets parse_base_type
primitive-front byte depth rest = refl
primitive-front char depth rest = refl
primitive-front double depth rest = refl
primitive-front float depth rest = refl
primitive-front int depth rest = refl
primitive-front long depth rest = refl
primitive-front short depth rest = refl
primitive-front boolean depth rest = refl
primitive-front void depth rest = refl

-- The type behind any number of brackets that were read before it.
brackets-encode :
    (t : FieldType) (depth : ℕ) (rest : Text)
    → IsFieldType t
    → parse_base_type (brackets depth (encode t ++ rest)).0 (brackets depth (encode t ++ rest)).1
      ≡ some (java_name t ++ array_suffix depth, rest)
unfolding encode brackets array_suffix java_name parse_base_type
brackets-encode (primitive base) depth rest h = primitive-front base depth rest
brackets-encode (object packages outer nested) depth rest h =
    rw
      (
        split_semicolon-append (binary_name packages outer nested) rest
            (binary_name-semicolon packages outer nested h.0 h.1 h.2),
        short_name-binary_name packages outer nested h.0 h.1 h.2,
      )
      refl
brackets-encode (array t) depth rest h =
    rw (append_assoc (java_name t) (codes "[]") (array_suffix depth))
      (rw add-one (brackets-encode t (suc depth) rest h))

-- A type of the grammar is read off the front of any text, whatever follows it.
pub parse_descriptor_type-encode :
    (t : FieldType) (rest : Text)
    → IsFieldType t
    → parse_descriptor_type (encode t ++ rest) ≡ some (java_name t, rest)
unfolding parse_descriptor_type
parse_descriptor_type-encode t rest h =
    rw (brackets-encode t 0 rest h) (unfold array_suffix in rw (append-nil (java_name t)))

letter-close : (base : Base) → (letter base == b')') ≡ false
letter-close byte = refl
letter-close char = refl
letter-close double = refl
letter-close float = refl
letter-close int = refl
letter-close long = refl
letter-close short = refl
letter-close boolean = refl
letter-close void = refl

parse_parameters-step :
    (t : FieldType) (fuel : ℕ) (rest : Text) (types : List Text)
    → IsFieldType t
    → parse_parameters (suc fuel) (encode t ++ rest) types
      ≡ parse_parameters fuel rest (types ++ java_name t ∷ [])
unfolding parse_parameters encode
parse_parameters-step (primitive base) fuel rest types h =
    rw (letter-close base, parse_descriptor_type-encode (primitive base) rest h) refl
parse_parameters-step (object packages outer nested) fuel rest types h =
    rw (parse_descriptor_type-encode (object packages outer nested) rest h)
parse_parameters-step (array t) fuel rest types h =
    rw (parse_descriptor_type-encode (array t) rest h)

parse_parameters-encode :
    (ts : List FieldType) (fuel : ℕ) (rest : Text) (types : List Text)
    → length ts < fuel
    → All IsFieldType ts
    → parse_parameters fuel (encode_all ts ++ b')' ∷ rest) types
      ≡ stopped (types ++ map java_name ts) (b')' ∷ rest)
unfolding encode_all
parse_parameters-encode ts zero rest types n h = absurd (omega arith)
parse_parameters-encode [] (suc fuel) rest types n h =
    unfold parse_parameters in rw (append-nil types)
parse_parameters-encode (t ∷ ts) (suc fuel) rest types n h = rw (
  append_assoc (encode t) (encode_all ts) (b')' ∷ rest),
  parse_parameters-step t fuel (encode_all ts ++ b')' ∷ rest) types h.0,
  parse_parameters-encode ts fuel rest (types ++ java_name t ∷ []) (omega arith) h.1,
  append_assoc types (java_name t ∷ []) (map java_name ts),
)

length-le-encode_all : (ts : List FieldType) → length ts ≤ length (encode_all ts)
unfolding encode_all
length-le-encode_all [] = omega arith
length-le-encode_all (t ∷ ts) =
    omega (
      arith,
      length-append (encode t) (encode_all ts),
      length-le-encode_all ts,
      length-encode_pos t,
    )

parse_return-encode :
    (types : List Text) (r : FieldType)
    → IsFieldType r
    → parse_return types (encode r) ≡ (types, some (java_name r))
unfolding parse_return
parse_return-encode types r h =
    let e : parse_descriptor_type (encode r) ≡ some (java_name r, []) =
      rw (append-nil (encode r)) at (parse_descriptor_type-encode r [] h) in
    rw (e, parse_return)

-- Each descriptor of a method that the grammar builds is parsed to the Java names of its types: the
-- keywords of primitive types, and the names of classes without their packages.
pub parse_method_descriptor-encode :
    (ts : List FieldType) (r : FieldType)
    → All IsFieldType ts
    → IsFieldType r
    → parse_method_descriptor (encode_method ts r) ≡ (map java_name ts, some (java_name r))
unfolding encode_method parse_method_descriptor parse_closing
parse_method_descriptor-encode ts r hs h =
    rw (parse_parameters-encode ts _ (encode r) [] (fuel_lem) hs)
      (parse_return-encode (map java_name ts) r h)
  where
    fuel_lem : length ts < suc (length (encode_all ts ++ b')' ∷ encode r))
    fuel_lem =
        omega (arith, length-le-encode_all ts, length-append (encode_all ts) (b')' ∷ encode r))
