-- ===== src/Jvm/Types.antt =====
-- A grammar of descriptors, and the Java names of its types, written down apart from the parser. It is that
-- of the JVM (specification 4.3), but wider where the parser is: `void` may stand as a parameter and in an
-- array, and the parts of a class name are any texts without the separators `/`, `;` and `$`.
use comet_l.Prelude.{ℕ, ◌≢◌, List, [], ◌∷◌, ◌++◌, Text, codes, All, length, ◌≤◌, arith}

pub data Base : Type 0 where
  byte char double float int long short boolean void : Base

-- The letter of a primitive type in a descriptor
abbrev pub letter : Base → ℕ
letter byte = b'B'
letter char = b'C'
letter double = b'D'
letter float = b'F'
letter int = b'I'
letter long = b'J'
letter short = b'S'
letter boolean = b'Z'
letter void = b'V'

-- The keyword of a primitive type in Java's source
abbrev pub keyword : Base → Text
keyword byte = codes "byte"
keyword char = codes "char"
keyword double = codes "double"
keyword float = codes "float"
keyword int = codes "int"
keyword long = codes "long"
keyword short = codes "short"
keyword boolean = codes "boolean"
keyword void = codes "void"

-- A class by its packages, its outermost class and the classes nested in that
pub data FieldType : Type 0 where
  primitive : Base → FieldType
  object : (packages : List Text) (outer : Text) (nested : List Text) → FieldType
  array : FieldType → FieldType

-- A character that may stand in a package's name
abbrev pub IsPackageChar : ℕ → Type 0
IsPackageChar c = (c ≢ b'/') × (c ≢ b';')

-- A character that may stand in a class's simple name
abbrev pub IsNameChar : ℕ → Type 0
IsNameChar c = (c ≢ b'/') × (c ≢ b';') × (c ≢ b'$')

-- No separator stands in a part of a class name.
abbrev pub IsFieldType : FieldType → Type 0
IsFieldType (primitive base) = Unit
IsFieldType (object packages outer nested) =
    All (All IsPackageChar) packages × All IsNameChar outer × All (All IsNameChar) nested
IsFieldType (array t) = IsFieldType t

-- A class and those nested in it, with a separator between them
abbrev pub joined : ℕ → Text → List Text → Text
joined c name [] = name
joined c name (m ∷ ms) = name ++ c ∷ joined c m ms

-- The binary name of a class: each package ends with a slash, and nested classes follow a dollar.
abbrev pub binary_name : List Text → Text → List Text → Text
binary_name [] outer nested = joined b'$' outer nested
binary_name (p ∷ ps) outer nested = p ++ b'/' ∷ binary_name ps outer nested

unfoldable pub encode : FieldType → Text
encode (primitive base) = letter base ∷ []
encode (object packages outer nested) = b'L' ∷ (binary_name packages outer nested ++ b';' ∷ [])
encode (array t) = b'[' ∷ encode t

unfoldable pub encode_all : List FieldType → Text
encode_all [] = []
encode_all (t ∷ ts) = encode t ++ encode_all ts

-- The source's name of a type: a keyword, a class with dots before the nested classes and without its
-- packages, and a pair of brackets for each `array`.
unfoldable pub java_name : FieldType → Text
java_name (primitive base) = keyword base
java_name (object packages outer nested) = joined b'.' outer nested
java_name (array t) = java_name t ++ codes "[]"

-- The descriptor of a method.
unfoldable pub encode_method : List FieldType → FieldType → Text
encode_method parameters result = b'(' ∷ (encode_all parameters ++ b')' ∷ encode result)

pub length-encode_pos : (t : FieldType) → 1 ≤ length (encode t)
unfolding encode
length-encode_pos (primitive base) = omega arith
length-encode_pos (object packages outer nested) = omega arith
length-encode_pos (array t) = omega arith
