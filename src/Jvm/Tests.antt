-- ===== src/Jvm/Tests.antt =====
-- Runs of the parser, and the theorems at concrete descriptors.
use comet_l.Prelude.{◌≡◌, ◌≢◌, refl, none, some, List, [], ◌∷◌, map, codes, All, arith}
use comet_l.Jvm.{
  primitive_type, brackets, split_semicolon, last_segment, dollars_to_dots, array_suffix,
  parse_base_type, parse_descriptor_type, parse_parameters, parse_return, parse_closing,
  parse_method_descriptor, join_commas, render_signature, build_method_signature, out_of_fuel,
}
use comet_l.Jvm.Types.{
  int, void, FieldType, primitive, object, array, IsFieldType, java_name, encode_method,
}
use comet_l.Jvm.Complete.{parse_method_descriptor-encode}
use comet_l.Jvm.Sound.{parse_parameters-ne-out_of_fuel, parse_method_descriptor_sound}

parser : Unit {0}
unfolding primitive_type brackets split_semicolon last_segment dollars_to_dots array_suffix
    parse_base_type parse_descriptor_type parse_parameters parse_return parse_closing
    parse_method_descriptor join_commas render_signature build_method_signature
parser = tt

signature_runs :
    build_method_signature (codes "put") (some (codes "(I[[Ljava/util/Map$Entry;Z)V"))
    ≡ some (codes "void put(int, Map.Entry[][], boolean)")
unfolding parser
signature_runs = refl

unclosed_runs : parse_method_descriptor (codes "(Ljava/util/Map)V") ≡ ([], none)
unfolding parser
unclosed_runs = refl

trailing_runs : parse_method_descriptor (codes "(I)VV") ≡ ([], none)
unfolding parser
trailing_runs = refl

-- `int` and `java.util.Map.Entry[]`
abbrev parameters : List FieldType
parameters =
    primitive int
    ∷ array (object (codes "java" ∷ codes "util" ∷ []) (codes "Map") (codes "Entry" ∷ []))
    ∷ []

descriptor_runs : encode_method parameters (primitive void) ≡ codes "(I[Ljava/util/Map$Entry;)V"
unfolding encode_method comet_l.Jvm.Types.encode_all comet_l.Jvm.Types.encode
descriptor_runs = refl

names_run : map java_name parameters ≡ codes "int" ∷ codes "Map.Entry[]" ∷ []
unfolding java_name
names_run = refl

-- Wider than the specification: `void` is read as a parameter.
void_runs : parse_method_descriptor (codes "(V)V") ≡ (codes "void" ∷ [], some (codes "void"))
unfolding parser
void_runs = refl

parameters-IsFieldType : All IsFieldType parameters
parameters-IsFieldType = ground arith

parse_method_descriptor-encode_example :
    parse_method_descriptor (encode_method parameters (primitive void))
    ≡ (map java_name parameters, some (java_name (primitive void)))
parse_method_descriptor-encode_example =
    parse_method_descriptor-encode parameters (primitive void) parameters-IsFieldType tt

parse_method_descriptor_sound_example :
    (ts : List FieldType) × (t : FieldType) × All IsFieldType ts
    × IsFieldType t
    × (codes "([I)J" ≡ encode_method ts t)
    × (codes "int[]" ∷ [] ≡ map java_name ts)
    × (codes "long" ≡ java_name t)
unfolding parser
parse_method_descriptor_sound_example = parse_method_descriptor_sound (codes "([I)J") refl

parse_parameters-ne-out_of_fuel_example : parse_parameters 4 (codes "[I)") [] ≢ out_of_fuel
parse_parameters-ne-out_of_fuel_example =
    parse_parameters-ne-out_of_fuel 4 (codes "[I)") [] (omega arith)
