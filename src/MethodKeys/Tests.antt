-- ===== src/MethodKeys/Tests.antt =====
-- Keys of a few methods, and the theorems at them.
use comet_l.Prelude.{◌≡◌, refl, none, some, Text, codes}
use comet_l.MethodKeys.{
  normalize_method_signature, strip_generic_arguments, build_method_key, build_test_class_name,
}
use comet_l.MethodKeys.Spaces.{build_method_key-normalize}

abbrev plain : Text → Text
plain t = t

normalize_test :
    normalize_method_signature (some (codes "  int  f( int a)")) ≡ some (codes "int f( int a)")
unfolding normalize_method_signature
normalize_test = refl

blank_test : normalize_method_signature (some (codes "  ")) ≡ none
unfolding normalize_method_signature
blank_test = refl

strip_test : strip_generic_arguments 0 (codes "Map<K, List<V>>[]") ≡ codes "Map[]"
unfolding strip_generic_arguments
strip_test = refl

key_test :
    build_method_key plain (codes "A") (codes "f") (some (codes "int  f()")) ≡ codes "A.f#intf()"
unfolding build_method_key
key_test = refl

test_name_test : build_test_class_name plain (codes "A$B") (codes "f") none ≡ codes "A_B_fTest"
unfolding build_test_class_name
test_name_test = refl

build_method_key-normalize_example :
    build_method_key plain
      (codes "A")
      (codes "f")
      (normalize_method_signature (some (codes " int  f()")))
    ≡ build_method_key plain (codes "A") (codes "f") (some (codes " int  f()"))
build_method_key-normalize_example =
    build_method_key-normalize plain (codes "A") (codes "f") (some (codes " int  f()"))
