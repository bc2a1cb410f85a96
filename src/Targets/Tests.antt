-- ===== src/Targets/Tests.antt =====
-- Selections from a small project, and the theorems at it.
use comet_l.Prelude.{
  ℕ, ◌≡◌, refl, Bool, true, false, Option, none, some, List, [], ◌∷◌, ◌++◌, Text, codes, contains,
  All, inl,
}
use comet_l.MethodKeys.{build_method_key}
use comet_l.Targets.Types.{
  Method, described, Selector, mutations, random, coverage, chosen, nothing,
}
use comet_l.Targets.Methods.{get_public_methods, get_all_classes, method_key}
use comet_l.Targets.Strategies.{select, select_by_mutations, target_of}
use comet_l.Targets.Allowed.{Allowed}
use comet_l.Targets.ByKillrate.{IsSignedSelector}
use comet_l.Targets.Chosen.{select-Allowed}
use comet_l.Targets.Complete.{AllOfferedRuledOut, select-nothing}

abbrev add : Method
add = described (codes "Calculator") (codes "add") (some (codes "int add(int, int)")) (some (3, 9))

abbrev div : Method
div =
    described (codes "Calculator") (codes "div") (some (codes "int div(int, int)")) (some (11, 19))

abbrev getter : Method
getter = described (codes "Calculator") (codes "last") (some (codes "int last()")) (some (21, 23))

abbrev methods_in : Text → Option (List Method)
methods_in c = some (add ∷ div ∷ getter ∷ [])

abbrev project : Selector
project = record {
  java_classes = codes "Calculator" ∷ codes "Shape" ∷ [];
  class_mappings = (codes "Shape", true) ∷ [];
  public_methods = methods_in;
  coverage_rows =
      record {
        class_name = codes "Calculator";
        method_name = codes "div";
        method_signature = some (codes "int div(int, int)");
        iteration = 1;
        line_coverage_rate = 25;
      }
      ∷ [];
  mutant_classes = [];
  test_classes = [];
  mutant_groups = [];
  digest = λ t. t;
  low_threshold = 80;
  min_method_lines = 5;
  mutation_enabled = true;
  class_cache = none;
}

abbrev key_of : Method → Text
key_of m = method_key project (codes "Calculator") m

classes_test : get_all_classes project ≡ codes "Calculator" ∷ []
unfolding get_all_classes comet_l.Prelude.text_eq
classes_test = refl

methods_test : get_public_methods project (codes "Calculator") ≡ add ∷ div ∷ []
unfolding get_public_methods comet_l.Prelude.text_eq
methods_test = refl

project_IsSigned : IsSignedSelector project
project_IsSigned = record { coverage_signed = (tt, tt); mutants_signed = tt }

mutations_test :
    select 0 project mutations (key_of add ∷ []) [] false
    ≡ chosen (target_of mutations (codes "Calculator") div)
unfolding select comet_l.Prelude.text_eq build_method_key
mutations_test = refl

-- A method is left, and the class is taken for processed by its first method.
random_test : select 0 project random [] (key_of add ∷ []) true ≡ nothing
unfolding select comet_l.Prelude.text_eq build_method_key
random_test = refl

select-Allowed_example :
    Allowed project (key_of add ∷ []) [] true (select 0 project coverage (key_of add ∷ []) [] true)
select-Allowed_example =
    select-Allowed project (key_of add ∷ []) [] 0 coverage true project_IsSigned

select-nothing_example : AllOfferedRuledOut project (key_of add ∷ key_of div ∷ []) [] false
unfolding select_by_mutations comet_l.Prelude.text_eq build_method_key
select-nothing_example = select-nothing project (key_of add ∷ key_of div ∷ []) [] false (inl refl)
