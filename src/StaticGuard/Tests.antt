-- ===== src/StaticGuard/Tests.antt =====
-- The guard on concrete mutants, and the theorems at such inputs.
use comet_l.Prelude.{
  ℕ, ◌≡◌, refl, Bool, true, false, none, some, List, [], ◌∷◌, ◌++◌, Text, codes, arith, text_eq,
  filter_by,
}
use comet_l.StaticGuard.Types.{Candidate, pending, done, raised, Tools, Guard}
use comet_l.StaticGuard.Source.{mutated_lines, mutated_line, mutated_lines-splice}
use comet_l.StaticGuard.Classpath.{build_classpath}
use comet_l.StaticGuard.Validation.{filter_mutants, prepare_classpath}
use comet_l.StaticGuard.Filtering.{is_valid, filter_mutants-is_valid, prepare_classpath-build}

abbrev at_line : ℕ → ℕ → Candidate
at_line first last = record {
  id = codes "m";
  line_start = first;
  line_end = last;
  mutated_code = codes "x";
  status = pending;
  compile_error = none;
}

abbrev source : List Text
source = codes "a" ∷ codes "b" ∷ codes "c" ∷ codes "d" ∷ []

middle :
    mutated_lines (at_line 2 3) source ≡ some (codes "a" ∷ (codes "x" ++ 10 ∷ []) ∷ codes "d" ∷ [])
unfolding mutated_lines
middle = refl

past_the_end : mutated_lines (at_line 5 6) source ≡ none
unfolding mutated_lines
past_the_end = refl

mutated_lines-splice_example :
    mutated_lines (at_line 2 3) source
    ≡ some (codes "a" ∷ mutated_line (at_line 2 3) ∷ codes "d" ∷ [])
mutated_lines-splice_example = mutated_lines-splice (at_line 2 3) source (omega arith)

-- A world says whether the project has compiled classes; javac accepts any source.
abbrev example_tools : Tools Bool
example_tools = record {
  resolve = λ path. path;
  separator = codes ":";
  lower = λ s. s;
  split_lines = λ s. source;
  has_pom = λ dir compiled. true;
  classes_dir = λ root. root ++ codes "/target/classes";
  exists = λ path compiled. compiled;
  dependency_jars = λ root compiled. [];
  resolve_maven_classpath = λ root compiled. (none, compiled);
  compile_project = λ root compiled. (true, true);
  read_lines = λ file compiled. done source;
  read_text = λ file compiled. raised [];
  run_javac = λ file lines classpath compiled. (done (0, []), compiled);
  compile_copy = λ root file lines compiled. (done true, compiled);
}

abbrev fresh : Guard Bool
fresh = record { classpaths = []; world = false }

stale_classpath : (prepare_classpath example_tools (some (codes "p")) fresh).0 ≡ none
unfolding prepare_classpath text_eq
stale_classpath = refl

prepare_classpath-build_example :
    (prepare_classpath example_tools (some (codes "p")) fresh).0
    ≡ (build_classpath example_tools (some (codes "p")) fresh).0
prepare_classpath-build_example = prepare_classpath-build example_tools (codes "p") fresh

filter_mutants-is_valid_example :
    (filter_mutants example_tools
      (at_line 2 3 ∷ at_line 5 6 ∷ [])
      (codes "f")
      (codes "p" ∷ [])
      fresh).1.0
    ≡ filter_by is_valid
        (filter_mutants example_tools
          (at_line 2 3 ∷ at_line 5 6 ∷ [])
          (codes "f")
          (codes "p" ∷ [])
          fresh).0
filter_mutants-is_valid_example =
    filter_mutants-is_valid example_tools (codes "f") (codes "p" ∷ [])
      (at_line 2 3 ∷ at_line 5 6 ∷ []) fresh (refl, (refl, tt))
