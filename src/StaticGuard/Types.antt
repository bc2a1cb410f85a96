-- ===== src/StaticGuard/Types.antt =====
-- Mutants before their validation, the guard's state, and the operations that it calls.
use comet_l.Prelude.{ℕ, Bool, Option, List, Text, Dict}

-- The statuses that a validation reads or writes
pub data Validity : Type 0 where
  pending valid invalid : Validity

-- The fields of `Mutant` and its patch that the guard uses
pub record Candidate : Type 0 where
  pub id : Text
  pub line_start : ℕ
  pub line_end : ℕ
  pub mutated_code : Text
  pub status : Validity
  pub compile_error : Option Text

-- A call of the file system or of a compiler; it may raise an exception with a message.
pub data Attempt {ℓ} (A : Type ℓ) : Type ℓ where
  done : A → Attempt A
  raised : Text → Attempt A

pub record Tools {ℓ} (W : Type ℓ) : Type ℓ where
  pub resolve : Text → Text  -- `Path.resolve`
  pub separator : Text  -- `os.pathsep`
  pub lower : Text → Text  -- `str.lower`
  pub split_lines : Text → List Text  -- `splitlines(keepends=True)`
  pub has_pom : Text → W → Bool  -- whether a directory has a `pom.xml`
  pub classes_dir : Text → Text  -- the directory `target/classes` of a project
  pub exists : Text → W → Bool
  pub dependency_jars : Text → W → List Text  -- the jars in `target/dependency`
  pub resolve_maven_classpath : Text → W → Option Text × W
  pub compile_project : Text → W → Bool × W
  pub read_lines : Text → W → Attempt (List Text)  -- `readlines()`
  pub read_text : Text → W → Attempt Text
  -- The mutated lines in a temporary file, and javac on it: its exit code and errors
  pub run_javac : Text → List Text → Option Text → W → Attempt (ℕ × Text) × W
  -- A copy of the project with the mutated file, and its compilation
  pub compile_copy : Text → Text → List Text → W → Attempt Bool × W

pub record Guard {ℓ} (W : Type ℓ) : Type ℓ where
  pub classpaths : Dict (Option Text)  -- `_classpath_cache`
  pub world : W
