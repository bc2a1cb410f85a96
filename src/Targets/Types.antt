-- ===== src/Targets/Types.antt =====
-- What the selector reads, and what it returns.
use comet_l.Prelude.{ℕ, Bool, Option, List, Text}

-- An entry of the list that `JavaExecutor.get_public_methods` returns: a dictionary, or in an old
-- format the name only.
pub data Method : Type 0 where
  described : (class_name name : Text) (signature : Option Text) (range : Option (ℕ × ℕ)) → Method
  bare : Text → Method

-- A row of `method_coverage`; the rate is counted in a unit of which every rate is a multiple.
pub record Coverage : Type 0 where
  pub class_name : Text
  pub method_name : Text
  pub method_signature : Option Text
  pub iteration : ℕ
  pub line_coverage_rate : ℕ

-- A row of the query of `get_method_mutant_stats`: the valid mutants of a method.
pub record MutantGroup : Type 0 where
  pub class_name : Text
  pub method_name : Text
  pub method_signature : Option Text
  pub total : ℕ
  pub killed : ℕ
  pub survived : ℕ

abbrev pub MutantStat : Type 0
MutantStat = MutantGroup

pub record Selector : Type 0 where
  pub java_classes : List Text  -- `get_all_java_classes`
  pub class_mappings : List (Text × Bool)  -- `simple_name`, `is_interface`
  pub public_methods : Text → Option (List Method)  -- none: no file, or the analysis failed
  pub coverage_rows : List Coverage  -- in the order of class and method
  pub mutant_classes : List Text  -- `class_name` of each mutant
  pub test_classes : List Text  -- `target_class` of each test case
  pub mutant_groups : List MutantGroup
  pub digest : Text → Text
  pub low_threshold : ℕ  -- 0.8 in the unit of the rates
  pub min_method_lines : ℕ
  pub mutation_enabled : Bool
  pub class_cache : Option (List Text)

pub data Criteria : Type 0 where
  coverage killrate mutations priority random other : Criteria

pub record Target : Type 0 where
  pub class_name : Text
  pub method_name : Text
  pub method_signature : Option Text
  pub method_info : Option Method
  pub strategy : Criteria

-- What a selection ends with: a target, a dictionary of None, or a ValueError.
pub data Selection : Type 0 where
  chosen : Target → Selection
  nothing value_error : Selection
