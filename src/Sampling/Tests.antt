-- ===== src/Sampling/Tests.antt =====
-- Samples of concrete methods, and the theorems at such inputs.
use comet_l.Prelude.{
  ℕ, zero, suc, ◌≤◌, ◌<◌, ◌≡◌, ap, refl, Bool, true, false, Option, none, some, List, [], ◌∷◌, map,
  Text, codes, All, length, arith,
}
use comet_l.Sampling.Types.{StudyMethod, Generator}
use comet_l.Sampling.Discovery.{MethodInfo, Project, discover_cold_start_methods}
use comet_l.Sampling.Queue.{build_cold_start_candidate_queue, sample_cold_start_methods}
use comet_l.Sampling.Parts.{IsGenerator}
use comet_l.Sampling.Once.{HasOnce, HasOrders, build_cold_start_candidate_queue_total}

abbrev numbers_below : ℕ → List ℕ
numbers_below zero = []
numbers_below (suc k) = k ∷ numbers_below k

-- A generator that draws the first numbers
abbrev first_numbers : Generator (Unit {0})
first_numbers = record { sample = λ n k g. (numbers_below k, g) }

length-numbers_below : (k : ℕ) → length (numbers_below k) ≡ k
length-numbers_below zero = refl
length-numbers_below (suc k) = ap suc (length-numbers_below k)

numbers_below-All : (n k : ℕ) → k ≤ n → All (λ i. i < n) (numbers_below k)
numbers_below-All n zero h = tt
numbers_below-All n (suc k) h = (h, numbers_below-All n k (omega arith))

first_numbers-IsGenerator : IsGenerator first_numbers
first_numbers-IsGenerator n k g h = (length-numbers_below k, numbers_below-All n k h)

abbrev method : Text → StudyMethod
method id = record {
  target_id = id;
  class_name = codes "C";
  method_name = id;
  method_signature = id;
  order = 0;
}

abbrev found : List StudyMethod
found = method (codes "a") ∷ method (codes "b") ∷ method (codes "a") ∷ method (codes "c") ∷ []

abbrev ids_of : Option (List StudyMethod) → List Text
ids_of none = []
ids_of (some ms) = map (λ (m : StudyMethod). m.target_id) ms

preferred_first :
    ids_of (build_cold_start_candidate_queue first_numbers (codes "c" ∷ []) found tt)
    ≡ codes "c" ∷ codes "a" ∷ codes "b" ∷ []
unfolding build_cold_start_candidate_queue comet_l.Prelude.text_eq
preferred_first = refl

two_sampled :
    ids_of (sample_cold_start_methods first_numbers 2 [] found tt) ≡ codes "a" ∷ codes "b" ∷ []
unfolding sample_cold_start_methods comet_l.Prelude.text_eq
two_sampled = refl

abbrev info : Text → Text → Option (ℕ × ℕ) → MethodInfo
info c name range = record { class_name = c; name = name; signature = codes "int "; range = range }

abbrev project : Project
project = record {
  digest = λ s. codes "0";
  classes = codes "B" ∷ codes "A" ∷ [];
  find_java_file = λ c. some c;
  is_interface = λ file c. false;
  get_public_methods = λ file. some (
      info file (codes "m") (some (3, 9))
      ∷ info file (codes "n") (some (3, 4))
      ∷ info (codes "X") (codes "o") none
      ∷ []);
}

long_methods :
    map (λ (m : StudyMethod). m.class_name) (discover_cold_start_methods project 3)
    ≡ codes "A" ∷ codes "B" ∷ []
unfolding discover_cold_start_methods comet_l.Prelude.text_lt comet_l.Prelude.text_eq
long_methods = refl

build_cold_start_candidate_queue_total_example :
    (queue : List StudyMethod) × (build_cold_start_candidate_queue first_numbers
        (codes "c" ∷ [])
        found
        tt
      ≡ some queue)
    × HasOnce found queue
    × HasOrders 0 queue
build_cold_start_candidate_queue_total_example =
    build_cold_start_candidate_queue_total first_numbers first_numbers-IsGenerator (codes "c" ∷ [])
      found tt
