-- ===== src/Evaluation/Killed.antt =====
-- What recording the kills of a mutant does to the matrix.
use comet_l.Prelude.{
  ◌≡◌, ◌∙◌, refl, Bool, true, false, List, [], ◌∷◌, ◌++◌, Text, Dict, lookup-insert, contains,
  arith, if◌then◌else◌, text_eq, text_eq_refl,
}
use comet_l.Evaluation.Types.{KillMatrix, add_kill, get_killers}
use comet_l.Evaluation.Builders.{record_kills}

-- The tests that fail, in order and once each, after those that are there.
unfoldable pub killers_from : Dict Bool → List Text → List Text
killers_from [] killers = killers
killers_from ((test_id, passed) ∷ results) killers = killers_from results (
    if passed
    then killers
    else if contains test_id killers
    then killers
    else killers ++ test_id ∷ [])

get_killers-add_kill :
    (mutant_id test_id : Text) (matrix : KillMatrix)
    → get_killers mutant_id (add_kill mutant_id test_id matrix) ≡ (
        if contains test_id (get_killers mutant_id matrix)
        then get_killers mutant_id matrix
        else get_killers mutant_id matrix ++ test_id ∷ [])
unfolding add_kill
get_killers-add_kill mutant_id test_id matrix = ground (
  arith,
  text_eq_refl mutant_id,
  lookup-insert mutant_id mutant_id
      (if contains test_id (get_killers mutant_id matrix)
        then get_killers mutant_id matrix
        else get_killers mutant_id matrix ++ test_id ∷ [])
      matrix,
)

pub get_killers-record_kills :
    (mutant_id : Text) (results : Dict Bool) (matrix : KillMatrix)
    → get_killers mutant_id (record_kills mutant_id results matrix)
      ≡ killers_from results (get_killers mutant_id matrix)
unfolding record_kills killers_from
get_killers-record_kills mutant_id [] matrix = refl
get_killers-record_kills mutant_id ((test_id, true) ∷ results) matrix =
    get_killers-record_kills mutant_id results matrix
get_killers-record_kills mutant_id ((test_id, false) ∷ results) matrix =
    rw
      (
        get_killers-record_kills mutant_id results (add_kill mutant_id test_id matrix),
        get_killers-add_kill mutant_id test_id matrix,
      )
      refl

get_killers-add_kill_ne :
    (other mutant_id test_id : Text) (matrix : KillMatrix)
    → text_eq mutant_id other ≡ false
    → get_killers other (add_kill mutant_id test_id matrix) ≡ get_killers other matrix
unfolding add_kill
get_killers-add_kill_ne other mutant_id test_id matrix apart = ground (
  arith,
  lookup-insert mutant_id other
      (if contains test_id (get_killers mutant_id matrix)
        then get_killers mutant_id matrix
        else get_killers mutant_id matrix ++ test_id ∷ [])
      matrix,
)

pub get_killers-record_kills_ne :
    (other mutant_id : Text) (results : Dict Bool) (matrix : KillMatrix)
    → text_eq mutant_id other ≡ false
    → get_killers other (record_kills mutant_id results matrix) ≡ get_killers other matrix
unfolding record_kills
get_killers-record_kills_ne other mutant_id [] matrix apart = refl
get_killers-record_kills_ne other mutant_id ((test_id, true) ∷ results) matrix apart =
    get_killers-record_kills_ne other mutant_id results matrix apart
get_killers-record_kills_ne other mutant_id ((test_id, false) ∷ results) matrix apart =
    get_killers-record_kills_ne other mutant_id results (add_kill mutant_id test_id matrix) apart
    ∙ get_killers-add_kill_ne other mutant_id test_id matrix apart
