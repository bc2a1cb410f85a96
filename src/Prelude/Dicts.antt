-- ===== src/Prelude/Dicts.antt =====
-- Python dictionaries with string keys, as association lists in insertion order, and lists of
-- strings used as sets.
use mathlib.Core.Path.{◌≡◌, refl}
use mathlib.Core.Logic.{◌≢◌}
use mathlib.Core.Bool.{Bool, false, ◌||◌}
use mathlib.Core.Option.{Option, none, some}
use mathlib.Core.List.{List, [], ◌∷◌}
use native.Mathlib.Omega.{arith}
use comet_l.Prelude.Tests.{if◌then◌else◌, is_some}
use comet_l.Prelude.Strings.{Text, text_eq, text_eq_iff}

abbrev pub Dict {ℓ} : Type ℓ → Type ℓ
Dict V = List (Text × V)

module _ {ℓ} {V : Type ℓ} where
  -- `d.get(k)`
  abbrev pub lookup : Text → Dict V → Option V
  lookup k [] = none
  lookup k ((j, v) ∷ d) = if text_eq j k then some v else lookup k d

  -- `k in d`
  abbrev pub has_key : Text → Dict V → Bool
  has_key k d = is_some (lookup k d)

  -- `d[k] = v`: a present key keeps its place, a new one goes to the end.
  abbrev pub insert : Text → V → Dict V → Dict V
  insert k v [] = (k, v) ∷ []
  insert k v ((j, w) ∷ d) = if text_eq j k then (j, v) ∷ d else (j, w) ∷ insert k v d

  -- `d.pop(k, None)`
  abbrev pub erase : Text → Dict V → Dict V
  erase k [] = []
  erase k ((j, w) ∷ d) = if text_eq j k then d else (j, w) ∷ erase k d

  pub lookup-insert :
      (k j : Text) (v : V) (d : Dict V)
      → lookup j (insert k v d) ≡ (if text_eq k j then some v else lookup j d)
  lookup-insert k j v [] = refl
  lookup-insert k j v ((i, w) ∷ d) =
      ground (arith, text_eq_iff k j, text_eq_iff i k, text_eq_iff i j, lookup-insert k j v d)

  -- No key is listed twice.
  abbrev pub NodupKeys : Dict V → Type 0
  NodupKeys [] = Unit
  NodupKeys ((k, v) ∷ d) = (has_key k d ≡ false) × NodupKeys d

  pub insert-NodupKeys : (k : Text) (v : V) (d : Dict V) → NodupKeys d → NodupKeys (insert k v d)
  insert-NodupKeys k v [] h = (refl, tt)
  insert-NodupKeys k v ((j, w) ∷ d) h =
      ground
        (arith, text_eq_iff j k, text_eq_iff k j, lookup-insert k j v d, insert-NodupKeys k v d h.1)

  pub lookup-erase_ne : (k j : Text) (d : Dict V) → k ≢ j → lookup j (erase k d) ≡ lookup j d
  lookup-erase_ne k j [] h = refl
  lookup-erase_ne k j ((i, w) ∷ d) h =
      ground (arith, text_eq_iff i k, text_eq_iff i j, lookup-erase_ne k j d h)

  pub lookup-erase_self : (k : Text) (d : Dict V) → NodupKeys d → lookup k (erase k d) ≡ none
  lookup-erase_self k [] h = refl
  lookup-erase_self k ((i, w) ∷ d) h = ground (arith, text_eq_iff i k, lookup-erase_self k d h.1)

  pub erase-NodupKeys : (k : Text) (d : Dict V) → NodupKeys d → NodupKeys (erase k d)
  erase-NodupKeys k [] h = tt
  erase-NodupKeys k ((i, w) ∷ d) h =
      ground
        (arith, text_eq_iff i k, text_eq_iff k i, lookup-erase_ne k i d, erase-NodupKeys k d h.1)

-- `s in xs`
abbrev pub contains : Text → List Text → Bool
contains s [] = false
contains s (x ∷ xs) = text_eq x s || contains s xs
