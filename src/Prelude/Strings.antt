-- ===== src/Prelude/Strings.antt =====
-- Python strings as lists of code points.
use Prim.Native.Char.{code}
use Prim.Native.Nat.{ℕ}
use Prim.Native.String.{String}
use mathlib.Core.Path.{◌≡◌, refl}
use mathlib.Core.Logic.{◌↔◌, inl, inr}
use mathlib.Core.Bool.{Bool, true, false, ◌&&◌, ◌||◌}
use mathlib.Core.List.{List, [], ◌∷◌}
use native.Mathlib.Omega.{arith}
use comet_l.Prelude.Tests.{leb, ltb, ◌==◌, if◌then◌else◌, Bool-cases}

abbrev pub Text : Type 0
Text = List ℕ

abbrev pub codes : String → Text
codes String.[] = []
codes (String.◌∷◌ c s) = code c ∷ codes s

-- `a == b` on strings.
unfoldable pub text_eq : Text → Text → Bool
text_eq [] [] = true
text_eq [] (c ∷ b) = false
text_eq (c ∷ a) [] = false
text_eq (c ∷ a) (d ∷ b) = (c == d) && text_eq a b

pub text_eq→eq : (a b : Text) → text_eq a b ≡ true → a ≡ b
unfolding text_eq
text_eq→eq [] [] h = refl
text_eq→eq [] (c ∷ b) h = ground arith
text_eq→eq (c ∷ a) [] h = ground arith
text_eq→eq (c ∷ a) (d ∷ b) h = ground (arith, text_eq→eq a b)

pub text_eq_refl : (a : Text) → text_eq a a ≡ true
unfolding text_eq
text_eq_refl [] = refl
text_eq_refl (c ∷ a) = ground (arith, text_eq_refl a)

pub text_eq_iff : (a b : Text) → (text_eq a b ≡ true) ↔ (a ≡ b)
text_eq_iff a b = (text_eq→eq a b, λ e. rw e (text_eq_refl b))

-- `s.startswith(p)`
abbrev pub starts_with : Text → Text → Bool
starts_with s [] = true
starts_with [] (d ∷ p) = false
starts_with (c ∷ s) (d ∷ p) = (c == d) && starts_with s p

-- The characters that `str.split()` and `str.strip()` drop.
abbrev pub is_space : ℕ → Bool
is_space c =
    (leb 9 c && leb c 13)
    || (leb 28 c && leb c 32)
    || c == 133
    || c == 160
    || c == 5760
    || (leb 8192 c && leb c 8202)
    || c == 8232
    || c == 8233
    || c == 8239
    || c == 8287
    || c == 12288

-- `a < b` on strings.
unfoldable pub text_lt : Text → Text → Bool
text_lt [] [] = false
text_lt [] (d ∷ b) = true
text_lt (c ∷ a) [] = false
text_lt (c ∷ a) (d ∷ b) = ltb c d || (c == d && text_lt a b)

-- `s.lstrip()`
unfoldable pub skip_spaces : Text → Text
skip_spaces [] = []
skip_spaces (c ∷ s) = let rest = skip_spaces s in if is_space c then rest else c ∷ s

-- `s.rstrip()`
unfoldable pub drop_spaces_right : Text → Text
drop_spaces_right [] = []
drop_spaces_right (c ∷ s) = elim (drop_spaces_right s) [
  | [] ↦ if is_space c then [] else c ∷ []
  | d ∷ r ↦ c ∷ d ∷ r
]

-- `s.strip()`
abbrev pub strip : Text → Text
strip s = drop_spaces_right (skip_spaces s)

drop_spaces_right_idempotent :
    (s : Text) → drop_spaces_right (drop_spaces_right s) ≡ drop_spaces_right s
unfolding drop_spaces_right
drop_spaces_right_idempotent [] = refl
drop_spaces_right_idempotent (c ∷ s) = go (drop_spaces_right s) (drop_spaces_right_idempotent s)
  where
    go :
        (r : Text)
        → drop_spaces_right r ≡ r
        → drop_spaces_right
            (elim r as (λ _. Text) [ [] ↦ if is_space c then [] else c ∷ [] | d ∷ r ↦ c ∷ d ∷ r ])
          ≡ elim r as (λ _. Text) [ [] ↦ if is_space c then [] else c ∷ [] | d ∷ r ↦ c ∷ d ∷ r ]
    go [] e = elim (Bool-cases (is_space c)) [
      | inl space ↦ rw space refl
      | inr other ↦ rw (other, drop_spaces_right, other) refl
    ]
    go (d ∷ r) e = rw (drop_spaces_right, e) refl

skip_spaces-strip : (s : Text) → skip_spaces (strip s) ≡ strip s
unfolding skip_spaces drop_spaces_right
skip_spaces-strip [] = refl
skip_spaces-strip (c ∷ s) = elim (Bool-cases (is_space c)) [
  | inl space ↦ rw (skip_spaces, space) (skip_spaces-strip s)
  | inr other ↦ rw (skip_spaces, other) (go other (drop_spaces_right s))
]
  where
    go :
        is_space c ≡ false
        → (r : Text)
        → skip_spaces
            (elim r as (λ _. Text) [ [] ↦ if is_space c then [] else c ∷ [] | d ∷ r ↦ c ∷ d ∷ r ])
          ≡ elim r as (λ _. Text) [ [] ↦ if is_space c then [] else c ∷ [] | d ∷ r ↦ c ∷ d ∷ r ]
    go other [] = rw (other, skip_spaces, other) refl
    go other (d ∷ r) = rw (skip_spaces, other) refl

pub strip_idempotent : (s : Text) → strip (strip s) ≡ strip s
strip_idempotent s = rw (skip_spaces-strip s) (drop_spaces_right_idempotent (skip_spaces s))

-- `part in key` on strings
unfoldable pub has_part : Text → Text → Bool
has_part part [] = starts_with [] part
has_part part (c ∷ key) = starts_with (c ∷ key) part || has_part part key
