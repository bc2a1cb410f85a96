-- ===== src/Prelude/Sorting.antt =====
-- Python's stable `sorted` as an insertion sort, and what it keeps of the list.
use Prim.Native.Nat.{◌+◌}
use mathlib.Core.Path.{◌≡◌, refl}
use mathlib.Core.Bool.{Bool, true, false}
use mathlib.Core.List.{List, [], ◌∷◌}
use native.Mathlib.Omega.{arith}
use comet_l.Prelude.Tests.{if◌then◌else◌}
use comet_l.Prelude.Lists.{count_of, All}

module _ {ℓ} {A : Type ℓ} (lt : A → A → Bool) where
  -- `x` in front of the first element that is not below it.
  unfoldable pub insert_by : A → List A → List A
  insert_by x [] = x ∷ []
  insert_by x (y ∷ ys) = let rest = insert_by x ys in if lt y x then y ∷ rest else x ∷ y ∷ ys

  -- `sorted(xs)` by the order `lt` of the keys.
  unfoldable pub sort_by : List A → List A
  unfolding insert_by
  sort_by [] = []
  sort_by (x ∷ xs) = insert_by x (sort_by xs)

  count_of-insert_by :
      (p : A → Bool) (x : A) (ys : List A)
      → count_of p (insert_by x ys) ≡ (if p x then 1 else 0) + count_of p ys
  unfolding insert_by
  count_of-insert_by p x [] = refl
  count_of-insert_by p x (y ∷ ys) = ground (arith, count_of-insert_by p x ys)

  pub count_of-sort_by : (p : A → Bool) (xs : List A) → count_of p (sort_by xs) ≡ count_of p xs
  unfolding sort_by
  count_of-sort_by p [] = refl
  count_of-sort_by p (x ∷ xs) =
      omega (arith, count_of-insert_by p x (sort_by xs), count_of-sort_by p xs)

  All-insert_by {κ} :
      (P : A → Type κ) (x : A) (ys : List A) → P x → All P ys → All P (insert_by x ys)
  unfolding insert_by
  All-insert_by P x [] hx h = (hx, tt)
  All-insert_by P x (y ∷ ys) hx h = go (lt y x) (All-insert_by P x ys hx h.1)
    where
      go :
          (b : Bool) → All P (insert_by x ys) → All P (if b then y ∷ insert_by x ys else x ∷ y ∷ ys)
      go true rest = (h.0, rest)
      go false rest = (hx, h)

  pub All-sort_by {κ} : (P : A → Type κ) (xs : List A) → All P xs → All P (sort_by xs)
  unfolding sort_by
  All-sort_by P [] h = tt
  All-sort_by P (x ∷ xs) h = All-insert_by P x (sort_by xs) h.0 (All-sort_by P xs h.1)

  All-insert_by_inv {κ} :
      (P : A → Type κ) (x : A) (ys : List A) → All P (insert_by x ys) → P x × All P ys
  unfolding insert_by
  All-insert_by_inv P x [] h = h
  All-insert_by_inv P x (y ∷ ys) h = go (lt y x) h (All-insert_by_inv P x ys)
    where
      go :
          (b : Bool)
          → All P (if b then y ∷ insert_by x ys else x ∷ y ∷ ys)
          → (All P (insert_by x ys) → P x × All P ys)
          → P x × (P y × All P ys)
      go true h k = let rest = k h.1 in (rest.0, (h.0, rest.1))
      go false h k = h

  pub All-sort_by_inv {κ} : (P : A → Type κ) (xs : List A) → All P (sort_by xs) → All P xs
  unfolding sort_by
  All-sort_by_inv P [] h = tt
  All-sort_by_inv P (x ∷ xs) h =
      let parts = All-insert_by_inv P x (sort_by xs) h in (parts.0, All-sort_by_inv P xs parts.1)
