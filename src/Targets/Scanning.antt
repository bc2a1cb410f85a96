-- ===== src/Targets/Scanning.antt =====
-- What the loops of the selector keep of each element.
use comet_l.Prelude.{
  ℕ, zero, suc, ◌≡◌, refl, Bool, true, false, Option, none, some, List, [], ◌∷◌, Text, contains,
  filter_by, All, Bool-cases, Option-cases, inl, inr,
}
use comet_l.Targets.Methods.{split_available, prefer, first}
use comet_l.Targets.Strategies.{first_of, min_by, pick}

pub All-filter_by {ℓ κ μ} :
    {A : Type ℓ} (P : A → Type κ) (Q : A → Type μ) (p : A → Bool) (xs : List A)
    → ((x : A) → P x → p x ≡ true → Q x)
    → All P xs
    → All Q (filter_by p xs)
All-filter_by P Q p [] keep h = tt
All-filter_by P Q p (x ∷ xs) keep h =
    let rest = All-filter_by P Q p xs keep h.1 in
    elim (Bool-cases (p x)) [ inl e ↦ rw e (keep x h.0 e, rest) | inr e ↦ rw e rest ]

pub All-imp {ℓ κ μ} :
    {A : Type ℓ} (P : A → Type κ) (Q : A → Type μ) (xs : List A)
    → ((x : A) → P x → Q x)
    → All P xs
    → All Q xs
All-imp P Q [] f h = tt
All-imp P Q (x ∷ xs) f h = (f x h.0, All-imp P Q xs f h.1)

-- Every element is in `P`, as `P` holds of all.
pub All-const {ℓ κ} : {A : Type ℓ} (P : A → Type κ) (xs : List A) → ((x : A) → P x) → All P xs
All-const P [] h = tt
All-const P (x ∷ xs) h = (h x, All-const P xs h)

pub All-first {ℓ κ} :
    {A : Type ℓ} (P : A → Type κ) (xs : List A) {a : A} → All P xs → first xs ≡ some a → P a
All-first P [] h e = cc
All-first P (x ∷ xs) {a} h e = let same : x ≡ a = cc in rw same at h.0

pub All-pick {ℓ κ} :
    {A : Type ℓ} (P : A → Type κ) (n : ℕ) (x : A) (xs : List A) → P x → All P xs → P (pick n x xs)
unfolding pick
All-pick P n x [] h hs = h
All-pick P zero x (y ∷ ys) h hs = h
All-pick P (suc n) x (y ∷ ys) h hs = All-pick P n y ys hs.0 hs.1

pub All-min_by {ℓ κ} :
    {A : Type ℓ} (P : A → Type κ) (lt : A → A → Bool) (x : A) (xs : List A)
    → P x
    → All P xs
    → P (min_by lt x xs)
unfolding min_by
All-min_by P lt x [] h hs = h
All-min_by P lt x (y ∷ ys) h hs = elim (Bool-cases (lt y x)) [
  | inl e ↦ rw e (All-min_by P lt y ys hs.0 hs.1)
  | inr e ↦ rw e (All-min_by P lt x ys h hs.1)
]

pub first_of-holds {ℓ μ κ} :
    {A : Type ℓ} {B : Type μ} (P : B → Type κ) (f : A → Option B) (xs : List A) {b : B}
    → ((x : A) (b : B) → f x ≡ some b → P b)
    → first_of f xs ≡ some b
    → P b
unfolding first_of
first_of-holds P f [] keep e = cc
first_of-holds P f (x ∷ xs) {b} keep e = elim (Option-cases (f x)) [
  | inl n ↦ first_of-holds P f xs keep (cc)
  | inr (c, y) ↦ keep x b (cc)
]

pub first_of-none {ℓ μ} :
    {A : Type ℓ} {B : Type μ} (f : A → Option B) (xs : List A)
    → first_of f xs ≡ none
    → All (λ x. f x ≡ none) xs
unfolding first_of
first_of-none f [] e = tt
first_of-none f (x ∷ xs) e = elim (Option-cases (f x)) [
  | inl n ↦ (n, first_of-none f xs cc)
  | inr (c, y) ↦ cc
]

module _ {ℓ} {A : Type ℓ} (key : A → Text) (blacklist processed : List Text) where
  -- What is split off is not in the blacklist, and is processed or not as its list says.
  pub split_available-All :
      (stop : Bool) (ms : List A)
      → All
          (λ m. (contains (key m) blacklist ≡ false) × (contains (key m) processed ≡ false))
          (split_available key blacklist processed stop ms).0
        × All
            (λ m. contains (key m) blacklist ≡ false)
            (split_available key blacklist processed stop ms).1
  unfolding split_available
  split_available-All stop [] = (tt, tt)
  split_available-All stop (m ∷ ms) =
      let ih = split_available-All stop ms in
      elim (Bool-cases (contains (key m) blacklist)) [
        | inl e ↦ rw e ih
        | inr b ↦ elim (Bool-cases (contains (key m) processed)) [
          | inl e ↦ rw (b, e) (ih.0, (b, ih.1))
          | inr p ↦ elim (Bool-cases stop) [
            | inl e ↦ rw (b, p, e) (((b, p), tt), tt)
            | inr e ↦ rw (b, p, e) (((b, p), ih.0), ih.1)
          ]
        ]
      ]

  -- What holds of all elements holds of what is split off.
  pub split_available-keeps {κ} :
      (P : A → Type κ) (stop : Bool) (ms : List A)
      → All P ms
      → All P (split_available key blacklist processed stop ms).0
        × All P (split_available key blacklist processed stop ms).1
  unfolding split_available
  split_available-keeps P stop [] h = (tt, tt)
  split_available-keeps P stop (m ∷ ms) h =
      let ih = split_available-keeps P stop ms h.1 in
      elim (Bool-cases (contains (key m) blacklist)) [
        | inl e ↦ rw e ih
        | inr b ↦ elim (Bool-cases (contains (key m) processed)) [
          | inl e ↦ rw (b, e) (ih.0, (h.0, ih.1))
          | inr p ↦ elim (Bool-cases stop) [
            | inl e ↦ rw (b, p, e) ((h.0, tt), tt)
            | inr e ↦ rw (b, p, e) ((h.0, ih.0), ih.1)
          ]
        ]
      ]

pub prefer-holds {ℓ κ} :
    {A : Type ℓ} (P : A → Type κ) (preferred required : Bool) (lists : List A × List A) {m : A}
    → All P lists.0
    → (required ≡ false → All P lists.1)
    → prefer preferred required lists ≡ some m
    → P m
unfolding prefer
prefer-holds P true required (u ∷ us, ps) {m} h k e = let same : u ≡ m = cc in rw same at h.0
prefer-holds P true true ([], ps) h k e = cc
prefer-holds P true false ([], ps) h k e = All-first P ps (k refl) e
prefer-holds P false true (us, ps) h k e = All-first P us h e
prefer-holds P false false (us, p ∷ ps) {m} h k e = let same : p ≡ m = cc in rw same at (k refl).0
prefer-holds P false false (us, []) h k e = All-first P us h e
