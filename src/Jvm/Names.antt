-- ===== src/Jvm/Names.antt =====
-- The parser's table and its reading of binary names against the grammar's own.
use mathlib.Core.List.{append-nil, append_assoc}
use comet_l.Prelude.{
  ℕ, ◌≡◌, ◌≢◌, refl, ap, ◌∙◌, false, some, List, [], ◌∷◌, ◌++◌, Text, All, arith, Bool-cases, inl,
  inr, ◌==◌,
}
use comet_l.Jvm.{primitive_type, last_segment, dollars_to_dots}
use comet_l.Jvm.Types.{
  Base, byte, char, double, float, int, long, short, boolean, void, letter, keyword, IsPackageChar,
  IsNameChar, joined, binary_name,
}

-- The table gives the keyword of each letter,
pub primitive_type-letter : (base : Base) → primitive_type (letter base) ≡ some (keyword base)
unfolding primitive_type
primitive_type-letter byte = refl
primitive_type-letter char = refl
primitive_type-letter double = refl
primitive_type-letter float = refl
primitive_type-letter int = refl
primitive_type-letter long = refl
primitive_type-letter short = refl
primitive_type-letter boolean = refl
primitive_type-letter void = refl

-- and nothing else.
pub primitive_type_sound :
    (c : ℕ) {t : Text}
    → primitive_type c ≡ some t
    → (base : Base) × (letter base ≡ c) × (keyword base ≡ t)
unfolding primitive_type
primitive_type_sound c {t} e = elim (Bool-cases (c == b'B')) [
  | inl same ↦ (byte, ground arith, ground arith)
  | inr n0 ↦ elim (Bool-cases (c == b'C')) [
    | inl same ↦ (char, ground arith, ground arith)
    | inr n1 ↦ elim (Bool-cases (c == b'D')) [
      | inl same ↦ (double, ground arith, ground arith)
      | inr n2 ↦ elim (Bool-cases (c == b'F')) [
        | inl same ↦ (float, ground arith, ground arith)
        | inr n3 ↦ elim (Bool-cases (c == b'I')) [
          | inl same ↦ (int, ground arith, ground arith)
          | inr n4 ↦ elim (Bool-cases (c == b'J')) [
            | inl same ↦ (long, ground arith, ground arith)
            | inr n5 ↦ elim (Bool-cases (c == b'S')) [
              | inl same ↦ (short, ground arith, ground arith)
              | inr n6 ↦ elim (Bool-cases (c == b'Z')) [
                | inl same ↦ (boolean, ground arith, ground arith)
                | inr n7 ↦ elim (Bool-cases (c == b'V')) [
                  | inl same ↦ (void, ground arith, ground arith)
                  | inr n8 ↦ absurd (ground arith)
                ]
              ]
            ]
          ]
        ]
      ]
    ]
  ]
]

last_segment-package :
    (segment p rest : Text)
    → All IsPackageChar p
    → last_segment segment (p ++ b'/' ∷ rest) ≡ last_segment [] rest
unfolding last_segment
last_segment-package segment [] rest h = refl
last_segment-package segment (c ∷ p) rest h =
    let other : (c == b'/') ≡ false = ground (arith, h.0) in
    rw (last_segment, other) (last_segment-package (segment ++ c ∷ []) p rest h.1)

last_segment-plain :
    (segment s : Text) → All (λ c. c ≢ b'/') s → last_segment segment s ≡ segment ++ s
unfolding last_segment
last_segment-plain segment [] h = sym_nil
  where
    sym_nil : segment ≡ segment ++ []
    sym_nil = rw append-nil refl
last_segment-plain segment (c ∷ s) h =
    let other : (c == b'/') ≡ false = ground (arith, h.0) in
    rw other (last_segment-plain (segment ++ c ∷ []) s h.1 ∙ append_assoc segment (c ∷ []) s)

All-without :
    {P Q : ℕ → Type 0} (s t : Text) → ((c : ℕ) → P c → Q c) → All P s → All Q t → All Q (s ++ t)
All-without [] t f h k = k
All-without (c ∷ s) t f h k = (f c h.0, All-without s t f h.1 k)

All-weaker : {P Q : ℕ → Type 0} (s : Text) → ((c : ℕ) → P c → Q c) → All P s → All Q s
All-weaker [] f h = tt
All-weaker (c ∷ s) f h = (f c h.0, All-weaker s f h.1)

joined-slash :
    (name : Text) (nested : List Text)
    → All IsNameChar name
    → All (All IsNameChar) nested
    → All (λ c. c ≢ b'/') (joined b'$' name nested)
joined-slash name [] h hs = All-weaker name (λ c p. p.0) h
joined-slash name (m ∷ ms) h hs =
    All-without name (b'$' ∷ joined b'$' m ms) (λ c p. p.0) h
      ((λ e. omega arith), joined-slash m ms hs.0 hs.1)

joined-semicolon :
    (name : Text) (nested : List Text)
    → All IsNameChar name
    → All (All IsNameChar) nested
    → All (λ c. c ≢ b';') (joined b'$' name nested)
joined-semicolon name [] h hs = All-weaker name (λ c p. p.1) h
joined-semicolon name (m ∷ ms) h hs =
    All-without name (b'$' ∷ joined b'$' m ms) (λ c p. p.1) h
      ((λ e. omega arith), joined-semicolon m ms hs.0 hs.1)

-- A binary name ends where the descriptor says.
pub binary_name-semicolon :
    (packages : List Text) (outer : Text) (nested : List Text)
    → All (All IsPackageChar) packages
    → All IsNameChar outer
    → All (All IsNameChar) nested
    → All (λ c. c ≢ b';') (binary_name packages outer nested)
binary_name-semicolon [] outer nested ps h hs = joined-semicolon outer nested h hs
binary_name-semicolon (p ∷ packages) outer nested ps h hs =
    All-without p (b'/' ∷ binary_name packages outer nested) (λ c q. q.1) ps.0
      ((λ e. omega arith), binary_name-semicolon packages outer nested ps.1 h hs)

last_segment-binary_name :
    (packages : List Text) (outer : Text) (nested : List Text)
    → All (All IsPackageChar) packages
    → All IsNameChar outer
    → All (All IsNameChar) nested
    → last_segment [] (binary_name packages outer nested) ≡ joined b'$' outer nested
last_segment-binary_name [] outer nested ps h hs =
    last_segment-plain [] (joined b'$' outer nested) (joined-slash outer nested h hs)
last_segment-binary_name (p ∷ packages) outer nested ps h hs =
    last_segment-package [] p (binary_name packages outer nested) ps.0
    ∙ last_segment-binary_name packages outer nested ps.1 h hs

dollars_to_dots-append :
    (name rest : Text)
    → All IsNameChar name
    → dollars_to_dots (name ++ rest) ≡ name ++ dollars_to_dots rest
unfolding dollars_to_dots
dollars_to_dots-append [] rest h = refl
dollars_to_dots-append (c ∷ name) rest h =
    let other : (c == b'$') ≡ false = ground (arith, h.0) in
    rw (other, dollars_to_dots-append name rest h.1) refl

dollars_to_dots-name : (name : Text) → All IsNameChar name → dollars_to_dots name ≡ name
unfolding dollars_to_dots
dollars_to_dots-name [] h = refl
dollars_to_dots-name (c ∷ name) h =
    let other : (c == b'$') ≡ false = ground (arith, h.0) in
    rw (other, dollars_to_dots-name name h.1) refl

dollar_first : (s : Text) → dollars_to_dots (b'$' ∷ s) ≡ b'.' ∷ dollars_to_dots s
unfolding dollars_to_dots
dollar_first s = refl

dollars_to_dots-joined :
    (name : Text) (nested : List Text)
    → All IsNameChar name
    → All (All IsNameChar) nested
    → dollars_to_dots (joined b'$' name nested) ≡ joined b'.' name nested
dollars_to_dots-joined name [] h hs = dollars_to_dots-name name h
dollars_to_dots-joined name (m ∷ ms) h hs =
    dollars_to_dots-append name (b'$' ∷ joined b'$' m ms) h
    ∙ ap (λ (r : Text). name ++ r)
        (dollar_first (joined b'$' m ms)
          ∙ ap (λ (r : Text). b'.' ∷ r) (dollars_to_dots-joined m ms hs.0 hs.1))

-- The parser's short name of a class is the grammar's.
pub short_name-binary_name :
    (packages : List Text) (outer : Text) (nested : List Text)
    → All (All IsPackageChar) packages
    → All IsNameChar outer
    → All (All IsNameChar) nested
    → dollars_to_dots (last_segment [] (binary_name packages outer nested))
      ≡ joined b'.' outer nested
short_name-binary_name packages outer nested ps h hs =
    ap dollars_to_dots (last_segment-binary_name packages outer nested ps h hs)
    ∙ dollars_to_dots-joined outer nested h hs

-- The parts of a text as a binary name
abbrev pub IsBinaryName : Text → Type 0
IsBinaryName s =
    (packages : List Text) × (outer : Text) × (nested : List Text) × All (All IsPackageChar)
      packages
    × All IsNameChar outer
    × All (All IsNameChar) nested
    × (s ≡ binary_name packages outer nested)

cons-IsBinaryName : (c : ℕ) (s : Text) → c ≢ b';' → c ≢ b'/' → IsBinaryName s → IsBinaryName (c ∷ s)
cons-IsBinaryName c s semi slash (p ∷ ps, outer, nested, hp, h, hs, e) =
    ((c ∷ p) ∷ ps, outer, nested, (((slash, semi), hp.0), hp.1), h, hs, ap (λ (r : Text). c ∷ r) e)
cons-IsBinaryName c s semi slash ([], outer, nested, hp, h, hs, e) = elim (Bool-cases (c == b'$')) [
  | inl dollar ↦ ([], [], outer ∷ nested, tt, tt, (h, hs), ground (arith, e))
  | inr other ↦ ([], c ∷ outer, nested, tt, ((slash, semi, ground arith), h), hs, longer nested e)
]
  where
    longer : (ms : List Text) → s ≡ joined b'$' outer ms → c ∷ s ≡ joined b'$' (c ∷ outer) ms
    longer [] f = ap (λ (r : Text). c ∷ r) f
    longer (m ∷ ms) f = ap (λ (r : Text). c ∷ r) f

-- Any text without a semicolon is a binary name.
pub parts-IsBinaryName : (s : Text) → All (λ c. c ≢ b';') s → IsBinaryName s
parts-IsBinaryName [] h = ([], [], [], tt, tt, tt, refl)
parts-IsBinaryName (c ∷ s) h = elim (Bool-cases (c == b'/')) [
  | inl slash ↦
      let (packages, outer, nested, hp, ho, hs, e) = parts-IsBinaryName s h.1 in
      ([] ∷ packages, outer, nested, (tt, hp), ho, hs, ground (arith, e))
  | inr other ↦ cons-IsBinaryName c s h.0 (ground arith) (parts-IsBinaryName s h.1)
]
