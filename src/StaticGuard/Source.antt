-- ===== src/StaticGuard/Source.antt =====
-- The mutated source text (the loop of `validate_mutant` and `_build_mutated_source`).
use comet_l.Prelude.{
  ℕ, zero, suc, ◌+◌, ◌-◌, ◌≤◌, max, ◌≡◌, sym, ap, refl, Bool, true, false, ◌&&◌, Option, none, some,
  List, [], ◌∷◌, ◌++◌, Text, length, take, drop, ltb, leb, ◌==◌, arith, if◌then◌else◌, Bool-cases,
  inl, inr,
}
use comet_l.StaticGuard.Types.{Candidate}

-- `code.endswith("\n")`
unfoldable pub ends_with_newline : Text → Bool
ends_with_newline [] = false
ends_with_newline (c ∷ []) = c == 10
ends_with_newline (c ∷ d ∷ s) = ends_with_newline (d ∷ s)

-- The mutated code, which ends with a newline
unfoldable pub mutated_line : Candidate → Text
unfolding ends_with_newline
mutated_line m =
    if ends_with_newline m.mutated_code then m.mutated_code else m.mutated_code ++ 10 ∷ []

-- The lines from number `n` on, and whether the mutation was applied among them
unfoldable pub mutate_from : Candidate → ℕ → List Text → List Text × Bool
unfolding mutated_line
mutate_from m n [] = ([], false)
mutate_from m n (line ∷ lines) =
    let (rest, applied) = mutate_from m (suc n) lines in
    if ltb n m.line_start
    then (line ∷ rest, applied)
    else if n == m.line_start
    then (mutated_line m ∷ rest, true)
    else if ltb m.line_start n && leb n m.line_end
    then (rest, applied)
    else (line ∷ rest, applied)

-- `_build_mutated_source`, as lines
unfoldable pub mutated_lines : Candidate → List Text → Option (List Text)
unfolding mutate_from
mutated_lines m lines =
    let (mutated, applied) = mutate_from m 1 lines in if applied then some mutated else none

drop-nil {ℓ} : {A : Type ℓ} (k : ℕ) → drop {A = A} k [] ≡ []
drop-nil zero = refl
drop-nil (suc k) = refl

-- After the start of the range: the rest of the range is left out.
mutate_from-after :
    (m : Candidate) (n : ℕ) (lines : List Text)
    → suc m.line_start ≤ n
    → mutate_from m n lines ≡ (drop (suc m.line_end - n) lines, false)
unfolding mutate_from
mutate_from-after m n [] h =
    ap (λ (ls : List Text). (ls, false)) (sym (drop-nil (suc m.line_end - n)))
mutate_from-after m n (line ∷ lines) h = elim (Bool-cases (leb n m.line_end)) [
  | inl inside ↦
      let next : suc m.line_end - n ≡ suc (suc m.line_end - suc n) = ground arith in
      rw next (ground (arith, mutate_from-after m (suc n) lines))
  | inr past ↦
      let stop : suc m.line_end - n ≡ 0 = ground arith in
      let stop_next : suc m.line_end - suc n ≡ 0 = ground arith in
      let rest : mutate_from m (suc n) lines ≡ (lines, false) =
        rw (mutate_from-after m (suc n) lines (omega arith), stop_next) refl in
      rw stop (ground arith)
]

-- Up to the start of the range: k lines are kept, and the next is replaced.
mutate_from-before :
    (m : Candidate) (k n : ℕ) (lines : List Text)
    → n + k ≡ m.line_start
    → mutate_from m n lines ≡ (
        if leb (suc k) (length lines)
        then (take k lines ++ mutated_line m ∷ drop (max (suc k) (suc m.line_end - n)) lines, true)
        else (lines, false))
unfolding mutate_from
mutate_from-before m k n [] h = ground arith
mutate_from-before m zero n (line ∷ lines) h =
    let next : max 1 (suc m.line_end - n) ≡ suc (suc m.line_end - suc n) = omega arith in
    rw next (ground (arith, mutate_from-after m (suc n) lines))
mutate_from-before m (suc k) n (line ∷ lines) h =
    let next : max (suc (suc k)) (suc m.line_end - n) ≡ suc (max (suc k) (suc m.line_end - suc n)) =
      omega arith in
    rw next (ground (arith, mutate_from-before m k (suc n) lines))

-- Where the range starts at line 1 or later: if its first line exists, the source is the lines before it,
-- the mutated code, and the lines after the range, or after its first line if it ends earlier; if the
-- line does not exist, there is no mutated source.
pub mutated_lines-splice :
    (m : Candidate) (lines : List Text)
    → 1 ≤ m.line_start
    → mutated_lines m lines ≡ (
        if leb m.line_start (length lines)
        then some (
            take (m.line_start - 1) lines
            ++ mutated_line m ∷ drop (max m.line_start m.line_end) lines)
        else none)
unfolding mutated_lines
mutated_lines-splice m lines h =
    let first : suc (m.line_start - 1) ≡ m.line_start = omega arith in
    let last : suc m.line_end - 1 ≡ m.line_end = omega arith in
    ground (arith, mutate_from-before m (m.line_start - 1) 1 lines (omega arith))
