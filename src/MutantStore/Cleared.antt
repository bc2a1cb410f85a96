-- ===== src/MutantStore/Cleared.antt =====
-- A row without a test among its killers, as the loop of a batch leaves it and written down apart from it.
use comet_l.Prelude.{
  ◌≤◌, ◌≡◌, refl, true, false, not, ◌&&◌, List, [], ◌∷◌, Text, codes, text_eq, contains, count_of,
  All, filter_by, arith, if◌then◌else◌, Bool-cases, inl, inr,
}
use comet_l.MutantStore.Types.{MutantRow}
use comet_l.MutantStore.KillInfo.{remove_first, is_empty, without_test}

-- What the loop writes to a row of its own
abbrev pub changed : Text → MutantRow → MutantRow
changed test r = if contains test r.killed_by then without_test test r else r

-- A killed mutant without a killer is valid again.
abbrev pub revived : Text → Text
revived status = if text_eq status (codes "killed") then codes "valid" else status

-- The row with the killers that are left: with none left it survives, with some it does not.
abbrev pub with_killers : MutantRow → List Text → MutantRow
with_killers r [] = record r { killed_by = []; status = revived r.status; survived = true }
with_killers r (t ∷ ts) = record r { killed_by = t ∷ ts; survived = false }

-- The row without the test among its killers; a row that does not name the test stays as it is.
abbrev pub cleared : Text → MutantRow → MutantRow
cleared test r =
    if contains test r.killed_by
    then with_killers r (filter_by (λ t. not (text_eq t test)) r.killed_by)
    else r

-- No row names the test twice among its killers.
abbrev pub NamesOnce : Text → List MutantRow → Type 0
NamesOnce test = All (λ (r : MutantRow). count_of (λ t. text_eq t test) r.killed_by ≤ 1)

filter_absent :
    (test : Text) (ts : List Text)
    → count_of (λ t. text_eq t test) ts ≡ 0
    → filter_by (λ t. not (text_eq t test)) ts ≡ ts
filter_absent test [] h = refl
filter_absent test (t ∷ ts) h = ground (arith, filter_absent test ts)

-- Removing the first is removing all where there is one at most.
remove_first-filter_by :
    (test : Text) (ts : List Text)
    → count_of (λ t. text_eq t test) ts ≤ 1
    → remove_first test ts ≡ filter_by (λ t. not (text_eq t test)) ts
unfolding remove_first
remove_first-filter_by test [] h = refl
remove_first-filter_by test (t ∷ ts) h =
    ground (arith, filter_absent test ts, remove_first-filter_by test ts)

with_killers-cases :
    (r : MutantRow) (ts : List Text)
    → record r {
      killed_by = ts;
      status = if is_empty ts && text_eq r.status (codes "killed") then codes "valid" else r.status;
      survived = is_empty ts;
    }
      ≡ with_killers r ts
with_killers-cases r [] = refl
with_killers-cases r (t ∷ ts) = refl

pub changed-cleared :
    (test : Text) (r : MutantRow)
    → count_of (λ t. text_eq t test) r.killed_by ≤ 1
    → changed test r ≡ cleared test r
unfolding without_test
changed-cleared test r once = elim (Bool-cases (contains test r.killed_by)) [
  | inl killed ↦
      rw (killed, remove_first-filter_by test r.killed_by once)
        (with_killers-cases r (filter_by (λ t. not (text_eq t test)) r.killed_by))
  | inr other ↦ rw other refl
]
