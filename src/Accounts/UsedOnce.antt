-- ===== src/Accounts/UsedOnce.antt =====
-- An upload is used once, until a reset gives it back.
use mathlib.Core.Path.{subst}
use comet_l.Prelude.{
  ℕ, ◌≤◌, ◌≡◌, refl, true, false, ◌&&◌, not, Option, none, some, List, [], ◌∷◌, map, Text, any_of,
  count_of, arith, if◌then◌else◌, Bool-cases, Option-cases, inl, inr, is_some,
}
use comet_l.Accounts.Types.{Upload, Database, Outcome, ok}
use comet_l.Accounts.{find_upload, is_upload, used, mark_upload_used_once}
use comet_l.Accounts.Tables.{Request, after, run}
use comet_l.Accounts.Uploads.{has_id, is_fresh, IsUsed, keeps, run-IsUsed}

module _ (id : Text) where
  module _ (user_id : ℕ) (kind status : Text) where
    find_upload-used :
        (us : List Upload) {u : Upload}
        → find_upload (is_upload id user_id kind status) us ≡ some u
        → any_of (is_fresh id) us ≡ false
        → is_some u.used_at ≡ true
    unfolding find_upload
    find_upload-used [] e h = cc
    find_upload-used (v ∷ us) {u} e h = ground (
      arith,
      λ (f : find_upload (is_upload id user_id kind status) us ≡ some u). find_upload-used us f,
    )

    find_upload-count :
        (us : List Upload) {u : Upload}
        → find_upload (is_upload id user_id kind status) us ≡ some u
        → 1 ≤ count_of (has_id id) us
    unfolding find_upload
    find_upload-count [] e = cc
    find_upload-count (v ∷ us) {u} e = ground (
      arith,
      λ (f : find_upload (is_upload id user_id kind status) us ≡ some u). find_upload-count us f,
    )

    mark-absent :
        (now : ℕ) (us : List Upload)
        → count_of (has_id id) us ≡ 0
        → any_of (is_fresh id) (
            map
              (λ (v : Upload).
                if is_upload id user_id kind status v && not (is_some v.used_at)
                then used now v
                else v)
              us)
          ≡ false
    mark-absent now [] h = refl
    mark-absent now (u ∷ us) h = ground (arith, mark-absent now us)

    mark-unused :
        (now : ℕ) (us : List Upload) {u : Upload}
        → find_upload (is_upload id user_id kind status) us ≡ some u
        → is_some u.used_at ≡ false
        → count_of (has_id id) us ≤ 1
        → IsUsed id (
            map
              (λ (v : Upload).
                if is_upload id user_id kind status v && not (is_some v.used_at)
                then used now v
                else v)
              us)
    unfolding find_upload
    mark-unused now [] e n h = cc
    mark-unused now (v ∷ us) {u} e n h = ground (
      arith,
      mark-absent now us,
      λ (f : find_upload (is_upload id user_id kind status) us ≡ some u). mark-unused now us f,
      λ (f : find_upload (is_upload id user_id kind status) us ≡ some u). find_upload-count us f,
    )

  mark_upload_used_once-marks :
      (now user_id : ℕ) (kind status : Text) (db db' : Database) (u : Upload)
      → count_of (has_id id) db.uploads ≤ 1
      → mark_upload_used_once now id user_id kind status db ≡ ok (some u) db'
      → IsUsed id (after (mark_upload_used_once now id user_id kind status db) db).uploads
  unfolding mark_upload_used_once
  mark_upload_used_once-marks now user_id kind status db db' u one e =
      elim (Option-cases (find_upload (is_upload id user_id kind status) db.uploads)) [
        | inl absent ↦ absurd (ground arith)
        | inr (v, found) ↦ elim (Bool-cases (is_some v.used_at)) [
          | inl before ↦ absurd (ground arith)
          | inr fresh ↦
              rw (mark_upload_used_once, found, fresh)
                (mark-unused user_id kind status now db.uploads found fresh one)
        ]
      ]

  -- Where an upload was marked, its id is unique and it is neither reset nor deleted, no operation marks
  -- it again, whoever asks and for whatever kind.
  pub mark_upload_used_once-used :
      (lower : Text → Text) (now user_id : ℕ) (kind status : Text) (rs : List Request)
      (now' user_id' : ℕ) (kind' status' : Text) (db db' : Database) (u : Upload)
      → count_of (has_id id) db.uploads ≤ 1
      → mark_upload_used_once now id user_id kind status db ≡ ok (some u) db'
      → any_of (λ r. not (keeps id r)) rs ≡ false
      → mark_upload_used_once now' id user_id' kind' status' (run lower rs db')
        ≡ ok none (run lower rs db')
  unfolding mark_upload_used_once
  mark_upload_used_once-used lower now user_id kind status rs now' user_id' kind' status' db db' u
        one e k =
      let used : IsUsed id db'.uploads =
        subst (λ (o : Outcome (Option Upload)). IsUsed id (after o db).uploads) e
          (mark_upload_used_once-marks now user_id kind status db db' u one e) in
      let all_used = run-IsUsed id lower rs db' k used in
      elim (Option-cases
        (find_upload (is_upload id user_id' kind' status') (run lower rs db').uploads)) [
          | inl absent ↦ rw (mark_upload_used_once, absent) refl
          | inr (v, found) ↦
              rw
                (
                  mark_upload_used_once,
                  found,
                  find_upload-used user_id' kind' status' (run lower rs db').uploads found
                      (ground arith),
                )
                refl
        ]
