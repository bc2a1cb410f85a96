-- ===== src/Accounts/Uploads.antt =====
-- An upload that was used stays used, until a reset gives it back.
use mathlib.Core.Path.{subst}
use comet_l.Prelude.{
  ℕ, ◌≡◌, refl, Bool, true, false, ◌&&◌, not, none, List, [], ◌∷◌, ◌++◌, map, Text, text_eq, any_of,
  any_of-append, filter_by, contains, arith, if◌then◌else◌, Bool-cases, Option-cases, inl, inr,
  is_some, text_eq→eq,
}
use comet_l.Accounts.Types.{Upload, Database}
use comet_l.Accounts.{
  create_user, disable_user, reset_user_password, set_user_role, update_user_role, insert_user,
  find_user, find_upload, is_upload, create_session, get_active_session_user, revoke_session,
  create_upload_record, mark_upload_used_once, reset_uploads_used_at, delete_upload_record,
}
use comet_l.Accounts.Tables.{
  Request, create, disable, set_password, set_role, log_in, authenticate, log_out, upload,
  mark_used, reset_used, delete_upload, after, step, run,
}

create_user-uploads :
    (lower : Text → Text) (now : ℕ) (username password_hash role : Text) (is_active : Bool)
    (db : Database)
    → (after (create_user lower now username password_hash role is_active db) db).uploads
      ≡ db.uploads
unfolding create_user insert_user
create_user-uploads lower now username password_hash role is_active db = ground arith

disable_user-uploads :
    (now id : ℕ) (db : Database) → (after (disable_user now id db) db).uploads ≡ db.uploads
unfolding disable_user
disable_user-uploads now id db = ground arith

reset_user_password-uploads :
    (now id : ℕ) (password_hash : Text) (db : Database)
    → (after (reset_user_password now id password_hash db) db).uploads ≡ db.uploads
unfolding reset_user_password
reset_user_password-uploads now id password_hash db = ground arith

update_user_role-uploads :
    (now id : ℕ) (role : Text) (db : Database)
    → (after (update_user_role now id role db) db).uploads ≡ db.uploads
unfolding update_user_role set_user_role
update_user_role-uploads now id role db = ground arith

create_session-uploads :
    (now user_id : ℕ) (token_hash : Text) (expires_at : ℕ) (db : Database)
    → (after (create_session now user_id token_hash expires_at db) db).uploads ≡ db.uploads
unfolding create_session
create_session-uploads now user_id token_hash expires_at db = ground arith

get_active_session_user-uploads :
    (now : ℕ) (token_hash : Text) (db : Database)
    → (after (get_active_session_user now token_hash db) db).uploads ≡ db.uploads
unfolding get_active_session_user
get_active_session_user-uploads now token_hash db = ground arith

module _ (id : Text) where
  abbrev pub has_id : Upload → Bool
  has_id u = text_eq u.id id

  abbrev pub is_fresh : Upload → Bool
  is_fresh u = text_eq u.id id && not (is_some u.used_at)

  -- There is an upload of the id, and none that is unused.
  abbrev pub IsUsed : List Upload → Type 0
  IsUsed us = (any_of has_id us && not (any_of is_fresh us)) ≡ true

  append-IsUsed :
      (u : Upload) (us : List Upload) → text_eq u.id id ≡ false → IsUsed us → IsUsed (us ++ u ∷ [])
  append-IsUsed u us other h =
      ground (arith, any_of-append has_id us (u ∷ []), any_of-append is_fresh us (u ∷ []))

  absent_id :
      (other : Text) (us : List Upload)
      → any_of (λ (u : Upload). text_eq u.id other) us ≡ false
      → any_of has_id us ≡ true
      → text_eq other id ≡ false
  absent_id other us free there = elim (Bool-cases (text_eq other id)) [
    | inl e ↦
        let none_own : any_of has_id us ≡ false =
          subst (λ t. any_of (λ (u : Upload). text_eq u.id t) us ≡ false) (text_eq→eq other id e)
            free in
        absurd (ground arith)
    | inr e ↦ e
  ]

  create_upload_record-IsUsed :
      (now : ℕ) (other : Text) (user_id : ℕ) (status kind : Text) (db : Database)
      → IsUsed db.uploads
      → IsUsed (after (create_upload_record now other user_id status kind db) db).uploads
  unfolding create_upload_record
  create_upload_record-IsUsed now other user_id status kind db h =
      elim (Bool-cases (any_of (λ (u : Upload). text_eq u.id other) db.uploads)) [
        | inl taken ↦ rw (create_upload_record, taken) h
        | inr free ↦ elim (Bool-cases (is_some (find_user user_id db.users))) [
          | inl known ↦
              rw (create_upload_record, free, known)
                (append-IsUsed _ db.uploads (absent_id other db.uploads free (ground arith)) h)
          | inr unknown ↦ rw (create_upload_record, free, unknown) h
        ]
      ]

  -- An update that keeps the ids, and leaves what is used used.
  update-IsUsed :
      (f : Upload → Upload) (us : List Upload)
      → ((u : Upload) → (f u).id ≡ u.id)
      → ((u : Upload) → is_fresh u ≡ false → is_fresh (f u) ≡ false)
      → IsUsed us
      → IsUsed (map f us)
  update-IsUsed f us keep stays h = ground (arith, ids us, unused us)
    where
      ids : (us : List Upload) → any_of has_id (map f us) ≡ any_of has_id us
      ids [] = refl
      ids (u ∷ us) = ground (arith, keep u, ids us)

      unused : (us : List Upload) → any_of is_fresh us ≡ false → any_of is_fresh (map f us) ≡ false
      unused [] h = refl
      unused (u ∷ us) h = ground (arith, stays u, unused us)

  mark_upload_used_once-IsUsed :
      (now : ℕ) (other : Text) (user_id : ℕ) (kind status : Text) (db : Database)
      → IsUsed db.uploads
      → IsUsed (after (mark_upload_used_once now other user_id kind status db) db).uploads
  unfolding mark_upload_used_once
  mark_upload_used_once-IsUsed now other user_id kind status db h =
      elim (Option-cases (find_upload (is_upload other user_id kind status) db.uploads)) [
        | inl e ↦ rw (mark_upload_used_once, e) h
        | inr (u, e) ↦ elim (Bool-cases (is_some u.used_at)) [
          | inl before ↦ rw (mark_upload_used_once, e, before) h
          | inr now_used ↦
              rw (mark_upload_used_once, e, now_used)
                (update-IsUsed _ db.uploads (λ v. ground arith) (λ v. ground arith) h)
        ]
      ]

  -- The operations that keep an upload: no reset and no deletion of it.
  abbrev pub keeps : Request → Bool
  keeps (reset_used now ids) = not (contains id ids)
  keeps (delete_upload other) = not (text_eq id other)
  keeps r = true

  reset-IsUsed :
      (now : ℕ) (ids : List Text) (db : Database)
      → contains id ids ≡ false
      → IsUsed db.uploads
      → IsUsed (after (reset_uploads_used_at now ids db) db).uploads
  unfolding reset_uploads_used_at
  reset-IsUsed now ids db other h = update-IsUsed _ db.uploads (λ v. ground arith) (λ v. unused v) h
    where
      unused :
          (u : Upload)
          → is_fresh u ≡ false
          → is_fresh
              (if contains u.id ids then record u { used_at = none; updated_at = now } else u)
            ≡ false
      unused u e = elim (Bool-cases (text_eq u.id id)) [
        | inl own ↦
            let kept : contains u.id ids ≡ false = rw (text_eq→eq u.id id own) other in ground arith
        | inr apart ↦ ground arith
      ]

  delete-IsUsed :
      (other : Text) (us : List Upload)
      → text_eq id other ≡ false
      → IsUsed us
      → IsUsed (filter_by (λ (u : Upload). not (text_eq u.id other)) us)
  delete-IsUsed other us apart h = ground (arith, ids us, unused us)
    where
      gone : (u : Upload) → text_eq u.id id ≡ true → text_eq u.id other ≡ false
      gone u own = rw (text_eq→eq u.id id own) apart

      ids :
          (us : List Upload)
          → any_of has_id (filter_by (λ (u : Upload). not (text_eq u.id other)) us)
            ≡ any_of has_id us
      ids [] = refl
      ids (u ∷ us) = ground (arith, gone u, ids us)

      unused :
          (us : List Upload)
          → any_of is_fresh us ≡ false
          → any_of is_fresh (filter_by (λ (u : Upload). not (text_eq u.id other)) us) ≡ false
      unused [] h = refl
      unused (u ∷ us) h = ground (arith, unused us)

  module _ (lower : Text → Text) where
    step-IsUsed :
        (r : Request) (db : Database)
        → keeps r ≡ true
        → IsUsed db.uploads
        → IsUsed (step lower r db).uploads
    unfolding step revoke_session delete_upload_record
    step-IsUsed (create now username password_hash role is_active) db k h =
        rw (create_user-uploads lower now username password_hash role is_active db) h
    step-IsUsed (disable now i) db k h = rw (disable_user-uploads now i db) h
    step-IsUsed (set_password now i password_hash) db k h =
        rw (reset_user_password-uploads now i password_hash db) h
    step-IsUsed (set_role now i role) db k h = rw (update_user_role-uploads now i role db) h
    step-IsUsed (log_in now user_id token expires_at) db k h =
        rw (create_session-uploads now user_id token expires_at db) h
    step-IsUsed (authenticate now token) db k h =
        rw (get_active_session_user-uploads now token db) h
    step-IsUsed (log_out now token) db k h = h
    step-IsUsed (upload now i user_id status kind) db k h =
        create_upload_record-IsUsed now i user_id status kind db h
    step-IsUsed (mark_used now i user_id kind status) db k h =
        mark_upload_used_once-IsUsed now i user_id kind status db h
    step-IsUsed (reset_used now ids) db k h = reset-IsUsed now ids db (ground arith) h
    step-IsUsed (delete_upload i) db k h = delete-IsUsed i db.uploads (ground arith) h

    pub run-IsUsed :
        (rs : List Request) (db : Database)
        → any_of (λ r. not (keeps r)) rs ≡ false
        → IsUsed db.uploads
        → IsUsed (run lower rs db).uploads
    unfolding run
    run-IsUsed [] db k h = h
    run-IsUsed (r ∷ rs) db k h =
        run-IsUsed rs (step lower r db) (ground arith) (step-IsUsed r db (ground arith) h)
