-- ===== src/Accounts/Users.antt =====
-- A user who was disabled is disabled ever after, and is not authenticated.
use comet_l.Prelude.{
  ℕ, ◌≡◌, ◌≢◌, refl, Bool, true, false, not, Option, none, some, List, [], ◌∷◌, ◌++◌, Text, text_eq,
  arith, Bool-cases, Option-cases, inl, inr, any_of,
}
use comet_l.Accounts.Types.{
  Role, User, Login, Database, Outcome, ok, raised, AuthenticatedUser, empty_username,
  unsupported_role,
}
use comet_l.Accounts.{
  find_user, update_users, next_user_id, new_user, role_of, normalize_username, same_name,
  insert_user, create_user, disabled, disable_user, reset_user_password, with_role, set_user_role,
  update_user_role, get_active_session_user, session_user, login_user, revoke_session,
  reset_uploads_used_at, delete_upload_record,
}
use comet_l.Accounts.Tables.{
  Request, create, disable, set_password, set_role, log_in, authenticate, log_out, upload,
  mark_used, reset_used, delete_upload, after, step, run,
}
use comet_l.Accounts.Admins.{
  create_session-users, get_active_session_user-users, create_upload_record-users,
  mark_upload_used_once-users,
}

module _ (id : ℕ) where
  -- There is a user of this id, and the user is disabled.
  abbrev pub IsDisabled : List User → Type 0
  IsDisabled us = elim (find_user id us) [ none ↦ false | some u ↦ not u.is_active ] ≡ true

  append-IsDisabled : (us : List User) (u : User) → IsDisabled us → IsDisabled (us ++ u ∷ [])
  unfolding find_user
  append-IsDisabled [] u h = cc
  append-IsDisabled (v ∷ us) u h = ground (arith, append-IsDisabled us u)

  update-IsDisabled :
      (i : ℕ) (f : User → User) (us : List User)
      → ((v : User) → (f v).id ≡ v.id)
      → ((v : User) → v.is_active ≡ false → (f v).is_active ≡ false)
      → IsDisabled us
      → IsDisabled (update_users i f us)
  unfolding find_user
  update-IsDisabled i f [] keep stays h = cc
  update-IsDisabled i f (v ∷ us) keep stays h =
      ground (arith, keep v, stays v, update-IsDisabled i f us keep stays)

  insert_user-IsDisabled :
      (now : ℕ) (name password_hash : Text) (role : Role) (is_active : Bool) (db : Database)
      → IsDisabled db.users
      → IsDisabled (after (insert_user now name password_hash role is_active db) db).users
  unfolding insert_user
  insert_user-IsDisabled now name password_hash role is_active db h =
      elim (Bool-cases (any_of (λ (u : User). same_name u.username name) db.users)) [
        | inl taken ↦ rw taken h
        | inr free ↦ rw free (
            append-IsDisabled db.users
              (new_user (next_user_id db.users) now name password_hash role is_active) h)
      ]

  create_user-IsDisabled :
      (lower : Text → Text) (now : ℕ) (username password_hash role : Text) (is_active : Bool)
      (db : Database)
      → IsDisabled db.users
      → IsDisabled (after (create_user lower now username password_hash role is_active db) db).users
  unfolding create_user
  create_user-IsDisabled lower now username password_hash role is_active db h =
      named (normalize_username lower username) (role_of role)
    where
      named :
          (name : Text) (r : Option Role)
          → IsDisabled
              (after
                (elim name as (λ _. Outcome ℕ) [
                  | [] ↦ raised empty_username
                  | c ∷ name ↦ elim r [
                    | none ↦ raised unsupported_role
                    | some r ↦ insert_user now (c ∷ name) password_hash r is_active db
                  ]
                ])
                db).users
      named [] r = h
      named (c ∷ name) none = h
      named (c ∷ name) (some r) =
          insert_user-IsDisabled now (c ∷ name) password_hash r is_active db h

  disable_user-IsDisabled :
      (now i : ℕ) (db : Database)
      → IsDisabled db.users
      → IsDisabled (after (disable_user now i db) db).users
  unfolding disable_user
  disable_user-IsDisabled now i db h =
      ground (arith, update-IsDisabled i (disabled now) db.users (λ v. refl) (λ v e. refl) h)

  reset_user_password-IsDisabled :
      (now i : ℕ) (password_hash : Text) (db : Database)
      → IsDisabled db.users
      → IsDisabled (after (reset_user_password now i password_hash db) db).users
  unfolding reset_user_password
  reset_user_password-IsDisabled now i password_hash db h =
      elim (Option-cases (find_user i db.users)) [
        | inl e ↦ rw (e, reset_user_password) h
        | inr (u, e) ↦
            rw (e, reset_user_password) (update-IsDisabled i _ db.users (λ v. refl) (λ v f. f) h)
      ]

  update_user_role-IsDisabled :
      (now i : ℕ) (role : Text) (db : Database)
      → IsDisabled db.users
      → IsDisabled (after (update_user_role now i role db) db).users
  unfolding update_user_role set_user_role
  update_user_role-IsDisabled now i role db h = elim (Option-cases (role_of role)) [
    | inl e ↦ rw (e, update_user_role) h
    | inr (r, e) ↦
        rw (e, update_user_role)
          (ground (arith, update-IsDisabled i (with_role now r) db.users (λ v. refl) (λ v f. f) h))
  ]

  module _ (lower : Text → Text) where
    step-IsDisabled :
        (r : Request) (db : Database) → IsDisabled db.users → IsDisabled (step lower r db).users
    unfolding step revoke_session reset_uploads_used_at delete_upload_record
    step-IsDisabled (create now username password_hash role is_active) db h =
        create_user-IsDisabled lower now username password_hash role is_active db h
    step-IsDisabled (disable now i) db h = disable_user-IsDisabled now i db h
    step-IsDisabled (set_password now i password_hash) db h =
        reset_user_password-IsDisabled now i password_hash db h
    step-IsDisabled (set_role now i role) db h = update_user_role-IsDisabled now i role db h
    step-IsDisabled (log_in now user_id token_hash expires_at) db h =
        rw (create_session-users now user_id token_hash expires_at db) h
    step-IsDisabled (authenticate now token_hash) db h =
        rw (get_active_session_user-users now token_hash db) h
    step-IsDisabled (log_out now token_hash) db h = h
    step-IsDisabled (upload now i user_id status kind) db h =
        rw (create_upload_record-users now i user_id status kind db) h
    step-IsDisabled (mark_used now i user_id kind status) db h =
        rw (mark_upload_used_once-users now i user_id kind status db) h
    step-IsDisabled (reset_used now ids) db h = h
    step-IsDisabled (delete_upload i) db h = h

    run-IsDisabled :
        (rs : List Request) (db : Database)
        → IsDisabled db.users
        → IsDisabled (run lower rs db).users
    unfolding run
    run-IsDisabled [] db h = h
    run-IsDisabled (r ∷ rs) db h = run-IsDisabled rs (step lower r db) (step-IsDisabled r db h)

  find_user-id : (i : ℕ) (us : List User) {u : User} → find_user i us ≡ some u → u.id ≡ i
  unfolding find_user
  find_user-id i [] e = cc
  find_user-id i (v ∷ us) {u} e =
      ground (arith, λ (f : find_user i us ≡ some u). find_user-id i us f)

  login_user-ne :
      (now : ℕ) (l : Login) (us : List User) {u : User}
      → IsDisabled us
      → login_user now l us ≡ some u
      → u.id ≢ id
  login_user-ne now l us {u} h e same =
      ground (arith, λ (f : find_user l.user_id us ≡ some u). find_user-id l.user_id us f)

  session_user-ne :
      (now : ℕ) (token_hash : Text) (ls : List Login) (us : List User) {u : User}
      → IsDisabled us
      → session_user now token_hash ls us ≡ some u
      → u.id ≢ id
  unfolding session_user
  session_user-ne now token_hash [] us h e = cc
  session_user-ne now token_hash (l ∷ ls) us {u} h e =
      elim (Bool-cases (text_eq l.token_hash token_hash)) [
        | inl own ↦ elim (Option-cases (login_user now l us)) [
          | inl closed ↦ session_user-ne now token_hash ls us {u = u} h (ground arith)
          | inr (v, opened) ↦ login_user-ne now l us {u = u} h (ground arith)
        ]
        | inr other ↦ session_user-ne now token_hash ls us {u = u} h (ground arith)
      ]

  -- A user who is disabled is not authenticated by any token, after any operations.
  pub get_active_session_user-IsDisabled :
      (lower : Text → Text) (rs : List Request) (now : ℕ) (token_hash : Text) (db db' : Database)
      (a : AuthenticatedUser)
      → IsDisabled db.users
      → get_active_session_user now token_hash (run lower rs db) ≡ ok (some a) db'
      → a.id ≢ id
  unfolding get_active_session_user
  get_active_session_user-IsDisabled lower rs now token_hash db db' a h e =
      elim (Option-cases
        (session_user now token_hash (run lower rs db).logins (run lower rs db).users)) [
          | inl n ↦ absurd (ground arith)
          | inr (u, f) ↦
              let other =
                session_user-ne now token_hash (run lower rs db).logins (run lower rs db).users
                  (run-IsDisabled lower rs db h) f in
              ground arith
        ]
