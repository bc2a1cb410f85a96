-- ===== src/Accounts/Admins.antt =====
-- There is always an administrator who can log in.
use comet_l.Prelude.{
  ℕ, ◌≤◌, ◌≡◌, refl, Bool, true, false, not, ◌&&◌, Option, none, some, List, [], ◌∷◌, ◌++◌, Text,
  count_of, ◌==◌, arith, Bool-cases, Option-cases, inl, inr, count_of-append, any_of,
}
use comet_l.Accounts.Types.{Role, User, Database, Outcome, raised, empty_username, unsupported_role}
use comet_l.Accounts.{
  is_admin, is_active_admin, is_last_active_admin, find_user, update_users, same_name, next_user_id,
  new_user, role_of, normalize_username, insert_user, create_user, disabled, disable_user,
  reset_user_password, with_role, set_user_role, update_user_role, create_session,
  get_active_session_user, revoke_session, create_upload_record, mark_upload_used_once,
  reset_uploads_used_at, delete_upload_record,
}
use comet_l.Accounts.Tables.{
  Request, create, disable, set_password, set_role, log_in, authenticate, log_out, upload,
  mark_used, reset_used, delete_upload, after, step, run, count_of-update, count_of-found,
}

-- No id is given to two users, and an administrator is active.
pub record HasAdmin (us : List User) : Type 0 where
  pub one_row : (i : ℕ) → count_of (λ (u : User). u.id == i) us ≤ 1
  pub some_admin : 1 ≤ count_of is_active_admin us

next_user_id-count :
    (i : ℕ) (us : List User) → next_user_id us ≤ i → count_of (λ (u : User). u.id == i) us ≡ 0
unfolding next_user_id
next_user_id-count i [] h = refl
next_user_id-count i (u ∷ us) h = ground (arith, next_user_id-count i us)

append-HasAdmin :
    (us : List User) (u : User) → u.id ≡ next_user_id us → HasAdmin us → HasAdmin (us ++ u ∷ [])
append-HasAdmin us u e h = record {
  one_row = λ i. ground (
    arith,
    count_of-append (λ (v : User). v.id == i) us (u ∷ []),
    next_user_id-count i us,
    h.one_row i,
  );
  some_admin = ground (arith, count_of-append is_active_admin us (u ∷ []));
}

update-one_row :
    (i id : ℕ) (f : User → User) (us : List User)
    → ((u : User) → (f u).id ≡ u.id)
    → count_of (λ (u : User). u.id == i) (update_users id f us)
      ≡ count_of (λ (u : User). u.id == i) us
update-one_row i id f [] keep = refl
update-one_row i id f (u ∷ us) keep = ground (arith, keep u, update-one_row i id f us keep)

-- An update of a user who is found, where an administrator is left over or the user stays one.
update-HasAdmin :
    (id : ℕ) (f : User → User) (us : List User) (u : User)
    → ((v : User) → (f v).id ≡ v.id)
    → find_user id us ≡ some u
    → ((is_active_admin u ≡ true)
        → (is_active_admin (f u) ≡ false)
        → 2 ≤ count_of is_active_admin us)
    → HasAdmin us
    → HasAdmin (update_users id f us)
update-HasAdmin id f us u keep found enough h = record {
  one_row = λ i. omega (arith, update-one_row i id f us keep, h.one_row i);
  some_admin = ground (
    arith,
    count_of-update is_active_admin id f us,
    count_of-found is_active_admin id us found (h.one_row id),
    count_of-found (λ v. is_active_admin (f v)) id us found (h.one_row id),
    enough,
  );
}

insert_user-HasAdmin :
    (now : ℕ) (name password_hash : Text) (role : Role) (is_active : Bool) (db : Database)
    → HasAdmin db.users
    → HasAdmin (after (insert_user now name password_hash role is_active db) db).users
unfolding insert_user
insert_user-HasAdmin now name password_hash role is_active db h =
    elim (Bool-cases (any_of (λ (u : User). same_name u.username name) db.users)) [
      | inl taken ↦ rw taken h
      | inr free ↦ rw free (
          append-HasAdmin db.users
            (new_user (next_user_id db.users) now name password_hash role is_active) refl h)
    ]

create_user-HasAdmin :
    (lower : Text → Text) (now : ℕ) (username password_hash role : Text) (is_active : Bool)
    (db : Database)
    → HasAdmin db.users
    → HasAdmin (after (create_user lower now username password_hash role is_active db) db).users
unfolding create_user
create_user-HasAdmin lower now username password_hash role is_active db h =
    named (normalize_username lower username) (role_of role)
  where
    named :
        (name : Text) (r : Option Role)
        → HasAdmin
            (after
              (elim name as (λ _. Outcome ℕ) [
                | [] ↦ raised empty_username
                | c ∷ name ↦ elim r [
                  | none ↦ raised unsupported_role
                  | some r ↦ insert_user now (c ∷ name) password_hash r is_active db
                ]
              ])
              db).users
    named [] r = h
    named (c ∷ name) none = h
    named (c ∷ name) (some r) = insert_user-HasAdmin now (c ∷ name) password_hash r is_active db h

disable_user-HasAdmin :
    (now id : ℕ) (db : Database)
    → HasAdmin db.users
    → HasAdmin (after (disable_user now id db) db).users
unfolding disable_user is_last_active_admin
disable_user-HasAdmin now id db h = elim (Option-cases (find_user id db.users)) [
  | inl e ↦ rw (e, disable_user) h
  | inr (u, e) ↦ elim (Bool-cases (is_last_active_admin u db.users)) [
    | inl last ↦ rw (e, disable_user, last) h
    | inr more ↦
        rw (e, disable_user, more)
          (update-HasAdmin id (disabled now) db.users u (λ v. refl) e (λ a b. ground arith) h)
  ]
]

reset_user_password-HasAdmin :
    (now id : ℕ) (password_hash : Text) (db : Database)
    → HasAdmin db.users
    → HasAdmin (after (reset_user_password now id password_hash db) db).users
unfolding reset_user_password
reset_user_password-HasAdmin now id password_hash db h =
    elim (Option-cases (find_user id db.users)) [
      | inl e ↦ rw (e, reset_user_password) h
      | inr (u, e) ↦
          rw (e, reset_user_password)
            (update-HasAdmin id _ db.users u (λ v. refl) e (λ a b. absurd cc) h)
    ]

set_user_role-HasAdmin :
    (now id : ℕ) (role : Role) (db : Database)
    → HasAdmin db.users
    → HasAdmin (after (set_user_role now id role db) db).users
unfolding set_user_role is_last_active_admin
set_user_role-HasAdmin now id role db h = elim (Option-cases (find_user id db.users)) [
  | inl e ↦ rw (e, set_user_role) h
  | inr (u, e) ↦ elim (Bool-cases (not (is_admin role) && is_last_active_admin u db.users)) [
    | inl last ↦ rw (e, set_user_role, last) h
    | inr more ↦
        rw (e, set_user_role, more)
          (update-HasAdmin id (with_role now role) db.users u (λ v. refl) e (λ a b. ground arith) h)
  ]
]

update_user_role-HasAdmin :
    (now id : ℕ) (role : Text) (db : Database)
    → HasAdmin db.users
    → HasAdmin (after (update_user_role now id role db) db).users
unfolding update_user_role
update_user_role-HasAdmin now id role db h = elim (Option-cases (role_of role)) [
  | inl e ↦ rw (e, update_user_role) h
  | inr (r, e) ↦ rw (e, update_user_role) (set_user_role-HasAdmin now id r db h)
]

pub create_session-users :
    (now user_id : ℕ) (token_hash : Text) (expires_at : ℕ) (db : Database)
    → (after (create_session now user_id token_hash expires_at db) db).users ≡ db.users
unfolding create_session
create_session-users now user_id token_hash expires_at db = ground arith

pub get_active_session_user-users :
    (now : ℕ) (token_hash : Text) (db : Database)
    → (after (get_active_session_user now token_hash db) db).users ≡ db.users
unfolding get_active_session_user
get_active_session_user-users now token_hash db = ground arith

pub create_upload_record-users :
    (now : ℕ) (id : Text) (user_id : ℕ) (status kind : Text) (db : Database)
    → (after (create_upload_record now id user_id status kind db) db).users ≡ db.users
unfolding create_upload_record
create_upload_record-users now id user_id status kind db = ground arith

pub mark_upload_used_once-users :
    (now : ℕ) (id : Text) (user_id : ℕ) (kind status : Text) (db : Database)
    → (after (mark_upload_used_once now id user_id kind status db) db).users ≡ db.users
unfolding mark_upload_used_once
mark_upload_used_once-users now id user_id kind status db = ground arith

module _ (lower : Text → Text) where
  step-HasAdmin :
      (r : Request) (db : Database) → HasAdmin db.users → HasAdmin (step lower r db).users
  unfolding step revoke_session reset_uploads_used_at delete_upload_record
  step-HasAdmin (create now username password_hash role is_active) db h =
      create_user-HasAdmin lower now username password_hash role is_active db h
  step-HasAdmin (disable now id) db h = disable_user-HasAdmin now id db h
  step-HasAdmin (set_password now id password_hash) db h =
      reset_user_password-HasAdmin now id password_hash db h
  step-HasAdmin (set_role now id role) db h = update_user_role-HasAdmin now id role db h
  step-HasAdmin (log_in now user_id token_hash expires_at) db h =
      rw (create_session-users now user_id token_hash expires_at db) h
  step-HasAdmin (authenticate now token_hash) db h =
      rw (get_active_session_user-users now token_hash db) h
  step-HasAdmin (log_out now token_hash) db h = h
  step-HasAdmin (upload now id user_id status kind) db h =
      rw (create_upload_record-users now id user_id status kind db) h
  step-HasAdmin (mark_used now id user_id kind status) db h =
      rw (mark_upload_used_once-users now id user_id kind status db) h
  step-HasAdmin (reset_used now ids) db h = h
  step-HasAdmin (delete_upload id) db h = h

  -- No sequence of operations disables or demotes the last active administrator: if user ids are
  -- distinct and an administrator is active, both hold afterwards.
  pub run-HasAdmin :
      (rs : List Request) (db : Database) → HasAdmin db.users → HasAdmin (run lower rs db).users
  unfolding run
  run-HasAdmin [] db h = h
  run-HasAdmin (r ∷ rs) db h = run-HasAdmin rs (step lower r db) (step-HasAdmin r db h)
