-- ===== src/Accounts.antt =====
-- The accounts of the web server (comet/web/storage.py, class WebDatabase: users, sessions and
-- uploads). Each operation is a function on the tables; times are numbers, and the clock's reading and
-- `str.lower` are arguments. A foreign key and a UNIQUE column raise an IntegrityError, as the schema
-- says. An operation runs as one step; in the source its SELECT stands outside the write transaction
-- of its UPDATE.
mod Types
mod Tables
mod Users
mod Admins
mod Tokens
mod Uploads
mod UsedOnce
mod Tests
pub use Types.{
  Role, admin, user, User, Login, Upload, Database, AccountError, empty_username, unsupported_role,
  duplicate_user, user_not_found, last_active_admin, integrity, Outcome, ok, raised,
  AuthenticatedUser,
}
use comet_l.Prelude.{
  ℕ, suc, ◌+◌, ◌-◌, max, Bool, true, false, ◌&&◌, ◌||◌, not, Option, none, some, List, [], ◌∷◌,
  ◌++◌, map, Text, codes, text_eq, text_lt, contains, any_of, filter_by, count_of, sort_by, is_some,
  or_else, ltb, leb, ◌==◌, skip_spaces, drop_spaces_right, if◌then◌else◌,
}

abbrev pub is_admin : Role → Bool
is_admin admin = true
is_admin user = false

abbrev pub role_of : Text → Option Role
role_of name =
    if text_eq name (codes "admin")
    then some admin
    else if text_eq name (codes "user")
    then some user
    else none

-- `normalize_username`; an empty name is an error.
unfoldable pub normalize_username : (Text → Text) → Text → Text
unfolding skip_spaces drop_spaces_right
normalize_username lower name = lower (drop_spaces_right (skip_spaces name))

-- The comparison of the column, COLLATE NOCASE: the letters A to Z equal a to z.
abbrev fold_case : ℕ → ℕ
fold_case c = if leb 65 c && leb c 90 then c + 32 else c

abbrev pub same_name : Text → Text → Bool
same_name a b = text_eq (map fold_case a) (map fold_case b)

unfoldable pub find_user : ℕ → List User → Option User
find_user id [] = none
find_user id (u ∷ us) = if u.id == id then some u else find_user id us

-- `get_safe_user_by_id`
abbrev get_safe_user_by_id : ℕ → Database → Outcome (Option User)
get_safe_user_by_id id db = ok (find_user id db.users) db

-- `UPDATE users SET … WHERE id = ?`
abbrev pub update_users : ℕ → (User → User) → List User → List User
update_users id f = map (λ (u : User). if u.id == id then f u else u)

unfoldable pub next_user_id : List User → ℕ
next_user_id [] = 1
next_user_id (u ∷ us) = max (u.id + 1) (next_user_id us)

abbrev pub new_user : ℕ → ℕ → Text → Text → Role → Bool → User
new_user id now name password_hash role is_active = record {
  id = id;
  username = name;
  password_hash = password_hash;
  role = role;
  is_active = is_active;
  created_at = now;
  updated_at = now;
  disabled_at = none;
  password_changed_at = now;
}

-- The INSERT of `create_user`
unfoldable pub insert_user : ℕ → Text → Text → Role → Bool → Database → Outcome ℕ
unfolding next_user_id
insert_user now name password_hash role is_active db =
    if any_of (λ (u : User). same_name u.username name) db.users
    then raised duplicate_user
    else let id = next_user_id db.users in
      ok id
        (record db { users = db.users ++ new_user id now name password_hash role is_active ∷ [] })

-- `create_user`
unfoldable pub create_user : (Text → Text) → ℕ → Text → Text → Text → Bool → Database → Outcome ℕ
unfolding normalize_username insert_user
create_user lower now username password_hash role is_active db =
    elim (normalize_username lower username) [
      | [] ↦ raised empty_username
      | c ∷ name ↦ elim (role_of role) [
        | none ↦ raised unsupported_role
        | some r ↦ insert_user now (c ∷ name) password_hash r is_active db
      ]
    ]

-- `create_admin`
unfoldable pub create_admin : (Text → Text) → ℕ → Text → Text → Database → Outcome ℕ
unfolding create_user
create_admin lower now username password_hash =
    create_user lower now username password_hash (codes "admin") true

-- `SELECT * FROM users WHERE username = ? COLLATE NOCASE`
unfoldable pub find_by : Text → List User → Option User
find_by name [] = none
find_by name (u ∷ us) = if same_name u.username name then some u else find_by name us

unfoldable pub get_user_by_username : (Text → Text) → Text → Database → Outcome (Option User)
unfolding normalize_username find_by
get_user_by_username lower username db = elim (normalize_username lower username) [
  | [] ↦ raised empty_username
  | c ∷ name ↦ ok (find_by (c ∷ name) db.users) db
]

-- `list_users`: by name without regard to case, then by id
unfoldable pub list_users : Database → List User
unfolding sort_by
list_users db =
    sort_by
      (λ (a : User) (b : User).
        text_lt (map fold_case a.username) (map fold_case b.username)
        || (same_name a.username b.username && ltb a.id b.id))
      db.users

abbrev pub is_active_admin : User → Bool
is_active_admin u = is_admin u.role && u.is_active

-- `_ensure_not_last_active_admin`: whether it raises.
unfoldable pub is_last_active_admin : User → List User → Bool
is_last_active_admin u users =
    if not (is_active_admin u) then false else leb (count_of is_active_admin users) 1

abbrev pub disabled : ℕ → User → User
disabled now u = record u {
  is_active = false;
  disabled_at = or_else u.disabled_at (some now);
  updated_at = now;
}

-- The updated row is the row that was found, changed.
unfoldable pub disable_user : ℕ → ℕ → Database → Outcome User
unfolding find_user is_last_active_admin
disable_user now id db = elim (find_user id db.users) [
  | none ↦ raised user_not_found
  | some u ↦
      if is_last_active_admin u db.users
      then raised last_active_admin
      else ok (disabled now u) (record db { users = update_users id (disabled now) db.users })
]

abbrev with_password : ℕ → Text → User → User
with_password now password_hash u = record u {
  password_hash = password_hash;
  password_changed_at = now;
  updated_at = now;
}

unfoldable pub reset_user_password : ℕ → ℕ → Text → Database → Outcome User
unfolding find_user
reset_user_password now id password_hash db = elim (find_user id db.users) [
  | none ↦ raised user_not_found
  | some u ↦
      ok (with_password now password_hash u)
        (record db { users = update_users id (with_password now password_hash) db.users })
]

abbrev pub with_role : ℕ → Role → User → User
with_role now role u = record u { role = role; updated_at = now }

-- `update_user_role` for a role that exists
unfoldable pub set_user_role : ℕ → ℕ → Role → Database → Outcome User
unfolding find_user is_last_active_admin
set_user_role now id role db = elim (find_user id db.users) [
  | none ↦ raised user_not_found
  | some u ↦
      if not (is_admin role) && is_last_active_admin u db.users
      then raised last_active_admin
      else ok (with_role now role u)
          (record db { users = update_users id (with_role now role) db.users })
]

unfoldable pub update_user_role : ℕ → ℕ → Text → Database → Outcome User
unfolding set_user_role
update_user_role now id role db = elim (role_of role) [
  | none ↦ raised unsupported_role
  | some r ↦ set_user_role now id r db
]

unfoldable pub next_login_id : List Login → ℕ
next_login_id [] = 1
next_login_id (l ∷ ls) = max (l.id + 1) (next_login_id ls)

abbrev pub new_login : ℕ → ℕ → ℕ → Text → ℕ → Login
new_login id now user_id token_hash expires_at = record {
  id = id;
  user_id = user_id;
  token_hash = token_hash;
  created_at = now;
  expires_at = expires_at;
  revoked_at = none;
  last_seen_at = now;
}

-- `create_session`: the token is UNIQUE, and the user a foreign key.
unfoldable pub create_session : ℕ → ℕ → Text → ℕ → Database → Outcome ℕ
unfolding find_user next_login_id
create_session now user_id token_hash expires_at db =
    if any_of (λ (l : Login). text_eq l.token_hash token_hash) db.logins
    then raised integrity
    else if not (is_some (find_user user_id db.users))
    then raised integrity
    else let id = next_login_id db.logins in
      ok id
        (record db { logins = db.logins ++ new_login id now user_id token_hash expires_at ∷ [] })

-- `UPDATE sessions SET … WHERE token_hash = ?`
abbrev pub update_logins : Text → (Login → Login) → List Login → List Login
update_logins token_hash f = map (λ (l : Login). if text_eq l.token_hash token_hash then f l else l)

-- The user of a login that is open, if the user is active.
abbrev pub login_user : ℕ → Login → List User → Option User
login_user now l users =
    if is_some l.revoked_at
    then none
    else if not (ltb now l.expires_at)
    then none
    else elim (find_user l.user_id users) [
      | none ↦ none
      | some u ↦ if u.is_active then some u else none
    ]

unfoldable pub session_user : ℕ → Text → List Login → List User → Option User
unfolding find_user
session_user now token_hash [] users = none
session_user now token_hash (l ∷ ls) users =
    if text_eq l.token_hash token_hash
    then or_else (login_user now l users) (session_user now token_hash ls users)
    else session_user now token_hash ls users

abbrev authenticated : User → AuthenticatedUser
authenticated u = record { id = u.id; username = u.username; role = u.role }

-- `get_active_session_user`
unfoldable pub get_active_session_user : ℕ → Text → Database → Outcome (Option AuthenticatedUser)
unfolding session_user
get_active_session_user now token_hash db = elim (session_user now token_hash db.logins db.users) [
  | none ↦ ok none db
  | some u ↦ ok (some (authenticated u)) (record db {
    logins = update_logins token_hash (λ (l : Login). record l { last_seen_at = now }) db.logins;
  })
]

abbrev is_open : Text → Login → Bool
is_open token_hash l = text_eq l.token_hash token_hash && not (is_some l.revoked_at)

abbrev pub revoke : ℕ → Login → Login
revoke now l = record l { revoked_at = or_else l.revoked_at (some now) }

-- `revoke_session`: whether a login was open.
unfoldable pub revoke_session : ℕ → Text → Database → Outcome Bool
revoke_session now token_hash db =
    ok (any_of (is_open token_hash) db.logins)
      (record db { logins = update_logins token_hash (revoke now) db.logins })

-- `create_upload_record`: the id is the primary key, and the user a foreign key.
unfoldable pub create_upload_record : ℕ → Text → ℕ → Text → Text → Database → Outcome (Unit {0})
unfolding find_user
create_upload_record now id user_id status kind db =
    if any_of (λ (u : Upload). text_eq u.id id) db.uploads
    then raised integrity
    else if not (is_some (find_user user_id db.users))
    then raised integrity
    else ok tt (record db {
      uploads =
          db.uploads
          ++ record {
            id = id;
            user_id = user_id;
            status = status;
            kind = kind;
            created_at = now;
            updated_at = now;
            used_at = none;
          }
            ∷ [];
    })

abbrev pub is_upload : Text → ℕ → Text → Text → Upload → Bool
is_upload id user_id kind status u =
    text_eq u.id id && u.user_id == user_id && text_eq u.kind kind && text_eq u.status status

abbrev pub used : ℕ → Upload → Upload
used now u = record u { used_at = some now; updated_at = now }

unfoldable pub find_upload : (Upload → Bool) → List Upload → Option Upload
find_upload p [] = none
find_upload p (u ∷ us) = if p u then some u else find_upload p us

-- `mark_upload_used_once`
unfoldable pub mark_upload_used_once :
    ℕ → Text → ℕ → Text → Text → Database → Outcome (Option Upload)
unfolding find_upload
mark_upload_used_once now id user_id kind status db =
    elim (find_upload (is_upload id user_id kind status) db.uploads) [
      | none ↦ ok none db
      | some u ↦
          if is_some u.used_at
          then ok none db
          else ok (some (used now u)) (record db {
            uploads =
                map
                  (λ (v : Upload).
                    if is_upload id user_id kind status v && not (is_some v.used_at)
                    then used now v
                    else v)
                  db.uploads;
          })
    ]

-- `reset_uploads_used_at`
unfoldable pub reset_uploads_used_at : ℕ → List Text → Database → Outcome (Unit {0})
reset_uploads_used_at now ids db = ok tt (record db {
  uploads =
      map
        (λ (u : Upload).
          if contains u.id ids then record u { used_at = none; updated_at = now } else u)
        db.uploads;
})

-- `delete_upload_record`
unfoldable pub delete_upload_record : Text → Database → Outcome Bool
delete_upload_record id db =
    ok (any_of (λ (u : Upload). text_eq u.id id) db.uploads)
      (record db { uploads = filter_by (λ (u : Upload). not (text_eq u.id id)) db.uploads })
