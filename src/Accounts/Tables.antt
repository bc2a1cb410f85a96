-- ===== src/Accounts/Tables.antt =====
-- Any sequence of operations on the tables, and what an update of rows does to a count.
use comet_l.Prelude.{
  ℕ, ◌+◌, ◌≤◌, ◌≡◌, refl, Bool, ◌&&◌, some, List, [], ◌∷◌, Text, count_of, ◌==◌, arith,
  if◌then◌else◌,
}
use comet_l.Accounts.Types.{User, Database, Outcome, ok, raised}
use comet_l.Accounts.{
  find_user, update_users, create_user, disable_user, reset_user_password, update_user_role,
  create_session, get_active_session_user, revoke_session, create_upload_record,
  mark_upload_used_once, reset_uploads_used_at, delete_upload_record,
}

pub data Request : Type 0 where
  create : (now : ℕ) (username password_hash role : Text) (is_active : Bool) → Request
  disable : (now id : ℕ) → Request
  set_password : (now id : ℕ) (password_hash : Text) → Request
  set_role : (now id : ℕ) (role : Text) → Request
  log_in : (now user_id : ℕ) (token_hash : Text) (expires_at : ℕ) → Request
  authenticate : (now : ℕ) (token_hash : Text) → Request
  log_out : (now : ℕ) (token_hash : Text) → Request
  upload : (now : ℕ) (id : Text) (user_id : ℕ) (status kind : Text) → Request
  mark_used : (now : ℕ) (id : Text) (user_id : ℕ) (kind status : Text) → Request
  reset_used : (now : ℕ) (ids : List Text) → Request
  delete_upload : Text → Request

-- The tables after an operation; an error leaves them as they were.
abbrev pub after {ℓ} : {A : Type ℓ} → Outcome A → Database → Database
after (ok a db') db = db'
after (raised e) db = db

module _ (lower : Text → Text) where
  unfoldable pub step : Request → Database → Database
  unfolding create_user disable_user reset_user_password update_user_role create_session
      get_active_session_user revoke_session create_upload_record mark_upload_used_once
      reset_uploads_used_at delete_upload_record
  step (create now username password_hash role is_active) db =
      after (create_user lower now username password_hash role is_active db) db
  step (disable now id) db = after (disable_user now id db) db
  step (set_password now id password_hash) db =
      after (reset_user_password now id password_hash db) db
  step (set_role now id role) db = after (update_user_role now id role db) db
  step (log_in now user_id token_hash expires_at) db =
      after (create_session now user_id token_hash expires_at db) db
  step (authenticate now token_hash) db = after (get_active_session_user now token_hash db) db
  step (log_out now token_hash) db = after (revoke_session now token_hash db) db
  step (upload now id user_id status kind) db =
      after (create_upload_record now id user_id status kind db) db
  step (mark_used now id user_id kind status) db =
      after (mark_upload_used_once now id user_id kind status db) db
  step (reset_used now ids) db = after (reset_uploads_used_at now ids db) db
  step (delete_upload id) db = after (delete_upload_record id db) db

  unfoldable pub run : List Request → Database → Database
  unfolding step
  run [] db = db
  run (r ∷ rs) db = run rs (step r db)

-- An update moves a count by what it does to the rows of the id.
pub count_of-update :
    (p : User → Bool) (id : ℕ) (f : User → User) (us : List User)
    → count_of p (update_users id f us) + count_of (λ (u : User). (u.id == id) && p u) us
      ≡ count_of p us + count_of (λ (u : User). (u.id == id) && p (f u)) us
count_of-update p id f [] = refl
count_of-update p id f (u ∷ us) = ground (arith, count_of-update p id f us)

-- At most one row has the id.
pub count_of-id-le :
    (p : User → Bool) (id : ℕ) (us : List User)
    → count_of (λ (u : User). (u.id == id) && p u) us ≤ count_of (λ (u : User). u.id == id) us
count_of-id-le p id [] = omega arith
count_of-id-le p id (u ∷ us) = ground (arith, count_of-id-le p id us)

pub find_user-absent :
    (p : User → Bool) (id : ℕ) (us : List User)
    → count_of (λ (u : User). u.id == id) us ≡ 0
    → count_of (λ (u : User). (u.id == id) && p u) us ≡ 0
find_user-absent p id us h = omega (arith, count_of-id-le p id us)

-- The row that is found stands for all rows of its id.
pub count_of-found :
    (p : User → Bool) (id : ℕ) (us : List User) {u : User}
    → find_user id us ≡ some u
    → count_of (λ (v : User). v.id == id) us ≤ 1
    → count_of (λ (v : User). (v.id == id) && p v) us ≡ (if p u then 1 else 0)
unfolding find_user
count_of-found p id [] e h = cc
count_of-found p id (v ∷ us) {u} e h =
    ground
      (arith, find_user-absent p id us, λ (f : find_user id us ≡ some u). count_of-found p id us f)
