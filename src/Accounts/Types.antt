-- ===== src/Accounts/Types.antt =====
-- The rows of the tables of users, sessions and uploads, and what the operations on them return.
use comet_l.Prelude.{ℕ, Bool, Option, List, Text}

pub data Role : Type 0 where
  admin user : Role

pub record User : Type 0 where
  pub id : ℕ
  pub username : Text
  pub password_hash : Text
  pub role : Role
  pub is_active : Bool
  pub created_at : ℕ
  pub updated_at : ℕ
  pub disabled_at : Option ℕ
  pub password_changed_at : ℕ

-- A login; the user agent and the address are left out.
pub record Login : Type 0 where
  pub id : ℕ
  pub user_id : ℕ
  pub token_hash : Text
  pub created_at : ℕ
  pub expires_at : ℕ
  pub revoked_at : Option ℕ
  pub last_seen_at : ℕ

-- An upload; its file name, paths, size and metadata are left out.
pub record Upload : Type 0 where
  pub id : Text
  pub user_id : ℕ
  pub status : Text
  pub kind : Text
  pub created_at : ℕ
  pub updated_at : ℕ
  pub used_at : Option ℕ

pub record Database : Type 0 where
  pub users : List User
  pub logins : List Login  -- the table `sessions`
  pub uploads : List Upload

pub data AccountError : Type 0 where
  empty_username unsupported_role duplicate_user user_not_found last_active_admin : AccountError
  integrity : AccountError  -- an IntegrityError of the database that is not caught

-- An operation returns a value with the tables after it; an error rolls the tables back.
pub data Outcome {ℓ} (A : Type ℓ) : Type ℓ where
  ok : A → Database → Outcome A
  raised : AccountError → Outcome A

-- `AuthenticatedUser`
pub record AuthenticatedUser : Type 0 where
  pub id : ℕ
  pub username : Text
  pub role : Role
