-- ===== src/Accounts/Tokens.antt =====
-- A token that was revoked opens nothing afterwards, and an upload is used once.
use mathlib.Core.Path.{subst}
use comet_l.Prelude.{
  ℕ, ◌≡◌, refl, Bool, true, false, ◌&&◌, not, none, List, [], ◌∷◌, ◌++◌, Text, text_eq, any_of,
  any_of-append, arith, Bool-cases, Option-cases, inl, inr, is_some, text_eq→eq,
}
use comet_l.Accounts.Types.{User, Login, Database, ok}
use comet_l.Accounts.{
  create_user, disable_user, reset_user_password, set_user_role, update_user_role, insert_user,
  find_user, create_session, new_login, next_login_id, update_logins, session_user,
  get_active_session_user, revoke, revoke_session, create_upload_record, mark_upload_used_once,
  reset_uploads_used_at, delete_upload_record,
}
use comet_l.Accounts.Tables.{
  Request, create, disable, set_password, set_role, log_in, authenticate, log_out, upload,
  mark_used, reset_used, delete_upload, after, step, run,
}

abbrev pub has_token : Text → Login → Bool
has_token token_hash l = text_eq l.token_hash token_hash

-- A login of the token is open.
abbrev pub open_login : Text → Login → Bool
open_login token_hash l = text_eq l.token_hash token_hash && not (is_some l.revoked_at)

create_user-logins :
    (lower : Text → Text) (now : ℕ) (username password_hash role : Text) (is_active : Bool)
    (db : Database)
    → (after (create_user lower now username password_hash role is_active db) db).logins ≡ db.logins
unfolding create_user insert_user
create_user-logins lower now username password_hash role is_active db = ground arith

disable_user-logins :
    (now id : ℕ) (db : Database) → (after (disable_user now id db) db).logins ≡ db.logins
unfolding disable_user
disable_user-logins now id db = ground arith

reset_user_password-logins :
    (now id : ℕ) (password_hash : Text) (db : Database)
    → (after (reset_user_password now id password_hash db) db).logins ≡ db.logins
unfolding reset_user_password
reset_user_password-logins now id password_hash db = ground arith

update_user_role-logins :
    (now id : ℕ) (role : Text) (db : Database)
    → (after (update_user_role now id role db) db).logins ≡ db.logins
unfolding update_user_role set_user_role
update_user_role-logins now id role db = ground arith

create_upload_record-logins :
    (now : ℕ) (id : Text) (user_id : ℕ) (status kind : Text) (db : Database)
    → (after (create_upload_record now id user_id status kind db) db).logins ≡ db.logins
unfolding create_upload_record
create_upload_record-logins now id user_id status kind db = ground arith

mark_upload_used_once-logins :
    (now : ℕ) (id : Text) (user_id : ℕ) (kind status : Text) (db : Database)
    → (after (mark_upload_used_once now id user_id kind status db) db).logins ≡ db.logins
unfolding mark_upload_used_once
mark_upload_used_once-logins now id user_id kind status db = ground arith

module _ (token_hash : Text) where
  -- The token has a login, and none that is open.
  abbrev pub IsRevoked : List Login → Type 0
  IsRevoked ls =
      (any_of (has_token token_hash) ls && not (any_of (open_login token_hash) ls)) ≡ true

  any_of-update :
      (p : Login → Bool) (other : Text) (f : Login → Login) (ls : List Login)
      → ((l : Login) → p (f l) ≡ p l)
      → any_of p (update_logins other f ls) ≡ any_of p ls
  any_of-update p other f [] keep = refl
  any_of-update p other f (l ∷ ls) keep = ground (arith, keep l, any_of-update p other f ls keep)

  any_of-revoke :
      (now : ℕ) (other : Text) (ls : List Login)
      → any_of (open_login token_hash) ls ≡ false
      → any_of (open_login token_hash) (update_logins other (revoke now) ls) ≡ false
  any_of-revoke now other [] h = refl
  any_of-revoke now other (l ∷ ls) h = ground (arith, any_of-revoke now other ls)

  revoke-open :
      (now : ℕ) (ls : List Login)
      → any_of (open_login token_hash) (update_logins token_hash (revoke now) ls) ≡ false
  revoke-open now [] = refl
  revoke-open now (l ∷ ls) = ground (arith, revoke-open now ls)

  open-has_token :
      (ls : List Login)
      → any_of (open_login token_hash) ls ≡ true
      → any_of (has_token token_hash) ls ≡ true
  open-has_token [] h = cc
  open-has_token (l ∷ ls) h = ground (arith, open-has_token ls)

  append-IsRevoked :
      (l : Login) (ls : List Login)
      → text_eq l.token_hash token_hash ≡ false
      → IsRevoked ls
      → IsRevoked (ls ++ l ∷ [])
  append-IsRevoked l ls other h = ground (
    arith,
    any_of-append (has_token token_hash) ls (l ∷ []),
    any_of-append (open_login token_hash) ls (l ∷ []),
  )

  absent_token :
      (other : Text) (ls : List Login)
      → any_of (λ (l : Login). text_eq l.token_hash other) ls ≡ false
      → any_of (has_token token_hash) ls ≡ true
      → text_eq other token_hash ≡ false
  absent_token other ls free there = elim (Bool-cases (text_eq other token_hash)) [
    | inl e ↦
        let none_own : any_of (has_token token_hash) ls ≡ false =
          subst (λ t. any_of (has_token t) ls ≡ false) (text_eq→eq other token_hash e) free in
        absurd (ground arith)
    | inr e ↦ e
  ]

  create_session-IsRevoked :
      (now user_id : ℕ) (other : Text) (expires_at : ℕ) (db : Database)
      → IsRevoked db.logins
      → IsRevoked (after (create_session now user_id other expires_at db) db).logins
  unfolding create_session
  create_session-IsRevoked now user_id other expires_at db h =
      elim (Bool-cases (any_of (λ (l : Login). text_eq l.token_hash other) db.logins)) [
        | inl taken ↦ rw (create_session, taken) h
        | inr free ↦ elim (Bool-cases (is_some (find_user user_id db.users))) [
          | inl known ↦
              rw (create_session, free, known)
                (append-IsRevoked (new_login (next_login_id db.logins) now user_id other expires_at)
                  db.logins (absent_token other db.logins free (ground arith)) h)
          | inr unknown ↦ rw (create_session, free, unknown) h
        ]
      ]

  get_active_session_user-IsRevoked :
      (now : ℕ) (other : Text) (db : Database)
      → IsRevoked db.logins
      → IsRevoked (after (get_active_session_user now other db) db).logins
  unfolding get_active_session_user
  get_active_session_user-IsRevoked now other db h =
      elim (Option-cases (session_user now other db.logins db.users)) [
        | inl e ↦ rw (get_active_session_user, e) h
        | inr (u, e) ↦
            rw (get_active_session_user, e)
              (ground (
                arith,
                any_of-update (has_token token_hash) other
                    (λ (l : Login). record l { last_seen_at = now }) db.logins (λ l. refl),
                any_of-update (open_login token_hash) other
                    (λ (l : Login). record l { last_seen_at = now }) db.logins (λ l. refl),
              ))
      ]

  revoke_session-IsRevoked :
      (now : ℕ) (other : Text) (db : Database)
      → IsRevoked db.logins
      → IsRevoked (after (revoke_session now other db) db).logins
  unfolding revoke_session
  revoke_session-IsRevoked now other db h = ground (
    arith,
    any_of-update (has_token token_hash) other (revoke now) db.logins (λ l. refl),
    any_of-revoke now other db.logins,
  )

  module _ (lower : Text → Text) where
    step-IsRevoked :
        (r : Request) (db : Database) → IsRevoked db.logins → IsRevoked (step lower r db).logins
    unfolding step reset_uploads_used_at delete_upload_record
    step-IsRevoked (create now username password_hash role is_active) db h =
        rw (create_user-logins lower now username password_hash role is_active db) h
    step-IsRevoked (disable now i) db h = rw (disable_user-logins now i db) h
    step-IsRevoked (set_password now i password_hash) db h =
        rw (reset_user_password-logins now i password_hash db) h
    step-IsRevoked (set_role now i role) db h = rw (update_user_role-logins now i role db) h
    step-IsRevoked (log_in now user_id token expires_at) db h =
        create_session-IsRevoked now user_id token expires_at db h
    step-IsRevoked (authenticate now token) db h = get_active_session_user-IsRevoked now token db h
    step-IsRevoked (log_out now token) db h = revoke_session-IsRevoked now token db h
    step-IsRevoked (upload now i user_id status kind) db h =
        rw (create_upload_record-logins now i user_id status kind db) h
    step-IsRevoked (mark_used now i user_id kind status) db h =
        rw (mark_upload_used_once-logins now i user_id kind status db) h
    step-IsRevoked (reset_used now ids) db h = h
    step-IsRevoked (delete_upload i) db h = h

    run-IsRevoked :
        (rs : List Request) (db : Database)
        → IsRevoked db.logins
        → IsRevoked (run lower rs db).logins
    unfolding run
    run-IsRevoked [] db h = h
    run-IsRevoked (r ∷ rs) db h = run-IsRevoked rs (step lower r db) (step-IsRevoked r db h)

  session_user-closed :
      (now : ℕ) (ls : List Login) (us : List User)
      → any_of (open_login token_hash) ls ≡ false
      → session_user now token_hash ls us ≡ none
  unfolding session_user
  session_user-closed now [] us h = refl
  session_user-closed now (l ∷ ls) us h = ground (arith, session_user-closed now ls us)

  revoke_session-revokes :
      (now : ℕ) (db : Database)
      → any_of (open_login token_hash) db.logins ≡ true
      → IsRevoked (after (revoke_session now token_hash db) db).logins
  unfolding revoke_session
  revoke_session-revokes now db h = ground (
    arith,
    any_of-update (has_token token_hash) token_hash (revoke now) db.logins (λ l. refl),
    revoke-open now db.logins,
    open-has_token db.logins,
  )

  -- Where `revoke_session` says that it revoked a login, the token authenticates nobody afterwards, at
  -- any time and after any operations, and looking it up changes nothing.
  pub get_active_session_user-revoked :
      (lower : Text → Text) (now : ℕ) (rs : List Request) (now' : ℕ) (db db' : Database)
      → revoke_session now token_hash db ≡ ok true db'
      → get_active_session_user now' token_hash (run lower rs db') ≡ ok none (run lower rs db')
  unfolding get_active_session_user revoke_session
  get_active_session_user-revoked lower now rs now' db db' e =
      let revoked : IsRevoked db'.logins = ground (arith, revoke_session-revokes now db) in
      let closed = run-IsRevoked lower rs db' revoked in
      rw
        (
          get_active_session_user,
          session_user-closed now' (run lower rs db').logins (run lower rs db').users
              (ground arith),
        )
        refl
