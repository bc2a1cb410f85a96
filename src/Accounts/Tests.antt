-- ===== src/Accounts/Tests.antt =====
-- The tables of accounts on concrete requests, and the theorems at such inputs.
use comet_l.Prelude.{
  ◌≡◌, ◌≢◌, refl, true, false, none, some, List, [], ◌∷◌, Text, codes, text_eq, arith,
}
use comet_l.Accounts.Types.{
  admin, user, User, Upload, Database, ok, raised, last_active_admin, empty_username,
  AuthenticatedUser,
}
use comet_l.Accounts.{
  new_user, new_login, create_user, disable_user, update_user_role, revoke_session,
  mark_upload_used_once, get_active_session_user, used,
}
use comet_l.Accounts.Tables.{Request, create, disable, set_role, log_in, log_out, authenticate, run}
use comet_l.Accounts.Admins.{HasAdmin, run-HasAdmin}
use comet_l.Accounts.Users.{get_active_session_user-IsDisabled}
use comet_l.Accounts.Tokens.{get_active_session_user-revoked}
use comet_l.Accounts.UsedOnce.{mark_upload_used_once-used}

abbrev same_text : Text → Text
same_text s = s

abbrev root : User
root = new_user 1 10 (codes "root") (codes "h") admin true

abbrev guest : User
guest = record (new_user 2 11 (codes "guest") (codes "g") user false) { disabled_at = some 12 }

abbrev token : Text
token = codes "t"

abbrev config : Text
config = codes "config"

abbrev saved : Text
saved = codes "saved"

abbrev config_upload : Upload
config_upload = record {
  id = codes "u";
  user_id = 1;
  status = saved;
  kind = config;
  created_at = 20;
  updated_at = 20;
  used_at = none;
}

abbrev example_tables : Database
example_tables = record {
  users = root ∷ guest ∷ [];
  logins = new_login 1 20 1 token 99 ∷ new_login 2 20 2 (codes "g") 99 ∷ [];
  uploads = config_upload ∷ [];
}

disable_root : disable_user 30 1 example_tables ≡ raised last_active_admin
unfolding disable_user
disable_root = refl

demote_root : update_user_role 30 1 (codes "user") example_tables ≡ raised last_active_admin
unfolding update_user_role text_eq
demote_root = refl

create_blank :
    create_user same_text 30 (codes "  ") (codes "h") (codes "user") true example_tables
    ≡ raised empty_username
unfolding create_user
create_blank = refl

abbrev example_requests : List Request
example_requests =
    create 30 (codes " Eve ") (codes "e") (codes "admin") true
    ∷ disable 31 1
    ∷ set_role 32 3 (codes "user")
    ∷ log_in 33 2 (codes "x") 99
    ∷ authenticate 34 (codes "x")
    ∷ []

example_tables-HasAdmin : HasAdmin example_tables.users
example_tables-HasAdmin = record { one_row = λ i. ground arith; some_admin = omega arith }

run-HasAdmin_example : HasAdmin (run same_text example_requests example_tables).users
run-HasAdmin_example =
    run-HasAdmin same_text example_requests example_tables example_tables-HasAdmin

abbrev eve : AuthenticatedUser
eve = record { id = 1; username = codes "root"; role = admin }

get_active_session_user-IsDisabled_example : eve.id ≢ 2
unfolding run get_active_session_user text_eq
get_active_session_user-IsDisabled_example =
    get_active_session_user-IsDisabled 2 same_text (log_out 30 (codes "g") ∷ []) 35 token
      example_tables
      (record (run same_text (log_out 30 (codes "g") ∷ []) example_tables) {
        logins =
            record (new_login 1 20 1 token 99) { last_seen_at = 35 }
            ∷ record (new_login 2 20 2 (codes "g") 99) { revoked_at = some 30 }
            ∷ [];
      })
      eve refl refl

abbrev logged_out : Database
logged_out = record example_tables {
  logins =
      record (new_login 1 20 1 token 99) { revoked_at = some 30 }
      ∷ new_login 2 20 2 (codes "g") 99
      ∷ [];
}

get_active_session_user-revoked_example :
    get_active_session_user 40 token (run same_text example_requests logged_out)
    ≡ ok none (run same_text example_requests logged_out)
unfolding revoke_session text_eq
get_active_session_user-revoked_example =
    get_active_session_user-revoked token same_text 30 example_requests 40 example_tables logged_out
      refl

mark_upload_used_once-used_example :
    mark_upload_used_once 40 (codes "u") 1 config saved (
      run same_text example_requests
        (record example_tables { uploads = used 30 config_upload ∷ [] }))
    ≡ ok none (
        run same_text example_requests
          (record example_tables { uploads = used 30 config_upload ∷ [] }))
unfolding mark_upload_used_once text_eq
mark_upload_used_once-used_example =
    mark_upload_used_once-used (codes "u") same_text 30 1 config saved example_requests 40 1 config
      saved example_tables (record example_tables { uploads = used 30 config_upload ∷ [] })
      (used 30 config_upload) (omega arith) refl refl
