-- ===== src/Sessions/Tests.antt =====
-- Runs and witnesses of the sessions of app/security_store.py.
use borg_backup_manager.Accounts.{done, require, hash_password}
use borg_backup_manager.Prelude.{
  not, leb, ◌&&◌, ◌+◌, ◌*◌, if◌then◌else◌, ◌≢◌, true, false, none, some, [], ◌∷◌, ◌++◌, ◌≡◌, refl,
  arith,
}
use borg_backup_manager.Text.{codes, text_eq}
use borg_backup_manager.Login.{second, Digests}
use borg_backup_manager.Accounts.{admin, User, Session, Store, Scrypt}
use borg_backup_manager.Accounts.Users.{
  set_user, revoke_user_sessions, set_user_password, find_user,
}
use borg_backup_manager.Accounts.History.{execute, Operation, set_password}
use borg_backup_manager.Sessions.{
  session_by_id, SessionConfig, idle_timeout, is_over, find_session, cleanup_expired_sessions,
  get_session_user,
}
use borg_backup_manager.Sessions.Reload.{
  made, find_reload, create_session_reload_token, user_agent_hash, get_session_user_by_reload_token,
}
use borg_backup_manager.Sessions.Revocation.{signs_out, execute-signs_out}
use borg_backup_manager.Sessions.Tabs.{reload_token_answers}
use borg_backup_manager.Sessions.Validity.{cleanup_keeps_answers}
use borg_backup_manager.Sessions.Activity.{active_session_lives}

abbrev digests : Digests
digests = record { lower = λ t. t; casefold = λ t. t; sha256 = λ t. t }

abbrev config : SessionConfig
config = record { ttl_seconds = 86400; idle_timeout_seconds = 1800 }

abbrev joined : Scrypt
joined = record { scrypt = λ salt password. salt ++ password }

abbrev root : User
root = record {
  ident = 1;
  username = codes "admin";
  password_hash = record { salt = []; digest = codes "Secret-12345" };
  role = admin;
  enabled = true;
  must_change_password = false;
  failed_attempts = 0;
  locked_until = none;
  language = codes "de";
  appearance = codes "auto";
  two_factor_enabled = false;
  two_factor_secret = none;
  recovery_codes = [];
}

abbrev open_session : Session
open_session = record {
  ident = 7;
  token_hash = 5 ∷ [];
  user_id = 1;
  expires_at = 90000000000;
  last_seen_at = 0;
}

abbrev store : Store
store = record {
  users = root ∷ [];
  sessions = open_session ∷ [];
  reload_tokens = [];
  next_user = 2;
  next_session = 8;
}

cleanup_keeps_answers_example :
    (get_session_user digests config 9000000000
      (some (5 ∷ []))
      true
      (cleanup_expired_sessions config 9000000000 store)).1
    ≡ (get_session_user digests config 9000000000 (some (5 ∷ [])) true store).1
unfolding find_session
cleanup_keeps_answers_example =
    cleanup_keeps_answers digests config 9000000000 true (some (5 ∷ [])) store (refl, tt)

active_session_lives_example :
    (get_session_user digests config 900000000
      (some (5 ∷ []))
      true
      (get_session_user digests config 100000000 (some (5 ∷ [])) true store).0).1
    ≡ some root
unfolding find_session find_user is_over idle_timeout text_eq
active_session_lives_example =
    active_session_lives digests config 100000000 900000000 5 [] store open_session root refl refl
      refl refl true (ground arith) (ground arith) (ground arith)

-- A second account, so that somebody is still answered.
abbrev other : User
other = record root { ident = 2; username = codes "other" }

abbrev two_sessions : Store
two_sessions = record store {
  users = root ∷ other ∷ [];
  sessions =
      open_session ∷ record open_session { ident = 8; token_hash = 6 ∷ []; user_id = 2 } ∷ [];
}

abbrev reset_root : Operation
reset_root = set_password [] 1 (codes "Changed-12345") true

abbrev reset_store : Store
reset_store = record two_sessions {
  users =
      record root {
        password_hash = record { salt = []; digest = codes "Changed-12345" };
        must_change_password = true;
      }
      ∷ other
      ∷ [];
  sessions = record open_session { ident = 8; token_hash = 6 ∷ []; user_id = 2 } ∷ [];
}

reset_done : execute joined reset_root two_sessions ≡ done reset_store
unfolding execute set_user_password require hash_password find_user revoke_user_sessions set_user
reset_done = refl

other_answered :
    (get_session_user digests config 100 (some (6 ∷ [])) false reset_store).1 ≡ some other
unfolding get_session_user find_user idle_timeout
other_answered = refl

execute-signs_out_example : other.ident ≢ 1
unfolding signs_out
execute-signs_out_example =
    execute-signs_out joined digests config 100 false reset_root 1 two_sessions reset_store
      (some (6 ∷ [])) other refl reset_done other_answered

abbrev with_tab : Store
with_tab = record store {
  reload_tokens = made digests open_session (9 ∷ []) 60 100 (some (codes "browser")) ∷ [];
}

reload_token_answers_example :
    (get_session_user_by_reload_token digests config 200
      (some (codes "browser"))
      (some (9 ∷ []))
      with_tab).1
    ≡ (if true
          && (not (is_over config 200 open_session)
              && (leb 200 (100 + 60 * second)
                  && text_eq
                      (user_agent_hash digests (some (codes "browser")))
                      (user_agent_hash digests (some (codes "browser")))))
        then some root
        else none)
unfolding find_session find_user session_by_id find_reload create_session_reload_token text_eq
reload_token_answers_example =
    reload_token_answers digests config (5 ∷ []) 9 [] 60 100 200 (some (codes "browser"))
      (some (codes "browser")) store with_tab open_session root refl refl refl refl refl
