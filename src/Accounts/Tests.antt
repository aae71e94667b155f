-- ===== src/Accounts/Tests.antt =====
-- Runs and witnesses of the accounts of app/security_store.py.
use borg_backup_manager.Prelude.{
  ℕ, ◌≤◌, some, leb, ◌&&◌, Option, ◌≢◌, true, false, none, [], ◌∷◌, ◌++◌, ◌≡◌, refl, arith,
}
use borg_backup_manager.Text.{codes, is_space, strip, text_eq}
use borg_backup_manager.Accounts.{
  done, same_name, verify_password, admin, User, Store, Scrypt, active_admins, refused,
  last_administrator, require, reject, validate_username,
}
use borg_backup_manager.Accounts.Users.{
  revoke_user_sessions, set_user, find_name, update_user, preferring, check_delete, apply_write,
  deleting, is_admitted, parse_role, find_user,
}
use borg_backup_manager.TwoFactor.{
  totp_code, normalize_recovery_code, hash_recovery_code, verify_totp, Crypto,
}
use borg_backup_manager.Accounts.Authentication.{
  Vault, Status, recovery_code, authenticate_user, pop_hash,
}
use borg_backup_manager.Accounts.Recovery.{recovery_code_once}
use borg_backup_manager.Accounts.Setup.{
  begin_two_factor_setup, confirm_two_factor_setup, confirmed, setup_confirms,
}
use borg_backup_manager.Accounts.Requests.{System, idle}
use borg_backup_manager.Accounts.Race.{deletions_race}

-- A digest is the salt before the password.
abbrev joined : Scrypt
joined = record { scrypt = λ salt password. salt ++ password }

abbrev root : User
root = record {
  ident = 1;
  username = codes "admin";
  password_hash = record { salt = []; digest = codes "Secret-12345" };
  role = admin;
  enabled = true;
  must_change_password = false;
  failed_attempts = 0;
  locked_until = none;
  language = codes "de";
  appearance = codes "auto";
  two_factor_enabled = false;
  two_factor_secret = none;
  recovery_codes = [];
}

abbrev initial : Store
initial = record {
  users = root ∷ [];
  sessions = [];
  reload_tokens = [];
  next_user = 2;
  next_session = 1;
}

-- Two administrators.
abbrev eve : User
eve = record root { ident = 2; username = codes "Eve" }

abbrev pair : Store
pair = record initial { users = root ∷ eve ∷ []; next_user = 3 }

abbrev dark : Store
dark = record pair { users = root ∷ preferring (codes "en") (codes "dark") eve ∷ [] }

-- Eve asks to delete the other account, and changes her preferences before it is written.
abbrev deleted : System
deleted = record {
  phase = idle;
  store = record dark { users = preferring (codes "en") (codes "dark") eve ∷ [] };
}

deletions_race_example :
    ((is_admitted 2 pair ≡ true) × (check_delete 1 2 pair ≡ done (deleting 1)))
    × (((is_admitted 1 pair ≡ true) × (check_delete 2 1 pair ≡ done (deleting 2)))
        × ((t : Store) × ((apply_write (deleting 1) pair ≡ done t)
              × ((x : Store) × ((apply_write (deleting 2) t ≡ done x)
                    × (active_admins x.users ≡ 0))))))
unfolding find_user active_admins
deletions_race_example =
    deletions_race 1 2 pair root eve (λ e. omega (arith, e)) refl refl refl refl refl

last_admin_run :
    update_user 1 (codes "admin") (codes "user") true initial ≡ refused last_administrator
unfolding update_user require validate_username is_space parse_role find_user reject
last_admin_run = refl

abbrev crypto : Crypto
crypto = record {
  is_digit = λ c. leb 48 c && leb c 57;
  is_alnum = λ c. leb 48 c && leb c 90;
  upper = λ t. t;
  hmac_sha1 = λ secret counter. 0 ∷ 1 ∷ counter ∷ 7 ∷ [];
  sha256 = λ t. t;
}

abbrev vault : Vault
vault = record { encrypt_value = λ t. t; decrypt_value = λ t. some t }

abbrev guarded : User
guarded = record root {
  two_factor_enabled = true;
  two_factor_secret = some (codes "SECRET");
  recovery_codes = codes "0A1B" ∷ codes "2C3D" ∷ [];
}

abbrev guarded_store : Store
guarded_store = record initial { users = guarded ∷ [] }

abbrev first_answer : Store × Option User × Status
first_answer =
    authenticate_user crypto vault 100 joined (codes "Admin ") (codes "Secret-12345")
      (some (codes "0A-1B")) guarded_store

used_recovery : first_answer.2 ≡ recovery_code
unfolding authenticate_user find_name strip is_space verify_password verify_totp
    normalize_recovery_code hash_recovery_code
used_recovery = refl

recovery_code_once_example :
    (authenticate_user crypto vault 100 joined
      (codes "Admin ")
      (codes "Secret-12345")
      (some (codes "0A-1B"))
      first_answer.0).2
    ≢ recovery_code
unfolding find_name find_user pop_hash strip is_space same_name text_eq
recovery_code_once_example =
    recovery_code_once crypto vault joined 100 100 (codes "Admin ") (codes "Secret-12345")
      (codes "Secret-12345") 48 (codes "A-1B") guarded_store guarded refl refl (refl, (refl, tt))
      used_recovery

ascii_digits : (c : ℕ) → 48 ≤ c → c ≤ 57 → crypto.is_digit c ≡ true
ascii_digits c a b = ground arith

setup_confirms_example :
    (t : Store) × ((begin_two_factor_setup crypto vault joined 1
          (codes "Secret-12345")
          (codes "NEW")
          (codes "0A-1B" ∷ [])
          initial
        ≡ done t)
      × (confirm_two_factor_setup crypto vault joined 1 (totp_code crypto (codes "NEW") 100) 125 t
          ≡ done (revoke_user_sessions 1 (record t { users = set_user 1 confirmed t.users }))))
unfolding find_user verify_password text_eq
setup_confirms_example =
    setup_confirms crypto vault joined 1 100 125 (codes "Secret-12345") (codes "NEW")
      (codes "0A-1B" ∷ []) initial root ascii_digits (λ t. refl) refl refl refl (ground arith)
      (ground arith) (ground arith)
