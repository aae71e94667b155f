-- ===== src/Accounts/Setup.antt =====
-- app/security_store.py, the setup of a second factor. The new secret and the new recovery codes are
-- arguments; the date of the confirmation is not kept.
use borg_backup_manager.Prelude.{
  ℕ, ◌+◌, ◌≤◌, Bool, true, false, not, Option, none, some, List, [], ◌∷◌, map, ◌≡◌, refl, arith,
}
use borg_backup_manager.Text.{Text}
use borg_backup_manager.TwoFactor.{Crypto, period, totp_code, verify_totp, hash_recovery_code}
use borg_backup_manager.TwoFactor.Skew.{skewed_code_accepted}
use borg_backup_manager.Accounts.{
  User, Store, Scrypt, Outcome, done, require, reject, verify_password, unknown_user,
  wrong_password, already_enabled, invalid_code,
}
use borg_backup_manager.Accounts.Users.{find_user, set_user, revoke_user_sessions}
use borg_backup_manager.Accounts.Authentication.{
  Vault, Factor, wrong, passed, recovered_by, second_factor,
}

unfoldable is_password_of : Scrypt → Text → Option User → Bool
is_password_of k password none = false
is_password_of k password (some u) = verify_password k password u.password_hash

unfoldable pub verify_user_password : Scrypt → ℕ → Text → Store → Bool
unfolding is_password_of
verify_user_password k n password s = is_password_of k password (find_user n s.users)

abbrev pub pending : Text → List Text → User → User
pending encrypted hashes u = record u {
  two_factor_enabled = false;
  two_factor_secret = some encrypted;
  recovery_codes = hashes;
}

abbrev pub confirmed : User → User
confirmed u = record u { two_factor_enabled = true }

abbrev without_factor : User → User
without_factor u = record u {
  two_factor_enabled = false;
  two_factor_secret = none;
  recovery_codes = [];
}

abbrev renewed : List Text → User → User
renewed hashes u = record u { recovery_codes = hashes }

unfoldable pub accepts : Crypto → Text → ℕ → Option Text → Bool
accepts h code now none = false
accepts h code now (some secret) = verify_totp h secret code now

abbrev is_valid : Factor → Bool
is_valid wrong = false
is_valid passed = true
is_valid (recovered_by left) = true

unfoldable pub reset_two_factor : ℕ → Store → Outcome Store
reset_two_factor n s =
    require (find_user n s.users) unknown_user
      λ u. done (revoke_user_sessions n (record s { users = set_user n without_factor s.users }))

module _ (h : Crypto) (v : Vault) (k : Scrypt) (n : ℕ) where
  unfoldable pub begin_two_factor_setup : Text → Text → List Text → Store → Outcome Store
  begin_two_factor_setup current_password secret codes s =
      reject (not (verify_user_password k n current_password s)) wrong_password (
        require (find_user n s.users) unknown_user λ u.
          reject u.two_factor_enabled already_enabled (
            done (record s {
              users =
                  set_user n (pending (v.encrypt_value secret) (map (hash_recovery_code h) codes))
                    s.users;
            })))

  -- A secret that is missing, or that the vault cannot decrypt, is a ValueError like a wrong code.
  unfoldable pub confirm_two_factor_setup : Text → ℕ → Store → Outcome Store
  unfolding accepts
  confirm_two_factor_setup code now s = require (find_user n s.users) unknown_user λ u.
      require u.two_factor_secret invalid_code λ encrypted.
        reject (not (accepts h code now (v.decrypt_value encrypted))) invalid_code
          (done (revoke_user_sessions n (record s { users = set_user n confirmed s.users })))

  unfoldable pub disable_two_factor : Text → Store → Outcome Store
  unfolding reset_two_factor
  disable_two_factor current_password s =
      reject (not (verify_user_password k n current_password s)) wrong_password
        (reset_two_factor n s)

  unfoldable pub regenerate_two_factor_recovery_codes :
      Text → Text → ℕ → List Text → Store → Outcome Store
  regenerate_two_factor_recovery_codes current_password code now codes s =
      reject (not (verify_user_password k n current_password s)) wrong_password (
        require (find_user n s.users) unknown_user λ u.
          reject (not (is_valid (second_factor h v now u code))) invalid_code (
            done (record s {
              users = set_user n (renewed (map (hash_recovery_code h) codes)) s.users;
            })))

find-set_same :
    (n : ℕ) (change : User → User) (users : List User) (u : User)
    → find_user n users ≡ some u
    → (change u).ident ≡ u.ident
    → find_user n (set_user n change users) ≡ some (change u)
unfolding find_user set_user
find-set_same n change [] u f e = cc
find-set_same n change (w ∷ users) u f e = ground (arith, find-set_same n change users u)

-- A setup can be confirmed: after a setup that was begun, the code of its new secret enables the
-- second factor and signs the user out, for as long as the clocks differ by at most one period.
pub setup_confirms :
    (h : Crypto) (v : Vault) (k : Scrypt) (n : ℕ) (at now : ℕ) (password secret : Text)
    (codes : List Text) (s : Store) (u : User)
    → ((c : ℕ) → 48 ≤ c → c ≤ 57 → h.is_digit c ≡ true)
    → ((t : Text) → v.decrypt_value (v.encrypt_value t) ≡ some t)
    → find_user n s.users ≡ some u
    → verify_password k password u.password_hash ≡ true
    → u.two_factor_enabled ≡ false
    → period ≤ now
    → at ≤ now + period
    → now ≤ at + period
    → (t : Store) × ((begin_two_factor_setup h v k n password secret codes s ≡ done t)
        × (confirm_two_factor_setup h v k n (totp_code h secret at) now t
            ≡ done (revoke_user_sessions n (record t { users = set_user n confirmed t.users }))))
unfolding begin_two_factor_setup verify_user_password confirm_two_factor_setup reject require
    accepts
setup_confirms h v k n at now password secret codes s u ascii restores found right off b e l =
    let change = pending (v.encrypt_value secret) (map (hash_recovery_code h) codes) in
    let t : Store = record s { users = set_user n change s.users } in
    (
      t,
      (
        rw (found, right, off) refl,
        rw
            (
              find-set_same n change s.users u found refl,
              restores secret,
              skewed_code_accepted h ascii secret at now b e l,
            )
            refl,
      ),
    )
