-- ===== src/Accounts/Authentication.antt =====
-- app/security_store.py, the sign-in by a password and a second factor. Of the row it writes, the last
-- login and the date of the update are not kept.
use borg_backup_manager.Prelude.{ℕ, not, ◌||◌, Option, none, some, List, [], ◌∷◌, if◌then◌else◌}
use borg_backup_manager.Text.{Text, text_eq, strip, is_space}
use borg_backup_manager.TwoFactor.{Crypto, verify_totp, normalize_recovery_code, hash_recovery_code}
use borg_backup_manager.Accounts.{User, Store, Scrypt, verify_password}
use borg_backup_manager.Accounts.Users.{find_name, set_user}

pub data Status : Type 0 where
  invalid_credentials two_factor_required invalid_second_factor recovery_code ok : Status

-- `encrypt_value`, and `decrypt_value`, where none is a ValueError.
pub record Vault : Type 0 where
  pub encrypt_value : Text → Text
  pub decrypt_value : Text → Option Text

-- `hashes.pop(index)` at the first hash that is the candidate, none if no hash is.
unfoldable pub pop_hash : Text → List Text → Option (List Text)
unfolding text_eq
pop_hash candidate [] = none
pop_hash candidate (h ∷ hashes) =
    let rest = pop_hash candidate hashes in
    if text_eq h candidate
    then some hashes
    else elim rest [ none ↦ none | some left ↦ some (h ∷ left) ]

-- What a second factor is: wrong, a time-based code or none needed, or a recovery code, with the
-- hashes that are left.
pub data Factor : Type 0 where
  wrong passed : Factor
  recovered_by : List Text → Factor

unfoldable pub popped_factor : Option (List Text) → Factor
popped_factor none = wrong
popped_factor (some left) = recovered_by left

-- A code without letters and digits is none.
unfoldable pub code_factor : Crypto → Text → List Text → Factor
unfolding pop_hash popped_factor
code_factor h [] hashes = wrong
code_factor h (c ∷ normalized) hashes =
    popped_factor (pop_hash (hash_recovery_code h (c ∷ normalized)) hashes)

module _ (h : Crypto) (v : Vault) (now : ℕ) where
  unfoldable pub recovery_factor : Text → List Text → Factor
  unfolding code_factor
  recovery_factor code hashes = code_factor h (normalize_recovery_code h code) hashes

  unfoldable pub secret_factor : Option Text → Text → List Text → Factor
  unfolding recovery_factor
  secret_factor none code hashes = wrong
  secret_factor (some secret) code hashes =
      if verify_totp h secret code now then passed else recovery_factor code hashes

  unfoldable pub encrypted_factor : Option Text → Text → List Text → Factor
  unfolding secret_factor
  encrypted_factor none code hashes = wrong
  encrypted_factor (some encrypted) code hashes =
      secret_factor (v.decrypt_value encrypted) code hashes

  -- `_verify_second_factor_row`
  unfoldable pub second_factor : User → Text → Factor
  unfolding encrypted_factor
  second_factor u code =
      if u.two_factor_enabled
      then encrypted_factor u.two_factor_secret code u.recovery_codes
      else passed

  abbrev pub signed_in : User → User
  signed_in u = record u { failed_attempts = 0; locked_until = none }

  abbrev pub with_codes : List Text → User → User
  with_codes left u = record (signed_in u) { recovery_codes = left }

  unfoldable pub by_factor : User → Store → Factor → Store × Option User × Status
  by_factor u s wrong = (s, none, invalid_second_factor)
  by_factor u s passed = (record s { users = set_user u.ident signed_in s.users }, some u, ok)
  by_factor u s (recovered_by left) =
      (record s { users = set_user u.ident (with_codes left) s.users }, some u, recovery_code)

  -- `if not second_factor` covers no code and the empty one.
  unfoldable pub by_code : User → Store → Option Text → Store × Option User × Status
  unfolding by_factor second_factor
  by_code u s none = (s, none, two_factor_required)
  by_code u s (some []) = (s, none, two_factor_required)
  by_code u s (some (c ∷ code)) = by_factor u s (second_factor u (c ∷ code))

  unfoldable pub by_row :
      Scrypt → Text → Option Text → Store → Option User → Store × Option User × Status
  unfolding by_code
  by_row k password code s none = (s, none, invalid_credentials)
  by_row k password code s (some u) =
      if not u.enabled || not (verify_password k password u.password_hash)
      then (s, none, invalid_credentials)
      else if u.two_factor_enabled
      then by_code u s code
      else by_factor u s passed

  unfoldable pub authenticate_user :
      Scrypt → Text → Text → Option Text → Store → Store × Option User × Status
  unfolding by_row
  authenticate_user k username password code s =
      by_row k password code s (find_name (strip is_space username) s.users)
