-- ===== src/Accounts.antt =====
-- app/security_store.py, the accounts: the tables `users`, `sessions` and `session_reload_tokens` are
-- lists of rows, each function is one transaction, and an exception is a refusal. The events that
-- are recorded, and the dates of creation and update, are not kept.
pub mod Users
pub mod Authentication
pub mod Recovery
pub mod Setup
pub mod History
pub mod Admins
pub mod Requests
pub mod Race
mod Tests
use borg_backup_manager.Prelude.{
  ℕ, ◌+◌, Bool, true, false, not, ◌&&◌, ◌||◌, Option, none, some, List, [], ◌∷◌, leb, ◌==◌,
  if◌then◌else◌, keep, length, map,
}
use borg_backup_manager.Text.{Text, strip, is_space, any_of, text_eq}

pub data Role : Type 0 where
  admin user : Role

-- The text "scrypt$n$r$p$salt$digest", whose three numbers are constants.
pub record PasswordHash : Type 0 where
  pub salt : Text
  pub digest : Text

-- `two_factor_secret` is encrypted, and none if it is null or empty; `recovery_codes` are hashes.
pub record User : Type 0 where
  pub ident : ℕ
  pub username : Text
  pub password_hash : PasswordHash
  pub role : Role
  pub enabled : Bool
  pub must_change_password : Bool
  pub failed_attempts : ℕ
  pub locked_until : Option ℕ
  pub language : Text
  pub appearance : Text
  pub two_factor_enabled : Bool
  pub two_factor_secret : Option Text
  pub recovery_codes : List Text

-- The dates are those that the program writes: ISO dates, as microseconds.
pub record Session : Type 0 where
  pub ident : ℕ
  pub token_hash : Text
  pub user_id : ℕ
  pub expires_at : ℕ
  pub last_seen_at : ℕ

pub record ReloadToken : Type 0 where
  pub token_hash : Text
  pub session_id : ℕ
  pub user_agent_hash : Text
  pub expires_at : ℕ

-- `next_user` and `next_session` are the counters of AUTOINCREMENT.
pub record Store : Type 0 where
  pub users : List User
  pub sessions : List Session
  pub reload_tokens : List ReloadToken
  pub next_user : ℕ
  pub next_session : ℕ

pub data Refusal : Type 0 where
  invalid_username invalid_role invalid_password invalid_preferences name_taken : Refusal
  unknown_user wrong_password last_administrator own_account forbidden already_enabled
        invalid_code :
      Refusal

pub data Outcome {ℓ} (A : Type ℓ) : Type ℓ where
  done : A → Outcome A
  refused : Refusal → Outcome A

-- `if test: raise`
unfoldable pub reject {ℓ} : {B : Type ℓ} → Bool → Refusal → Outcome B → Outcome B
reject true why next = refused why
reject false why next = next

-- `raise` if there is no value.
unfoldable pub require {ℓ κ} :
    {A : Type ℓ} {B : Type κ} → Option A → Refusal → (A → Outcome B) → Outcome B
require none why next = refused why
require (some a) why next = next a

abbrev pub is_lower : ℕ → Bool
is_lower c = leb 97 c && leb c 122

abbrev pub is_upper : ℕ → Bool
is_upper c = leb 65 c && leb c 90

abbrev pub is_digit : ℕ → Bool
is_digit c = leb 48 c && leb c 57

abbrev pub is_alphanumeric : ℕ → Bool
is_alphanumeric c = is_lower c || (is_upper c || is_digit c)

-- `[A-Za-z0-9_.-]`
abbrev is_name_char : ℕ → Bool
is_name_char c = is_alphanumeric c || (c == 95 || (c == 46 || c == 45))

abbrev is_bad_name_char : ℕ → Bool
is_bad_name_char c = not (is_name_char c)

-- `USERNAME_RE.fullmatch`
unfoldable pub is_username : Text → Bool
unfolding any_of
is_username [] = false
is_username (c ∷ rest) =
    is_alphanumeric c
    && (leb 2 (length rest) && (leb (length rest) 63 && not (any_of is_bad_name_char rest)))

unfoldable pub validate_username : Text → Option Text
unfolding strip is_username
validate_username username =
    let value = strip is_space username in if is_username value then some value else none

abbrev is_nul : ℕ → Bool
is_nul c = c == 0

abbrev is_special : ℕ → Bool
is_special c = not (is_alphanumeric c)

abbrev one_if : Bool → ℕ
one_if b = if b then 1 else 0

-- `groups`
unfoldable pub password_groups : Text → ℕ
unfolding any_of
password_groups p =
    one_if (any_of is_lower p)
    + (one_if (any_of is_upper p) + (one_if (any_of is_digit p) + one_if (any_of is_special p)))

-- `validate_password`: `true` if it does not raise.
unfoldable pub validate_password : Text → Bool
unfolding password_groups any_of
validate_password p =
    leb 12 (length p)
    && (leb (length p) 1024 && (not (any_of is_nul p) && leb 3 (password_groups p)))

-- `hashlib.scrypt` with the constants of the program, of a salt and a password.
pub record Scrypt : Type 0 where
  pub scrypt : Text → Text → Text

unfoldable pub hash_password : Scrypt → Text → Text → Option PasswordHash
unfolding validate_password
hash_password k salt password =
    if validate_password password
    then some (record { salt = salt; digest = k.scrypt salt password })
    else none

unfoldable pub verify_password : Scrypt → Text → PasswordHash → Bool
unfolding text_eq
verify_password k password h = text_eq (k.scrypt h.salt password) h.digest

abbrev to_lower : ℕ → ℕ
to_lower c = if is_upper c then c + 32 else c

-- `username=? COLLATE NOCASE`
unfoldable pub same_name : Text → Text → Bool
unfolding text_eq
same_name a b = text_eq (map to_lower a) (map to_lower b)

abbrev pub is_admin : Role → Bool
is_admin admin = true
is_admin user = false

-- `role='admin' AND enabled=1`
abbrev pub is_active_admin : User → Bool
is_active_admin u = is_admin u.role && u.enabled

unfoldable pub active_admins : List User → ℕ
active_admins users = length (keep is_active_admin users)

unfoldable pub administrators : List User → ℕ
administrators users = length (keep (λ u. is_admin u.role) users)
