-- ===== src/TwoFactor.antt =====
-- app/two_factor.py: the time-based one-time passwords and the recovery codes. Times are seconds, at
-- least one period after the epoch. The classes of Unicode characters, HMAC-SHA1 of a decoded secret
-- and a packed counter, and SHA-256 are a `Crypto`.
pub mod Skew
mod Tests
use borg_backup_manager.Prelude.{
  zero, suc, ℕ, ◌+◌, ◌*◌, ◌-◌, ◌/◌, ◌%◌, ◌^◌, Bool, true, false, not, ◌||◌, Option, none, some,
  List, [], ◌∷◌, length, ltb, ◌==◌, if◌then◌else◌, keep,
}
use borg_backup_manager.Text.{Text, text_eq}

pub record Crypto : Type 0 where
  pub is_digit : ℕ → Bool
  pub is_alnum : ℕ → Bool
  pub upper : Text → Text
  pub hmac_sha1 : Text → ℕ → List ℕ
  pub sha256 : Text → Text

abbrev pub period : ℕ
period = 30

unfoldable pub last_of : List ℕ → ℕ
last_of [] = 0
last_of (b ∷ []) = b
last_of (b ∷ c ∷ bytes) = last_of (c ∷ bytes)

unfoldable pub byte_at : ℕ → List ℕ → ℕ
byte_at n [] = 0
byte_at zero (b ∷ bytes) = b
byte_at (suc n) (b ∷ bytes) = byte_at n bytes

-- `struct.unpack('>I', digest[offset:offset + 4])[0] & 0x7FFFFFFF`
unfoldable pub truncated : List ℕ → ℕ
unfolding last_of byte_at
truncated digest =
    let offset = last_of digest % 16 in
    (byte_at offset digest * 2 ^ 24
      + (byte_at (offset + 1) digest * 2 ^ 16
          + (byte_at (offset + 2) digest * 2 ^ 8 + byte_at (offset + 3) digest)))
    % 2 ^ 31

-- `f'{value % 10 ** 6:06d}'`
unfoldable pub six_digits : ℕ → Text
six_digits v =
    (48 + v / 100000 % 10)
    ∷ (48 + v / 10000 % 10)
    ∷ (48 + v / 1000 % 10)
    ∷ (48 + v / 100 % 10)
    ∷ (48 + v / 10 % 10)
    ∷ (48 + v % 10)
    ∷ []

module _ (h : Crypto) where
  unfoldable pub totp_code : Text → ℕ → Text
  unfolding truncated six_digits
  totp_code secret at = six_digits (truncated (h.hmac_sha1 secret (at / period)))

  -- The digits of the code are compared with three expected codes.
  unfoldable pub is_one_of : Text → Text → Text → Text → Bool
  unfolding text_eq
  is_one_of code before current after =
      let candidate = keep h.is_digit code in
      if not (length candidate == 6)
      then false
      else text_eq before candidate || (text_eq current candidate || text_eq after candidate)

  -- The three offsets of `window=1`.
  unfoldable pub verify_totp : Text → Text → ℕ → Bool
  unfolding is_one_of totp_code
  verify_totp secret code now =
      is_one_of code (totp_code secret (now - period)) (totp_code secret now)
        (totp_code secret (now + period))

  unfoldable pub normalize_recovery_code : Text → Text
  normalize_recovery_code code = keep h.is_alnum (h.upper code)

  unfoldable pub hash_recovery_code : Text → Text
  unfolding normalize_recovery_code
  hash_recovery_code code = h.sha256 (normalize_recovery_code code)
