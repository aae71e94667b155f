-- ===== src/TwoFactor/Tests.antt =====
-- Runs and witnesses of app/two_factor.py.
use borg_backup_manager.Prelude.{◌≤◌, ℕ, ◌&&◌, true, leb, [], ◌∷◌, ◌≡◌, refl, arith}
use borg_backup_manager.Text.{codes}
use borg_backup_manager.TwoFactor.{Crypto, totp_code, verify_totp, normalize_recovery_code}
use borg_backup_manager.TwoFactor.Skew.{skewed_code_accepted}

-- A digest that repeats the counter.
abbrev crypto : Crypto
crypto = record {
  is_digit = λ c. leb 48 c && leb c 57;
  is_alnum = λ c. leb 48 c && leb c 90;
  upper = λ t. t;
  hmac_sha1 = λ secret counter. 0 ∷ 1 ∷ counter ∷ 7 ∷ [];
  sha256 = λ t. t;
}

ascii_digits : (c : ℕ) → 48 ≤ c → c ≤ 57 → crypto.is_digit c ≡ true
ascii_digits c a b = ground arith

skewed_code_accepted_example :
    verify_totp crypto (codes "SECRET") (totp_code crypto (codes "SECRET") 100) 125 ≡ true
skewed_code_accepted_example =
    skewed_code_accepted crypto ascii_digits (codes "SECRET") 100 125 (ground arith) (ground arith)
      (ground arith)

normalized_run : normalize_recovery_code crypto (codes "0A-1B") ≡ codes "0A1B"
unfolding normalize_recovery_code
normalized_run = refl
