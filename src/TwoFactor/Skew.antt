-- ===== src/TwoFactor/Skew.antt =====
-- Which one-time passwords app/two_factor.py accepts when clocks differ.
use borg_backup_manager.Prelude.{
  ℕ, ◌+◌, ◌-◌, ◌/◌, ◌%◌, ◌≤◌, true, false, not, ◌||◌, length, ◌==◌, if◌then◌else◌, keep, ◌≡◌, ◌⊎◌,
  inl, inr, refl, ap, sym, ◌∙◌, arith, sym, ap, ◌∙◌, inl, inr,
}
use borg_backup_manager.Text.{Text, text_eq, text_eq_refl}
use borg_backup_manager.TwoFactor.{
  Crypto, period, six_digits, truncated, totp_code, verify_totp, is_one_of,
}

module _ (h : Crypto) (ascii : (c : ℕ) → 48 ≤ c → c ≤ 57 → h.is_digit c ≡ true) where
  digit : (v : ℕ) → h.is_digit (48 + v % 10) ≡ true
  digit v = ascii (48 + v % 10) (omega arith) (omega arith)

  keep-six_digits : (v : ℕ) → keep h.is_digit (six_digits v) ≡ six_digits v
  unfolding six_digits
  keep-six_digits v =
      rw
        (
          digit (v / 100000),
          digit (v / 10000),
          digit (v / 1000),
          digit (v / 100),
          digit (v / 10),
          digit v,
        )
        refl

  accepted :
      (v : ℕ) (code before current after : Text)
      → code ≡ six_digits v
      → (before ≡ code) ⊎ ((current ≡ code) ⊎ (after ≡ code))
      → is_one_of h code before current after ≡ true
  unfolding is_one_of six_digits
  accepted v code before current after six match = rw (six, keep-six_digits v) (one match)
    where
      long : length (six_digits v) ≡ 6
      long = refl

      found : (t : Text) → t ≡ code → text_eq t (six_digits v) ≡ true
      found t e = rw (e, six) (text_eq_refl (six_digits v))

      one :
          (before ≡ code) ⊎ ((current ≡ code) ⊎ (after ≡ code))
          → (if not (length (six_digits v) == 6)
              then false
              else text_eq before (six_digits v)
                || (text_eq current (six_digits v) || text_eq after (six_digits v)))
            ≡ true
      one (inl e) = rw (found before e) refl
      one (inr (inl e)) = ground (arith, found current e)
      one (inr (inr e)) = ground (arith, found after e)

  code_value :
      (secret : Text) (at : ℕ)
      → totp_code h secret at ≡ six_digits (truncated (h.hmac_sha1 secret (at / period)))
  unfolding totp_code
  code_value secret at = refl

  totp-period :
      (secret : Text) (m n : ℕ)
      → m / period ≡ n / period
      → totp_code h secret n ≡ totp_code h secret m
  totp-period secret m n e =
      code_value secret n
      ∙ ap (λ c. six_digits (truncated (h.hmac_sha1 secret c))) (sym e)
      ∙ sym (code_value secret m)

  same_period :
      (at now : ℕ)
      → period ≤ now
      → at ≤ now + period
      → now ≤ at + period
      → (at / period ≡ (now - period) / period)
        ⊎ ((at / period ≡ now / period) ⊎ (at / period ≡ (now + period) / period))
  same_period at now b e l = ground arith

  -- A one-time password is accepted for as long as the clock of its device and that of the manager
  -- differ by at most one period, if the ten ASCII digits are digits.
  pub skewed_code_accepted :
      (secret : Text) (at now : ℕ)
      → period ≤ now
      → at ≤ now + period
      → now ≤ at + period
      → verify_totp h secret (totp_code h secret at) now ≡ true
  unfolding verify_totp
  skewed_code_accepted secret at now b e l =
      accepted (truncated (h.hmac_sha1 secret (at / period))) (totp_code h secret at)
        (totp_code h secret (now - period)) (totp_code h secret now)
        (totp_code h secret (now + period)) (code_value secret at) (near (same_period at now b e l))
    where
      near :
          (at / period ≡ (now - period) / period)
            ⊎ ((at / period ≡ now / period) ⊎ (at / period ≡ (now + period) / period))
          → (totp_code h secret (now - period) ≡ totp_code h secret at)
            ⊎ ((totp_code h secret now ≡ totp_code h secret at)
                ⊎ (totp_code h secret (now + period) ≡ totp_code h secret at))
      near (inl s) = inl (totp-period secret at (now - period) s)
      near (inr (inl s)) = inr (inl (totp-period secret at now s))
      near (inr (inr s)) = inr (inr (totp-period secret at (now + period) s))
