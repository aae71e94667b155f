-- ===== src/Login/Tests.antt =====
-- Runs and witnesses of the login rate limit of app/security_store.py.
use borg_backup_manager.Prelude.{◌+◌, ◌≤◌, none, some, List, [], ◌∷◌, ◌≡◌, refl, arith}
use borg_backup_manager.Text.{Text, codes, take, strip, is_space}
use borg_backup_manager.Dict
use borg_backup_manager.Login.{
  RateConfig, Digests, ip, Bucket-discrete, Window, ip_bucket, pair_bucket, consume_login_attempt,
  reset_login_rate_limit, address_key, consume_bucket,
}
use borg_backup_manager.Login.Budget.{Event, attempt, reset, allowed, address_budget}

abbrev limits : RateConfig
limits = record { window_seconds = 900; block_seconds = 300; max_per_ip = 2; max_per_ip_user = 1 }

-- Texts stand for their own digests.
abbrev digests : Digests
digests = record { lower = λ t. t; casefold = λ t. t; sha256 = λ t. t }

abbrev blocked_window : Window
blocked_window = record {
  window_started_at = some 0;
  attempts = 2;
  blocked_until = some 300000000;
  updated_at = 5;
}

abbrev first_window : Window
first_window = record {
  window_started_at = some 0;
  attempts = 1;
  blocked_until = none;
  updated_at = 5;
}

abbrev alice : Text
alice = codes "alice"

abbrev attempts : List Event
attempts = attempt 6 alice none ∷ reset alice none ∷ attempt 7 alice none ∷ []

address_budget_example :
    allowed limits digests (codes "unknown") attempts ((ip (codes "unknown"), first_window) ∷ [])
      + 1
    ≤ 2
unfolding Dict.get Bucket-discrete
address_budget_example =
    address_budget limits digests (codes "unknown") 0 first_window attempts
      ((ip (codes "unknown"), first_window) ∷ []) refl refl (ground arith) (ground arith)
      ((ground arith, ground arith), (tt, ((ground arith, ground arith), tt)))

-- After a reset the pair may try again, and the address has one attempt less.
allowed_run :
    allowed limits digests (codes "unknown") attempts ((ip (codes "unknown"), first_window) ∷ [])
    ≡ 1
unfolding allowed Bucket-discrete ip_bucket address_key take strip is_space consume_login_attempt
    consume_bucket Dict.get Dict.put pair_bucket reset_login_rate_limit Dict.pop
allowed_run = refl
