-- ===== src/Login/Buckets.antt =====
-- One bucket of the login rate limit of app/security_store.py.
use borg_backup_manager.Prelude.{
  ℕ, ◌+◌, ◌*◌, ◌-◌, ◌/◌, ◌≤◌, ◌<◌, max, Option, none, some, List, [], ◌∷◌, ◌==◌, if◌then◌else◌, ◌≡◌,
  refl, arith, All,
}
use borg_backup_manager.Login.{
  RateConfig, Window, second, retention, consume_bucket, count_attempt, in_window,
}

-- An attempt on a blocked bucket is refused with the seconds that are left, at least one, and
-- changes nothing.
pub blocked_refuses :
    (cfg : RateConfig) (now limit until : ℕ) (w : Window)
    → w.blocked_until ≡ some until
    → now < until
    → consume_bucket cfg now limit (some w) ≡ (some w, max 1 ((until - now) / second))
unfolding consume_bucket
blocked_refuses cfg now limit until w b h = ground arith

abbrev pub block_end : Option ℕ → ℕ
block_end none = 0
block_end (some until) = until

-- A row that `consume_bucket` could have written: its block ends within the block time after its
-- last update, and its window did not start after that.
pub record IsSane (cfg : RateConfig) (w : Window) : Type 0 where
  pub start : ℕ
  pub started : w.window_started_at ≡ some start
  pub start_le : start ≤ w.updated_at
  pub block_le : block_end w.blocked_until ≤ w.updated_at + cfg.block_seconds * second

-- Deleting a row that the cleanup finds too old is invisible: from then on an attempt on the
-- bucket gets the same answer and leaves the same row as if the row had been kept.
pub stale_is_absent :
    (cfg : RateConfig) (now limit : ℕ) (w : Window)
    → IsSane cfg w
    → 0 < cfg.window_seconds
    → w.updated_at + retention cfg < now
    → consume_bucket cfg now limit (some w) ≡ consume_bucket cfg now limit none
unfolding consume_bucket
stale_is_absent cfg now limit w s pos old = go w.blocked_until refl
  where
    long : cfg.window_seconds * second ≤ retention cfg
    long = omega arith

    go :
        (o : Option ℕ)
        → w.blocked_until ≡ o
        → consume_bucket cfg now limit (some w) ≡ consume_bucket cfg now limit none
    go none e = ground (arith, e, s.started, s.start_le, old)
    go (some until) e = ground (arith, e, s.started, s.start_le, old, s.block_le)

-- The number of attempts that pass, one after the other on one bucket.
unfoldable pub passes : RateConfig → ℕ → List ℕ → Option Window → ℕ
passes cfg limit [] row = 0
passes cfg limit (now ∷ times) row =
    let done = consume_bucket cfg now limit row in
    (if done.1 == 0 then 1 else 0) + passes cfg limit times done.0

abbrev pub row_or : Window → Option Window → Window
row_or w none = w
row_or w (some v) = v

module _ (cfg : RateConfig) (limit start now : ℕ) (w : Window)
    (s : w.window_started_at ≡ some start) (pos : 0 < cfg.block_seconds)
    (a : now < start + cfg.window_seconds * second) where
  abbrev pub after : Window
  after = row_or w (consume_bucket cfg now limit (some w)).0

  pub row_after : (consume_bucket cfg now limit (some w)).0 ≡ some after
  unfolding consume_bucket
  row_after = ground arith

  pub start_after : after.window_started_at ≡ some start
  unfolding consume_bucket
  start_after = ground arith

  pub attempts_after :
      ((if (consume_bucket cfg now limit (some w)).1 == 0 then 1 else 0) + w.attempts
        ≡ after.attempts)
      × (after.attempts ≤ max limit w.attempts)
  unfolding consume_bucket
  attempts_after = ground arith

pub passes_in_window :
    (cfg : RateConfig) (limit start : ℕ) (times : List ℕ) (w : Window)
    → w.window_started_at ≡ some start
    → 0 < cfg.block_seconds
    → All (λ t. t < start + cfg.window_seconds * second) times
    → passes cfg limit times (some w) + w.attempts ≤ max limit w.attempts
unfolding passes
passes_in_window cfg limit start [] w s pos a = omega arith
passes_in_window cfg limit start (now ∷ times) w s pos a =
    let v = row_or w (consume_bucket cfg now limit (some w)).0 in
    rw (row_after cfg limit start now w s pos a.0) (
      omega (
        arith,
        attempts_after cfg limit start now w s pos a.0,
        passes_in_window cfg limit start times v (start_after cfg limit start now w s pos a.0) pos
            a.1,
      ))

-- However many attempts are made on a bucket, at most `limit` of those in one window pass: the
-- first attempt opens the window, and every later one lies before its end.
pub window_budget :
    (cfg : RateConfig) (limit start : ℕ) (times : List ℕ)
    → 0 < cfg.window_seconds
    → 0 < cfg.block_seconds
    → All (λ t. t < start + cfg.window_seconds * second) times
    → passes cfg limit (start ∷ times) none ≤ limit
unfolding passes consume_bucket in_window count_attempt
window_budget cfg limit start times wpos pos a = ground (
  arith,
  passes_in_window cfg limit start times
      (record {
        window_started_at = some start;
        attempts = 0;
        blocked_until = some (start + cfg.block_seconds * second);
        updated_at = start;
      })
      refl pos a,
  passes_in_window cfg limit start times
      (record {
        window_started_at = some start;
        attempts = 1;
        blocked_until = none;
        updated_at = start;
      })
      refl pos a,
)
