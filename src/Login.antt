-- ===== src/Login.antt =====
-- app/security_store.py, the persistent login rate limit: `login_rate_limits` is a dictionary of
-- buckets. Instants are microseconds on one clock; the constants of app/config.py are seconds, and
-- app/config.py refuses to start unless they are positive. One call reads the clock once here; the
-- cleanup at its end reads it again in the source.
pub mod Buckets
pub mod Budget
mod Tests
use borg_backup_manager.Prelude.{
  ℕ, suc, ◌+◌, ◌*◌, ◌-◌, ◌/◌, max, Bool, true, false, not, Option, none, some, List, [], ◌∷◌, ◌++◌,
  leb, ltb, ◌==◌, if◌then◌else◌, keep, ◌<◌, ◌≤◌,
}
use borg_backup_manager.Text.{Text, codes, strip, is_space, take, non_empty, Text-discrete}
use borg_backup_manager.Dict
use borg_backup_manager.Dict.{Dict}

-- `LOGIN_RATE_WINDOW_SECONDS` and its siblings.
pub record RateConfig : Type 0 where
  pub window_seconds : ℕ
  pub block_seconds : ℕ
  pub max_per_ip : ℕ
  pub max_per_ip_user : ℕ

-- `str.lower`, `str.casefold` and the hexadecimal SHA-256 of a text.
pub record Digests : Type 0 where
  pub lower : Text → Text
  pub casefold : Text → Text
  pub sha256 : Text → Text

-- The text "ip:…" or "pair:…".
pub data Bucket : Type 0 where
  ip : Text → Bucket
  pair : Text → Bucket

unfoldable pub Bucket-discrete : Discrete Bucket
unfolding Text-discrete
Bucket-discrete = hlevel Text-discrete

-- A row. A `window_started_at` that is no ISO date is `none`, and so is a `blocked_until` that is
-- null or no ISO date.
pub record Window : Type 0 where
  pub window_started_at : Option ℕ
  pub attempts : ℕ
  pub blocked_until : Option ℕ
  pub updated_at : ℕ

abbrev pub second : ℕ
second = 1000000

abbrev text_or : Text → Option Text → Text
text_or other none = other
text_or other (some t) = t

-- `_rate_bucket_keys`, without the limits.
unfoldable pub address_key : Digests → Option Text → Text
address_key d address =
    take 128 (d.lower (strip is_space (text_or (codes "unknown") (non_empty address))))

unfoldable pub ip_bucket : Digests → Option Text → Bucket
ip_bucket d address = ip (address_key d address)

unfoldable pub pair_bucket : Digests → Text → Option Text → Bucket
pair_bucket d username address =
    pair (d.sha256 (address_key d address ++ (0 ∷ take 128 (d.casefold (strip is_space username)))))

abbrev started : ℕ → Option Window → ℕ
started now none = now
started now (some w) = elim w.window_started_at [ none ↦ now | some t ↦ t ]

abbrev tried : Option Window → ℕ
tried none = 0
tried (some w) = w.attempts

abbrev blocked : Option Window → Option ℕ
blocked none = none
blocked (some w) = w.blocked_until

module _ (cfg : RateConfig) (now limit : ℕ) where
  -- The end of the loop body: the row to write, and the seconds to wait.
  count_attempt : ℕ → ℕ → Window × ℕ
  count_attempt start attempts =
      if leb limit attempts
      then (
        record {
          window_started_at = some start;
          attempts = attempts;
          blocked_until = some (now + cfg.block_seconds * second);
          updated_at = now;
        },
        cfg.block_seconds,
      )
      else (
        record {
          window_started_at = some start;
          attempts = attempts + 1;
          blocked_until = none;
          updated_at = now;
        },
        0,
      )

  -- A window that is over starts anew.
  in_window : Option Window → Window × ℕ
  unfolding count_attempt
  in_window row =
      if leb (started now row + cfg.window_seconds * second) now
      then count_attempt now 0
      else count_attempt (started now row) (tried row)

  -- The body of the loop over the buckets: the row after it, and the seconds to wait. A row that
  -- is blocked is not written.
  unfoldable pub consume_bucket : Option Window → Option Window × ℕ
  unfolding in_window
  consume_bucket row =
      let counted = in_window row in
      elim (blocked row) [
        | none ↦ (some counted.0, counted.1)
        | some until ↦
            if ltb now until
            then (row, max 1 ((until - now) / second))
            else (some counted.0, counted.1)
      ]

abbrev pub Table : Type 0
Table = Dict Bucket Window

abbrev write : Bucket → Option Window → Table → Table
write key none t = t
write key (some w) t = Dict.put Bucket-discrete key w t

-- One round of the loop on the table.
unfoldable pub consume_key : RateConfig → ℕ → Bucket → ℕ → Table → Table × ℕ
consume_key cfg now key limit t =
    let done = consume_bucket cfg now limit (Dict.get Bucket-discrete key t) in
    (write key done.0 t, done.1)

-- How long a row is kept after its last attempt: `max(window, block) * 2`.
abbrev pub retention : RateConfig → ℕ
retention cfg = max cfg.window_seconds cfg.block_seconds * 2 * second

-- `_cleanup_login_rate_limits`: `DELETE … WHERE updated_at < cutoff`.
unfoldable pub cleanup_login_rate_limits : RateConfig → ℕ → Table → Table
cleanup_login_rate_limits cfg now = keep λ entry. not (ltb (entry.1.updated_at + retention cfg) now)

-- `consume_login_attempt`: the table, and the seconds to wait, of which 0 allows the attempt.
unfoldable pub consume_login_attempt :
    RateConfig → Digests → ℕ → Text → Option Text → Table → Table × ℕ
unfolding consume_key cleanup_login_rate_limits
consume_login_attempt cfg d now username address t =
    let (t1, wait1) = consume_key cfg now (ip_bucket d address) cfg.max_per_ip t in
    let (t2, wait2) = consume_key cfg now (pair_bucket d username address) cfg.max_per_ip_user t1 in
    (cleanup_login_rate_limits cfg now t2, max wait1 wait2)

-- `reset_login_rate_limit`
unfoldable pub reset_login_rate_limit : Digests → Text → Option Text → Table → Table
reset_login_rate_limit d username address t =
    Dict.pop Bucket-discrete (pair_bucket d username address) t
