-- ===== src/Login/Budget.antt =====
-- The login rate limit of app/security_store.py over whole histories of attempts and resets.
use borg_backup_manager.Prelude.{
  subst, ◌∙◌, ℕ, ◌+◌, ◌*◌, ◌≤◌, ◌<◌, max, false, Option, none, some, List, [], ◌∷◌, ltb, ◌==◌,
  if◌then◌else◌, ite, ◌≡◌, ◌≢◌, refl, sym, arith, All,
}
use borg_backup_manager.Text.{Text}
use borg_backup_manager.Dict
use borg_backup_manager.Dict.{Dict, get-put, get-pop}
use borg_backup_manager.Login.{
  RateConfig, Digests, Bucket, ip, Bucket-discrete, Window, Table, second, retention, ip_bucket,
  pair_bucket, consume_login_attempt, cleanup_login_rate_limits, reset_login_rate_limit, write,
  consume_key, consume_bucket,
}
use borg_backup_manager.Login.Buckets.{row_or, row_after, start_after, attempts_after}

-- A call of `consume_login_attempt` or, after a valid password, of `reset_login_rate_limit`.
pub data Event : Type 0 where
  attempt : (now : ℕ) (username : Text) (address : Option Text) → Event
  reset : (username : Text) (address : Option Text) → Event

abbrev pub InTime : ℕ → ℕ → Event → Type 0
InTime start end (attempt now username address) = (start ≤ now) × (now < end)
InTime start end (reset username address) = Unit

module _ (cfg : RateConfig) (d : Digests) where
  -- How many attempts of the addresses of one bucket are allowed.
  unfoldable pub allowed : Text → List Event → Table → ℕ
  allowed a [] t = 0
  allowed a (attempt now username address ∷ events) t =
      let done = consume_login_attempt cfg d now username address t in
      ite (Bucket-discrete (ip_bucket d address) (ip a)) (if done.1 == 0 then 1 else 0) 0
      + allowed a events done.0
  allowed a (reset username address ∷ events) t =
      allowed a events (reset_login_rate_limit d username address t)

get-cleanup :
    (cfg : RateConfig) (now : ℕ) (key : Bucket) (w : Window) (t : Table)
    → Dict.get Bucket-discrete key t ≡ some w
    → ltb (w.updated_at + retention cfg) now ≡ false
    → Dict.get Bucket-discrete key (cleanup_login_rate_limits cfg now t) ≡ some w
unfolding Dict.get cleanup_login_rate_limits
get-cleanup cfg now key w [] g f = cc
get-cleanup cfg now key w ((k, v) ∷ t) g f = elim (Bucket-discrete k key) [
  | yes e ↦
      let same : v ≡ w = ground arith in
      let kept : ltb (v.updated_at + retention cfg) now ≡ false = rw same f in ground (arith, kept)
  | no e ↦ ground (arith, get-cleanup cfg now key w t)
]

get-write :
    (k j : Bucket) (row : Option Window) (t : Table)
    → k ≢ j
    → Dict.get Bucket-discrete j (write k row t) ≡ Dict.get Bucket-discrete j t
get-write k j none t n = refl
get-write k j (some w) t n = ground (arith, get-put Bucket-discrete k j w t)

pair_is_no_ip :
    (d : Digests) (username : Text) (address : Option Text) (a : Text)
    → pair_bucket d username address ≢ ip a
unfolding pair_bucket
pair_is_no_ip d username address a e = cc

one_if_allowed : (m n : ℕ) → (if max m n == 0 then 1 else 0) ≤ (if m == 0 then 1 else 0)
one_if_allowed m n = ground arith

module _ (cfg : RateConfig) (d : Digests) (now : ℕ) (username : Text) (address : Option Text)
    (a : Text) (t : Table) where
  abbrev from_pair : Table → Table
  from_pair t1 = (consume_key cfg now (pair_bucket d username address) cfg.max_per_ip_user t1).0

  get-from_pair :
      (t1 : Table)
      → Dict.get Bucket-discrete (ip a) (from_pair t1) ≡ Dict.get Bucket-discrete (ip a) t1
  unfolding consume_key
  get-from_pair t1 =
      get-write (pair_bucket d username address) (ip a)
        (consume_bucket cfg now cfg.max_per_ip_user
          (Dict.get Bucket-discrete (pair_bucket d username address) t1)).0
        t1 (pair_is_no_ip d username address a)

  get-consume :
      (w : Window)
      → Dict.get Bucket-discrete
          (ip a)
          (consume_key cfg now (ip_bucket d address) cfg.max_per_ip t).0
        ≡ some w
      → ltb (w.updated_at + retention cfg) now ≡ false
      → Dict.get Bucket-discrete (ip a) (consume_login_attempt cfg d now username address t).0
        ≡ some w
  unfolding consume_login_attempt
  get-consume w g f =
      get-cleanup cfg now (ip a) w
        (from_pair (consume_key cfg now (ip_bucket d address) cfg.max_per_ip t).0)
        (get-from_pair (consume_key cfg now (ip_bucket d address) cfg.max_per_ip t).0 ∙ g) f

  module _ (start : ℕ) (w : Window) (g : Dict.get Bucket-discrete (ip a) t ≡ some w)
      (s : w.window_started_at ≡ some start) (le : start ≤ w.updated_at)
      (pos : 0 < cfg.block_seconds) (begun : start ≤ now)
      (ends : now < start + cfg.window_seconds * second) where
    abbrev counted : Window
    counted = row_or w (consume_bucket cfg now cfg.max_per_ip (some w)).0

    updated_after : start ≤ counted.updated_at
    unfolding consume_bucket
    updated_after = ground arith

    fresh : (v : Window) → start ≤ v.updated_at → ltb (v.updated_at + retention cfg) now ≡ false
    fresh v h = ground arith

    found : ip_bucket d address ≡ ip a → Dict.get Bucket-discrete (ip_bucket d address) t ≡ some w
    found e = subst (λ k. Dict.get Bucket-discrete k t ≡ some w) (sym e) g

    get-put_self :
        (k : Bucket) (v : Window)
        → Dict.get Bucket-discrete k (Dict.put Bucket-discrete k v t) ≡ some v
    get-put_self k v = ground (arith, get-put Bucket-discrete k k v t)

    get-same :
        ip_bucket d address ≡ ip a
        → Dict.get Bucket-discrete (ip a) (consume_login_attempt cfg d now username address t).0
          ≡ some counted
    unfolding consume_key
    get-same e =
        get-consume counted
          (rw (found e, row_after cfg cfg.max_per_ip start now w s pos ends, e)
            (get-put_self (ip a) counted))
          (fresh counted updated_after)

    get-other :
        ip_bucket d address ≢ ip a
        → Dict.get Bucket-discrete (ip a) (consume_login_attempt cfg d now username address t).0
          ≡ some w
    unfolding consume_key
    get-other n =
        get-consume w
          (get-write (ip_bucket d address) (ip a)
              (consume_bucket cfg now cfg.max_per_ip
                (Dict.get Bucket-discrete (ip_bucket d address) t)).0
              t n
            ∙ g)
          (fresh w le)

    wait-same :
        ip_bucket d address ≡ ip a
        → (if (consume_login_attempt cfg d now username address t).1 == 0 then 1 else 0)
            + w.attempts
          ≤ counted.attempts
    unfolding consume_login_attempt consume_key
    wait-same e = rw (found e) (
        omega (
          arith,
          (attempts_after cfg cfg.max_per_ip start now w s pos ends).0,
          one_if_allowed (consume_bucket cfg now cfg.max_per_ip (some w)).1
              (consume_bucket cfg now cfg.max_per_ip_user (
                Dict.get Bucket-discrete (pair_bucket d username address) (
                  write (ip_bucket d address) (consume_bucket cfg now cfg.max_per_ip (some w)).0
                    t))).1,
        ))

reset-keeps_ip :
    (d : Digests) (username : Text) (address : Option Text) (a : Text) (t : Table)
    → Dict.get Bucket-discrete (ip a) (reset_login_rate_limit d username address t)
      ≡ Dict.get Bucket-discrete (ip a) t
unfolding reset_login_rate_limit
reset-keeps_ip d username address a t = ground (
  arith,
  get-pop Bucket-discrete (pair_bucket d username address) (ip a) t,
  pair_is_no_ip d username address a,
)

-- From a table with a row of the address, whose window started no later than its last update:
-- within that window, whatever names are tried, whatever other addresses do in
-- between, and however often a valid password resets a pair of a name and an address, no more
-- attempts from the address are allowed than its budget still has.
pub address_budget :
    (cfg : RateConfig) (d : Digests) (a : Text) (start : ℕ) (w : Window) (events : List Event)
    (t : Table)
    → Dict.get Bucket-discrete (ip a) t ≡ some w
    → w.window_started_at ≡ some start
    → start ≤ w.updated_at
    → 0 < cfg.block_seconds
    → All (InTime start (start + cfg.window_seconds * second)) events
    → allowed cfg d a events t + w.attempts ≤ max cfg.max_per_ip w.attempts
unfolding allowed
address_budget cfg d a start w [] t g s le pos times = omega arith
address_budget cfg d a start w (reset username address ∷ events) t g s le pos times =
    address_budget cfg d a start w events (reset_login_rate_limit d username address t)
      (reset-keeps_ip d username address a t ∙ g) s le pos times.1
address_budget cfg d a start w (attempt now username address ∷ events) t g s le pos (h, times) =
    let next = (consume_login_attempt cfg d now username address t).0 in
    let v = row_or w (consume_bucket cfg now cfg.max_per_ip (some w)).0 in
    elim (Bucket-discrete (ip_bucket d address) (ip a)) [
      | yes e ↦ grind (
        arith,
        wait-same cfg d now username address a t start w g s le pos h.0 h.1 e,
        (attempts_after cfg cfg.max_per_ip start now w s pos h.1).1,
        address_budget cfg d a start v events next
            (get-same cfg d now username address a t start w g s le pos h.0 h.1 e)
            (start_after cfg cfg.max_per_ip start now w s pos h.1)
            (updated_after cfg d now username address a t start w g s le pos h.0 h.1) pos times,
      )
      | no n ↦ grind (
        arith,
        address_budget cfg d a start w events next
            (get-other cfg d now username address a t start w g s le pos h.0 h.1 n) s le pos times,
      )
    ]
