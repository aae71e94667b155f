-- ===== src/Sessions.antt =====
-- app/security_store.py, the sessions of signed-in users and the tokens that survive a reload of the
-- page. Each function is one transaction; a write that a locked database would skip is made.
pub mod Validity
pub mod Revocation
pub mod Reload
pub mod Tabs
pub mod Activity
mod Tests
use borg_backup_manager.Prelude.{
  ℕ, ◌+◌, ◌*◌, min, max, Bool, not, ◌&&◌, ◌||◌, Option, none, some, List, [], ◌∷◌, ◌++◌, ltb, ◌==◌,
  if◌then◌else◌,
}
use borg_backup_manager.Text.{Text, text_eq}
use borg_backup_manager.Login.{Digests, second}
use borg_backup_manager.Accounts.{User, Session, Store}
use borg_backup_manager.Accounts.Users.{find_user, keep_sessions}

-- `SESSION_TTL_SECONDS` and the setting `session_idle_timeout_seconds`.
pub record SessionConfig : Type 0 where
  pub ttl_seconds : ℕ
  pub idle_timeout_seconds : ℕ

-- `_effective_session_idle_timeout_seconds`, in microseconds.
unfoldable pub idle_timeout : SessionConfig → ℕ
idle_timeout cfg = max 60 (min cfg.ttl_seconds cfg.idle_timeout_seconds) * second

-- `expires < now or now - last_seen > idle timeout`
unfoldable pub is_over : SessionConfig → ℕ → Session → Bool
is_over cfg now t = ltb t.expires_at now || ltb (t.last_seen_at + idle_timeout cfg) now

unfoldable pub cleanup_expired_sessions : SessionConfig → ℕ → Store → Store
unfolding is_over keep_sessions
cleanup_expired_sessions cfg now = keep_sessions λ t. not (is_over cfg now t)

unfoldable pub find_session : Text → List Session → Option Session
unfolding text_eq
find_session h [] = none
find_session h (t ∷ sessions) =
    let rest = find_session h sessions in if text_eq t.token_hash h then some t else rest

unfoldable pub session_by_id : ℕ → List Session → Option Session
session_by_id n [] = none
session_by_id n (t ∷ sessions) =
    let rest = session_by_id n sessions in if t.ident == n then some t else rest

abbrev pub seen : ℕ → Session → Session
seen now t = record t { last_seen_at = now }

-- `UPDATE sessions SET last_seen_at=… WHERE id=? AND last_seen_at=?`
unfoldable pub touch_session : ℕ → Session → List Session → List Session
touch_session now old [] = []
touch_session now old (t ∷ sessions) =
    let rest = touch_session now old sessions in
    if t.ident == old.ident && t.last_seen_at == old.last_seen_at
    then seen now t ∷ rest
    else t ∷ rest

abbrev other_session : ℕ → Session → Bool
other_session n t = not (t.ident == n)

-- `_delete_session_best_effort`
unfoldable pub delete_session : ℕ → Store → Store
unfolding keep_sessions
delete_session n = keep_sessions (other_session n)

module _ (d : Digests) where
  -- The token is random; `user_id` is that of the user who signed in.
  unfoldable pub create_session : Text → ℕ → ℕ → ℕ → Store → Store
  create_session token user_id ttl_seconds now s =
      let made : Session = record {
        ident = s.next_session;
        token_hash = d.sha256 token;
        user_id = user_id;
        expires_at = now + ttl_seconds * second;
        last_seen_at = now;
      } in
      record s { sessions = s.sessions ++ made ∷ []; next_session = s.next_session + 1 }

  module _ (cfg : SessionConfig) (now : ℕ) where
    -- `touch and now - last_seen > timedelta(minutes=1)`
    unfoldable pub touched : Bool → Session → Store → Store
    unfolding touch_session
    touched touch t s =
        if touch && ltb (t.last_seen_at + 60 * second) now
        then record s { sessions = touch_session now t s.sessions }
        else s

    -- What follows the join of a session with its user.
    unfoldable pub admit : Bool → Store → Session → Option User → Store × Option User
    unfolding is_over delete_session touched
    admit touch s t none = (s, none)
    admit touch s t (some u) =
        if not u.enabled
        then (s, none)
        else if is_over cfg now t
        then (delete_session t.ident s, none)
        else (touched touch t s, some u)

    unfoldable pub admit_found : Bool → Store → Option Session → Store × Option User
    unfolding admit
    admit_found touch s none = (s, none)
    admit_found touch s (some t) = admit touch s t (find_user t.user_id s.users)

    -- `if not token: return None` covers no token and the empty one.
    unfoldable pub get_session_user : Option Text → Bool → Store → Store × Option User
    unfolding admit_found find_session
    get_session_user none touch s = (s, none)
    get_session_user (some []) touch s = (s, none)
    get_session_user (some (c ∷ token)) touch s =
        admit_found touch s (find_session (d.sha256 (c ∷ token)) s.sessions)
