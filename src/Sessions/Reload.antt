-- ===== src/Sessions/Reload.antt =====
-- app/security_store.py, the reload tokens: a page that is loaded again is answered from a token of
-- its tab, bound to the browser, in place of the session token.
use borg_backup_manager.Prelude.{
  ℕ, ◌+◌, ◌*◌, min, Bool, not, ◌||◌, Option, none, some, List, [], ◌∷◌, ◌++◌, ltb, if◌then◌else◌,
}
use borg_backup_manager.Text.{Text, text_eq}
use borg_backup_manager.Login.{Digests, second}
use borg_backup_manager.Accounts.{User, Session, ReloadToken, Store}
use borg_backup_manager.Accounts.Users.{find_user, keep_sessions}
use borg_backup_manager.Sessions.{
  SessionConfig, idle_timeout, find_session, session_by_id, delete_session,
}

unfoldable pub find_reload : Text → List ReloadToken → Option ReloadToken
unfolding text_eq
find_reload h [] = none
find_reload h (r ∷ tokens) =
    let rest = find_reload h tokens in if text_eq r.token_hash h then some r else rest

abbrev text_of : Option Text → Text
text_of none = []
text_of (some t) = t

module _ (d : Digests) where
  unfoldable pub user_agent_hash : Option Text → Text
  user_agent_hash user_agent = d.sha256 (text_of user_agent)

  abbrev pub made : Session → Text → ℕ → ℕ → Option Text → ReloadToken
  made t token ttl_seconds now user_agent = record {
    token_hash = d.sha256 token;
    session_id = t.ident;
    user_agent_hash = user_agent_hash user_agent;
    expires_at = min t.expires_at (now + ttl_seconds * second);
  }

  -- The reload token is random; `none` is the ValueError of a session that is not there.
  unfoldable pub create_session_reload_token :
      Text → Text → ℕ → ℕ → Option Text → Store → Option Store
  create_session_reload_token session_token token ttl_seconds now user_agent s =
      elim (find_session (d.sha256 session_token) s.sessions) [
        | none ↦ none
        | some t ↦ some (record s {
          reload_tokens = s.reload_tokens ++ made t token ttl_seconds now user_agent ∷ [];
        })
      ]

  module _ (cfg : SessionConfig) (now : ℕ) (user_agent : Option Text) where
    -- What follows the join of a token with its session and its user.
    unfoldable pub answer_reload : Store → ReloadToken → Session → Option User → Store × Option User
    answer_reload s r t none = (s, none)
    answer_reload s r t (some u) =
        if not u.enabled
        then (s, none)
        else if ltb (min t.expires_at r.expires_at) now
            || ltb (t.last_seen_at + idle_timeout cfg) now
        then (delete_session t.ident s, none)
        else if not (text_eq r.user_agent_hash (user_agent_hash user_agent))
        then (s, none)
        else (s, some u)

    unfoldable pub join_session : Store → ReloadToken → Option Session → Store × Option User
    unfolding answer_reload
    join_session s r none = (s, none)
    join_session s r (some t) = answer_reload s r t (find_user t.user_id s.users)

    unfoldable pub join_reload : Store → Option ReloadToken → Store × Option User
    unfolding join_session session_by_id
    join_reload s none = (s, none)
    join_reload s (some r) = join_session s r (session_by_id r.session_id s.sessions)

    -- `if not token: return None` covers no token and the empty one.
    unfoldable pub get_session_user_by_reload_token : Option Text → Store → Store × Option User
    unfolding join_reload find_reload
    get_session_user_by_reload_token none s = (s, none)
    get_session_user_by_reload_token (some []) s = (s, none)
    get_session_user_by_reload_token (some (c ∷ token)) s =
        join_reload s (find_reload (d.sha256 (c ∷ token)) s.reload_tokens)

  unfoldable pub revoke_session_by_reload_token : Option Text → Store → Store
  revoke_session_by_reload_token none s = s
  revoke_session_by_reload_token (some []) s = s
  revoke_session_by_reload_token (some (c ∷ token)) s =
      elim (find_reload (d.sha256 (c ∷ token)) s.reload_tokens) [
        | none ↦ s
        | some r ↦ delete_session r.session_id s
      ]

  abbrev has_other_hash : Text → Session → Bool
  has_other_hash h t = not (text_eq t.token_hash h)

  unfoldable pub revoke_session : Option Text → Store → Store
  unfolding keep_sessions
  revoke_session none s = s
  revoke_session (some []) s = s
  revoke_session (some (c ∷ token)) s = keep_sessions (has_other_hash (d.sha256 (c ∷ token))) s
