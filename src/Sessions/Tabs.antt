-- ===== src/Sessions/Tabs.antt =====
-- What the reload tokens of app/security_store.py give access to.
use borg_backup_manager.Prelude.{
  ℕ, ◌+◌, ◌*◌, true, not, leb, ◌&&◌, Option, none, some, List, [], ◌∷◌, ◌++◌, if◌then◌else◌, ◌≡◌,
  refl, arith,
}
use borg_backup_manager.Text.{Text, text_eq, text_eq_refl}
use borg_backup_manager.Login.{Digests, second}
use borg_backup_manager.Accounts.{User, Session, ReloadToken, Store}
use borg_backup_manager.Accounts.Users.{find_user}
use borg_backup_manager.Sessions.{SessionConfig, is_over, find_session, session_by_id}
use borg_backup_manager.Sessions.Reload.{
  find_reload, user_agent_hash, made, create_session_reload_token, answer_reload, join_session,
  join_reload, get_session_user_by_reload_token,
}

find-append :
    (h : Text) (tokens : List ReloadToken) (r : ReloadToken)
    → find_reload h tokens ≡ none
    → text_eq r.token_hash h ≡ true
    → find_reload h (tokens ++ r ∷ []) ≡ some r
unfolding find_reload
find-append h [] r f e = ground (arith, e)
find-append h (q ∷ tokens) r f e = ground (arith, find-append h tokens r)

module _ (d : Digests) (cfg : SessionConfig) (session_token : Text) (c : ℕ) (token : Text)
    (ttl_seconds now later : ℕ) (made_by used_by : Option Text) (s r : Store) (t : Session)
    (u : User) (f : find_session (d.sha256 session_token) s.sessions ≡ some t)
    (key : session_by_id t.ident s.sessions ≡ some t) (owner : find_user t.user_id s.users ≡ some u)
    (fresh : find_reload (d.sha256 (c ∷ token)) s.reload_tokens ≡ none)
    (created : create_session_reload_token d session_token (c ∷ token) ttl_seconds now made_by s
      ≡ some r) where
  abbrev given : ReloadToken
  given = made d t (c ∷ token) ttl_seconds now made_by

  created_store : r ≡ record s { reload_tokens = s.reload_tokens ++ given ∷ [] }
  unfolding create_session_reload_token
  created_store =
      let same : some (record s { reload_tokens = s.reload_tokens ++ given ∷ [] }) ≡ some r =
        rw⁻¹ created (rw (create_session_reload_token, f) refl) in
      cc

  -- A new reload token answers with the user of its session if that is enabled, the session is
  -- valid, the time of the token is not over and the browser is the one it was made for, and else
  -- with nobody. Its token hash is one that no other token has.
  pub reload_token_answers :
      (get_session_user_by_reload_token d cfg later used_by (some (c ∷ token)) r).1 ≡ (
        if u.enabled
          && (not (is_over cfg later t)
              && (leb later (now + ttl_seconds * second)
                  && text_eq (user_agent_hash d made_by) (user_agent_hash d used_by)))
        then some u
        else none)
  unfolding get_session_user_by_reload_token join_reload join_session answer_reload is_over
  reload_token_answers =
      rw
        (
          created_store,
          find-append (d.sha256 (c ∷ token)) s.reload_tokens given fresh
              (text_eq_refl (d.sha256 (c ∷ token))),
          key,
          owner,
        )
        (ground arith)
