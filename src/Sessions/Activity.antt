-- ===== src/Sessions/Activity.antt =====
-- How long a session of app/security_store.py lives that is in use.
use borg_backup_manager.Prelude.{
  ltb, ◌*◌, ◌+◌, ◌≤◌, Bool, ℕ, true, false, some, List, [], ◌∷◌, ◌≡◌, arith, Bool-cases, inl, inr,
}
use borg_backup_manager.Text.{Text, text_eq}
use borg_backup_manager.Login.{second, Digests}
use borg_backup_manager.Accounts.{User, Session, Store}
use borg_backup_manager.Accounts.Users.{find_user}
use borg_backup_manager.Sessions.{
  idle_timeout, SessionConfig, is_over, find_session, touched, admit, admit_found, get_session_user,
  touch_session, seen,
}

find-touch :
    (now : ℕ) (h : Text) (ts : List Session) (t : Session)
    → find_session h ts ≡ some t
    → find_session h (touch_session now t ts) ≡ some (seen now t)
unfolding find_session touch_session
find-touch now h [] t f = cc
find-touch now h (r ∷ ts) t f = elim (Bool-cases (text_eq r.token_hash h)) [
  | inl e ↦ ground (arith, e, f)
  | inr e ↦ ground (arith, e, f, find-touch now h ts t)
]

module _ (d : Digests) (cfg : SessionConfig) (now later : ℕ) (c : ℕ) (token : Text) (s : Store)
    (t : Session) (u : User) (f : find_session (d.sha256 (c ∷ token)) s.sessions ≡ some t)
    (owner : find_user t.user_id s.users ≡ some u) (on : u.enabled ≡ true)
    (valid : is_over cfg now t ≡ false) where
  first_use :
      get_session_user d cfg now (some (c ∷ token)) true s ≡ (touched d cfg now true t s, some u)
  unfolding get_session_user admit_found admit
  first_use = rw f (ground (arith, owner, on, valid))

  -- A session in use stays: after a request with a valid session of an enabled user that touches it,
  -- another one is admitted for that user if it comes no later than a minute before the idle timeout
  -- counted from the first, and not after the session expires.
  pub active_session_lives :
      (touch : Bool)
      → now ≤ later
      → later ≤ t.expires_at
      → later + 60 * second ≤ now + idle_timeout cfg
      → (get_session_user d cfg later
          (some (c ∷ token))
          touch
          (get_session_user d cfg now (some (c ∷ token)) true s).0).1
        ≡ some u
  unfolding get_session_user admit_found admit touched is_over
  active_session_lives touch begun before soon =
      rw first_use (elim (Bool-cases (ltb (t.last_seen_at + 60 * second) now)) [
        | inl stale ↦
            rw (stale, find-touch now (d.sha256 (c ∷ token)) s.sessions t f)
              (ground (arith, owner, on, before, soon))
        | inr fresh ↦ rw (fresh, f) (ground (arith, owner, on, before, soon, valid))
      ])
