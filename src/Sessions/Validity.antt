-- ===== src/Sessions/Validity.antt =====
-- When a session of app/security_store.py is valid: the cleanup and the use of sessions agree.
use borg_backup_manager.Prelude.{
  ◌∙◌, subst, ℕ, Bool, true, not, Option, none, some, List, [], ◌∷◌, if◌then◌else◌, keep, ◌≡◌, refl,
  ap, arith, Bool-cases, inl, inr,
}
use borg_backup_manager.Text.{Text, text_eq, eq_of_text_eq}
use borg_backup_manager.Login.{Digests}
use borg_backup_manager.Accounts.{User, Session, Store}
use borg_backup_manager.Accounts.Users.{find_user, keep_sessions}
use borg_backup_manager.Sessions.{
  SessionConfig, is_over, cleanup_expired_sessions, find_session, admit, admit_found,
  get_session_user,
}

-- The constraint UNIQUE on `token_hash`.
abbrev pub UniqueTokens : List Session → Type 0
UniqueTokens [] = Unit
UniqueTokens (t ∷ sessions) = (find_session t.token_hash sessions ≡ none) × UniqueTokens sessions

abbrev filter_found : (Session → Bool) → Option Session → Option Session
filter_found p none = none
filter_found p (some t) = if p t then some t else none

find-keep-none :
    (p : Session → Bool) (h : Text) (ts : List Session)
    → find_session h ts ≡ none
    → find_session h (keep p ts) ≡ none
unfolding find_session
find-keep-none p h [] f = refl
find-keep-none p h (t ∷ ts) f = ground (arith, find-keep-none p h ts)

pub find-keep :
    (p : Session → Bool) (h : Text) (ts : List Session)
    → UniqueTokens ts
    → find_session h (keep p ts) ≡ filter_found p (find_session h ts)
unfolding find_session
find-keep p h [] u = refl
find-keep p h (t ∷ ts) u = elim (Bool-cases (text_eq t.token_hash h)) [
  | inl e ↦
      let alone : find_session h ts ≡ none =
        subst (λ g. find_session g ts ≡ none) (eq_of_text_eq t.token_hash h e) u.0 in
      ground (arith, find-keep-none p h ts alone, e)
  | inr e ↦ ground (arith, find-keep p h ts u.1, e)
]

module _ (d : Digests) (cfg : SessionConfig) (now : ℕ) (touch : Bool) where
  admit-answer :
      (s r : Store) (t : Session) (u : Option User)
      → (admit d cfg now touch s t u).1 ≡ (admit d cfg now touch r t u).1
  unfolding admit
  admit-answer s r t none = refl
  admit-answer s r t (some u) = ground arith

  over-refused :
      (s : Store) (t : Session) (u : Option User)
      → is_over cfg now t ≡ true
      → (admit d cfg now touch s t u).1 ≡ none
  unfolding admit
  over-refused s t none e = refl
  over-refused s t (some u) e = ground (arith, e)

  found-answer :
      (s r : Store) (f : Option Session)
      → r.users ≡ s.users
      → (admit_found d cfg now touch r (filter_found (λ t. not (is_over cfg now t)) f)).1
        ≡ (admit_found d cfg now touch s f).1
  unfolding admit_found
  found-answer s r none e = refl
  found-answer s r (some t) e = elim (Bool-cases (is_over cfg now t)) [
    | inl over ↦ rw (over, over-refused s t (find_user t.user_id s.users) over) refl
    | inr good ↦ rw good (
        admit-answer r s t (find_user t.user_id r.users)
        ∙ ap (λ us. (admit d cfg now touch s t (find_user t.user_id us)).1) e)
  ]

  -- The cleanup deletes only sessions that are refused anyway: whoever asks at the same instant gets
  -- the same answer after it, if the token hashes are unique.
  pub cleanup_keeps_answers :
      (token : Option Text) (s : Store)
      → UniqueTokens s.sessions
      → (get_session_user d cfg now token touch (cleanup_expired_sessions cfg now s)).1
        ≡ (get_session_user d cfg now token touch s).1
  unfolding get_session_user cleanup_expired_sessions keep_sessions
  cleanup_keeps_answers none s u = refl
  cleanup_keeps_answers (some []) s u = refl
  cleanup_keeps_answers (some (c ∷ token)) s u =
      rw (find-keep (λ t. not (is_over cfg now t)) (d.sha256 (c ∷ token)) s.sessions u) (
        found-answer s (cleanup_expired_sessions cfg now s)
          (find_session (d.sha256 (c ∷ token)) s.sessions) refl)
