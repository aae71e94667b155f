-- ===== src/Sessions/Revocation.antt =====
-- The sessions that the operations of app/security_store.py on accounts end.
use borg_backup_manager.Prelude.{
  subst, ℕ, Bool, true, false, not, Option, none, some, List, [], ◌∷◌, ◌==◌, keep, ◌≡◌, ◌≢◌, refl,
  arith,
}
use borg_backup_manager.Text.{Text}
use borg_backup_manager.Login.{Digests}
use borg_backup_manager.Accounts.{User, Session, Store, Scrypt, Outcome, done, refused}
use borg_backup_manager.Accounts.Users.{
  apply_write, check_delete, check_update, Write, find_user, keep_sessions, revoke_user_sessions,
  set_user_password, change_own_password, update_user, delete_user, delete_user_as,
}
use borg_backup_manager.Accounts.History.{
  OnDone-then, Operation, create, set_password, change_password, recover, update, prefer, delete,
  unlock, execute, OnDone, OnDone-require, OnDone-reject,
}
use borg_backup_manager.Sessions.{SessionConfig, find_session, admit, admit_found, get_session_user}

-- No session of the account is left.
abbrev pub HasNone : ℕ → List Session → Type 0
HasNone n [] = Unit
HasNone n (t ∷ sessions) = ((t.user_id == n) ≡ false) × HasNone n sessions

keep-HasNone : (n : ℕ) (ts : List Session) → HasNone n (keep (λ t. not (t.user_id == n)) ts)
keep-HasNone n [] = tt
keep-HasNone n (t ∷ ts) = ground (arith, keep-HasNone n ts)

found-HasNone :
    (n : ℕ) (h : Text) (ts : List Session) (t : Session)
    → HasNone n ts
    → find_session h ts ≡ some t
    → (t.user_id == n) ≡ false
unfolding find_session
found-HasNone n h [] t none_left f = cc
found-HasNone n h (r ∷ ts) t none_left f = ground (arith, found-HasNone n h ts t none_left.1)

user_has_ident : (n : ℕ) (users : List User) (u : User) → find_user n users ≡ some u → u.ident ≡ n
unfolding find_user
user_has_ident n [] u f = cc
user_has_ident n (v ∷ users) u f = ground (arith, user_has_ident n users u)

module _ (d : Digests) (cfg : SessionConfig) (now : ℕ) (touch : Bool) where
  admitted_is_owner :
      (s : Store) (t : Session) (o : Option User) (u : User)
      → (admit d cfg now touch s t o).1 ≡ some u
      → o ≡ some u
  unfolding admit
  admitted_is_owner s t none u a = cc
  admitted_is_owner s t (some v) u a = ground (arith, a)

  signed_out :
      (n : ℕ) (token : Option Text) (s : Store) (u : User)
      → HasNone n s.sessions
      → (get_session_user d cfg now token touch s).1 ≡ some u
      → u.ident ≢ n
  unfolding get_session_user admit_found
  signed_out n none s u h a = cc
  signed_out n (some []) s u h a = cc
  signed_out n (some (c ∷ token)) s u h a =
      go (find_session (d.sha256 (c ∷ token)) s.sessions) refl a
    where
      go :
          (o : Option Session)
          → find_session (d.sha256 (c ∷ token)) s.sessions ≡ o
          → (admit_found d cfg now touch s o).1 ≡ some u
          → u.ident ≢ n
      go none e b = cc
      go (some t) e b =
          let owner : u.ident ≡ t.user_id =
            user_has_ident t.user_id s.users u
              (admitted_is_owner s t (find_user t.user_id s.users) u b) in
          ground (arith, owner, found-HasNone n (d.sha256 (c ∷ token)) s.sessions t h e)

-- The account that an operation signs out everywhere.
unfoldable pub signs_out : Operation → Option ℕ
signs_out (set_password salt n password must_change) = some n
signs_out (change_password salt n current_password new_password) = some n
signs_out (update n username role false) = some n
signs_out (delete n current) = some n
signs_out op = none

abbrev Ended : ℕ → Store → Type 0
Ended n s = HasNone n s.sessions

-- A write that leaves the account `n` no session, whenever it is done.
abbrev Writes : ℕ → Write → Type 0
Writes n w = (t : Store) → OnDone (Ended n) (apply_write w t)

some_is : (m n : ℕ) → some m ≡ some n → m ≡ n
some_is m n e = cc

module _ (k : Scrypt) where
  execute-HasNone :
      (op : Operation) (n : ℕ) (s : Store)
      → signs_out op ≡ some n
      → OnDone (Ended n) (execute k op s)
  unfolding signs_out execute OnDone set_user_password change_own_password update_user
      delete_user_as delete_user check_update check_delete apply_write revoke_user_sessions
      keep_sessions
  execute-HasNone (set_password salt m password must_change) n s e =
      subst (λ i. OnDone (Ended i) (execute k (set_password salt m password must_change) s))
        (some_is m n e)
        (OnDone-require (Ended m) _ _ _
          λ hash e1. OnDone-require (Ended m) _ _ _ λ u found. keep-HasNone m s.sessions)
  execute-HasNone (change_password salt m current_password new_password) n s e =
      subst
        (λ i. OnDone (Ended i) (execute k (change_password salt m current_password new_password) s))
        (some_is m n e)
        (OnDone-require (Ended m) _ _ _ λ u found.
          OnDone-reject (Ended m) _ _ _
            λ right. OnDone-require (Ended m) _ _ _ λ hash e1. keep-HasNone m s.sessions)
  execute-HasNone (update m username role false) n s e =
      subst (λ i. OnDone (Ended i) (execute k (update m username role false) s)) (some_is m n e)
        (OnDone-then (Ended m) (check_update m username role false s) s (
          OnDone-require (Writes m) _ _ _ λ name e1. OnDone-require (Writes m) _ _ _ λ r e2.
            OnDone-require (Writes m) _ _ _ λ u found.
              OnDone-reject (Writes m) _ _ _
                λ kept t. OnDone-reject (Ended m) _ _ _ λ free. keep-HasNone m t.sessions))
  execute-HasNone (delete m current) n s e =
      subst (λ i. OnDone (Ended i) (execute k (delete m current) s)) (some_is m n e)
        (OnDone-reject (Ended m) _ _ _ λ allowed.
          OnDone-then (Ended m) (check_delete m current s) s (
            OnDone-reject (Writes m) _ _ _ λ other.
              OnDone-require (Writes m) _ _ _
                λ u there. OnDone-reject (Writes m) _ _ _ λ many t. keep-HasNone m t.sessions))
  execute-HasNone (create salt username password role must_change) n s e = cc
  execute-HasNone (recover salt temporary_password username make_admin) n s e = cc
  execute-HasNone (update m username role true) n s e = cc
  execute-HasNone (prefer m language appearance) n s e = cc
  execute-HasNone (unlock username) n s e = cc

when_done : (P : Store → Type 0) (o : Outcome Store) (t : Store) → OnDone P o → o ≡ done t → P t
unfolding OnDone
when_done P (done s) t h e = let same : s ≡ t = cc in subst P same h
when_done P (refused why) t h e = cc

-- A new password, the deactivation and the deletion of an account sign it out everywhere: after
-- one of them went through, no session token is answered with that account.
pub execute-signs_out :
    (k : Scrypt) (d : Digests) (cfg : SessionConfig) (now : ℕ) (touch : Bool) (op : Operation)
    (n : ℕ) (s t : Store) (token : Option Text) (u : User)
    → signs_out op ≡ some n
    → execute k op s ≡ done t
    → (get_session_user d cfg now token touch t).1 ≡ some u
    → u.ident ≢ n
execute-signs_out k d cfg now touch op n s t token u ends went answer =
    signed_out d cfg now touch n token t u
      (when_done (Ended n) (execute k op s) t (execute-HasNone k op n s ends) went) answer
