-- ===== src/Accounts/Admins.antt =====
-- The administrators of app/security_store.py, and the operations on accounts other than update_user and
-- delete_user.
use borg_backup_manager.Prelude.{
  refl, ℕ, ◌+◌, ◌≤◌, Bool, true, false, Option, none, some, List, [], ◌∷◌, ◌++◌, if◌then◌else◌, ◌≡◌,
  ◌≢◌, arith,
}
use borg_backup_manager.Text.{Text}
use borg_backup_manager.Accounts.{PasswordHash, User, Store, Scrypt, is_active_admin, active_admins}
use borg_backup_manager.Accounts.History.{
  OnDone, OnDone-require, OnDone-reject, OnDone-answer, without_answer, create, set_password,
  change_password, recover, update, prefer, delete, unlock, Operation, execute,
}
use borg_backup_manager.Accounts.Users.{
  recover_row, unlock_row, with_password, preferring, recovered, unlocked, find_user, set_user,
  delete_row, find_name, keep_sessions, revoke_user_sessions, create_user, set_user_password,
  change_own_password, recover_account, update_user_preferences, unlock_account,
}

abbrev pub one_active : User → ℕ
one_active u = if is_active_admin u then 1 else 0

admins-append : (users more : List User) → active_admins users ≤ active_admins (users ++ more)
unfolding active_admins
admins-append [] more = omega arith
admins-append (u ∷ users) more = ground (arith, admins-append users more)

pub set_le :
    (n : ℕ) (change : User → User) (users : List User)
    → ((u : User) → is_active_admin u ≡ true → is_active_admin (change u) ≡ true)
    → active_admins users ≤ active_admins (set_user n change users)
unfolding active_admins set_user
set_le n change [] kept = omega arith
set_le n change (u ∷ users) kept = ground (arith, kept u, set_le n change users kept)

-- What the row `n` counts for.
pub admins-delete :
    (n : ℕ) (users : List User) (u : User)
    → find_user n users ≡ some u
    → active_admins (delete_row n users) + one_active u ≡ active_admins users
unfolding active_admins find_user delete_row
admins-delete n [] u f = cc
admins-delete n (v ∷ users) u f = ground (arith, admins-delete n users u)

pub delete-admins :
    (n : ℕ) (users : List User) → active_admins (delete_row n users) ≤ active_admins users
unfolding active_admins delete_row
delete-admins n [] = omega arith
delete-admins n (u ∷ users) = ground (arith, delete-admins n users)

-- A change of the row `n` leaves the others.
pub set-delete :
    (n : ℕ) (change : User → User) (users : List User)
    → active_admins (delete_row n users) ≤ active_admins (set_user n change users)
unfolding active_admins delete_row set_user
set-delete n change [] = omega arith
set-delete n change (u ∷ users) = ground (arith, set-delete n change users)

pub found_apart :
    (a b : ℕ) (users : List User) (u : User)
    → a ≢ b
    → find_user b users ≡ some u
    → find_user b (delete_row a users) ≡ some u
unfolding find_user delete_row
found_apart a b [] u d f = cc
found_apart a b (v ∷ users) u d f = ground (arith, found_apart a b users u, d, f)

-- Neither the active administrators nor those of them that a deletion would leave get fewer.
abbrev pub Covers : List User → List User → Type 0
Covers users more =
    (active_admins users ≤ active_admins more)
    × ((n : ℕ) → active_admins (delete_row n users) ≤ active_admins (delete_row n more))

abbrev pub Grows : Store → Store → Type 0
Grows s t = Covers s.users t.users

set_delete_le :
    (m n : ℕ) (change : User → User) (users : List User)
    → ((u : User) → is_active_admin u ≡ true → is_active_admin (change u) ≡ true)
    → ((u : User) → (change u).ident ≡ u.ident)
    → active_admins (delete_row n users) ≤ active_admins (delete_row n (set_user m change users))
unfolding active_admins delete_row set_user
set_delete_le m n change [] kept same = omega arith
set_delete_le m n change (u ∷ users) kept same =
    ground
      (arith, kept u, same u, set_delete_le m n change users kept same, set_le m change users kept)

append_delete_le :
    (n : ℕ) (users more : List User)
    → active_admins (delete_row n users) ≤ active_admins (delete_row n (users ++ more))
unfolding active_admins delete_row
append_delete_le n [] more = omega arith
append_delete_le n (u ∷ users) more =
    ground (arith, append_delete_le n users more, admins-append users more)

set-Covers :
    (m : ℕ) (change : User → User) (users : List User)
    → ((u : User) → is_active_admin u ≡ true → is_active_admin (change u) ≡ true)
    → ((u : User) → (change u).ident ≡ u.ident)
    → Covers users (set_user m change users)
set-Covers m change users kept same =
    (set_le m change users kept, λ n. set_delete_le m n change users kept same)

append-Covers : (users more : List User) → Covers users (users ++ more)
append-Covers users more = (admins-append users more, λ n. append_delete_le n users more)

module _ (k : Scrypt) where
  create-Grows :
      (salt username password role : Text) (must_change : Bool) (s : Store)
      → OnDone (Grows s) (create_user k salt username password role must_change s)
  unfolding create_user OnDone
  create-Grows salt username password role must_change s = OnDone-require (Grows s) _ _ _ λ name e1.
      OnDone-require (Grows s) _ _ _ λ r e2.
        OnDone-require (Grows s) _ _ _
          λ hash e3. OnDone-reject (Grows s) _ _ _ λ free. append-Covers s.users _

  set_password-Grows :
      (salt : Text) (n : ℕ) (password : Text) (must_change : Bool) (s : Store)
      → OnDone (Grows s) (set_user_password k salt n password must_change s)
  unfolding set_user_password OnDone revoke_user_sessions keep_sessions
  set_password-Grows salt n password must_change s = OnDone-require (Grows s) _ _ _ λ hash e1.
      OnDone-require (Grows s) _ _ _
        λ u found. set-Covers n (with_password k hash must_change) s.users (λ v a. a) (λ v. refl)

  change_password-Grows :
      (salt : Text) (n : ℕ) (current_password new_password : Text) (s : Store)
      → OnDone (Grows s) (change_own_password k salt n current_password new_password s)
  unfolding change_own_password OnDone revoke_user_sessions keep_sessions
  change_password-Grows salt n current_password new_password s =
      OnDone-require (Grows s) _ _ _ λ u found. OnDone-reject (Grows s) _ _ _ λ right.
        OnDone-require (Grows s) _ _ _
          λ hash e1. set-Covers n (with_password k hash false) s.users (λ v a. a) (λ v. refl)

  recover-Grows :
      (salt temporary_password username : Text) (make_admin : Bool) (s : Store)
      → OnDone (Grows s) (recover_account k salt temporary_password username make_admin s)
  unfolding recover_account OnDone revoke_user_sessions keep_sessions
  recover-Grows salt temporary_password username make_admin s =
      OnDone-require (Grows s) _ _ _
        λ name e1. OnDone-require (Grows s) _ _ _ λ hash e2. go (find_name name s.users) hash name
    where
      go :
          (found : Option User) (hash : PasswordHash) (name : Text)
          → Grows s (recover_row k name hash make_admin s found)
      go none hash name = append-Covers s.users _
      go (some u) hash name =
          set-Covers u.ident (recovered k hash make_admin) s.users (λ v a. ground arith) (λ v. refl)

prefer-Grows :
    (n : ℕ) (language appearance : Text) (s : Store)
    → OnDone (Grows s) (update_user_preferences n language appearance s)
unfolding update_user_preferences OnDone
prefer-Grows n language appearance s = OnDone-reject (Grows s) _ _ _ λ valid.
    OnDone-require (Grows s) _ _ _
      λ u found. set-Covers n (preferring language appearance) s.users (λ v a. a) (λ v. refl)

unlock-Grows :
    (username : Text) (s : Store) → OnDone (Grows s) (without_answer (unlock_account username s))
unfolding unlock_account OnDone
unlock-Grows username s = OnDone-answer (Grows s) _ (
    OnDone-require (λ answer. Grows s answer.0) _ _ _
      λ name e1. unlocked_admin (find_name name s.users))
  where
    unlocked_admin :
        (found : Option User) → OnDone (λ answer. Grows s answer.0) (unlock_row s found)
    unlocked_admin none = (omega arith, λ n. omega arith)
    unlocked_admin (some u) = set-Covers u.ident unlocked s.users (λ v a. a) (λ v. refl)

-- An operation that is one statement, or that writes whatever it has read about administrators.
unfoldable pub is_single : Operation → Bool
is_single (update n username role enabled) = false
is_single (delete n current) = false
is_single op = true

pub execute-Grows :
    (k : Scrypt) (op : Operation) (s : Store)
    → is_single op ≡ true
    → OnDone (Grows s) (execute k op s)
unfolding execute is_single
execute-Grows k (create salt username password role must_change) s e =
    create-Grows k salt username password role must_change s
execute-Grows k (set_password salt n password must_change) s e =
    set_password-Grows k salt n password must_change s
execute-Grows k (change_password salt n current_password new_password) s e =
    change_password-Grows k salt n current_password new_password s
execute-Grows k (recover salt temporary_password username make_admin) s e =
    recover-Grows k salt temporary_password username make_admin s
execute-Grows k (update n username role enabled) s e = cc
execute-Grows k (prefer n language appearance) s e = prefer-Grows n language appearance s
execute-Grows k (delete n current) s e = cc
execute-Grows k (unlock username) s e = unlock-Grows username s
