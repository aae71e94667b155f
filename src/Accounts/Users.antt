-- ===== src/Accounts/Users.antt =====
-- app/security_store.py, the operations on user accounts, and the guards of app/main.py before the
-- two that an administrator may not apply to every account.
use borg_backup_manager.Prelude.{
  ℕ, ◌+◌, Bool, true, false, not, ◌&&◌, ◌||◌, Option, none, some, List, [], ◌∷◌, ◌++◌, leb, ◌==◌,
  if◌then◌else◌, keep,
}
use borg_backup_manager.Text.{Text, codes, text_eq}
use borg_backup_manager.Accounts.{
  Role, admin, user, User, Session, Store, invalid_username, invalid_role, invalid_password,
  invalid_preferences, name_taken, unknown_user, wrong_password, last_administrator, forbidden,
  own_account, Outcome, done, refused, reject, require, validate_username, Scrypt, hash_password,
  verify_password, same_name, is_admin, is_active_admin, active_admins, administrators,
  PasswordHash,
}

-- The rows of a table are found by their primary key, so a statement `… WHERE id=?` is about one.
unfoldable pub find_user : ℕ → List User → Option User
find_user n [] = none
find_user n (u ∷ users) = let rest = find_user n users in if u.ident == n then some u else rest

unfoldable pub set_user : ℕ → (User → User) → List User → List User
set_user n change [] = []
set_user n change (u ∷ users) =
    let rest = set_user n change users in if u.ident == n then change u ∷ users else u ∷ rest

unfoldable pub delete_row : ℕ → List User → List User
delete_row n [] = []
delete_row n (u ∷ users) = let rest = delete_row n users in if u.ident == n then users else u ∷ rest

-- The first row of that name: names are unique.
unfoldable pub find_name : Text → List User → Option User
unfolding same_name
find_name name [] = none
find_name name (u ∷ users) =
    let rest = find_name name users in if same_name u.username name then some u else rest

-- Whether a row other than row `n` has the name: the constraint UNIQUE.
unfoldable pub is_taken : Text → ℕ → List User → Bool
unfolding same_name
is_taken name n [] = false
is_taken name n (u ∷ users) =
    let rest = is_taken name n users in (not (u.ident == n) && same_name u.username name) || rest

-- A row of `session_reload_tokens` goes with its session: ON DELETE CASCADE.
unfoldable pub has_session : ℕ → List Session → Bool
has_session n [] = false
has_session n (t ∷ sessions) = let rest = has_session n sessions in t.ident == n || rest

unfoldable pub keep_sessions : (Session → Bool) → Store → Store
unfolding has_session
keep_sessions p s =
    let left = keep p s.sessions in
    record s {
      sessions = left;
      reload_tokens = keep (λ t. has_session t.session_id left) s.reload_tokens;
    }

abbrev is_of_other : ℕ → Session → Bool
is_of_other n t = not (t.user_id == n)

unfoldable pub revoke_user_sessions : ℕ → Store → Store
unfolding keep_sessions
revoke_user_sessions n = keep_sessions (is_of_other n)

unfoldable pub parse_role : Text → Option Role
unfolding text_eq
parse_role role =
    if text_eq role (codes "admin")
    then some admin
    else if text_eq role (codes "user")
    then some user
    else none

abbrev new_user : ℕ → Text → PasswordHash → Role → Bool → User
new_user n name h role must_change = record {
  ident = n;
  username = name;
  password_hash = h;
  role = role;
  enabled = true;
  must_change_password = must_change;
  failed_attempts = 0;
  locked_until = none;
  language = codes "de";
  appearance = codes "auto";
  two_factor_enabled = false;
  two_factor_secret = none;
  recovery_codes = [];
}

abbrev insert_user : Text → PasswordHash → Role → Bool → Store → Store
insert_user name h role must_change s = record s {
  users = s.users ++ new_user s.next_user name h role must_change ∷ [];
  next_user = s.next_user + 1;
}

module _ (k : Scrypt) where
  unfoldable pub create_user : Text → Text → Text → Text → Bool → Store → Outcome Store
  create_user salt username password role must_change s =
      require (validate_username username) invalid_username λ name.
        require (parse_role role) invalid_role λ r.
          require (hash_password k salt password) invalid_password λ h.
            reject (is_taken name s.next_user s.users) name_taken
              (done (insert_user name h r must_change s))

  abbrev pub with_password : PasswordHash → Bool → User → User
  with_password h must_change u = record u {
    password_hash = h;
    must_change_password = must_change;
    failed_attempts = 0;
    locked_until = none;
  }

  abbrev write_password : ℕ → PasswordHash → Bool → Store → Store
  write_password n h must_change s =
      revoke_user_sessions n (record s { users = set_user n (with_password h must_change) s.users })

  unfoldable pub set_user_password : Text → ℕ → Text → Bool → Store → Outcome Store
  set_user_password salt n password must_change s =
      require (hash_password k salt password) invalid_password
        λ h. require (find_user n s.users) unknown_user λ u. done (write_password n h must_change s)

  unfoldable pub change_own_password : Text → ℕ → Text → Text → Store → Outcome Store
  change_own_password salt n current_password new_password s =
      require (find_user n s.users) unknown_user λ u.
        reject (not (verify_password k current_password u.password_hash)) wrong_password (
          require (hash_password k salt new_password) invalid_password
            λ h. done (write_password n h false s))

  abbrev pub recovered : PasswordHash → Bool → User → User
  recovered h make_admin u = record u {
    password_hash = h;
    role = if make_admin then admin else u.role;
    enabled = true;
    must_change_password = true;
    failed_attempts = 0;
    locked_until = none;
  }

  -- The row that the name finds, if any, is changed, and else one is inserted.
  abbrev pub recover_row : Text → PasswordHash → Bool → Store → Option User → Store
  recover_row name h make_admin s none =
      revoke_user_sessions s.next_user
        (insert_user name h (if make_admin then admin else user) true s)
  recover_row name h make_admin s (some u) =
      revoke_user_sessions u.ident
        (record s { users = set_user u.ident (recovered h make_admin) s.users })

  -- The temporary password is an argument.
  unfoldable pub recover_account : Text → Text → Text → Bool → Store → Outcome Store
  recover_account salt temporary_password username make_admin s =
      require (validate_username username) invalid_username λ name.
        require (hash_password k salt temporary_password) invalid_password
          λ h. done (recover_row name h make_admin s (find_name name s.users))

-- The guard against losing the last active administrator.
unfoldable pub loses_last_admin : User → Role → Bool → List User → Bool
unfolding active_admins
loses_last_admin u role enabled users =
    is_active_admin u && ((not (is_admin role) || not enabled) && leb (active_admins users) 1)

abbrev pub updated : Text → Role → Bool → User → User
updated name role enabled u = record u { username = name; role = role; enabled = enabled }

abbrev write_update : ℕ → Text → Role → Bool → Store → Store
write_update n name role enabled s =
    let written : Store = record s { users = set_user n (updated name role enabled) s.users } in
    if enabled then written else revoke_user_sessions n written

-- The statement that ends `update_user` or `delete_user`. The questions of these two come before it
-- and in no transaction with it, so that other requests may come between.
pub data Write : Type 0 where
  updating : (n : ℕ) (name : Text) (role : Role) (enabled : Bool) → Write
  deleting : (n : ℕ) → Write

-- `update_user` up to its UPDATE.
unfoldable pub check_update : ℕ → Text → Text → Bool → Store → Outcome Write
unfolding loses_last_admin
check_update n username role enabled s =
    require (validate_username username) invalid_username λ name.
      require (parse_role role) invalid_role λ r. require (find_user n s.users) unknown_user λ u.
        reject (loses_last_admin u r enabled s.users) last_administrator
          (done (updating n name r enabled))

-- `delete_user` up to its DELETE.
unfoldable pub check_delete : ℕ → ℕ → Store → Outcome Write
unfolding administrators
check_delete n current s = reject (n == current) own_account (
    require (find_user n s.users) unknown_user λ u.
      reject (is_admin u.role && leb (administrators s.users) 1) last_administrator
        (done (deleting n)))

-- The statement and what follows it. The sessions of a deleted account go with it: ON DELETE CASCADE.
unfoldable pub apply_write : Write → Store → Outcome Store
apply_write (updating n name role enabled) s =
    reject (is_taken name n s.users) name_taken (done (write_update n name role enabled s))
apply_write (deleting n) s =
    done (revoke_user_sessions n (record s { users = delete_row n s.users }))

unfoldable pub then_write : Outcome Write → Store → Outcome Store
unfolding apply_write
then_write (done w) s = apply_write w s
then_write (refused why) s = refused why

-- `update_user` while no other request writes.
unfoldable pub update_user : ℕ → Text → Text → Bool → Store → Outcome Store
unfolding check_update then_write
update_user n username role enabled s = then_write (check_update n username role enabled s) s

abbrev is_language : Text → Bool
is_language t = text_eq t (codes "de") || text_eq t (codes "en")

abbrev is_appearance : Text → Bool
is_appearance t =
    text_eq t (codes "auto") || (text_eq t (codes "light") || text_eq t (codes "dark"))

abbrev pub preferring : Text → Text → User → User
preferring language appearance u = record u { language = language; appearance = appearance }

unfoldable pub update_user_preferences : ℕ → Text → Text → Store → Outcome Store
update_user_preferences n language appearance s =
    reject (not (is_language language && is_appearance appearance)) invalid_preferences (
      require (find_user n s.users) unknown_user
        λ u. done (record s { users = set_user n (preferring language appearance) s.users }))

-- `delete_user` while no other request writes.
unfoldable pub delete_user : ℕ → ℕ → Store → Outcome Store
unfolding check_delete then_write
delete_user n current s = then_write (check_delete n current s) s

abbrev pub unlocked : User → User
unlocked u = record u { failed_attempts = 0; locked_until = none }

abbrev pub unlock_row : Store → Option User → Outcome (Store × Bool)
unlock_row s none = done (s, false)
unlock_row s (some u) = done (record s { users = set_user u.ident unlocked s.users }, true)

-- The store, and whether there is such an account.
unfoldable pub unlock_account : Text → Store → Outcome (Store × Bool)
unlock_account username s =
    require (validate_username username) invalid_username
      λ name. unlock_row s (find_name name s.users)

-- `require_admin_access` of app/main.py, which the route asks before `delete_user`: the session's user
-- is enabled, and its role is that of an administrator.
unfoldable pub is_admitted : ℕ → Store → Bool
unfolding find_user
is_admitted current s = elim (find_user current s.users) [
  | none ↦ false
  | some u ↦ is_active_admin u
]

-- The route that deletes an account, while no other request writes.
unfoldable pub delete_user_as : ℕ → ℕ → Store → Outcome Store
unfolding delete_user is_admitted
delete_user_as n current s =
    reject (not (is_admitted current s)) forbidden (delete_user n current s)
