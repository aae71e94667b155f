-- ===== src/Accounts/Race.antt =====
-- Two requests of app/main.py that delete accounts at the same time, as app/security_store.py does their
-- statements.
use borg_backup_manager.Prelude.{ℕ, ◌≤◌, ◌≢◌, true, some, List, [], ◌∷◌, ◌≡◌, refl, sym, arith}
use borg_backup_manager.Accounts.{
  User, Store, done, is_active_admin, active_admins, administrators, reject, require,
}
use borg_backup_manager.Accounts.Users.{
  deleting, check_delete, apply_write, is_admitted, find_user, delete_row, revoke_user_sessions,
  keep_sessions,
}
use borg_backup_manager.Accounts.Admins.{admins-delete, found_apart}

active-administrators : (users : List User) → active_admins users ≤ administrators users
unfolding active_admins administrators
active-administrators [] = omega arith
active-administrators (u ∷ users) = ground (arith, active-administrators users)

check_passes :
    (n current : ℕ) (s : Store) (u : User)
    → n ≢ current
    → find_user n s.users ≡ some u
    → 2 ≤ administrators s.users
    → check_delete n current s ≡ done (deleting n)
unfolding check_delete reject require
check_passes n current s u d f m = ground (arith, d, f, m)

is_admitted_lem :
    (current : ℕ) (s : Store) (u : User)
    → find_user current s.users ≡ some u
    → is_active_admin u ≡ true
    → is_admitted current s ≡ true
unfolding is_admitted
is_admitted_lem current s u f a = ground (arith, f, a)

both_gone :
    (a b : ℕ) (users : List User) (u v : User)
    → a ≢ b
    → find_user a users ≡ some u
    → is_active_admin u ≡ true
    → find_user b users ≡ some v
    → is_active_admin v ≡ true
    → active_admins users ≡ 2
    → active_admins (delete_row b (delete_row a users)) ≡ 0
both_gone a b users u v d f h g i two = ground (
  arith,
  h,
  i,
  two,
  admins-delete a users u f,
  admins-delete b (delete_row a users) v (found_apart a b users v d g),
)

-- Where two administrators are the only active ones, each of them may delete the other at the same
-- time: the route lets both requests pass and both pass the checks of `delete_user` if neither has
-- written yet, and once both have written, no active administrator is left.
pub deletions_race :
    (a b : ℕ) (s : Store) (u v : User)
    → a ≢ b
    → find_user a s.users ≡ some u
    → is_active_admin u ≡ true
    → find_user b s.users ≡ some v
    → is_active_admin v ≡ true
    → active_admins s.users ≡ 2
    → ((is_admitted b s ≡ true) × (check_delete a b s ≡ done (deleting a)))
      × (((is_admitted a s ≡ true) × (check_delete b a s ≡ done (deleting b)))
          × ((t : Store) × ((apply_write (deleting a) s ≡ done t)
                × ((x : Store) × ((apply_write (deleting b) t ≡ done x)
                      × (active_admins x.users ≡ 0))))))
unfolding apply_write revoke_user_sessions keep_sessions
deletions_race a b s u v d f h g i two =
    let many : 2 ≤ administrators s.users = omega (arith, two, active-administrators s.users) in
    (
      (is_admitted_lem b s v g i, check_passes a b s u d f many),
      (
        (is_admitted_lem a s u f h, check_passes b a s v (λ e. d (sym e)) g many),
        (_, (refl, (_, (refl, both_gone a b s.users u v d f h g i two)))),
      ),
    )
