-- ===== src/Accounts/Requests.antt =====
-- The requests of app/main.py that change accounts, as app/security_store.py does their statements: the
-- questions of `update_user` and `delete_user` are asked in steps before the one that writes.
use borg_backup_manager.Prelude.{ℕ, ◌<◌, ◌≢◌, ◌⊎◌, Bool, true, ◌&&◌, ◌≡◌}
use borg_backup_manager.Text.{Text}
use borg_backup_manager.Accounts.{Store, done, Scrypt, is_admin, active_admins}
use borg_backup_manager.Accounts.Users.{
  Write, updating, deleting, check_update, check_delete, apply_write, is_admitted, delete_row,
}
use borg_backup_manager.Accounts.History.{Operation, execute}
use borg_backup_manager.Accounts.Admins.{is_single}

-- How far the request has come that changes or deletes an account, if there is one: its route has
-- let it pass, or the account of `updating` or `deleting` will be written next.
pub data Phase : Type 0 where
  idle : Phase
  admitted : (n current : ℕ) → Phase
  writing : Write → Phase

pub record System : Type 0 where
  pub phase : Phase
  pub store : Store

abbrev at : Phase → Store → System
at p s = record { phase = p; store = s }

-- The other operations come at any time. A change or a deletion begins when no other is on its way;
-- it may end at any time without having written.
pub data Step (k : Scrypt) : System → System → Type 0 where
  operates :
      (op : Operation) (p : Phase) (s t : Store)
      → is_single op ≡ true
      → execute k op s ≡ done t
      → Step k (at p s) (at p t)
  checks_update :
      (n : ℕ) (username role : Text) (enabled : Bool) (w : Write) (s : Store)
      → check_update n username role enabled s ≡ done w
      → Step k (at idle s) (at (writing w) s)
  admits :
      (n current : ℕ) (s : Store)
      → is_admitted current s ≡ true
      → Step k (at idle s) (at (admitted n current) s)
  checks_delete :
      (n current : ℕ) (w : Write) (s : Store)
      → check_delete n current s ≡ done w
      → Step k (at (admitted n current) s) (at (writing w) s)
  writes :
      (w : Write) (s t : Store) → apply_write w s ≡ done t → Step k (at (writing w) s) (at idle t)
  fails : (p : Phase) (s : Store) → Step k (at p s) (at idle s)

pub data Reach (k : Scrypt) (s : Store) : System → Type 0 where
  start : Reach k s (at idle s)
  later : {x y : System} → Reach k s x → Step k x y → Reach k s y

-- An active administrator is left without the account `n`.
abbrev Spared : ℕ → Store → Type 0
Spared n s = 0 < active_admins (delete_row n s.users)

abbrev Allowed : Phase → Store → Type 0
Allowed idle s = Unit
Allowed (admitted n current) s = n ≢ current → Spared n s
Allowed (writing (updating n name role enabled)) s =
    ((is_admin role && enabled) ≡ true) ⊎ Spared n s
Allowed (writing (deleting n)) s = Spared n s

abbrev IsSafe : System → Type 0
IsSafe x = (0 < active_admins x.store.users) × Allowed x.phase x.store
