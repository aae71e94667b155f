-- ===== src/SshActions.antt =====
-- app/security_store.py, the SSH actions of hosts: the table `host_ssh_actions`, whose commands are
-- encrypted. The dates of a row are not kept.
pub mod Orphans
pub mod History
mod Tests
use borg_backup_manager.Prelude.{
  ℕ, ◌+◌, Bool, true, false, not, ◌||◌, Option, none, some, List, [], ◌∷◌, ◌++◌, ltb, leb, ◌==◌,
  if◌then◌else◌, keep, length, map, contains,
}
use borg_backup_manager.Text.{text_leb, Text, text_eq}
use borg_backup_manager.Accounts.Authentication.{Vault}

-- A row; `host_id` to `enabled` are the arguments of a creation, the command encrypted.
pub record Row : Type 0 where
  pub ident : ℕ
  pub host_id : ℕ
  pub name : Text
  pub encrypted_command : Text
  pub timeout_seconds : ℕ
  pub enabled : Bool

-- `HostSshActionRecord`
pub record Action : Type 0 where
  pub ident : ℕ
  pub host_id : ℕ
  pub name : Text
  pub command : Text
  pub timeout_seconds : ℕ
  pub enabled : Bool

pub record Fields : Type 0 where
  pub host_id : ℕ
  pub name : Text
  pub command : Text
  pub timeout_seconds : ℕ
  pub enabled : Bool

-- `next` is the counter of AUTOINCREMENT.
pub record Table : Type 0 where
  pub rows : List Row
  pub next : ℕ

abbrev pub with_command : Row → Option Text → Option Action
with_command r none = none
with_command r (some command) = some (record {
  ident = r.ident;
  host_id = r.host_id;
  name = r.name;
  command = command;
  timeout_seconds = r.timeout_seconds;
  enabled = r.enabled;
})

unfoldable pub find_row : ℕ → List Row → Option Row
find_row n [] = none
find_row n (r ∷ rows) = let rest = find_row n rows in if r.ident == n then some r else rest

-- `UPDATE … WHERE id=?`: the id is the primary key.
unfoldable pub set_row : Row → List Row → List Row
set_row new [] = []
set_row new (r ∷ rows) =
    let rest = set_row new rows in if r.ident == new.ident then new ∷ rest else r ∷ rest

abbrev has_id : ℕ → Row → Bool
has_id n r = r.ident == n

abbrev has_host : ℕ → Row → Bool
has_host n r = r.host_id == n

module _ (v : Vault) where
  -- A command that the vault cannot decrypt is a ValueError, here `none`.
  unfoldable pub host_ssh_action_from_row : Row → Option Action
  host_ssh_action_from_row r = with_command r (v.decrypt_value r.encrypted_command)

  abbrev pub row_of : ℕ → Fields → Row
  row_of n f = record {
    ident = n;
    host_id = f.host_id;
    name = f.name;
    encrypted_command = v.encrypt_value f.command;
    timeout_seconds = f.timeout_seconds;
    enabled = f.enabled;
  }

  unfoldable pub read_found : Option Row → Option (Option Action)
  unfolding host_ssh_action_from_row
  read_found none = some none
  read_found (some r) = elim (host_ssh_action_from_row r) [ none ↦ none | some a ↦ some (some a) ]

  -- `some none` is the answer None.
  unfoldable pub get_host_ssh_action : ℕ → Table → Option (Option Action)
  unfolding read_found find_row
  get_host_ssh_action n t = read_found (find_row n t.rows)

  abbrev pub created : Fields → Table → Table
  created f t = record { rows = t.rows ++ row_of t.next f ∷ []; next = t.next + 1 }

  -- The table, and what is read back; `some none` in its place is the RuntimeError.
  unfoldable pub create_host_ssh_action : Fields → Table → Table × Option (Option Action)
  unfolding get_host_ssh_action
  create_host_ssh_action f t = (created f t, get_host_ssh_action t.next (created f t))

  abbrev pub changed : ℕ → Fields → Table → Table
  changed n f t = record t { rows = set_row (row_of n f) t.rows }

  abbrev answered : Option Row → Option (Option Action) → Option (Option Action)
  answered none read = some none
  answered (some r) read = read

  unfoldable pub update_host_ssh_action : ℕ → Fields → Table → Table × Option (Option Action)
  unfolding get_host_ssh_action set_row
  update_host_ssh_action n f t =
      (changed n f t, answered (find_row n t.rows) (get_host_ssh_action n (changed n f t)))

abbrev pub delete_where : (Row → Bool) → Table → Table
delete_where p t = record t { rows = keep (λ r. not (p r)) t.rows }

-- The table, and `cursor.rowcount`.
unfoldable pub delete_host_ssh_action : ℕ → Table → Table × Bool
delete_host_ssh_action n t = (delete_where (has_id n) t, leb 1 (length (keep (has_id n) t.rows)))

unfoldable pub delete_host_ssh_actions_for_host : ℕ → Table → Table × ℕ
delete_host_ssh_actions_for_host n t =
    (delete_where (has_host n) t, length (keep (has_host n) t.rows))

abbrev pub is_orphan : List ℕ → Row → Bool
is_orphan valid r = not (contains r.host_id valid)

unfoldable pub orphan_ids : List ℕ → List Row → List ℕ
orphan_ids valid rows = map (λ (r : Row). r.ident) (keep (is_orphan valid) rows)

abbrev pub has_id_in : List ℕ → Row → Bool
has_id_in ids r = contains r.ident ids

unfoldable pub delete_orphan_host_ssh_actions : List ℕ → Table → Table × ℕ
unfolding orphan_ids
delete_orphan_host_ssh_actions valid t = elim (orphan_ids valid t.rows) [
  | [] ↦ (t, 0)
  | n ∷ ids ↦ (delete_where (has_id_in (n ∷ ids)) t, length (keep (has_id_in (n ∷ ids)) t.rows))
]

-- `ORDER BY host_id,name,id`
unfoldable pub is_before : Row → Row → Bool
unfolding text_leb
is_before a b =
    ltb a.host_id b.host_id
    || (if a.host_id == b.host_id
        then (if text_eq a.name b.name then leb a.ident b.ident else text_leb a.name b.name)
        else false)

unfoldable pub insert_row : Row → List Row → List Row
unfolding is_before
insert_row r [] = r ∷ []
insert_row r (q ∷ rows) =
    let rest = insert_row r rows in if is_before r q then r ∷ q ∷ rows else q ∷ rest

unfoldable pub sort_rows : List Row → List Row
unfolding insert_row
sort_rows [] = []
sort_rows (r ∷ rows) = insert_row r (sort_rows rows)

abbrev also : Option Action → Option (List Action) → Option (List Action)
also (some a) (some actions) = some (a ∷ actions)
also _ _ = none

unfoldable pub read_all : Vault → List Row → Option (List Action)
unfolding host_ssh_action_from_row
read_all v [] = some []
read_all v (r ∷ rows) = also (host_ssh_action_from_row v r) (read_all v rows)

unfoldable pub list_host_ssh_actions : Vault → Table → Option (List Action)
unfolding read_all sort_rows
list_host_ssh_actions v t = read_all v (sort_rows t.rows)
