-- ===== src/SshActions/History.antt =====
-- Histories of the SSH actions of app/security_store.py, from the empty table.
use borg_backup_manager.Prelude.{
  length, sym, subst, ℕ, ◌+◌, ◌<◌, Bool, false, not, some, List, [], ◌∷◌, ◌++◌, ◌==◌, keep, ◌≡◌,
  refl, arith, Bool-cases, inl, inr, All,
}
use borg_backup_manager.Accounts.Authentication.{Vault}
use borg_backup_manager.SshActions.{
  Row, Fields, Table, Action, find_row, set_row, row_of, read_found, host_ssh_action_from_row,
  get_host_ssh_action, create_host_ssh_action, update_host_ssh_action, delete_where,
  delete_host_ssh_action, delete_host_ssh_actions_for_host, delete_orphan_host_ssh_actions,
  orphan_ids, has_id_in,
}
use borg_backup_manager.SshActions.Orphans.{DistinctIds, Exact, orphans-Exact}

pub data Operation : Type 0 where
  create : Fields → Operation
  update : ℕ → Fields → Operation
  delete : ℕ → Operation
  delete_host : ℕ → Operation
  delete_orphans : List ℕ → Operation

unfoldable pub apply : Vault → Operation → Table → Table
apply v (create f) t = (create_host_ssh_action v f t).0
apply v (update n f) t = (update_host_ssh_action v n f t).0
apply v (delete n) t = (delete_host_ssh_action n t).0
apply v (delete_host n) t = (delete_host_ssh_actions_for_host n t).0
apply v (delete_orphans valid) t = (delete_orphan_host_ssh_actions valid t).0

unfoldable pub play : Vault → List Operation → Table → Table
play v [] t = t
play v (op ∷ ops) t = play v ops (apply v op t)

abbrev pub empty : Table
empty = record { rows = []; next = 1 }

abbrev Below : ℕ → List Row → Type 0
Below n rows = All (λ (r : Row). r.ident < n) rows

-- Ids are distinct and were given out.
pub record IsKeyed (t : Table) : Type 0 where
  pub distinct : DistinctIds t.rows
  pub below : Below t.next t.rows

All-keep : (P : Row → Type 0) (p : Row → Bool) (rows : List Row) → All P rows → All P (keep p rows)
All-keep P p [] a = tt
All-keep P p (r ∷ rows) a = elim (Bool-cases (p r)) [
  | inl e ↦ rw e (a.0, All-keep P p rows a.1)
  | inr e ↦ rw e (All-keep P p rows a.1)
]

keep-DistinctIds : (p : Row → Bool) (rows : List Row) → DistinctIds rows → DistinctIds (keep p rows)
keep-DistinctIds p [] d = tt
keep-DistinctIds p (r ∷ rows) d = elim (Bool-cases (p r)) [
  | inl e ↦ rw e (All-keep _ p rows d.0, keep-DistinctIds p rows d.1)
  | inr e ↦ rw e (keep-DistinctIds p rows d.1)
]

delete_where-IsKeyed : (p : Row → Bool) (t : Table) → IsKeyed t → IsKeyed (delete_where p t)
delete_where-IsKeyed p t k = record {
  distinct = keep-DistinctIds (λ r. not (p r)) t.rows k.distinct;
  below = All-keep (λ r. r.ident < t.next) (λ r. not (p r)) t.rows k.below;
}

append-DistinctIds :
    (rows : List Row) (new : Row)
    → DistinctIds rows
    → Below new.ident rows
    → DistinctIds (rows ++ new ∷ [])
append-DistinctIds [] new d b = (tt, tt)
append-DistinctIds (r ∷ rows) new d b = (also rows d.0, append-DistinctIds rows new d.1 b.1)
  where
    also :
        (qs : List Row)
        → All (λ q. (q.ident == r.ident) ≡ false) qs
        → All (λ q. (q.ident == r.ident) ≡ false) (qs ++ new ∷ [])
    also [] a = (ground (arith, b.0), tt)
    also (q ∷ qs) a = (a.0, also qs a.1)

append-Below :
    (rows : List Row) (new : Row) → Below new.ident rows → Below (new.ident + 1) (rows ++ new ∷ [])
append-Below [] new b = (omega arith, tt)
append-Below (r ∷ rows) new b = (omega (arith, b.0), append-Below rows new b.1)

All-set :
    (P : ℕ → Type 0) (new : Row) (rows : List Row)
    → All (λ r. P r.ident) rows
    → All (λ r. P r.ident) (set_row new rows)
unfolding set_row
All-set P new [] a = tt
All-set P new (r ∷ rows) a = elim (Bool-cases (r.ident == new.ident)) [
  | inl e ↦
      let same : r.ident ≡ new.ident = ground (arith, e) in
      rw e (subst P same a.0, All-set P new rows a.1)
  | inr e ↦ rw e (a.0, All-set P new rows a.1)
]

set-DistinctIds : (new : Row) (rows : List Row) → DistinctIds rows → DistinctIds (set_row new rows)
unfolding set_row
set-DistinctIds new [] d = tt
set-DistinctIds new (r ∷ rows) d = elim (Bool-cases (r.ident == new.ident)) [
  | inl e ↦
      let same : r.ident ≡ new.ident = ground (arith, e) in
      rw e (
        subst (λ n. All (λ q. (q.ident == n) ≡ false) (set_row new rows)) same
            (All-set (λ i. (i == r.ident) ≡ false) new rows d.0),
        set-DistinctIds new rows d.1,
      )
  | inr e ↦ rw e (All-set (λ i. (i == r.ident) ≡ false) new rows d.0, set-DistinctIds new rows d.1)
]

apply-IsKeyed : (v : Vault) (op : Operation) (t : Table) → IsKeyed t → IsKeyed (apply v op t)
unfolding apply create_host_ssh_action update_host_ssh_action delete_host_ssh_action
    delete_host_ssh_actions_for_host delete_orphan_host_ssh_actions
apply-IsKeyed v (create f) t k = record {
  distinct = append-DistinctIds t.rows (row_of v t.next f) k.distinct k.below;
  below = append-Below t.rows (row_of v t.next f) k.below;
}
apply-IsKeyed v (update n f) t k = record {
  distinct = set-DistinctIds (row_of v n f) t.rows k.distinct;
  below = All-set (λ i. i < t.next) (row_of v n f) t.rows k.below;
}
apply-IsKeyed v (delete n) t k = delete_where-IsKeyed (λ r. r.ident == n) t k
apply-IsKeyed v (delete_host n) t k = delete_where-IsKeyed (λ r. r.host_id == n) t k
apply-IsKeyed v (delete_orphans valid) t k = go (orphan_ids valid t.rows)
  where
    go :
        (ids : List ℕ)
        → IsKeyed
            (elim ids as (λ x. Table × ℕ) [
              | [] ↦ (t, 0)
              | n ∷ ids ↦
                  (delete_where (has_id_in (n ∷ ids)) t, length (keep (has_id_in (n ∷ ids)) t.rows))
            ]).0
    go [] = k
    go (n ∷ ids) = delete_where-IsKeyed (has_id_in (n ∷ ids)) t k

play-IsKeyed : (v : Vault) (ops : List Operation) (t : Table) → IsKeyed t → IsKeyed (play v ops t)
unfolding play
play-IsKeyed v [] t k = k
play-IsKeyed v (op ∷ ops) t k = play-IsKeyed v ops (apply v op t) (apply-IsKeyed v op t k)

empty-IsKeyed : IsKeyed empty
empty-IsKeyed = record { distinct = tt; below = tt }

-- After any history, the deletion of orphans leaves the actions of the valid hosts, all of them and
-- in their order, and reports how many it deleted.
pub delete_orphans-Exact :
    (v : Vault) (ops : List Operation) (valid : List ℕ)
    → Exact valid (play v ops empty) (delete_orphan_host_ssh_actions valid (play v ops empty))
delete_orphans-Exact v ops valid =
    orphans-Exact valid (play v ops empty) (play-IsKeyed v ops empty empty-IsKeyed).distinct

find-append :
    (new : Row) (rows : List Row)
    → Below new.ident rows
    → find_row new.ident (rows ++ new ∷ []) ≡ some new
unfolding find_row
find-append new [] b = ground arith
find-append new (r ∷ rows) b = ground (arith, b.0, find-append new rows b.1)

abbrev pub action_of : ℕ → Fields → Action
action_of n f = record {
  ident = n;
  host_id = f.host_id;
  name = f.name;
  command = f.command;
  timeout_seconds = f.timeout_seconds;
  enabled = f.enabled;
}

-- After any history, a new action is read back as it was given, under an id of its own, and never
-- as the RuntimeError of a row that is not found. The vault decrypts what it encrypted.
pub create_reads_back :
    (v : Vault) (ops : List Operation) (f : Fields)
    → v.decrypt_value (v.encrypt_value f.command) ≡ some f.command
    → (create_host_ssh_action v f (play v ops empty)).1
      ≡ some (some (action_of (play v ops empty).next f))
unfolding create_host_ssh_action get_host_ssh_action read_found host_ssh_action_from_row
create_reads_back v ops f restores =
    let t = play v ops empty in
    subst (λ o. read_found v o ≡ some (some (action_of t.next f)))
      (sym (find-append (row_of v t.next f) t.rows (play-IsKeyed v ops empty empty-IsKeyed).below))
      (rw (read_found, host_ssh_action_from_row, restores) refl)
