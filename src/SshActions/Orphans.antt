-- ===== src/SshActions/Orphans.antt =====
-- The deletion of the SSH actions of hosts that are gone, in app/security_store.py.
use borg_backup_manager.Prelude.{
  ◌+◌, length, sym, ◌∙◌, ℕ, Bool, false, not, List, [], ◌∷◌, ◌==◌, keep, contains, ◌≡◌, refl, arith,
  Bool-cases, inl, inr, All,
}
use borg_backup_manager.SshActions.{
  delete_where, Table, delete_orphan_host_ssh_actions, Row, orphan_ids, has_id_in,
}

-- The ids of the rows are distinct, the primary key.
abbrev pub DistinctIds : List Row → Type 0
DistinctIds [] = Unit
DistinctIds (r ∷ rows) = All (λ q. (q.ident == r.ident) ≡ false) rows × DistinctIds rows

contains-orphans :
    (valid : List ℕ) (n : ℕ) (rows : List Row)
    → All (λ q. (q.ident == n) ≡ false) rows
    → contains n (orphan_ids valid rows) ≡ false
unfolding orphan_ids
contains-orphans valid n [] a = refl
contains-orphans valid n (r ∷ rows) a = ground (arith, contains-orphans valid n rows a.1)

-- Deleting by a list of ids with one more that no row has changes nothing.
keep-fresh :
    (n : ℕ) (ids : List ℕ) (rows : List Row)
    → All (λ q. (q.ident == n) ≡ false) rows
    → keep (λ r. not (has_id_in (n ∷ ids) r)) rows ≡ keep (λ r. not (has_id_in ids r)) rows
keep-fresh n ids [] a = refl
keep-fresh n ids (r ∷ rows) a = ground (arith, keep-fresh n ids rows a.1)

keep-orphans :
    (valid : List ℕ) (rows : List Row)
    → DistinctIds rows
    → keep (λ r. not (has_id_in (orphan_ids valid rows) r)) rows
      ≡ keep (λ r. contains r.host_id valid) rows
unfolding orphan_ids
keep-orphans valid [] d = refl
keep-orphans valid (r ∷ rows) d = elim (Bool-cases (contains r.host_id valid)) [
  | inl v ↦ ground (arith, v, contains-orphans valid r.ident rows d.0, keep-orphans valid rows d.1)
  | inr o ↦
      ground
        (arith, o, keep-fresh r.ident (orphan_ids valid rows) rows d.0, keep-orphans valid rows d.1)
]

length-keep-split :
    (p : Row → Bool) (rows : List Row)
    → length (keep p rows) + length (keep (λ r. not (p r)) rows) ≡ length rows
length-keep-split p [] = refl
length-keep-split p (r ∷ rows) = ground (arith, length-keep-split p rows)

keep-all : (rows : List Row) → keep (λ r. not (has_id_in [] r)) rows ≡ rows
keep-all [] = refl
keep-all (r ∷ rows) = ground (arith, keep-all rows)

-- What the deletion by the ids of the orphans leaves and counts.
abbrev pub Exact : List ℕ → Table → Table × ℕ → Type 0
Exact valid t (s, n) =
    (s.rows ≡ keep (λ r. contains r.host_id valid) t.rows) × (n + length s.rows ≡ length t.rows)

pub orphans-Exact :
    (valid : List ℕ) (t : Table)
    → DistinctIds t.rows
    → Exact valid t (delete_orphan_host_ssh_actions valid t)
unfolding delete_orphan_host_ssh_actions
orphans-Exact valid t d = go (orphan_ids valid t.rows) (keep-orphans valid t.rows d)
  where
    go :
        (ids : List ℕ)
        → keep (λ r. not (has_id_in ids r)) t.rows ≡ keep (λ r. contains r.host_id valid) t.rows
        → Exact valid t (elim ids as (λ x. Table × ℕ) [
          | [] ↦ (t, 0)
          | n ∷ ids ↦
              (delete_where (has_id_in (n ∷ ids)) t, length (keep (has_id_in (n ∷ ids)) t.rows))
        ])
    go [] e = (sym (keep-all t.rows) ∙ e, omega arith)
    go (n ∷ ids) e = (e, length-keep-split (has_id_in (n ∷ ids)) t.rows)
