-- ===== src/Claims/Exclusive.antt =====
-- Mutual exclusion on a repository, over every history of the queue of app/service.py.
use borg_backup_manager.Prelude.{
  ap, ℕ, ◌≤◌, max, Bool, true, not, ◌||◌, Option, some, List, [], ◌∷◌, ◌++◌, All, keep, contains,
  ◌≡◌, refl, arith,
}
use borg_backup_manager.Runs.{Run, Status, running, Platform, RepositoryKey, RepositoryKey-discrete}
use borg_backup_manager.Planner.Layer.{count, has_key, count-append}
use borg_backup_manager.Planner.Limits.{one_run_per_repository}
use borg_backup_manager.Claims.{
  Surroundings, Manager, find_run, set_status, is_running, is_queued, live_run_ids, live_rows,
  layers, execution_plan, row_repository_key, was_selected,
}
use borg_backup_manager.Claims.Rows.{DistinctIds, count-set_running}
use borg_backup_manager.Claims.Selected.{IsRow, plan-All, row_counted, DistinctIds-Finds, keep-All}

-- Whether a run needs the repository with that key.
abbrev pub needs : Platform → RepositoryKey → Run → Bool
needs os key r = has_key RepositoryKey-discrete key (row_repository_key os r)

abbrev pub is_accounted : List ℕ → Run → Bool
is_accounted executing r = not (is_running r) || contains r.ident executing

-- Ids are distinct, a running row is executed by some task, and no two running rows need one
-- repository.
pub record IsExclusive (os : Platform) (m : Manager) : Type 0 where
  pub distinct : DistinctIds m.runs
  pub accounted : All (λ r. is_accounted m.executing r ≡ true) m.runs
  pub exclusive : (key : RepositoryKey) → count (needs os key) (keep is_running m.runs) ≤ 1

pub needs-status :
    (os : Platform) (key : RepositoryKey) (r : Run) (s : Status)
    → needs os key (record r { status = s }) ≡ needs os key r
unfolding row_repository_key
needs-status os key r s = refl

contains-append_right :
    (n : ℕ) (xs ys : List ℕ) → contains n ys ≡ true → contains n (xs ++ ys) ≡ true
contains-append_right n [] ys h = h
contains-append_right n (x ∷ xs) ys h = ground (arith, contains-append_right n xs ys h)

contains-append_left :
    (n : ℕ) (xs ys : List ℕ) → contains n xs ≡ true → contains n (xs ++ ys) ≡ true
contains-append_left n [] ys h = cc
contains-append_left n (x ∷ xs) ys h = ground (arith, contains-append_left n xs ys)

live_of_executing :
    (m : Manager) (n : Option ℕ) (k : ℕ)
    → contains k m.executing ≡ true
    → contains k (live_run_ids m n) ≡ true
unfolding live_run_ids
live_of_executing m n k h = contains-append_right k _ _ (contains-append_left k m.executing _ h)

keep_running-live :
    (live executing : List ℕ) (rows : List Run)
    → ((k : ℕ) → contains k executing ≡ true → contains k live ≡ true)
    → All (λ r. is_accounted executing r ≡ true) rows
    → keep is_running (keep (λ r. contains r.ident live) rows) ≡ keep is_running rows
keep_running-live live executing [] within a = refl
keep_running-live live executing (r ∷ rows) within a =
    ground (arith, keep_running-live live executing rows within a.1, within r.ident)

module _ (w : Surroundings) (m : Manager) (n : ℕ) (inv : IsExclusive w.platform m) where
  abbrev rows : List Run
  rows = live_rows m (some n)

  running_rows : keep is_running rows ≡ keep is_running m.runs
  unfolding live_rows
  running_rows =
      keep_running-live (live_run_ids m (some n)) m.executing m.runs (live_of_executing m (some n))
        inv.accounted

  selected_rows : All (IsRow m.runs) (execution_plan w m (some n)).selected
  unfolding execution_plan live_rows
  selected_rows =
      plan-All (layers w m rows) (IsRow m.runs) (keep is_running rows) (keep is_queued rows) (
        keep-All (IsRow m.runs) is_queued rows (
          keep-All (IsRow m.runs) (λ r. contains r.ident (live_run_ids m (some n))) m.runs
            (DistinctIds-Finds m.runs inv.distinct)))

  plan_exclusive :
      (key : RepositoryKey)
      → count
          (needs w.platform key)
          (keep is_running rows ++ (execution_plan w m (some n)).selected)
        ≤ max 1 (count (needs w.platform key) (keep is_running rows))
  unfolding execution_plan layers
  plan_exclusive key =
      one_run_per_repository (layers w m rows) (keep is_running rows) (keep is_queued rows) key

  pub claim_exclusive :
      (r : Run)
      → find_run n m.runs ≡ some r
      → was_selected n (execution_plan w m (some n)) ≡ true
      → (key : RepositoryKey)
      → count (needs w.platform key) (keep is_running (set_status n running m.runs)) ≤ 1
  claim_exclusive r f s key =
      let holds = needs w.platform key in
      let chosen = (execution_plan w m (some n)).selected in
      let before : count holds (keep is_running rows) ≡ count holds (keep is_running m.runs) =
        ap (count holds) running_rows in
      let counted = row_counted holds m.runs n r chosen selected_rows s f in
      ground (
        arith,
        before,
        inv.exclusive key,
        plan_exclusive key,
        counted,
        count-append holds (keep is_running rows) chosen,
        count-set_running holds (needs-status w.platform key) n m.runs r inv.distinct f,
      )
