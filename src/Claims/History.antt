-- ===== src/Claims/History.antt =====
-- Histories of the queue of app/service.py, as interleavings of the critical sections of its tasks.
use borg_backup_manager.Prelude.{
  ℕ, Bool, true, false, not, ◌&&◌, some, none, List, [], ◌∷◌, ◌++◌, All, keep, contains, ◌≡◌, arith,
  ◌==◌, inl, inr, Bool-cases,
}
use borg_backup_manager.Runs.{Run, Status, running, Platform, RepositoryKey}
use borg_backup_manager.Chains.{Chains}
use borg_backup_manager.Dict.{Dict}
use borg_backup_manager.Planner.Layer.{count}
use borg_backup_manager.Claims.{
  RefreshTarget, Task, ArchiveMount, Surroundings, Manager, find_run, set_status, is_running,
  is_running_status, row_repository_key, claim_execution_turn, start_refresh,
}
use borg_backup_manager.Claims.Exclusive.{is_accounted}

-- `_executing_run_ids.discard(n)`
abbrev pub discard : ℕ → List ℕ → List ℕ
discard n = keep λ k. not (k == n)

-- One critical section: a run is queued, a task enters or leaves `execute_run`, claims a turn,
-- starts an archive refresh, or publishes another status; chains, tasks and mount rows may change
-- at any time. The rows of the repositories do not change.
pub data Step (os : Platform) : Manager → Manager → Type 0 where
  enqueues :
      (m : Manager) (r : Run)
      → find_run r.ident m.runs ≡ none
      → is_running r ≡ false
      → Step os m (record m { runs = m.runs ++ r ∷ [] })
  enters : (m : Manager) (n : ℕ) → Step os m (record m { executing = n ∷ m.executing })
  claims :
      (w : Surroundings) (m : Manager) (n : ℕ)
      → w.platform ≡ os
      → contains n m.executing ≡ true
      → Step os m (claim_execution_turn w n m).0
  refreshes :
      (m : Manager) (n : ℕ) (r : Run) (key : RepositoryKey) (target : RefreshTarget)
      → find_run n m.runs ≡ some r
      → row_repository_key os r ≡ some key
      → contains n m.executing ≡ true
      → Step os m (start_refresh os key target n m).0
  publishes :
      (m : Manager) (n : ℕ) (s : Status)
      → is_running_status s ≡ false
      → Step os m (record m { runs = set_status n s m.runs })
  leaves :
      (m : Manager) (n : ℕ)
      → All (λ r. (is_running r && r.ident == n) ≡ false) m.runs
      → Step os m (record m { executing = discard n m.executing })
  others :
      (m : Manager) (mounts : List ArchiveMount) (tasks : Dict ℕ Task) (chains : Chains)
      → Step os m (record m { archive_mounts = mounts; tasks = tasks; chains = chains })

pub data Reach (os : Platform) (m : Manager) : Manager → Type 0 where
  here : Reach os m m
  next : {n p : Manager} → Reach os m n → Step os n p → Reach os m p

abbrev pub Accounted : List ℕ → List Run → Type 0
Accounted executing = All λ r. is_accounted executing r ≡ true

pub append-Accounted :
    (executing : List ℕ) (rows : List Run) (r : Run)
    → Accounted executing rows
    → is_running r ≡ false
    → Accounted executing (rows ++ r ∷ [])
append-Accounted executing [] r h e = (ground arith, tt)
append-Accounted executing (s ∷ rows) r h e = (h.0, append-Accounted executing rows r h.1 e)

pub enter-Accounted :
    (n : ℕ) (executing : List ℕ) (rows : List Run)
    → Accounted executing rows
    → Accounted (n ∷ executing) rows
enter-Accounted n executing [] h = tt
enter-Accounted n executing (r ∷ rows) h = ground (arith, enter-Accounted n executing rows h.1)

pub set_running-Accounted :
    (n : ℕ) (executing : List ℕ) (rows : List Run)
    → contains n executing ≡ true
    → Accounted executing rows
    → Accounted executing (set_status n running rows)
unfolding set_status
set_running-Accounted n executing [] e h = tt
set_running-Accounted n executing (r ∷ rows) e h = elim (Bool-cases (r.ident == n)) [
  | inl same ↦
      let id : r.ident ≡ n = ground arith in
      let there : contains r.ident executing ≡ true = rw id e in
      ground (arith, set_running-Accounted n executing rows e h.1, there)
  | inr other ↦ ground (arith, set_running-Accounted n executing rows e h.1)
]

pub set_other-Accounted :
    (n : ℕ) (s : Status) (executing : List ℕ) (rows : List Run)
    → is_running_status s ≡ false
    → Accounted executing rows
    → Accounted executing (set_status n s rows)
unfolding set_status
set_other-Accounted n s executing [] e h = tt
set_other-Accounted n s executing (r ∷ rows) e h =
    ground (arith, set_other-Accounted n s executing rows e h.1)

contains-discard :
    (k n : ℕ) (executing : List ℕ)
    → contains k executing ≡ true
    → (k == n) ≡ false
    → contains k (discard n executing) ≡ true
contains-discard k n [] h e = cc
contains-discard k n (x ∷ executing) h e = ground (arith, contains-discard k n executing)

pub leave-Accounted :
    (n : ℕ) (executing : List ℕ) (rows : List Run)
    → All (λ r. (is_running r && r.ident == n) ≡ false) rows
    → Accounted executing rows
    → Accounted (discard n executing) rows
leave-Accounted n executing [] e h = tt
leave-Accounted n executing (r ∷ rows) e h =
    ground (arith, leave-Accounted n executing rows e.1 h.1, contains-discard r.ident n executing)

pub count-enqueue :
    (holds : Run → Bool) (rows : List Run) (r : Run)
    → is_running r ≡ false
    → count holds (keep is_running (rows ++ r ∷ [])) ≡ count holds (keep is_running rows)
count-enqueue holds [] r e = ground arith
count-enqueue holds (s ∷ rows) r e = ground (arith, count-enqueue holds rows r e)
