-- ===== src/Claims/Rows.antt =====
-- Rows with distinct ids: what looking one up, and writing its status, does to counts of rows.
use borg_backup_manager.Prelude.{
  ℕ, ◌+◌, ◌≤◌, Bool, false, some, none, List, [], ◌∷◌, ◌++◌, keep, ◌≡◌, refl, arith, ◌==◌,
}
use borg_backup_manager.Runs.{Run, Status, running}
use borg_backup_manager.Planner.Layer.{count, unit}
use borg_backup_manager.Claims.{is_running_status, find_run, set_status, is_running}

abbrev pub DistinctIds : List Run → Type 0
DistinctIds [] = Unit
DistinctIds (r ∷ rows) = (find_run r.ident rows ≡ none) × DistinctIds rows

pub set_status-absent :
    (n : ℕ) (s : Status) (rows : List Run) → find_run n rows ≡ none → set_status n s rows ≡ rows
unfolding set_status find_run
set_status-absent n s [] h = refl
set_status-absent n s (r ∷ rows) h = ground (arith, set_status-absent n s rows)

find_run-set_status :
    (k n : ℕ) (s : Status) (rows : List Run)
    → find_run k rows ≡ none
    → find_run k (set_status n s rows) ≡ none
unfolding set_status find_run
find_run-set_status k n s [] h = refl
find_run-set_status k n s (r ∷ rows) h = ground (arith, find_run-set_status k n s rows)

pub set_status-DistinctIds :
    (n : ℕ) (s : Status) (rows : List Run) → DistinctIds rows → DistinctIds (set_status n s rows)
unfolding set_status
set_status-DistinctIds n s [] h = tt
set_status-DistinctIds n s (r ∷ rows) h =
    ground (arith, set_status-DistinctIds n s rows h.1, find_run-set_status r.ident n s rows h.0)

find_run-append :
    (k : ℕ) (rows : List Run) (r : Run)
    → find_run k rows ≡ none
    → (k == r.ident) ≡ false
    → find_run k (rows ++ r ∷ []) ≡ none
unfolding find_run
find_run-append k [] r h e = ground arith
find_run-append k (s ∷ rows) r h e = ground (arith, find_run-append k rows r)

pub append-DistinctIds :
    (rows : List Run) (r : Run)
    → DistinctIds rows
    → find_run r.ident rows ≡ none
    → DistinctIds (rows ++ r ∷ [])
unfolding find_run
append-DistinctIds [] r h f = (refl, tt)
append-DistinctIds (s ∷ rows) r h f = (
  find_run-append s.ident rows r h.0 (ground arith),
  append-DistinctIds rows r h.1 (ground arith),
)

-- A status does not matter to `holds`.
module _ (holds : Run → Bool)
    (stable : (r : Run) (s : Status) → holds (record r { status = s }) ≡ holds r) where
  pub count-set_running :
      (n : ℕ) (rows : List Run) (r : Run)
      → DistinctIds rows
      → find_run n rows ≡ some r
      → count holds (keep is_running (set_status n running rows))
        ≤ count holds (keep is_running rows) + unit (holds r)
  unfolding set_status find_run
  count-set_running n [] r d f = cc
  count-set_running n (s ∷ rows) r d f =
      ground
        (arith, count-set_running n rows r d.1, set_status-absent n running rows, stable s running)

  pub count-set_other :
      (n : ℕ) (s : Status) (rows : List Run)
      → is_running_status s ≡ false
      → count holds (keep is_running (set_status n s rows)) ≤ count holds (keep is_running rows)
  unfolding set_status
  count-set_other n s [] e = omega arith
  count-set_other n s (r ∷ rows) e = ground (arith, count-set_other n s rows e, stable r s)
