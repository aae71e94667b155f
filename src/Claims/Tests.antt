-- ===== src/Claims/Tests.antt =====
-- A queue of app/service.py with one repository and two runs.
use borg_backup_manager.Prelude.{
  ℕ, true, false, some, none, [], ◌∷◌, ◌≡◌, refl, arith, ◌≤◌, All, keep,
}
use borg_backup_manager.Claims
use borg_backup_manager.Runs
use borg_backup_manager.Runs.{
  Run, Status, backup, queued, running, manual, Platform, RepositoryKey, RepositoryKey-discrete,
}
use borg_backup_manager.Chains.History.{idle}
use borg_backup_manager.Planner.Layer.{count}
use borg_backup_manager.Claims.{
  Settings, Surroundings, Manager, claim_execution_turn, start_refresh, is_running, layers,
}
use borg_backup_manager.Claims.Exclusive.{needs, is_accounted, IsExclusive}
use borg_backup_manager.Claims.History.{enqueues, enters, claims, Reach, here, next}
use borg_backup_manager.Claims.Safety.{one_running_per_repository}

abbrev posix : Platform
posix = record { resolve = λ t. none; pure_path = λ t. []; casefold = λ t. t }

abbrev server : Surroundings
server = record {
  platform = posix;
  settings = record {
    max_parallel_runs = 0;
    source_stats_parallel_limit = 1;
    mount_parallel_limits = [];
    external_storage_parallel_limits = [];
  };
  mounts = [];
  mount_is_active = λ path. false;
}

abbrev row : ℕ → Status → Run
row n status = record {
  ident = n;
  action = backup;
  status = status;
  repository = none;
  repository_id = some 7;
  trigger_type = manual;
  schedule_id_snapshot = none;
  schedule_name_snapshot = none;
  schedule_parallel_limit_snapshot = 0;
}

abbrev empty : Manager
empty = record { runs = []; archive_mounts = []; tasks = []; executing = []; chains = idle }

empty-IsExclusive : IsExclusive posix empty
empty-IsExclusive = record { distinct = tt; accounted = tt; exclusive = λ key. omega arith }

abbrev queued_one : Manager
queued_one = record empty { runs = row 1 queued ∷ [] }

abbrev entered_one : Manager
entered_one = record queued_one { executing = 1 ∷ [] }

abbrev claimed_one : Manager
claimed_one = (claim_execution_turn server 1 entered_one).0

claimed-Reach : Reach posix empty claimed_one
unfolding Claims.find_run
claimed-Reach =
    next (next (next here (enqueues empty (row 1 queued) refl refl)) (enters queued_one 1))
      (claims server entered_one 1 refl refl)

one_running_per_repository_example :
    (count (needs posix (Runs.repository_id (some 7))) (keep is_running claimed_one.runs) ≤ 1)
    × All (λ r. is_accounted claimed_one.executing r ≡ true) claimed_one.runs
one_running_per_repository_example =
    one_running_per_repository posix empty claimed_one (Runs.repository_id (some 7))
      empty-IsExclusive claimed-Reach
