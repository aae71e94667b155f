-- ===== src/Planner/Tests.antt =====
-- Plans of app/service.py on concrete rows.
use mathlib.Core.List.{Perm}
use borg_backup_manager.Prelude.{
  contains, ℕ, true, false, some, none, List, [], ◌∷◌, ◌++◌, ◌≡◌, refl, arith, max, ◌≤◌,
}
use borg_backup_manager.Text.{codes}
use borg_backup_manager.Runs.{
  Run, Action, Repository, RepositoryKey, MountKey, ScheduleKey, backup, source_stats, prune,
  queued, running, manual, managed, local_mount, schedule_id, RepositoryKey-discrete,
  MountKey-discrete, ScheduleKey-discrete,
}
use borg_backup_manager.Planner
use borg_backup_manager.Runs
use borg_backup_manager.Planner.{
  Layers, Plan, plan, Reason, repository_busy, mount_full, global_full, archive_mount,
}
use borg_backup_manager.Planner.Layer.{count}
use borg_backup_manager.Planner.Limits.{one_run_per_repository, uses_repository}
use borg_backup_manager.Planner.Decisions.{plan_decides, decided, idents}
use borg_backup_manager.Planner.Progress.{oldest_starts}

abbrev row : ℕ → ℕ → Run
row n repository = record {
  ident = n;
  action = backup;
  status = queued;
  repository = none;
  repository_id = some repository;
  trigger_type = manual;
  schedule_id_snapshot = none;
  schedule_name_snapshot = none;
  schedule_parallel_limit_snapshot = 0;
}

abbrev disk : MountKey
disk = local_mount (codes "repositories" ∷ [])

abbrev nightly : ScheduleKey
nightly = schedule_id 1

-- One disk for two runs, one schedule for three, four runs in all.
abbrev nas : Layers
nas = record {
  repository_key = λ r. some (Runs.repository_id r.repository_id);
  mount_key = λ r. some disk;
  mount_limit = λ k. 2;
  schedule_key = λ r. some nightly;
  schedule_limit = λ k. 3;
  source_stats_limit = 1;
  global_limit = 4;
  archive_mounted = λ n. false;
  reservation = λ k. none;
  chain_token = λ n. none;
}

abbrev busy : List Run
busy = row 1 7 ∷ []

abbrev waiting : List Run
waiting = row 2 7 ∷ row 3 8 ∷ row 4 9 ∷ []

-- Run 2 waits for run 1 on its repository, run 3 starts, run 4 finds the disk full.
who_starts : idents (plan nas busy waiting).selected ≡ 3 ∷ []
unfolding plan RepositoryKey-discrete MountKey-discrete ScheduleKey-discrete Planner.decide
    Planner.refusal Planner.archive_reason Planner.chain_reason Planner.repository_reason
    Planner.mount_reason Planner.schedule_reason Planner.source_stats_reason Planner.global_reason
who_starts = refl

one_run_per_repository_example :
    count
      (uses_repository nas (Runs.repository_id (some 7)))
      (busy ++ (plan nas busy waiting).selected)
    ≤ max 1 1
unfolding RepositoryKey-discrete
one_run_per_repository_example =
    one_run_per_repository nas busy waiting (Runs.repository_id (some 7))

plan_decides_example : Perm (decided (plan nas busy waiting)) (2 ∷ 3 ∷ 4 ∷ [])
plan_decides_example = plan_decides nas busy waiting

oldest_starts_example : contains 2 (idents (plan nas [] waiting).selected) ≡ true
unfolding Planner.archive_reason Planner.chain_reason
oldest_starts_example = oldest_starts nas (row 2 7) (row 3 8 ∷ row 4 9 ∷ []) refl refl (omega arith)
