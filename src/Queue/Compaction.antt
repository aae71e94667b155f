-- ===== src/Queue/Compaction.antt =====
-- app/service.py: the third phase of a scheduled group, which compacts each repository at most once,
-- and the whole of `_scheduled_backup_group` and `scheduled_schedule`.
use borg_backup_manager.Prelude.{
  is_empty, ℕ, Bool, true, false, ◌&&◌, not, Option, none, some, List, [], ◌∷◌, ◌++◌, ◌==◌,
  if◌then◌else◌, ℕ_discrete, min, ltb,
}
use borg_backup_manager.Text.{Text, codes}
use borg_backup_manager.Dict
use borg_backup_manager.Dict.{Dict}
use borg_backup_manager.Runs.{compact, Status}
use borg_backup_manager.Queue.{Manager, Outcome, raised, answered}
use borg_backup_manager.Queue.Actions.{queue_job_action}
use borg_backup_manager.Queue.Manual.{World, is_success}
use borg_backup_manager.Queue.Groups.{
  Group, queue_kwargs, report_failure, Backups, queue_backups, statuses_of, awaited,
  changed_repositories, Prunes, queue_prunes,
}

-- `jobs_by_repository.setdefault(repository_id, []).append(job_id)`, with the keys kept sorted.
unfoldable pub add_to_repository : ℕ → ℕ → Dict ℕ (List ℕ) → Dict ℕ (List ℕ)
add_to_repository repository j [] = (repository, j ∷ []) ∷ []
add_to_repository repository j ((r, js) ∷ d) =
    let rest = add_to_repository repository j d in
    if r == repository
    then (r, js ++ j ∷ []) ∷ d
    else if ltb repository r
    then (repository, j ∷ []) ∷ (r, js) ∷ d
    else (r, js) ∷ rest

-- `sorted(jobs_by_repository.items())`
unfoldable pub jobs_by_repository : Dict ℕ ℕ → Dict ℕ (List ℕ) → Dict ℕ (List ℕ)
unfolding add_to_repository
jobs_by_repository [] d = d
jobs_by_repository ((j, r) ∷ prunes) d = jobs_by_repository prunes (add_to_repository r j d)

-- `prune_statuses.get(job_id) == "success"`
unfoldable pub has_succeeded : Dict ℕ Status → ℕ → Bool
unfolding Dict.get
has_succeeded statuses j = elim (Dict.get ℕ_discrete j statuses) [
  | none ↦ false
  | some s ↦ is_success s
]

unfoldable pub all_succeeded : Dict ℕ Status → List ℕ → Bool
unfolding has_succeeded
all_succeeded statuses [] = true
all_succeeded statuses (j ∷ js) = has_succeeded statuses j && all_succeeded statuses js

unfoldable pub least_of : ℕ → List ℕ → ℕ
least_of n [] = n
least_of n (m ∷ ms) = least_of (min n m) ms

-- `min(repository_job_ids)`, or none where the loop continues.
unfoldable pub representative : Dict ℕ Status → List ℕ → Option ℕ
unfolding all_succeeded least_of
representative statuses [] = none
representative statuses (j ∷ js) =
    if all_succeeded statuses (j ∷ js) then some (least_of j js) else none

-- The repositories that are compacted, each with its representative job.
unfoldable pub compact_turns : Dict ℕ Status → Dict ℕ (List ℕ) → Dict ℕ ℕ
unfolding representative
compact_turns statuses [] = []
compact_turns statuses ((r, js) ∷ d) =
    let rest = compact_turns statuses d in
    elim (representative statuses js) [ none ↦ rest | some j ↦ (r, j) ∷ rest ]

pub record Compacts : Type 0 where
  pub compact_runs : List ℕ
  pub failures : List ℕ

unfoldable pub compact_queued :
    World → Group → ℕ → Compacts → Manager × Outcome ℕ → Manager × Compacts
compact_queued w g j b (m, answered n) = (m, record b { compact_runs = b.compact_runs ++ n ∷ [] })
compact_queued w g j b (m, raised why) =
    let failure =
      report_failure w g j
        (codes "Compact konnte nicht gestartet werden: " ++ (w.probes m).message why) m in
    (failure.0, record b { failures = b.failures ++ failure.1 ∷ [] })

unfoldable pub compact_turn : World → Group → ℕ → Compacts → Manager → Manager × Compacts
unfolding compact_queued
compact_turn w g j b m =
    compact_queued w g j b (queue_job_action (w.probes m) j compact (queue_kwargs g) m)

-- The loop of the third phase.
unfoldable pub queue_compacts : World → Group → Dict ℕ ℕ → Compacts → Manager → Manager × Compacts
unfolding compact_turn
queue_compacts w g [] b m = (m, b)
queue_compacts w g ((r, j) ∷ turns) b m =
    let turn = compact_turn w g j b m in queue_compacts w g turns turn.1 turn.0

-- `asyncio.gather` of the compact runs, or the refreshes of repositories: none awaits nothing.
abbrev pub awaited_all : World → List ℕ → Manager → Manager
awaited_all w [] m = m
awaited_all w (n ∷ ns) m = w.meanwhile m

-- A set in ascending order.
unfoldable pub insert_id : ℕ → List ℕ → List ℕ
insert_id n [] = n ∷ []
insert_id n (k ∷ ks) =
    let rest = insert_id n ks in if k == n then k ∷ ks else if ltb n k then n ∷ k ∷ ks else k ∷ rest

unfoldable pub sorted_set : List ℕ → List ℕ
unfolding insert_id
sorted_set [] = []
sorted_set (n ∷ ns) = insert_id n (sorted_set ns)

-- The settings that a group reads.
pub record GroupSettings : Type 0 where
  pub compact_after_prune : Bool
  pub repository_size_after_run : Bool

-- `_refresh_changed_repositories`: the repositories whose statistics are refreshed, in that order.
unfoldable pub refreshed : GroupSettings → List ℕ → List ℕ
unfolding sorted_set
refreshed s repositories = if s.repository_size_after_run then sorted_set repositories else []

-- The local variables of a group when it ends.
pub record Report : Type 0 where
  pub backups : Backups
  pub backup_statuses : Dict ℕ Status
  pub prunes : Prunes
  pub prune_statuses : Dict ℕ Status
  pub turns : Dict ℕ ℕ
  pub compacts : Compacts
  pub refreshes : List ℕ

abbrev pub no_backups : Backups
no_backups = record { backup_runs = []; repository_by_job = []; failures = [] }

abbrev pub no_prunes : Prunes
no_prunes = record { prune_runs = []; prune_repository = []; failures = [] }

abbrev pub no_compacts : Compacts
no_compacts = record { compact_runs = []; failures = [] }

unfoldable pub turns_of : GroupSettings → Dict ℕ Status → Prunes → Dict ℕ ℕ
unfolding compact_turns jobs_by_repository
turns_of s statuses prunes =
    if s.compact_after_prune
    then compact_turns statuses (jobs_by_repository prunes.prune_repository [])
    else []

-- From the end of the prune runs on.
unfoldable pub compact_phase :
    World → Group → GroupSettings → Backups → Dict ℕ Status → Prunes → Manager → Manager × Report
unfolding queue_compacts turns_of refreshed
compact_phase w g s backups backup_statuses prunes m =
    let prune_statuses = statuses_of w m prunes.prune_runs in
    let turns = turns_of s prune_statuses prunes in
    let compacts = queue_compacts w g turns no_compacts (awaited w prunes.prune_runs m) in
    let refreshes = refreshed s (changed_repositories backups.repository_by_job backup_statuses) in
    (
      awaited_all w refreshes (awaited_all w compacts.1.compact_runs compacts.0),
      record {
        backups = backups;
        backup_statuses = backup_statuses;
        prunes = prunes;
        prune_statuses = prune_statuses;
        turns = turns;
        compacts = compacts.1;
        refreshes = refreshes;
      },
    )

-- From the end of the backup runs on.
unfoldable pub prune_phase : World → Group → GroupSettings → Backups → Manager → Manager × Report
unfolding compact_phase
prune_phase w g s backups m =
    let statuses = statuses_of w m backups.backup_runs in
    let prunes = queue_prunes w g statuses no_prunes (awaited w backups.backup_runs m) in
    compact_phase w g s backups statuses prunes.1 prunes.0

-- `_scheduled_backup_group`
unfoldable pub scheduled_backup_group :
    World → Group → GroupSettings → List ℕ → Manager → Manager × Report
unfolding prune_phase
scheduled_backup_group w g s job_ids m =
    let backups = queue_backups w g job_ids no_backups m in prune_phase w g s backups.1 backups.0

-- The columns of `BackupSchedule` that `scheduled_schedule` reads, with the answer of
-- `schedule_target_job_ids`.
pub record ScheduleRow : Type 0 where
  pub name : Text
  pub enabled : Bool
  pub parallel_limit : ℕ
  pub job_ids : List ℕ

-- `schedule.name or schedule_name`
abbrev name_or : Text → Option Text → Option Text
name_or [] o = o
name_or (c ∷ cs) o = some (c ∷ cs)

-- `int(schedule.parallel_limit or schedule_parallel_limit or 0)`
abbrev limit_or : ℕ → ℕ → ℕ
limit_or n m = if n == 0 then m else n

-- `scheduled_schedule`; no report where it returns before a group starts.
unfoldable pub scheduled_schedule :
    World
    → GroupSettings
    → ℕ
    → Option Text
    → ℕ
    → Option ScheduleRow
    → Manager
    → Manager × Option Report
unfolding scheduled_backup_group
scheduled_schedule w s ident name limit none m = (m, none)
scheduled_schedule w s ident name limit (some row) m =
    let group =
      scheduled_backup_group w
        (record {
          schedule_name = name_or row.name name;
          schedule_id = some ident;
          schedule_parallel_limit = limit_or row.parallel_limit limit;
        })
        s row.job_ids m in
    if row.enabled && not (is_empty row.job_ids) then (group.0, some group.1) else (m, none)
