-- ===== src/Claims.antt =====
-- app/service.py: the rows and limits that `_execution_plan` collects, `_claim_execution_turn`, and
-- the turn that an archive refresh takes without a claim. The database and the process-wide sets
-- are a `Manager`; each function is one critical section of the event loop.
pub mod Rows
pub mod Selected
pub mod Exclusive
pub mod History
pub mod Safety
mod Tests
use borg_backup_manager.Dict
use borg_backup_manager.Dict.{Dict}
use borg_backup_manager.Text.{Text}
use borg_backup_manager.Paths.{FilePath}
use borg_backup_manager.Runs.{
  Run, Action, source_stats, Status, queued, running, Repository, Platform, RepositoryKey,
  RepositoryKey-discrete, MountKey, MountKey-discrete, local_mount, remote_mount, ScheduleKey,
  ScheduleKey-discrete, repository_execution_key, repository_mount_key, run_schedule_key,
}
use borg_backup_manager.Chains.{
  Chains, active_reservation, chain_token, mark_repository_chain_started,
}
use borg_backup_manager.Planner.{Layers, Plan, Reason, plan, is_source_stats, least}
use borg_backup_manager.Prelude.{
  ℕ, zero, suc, ◌+◌, ◌<◌, ◌≤◌, min, max, Bool, true, false, ◌&&◌, ◌||◌, not, Option, none, some,
  List, [], ◌∷◌, ◌++◌, leb, ltb, ◌==◌, if◌then◌else◌, ite, length, keep, map, contains, ℕ_discrete,
  ◌≡◌,
}

-- An `asyncio.Task` of `_active_run_tasks`.
pub record Task : Type 0 where
  pub done : Bool
  pub loop_closed : Bool

pub data MountStatus : Type 0 where
  mounting mounted unmounting stale error : MountStatus

-- A row of `ManagerArchiveMount`.
pub record ArchiveMount : Type 0 where
  pub repository_id : ℕ
  pub mount_path : Text
  pub status : MountStatus

pub record Settings : Type 0 where
  pub max_parallel_runs : ℕ
  pub source_stats_parallel_limit : ℕ
  pub mount_parallel_limits : Dict MountKey ℕ
  pub external_storage_parallel_limits : Dict MountKey ℕ

-- What a plan reads besides the rows: the platform, the settings, the mounts below the repository
-- root, and whether a path is an active FUSE mount (`archive_mount_is_active`).
pub record Surroundings : Type 0 where
  pub platform : Platform
  pub settings : Settings
  pub mounts : List FilePath
  pub mount_is_active : Text → Bool

-- `runs` is ordered by id.
pub record Manager : Type 0 where
  pub runs : List Run
  pub archive_mounts : List ArchiveMount
  pub tasks : Dict ℕ Task
  pub executing : List ℕ
  pub chains : Chains

abbrev limit_in : Option ℕ → ℕ
limit_in none = 0
limit_in (some n) = min 64 n

-- `_mount_parallel_limit`
unfoldable pub mount_parallel_limit : Settings → MountKey → ℕ
mount_parallel_limit s (local_mount path) =
    limit_in (Dict.get MountKey-discrete (local_mount path) s.mount_parallel_limits)
mount_parallel_limit s (remote_mount user host port mount) = limit_in (
    Dict.get MountKey-discrete (remote_mount user host port mount)
      s.external_storage_parallel_limits)

-- `_source_stats_parallel_limit`
unfoldable pub source_stats_parallel_limit : Settings → ℕ
source_stats_parallel_limit s =
    max 1 (min 64 (if s.source_stats_parallel_limit == 0 then 1 else s.source_stats_parallel_limit))

abbrev is_live : Task → Bool
is_live t = not (t.done || t.loop_closed)

-- The loops over `_active_run_tasks`: the tasks that stay, which are the live ones.
unfoldable pub prune_tasks : Dict ℕ Task → Dict ℕ Task
prune_tasks = keep λ entry. is_live entry.1

-- `live_run_ids`, with the run that asks.
unfoldable pub live_run_ids : Manager → Option ℕ → List ℕ
unfolding prune_tasks
live_run_ids m current =
    map (λ (entry : ℕ × Task). entry.0) (prune_tasks m.tasks)
    ++ (m.executing ++ elim current [ none ↦ [] | some n ↦ n ∷ [] ])

abbrev pub is_queued_status : Status → Bool
is_queued_status queued = true
is_queued_status _ = false

abbrev pub is_running_status : Status → Bool
is_running_status running = true
is_running_status _ = false

abbrev pub is_queued : Run → Bool
is_queued r = is_queued_status r.status

abbrev pub is_running : Run → Bool
is_running r = is_running_status r.status

abbrev is_mounting : MountStatus → Bool
is_mounting mounting = true
is_mounting _ = false

abbrev mount_blocks : (Text → Bool) → ArchiveMount → Bool
mount_blocks active a = is_mounting a.status || active a.mount_path

-- `active_archive_mount_repositories`
unfoldable pub mounted_repositories : (Text → Bool) → List ArchiveMount → List ℕ
mounted_repositories active rows =
    map (λ (a : ArchiveMount). a.repository_id) (keep (mount_blocks active) rows)

-- Rows that are mounted no more become stale.
unfoldable pub refresh_mounts : (Text → Bool) → List ArchiveMount → List ArchiveMount
refresh_mounts active [] = []
refresh_mounts active (a ∷ rows) =
    (if mount_blocks active a then a else record a { status = stale }) ∷ refresh_mounts active rows

-- `row_repository_keys`
unfoldable pub row_repository_key : Platform → Run → Option RepositoryKey
row_repository_key os r = elim r.repository_id [
  | none ↦ none
  | some n ↦
      if is_source_stats r.action
      then none
      else some (repository_execution_key os r.repository (some n))
]

-- `row_mount_keys`
unfoldable pub row_mount_key : Platform → List FilePath → Run → Option MountKey
row_mount_key os mounts r =
    if is_source_stats r.action then none else repository_mount_key os mounts r.repository

-- `schedule_limits`: the least positive limit of the schedule's live runs, 0 if there is none.
unfoldable pub schedule_limit : Platform → List Run → ScheduleKey → ℕ
schedule_limit os [] key = 0
schedule_limit os (r ∷ rows) key =
    let rest = schedule_limit os rows key in
    elim (run_schedule_key os r) [
      | none ↦ rest
      | some k ↦
          ite (ScheduleKey-discrete k key)
            (if r.schedule_parallel_limit_snapshot == 0
              then rest
              else if rest == 0
              then r.schedule_parallel_limit_snapshot
              else min rest r.schedule_parallel_limit_snapshot)
            rest
    ]

abbrev is_mounted : List ℕ → Option ℕ → Bool
is_mounted ids none = false
is_mounted ids (some n) = contains n ids

-- The live rows that are queued or running.
unfoldable pub live_rows : Manager → Option ℕ → List Run
live_rows m current = keep (λ r. contains r.ident (live_run_ids m current)) m.runs

unfoldable pub layers : Surroundings → Manager → List Run → Layers
layers w m rows = record {
  repository_key = row_repository_key w.platform;
  mount_key = row_mount_key w.platform w.mounts;
  mount_limit = mount_parallel_limit w.settings;
  schedule_key = run_schedule_key w.platform;
  schedule_limit = schedule_limit w.platform (keep (λ r. is_queued r || is_running r) rows);
  source_stats_limit = source_stats_parallel_limit w.settings;
  global_limit = w.settings.max_parallel_runs;
  archive_mounted = is_mounted (mounted_repositories w.mount_is_active m.archive_mounts);
  reservation = active_reservation m.chains;
  chain_token = chain_token m.chains;
}

-- `_execution_plan`
unfoldable pub execution_plan : Surroundings → Manager → Option ℕ → Plan
execution_plan w m current =
    let rows = live_rows m current in
    plan (layers w m rows) (keep is_running rows) (keep is_queued rows)

unfoldable pub find_run : ℕ → List Run → Option Run
find_run n [] = none
find_run n (r ∷ rows) = let rest = find_run n rows in if r.ident == n then some r else rest

-- `run.status = status`
unfoldable pub set_status : ℕ → Status → List Run → List Run
set_status n s [] = []
set_status n s (r ∷ rows) =
    (if r.ident == n then record r { status = s } else r) ∷ set_status n s rows

-- `run_id in selected`
abbrev pub was_selected : ℕ → Plan → Bool
was_selected n p = contains n (map (λ r. r.ident) p.selected)

unfoldable pub claim_selected : Surroundings → ℕ → Manager → Manager × Bool × Option Reason
claim_selected w n m =
    let p = execution_plan w m (some n) in
    let pruned = record m { tasks = prune_tasks m.tasks } in
    if was_selected n p
    then (
      record pruned {
        runs = set_status n running m.runs;
        archive_mounts = refresh_mounts w.mount_is_active m.archive_mounts;
        chains = mark_repository_chain_started n m.chains;
      },
      true,
      none,
    )
    else (pruned, false, Dict.get ℕ_discrete n p.blockers)

-- `_claim_execution_turn`. The mount rows that the plan found stale are written only with a claim:
-- a session that ends without a commit is rolled back.
unfoldable pub claim_execution_turn : Surroundings → ℕ → Manager → Manager × Bool × Option Reason
claim_execution_turn w n m = elim (find_run n m.runs) [
  | none ↦ (m, false, none)
  | some r ↦ if is_queued r then claim_selected w n m else (m, false, none)
]

-- A row that `_repository_run_blocker` lists: all rows count, live or not.
unfoldable pub blocks_repository : Platform → RepositoryKey → ℕ → Run → Bool
blocks_repository os key n r =
    not (r.ident == n)
    && (is_running r || (is_queued r && ltb r.ident n))
    && ite (RepositoryKey-discrete (repository_execution_key os r.repository r.repository_id) key)
        true false

least_of : List Run → Option ℕ
least_of [] = none
least_of (r ∷ rest) = some (least (map (λ (b : Run). b.ident) (r ∷ rest)))

-- `_repository_run_blocker`
unfoldable pub repository_run_blocker : Platform → RepositoryKey → ℕ → List Run → Option ℕ
unfolding least_of
repository_run_blocker os key n rows = least_of (keep (blocks_repository os key n) rows)

-- What `execute_repository_archive_refresh` finds of its repository: the row, its columns,
-- `managed_repository_present`, and whether the two command builders answer.
pub record RefreshTarget : Type 0 where
  pub exists : Bool
  pub enabled : Bool
  pub initialized : Bool
  pub managed : Bool
  pub present : Bool
  pub buildable : Bool

unfoldable pub is_refreshable : RefreshTarget → Bool
is_refreshable t =
    t.exists && (t.enabled && (t.initialized && ((not t.managed || t.present) && t.buildable)))

-- The start of `execute_repository_archive_refresh`: its turn by `_wait_for_repository_turn`, the
-- tests of the repository, and the status that it writes itself. `true` if it started; a test that
-- fails raises, and the handler publishes the status `failed` in a later transaction. Neither plan
-- nor chains are consulted.
unfoldable pub start_refresh :
    Platform → RepositoryKey → RefreshTarget → ℕ → Manager → Manager × Bool
unfolding is_refreshable
start_refresh os key target n m = elim (find_run n m.runs) [
  | none ↦ (m, false)
  | some r ↦
      if is_queued r
      then elim (repository_run_blocker os key n m.runs) [
        | none ↦
            if is_refreshable target
            then (record m { runs = set_status n running m.runs }, true)
            else (m, false)
        | some b ↦ (m, false)
      ]
      else (m, false)
]
