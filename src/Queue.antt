-- ===== src/Queue.antt =====
-- app/service.py: the rows that actions on jobs and repositories put into the run queue, what an
-- action is refused for, and the cancellation and repetition of runs. `Manager` is the part of the
-- database and of the process that these functions read and write. What a file system, a host or a
-- command builder of app/runner.py answers is a `Probes`.
pub mod Actions
pub mod Control
pub mod Inserts
pub mod Initializing
pub mod Manual
pub mod Groups
pub mod Compaction
pub mod Atomic
pub mod Steps
pub mod Rows
pub mod Entries
pub mod Alone
pub mod Pruned
pub mod Unchanged
pub mod Report
pub mod Compacted
pub mod Histories
pub mod Release
pub mod Waiting
mod Tests
use borg_backup_manager.Prelude.{
  ℕ, zero, suc, Bool, true, false, ◌&&◌, ◌||◌, not, Option, none, some, List, [], ◌∷◌, ◌++◌, ltb,
  ◌==◌, if◌then◌else◌, keep, map, ℕ_discrete,
}
use borg_backup_manager.Text.{Text, codes, strip, is_space, take}
use borg_backup_manager.Dict
use borg_backup_manager.Dict.{Dict}
use borg_backup_manager.Runs.{
  Action, Status, queued, running, success, warning, failed, cancelled, Trigger, scheduled, manual,
  Repository, Platform,
}
use borg_backup_manager.Chains.{Chains}

-- A value of the retention rules: an int, a bool, or anything else.
pub data RetentionValue : Type 0 where
  whole : ℕ → RetentionValue
  negative : RetentionValue
  truth : Bool → RetentionValue
  other : RetentionValue

-- What `json.loads` reads from `prune_options_json`: an error, or the values of an object.
pub data Retention : Type 0 where
  unreadable : Retention
  rules : List RetentionValue → Retention

-- A row of `Repository`, with the columns that the queue reads.
pub record Target : Type 0 where
  pub repository : Repository
  pub enabled : Bool
  pub initialized : Bool

-- A row of `Job` with its joined repository.
pub record Job : Type 0 where
  pub ident : ℕ
  pub name : Text
  pub host_id : ℕ
  pub target : Target
  pub prune_options : Retention
  pub manual_prune_after_backup : Bool
  pub manual_compact_after_prune : Bool

abbrev pub repository_id : Job → ℕ
repository_id job = job.target.repository.ident

-- A row of `Run`, with the columns that the queue writes or reads.
pub record Row : Type 0 where
  pub ident : ℕ
  pub job_id : Option ℕ
  pub job_name_snapshot : Option Text
  pub repository_id : Option ℕ
  pub action : Action
  pub status : Status
  pub error : Text
  pub command_preview : Text
  pub trigger_type : Trigger
  pub schedule_name_snapshot : Option Text
  pub schedule_id_snapshot : Option ℕ
  pub schedule_parallel_limit_snapshot : ℕ

-- `_active_run_tasks`, `_executing_run_ids` and `_initializing_repositories` are `active`,
-- `executing` and `initializing`; `next_id` is the id of
-- the next new row.
pub record Manager : Type 0 where
  pub jobs : List Job
  pub targets : Dict ℕ Target
  pub rows : List Row
  pub next_id : ℕ
  pub chains : Chains
  pub active : List ℕ
  pub executing : List ℕ
  pub initializing : List ℕ

-- What an exception says.
pub data Refusal : Type 0 where
  job_not_found repository_not_found run_not_found : Refusal
  repository_disabled repository_uninitialized repository_busy repository_unavailable : Refusal
  job_busy access_missing storage_unreadable storage_blocked : Refusal
  retention_unreadable retention_missing command_error unsupported token_missing : Refusal
  not_cancellable process_gone not_repeatable : Refusal
  initialization_running state_stale already_initialized not_initializable : Refusal
  ssh_action_not_found ssh_action_disabled host_disabled host_unconfirmed : Refusal

-- A raised exception or a returned value.
pub data Outcome {ℓ} (A : Type ℓ) : Type ℓ where
  raised : Refusal → Outcome A
  answered : A → Outcome A

-- What `repository_storage_status` answers: an OSError, None, or whether the guard blocks.
pub data StorageStatus : Type 0 where
  not_measured : StorageStatus
  not_guarded : StorageStatus
  guarded : Bool → StorageStatus

-- `managed_repository_present`, `repository_access_ready` on a host and a repository, the storage
-- status, the preview that the builder of app/runner.py gives for an action or none where it
-- raises, `require_initializable_managed_repository`, and `_background_error_message`.
pub record Probes : Type 0 where
  pub platform : Platform
  pub managed_present : Repository → Bool
  pub access_ready : ℕ → ℕ → Bool
  pub storage_status : Repository → StorageStatus
  pub job_command : Job → Action → Option Text
  pub repository_command : Target → Action → Option Text
  pub initializable : Repository → Bool
  pub message : Refusal → Text

-- `run.status in {"queued", "running"}`
unfoldable pub is_live : Status → Bool
is_live queued = true
is_live running = true
is_live _ = false

-- `status in {"success", "warning", "failed", "cancelled"}`
unfoldable pub is_terminal : Status → Bool
is_terminal success = true
is_terminal warning = true
is_terminal failed = true
is_terminal cancelled = true
is_terminal _ = false

-- `status in {"success", "warning"}`
unfoldable pub is_usable : Status → Bool
is_usable success = true
is_usable warning = true
is_usable _ = false

-- `column == n`, where the column may be NULL.
unfoldable pub holds : ℕ → Option ℕ → Bool
holds n none = false
holds n (some m) = m == n

-- `isinstance(value, int) and not isinstance(value, bool) and value > 0`
is_positive : RetentionValue → Bool
is_positive (whole n) = ltb 0 n
is_positive _ = false

any_positive : List RetentionValue → Bool
unfolding is_positive
any_positive [] = false
any_positive (v ∷ vs) = is_positive v || any_positive vs

has_rule : Retention → Bool
unfolding any_positive
has_rule unreadable = false
has_rule (rules vs) = any_positive vs

-- `_has_retention`
unfoldable pub has_retention : Option Job → Bool
unfolding has_rule
has_retention none = false
has_retention (some job) = has_rule job.prune_options

-- `db.get(Run, run_id)`
unfoldable pub find_row : ℕ → List Row → Option Row
find_row n [] = none
find_row n (r ∷ rows) = let rest = find_row n rows in if r.ident == n then some r else rest

-- `db.get(Job, job_id)`
unfoldable pub find_in : ℕ → List Job → Option Job
find_in n [] = none
find_in n (j ∷ jobs) = let rest = find_in n jobs in if j.ident == n then some j else rest

unfoldable pub find_job : ℕ → Manager → Option Job
unfolding find_in
find_job n m = find_in n m.jobs

-- `(run.job_id == job_id, run.status.in_(["queued", "running"]))`
unfoldable pub is_live_of_job : ℕ → Row → Bool
unfolding is_live holds
is_live_of_job n r = is_live r.status && holds n r.job_id

unfoldable pub is_live_of_repository : ℕ → Row → Bool
unfolding is_live holds
is_live_of_repository n r = is_live r.status && holds n r.repository_id

-- `db.scalar(select(Run).where(…).limit(1))`, in the order of the ids.
unfoldable pub first_row : (Row → Bool) → List Row → Option Row
first_row p [] = none
first_row p (r ∷ rows) = let rest = first_row p rows in if p r then some r else rest

unfoldable pub has_row : (Row → Bool) → List Row → Bool
has_row p [] = false
has_row p (r ∷ rows) = p r || has_row p rows

-- `db.add(run)` and `db.commit()`: the row takes the next id.
unfoldable pub add_row : (ℕ → Row) → Manager → Manager
add_row row m = record m { rows = m.rows ++ row m.next_id ∷ []; next_id = suc m.next_id }

-- `_active_run_tasks[run_id] = task`
unfoldable pub activate : ℕ → Manager → Manager
activate n m = record m { active = n ∷ keep (λ k. not (k == n)) m.active }

-- `name.strip()[:100] if name else None`
unfoldable pub clipped_name : Option Text → Option Text
unfolding strip is_space take
clipped_name none = none
clipped_name (some []) = none
clipped_name (some (c ∷ cs)) = some (take 100 (strip is_space (c ∷ cs)))
