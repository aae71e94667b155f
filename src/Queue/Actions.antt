-- ===== src/Queue/Actions.antt =====
-- app/service.py: `queue_job_action`, which puts a run for a job into the queue.
use borg_backup_manager.Prelude.{
  ℕ, Bool, true, false, ◌&&◌, not, Option, none, some, [], ◌==◌, if◌then◌else◌,
}
use borg_backup_manager.Text.{Text, take, non_empty}
use borg_backup_manager.Runs.{
  Action, backup, source_stats, prune, version, probe, restore, delete_archive, rename_archive,
  diff_archives, confirm_location, repository_init, schedule, repository_test, archive_refresh,
  ssh_command, queued, Trigger, scheduled, manual, repository_execution_key,
}
use borg_backup_manager.Chains.{Chains, register_repository_chain, register_chain_run}
use borg_backup_manager.Queue.{
  unreadable, rules, Job, repository_id, Row, Manager, Refusal, job_not_found, repository_disabled,
  repository_unavailable, job_busy, access_missing, storage_unreadable, storage_blocked,
  retention_unreadable, retention_missing, command_error, unsupported, token_missing, Outcome,
  raised, answered, StorageStatus, not_measured, guarded, Probes, has_retention, find_job,
  is_live_of_job, is_live_of_repository, first_row, has_row, add_row, activate, clipped_name,
}

-- The keyword arguments of `queue_job_action`; `restore` is whether a request that is not empty is
-- given with the action.
pub record Request : Type 0 where
  pub restore : Bool
  pub trigger_type : Trigger
  pub schedule_name : Option Text
  pub schedule_id : Option ℕ
  pub schedule_parallel_limit : ℕ
  pub run_label : Option Text
  pub chain_token : Option Text
  pub reserve_repository_chain : Bool

abbrev is_confirmation : Action → Bool
is_confirmation confirm_location = true
is_confirmation _ = false

-- `Job.host_id == job.host_id` of the job that the row names.
row_on_host : Manager → Job → Option ℕ → Bool
unfolding find_job
row_on_host m job none = false
row_on_host m job (some n) = elim (find_job n m) [
  | none ↦ false
  | some j ↦ j.host_id == job.host_id
]

-- `Run.action == "confirm-location"` and the rest of the query for an existing confirmation.
unfoldable pub is_confirmation_of : Manager → Job → Row → Bool
unfolding row_on_host is_live_of_repository
is_confirmation_of m job r =
    is_confirmation r.action
    && (is_live_of_repository (repository_id job) r && row_on_host m job r.job_id)

unfoldable pub existing_confirmation : Manager → Job → Action → Option Row
unfolding is_confirmation_of first_row
existing_confirmation m job confirm_location = first_row (is_confirmation_of m job) m.rows
existing_confirmation m job _ = none

-- `action not in {"version", "source-stats"}`
abbrev needs_repository : Action → Bool
needs_repository version = false
needs_repository source_stats = false
needs_repository _ = true

-- `action in {"backup", "restore", "probe", "confirm-location"}`
abbrev needs_access : Action → Bool
needs_access backup = true
needs_access restore = true
needs_access probe = true
needs_access confirm_location = true
needs_access _ = false

-- `if action == "backup": guard = repository_storage_status(…)`
guard_refusal : StorageStatus → Action → Option Refusal
guard_refusal not_measured backup = some storage_unreadable
guard_refusal (guarded true) backup = some storage_blocked
guard_refusal _ _ = none

-- `if job.repository.storage_path:`
unfoldable pub storage_refusal : Probes → Job → Action → Option Refusal
unfolding guard_refusal
storage_refusal p job action = elim (non_empty job.target.repository.storage_path) [
  | none ↦ none
  | some path ↦
      if needs_repository action
        && not (job.target.initialized && p.managed_present job.target.repository)
      then some repository_unavailable
      else if needs_access action && not (p.access_ready job.host_id (repository_id job))
      then some access_missing
      else guard_refusal (p.storage_status job.target.repository) action
]

built : Option Text → Outcome Text
built none = raised command_error
built (some preview) = answered preview

-- The branches of `queue_job_action` that build a command.
unfoldable pub command_for : Probes → Job → Action → Bool → Outcome Text
unfolding built has_retention
command_for p job prune req = elim job.prune_options [
  | unreadable ↦ raised retention_unreadable
  | rules vs ↦
      if has_retention (some job) then built (p.job_command job prune) else raised retention_missing
]
command_for p job restore req =
    if req then built (p.job_command job restore) else raised unsupported
command_for p job delete_archive req =
    if req then built (p.job_command job delete_archive) else raised unsupported
command_for p job rename_archive req =
    if req then built (p.job_command job rename_archive) else raised unsupported
command_for p job diff_archives req =
    if req then built (p.job_command job diff_archives) else raised unsupported
command_for p job repository_init req = raised unsupported
command_for p job schedule req = raised unsupported
command_for p job repository_test req = raised unsupported
command_for p job archive_refresh req = raised unsupported
command_for p job ssh_command req = raised unsupported
command_for p job action req = built (p.job_command job action)

abbrev is_scheduled : Trigger → Bool
is_scheduled scheduled = true
is_scheduled manual = false

-- `(run_label or job.name)[:100]`
abbrev label : Option Text → Text → Text
label o name = elim (non_empty o) [ none ↦ take 100 name | some t ↦ take 100 t ]

-- The `Run(…)` of `queue_job_action`.
unfoldable pub job_row : Job → Action → Request → Text → ℕ → Row
unfolding clipped_name take
job_row job action q preview ident = record {
  ident = ident;
  job_id = some job.ident;
  job_name_snapshot = some (label q.run_label job.name);
  repository_id = some (repository_id job);
  action = action;
  status = queued;
  error = [];
  command_preview = preview;
  trigger_type = q.trigger_type;
  schedule_name_snapshot = clipped_name q.schedule_name;
  schedule_id_snapshot = if is_scheduled q.trigger_type then q.schedule_id else none;
  schedule_parallel_limit_snapshot =
      if is_scheduled q.trigger_type then q.schedule_parallel_limit else 0;
}

-- `_register_repository_chain` or `_register_chain_run`; none where the token is missing.
unfoldable pub register : Probes → Job → Request → ℕ → Chains → Option Chains
register p job q n c =
    if q.reserve_repository_chain
    then elim (non_empty q.chain_token) [
      | none ↦ none
      | some token ↦ some (
          register_repository_chain
            (repository_execution_key p.platform (some job.target.repository)
              (some (repository_id job)))
            n token c)
    ]
    else some (register_chain_run n q.chain_token c)

-- What follows the commit of the row with the id `n`.
unfoldable pub enter : Probes → Job → Request → ℕ → Manager → Manager × Outcome ℕ
unfolding register activate
enter p job q n m = elim (register p job q n m.chains) [
  | none ↦ (m, raised token_missing)
  | some c ↦ (activate n (record m { chains = c }), answered n)
]

unfoldable pub queue_command :
    Probes → Job → Action → Request → Manager → Outcome Text → Manager × Outcome ℕ
unfolding job_row add_row enter
queue_command p job action q m (raised why) = (m, raised why)
queue_command p job action q m (answered preview) =
    enter p job q m.next_id (add_row (job_row job action q preview) m)

-- From the test for another run of the job on.
unfoldable pub queue_new : Probes → Job → Action → Request → Manager → Manager × Outcome ℕ
unfolding has_row is_live_of_job storage_refusal command_for queue_command
queue_new p job action q m =
    if has_row (is_live_of_job job.ident) m.rows
    then (m, raised job_busy)
    else elim (storage_refusal p job action) [
      | some why ↦ (m, raised why)
      | none ↦ queue_command p job action q m (command_for p job action q.restore)
    ]

unfoldable pub queue_for_job : Probes → Job → Action → Request → Manager → Manager × Outcome ℕ
unfolding existing_confirmation queue_new
queue_for_job p job action q m =
    if not job.target.enabled
    then (m, raised repository_disabled)
    else elim (existing_confirmation m job action) [
      | some r ↦ (m, answered r.ident)
      | none ↦ queue_new p job action q m
    ]

-- `queue_job_action`
unfoldable pub queue_job_action : Probes → ℕ → Action → Request → Manager → Manager × Outcome ℕ
unfolding find_job queue_for_job
queue_job_action p job_id action q m = elim (find_job job_id m) [
  | none ↦ (m, raised job_not_found)
  | some job ↦ queue_for_job p job action q m
]
