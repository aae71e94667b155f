-- ===== src/Queue/Groups.antt =====
-- app/service.py: `scheduled_schedule`, which runs the jobs of a schedule in three phases, and the
-- row that a refused action of a schedule leaves.
use borg_backup_manager.Prelude.{
  ℕ, false, Option, none, some, List, [], ◌∷◌, ◌++◌, if◌then◌else◌, ℕ_discrete,
}
use borg_backup_manager.Text.{Text, codes}
use borg_backup_manager.Dict
use borg_backup_manager.Dict.{Dict}
use borg_backup_manager.Runs.{backup, prune, schedule, Status, failed, scheduled}
use borg_backup_manager.Queue.{
  Job, repository_id, Row, Manager, Outcome, raised, answered, is_usable, has_retention, find_job,
  add_row, clipped_name,
}
use borg_backup_manager.Queue.Actions.{Request, queue_job_action}
use borg_backup_manager.Queue.Manual.{World}

-- The arguments that every run of the group is queued with.
pub record Group : Type 0 where
  pub schedule_name : Option Text
  pub schedule_id : Option ℕ
  pub schedule_parallel_limit : ℕ

-- `queue_kwargs`
abbrev pub queue_kwargs : Group → Request
queue_kwargs g = record {
  restore = false;
  trigger_type = scheduled;
  schedule_name = g.schedule_name;
  schedule_id = g.schedule_id;
  schedule_parallel_limit = g.schedule_parallel_limit;
  run_label = none;
  chain_token = none;
  reserve_repository_chain = false;
}

abbrev job_ident : Option Job → Option ℕ
job_ident none = none
job_ident (some job) = some job.ident

abbrev job_name : Option Job → Option Text
job_name none = none
job_name (some job) = some job.name

abbrev job_repository : Option Job → Option ℕ
job_repository none = none
job_repository (some job) = some (repository_id job)

-- The `Run(…)` of `_record_schedule_error`.
unfoldable pub error_row : Group → Option Job → Text → ℕ → Row
unfolding clipped_name
error_row g job message ident = record {
  ident = ident;
  job_id = job_ident job;
  job_name_snapshot = job_name job;
  repository_id = job_repository job;
  action = schedule;
  status = failed;
  error = message;
  command_preview = [];
  trigger_type = scheduled;
  schedule_name_snapshot = clipped_name g.schedule_name;
  schedule_id_snapshot = g.schedule_id;
  schedule_parallel_limit_snapshot = g.schedule_parallel_limit;
}

-- `_record_schedule_error`, whose answer is the id of the new row.
unfoldable pub record_schedule_error : Group → ℕ → Text → Manager → Manager × ℕ
unfolding error_row find_job add_row
record_schedule_error g job_id message m =
    (add_row (error_row g (find_job job_id m) message) m, m.next_id)

-- The local variables of the first phase; `failures` are the runs that notifications are sent for.
pub record Backups : Type 0 where
  pub backup_runs : Dict ℕ ℕ
  pub repository_by_job : Dict ℕ ℕ
  pub failures : List ℕ

-- The `except` of a phase: the row, and the manager after the notification.
abbrev pub report_failure : World → Group → ℕ → Text → Manager → Manager × ℕ
report_failure w g job_id message m =
    let recorded = record_schedule_error g job_id message m in (w.meanwhile recorded.0, recorded.1)

unfoldable pub backup_queued : World → Group → ℕ → Backups → Manager × Outcome ℕ → Manager × Backups
backup_queued w g j b (m, answered n) =
    (m, record b { backup_runs = Dict.put ℕ_discrete j n b.backup_runs })
backup_queued w g j b (m, raised why) =
    let failure = report_failure w g j ((w.probes m).message why) m in
    (failure.0, record b { failures = b.failures ++ failure.1 ∷ [] })

-- `if job: repository_by_job[job_id] = int(job.repository_id)`
unfoldable pub note_repository : ℕ → Option Job → Backups → Backups
note_repository j none b = b
note_repository j (some job) b = record b {
  repository_by_job = Dict.put ℕ_discrete j (repository_id job) b.repository_by_job;
}

unfoldable pub backup_turn : World → Group → ℕ → Backups → Manager → Manager × Backups
unfolding backup_queued note_repository
backup_turn w g j b m =
    backup_queued w g j (note_repository j (find_job j m) b)
      (queue_job_action (w.probes m) j backup (queue_kwargs g) m)

-- The loop of the first phase.
unfoldable pub queue_backups : World → Group → List ℕ → Backups → Manager → Manager × Backups
unfolding backup_turn
queue_backups w g [] b m = (m, b)
queue_backups w g (j ∷ js) b m =
    let turn = backup_turn w g j b m in queue_backups w g js turn.1 turn.0

-- `dict(zip(runs.keys(), await asyncio.gather(…)))`
unfoldable pub statuses_of : World → Manager → Dict ℕ ℕ → Dict ℕ Status
statuses_of w m [] = []
statuses_of w m ((j, n) ∷ runs) = (j, w.ended m n) ∷ statuses_of w m runs

-- `if runs: await …`: an empty phase awaits nothing.
unfoldable pub awaited : World → Dict ℕ ℕ → Manager → Manager
awaited w [] m = m
awaited w (r ∷ runs) m = w.meanwhile m

-- `changed_repositories`, in the order that they are found in.
unfoldable pub changed_repositories : Dict ℕ ℕ → Dict ℕ Status → List ℕ
changed_repositories repositories [] = []
changed_repositories repositories ((j, s) ∷ statuses) =
    let rest = changed_repositories repositories statuses in
    if is_usable s
    then elim (Dict.get ℕ_discrete j repositories) [ none ↦ rest | some r ↦ r ∷ rest ]
    else rest

-- The local variables of the second phase.
pub record Prunes : Type 0 where
  pub prune_runs : Dict ℕ ℕ
  pub prune_repository : Dict ℕ ℕ
  pub failures : List ℕ

unfoldable pub prune_queued :
    World → Group → ℕ → ℕ → Prunes → Manager × Outcome ℕ → Manager × Prunes
prune_queued w g j repository b (m, answered n) = (
  m,
  record b {
    prune_runs = Dict.put ℕ_discrete j n b.prune_runs;
    prune_repository = Dict.put ℕ_discrete j repository b.prune_repository;
  },
)
prune_queued w g j repository b (m, raised why) =
    let failure =
      report_failure w g j
        (codes "Archivbereinigung konnte nicht gestartet werden: " ++ (w.probes m).message why) m in
    (failure.0, record b { failures = b.failures ++ failure.1 ∷ [] })

unfoldable pub prune_job : World → Group → ℕ → Prunes → Manager → Option Job → Manager × Prunes
unfolding prune_queued has_retention
prune_job w g j b m none = (m, b)
prune_job w g j b m (some job) =
    if has_retention (some job)
    then prune_queued w g j (repository_id job) b
        (queue_job_action (w.probes m) j prune (queue_kwargs g) m)
    else (m, b)

unfoldable pub prune_turn : World → Group → ℕ → Status → Prunes → Manager → Manager × Prunes
unfolding prune_job
prune_turn w g j s b m = if is_usable s then prune_job w g j b m (find_job j m) else (m, b)

-- The loop of the second phase.
unfoldable pub queue_prunes : World → Group → Dict ℕ Status → Prunes → Manager → Manager × Prunes
unfolding prune_turn
queue_prunes w g [] b m = (m, b)
queue_prunes w g ((j, s) ∷ statuses) b m =
    let turn = prune_turn w g j s b m in queue_prunes w g statuses turn.1 turn.0
