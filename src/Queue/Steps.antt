-- ===== src/Queue/Steps.antt =====
-- The steps of the run queue of app/service.py, one for each transaction that changes the rows of
-- the runs, and the operations that are made of such steps.
use borg_backup_manager.Prelude.{
  ℕ, Bool, true, false, ◌&&◌, Option, none, List, ◌==◌, if◌then◌else◌, keep, map, ◌≡◌,
}
use borg_backup_manager.Text.{Text}
use borg_backup_manager.Dict.{Dict}
use borg_backup_manager.Runs.{Action, Status, queued, running}
use borg_backup_manager.Chains.{Chains}
use borg_backup_manager.Queue.{Target, Job, Row, Manager, Probes, is_terminal, add_row}
use borg_backup_manager.Queue.Actions.{Request, queue_job_action}
use borg_backup_manager.Queue.Control.{
  queue_repository_action, execute_begins, execute_ends, recover_interrupted_runs,
}
use borg_backup_manager.Queue.Manual.{release}
use borg_backup_manager.Queue.Inserts.{
  queue_repository_archive_refresh, queue_repository_init, discard_initializing, SavedAction,
  HostRow, queue_host_ssh_action,
}
use borg_backup_manager.Queue.Groups.{Group, record_schedule_error}

abbrev is_queued : Status → Bool
is_queued queued = true
is_queued _ = false

-- `current.status != "queued"` returns; otherwise `current.status = "running"`.
unfoldable pub claim_row : ℕ → Row → Row
claim_row n r = if r.ident == n && is_queued r.status then record r { status = running } else r

-- `run.status = status` of `_execute_run_inner`, with its error.
unfoldable pub end_row : ℕ → Status → Text → Row → Row
end_row n s error r = if r.ident == n then record r { status = s; error = error } else r

-- The one run that another function inserts, `reset_managed_repository_state`, has no job. `edits` are the transactions of other components, and `deletes`
-- the removal of old rows.
pub data Step : Manager → Manager → Type 0 where
  queues :
      (p : Probes) (job_id : ℕ) (a : Action) (q : Request) (m : Manager)
      → Step m (queue_job_action p job_id a q m).0
  queues_repository :
      (p : Probes) (ident : ℕ) (a : Action) (subject : Option Text) (m : Manager)
      → Step m (queue_repository_action p ident a subject m).0
  refreshes_archives :
      (p : Probes) (ident : ℕ) (checkpoints : Bool) (m : Manager)
      → Step m (queue_repository_archive_refresh p ident checkpoints m).0
  initializes : (p : Probes) (ident : ℕ) (m : Manager) → Step m (queue_repository_init p ident m).0
  ends_initialization : (ident : ℕ) (m : Manager) → Step m (discard_initializing ident m)
  runs_ssh :
      (a : Option SavedAction) (host : Option HostRow) (builds : Bool) (m : Manager)
      → Step m (queue_host_ssh_action a host builds m).0
  records_error :
      (g : Group) (job_id : ℕ) (message : Text) (m : Manager)
      → Step m (record_schedule_error g job_id message m).0
  inserts :
      (row : ℕ → Row) (m : Manager)
      → ((n : ℕ) → ((row n).ident ≡ n) × ((row n).job_id ≡ none))
      → Step m (add_row row m)
  claims : (n : ℕ) (m : Manager) → Step m (record m { rows = map (claim_row n) m.rows })
  ends :
      (n : ℕ) (s : Status) (error : Text) (m : Manager)
      → is_terminal s ≡ true
      → Step m (record m { rows = map (end_row n s error) m.rows })
  begins_task : (n : ℕ) (m : Manager) → Step m (execute_begins n m)
  ends_task : (n : ℕ) (is_current : Bool) (m : Manager) → Step m (execute_ends n is_current m)
  recovers : (m : Manager) → Step m (recover_interrupted_runs m)
  releases : (token : Text) (m : Manager) → Step m (release token m)
  edits :
      (jobs : List Job) (targets : Dict ℕ Target) (chains : Chains) (m : Manager)
      → Step m (record m { jobs = jobs; targets = targets; chains = chains })
  deletes : (p : Row → Bool) (m : Manager) → Step m (record m { rows = keep p m.rows })

pub data Reach (m : Manager) : Manager → Type 0 where
  here : Reach m m
  next : {n o : Manager} → Reach m n → Step n o → Reach m o
