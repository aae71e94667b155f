-- ===== src/Queue/Manual.antt =====
-- app/service.py: `queue_manual_backup`, the maintenance that follows it, and `retry_run`.
use borg_backup_manager.Prelude.{
  ℕ, zero, suc, Bool, true, false, ◌&&◌, Option, none, some, [], ◌∷◌, ◌++◌, if◌then◌else◌,
}
use borg_backup_manager.Text.{Text, codes}
use borg_backup_manager.Runs.{
  Action, backup, prune, list, list_all, info, check, verify, compact, version, probe, Status,
  success, manual,
}
use borg_backup_manager.Chains.{release_repository_chain}
use borg_backup_manager.Queue.{
  Job, Manager, Refusal, job_not_found, run_not_found, retention_missing, not_repeatable, Outcome,
  raised, answered, Probes, is_usable, has_retention, find_row, find_job,
}
use borg_backup_manager.Queue.Actions.{Request, queue_job_action}

-- What a coroutine sees of the rest of the program: the probes that it finds, what the other tasks
-- do to the manager while it awaits, the status that `_wait_for_run` returns
-- for a run, and the setting `repository_size_after_run`.
pub record World : Type 0 where
  pub probes : Manager → Probes
  pub meanwhile : Manager → Manager
  pub ended : Manager → ℕ → Status
  pub size_after_run : Bool

-- The defaults of `queue_job_action`.
abbrev pub plain : Request
plain = record {
  restore = false;
  trigger_type = manual;
  schedule_name = none;
  schedule_id = none;
  schedule_parallel_limit = 0;
  run_label = none;
  chain_token = none;
  reserve_repository_chain = false;
}

-- `refresh_size_after=False, chain_token=token`
abbrev pub in_chain : Text → Request
in_chain token = record plain { chain_token = some token }

-- The same with `reserve_repository_chain=True`.
abbrev pub opens_chain : Text → Request
opens_chain token = record plain { chain_token = some token; reserve_repository_chain = true }

abbrev pub is_success : Status → Bool
is_success success = true
is_success _ = false

-- The manager, and the exception that ended the body of `_finish_manual_backup_chain`, if any.
unfoldable pub after_compact : World → Manager × Outcome ℕ → Manager × Option Refusal
after_compact w (m, raised why) = (m, some why)
after_compact w (m, answered n) = (w.meanwhile m, none)

unfoldable pub after_prune : World → ℕ → Text → Bool → Status → Manager → Manager × Option Refusal
unfolding after_compact
after_prune w job_id token compact_after status m =
    if is_success status && compact_after
    then after_compact w (queue_job_action (w.probes m) job_id compact (in_chain token) m)
    else (m, none)

unfoldable pub prune_queued :
    World → ℕ → Text → Bool → Manager × Outcome ℕ → Manager × Option Refusal
unfolding after_prune
prune_queued w job_id token compact_after (m, raised why) = (m, some why)
prune_queued w job_id token compact_after (m, answered n) =
    after_prune w job_id token compact_after (w.ended m n) (w.meanwhile m)

-- The body of the `try`, from the end of the backup on.
unfoldable pub maintain : World → ℕ → Text → Bool → Manager → Manager × Option Refusal
unfolding prune_queued
maintain w job_id token compact_after m =
    prune_queued w job_id token compact_after
      (queue_job_action (w.probes m) job_id prune (in_chain token) m)

-- `_release_repository_chain(token)`
unfoldable pub release : Text → Manager → Manager
release token m = record m { chains = release_repository_chain token m.chains }

-- What the run's log gets, and whether the repository's statistics are to be refreshed.
pub record ChainEnd : Type 0 where
  pub appended : Text
  pub changed : Bool

failure_note : Probes → Option Refusal → Text
failure_note p none = []
failure_note p (some why) = 10 ∷ (codes "NACHBEREITUNG FEHLER: " ++ p.message why ++ 10 ∷ [])

-- `_refresh_changed_repositories`, which awaits nothing if the setting is off.
unfoldable pub after_refresh : World → Manager → Manager
after_refresh w m = if w.size_after_run then w.meanwhile m else m

unfoldable pub conclude : World → Text → Manager × Option Refusal → Manager × ChainEnd
unfolding after_refresh failure_note release
conclude w token (m, failure) = (
  after_refresh w (release token m),
  record { appended = failure_note (w.probes m) failure; changed = true },
)

-- `_finish_manual_backup_chain`
unfoldable pub finish_manual_backup_chain :
    World → ℕ → ℕ → Text → Bool → Manager → Manager × ChainEnd
unfolding conclude maintain release
finish_manual_backup_chain w job_id backup_run token compact_after m =
    let status = w.ended m backup_run in
    let awaited = w.meanwhile m in
    if is_usable status
    then conclude w token (maintain w job_id token compact_after awaited)
    else (release token awaited, record { appended = []; changed = false })

-- The run that `queue_manual_backup` returns, and the `compact_after` of the maintenance task that
-- it creates.
pub record Queued : Type 0 where
  pub run : ℕ
  pub maintenance : Option Bool

abbrev pub with_maintenance : Option Bool → Manager × Outcome ℕ → Manager × Outcome Queued
with_maintenance o (m, raised why) = (m, raised why)
with_maintenance o (m, answered n) = (m, answered (record { run = n; maintenance = o }))

unfoldable pub queue_backup_of : Probes → Text → Job → ℕ → Manager → Manager × Outcome Queued
unfolding has_retention
queue_backup_of p token job job_id m =
    if job.manual_prune_after_backup
    then if has_retention (some job)
      then with_maintenance (some job.manual_compact_after_prune)
          (queue_job_action p job_id backup (opens_chain token) m)
      else (m, raised retention_missing)
    else with_maintenance none (queue_job_action p job_id backup plain m)

-- `queue_manual_backup`, where `token` is the text made of the clock and random bytes.
unfoldable pub queue_manual_backup : Probes → Text → ℕ → Manager → Manager × Outcome Queued
unfolding queue_backup_of find_job
queue_manual_backup p token job_id m = elim (find_job job_id m) [
  | none ↦ (m, raised job_not_found)
  | some job ↦ queue_backup_of p token job job_id m
]

abbrev pub is_backup : Action → Bool
is_backup backup = true
is_backup _ = false

-- `allowed`
unfoldable pub is_repeatable : Action → Bool
is_repeatable backup = true
is_repeatable prune = true
is_repeatable list = true
is_repeatable list_all = true
is_repeatable info = true
is_repeatable check = true
is_repeatable verify = true
is_repeatable compact = true
is_repeatable version = true
is_repeatable probe = true
is_repeatable _ = false

unfoldable pub repeat_for : Probes → Text → Action → Option ℕ → Manager → Manager × Outcome Queued
unfolding is_repeatable
repeat_for p token action none m = (m, raised not_repeatable)
repeat_for p token action (some zero) m = (m, raised not_repeatable)
repeat_for p token action (some (suc j)) m =
    if is_repeatable action
    then if is_backup action
      then queue_manual_backup p token (suc j) m
      else with_maintenance none (queue_job_action p (suc j) action plain m)
    else (m, raised not_repeatable)

-- `retry_run`
unfoldable pub retry_run : Probes → Text → ℕ → Manager → Manager × Outcome Queued
unfolding repeat_for find_row
retry_run p token run_id m = elim (find_row run_id m.rows) [
  | none ↦ (m, raised run_not_found)
  | some r ↦ repeat_for p token r.action r.job_id m
]
