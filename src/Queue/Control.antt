-- ===== src/Queue/Control.antt =====
-- app/service.py and app/main.py: `queue_repository_action`, `cancel_run`, the bookkeeping of
-- `execute_run`, and the recovery of interrupted runs after a restart.
use borg_backup_manager.Prelude.{
  ℕ, Bool, true, false, ◌&&◌, not, Option, none, some, [], ◌∷◌, ◌++◌, ◌==◌, if◌then◌else◌, keep,
  map, contains, ℕ_discrete,
}
use borg_backup_manager.Text.{Text, codes, take, non_empty}
use borg_backup_manager.Dict
use borg_backup_manager.Dict.{Dict}
use borg_backup_manager.Runs.{
  Action, compact, delete_archive, repository_test, queued, failed, manual,
}
use borg_backup_manager.Queue.{
  Target, Row, Manager, Refusal, repository_not_found, run_not_found, repository_disabled,
  repository_uninitialized, repository_busy, repository_unavailable, command_error, unsupported,
  not_cancellable, process_gone, Outcome, raised, answered, Probes, is_live, find_row,
  is_live_of_repository, has_row, add_row, activate,
}

abbrev is_test : Action → Bool
is_test repository_test = true
is_test _ = false

-- The tests of `queue_repository_action` before a command is built.
unfoldable pub target_refusal : Probes → ℕ → Target → Action → Manager → Option Refusal
unfolding has_row is_live_of_repository
target_refusal p repository_id target action m =
    if not target.enabled
    then some repository_disabled
    else if not (is_test action) && not target.initialized
    then some repository_uninitialized
    else elim (non_empty target.repository.storage_path) [
      | some path ↦
          if not (p.managed_present target.repository)
          then some repository_unavailable
          else if has_row (is_live_of_repository repository_id) m.rows
          then some repository_busy
          else none
      | none ↦
          if has_row (is_live_of_repository repository_id) m.rows
          then some repository_busy
          else none
    ]

built : Option Text → Outcome Text
built none = raised command_error
built (some preview) = answered preview

unfoldable pub repository_preview : Probes → Target → Action → Outcome Text
unfolding built
repository_preview p target repository_test = built (p.repository_command target repository_test)
repository_preview p target compact = built (p.repository_command target compact)
repository_preview p target delete_archive = built (p.repository_command target delete_archive)
repository_preview p target action = raised unsupported

-- `(subject or f"Repository: {repository.name}")[:100]`
subject_or_name : Option Text → Text → Text
unfolding take
subject_or_name subject name = elim (non_empty subject) [
  | none ↦ take 100 (codes "Repository: " ++ name)
  | some t ↦ take 100 t
]

-- The `Run(…)` of `queue_repository_action`.
unfoldable pub repository_row : ℕ → Target → Action → Option Text → Text → ℕ → Row
unfolding subject_or_name
repository_row repository_id target action subject preview ident = record {
  ident = ident;
  job_id = none;
  job_name_snapshot = some (subject_or_name subject target.repository.name);
  repository_id = some repository_id;
  action = action;
  status = queued;
  error = [];
  command_preview = preview;
  trigger_type = manual;
  schedule_name_snapshot = none;
  schedule_id_snapshot = none;
  schedule_parallel_limit_snapshot = 0;
}

unfoldable pub queue_preview :
    ℕ → Target → Action → Option Text → Manager → Outcome Text → Manager × Outcome ℕ
unfolding repository_row add_row activate
queue_preview ident target action subject m (raised why) = (m, raised why)
queue_preview ident target action subject m (answered preview) = (
  activate m.next_id (add_row (repository_row ident target action subject preview) m),
  answered m.next_id,
)

unfoldable pub queue_for_target :
    Probes → ℕ → Target → Action → Option Text → Manager → Manager × Outcome ℕ
unfolding target_refusal repository_preview queue_preview
queue_for_target p ident target action subject m = elim (target_refusal p ident target action m) [
  | some why ↦ (m, raised why)
  | none ↦ queue_preview ident target action subject m (repository_preview p target action)
]

-- `queue_repository_action`
unfoldable pub queue_repository_action :
    Probes → ℕ → Action → Option Text → Manager → Manager × Outcome ℕ
unfolding queue_for_target Dict.get
queue_repository_action p ident action subject m = elim (Dict.get ℕ_discrete ident m.targets) [
  | none ↦ (m, raised repository_not_found)
  | some target ↦ queue_for_target p ident target action subject m
]

-- `cancel_run`: the id of the task that it cancels. The task ends the run later.
unfoldable pub cancel_run : ℕ → Manager → Outcome ℕ
unfolding find_row is_live
cancel_run n m = elim (find_row n m.rows) [
  | none ↦ raised run_not_found
  | some r ↦
      if is_live r.status
      then if contains n m.active then answered n else raised process_gone
      else raised not_cancellable
]

-- `execute_run` before and after `_execute_run_inner`; `is_current` is whether the task of the run
-- is still this one.
unfoldable pub execute_begins : ℕ → Manager → Manager
execute_begins n m = record m { executing = n ∷ keep (λ k. not (k == n)) m.executing }

unfoldable pub execute_ends : ℕ → Bool → Manager → Manager
execute_ends n is_current m = record m {
  executing = keep (λ k. not (k == n)) m.executing;
  active = if is_current then keep (λ k. not (k == n)) m.active else m.active;
}

-- `((row.error + "\n") if row.error else "") + "Manager restarted while execution was active"`
restart_error : Text → Text
restart_error [] = codes "Manager restarted while execution was active"
restart_error (c ∷ error) = (c ∷ error) ++ 10 ∷ codes "Manager restarted while execution was active"

unfoldable pub recover_row : Row → Row
unfolding restart_error is_live
recover_row r =
    if is_live r.status then record r { status = failed; error = restart_error r.error } else r

-- `recover_interrupted_runs`
unfoldable pub recover_interrupted_runs : Manager → Manager
unfolding recover_row
recover_interrupted_runs m = record m { rows = map recover_row m.rows }
