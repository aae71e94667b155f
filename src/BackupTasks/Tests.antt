-- ===== src/BackupTasks/Tests.antt =====
-- Runs and witnesses of the tasks of app/manager_backup_progress.py.
use borg_backup_manager.Dict
use borg_backup_manager.Prelude.{refl, none, ◌≡◌, [], some}
use borg_backup_manager.Text.{text_eq, Text-discrete, codes}
use borg_backup_manager.BackupTasks.{
  manager, prune, running, started, parse_kind, Changes, Tasks, is_busy, begin_task,
}
use borg_backup_manager.BackupTasks.Changing.{finish_task, update_task}
use borg_backup_manager.BackupTasks.Tidy.{IsTidy}
use borg_backup_manager.BackupTasks.Bounds.{
  Reach-IsTidy, here, next, begins, updates, finishes, idle, Reach-IsTidy,
}

abbrev running_change : Changes
running_change = record {
  status = some running;
  stage = some (codes "copy");
  message = some (codes "…");
}

abbrev first_task : Tasks
first_task = started (codes "a") manager 5 idle

abbrev after : Tasks
after =
    finish_task (codes "a") (some (codes "slow")) 7
      (update_task (codes "a") running_change 6 first_task)

begun : begin_task (codes "a") (codes "manager") 5 idle ≡ some first_task
unfolding begin_task is_busy parse_kind prune Dict.put
begun = refl

-- While the first backup is created a second one is refused.
refused : begin_task (codes "b") (codes "cache") 6 first_task ≡ none
unfolding begin_task is_busy parse_kind prune Dict.get Dict.put Text-discrete
refused = refl

Reach-IsTidy_example : IsTidy after
unfolding text_eq
Reach-IsTidy_example = Reach-IsTidy after (
    next
      (next (next here (begins 97 [] (codes "manager") 5 idle first_task begun))
        (updates (codes "a") running_change 6 first_task refl))
      (finishes (codes "a") (some (codes "slow")) 7
        (update_task (codes "a") running_change 6 first_task)))
