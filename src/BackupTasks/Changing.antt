-- ===== src/BackupTasks/Changing.antt =====
-- app/manager_backup_progress.py, what happens to a task after its begin, and what is asked of tasks.
use borg_backup_manager.Prelude.{
  ℕ, Bool, Option, none, some, List, [], ◌∷◌, ◌++◌, ltb, if◌then◌else◌,
}
use borg_backup_manager.Text.{drop, Text, Text-discrete, text_eq, codes}
use borg_backup_manager.Dict
use borg_backup_manager.BackupTasks.{
  Kind, manager, cache, Status, running, warning, finished, failed, Task, Changes, Tasks,
  last_twelve, is_current, values, prune,
}

abbrev option_or {ℓ} : {A : Type ℓ} → A → Option A → A
option_or a none = a
option_or a (some b) = b

abbrev starts : Status → Option ℕ → ℕ → Option ℕ
starts running none now = some now
starts status started now = started

-- `if message and message != task.get("message")`
abbrev pub with_event : Option Text → ℕ → Task → List (ℕ × Text)
with_event none now t = t.events
with_event (some []) now t = t.events
with_event (some (c ∷ m)) now t =
    if text_eq (c ∷ m) t.message then t.events else last_twelve (t.events ++ (now, c ∷ m) ∷ [])

unfoldable pub updated : Changes → ℕ → Task → Task
unfolding drop
updated changes now t = record t {
  started_at = starts (option_or t.status changes.status) t.started_at now;
  events = with_event changes.message now t;
  status = option_or t.status changes.status;
  stage = option_or t.stage changes.stage;
  message = option_or t.message changes.message;
}

abbrev pub change_task : Text → (Task → Task) → Tasks → Tasks
change_task ident change s = elim (Dict.get Text-discrete ident s.tasks) [
  | none ↦ s
  | some t ↦ record s { tasks = Dict.put Text-discrete ident (change t) s.tasks }
]

unfoldable pub update_task : Text → Changes → ℕ → Tasks → Tasks
unfolding updated
update_task ident changes now = change_task ident (updated changes now)

abbrev pub success_message : Kind → Option Text → Text
success_message manager none = codes "Manager-Backup wurde erfolgreich erstellt."
success_message manager (some w) = codes "Manager-Backup wurde mit Warnungen erstellt."
success_message cache none = codes "Cache-Backup wurde erfolgreich erstellt."
success_message cache (some w) = codes "Cache-Backup wurde mit Warnungen erstellt."

abbrev pub warning_event : Option Text → ℕ → List (ℕ × Text)
warning_event none now = []
warning_event (some w) now = (now, codes "Warnung: " ++ w) ∷ []

-- `warning` is not empty if it is there.
unfoldable pub completed : Option Text → ℕ → Task → Task
unfolding drop
completed warned now t = record t {
  events =
      last_twelve
        ((t.events ++ (now, success_message t.kind warned) ∷ []) ++ warning_event warned now);
  status = elim warned [ none ↦ finished | some w ↦ warning ];
  stage = codes "finished";
  message = success_message t.kind warned;
  finished_at = some now;
  error = none;
  warned = warned;
}

abbrev failure_message : Kind → Text
failure_message manager = codes "Manager-Backup konnte nicht erstellt werden."
failure_message cache = codes "Cache-Backup konnte nicht erstellt werden."

unfoldable pub failed_with : Text → ℕ → Task → Task
unfolding drop
failed_with error now t = record t {
  events = last_twelve (t.events ++ (now, codes "Fehler: " ++ error) ∷ []);
  status = failed;
  stage = codes "failed";
  message = failure_message t.kind;
  finished_at = some now;
  error = some error;
}

abbrev pub vacate : Text → Tasks → Tasks
vacate ident s = if is_current s.current ident then record s { current = none } else s

-- The end of `finish_task` and of `fail_task`; a task that is not there changes nothing.
unfoldable pub end_task : Text → (Task → Task) → Tasks → Tasks
unfolding prune
end_task ident change s = elim (Dict.get Text-discrete ident s.tasks) [
  | none ↦ s
  | some t ↦
      prune (vacate ident (record s { tasks = Dict.put Text-discrete ident (change t) s.tasks }))
]

unfoldable pub finish_task : Text → Option Text → ℕ → Tasks → Tasks
unfolding end_task completed
finish_task ident warned now = end_task ident (completed warned now)

unfoldable pub fail_task : Text → Text → ℕ → Tasks → Tasks
unfolding end_task failed_with
fail_task ident error now = end_task ident (failed_with error now)

-- `max(…, key=created_at)`: the first of the latest.
unfoldable pub latest : List Task → Option Task
latest [] = none
latest (t ∷ ts) = elim (latest ts) [
  | none ↦ some t
  | some u ↦ if ltb t.created_at u.created_at then some u else some t
]

unfoldable pub get_task : Text → Tasks → Option Task
get_task ident s = Dict.get Text-discrete ident s.tasks

abbrev current_of : Tasks → Option Task
current_of s = elim s.current [
  | none ↦ none
  | some [] ↦ none
  | some (c ∷ ident) ↦ Dict.get Text-discrete (c ∷ ident) s.tasks
]

unfoldable pub current_task : Bool → Tasks → Option Task
unfolding latest values
current_task include_last s = elim (current_of s) [
  | some t ↦ some t
  | none ↦ if include_last then latest (values s.tasks) else none
]
