-- ===== src/BackupTasks.antt =====
-- app/manager_backup_progress.py, the tasks that create backups of the manager: `_tasks` is a
-- dictionary of tasks, `_current_task_id` the one that runs. Each function is one critical section
-- of its lock, at an instant of the clock. Labels, percentages, byte counts and the backups are not kept.
pub mod Changing
pub mod Excess
pub mod Pruning
pub mod Tidy
pub mod Bounds
mod Tests
use borg_backup_manager.Prelude.{
  zero, suc, ℕ, ◌+◌, ◌-◌, Bool, true, false, not, ◌&&◌, ◌||◌, Option, none, some, List, [], ◌∷◌,
  ◌++◌, leb, ltb, ◌==◌, if◌then◌else◌, keep, length, ite, map,
}
use borg_backup_manager.Text.{drop, Text, Text-discrete, text_eq, codes}
use borg_backup_manager.Dict
use borg_backup_manager.Dict.{Dict}

pub data Kind : Type 0 where
  manager cache : Kind

pub data Status : Type 0 where
  queued running warning finished failed : Status

-- An event is an instant and a message.
pub record Task : Type 0 where
  pub ident : Text
  pub kind : Kind
  pub status : Status
  pub stage : Text
  pub message : Text
  pub created_at : ℕ
  pub started_at : Option ℕ
  pub finished_at : Option ℕ
  pub events : List (ℕ × Text)
  pub error : Option Text
  pub warned : Option Text

-- The changes of the two callers; an absent one is `none`.
pub record Changes : Type 0 where
  pub status : Option Status
  pub stage : Option Text
  pub message : Option Text

pub record Tasks : Type 0 where
  pub tasks : Dict Text Task
  pub current : Option Text

abbrev pub max_tasks : ℕ
max_tasks = 12

abbrev pub is_active_status : Status → Bool
is_active_status queued = true
is_active_status running = true
is_active_status _ = false

abbrev pub is_active : Task → Bool
is_active t = is_active_status t.status

-- `del events[:-12]`
abbrev pub last_twelve : List (ℕ × Text) → List (ℕ × Text)
last_twelve events = drop (length events - 12) events

unfoldable pub first {ℓ} : {A : Type ℓ} → ℕ → List A → List A
first zero xs = []
first (suc n) [] = []
first (suc n) (x ∷ xs) = x ∷ first n xs

-- `item.get("finished_at") or item.get("created_at")`
abbrev pub age_key : Task → ℕ
age_key t = elim t.finished_at [ none ↦ t.created_at | some at ↦ at ]

unfoldable pub insert_task : Task → List Task → List Task
insert_task t [] = t ∷ []
insert_task t (u ∷ us) =
    let rest = insert_task t us in if leb (age_key t) (age_key u) then t ∷ u ∷ us else u ∷ rest

-- `sorted(…, key=…)`, which is stable.
unfoldable pub sort_tasks : List Task → List Task
unfolding insert_task
sort_tasks [] = []
sort_tasks (t ∷ ts) = insert_task t (sort_tasks ts)

abbrev pub is_current : Option Text → Text → Bool
is_current none ident = false
is_current (some c) ident = text_eq c ident

-- `{_current_task_id} if _current_task_id else set()`
abbrev pub is_protected : Option Text → Text → Bool
is_protected none ident = false
is_protected (some []) ident = false
is_protected (some (c ∷ cs)) ident = text_eq (c ∷ cs) ident

unfoldable pub is_prunable : Option Text → Task → Bool
is_prunable current t = not (is_protected current t.ident) && not (is_active t)

unfoldable pub values : Dict Text Task → List Task
values d = map (λ entry. entry.1) d

unfoldable pub pop_all : List Task → Dict Text Task → Dict Text Task
unfolding Dict.pop
pop_all [] d = d
pop_all (t ∷ ts) d = pop_all ts (Dict.pop Text-discrete t.ident d)

-- `_prune_locked`, whose first test is that of the count of tasks to remove.
unfoldable pub prune : Tasks → Tasks
unfolding is_prunable values pop_all first
prune s = if leb (length s.tasks) max_tasks then s else record s {
  tasks =
      pop_all
        (first (length s.tasks - max_tasks)
          (sort_tasks (keep (is_prunable s.current) (values s.tasks))))
        s.tasks;
}

abbrev pub is_running_task : Option Task → Bool
is_running_task none = false
is_running_task (some t) = is_active t

-- Whether a backup is being created; an empty id counts as none.
unfoldable pub is_busy : Tasks → Bool
is_busy s = elim s.current [
  | none ↦ false
  | some [] ↦ false
  | some (c ∷ ident) ↦ is_running_task (Dict.get Text-discrete (c ∷ ident) s.tasks)
]

abbrev initial_message : Kind → Text
initial_message cache = codes "Cache-Backup wird vorbereitet …"
initial_message manager = codes "Manager-Backup wird vorbereitet …"

abbrev pub new_task : Text → Kind → ℕ → Task
new_task ident kind now = record {
  ident = ident;
  kind = kind;
  status = queued;
  stage = codes "queued";
  message = initial_message kind;
  created_at = now;
  started_at = none;
  finished_at = none;
  events = (now, initial_message kind) ∷ [];
  error = none;
  warned = none;
}

abbrev pub started : Text → Kind → ℕ → Tasks → Tasks
started ident kind now s = record {
  tasks = Dict.put Text-discrete ident (new_task ident kind now) s.tasks;
  current = some ident;
}

unfoldable pub parse_kind : Text → Option Kind
unfolding text_eq
parse_kind backup_type =
    if text_eq backup_type (codes "manager")
    then some manager
    else if text_eq backup_type (codes "cache")
    then some cache
    else none

-- `none` is a ValueError: a backup is being created, or the type is unknown.
unfoldable pub begin_task : Text → Text → ℕ → Tasks → Option Tasks
unfolding is_busy parse_kind prune
begin_task ident backup_type now s = if is_busy s then none else elim (parse_kind backup_type) [
  | none ↦ none
  | some kind ↦ some (prune (started ident kind now s))
]
