-- ===== src/Runs.antt =====
-- The rows of app/models.py that the queue works on, and the keys of app/service.py by which runs
-- are grouped. What the operating system and the Unicode tables answer is a `Platform`.
use borg_backup_manager.Prelude.{
  ℕ, suc, Bool, ◌||◌, Option, none, some, List, [], ◌∷◌, ◌==◌, if◌then◌else◌, ℕ_discrete,
}
use borg_backup_manager.Text.{Text, strip, rstrip, is_space, any_of, non_empty}
use borg_backup_manager.Paths.{FilePath, str_path, matching_mount}

pub data Action : Type 0 where
  backup source_stats prune list list_all info check verify compact version probe restore : Action
  delete_archive rename_archive diff_archives confirm_location repository_init schedule : Action
  repository_test archive_refresh ssh_command : Action

pub data Status : Type 0 where
  queued running success warning failed cancelled : Status

pub data Trigger : Type 0 where
  manual scheduled : Trigger

-- The target that `storage_probe_target_from_location` reads from an external SSH location.
pub record ProbeTarget : Type 0 where
  pub host : Text
  pub port : ℕ
  pub username : Text

pub record Repository : Type 0 where
  pub ident : ℕ
  pub name : Text
  pub storage_path : Option Text
  pub location : Text
  pub probe_target : Option ProbeTarget
  pub external_storage_path : Option Text

pub record Run : Type 0 where
  pub ident : ℕ
  pub action : Action
  pub status : Status
  pub repository : Option Repository
  pub repository_id : Option ℕ
  pub trigger_type : Trigger
  pub schedule_id_snapshot : Option ℕ
  pub schedule_name_snapshot : Option Text
  pub schedule_parallel_limit_snapshot : ℕ

-- `Path(text).resolve(strict=False)`, where none is an OSError or a RuntimeError; `Path(text)`;
-- and `str.casefold`.
pub record Platform : Type 0 where
  pub resolve : Text → Option FilePath
  pub pure_path : Text → FilePath
  pub casefold : Text → Text

-- The text "managed:…", "external:…" or "repository-id:…".
pub data RepositoryKey : Type 0 where
  managed : Text → RepositoryKey
  external : Text → RepositoryKey
  repository_id : Option ℕ → RepositoryKey

unfoldable pub RepositoryKey-discrete : Discrete RepositoryKey
unfolding ℕ_discrete
RepositoryKey-discrete = hlevel ℕ_discrete

-- The path of a managed mount, or the text "external:…" of a remote filesystem.
pub data MountKey : Type 0 where
  local_mount : FilePath → MountKey
  remote_mount : (username host : Text) (port : ℕ) (mount : Text) → MountKey

unfoldable pub MountKey-discrete : Discrete MountKey
unfolding ℕ_discrete
MountKey-discrete = hlevel ℕ_discrete

-- The text "schedule-id:…" or "schedule-name:…".
pub data ScheduleKey : Type 0 where
  schedule_id : ℕ → ScheduleKey
  schedule_name : Text → ScheduleKey

unfoldable pub ScheduleKey-discrete : Discrete ScheduleKey
unfolding ℕ_discrete
ScheduleKey-discrete = hlevel ℕ_discrete

abbrev is_slash : ℕ → Bool
is_slash c = c == b'/'

external_key : ℕ → Text → RepositoryKey
external_key ident [] = repository_id (some ident)
external_key ident (c ∷ location) = external (c ∷ location)

managed_key : Platform → Text → RepositoryKey
managed_key os path = elim (os.resolve path) [
  | none ↦ managed (strip is_space path)
  | some target ↦ managed (str_path target)
]

-- `_repository_execution_key`
unfoldable pub repository_execution_key : Platform → Option Repository → Option ℕ → RepositoryKey
unfolding external_key managed_key strip rstrip is_space str_path
repository_execution_key os none ident = repository_id ident
repository_execution_key os (some r) ident = elim (non_empty r.storage_path) [
  | some path ↦ managed_key os path
  | none ↦ external_key r.ident (rstrip is_slash (strip is_space r.location))
]

-- `any(char in mount for char in "\x00\r\n")`
abbrev is_line_break : ℕ → Bool
is_line_break c = c == 0 || (c == 13 || c == 10)

external_identity : Platform → Option ProbeTarget → Text → Option MountKey
external_identity os none mount = none
external_identity os (some target) [] = none
external_identity os (some target) (c ∷ mount) =
    if any_of is_line_break (c ∷ mount)
    then none
    else some (remote_mount target.username (os.casefold target.host) target.port (c ∷ mount))

-- `external_filesystem_parallel_identity`
unfoldable pub external_filesystem_parallel_identity :
    Platform → Option ProbeTarget → Option Text → Option MountKey
unfolding external_identity strip is_space any_of
external_filesystem_parallel_identity os target none = none
external_filesystem_parallel_identity os target (some mount) =
    external_identity os target (strip is_space mount)

local_key : Option FilePath → Option MountKey
local_key none = none
local_key (some mount) = some (local_mount mount)

-- `repository_mount_path` with the mounts given.
unfoldable pub repository_mount_path : Platform → List FilePath → Text → Option FilePath
unfolding matching_mount
repository_mount_path os mounts path = elim (os.resolve path) [
  | none ↦ matching_mount (os.pure_path path) mounts
  | some target ↦ matching_mount target mounts
]

-- `_repository_mount_key`
unfoldable pub repository_mount_key : Platform → List FilePath → Option Repository → Option MountKey
unfolding local_key repository_mount_path external_filesystem_parallel_identity
repository_mount_key os mounts none = none
repository_mount_key os mounts (some r) = elim (non_empty r.storage_path) [
  | some path ↦ local_key (repository_mount_path os mounts path)
  | none ↦ external_filesystem_parallel_identity os r.probe_target r.external_storage_path
]

name_key : Text → Option ScheduleKey
name_key [] = none
name_key (c ∷ name) = some (schedule_name (c ∷ name))

abbrev text_or_empty : Option Text → Text
text_or_empty none = []
text_or_empty (some t) = t

-- `if run.schedule_id_snapshot: … else …`
id_or_name : Platform → Option ℕ → Option Text → Option ScheduleKey
unfolding name_key strip is_space
id_or_name os (some (suc n)) name = some (schedule_id (suc n))
id_or_name os _ name = name_key (os.casefold (strip is_space (text_or_empty name)))

key_of_trigger : Platform → Trigger → Run → Option ScheduleKey
unfolding id_or_name
key_of_trigger os scheduled run = id_or_name os run.schedule_id_snapshot run.schedule_name_snapshot
key_of_trigger os manual run = none

-- `_run_schedule_key`
unfoldable pub run_schedule_key : Platform → Run → Option ScheduleKey
unfolding key_of_trigger
run_schedule_key os run = key_of_trigger os run.trigger_type run
