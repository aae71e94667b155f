-- ===== src/Queue/Inserts.antt =====
-- app/service.py: the archive refreshes, the initialisations and the SSH actions that are put into the
-- queue without a job, and the set of repositories that are being initialised.
use borg_backup_manager.Prelude.{
  ℕ, Bool, true, false, ◌&&◌, not, Option, none, some, [], ◌∷◌, ◌++◌, ◌==◌, if◌then◌else◌, keep,
  contains, ℕ_discrete,
}
use borg_backup_manager.Text.{Text, codes, take, non_empty}
use borg_backup_manager.Dict
use borg_backup_manager.Dict.{Dict}
use borg_backup_manager.Runs.{Action, archive_refresh, repository_init, ssh_command, queued, manual}
use borg_backup_manager.Queue.{
  Target, Row, Manager, Refusal, repository_not_found, repository_disabled, command_error,
  initialization_running, state_stale, already_initialized, not_initializable, ssh_action_not_found,
  ssh_action_disabled, host_disabled, host_unconfirmed, Outcome, raised, answered, Probes, add_row,
  activate,
}
use borg_backup_manager.Queue.Control.{target_refusal}

-- A queued run without a job, that no schedule starts.
unfoldable pub plain_row : Option Text → Option ℕ → Action → Text → ℕ → Row
plain_row name repository_id action preview ident = record {
  ident = ident;
  job_id = none;
  job_name_snapshot = name;
  repository_id = repository_id;
  action = action;
  status = queued;
  error = [];
  command_preview = preview;
  trigger_type = manual;
  schedule_name_snapshot = none;
  schedule_id_snapshot = none;
  schedule_parallel_limit_snapshot = 0;
}

-- `db.add(run)`, `db.commit()` and the new task.
unfoldable pub start_row : (ℕ → Row) → Manager → Manager × Outcome ℕ
unfolding add_row activate
start_row row m = (activate m.next_id (add_row row m), answered m.next_id)

-- `" · anschließend borg list --consider-checkpoints" if consider_checkpoints else ""`
abbrev checkpoints_note : Bool → Text
checkpoints_note true = codes " · anschließend borg list --consider-checkpoints"
checkpoints_note false = []

unfoldable pub refresh_target : Probes → ℕ → Target → Bool → Manager → Manager × Outcome ℕ
unfolding target_refusal plain_row start_row take
refresh_target p ident target checkpoints m =
    elim (target_refusal p ident target archive_refresh m) [
      | some why ↦ (m, raised why)
      | none ↦ elim (p.repository_command target archive_refresh) [
        | none ↦ (m, raised command_error)
        | some preview ↦
            start_row
              (plain_row (some (take 100 (codes "Archivliste: " ++ target.repository.name)))
                (some ident) archive_refresh (preview ++ checkpoints_note checkpoints))
              m
      ]
    ]

-- `queue_repository_archive_refresh`
unfoldable pub queue_repository_archive_refresh : Probes → ℕ → Bool → Manager → Manager × Outcome ℕ
unfolding refresh_target Dict.get
queue_repository_archive_refresh p ident checkpoints m =
    elim (Dict.get ℕ_discrete ident m.targets) [
      | none ↦ (m, raised repository_not_found)
      | some target ↦ refresh_target p ident target checkpoints m
    ]

abbrev is_managed : Target → Bool
is_managed target = elim (non_empty target.repository.storage_path) [
  | none ↦ false
  | some path ↦ true
]

-- The tests of `queue_repository_init` on the row, and its command.
unfoldable pub init_command : Probes → Option Target → Outcome Text
init_command p none = raised repository_not_found
init_command p (some target) =
    if not target.enabled
    then raised repository_disabled
    else if target.initialized
    then if is_managed target && not (p.managed_present target.repository)
      then raised state_stale
      else raised already_initialized
    else if not (p.initializable target.repository)
    then raised not_initializable
    else elim (p.repository_command target repository_init) [
      | none ↦ raised command_error
      | some preview ↦ answered preview
    ]

-- `_initializing_repositories.add` and `.discard`
unfoldable pub add_initializing : ℕ → Manager → Manager
add_initializing ident m = record m {
  initializing = ident ∷ keep (λ k. not (k == ident)) m.initializing;
}

unfoldable pub discard_initializing : ℕ → Manager → Manager
discard_initializing ident m = record m {
  initializing = keep (λ k. not (k == ident)) m.initializing;
}

unfoldable pub init_queued : ℕ → Manager → Outcome Text → Manager × Outcome ℕ
unfolding plain_row start_row discard_initializing
init_queued ident m (raised why) = (discard_initializing ident m, raised why)
init_queued ident m (answered preview) =
    start_row (plain_row none (some ident) repository_init preview) m

-- `queue_repository_init`
unfoldable pub queue_repository_init : Probes → ℕ → Manager → Manager × Outcome ℕ
unfolding init_command init_queued add_initializing Dict.get
queue_repository_init p ident m =
    if contains ident m.initializing
    then (m, raised initialization_running)
    else init_queued ident (add_initializing ident m)
        (init_command p (Dict.get ℕ_discrete ident m.targets))

-- The columns of a saved SSH action and of its host that `queue_host_ssh_action` reads.
pub record SavedAction : Type 0 where
  pub name : Text
  pub enabled : Bool

pub record HostRow : Type 0 where
  pub name : Text
  pub enabled : Bool
  pub host_key : Option Text

unfoldable pub ssh_refusal : SavedAction → Option HostRow → Option Refusal
ssh_refusal a none = if not a.enabled then some ssh_action_disabled else some host_disabled
ssh_refusal a (some host) =
    if not a.enabled
    then some ssh_action_disabled
    else if not host.enabled
    then some host_disabled
    else elim (non_empty host.host_key) [ none ↦ some host_unconfirmed | some key ↦ none ]

abbrev host_name : Option HostRow → Text
host_name none = []
host_name (some host) = host.name

-- `queue_host_ssh_action`, with the answers of `get_host_ssh_action` and of the database, and
-- whether `host_ssh_action_command` builds a command or raises.
unfoldable pub queue_host_ssh_action :
    Option SavedAction → Option HostRow → Bool → Manager → Manager × Outcome ℕ
unfolding ssh_refusal plain_row start_row take
queue_host_ssh_action none host builds m = (m, raised ssh_action_not_found)
queue_host_ssh_action (some a) host builds m = elim (ssh_refusal a host) [
  | some why ↦ (m, raised why)
  | none ↦
      if builds
      then start_row
          (plain_row (some (take 100 (host_name host ++ codes " · " ++ a.name))) none ssh_command
            (codes "Gespeicherte SSH-Aktion: " ++ a.name ++ codes " · Gerät: " ++ host_name host))
          m
      else (m, raised command_error)
]
