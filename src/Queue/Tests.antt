-- ===== src/Queue/Tests.antt =====
-- A run queue of app/service.py with one job on one repository.
use borg_backup_manager.Runs.{prune, failed, success}
use borg_backup_manager.Prelude.{
  leb, if◌then◌else◌, List, ℕ_discrete, ◌≡◌, some, [], ◌∷◌, refl, map, true,
}
use borg_backup_manager.Dict
use borg_backup_manager.Dict.Keys.{Distinct}
use borg_backup_manager.Queue.{find_row, Status, run_not_found, is_terminal, is_usable}
use borg_backup_manager.Queue.{repository_not_found}
use borg_backup_manager.Queue.Inserts.{queue_repository_init, init_queued}
use borg_backup_manager.Queue.Initializing.{initialization_guarded}
use borg_backup_manager.Queue.Steps.{Reach, end_row, ends}
use borg_backup_manager.Queue.Histories.{then_Reach}
use borg_backup_manager.Queue.Manual.{finish_manual_backup_chain, retry_run}
use borg_backup_manager.Queue.Groups.{awaited, queue_prunes, statuses_of, queue_backups}
use borg_backup_manager.Queue.Compaction.{scheduled_backup_group}
use borg_backup_manager.Queue.Alone.{group-IsAlone}
use borg_backup_manager.Queue.Report.{IsCompactable, scheduled_backup_group_compacts}
use borg_backup_manager.Queue.Waiting.{polled, wait_for_run, IsFirst, wait_for_run_ends}
use borg_backup_manager.Queue.Release.{IsFree, finish-IsFree}
use borg_backup_manager.Queue.Atomic.{IsResult, queue_job_action_lem}
use borg_backup_manager.Queue.Unchanged.{retry_unchanged}
use borg_backup_manager.Prelude.{ℕ, true, some, none, [], ◌∷◌, arith, ◌≤◌}
use borg_backup_manager.Text.{codes}
use borg_backup_manager.Chains.History.{idle}
use borg_backup_manager.Runs.{success, backup, Platform}
use borg_backup_manager.Queue.{Manager, Job, Target, Probes, rules, whole, not_guarded}
use borg_backup_manager.Queue.Actions.{queue_job_action}
use borg_backup_manager.Queue.Manual.{World, plain}
use borg_backup_manager.Queue.Groups.{Group}
use borg_backup_manager.Queue.Compaction.{GroupSettings}
use borg_backup_manager.Queue.Rows.{IsAlone, live_runs}
use borg_backup_manager.Queue.Alone.{Reach-IsAlone}
use borg_backup_manager.Queue.Steps.{here, next, queues}

abbrev posix : Platform
posix = record { resolve = λ t. none; pure_path = λ t. []; casefold = λ t. t }

abbrev target : Target
target = record {
  repository = record {
    ident = 5;
    name = codes "vault";
    storage_path = none;
    location = codes "ssh://vault/repo";
    probe_target = none;
    external_storage_path = none;
  };
  enabled = true;
  initialized = true;
}

abbrev job : ℕ → Job
job n = record {
  ident = n;
  name = codes "home";
  host_id = 2;
  target = target;
  prune_options = rules (whole 7 ∷ []);
  manual_prune_after_backup = true;
  manual_compact_after_prune = true;
}

abbrev base : Manager
base = record {
  jobs = job 3 ∷ job 4 ∷ [];
  targets = (5, target) ∷ [];
  rows = [];
  next_id = 1;
  chains = idle;
  active = [];
  executing = [];
  initializing = [];
}

abbrev probes : Probes
probes = record {
  platform = posix;
  managed_present = λ r. true;
  access_ready = λ h r. true;
  storage_status = λ r. not_guarded;
  job_command = λ j a. some (codes "borg");
  repository_command = λ t a. some (codes "borg");
  initializable = λ r. true;
  message = λ why. [];
}

abbrev calm : World
calm = record {
  probes = λ m. probes;
  meanwhile = λ m. m;
  ended = λ m n. success;
  size_after_run = true;
}

abbrev nightly : Group
nightly = record {
  schedule_name = some (codes "nightly");
  schedule_id = some 1;
  schedule_parallel_limit = 0;
}

abbrev settings : GroupSettings
settings = record { compact_after_prune = true; repository_size_after_run = true }

base-IsAlone : IsAlone base
base-IsAlone = record { below = tt; distinct = tt; alone = λ job. omega arith }

Reach-IsAlone_example : live_runs 3 (queue_job_action probes 3 backup plain base).0.rows ≤ 1
Reach-IsAlone_example =
    (Reach-IsAlone (next here (queues probes 3 backup plain base)) base-IsAlone).alone 3

ended_runs : List ℕ → Manager → Manager
unfolding end_row
ended_runs [] m = m
ended_runs (n ∷ ns) m = ended_runs ns (record m { rows = map (end_row n success []) m.rows })

ended-Reach : (ns : List ℕ) (m : Manager) → Reach m (ended_runs ns m)
unfolding ended_runs is_terminal
ended-Reach [] m = here
ended-Reach (n ∷ ns) m =
    then_Reach (next here (ends n success [] m refl))
      (ended-Reach ns (record m { rows = map (end_row n success []) m.rows }))

-- While a coroutine awaits, the first five runs end.
abbrev busy : World
unfolding ended_runs
busy = record {
  probes = λ m. probes;
  meanwhile = ended_runs (1 ∷ 2 ∷ 3 ∷ 4 ∷ 5 ∷ []);
  ended = λ m n. success;
  size_after_run = true;
}

group-IsAlone_example :
    live_runs 3 (scheduled_backup_group busy nightly settings (3 ∷ 4 ∷ []) base).0.rows ≤ 1
unfolding busy ended_runs
group-IsAlone_example =
    (group-IsAlone busy nightly settings (3 ∷ 4 ∷ []) base (ended-Reach (1 ∷ 2 ∷ 3 ∷ 4 ∷ 5 ∷ []))
        base-IsAlone).alone
      3

scheduled_backup_group_compacts_example :
    IsCompactable busy nightly settings (3 ∷ 4 ∷ []) base 5 3
    × Distinct ℕ_discrete (scheduled_backup_group busy nightly settings (3 ∷ 4 ∷ []) base).1.turns
unfolding scheduled_backup_group queue_prunes statuses_of queue_backups queue_job_action busy
    Dict.put ℕ_discrete is_usable awaited
scheduled_backup_group_compacts_example =
    scheduled_backup_group_compacts busy nightly settings (3 ∷ 4 ∷ []) base 5 3 refl

-- A database in which the run 1 is gone from the third poll on.
abbrev vanishing : ℕ → Manager
vanishing t = if leb t 1 then (queue_job_action probes 3 backup plain base).0 else base

wait_for_run_ends_example :
    (a : Status) × ((wait_for_run 4 1 vanishing 0 ≡ some a) × IsFirst 1 vanishing 0 a)
unfolding polled find_row
wait_for_run_ends_example = wait_for_run_ends 4 1 vanishing 2 failed refl (omega arith)

finish-IsFree_example :
    IsFree
      (codes "manual-3")
      (finish_manual_backup_chain calm 3 1 (codes "manual-3") true base).0.chains
    × ((finish_manual_backup_chain calm 3 1 (codes "manual-3") true base).1.changed ≡ true)
unfolding is_usable
finish-IsFree_example = finish-IsFree (codes "manual-3") calm 3 1 true base (λ n h. h)

queue_job_action_lem_example :
    IsResult probes 3 prune plain base (queue_job_action probes 3 prune plain base)
queue_job_action_lem_example = queue_job_action_lem probes 3 prune plain base

retry_unchanged_example : (retry_run probes (codes "manual-3") 7 base).0 ≡ base
unfolding retry_run
retry_unchanged_example = retry_unchanged probes 109 (codes "anual-3") 7 base run_not_found refl

initialization_guarded_example : (queue_repository_init probes 9 base).0 ≡ base
unfolding queue_repository_init init_queued ℕ_discrete
initialization_guarded_example =
    (initialization_guarded probes probes 9 base).0 repository_not_found refl
