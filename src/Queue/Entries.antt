-- ===== src/Queue/Entries.antt =====
-- app/service.py: the functions that put a run into the queue leave a job at most one live run.
use borg_backup_manager.Prelude.{
  Bool-cases, Bool, contains, ℕ, true, false, Option, none, some, List, ◌≡◌, refl, arith, subst,
  ℕ_discrete, inl, inr,
}
use borg_backup_manager.Text.{Text}
use borg_backup_manager.Runs.{archive_refresh, repository_init, Action}
use borg_backup_manager.Queue.{
  Target, Row, Manager, Outcome, raised, answered, Probes, holds, is_live_of_job, has_row, add_row,
  activate,
}
use borg_backup_manager.Queue.Actions.{Request, job_row}
use borg_backup_manager.Queue.Atomic.{IsResult, refuses, reuses, enters, strays}
use borg_backup_manager.BackupTasks.Tidy.{found_cases}
use borg_backup_manager.Dict
use borg_backup_manager.Queue.Control.{
  target_refusal, repository_preview, queue_for_target, queue_preview, queue_repository_action,
  repository_row, queue_for_target, queue_preview,
}
use borg_backup_manager.Queue.Inserts.{
  plain_row, start_row, refresh_target, queue_repository_archive_refresh, init_command, init_queued,
  queue_repository_init, add_initializing, discard_initializing, SavedAction, HostRow, ssh_refusal,
  queue_host_ssh_action,
}
use borg_backup_manager.Queue.Rows.{live_runs, IsAlone, no_row, add_row-IsAlone, same_rows}

job_row_alone :
    (job_id : ℕ) (rows : List Row) (row : Row)
    → row.job_id ≡ some job_id
    → has_row (is_live_of_job job_id) rows ≡ false
    → (job : ℕ) → is_live_of_job job row ≡ true
    → live_runs job rows ≡ 0
unfolding is_live_of_job holds
job_row_alone job_id rows row e b job h =
    subst (λ i. live_runs i rows ≡ 0) (ground (arith, h, e)) (no_row (is_live_of_job job_id) rows b)

pub result-IsAlone :
    (p : Probes) (job_id : ℕ) (a : Action) (q : Request) (m : Manager)
    → IsAlone m
    → (x : Manager × Outcome ℕ) → IsResult p job_id a q m x
    → IsAlone x.0
unfolding job_row activate
result-IsAlone p job_id a q m h x (refuses why) = h
result-IsAlone p job_id a q m h x (reuses job r f c) = h
result-IsAlone p job_id a q m h x (enters job preview c i g) =
    same_rows (add_row (job_row job a q preview) m) _ refl refl (
      add_row-IsAlone (job_row job a q preview) m refl
        (job_row_alone job.ident m.rows (job_row job a q preview m.next_id) refl i.not_busy) h)
result-IsAlone p job_id a q m h x (strays job preview i g) =
    add_row-IsAlone (job_row job a q preview) m refl
      (job_row_alone job.ident m.rows (job_row job a q preview m.next_id) refl i.not_busy) h

-- A run without a job is live for none.
pub jobless :
    (row : Row) (rows : List Row)
    → row.job_id ≡ none
    → (job : ℕ) → is_live_of_job job row ≡ true
    → live_runs job rows ≡ 0
unfolding is_live_of_job holds
jobless row rows e job h = ground (arith, e, h)

preview-IsAlone :
    (ident : ℕ) (target : Target) (a : Action) (subject : Option Text) (m : Manager)
    → IsAlone m
    → (o : Outcome Text) → IsAlone (queue_preview ident target a subject m o).0
unfolding queue_preview activate repository_row
preview-IsAlone ident target a subject m h (raised why) = h
preview-IsAlone ident target a subject m h (answered preview) =
    let row : ℕ → Row = repository_row ident target a subject preview in
    same_rows (add_row row m) _ refl refl
      (add_row-IsAlone row m refl (jobless (row m.next_id) m.rows refl) h)

queue_for_target-IsAlone :
    (p : Probes) (ident : ℕ) (target : Target) (a : Action) (subject : Option Text) (m : Manager)
    → IsAlone m
    → IsAlone (queue_for_target p ident target a subject m).0
unfolding queue_for_target
queue_for_target-IsAlone p ident target a subject m h =
    elim (found_cases (target_refusal p ident target a m)) [
      | inl e ↦
          rw (e, queue_for_target)
            (preview-IsAlone ident target a subject m h (repository_preview p target a))
      | inr (why, e) ↦ rw (e, queue_for_target) h
    ]

pub queue_repository-IsAlone :
    (p : Probes) (ident : ℕ) (a : Action) (subject : Option Text) (m : Manager)
    → IsAlone m
    → IsAlone (queue_repository_action p ident a subject m).0
unfolding queue_repository_action queue_for_target queue_preview
queue_repository-IsAlone p ident a subject m h =
    elim (found_cases (Dict.get ℕ_discrete ident m.targets)) [
      | inl e ↦ rw (e, queue_repository_action) h
      | inr (target, e) ↦
          rw (e, queue_repository_action) (queue_for_target-IsAlone p ident target a subject m h)
    ]

start-IsAlone :
    (row : ℕ → Row) (m : Manager)
    → (row m.next_id).ident ≡ m.next_id
    → (row m.next_id).job_id ≡ none
    → IsAlone m
    → IsAlone (start_row row m).0
unfolding start_row activate
start-IsAlone row m e f h =
    same_rows (add_row row m) _ refl refl
      (add_row-IsAlone row m e (jobless (row m.next_id) m.rows f) h)

plain-IsAlone :
    (name : Option Text) (ident : Option ℕ) (a : Action) (preview : Text) (m : Manager)
    → IsAlone m
    → IsAlone (start_row (plain_row name ident a preview) m).0
unfolding plain_row
plain-IsAlone name ident a preview m h =
    start-IsAlone (plain_row name ident a preview) m refl refl h

refresh_target-IsAlone :
    (p : Probes) (ident : ℕ) (target : Target) (b : Bool) (m : Manager)
    → IsAlone m
    → IsAlone (refresh_target p ident target b m).0
unfolding refresh_target
refresh_target-IsAlone p ident target b m h =
    elim (found_cases (target_refusal p ident target archive_refresh m)) [
      | inl e ↦ elim (found_cases (p.repository_command target archive_refresh)) [
        | inl k ↦ rw (e, k, refresh_target) h
        | inr (preview, k) ↦ rw (e, k, refresh_target) (plain-IsAlone _ _ _ _ m h)
      ]
      | inr (why, e) ↦ rw (e, refresh_target) h
    ]

pub refresh_archives-IsAlone :
    (p : Probes) (ident : ℕ) (b : Bool) (m : Manager)
    → IsAlone m
    → IsAlone (queue_repository_archive_refresh p ident b m).0
unfolding queue_repository_archive_refresh
refresh_archives-IsAlone p ident b m h = elim (found_cases (Dict.get ℕ_discrete ident m.targets)) [
  | inl e ↦ rw (e, queue_repository_archive_refresh) h
  | inr (target, e) ↦
      rw (e, queue_repository_archive_refresh) (refresh_target-IsAlone p ident target b m h)
]

init_queued-IsAlone :
    (ident : ℕ) (m : Manager) (o : Outcome Text) → IsAlone m → IsAlone (init_queued ident m o).0
unfolding init_queued discard_initializing
init_queued-IsAlone ident m (raised why) h = same_rows m _ refl refl h
init_queued-IsAlone ident m (answered preview) h =
    plain-IsAlone none (some ident) repository_init preview m h

pub init-IsAlone :
    (p : Probes) (ident : ℕ) (m : Manager) → IsAlone m → IsAlone (queue_repository_init p ident m).0
unfolding queue_repository_init add_initializing
init-IsAlone p ident m h = elim (Bool-cases (contains ident m.initializing)) [
  | inl e ↦ rw (e, queue_repository_init) h
  | inr e ↦
      rw (e, queue_repository_init)
        (init_queued-IsAlone ident (add_initializing ident m)
          (init_command p (Dict.get ℕ_discrete ident m.targets)) (same_rows m _ refl refl h))
]

pub ssh-IsAlone :
    (a : Option SavedAction) (host : Option HostRow) (b : Bool) (m : Manager)
    → IsAlone m
    → IsAlone (queue_host_ssh_action a host b m).0
unfolding queue_host_ssh_action
ssh-IsAlone none host b m h = h
ssh-IsAlone (some a) host b m h = elim (found_cases (ssh_refusal a host)) [
  | inl e ↦ elim (Bool-cases b) [
    | inl k ↦ rw (e, k, queue_host_ssh_action) (plain-IsAlone _ _ _ _ m h)
    | inr k ↦ rw (e, k, queue_host_ssh_action) h
  ]
  | inr (why, e) ↦ rw (e, queue_host_ssh_action) h
]
