-- ===== src/Queue/Alone.antt =====
-- app/service.py: a job has at most one queued or running run, and every run has its own id.
use borg_backup_manager.Prelude.{
  ℕ, true, false, List, ◌<◌, ◌≡◌, refl, arith, All-keep, keep-Unique, length-keep-kept,
}
use borg_backup_manager.Text.{Text}
use borg_backup_manager.Runs.{Status}
use borg_backup_manager.Queue.{find_job, Row, Manager, is_live, holds, is_terminal, is_live_of_job}
use borg_backup_manager.Queue.Atomic.{queue_job_action_lem}
use borg_backup_manager.Queue.Control.{
  execute_begins, execute_ends, recover_row, recover_interrupted_runs,
}
use borg_backup_manager.Queue.Groups.{Group, record_schedule_error, error_row}
use borg_backup_manager.Queue.Compaction.{GroupSettings, scheduled_backup_group}
use borg_backup_manager.Queue.Histories.{group-Reach}
use borg_backup_manager.Queue.Inserts.{discard_initializing}
use borg_backup_manager.Queue.Manual.{World, release}
use borg_backup_manager.Queue.Steps.{
  refreshes_archives, initializes, ends_initialization, runs_ssh, claim_row, end_row, Step, queues,
  queues_repository, records_error, inserts, claims, ends, begins_task, ends_task, recovers,
  releases, edits, deletes, Reach, here, next,
}
use borg_backup_manager.Queue.Rows.{IsAlone, add_row-IsAlone, same_rows, map-IsAlone}
use borg_backup_manager.Queue.Entries.{
  result-IsAlone, queue_repository-IsAlone, refresh_archives-IsAlone, init-IsAlone, ssh-IsAlone,
  jobless,
}

error-IsAlone :
    (g : Group) (job_id : ℕ) (message : Text) (m : Manager)
    → IsAlone m
    → IsAlone (record_schedule_error g job_id message m).0
unfolding record_schedule_error error_row is_live_of_job is_live
error-IsAlone g job_id message m h =
    add_row-IsAlone (error_row g (find_job job_id m) message) m refl (λ job e. ground (arith, e)) h

claim_live :
    (n job : ℕ) (r : Row) → is_live_of_job job (claim_row n r) ≡ true → is_live_of_job job r ≡ true
unfolding claim_row is_live_of_job is_live holds
claim_live n job r h = ground (arith, h)

claim_ident : (n : ℕ) (r : Row) → (claim_row n r).ident ≡ r.ident
unfolding claim_row
claim_ident n r = ground arith

terminal_dead : (s : Status) → is_terminal s ≡ true → is_live s ≡ false
unfolding is_terminal is_live
terminal_dead s h = ground (arith, h)

end_live :
    (n : ℕ) (s : Status) (error : Text)
    → is_terminal s ≡ true
    → (job : ℕ) (r : Row) → is_live_of_job job (end_row n s error r) ≡ true
    → is_live_of_job job r ≡ true
unfolding end_row is_live_of_job
end_live n s error t job r h = ground (arith, h, terminal_dead s t)

end_ident : (n : ℕ) (s : Status) (error : Text) (r : Row) → (end_row n s error r).ident ≡ r.ident
unfolding end_row
end_ident n s error r = ground arith

recover_live :
    (job : ℕ) (r : Row) → is_live_of_job job (recover_row r) ≡ true → is_live_of_job job r ≡ true
unfolding recover_row is_live_of_job is_live
recover_live job r h = ground (arith, h)

recover_ident : (r : Row) → (recover_row r).ident ≡ r.ident
unfolding recover_row
recover_ident r = ground arith

pub step-IsAlone : {m n : Manager} → Step m n → IsAlone m → IsAlone n
unfolding recover_interrupted_runs execute_begins execute_ends release discard_initializing
step-IsAlone (queues p job_id a q m) h =
    result-IsAlone p job_id a q m h _ (queue_job_action_lem p job_id a q m)
step-IsAlone (queues_repository p ident a subject m) h =
    queue_repository-IsAlone p ident a subject m h
step-IsAlone (refreshes_archives p ident b m) h = refresh_archives-IsAlone p ident b m h
step-IsAlone (initializes p ident m) h = init-IsAlone p ident m h
step-IsAlone (ends_initialization ident m) h = same_rows m _ refl refl h
step-IsAlone (runs_ssh a host b m) h = ssh-IsAlone a host b m h
step-IsAlone (records_error g job_id message m) h = error-IsAlone g job_id message m h
step-IsAlone (inserts row m f) h =
    add_row-IsAlone row m (f m.next_id).0 (jobless (row m.next_id) m.rows (f m.next_id).1) h
step-IsAlone (claims n m) h = map-IsAlone (claim_row n) m (claim_ident n) (claim_live n) h
step-IsAlone (ends n s error m t) h =
    map-IsAlone (end_row n s error) m (end_ident n s error) (end_live n s error t) h
step-IsAlone (begins_task n m) h = same_rows m _ refl refl h
step-IsAlone (ends_task n is_current m) h = same_rows m _ refl refl h
step-IsAlone (recovers m) h = map-IsAlone recover_row m recover_ident recover_live h
step-IsAlone (releases token m) h = same_rows m _ refl refl h
step-IsAlone (edits jobs targets chains m) h = same_rows m _ refl refl h
step-IsAlone (deletes p m) h = record {
  below = All-keep (λ r. r.ident < m.next_id) p m.rows h.below;
  distinct = keep-Unique (λ r. r.ident) p m.rows h.distinct;
  alone = λ job. omega (arith, h.alone job, length-keep-kept (is_live_of_job job) p m.rows);
}

-- In every history of the queue that begins with distinct ids below the next id, and with at most
-- one queued or running run for each job, no job gets a second one, and the ids stay distinct.
pub Reach-IsAlone : {m n : Manager} → Reach m n → IsAlone m → IsAlone n
Reach-IsAlone here h = h
Reach-IsAlone (next r s) h = step-IsAlone s (Reach-IsAlone r h)

-- From a state with distinct ids below the next id and at most one queued or running run for each
-- job, a scheduled group leaves every job with at most one queued or running run, if all that the
-- other tasks do while it awaits is a history of the queue.
pub group-IsAlone :
    (w : World) (g : Group) (s : GroupSettings) (job_ids : List ℕ) (m : Manager)
    → ((n : Manager) → Reach n (w.meanwhile n))
    → IsAlone m
    → IsAlone (scheduled_backup_group w g s job_ids m).0
group-IsAlone w g s job_ids m others = Reach-IsAlone (group-Reach w others g s job_ids m)
