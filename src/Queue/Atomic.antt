-- ===== src/Queue/Atomic.antt =====
-- app/service.py, `queue_job_action`: its results, one constructor for each way that it ends.
use borg_backup_manager.Prelude.{
  ℕ, Bool, true, false, not, Option, none, some, if◌then◌else◌, ◌≡◌, refl,
}
use borg_backup_manager.Text.{Text}
use borg_backup_manager.Runs.{Action}
use borg_backup_manager.Chains.{Chains}
use borg_backup_manager.Queue.{
  Job, Row, Manager, Refusal, job_not_found, repository_disabled, job_busy, token_missing, Outcome,
  raised, answered, Probes, find_job, is_live_of_job, has_row, add_row, activate,
}
use borg_backup_manager.Queue.Actions.{
  Request, existing_confirmation, storage_refusal, command_for, job_row, register, enter,
  queue_command, queue_new, queue_for_job, queue_job_action,
}

module _ (p : Probes) (job_id : ℕ) (a : Action) (q : Request) (m : Manager) where
  -- The manager once the row of a new run is committed.
  abbrev pub committed : Job → Text → Manager
  committed job preview = add_row (job_row job a q preview) m

  -- What let a new run in.
  pub record IsAdmitted (job : Job) (preview : Text) : Type 0 where
    pub found : find_job job_id m ≡ some job
    pub enabled : job.target.enabled ≡ true
    pub not_busy : has_row (is_live_of_job job.ident) m.rows ≡ false
    pub storage : storage_refusal p job a ≡ none
    pub command : command_for p job a q.restore ≡ answered preview

  pub data IsResult : Manager × Outcome ℕ → Type 0 where
    refuses : (why : Refusal) → IsResult (m, raised why)
    reuses :
        (job : Job) (r : Row)
        → find_job job_id m ≡ some job
        → existing_confirmation m job a ≡ some r
        → IsResult (m, answered r.ident)
    enters :
        (job : Job) (preview : Text) (c : Chains)
        → IsAdmitted job preview
        → register p job q m.next_id m.chains ≡ some c
        → IsResult
            (activate m.next_id (record (committed job preview) { chains = c }), answered m.next_id)
    strays :
        (job : Job) (preview : Text)
        → IsAdmitted job preview
        → register p job q m.next_id m.chains ≡ none
        → IsResult (committed job preview, raised token_missing)

  enter-IsResult :
      (job : Job) (preview : Text)
      → IsAdmitted job preview
      → (o : Option Chains) → register p job q m.next_id m.chains ≡ o
      → IsResult (elim o [
        | none ↦ (committed job preview, raised token_missing)
        | some c ↦
            (activate m.next_id (record (committed job preview) { chains = c }), answered m.next_id)
      ])
  enter-IsResult job preview h none e = strays job preview h e
  enter-IsResult job preview h (some c) e = enters job preview c h e

  command-IsResult :
      (job : Job)
      → find_job job_id m ≡ some job
      → job.target.enabled ≡ true
      → has_row (is_live_of_job job.ident) m.rows ≡ false
      → storage_refusal p job a ≡ none
      → (o : Outcome Text) → command_for p job a q.restore ≡ o
      → IsResult (queue_command p job a q m o)
  unfolding queue_command enter add_row
  command-IsResult job f e b s (raised why) h = refuses why
  command-IsResult job f e b s (answered preview) h =
      enter-IsResult job preview
        (record { found = f; enabled = e; not_busy = b; storage = s; command = h })
        (register p job q m.next_id m.chains) refl

  storage-IsResult :
      (job : Job)
      → find_job job_id m ≡ some job
      → job.target.enabled ≡ true
      → has_row (is_live_of_job job.ident) m.rows ≡ false
      → (o : Option Refusal) → storage_refusal p job a ≡ o
      → IsResult (elim o [
        | some why ↦ (m, raised why)
        | none ↦ queue_command p job a q m (command_for p job a q.restore)
      ])
  storage-IsResult job f e b none s =
      command-IsResult job f e b s (command_for p job a q.restore) refl
  storage-IsResult job f e b (some why) s = refuses why

  busy-IsResult :
      (job : Job)
      → find_job job_id m ≡ some job
      → job.target.enabled ≡ true
      → (b : Bool) → has_row (is_live_of_job job.ident) m.rows ≡ b
      → IsResult (
          if b then (m, raised job_busy) else elim (storage_refusal p job a) [
            | some why ↦ (m, raised why)
            | none ↦ queue_command p job a q m (command_for p job a q.restore)
          ])
  busy-IsResult job f e true b = refuses job_busy
  busy-IsResult job f e false b = storage-IsResult job f e b (storage_refusal p job a) refl

  confirmation-IsResult :
      (job : Job)
      → find_job job_id m ≡ some job
      → job.target.enabled ≡ true
      → (o : Option Row) → existing_confirmation m job a ≡ o
      → IsResult (elim o [ some r ↦ (m, answered r.ident) | none ↦ queue_new p job a q m ])
  unfolding queue_new
  confirmation-IsResult job f e none c =
      busy-IsResult job f e (has_row (is_live_of_job job.ident) m.rows) refl
  confirmation-IsResult job f e (some r) c = reuses job r f c

  enabled-IsResult :
      (job : Job)
      → find_job job_id m ≡ some job
      → (b : Bool) → job.target.enabled ≡ b
      → IsResult (
          if not b then (m, raised repository_disabled) else elim (existing_confirmation m job a) [
            | some r ↦ (m, answered r.ident)
            | none ↦ queue_new p job a q m
          ])
  enabled-IsResult job f true e = confirmation-IsResult job f e (existing_confirmation m job a) refl
  enabled-IsResult job f false e = refuses repository_disabled

  job-IsResult :
      (o : Option Job)
      → find_job job_id m ≡ o
      → IsResult
          (elim o [ none ↦ (m, raised job_not_found) | some job ↦ queue_for_job p job a q m ])
  unfolding queue_for_job
  job-IsResult none f = refuses job_not_found
  job-IsResult (some job) f = enabled-IsResult job f job.target.enabled refl

  -- `queue_job_action` ends in one of four ways: it refuses and changes nothing; it answers an
  -- existing confirmation and changes nothing; for a job of an enabled repository that has no
  -- queued or running run, and whose storage and command raise no objection, it enters a new run
  -- with its chain; or, for such a job, it loses the new run because a chain to be reserved has no
  -- token.
  pub queue_job_action_lem : IsResult (queue_job_action p job_id a q m)
  unfolding queue_job_action
  queue_job_action_lem = job-IsResult (find_job job_id m) refl
