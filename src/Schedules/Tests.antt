-- ===== src/Schedules/Tests.antt =====
-- Runs and witnesses of the schedules of app/schedules.py.
use borg_backup_manager.Prelude.{
  Bool, ◌≤◌, some, none, refl, true, List, [], ◌∷◌, ◌≡◌, All, length, ◌==◌,
}
use borg_backup_manager.Text.{Text, codes}
use borg_backup_manager.Schedules.{by_hosts, by_jobs, Database, Place, schedule_assignments}
use borg_backup_manager.Schedules.Expressions.{schedule_expressions, normalize_schedule, words_from}
use borg_backup_manager.Schedules.Routes.{
  schedule_row, JobData, ScheduleData, create_job, create_backup_schedule,
}
use borg_backup_manager.Schedules.Reachable.{
  here, next, creates_job, creates_schedule, initial, one_schedule_per_job,
}
use borg_backup_manager.Schedules.RoundTrip.{normalize_reads_back}

abbrev five_fields : Text → Bool
five_fields t = length (words_from [] t) == 5

abbrev typed : Text
typed = codes "0 3  * * *; 30 4 * * 1 ;0 3 * * *"

abbrev normal : Text
normal = codes "0 3 * * *;30 4 * * 1"

normal_run : normalize_schedule five_fields (some typed) ≡ some (some normal)
unfolding normalize_schedule schedule_expressions
normal_run = refl

normalize_reads_back_example :
    (schedule_expressions five_fields (some normal) ≡ schedule_expressions five_fields (some typed))
    × (normalize_schedule five_fields (some normal) ≡ some (some normal))
normalize_reads_back_example = normalize_reads_back five_fields (some typed) normal normal_run

abbrev places : List Place
places = record { ident = 1; enabled = true } ∷ []

abbrev job_data : JobData
job_data = record { name = codes "home"; host_id = 1; repository_id = 1; enabled = true }

abbrev by_host : ScheduleData
by_host = record {
  name = codes "nightly";
  target_mode = by_hosts;
  target_host_ids = 1 ∷ [];
  target_repository_id = none;
  target_job_ids = [];
  enabled = true;
}

abbrev by_job : ScheduleData
by_job = record by_host { name = codes "weekly"; target_mode = by_jobs; target_job_ids = 1 ∷ [] }

abbrev with_job : Database
with_job = record (initial places places) {
  jobs =
      record { ident = 1; name = codes "home"; host_id = 1; repository_id = 1; enabled = true }
      ∷ [];
  reservations = 1 ∷ [];
}

abbrev scheduled : Database
scheduled = record with_job { schedules = schedule_row 1 by_host ∷ [] }

job_run : create_job job_data (initial places places) ≡ some with_job
unfolding create_job
job_run = refl

schedule_run : create_backup_schedule 1 by_host with_job ≡ some scheduled
unfolding create_backup_schedule
schedule_run = refl

-- A second schedule of the same job is refused.
refused_run : create_backup_schedule 2 by_job scheduled ≡ none
unfolding create_backup_schedule
refused_run = refl

one_schedule_per_job_example :
    All (λ j. length (schedule_assignments true scheduled j.ident) ≤ 1) scheduled.jobs
one_schedule_per_job_example = one_schedule_per_job places places scheduled (
    next (next here (creates_job job_data (initial places places) with_job job_run))
      (creates_schedule 1 by_host with_job scheduled refl schedule_run))
