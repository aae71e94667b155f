-- ===== src/Schedules/Reachable.antt =====
-- app/schedules.py and app/main.py: in every reachable database a job has one enabled schedule at most.
use borg_backup_manager.Prelude.{
  ap, not, ◌||◌, ◌&&◌, keep-keep, length-keep-fewer, All_always, unkept_keys, ◌∙◌, All_and, sym,
  All_imp, Unique, ◌≤◌, refl, arith, true, ◌∷◌, some, [], ◌≡◌, Bool, false, map, List, ℕ, All, keep,
  length, contains,
}
use borg_backup_manager.Schedules.{
  any_row, Place, Job, Schedule, Database, insert_schedule, sort_schedules, schedule_assignments,
  schedule_target_job_ids, is_target,
}
use borg_backup_manager.Schedules.Routes.{
  delete_repository, set_job_enabled, ScheduleData, JobData, create_backup_schedule,
  update_backup_schedule, delete_backup_schedule, create_job, update_job, delete_job, delete_host,
}
use borg_backup_manager.Schedules.Exclusive.{All_every, is_assigned, contains-sort_ids}
use borg_backup_manager.Schedules.History.{
  IsJoined, IsSingle, IsExclusive, create_backup_schedule-IsExclusive,
  update_backup_schedule-IsExclusive, delete_backup_schedule-IsExclusive,
}
use borg_backup_manager.Schedules.JobHistory.{create_job-IsExclusive, update_job-IsExclusive}
use borg_backup_manager.Schedules.Retirement.{
  delete_repository-IsExclusive, set_job_enabled-IsExclusive,
}
use borg_backup_manager.Schedules.Removal.{delete_job-IsExclusive, delete_host-IsExclusive}

-- A new schedule has an id that no other has. Hosts and repositories are added, and runs are queued
-- and removed, at any time.
pub data Step : Database → Database → Type 0 where
  creates_schedule :
      (ident : ℕ) (input : ScheduleData) (db e : Database)
      → contains ident (map (λ s. s.ident) db.schedules) ≡ false
      → create_backup_schedule ident input db ≡ some e
      → Step db e
  updates_schedule :
      (ident : ℕ) (input : ScheduleData) (db e : Database)
      → update_backup_schedule ident input db ≡ some e
      → Step db e
  deletes_schedule :
      (ident : ℕ) (db e : Database) → delete_backup_schedule ident db ≡ some e → Step db e
  creates_job : (input : JobData) (db e : Database) → create_job input db ≡ some e → Step db e
  updates_job :
      (ident : ℕ) (input : JobData) (db e : Database)
      → update_job ident input db ≡ some e
      → Step db e
  deletes_job :
      (active : Bool) (ident : ℕ) (db e : Database)
      → delete_job active ident db ≡ some e
      → Step db e
  deletes_host : (ident : ℕ) (db e : Database) → delete_host ident db ≡ some e → Step db e
  deletes_repository :
      (busy : Bool) (ident : ℕ) (db e : Database)
      → delete_repository busy ident db ≡ some e
      → Step db e
  switches_job :
      (active : Bool) (ident : ℕ) (enabled : Bool) (db e : Database)
      → set_job_enabled active ident enabled db ≡ some e
      → Step db e
  adds_host : (row : Place) (db : Database) → Step db (record db { hosts = row ∷ db.hosts })
  adds_repository :
      (row : Place) (db : Database) → Step db (record db { repositories = row ∷ db.repositories })
  queues_runs :
      (run_job_ids : List ℕ) (db : Database) → Step db (record db { run_job_ids = run_job_ids })

pub data Reach : Database → Database → Type 0 where
  here : {db : Database} → Reach db db
  next : {a b c : Database} → Reach a b → Step b c → Reach a c

-- A database with these hosts and repositories, before the first job and schedule.
abbrev pub initial : List Place → List Place → Database
initial hosts repositories = record {
  hosts = hosts;
  repositories = repositories;
  jobs = [];
  schedules = [];
  reservations = [];
  run_job_ids = [];
}

-- New hosts and repositories give no job another schedule, since a job has its own already.
grown-IsExclusive :
    (db : Database) (hosts repositories : List Place)
    → ((j : Job)
        → IsJoined db j
        → IsJoined (record db { hosts = hosts; repositories = repositories }) j)
    → IsExclusive db
    → IsExclusive (record db { hosts = hosts; repositories = repositories })
unfolding is_target
grown-IsExclusive db hosts repositories f x =
    let grown : Database = record db { hosts = hosts; repositories = repositories } in
    record {
      job_ids = x.job_ids;
      schedule_ids = x.schedule_ids;
      positive = x.positive;
      joined = All_imp (IsJoined db) (IsJoined grown) f db.jobs x.joined;
      single =
          All_imp (λ j. IsJoined db j × IsSingle db j) (IsSingle grown)
            (λ j h. ground (
              arith,
              h.1,
              length-keep-fewer (is_assigned grown j) (is_assigned db j) db.schedules (
                  All_always (λ s. is_assigned grown j s ≡ true → is_assigned db j s ≡ true)
                    (λ s g. ground (arith, g, h.0)) db.schedules),
            ))
            db.jobs (All_and (IsJoined db) (IsSingle db) db.jobs x.joined x.single);
    }

Step-IsExclusive : {a b : Database} → Step a b → IsExclusive a → IsExclusive b
unfolding is_target any_row
Step-IsExclusive (creates_schedule ident input db e n h) x =
    create_backup_schedule-IsExclusive ident input db e n h x
Step-IsExclusive (updates_schedule ident input db e h) x =
    update_backup_schedule-IsExclusive ident input db e h x
Step-IsExclusive (deletes_schedule ident db e h) x =
    delete_backup_schedule-IsExclusive ident db e h x
Step-IsExclusive (creates_job input db e h) x = create_job-IsExclusive input db e h x
Step-IsExclusive (updates_job ident input db e h) x = update_job-IsExclusive ident input db e h x
Step-IsExclusive (deletes_job active ident db e h) x = delete_job-IsExclusive active ident db e h x
Step-IsExclusive (deletes_host ident db e h) x = delete_host-IsExclusive ident db e h x
Step-IsExclusive (deletes_repository busy ident db e h) x =
    delete_repository-IsExclusive busy ident db e h x
Step-IsExclusive (switches_job active ident enabled db e h) x =
    set_job_enabled-IsExclusive active ident enabled db e h x
Step-IsExclusive (adds_host row db) x =
    grown-IsExclusive db (row ∷ db.hosts) db.repositories (λ j g. ground (arith, g)) x
Step-IsExclusive (adds_repository row db) x =
    grown-IsExclusive db db.hosts (row ∷ db.repositories) (λ j g. ground (arith, g)) x
Step-IsExclusive (queues_runs run_job_ids db) x = record {
  job_ids = x.job_ids;
  schedule_ids = x.schedule_ids;
  positive = x.positive;
  joined = x.joined;
  single = x.single;
}

Reach-IsExclusive :
    (hosts repositories : List Place) (db : Database)
    → Reach (initial hosts repositories) db
    → IsExclusive db
Reach-IsExclusive hosts repositories db here = record {
  job_ids = tt;
  schedule_ids = tt;
  positive = tt;
  joined = tt;
  single = tt;
}
Reach-IsExclusive hosts repositories db (next r s) =
    Step-IsExclusive s (Reach-IsExclusive hosts repositories _ r)

keep-insert_schedule :
    (p : Schedule → Bool) (s : Schedule) (ss : List Schedule)
    → length (keep p (insert_schedule s ss)) ≡ length (keep p (s ∷ ss))
unfolding insert_schedule
keep-insert_schedule p s [] = refl
keep-insert_schedule p s (t ∷ ts) = ground (arith, keep-insert_schedule p s ts)

keep-sort_schedules :
    (p : Schedule → Bool) (ss : List Schedule)
    → length (keep p (sort_schedules ss)) ≡ length (keep p ss)
unfolding sort_schedules
keep-sort_schedules p [] = refl
keep-sort_schedules p (s ∷ ss) =
    ground (arith, keep-insert_schedule p s (sort_schedules ss), keep-sort_schedules p ss)

-- The schedules whose targets have the id of a job are those that are assigned to its row.
abbrev IsRowwise : Database → Job → Type 0
IsRowwise db j =
    (s : Schedule)
    → contains j.ident (schedule_target_job_ids false db s) ≡ true
    → is_target false db s j ≡ true

jobs-IsRowwise : (db : Database) → Unique (map (λ j. j.ident) db.jobs) → All (IsRowwise db) db.jobs
unfolding schedule_target_job_ids
jobs-IsRowwise db u = All_every _ db.jobs (λ s.
    All_imp _ _ (λ j f h. f (sym (contains-sort_ids j.ident _) ∙ h)) db.jobs
      (unkept_keys (λ j. j.ident) (is_target false db s) db.jobs u))

assignments_single :
    (db : Database) (j : Job)
    → IsRowwise db j
    → IsSingle db j
    → length (schedule_assignments true db j.ident) ≤ 1
unfolding schedule_assignments
assignments_single db j f h =
    let listed : Schedule → Bool = λ s. contains j.ident (schedule_target_job_ids false db s) in
    let on : Schedule → Bool = λ s. not true || s.enabled in
    ground (
      arith,
      keep-sort_schedules listed (keep on db.schedules),
      ap length (keep-keep listed on db.schedules),
      length-keep-fewer (λ s. on s && listed s) (is_assigned db j) db.schedules
          (All_always (λ s. on s && listed s ≡ true → is_assigned db j s ≡ true)
            (λ s g. ground (arith, g, f s)) db.schedules),
      h,
    )

-- However schedules are created, changed and deleted, and jobs, hosts and repositories as well, every job is
-- assigned to at most one enabled schedule by its id; the ids of new schedules are fresh.
pub one_schedule_per_job :
    (hosts repositories : List Place) (db : Database)
    → Reach (initial hosts repositories) db
    → All (λ j. length (schedule_assignments true db j.ident) ≤ 1) db.jobs
unfolding schedule_assignments
one_schedule_per_job hosts repositories db r =
    let x = Reach-IsExclusive hosts repositories db r in
    All_imp (λ j. IsRowwise db j × IsSingle db j) _ (λ j h. assignments_single db j h.0 h.1) db.jobs
      (All_and (IsRowwise db) (IsSingle db) db.jobs (jobs-IsRowwise db x.job_ids) x.single)
