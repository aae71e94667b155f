-- ===== src/Schedules/Routes.antt =====
-- app/main.py, the routes that write schedules and jobs, and what the deletion of a job or a host
-- does to schedules. `none` is an HTTP error, after which the transaction is rolled back. The
-- requests have passed their schemas; accesses, SSH actions and the names that runs remember stand
-- in tables outside this database.
use borg_backup_manager.Prelude.{
  is_empty, ◌||◌, ℕ, Bool, false, not, ◌&&◌, Option, none, some, List, [], ◌∷◌, ◌++◌, leb, ◌==◌,
  if◌then◌else◌, keep, length, map, max, ◌+◌,
}
use borg_backup_manager.Text.{Text, text_eq}
use borg_backup_manager.Schedules.{
  by_hosts, by_jobs, by_repository, by_other, Job, TargetMode, by_repository, Schedule, Database,
  any_row, has_place, has_job, validate_schedule_targets_exist, validate_schedule_conflicts,
  validate_job_schedule_conflicts,
}

pub record ScheduleData : Type 0 where
  pub name : Text
  pub target_mode : TargetMode
  pub target_host_ids : List ℕ
  pub target_repository_id : Option ℕ
  pub target_job_ids : List ℕ
  pub enabled : Bool

pub record JobData : Type 0 where
  pub name : Text
  pub host_id : ℕ
  pub repository_id : ℕ
  pub enabled : Bool

abbrev kept_repository : TargetMode → Option ℕ → Option ℕ
kept_repository by_repository r = r
kept_repository _ r = none

abbrev pub schedule_row : ℕ → ScheduleData → Schedule
schedule_row ident input = record {
  ident = ident;
  name = input.name;
  target_mode = input.target_mode;
  target_host_ids = input.target_host_ids;
  target_repository_id = kept_repository input.target_mode input.target_repository_id;
  target_job_ids = input.target_job_ids;
  enabled = input.enabled;
}

-- The unique constraint of the names.
abbrev pub is_schedule_name : Schedule → List Schedule → Bool
is_schedule_name row = any_row (λ s. not (s.ident == row.ident) && text_eq s.name row.name)

abbrev pub is_job_name : Job → List Job → Bool
is_job_name row = any_row (λ j. not (j.ident == row.ident) && text_eq j.name row.name)

-- The end of both writes: `row` is in the table of `db` when it is checked.
unfoldable pub commit_schedule : Schedule → Database → Option Database
unfolding any_row text_eq validate_schedule_targets_exist validate_schedule_conflicts
commit_schedule row db =
    if is_schedule_name row db.schedules
    then none
    else if not (validate_schedule_targets_exist db row)
    then none
    else if is_empty (validate_schedule_conflicts db row (some row.ident))
    then some db
    else none

-- The database chooses the id.
unfoldable pub create_backup_schedule : ℕ → ScheduleData → Database → Option Database
unfolding commit_schedule
create_backup_schedule ident input db =
    commit_schedule (schedule_row ident input)
      (record db { schedules = db.schedules ++ schedule_row ident input ∷ [] })

abbrev pub replace_schedule : Schedule → Schedule → Schedule
replace_schedule row s = if s.ident == row.ident then row else s

abbrev pub has_schedule : ℕ → List Schedule → Bool
has_schedule i = any_row (λ s. s.ident == i)

unfoldable pub update_backup_schedule : ℕ → ScheduleData → Database → Option Database
unfolding commit_schedule any_row
update_backup_schedule ident input db =
    if not (has_schedule ident db.schedules)
    then none
    else commit_schedule (schedule_row ident input)
        (record db { schedules = map (replace_schedule (schedule_row ident input)) db.schedules })

unfoldable pub delete_backup_schedule : ℕ → Database → Option Database
unfolding any_row
delete_backup_schedule ident db =
    if has_schedule ident db.schedules
    then some (record db { schedules = keep (λ s. not (s.ident == ident)) db.schedules })
    else none

unfoldable pub highest : List ℕ → ℕ
highest [] = 0
highest (n ∷ ns) = max n (highest ns)

unfoldable pub allocate_job_id : Database → ℕ × Database
unfolding highest
allocate_job_id db =
    let job_id =
      max (highest (map (λ j. j.ident) db.jobs))
        (max (highest db.reservations) (highest db.run_job_ids))
      + 1 in
    (job_id, record db { reservations = db.reservations ++ job_id ∷ [] })

abbrev pub job_row : ℕ → JobData → Job
job_row ident input = record {
  ident = ident;
  name = input.name;
  host_id = input.host_id;
  repository_id = input.repository_id;
  enabled = input.enabled;
}

unfoldable pub commit_job : Job → Database → Option Database
unfolding any_row text_eq validate_job_schedule_conflicts
commit_job row db =
    if is_job_name row db.jobs
    then none
    else if leb (length (validate_job_schedule_conflicts db row)) 1
    then some db
    else none

abbrev pub knows_places : JobData → Database → Bool
knows_places input db =
    has_place false input.host_id db.hosts && has_place false input.repository_id db.repositories

unfoldable pub create_job : JobData → Database → Option Database
unfolding commit_job any_row allocate_job_id
create_job input db =
    let (ident, reserved) = allocate_job_id db in
    if knows_places input db
    then commit_job (job_row ident input)
        (record reserved { jobs = reserved.jobs ++ job_row ident input ∷ [] })
    else none

abbrev pub replace_job : Job → Job → Job
replace_job row j = if j.ident == row.ident then row else j

unfoldable pub update_job : ℕ → JobData → Database → Option Database
unfolding commit_job any_row
update_job ident input db =
    if has_job ident db.jobs && knows_places input db
    then commit_job (job_row ident input)
        (record db { jobs = map (replace_job (job_row ident input)) db.jobs })
    else none

-- A schedule of the mode is kept with the ids that are left, or deleted if none is left.
unfoldable pub drop_job_schedule_references : ℕ → List Schedule → List Schedule
drop_job_schedule_references job_id [] = []
drop_job_schedule_references job_id (s ∷ ss) =
    let rest = drop_job_schedule_references job_id ss in
    let ids = keep (λ i. not (i == job_id)) s.target_job_ids in
    elim s.target_mode [
      | by_jobs ↦ if is_empty ids then rest else record s { target_job_ids = ids } ∷ rest
      | by_hosts ↦ s ∷ rest
      | by_repository ↦ s ∷ rest
      | by_other ↦ s ∷ rest
    ]

unfoldable pub drop_host_schedule_references : ℕ → List Schedule → List Schedule
drop_host_schedule_references host_id [] = []
drop_host_schedule_references host_id (s ∷ ss) =
    let rest = drop_host_schedule_references host_id ss in
    let ids = keep (λ i. not (i == host_id)) s.target_host_ids in
    elim s.target_mode [
      | by_hosts ↦ if is_empty ids then rest else record s { target_host_ids = ids } ∷ rest
      | by_jobs ↦ s ∷ rest
      | by_repository ↦ s ∷ rest
      | by_other ↦ s ∷ rest
    ]

-- `active`: whether a run of the job is queued or running.
unfoldable pub delete_job : Bool → ℕ → Database → Option Database
unfolding any_row drop_job_schedule_references
delete_job active row_id db =
    if not (has_job row_id db.jobs) || active
    then none
    else some (record db {
      jobs = keep (λ j. not (j.ident == row_id)) db.jobs;
      schedules = drop_job_schedule_references row_id db.schedules;
      run_job_ids = keep (λ i. not (i == row_id)) db.run_job_ids;
    })

unfoldable pub delete_host : ℕ → Database → Option Database
unfolding any_row drop_host_schedule_references
delete_host row_id db =
    if not (has_place false row_id db.hosts) || any_row (λ j. j.host_id == row_id) db.jobs
    then none
    else some (record db {
      hosts = keep (λ h. not (h.ident == row_id)) db.hosts;
      schedules = drop_host_schedule_references row_id db.schedules;
    })

abbrev pub of_repository : ℕ → Schedule → Bool
of_repository row_id s = elim s.target_mode [
  | by_repository ↦ elim s.target_repository_id [ none ↦ false | some r ↦ r == row_id ]
  | by_hosts ↦ false
  | by_jobs ↦ false
  | by_other ↦ false
]

-- `busy`: whether an archive of the repository is mounted, or a run of it is queued or running.
unfoldable pub delete_repository : Bool → ℕ → Database → Option Database
unfolding any_row
delete_repository busy row_id db =
    if not (has_place false row_id db.repositories)
      || (any_row (λ j. j.repository_id == row_id) db.jobs || busy)
    then none
    else some (record db {
      repositories = keep (λ r. not (r.ident == row_id)) db.repositories;
      schedules = keep (λ s. not (of_repository row_id s)) db.schedules;
    })

-- `active`: whether a run of the job is queued or running.
unfoldable pub set_job_enabled : Bool → ℕ → Bool → Database → Option Database
unfolding any_row
set_job_enabled active row_id enabled db =
    if not (has_job row_id db.jobs) || (not enabled && active)
    then none
    else some (record db {
      jobs = map (λ j. if j.ident == row_id then record j { enabled = enabled } else j) db.jobs;
    })
