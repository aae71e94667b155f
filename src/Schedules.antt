-- ===== src/Schedules.antt =====
-- app/schedules.py: which jobs a backup schedule targets and the checks that keep a job with one
-- enabled schedule. The database is the rows of its tables; the id lists are the parsed JSON
-- columns. The wording of the refusals, the limits of parallelism and the times are not kept.
pub mod Expressions
pub mod Words
pub mod Lines
pub mod RoundTrip
pub mod Routes
pub mod Exclusive
pub mod History
pub mod JobHistory
pub mod Removal
pub mod Retirement
pub mod Reachable
mod Tests
use borg_backup_manager.Prelude.{
  is_empty, is_empty_lem, ℕ, Bool, true, false, not, ◌&&◌, ◌||◌, Option, none, some, List, [], ◌∷◌,
  ◌++◌, leb, ltb, ◌==◌, if◌then◌else◌, keep, length, map, contains, ℕ_discrete,
}
use borg_backup_manager.Text.{text_leb, Text, text_eq}
use borg_backup_manager.Dict
use borg_backup_manager.Dict.{Dict}

-- A host or a repository.
pub record Place : Type 0 where
  pub ident : ℕ
  pub enabled : Bool

pub record Job : Type 0 where
  pub ident : ℕ
  pub name : Text
  pub host_id : ℕ
  pub repository_id : ℕ
  pub enabled : Bool

pub data TargetMode : Type 0 where
  by_hosts by_repository by_jobs by_other : TargetMode

pub record Schedule : Type 0 where
  pub ident : ℕ
  pub name : Text
  pub target_mode : TargetMode
  pub target_host_ids : List ℕ
  pub target_repository_id : Option ℕ
  pub target_job_ids : List ℕ
  pub enabled : Bool

pub record Database : Type 0 where
  pub hosts : List Place
  pub repositories : List Place
  pub jobs : List Job
  pub schedules : List Schedule
  pub reservations : List ℕ
  pub run_job_ids : List ℕ

unfoldable pub any_row {ℓ} : {A : Type ℓ} → (A → Bool) → List A → Bool
any_row p [] = false
any_row p (x ∷ xs) = let rest = any_row p xs in if p x then true else rest

-- A row of the table with this id, enabled if that is asked for.
abbrev pub has_place : Bool → ℕ → List Place → Bool
has_place enabled_only i = any_row (λ row. row.ident == i && (not enabled_only || row.enabled))

-- The two joins and the condition on enabled rows.
abbrev pub is_joined : Bool → Database → Job → Bool
is_joined enabled_only db j =
    has_place enabled_only j.host_id db.hosts
    && (has_place enabled_only j.repository_id db.repositories && (not enabled_only || j.enabled))

-- The condition of the target; an id 0 counts as no repository, and an empty list has no elements.
abbrev is_repository : Option ℕ → ℕ → Bool
is_repository none i = false
is_repository (some r) i = not (r == 0) && i == r

abbrev pub in_target : Schedule → Job → Bool
in_target s j = elim s.target_mode [
  | by_hosts ↦ contains j.host_id s.target_host_ids
  | by_repository ↦ is_repository s.target_repository_id j.repository_id
  | by_jobs ↦ contains j.ident s.target_job_ids
  | by_other ↦ false
]

unfoldable pub insert_id : ℕ → List ℕ → List ℕ
insert_id n [] = n ∷ []
insert_id n (m ∷ ms) = let rest = insert_id n ms in if leb n m then n ∷ m ∷ ms else m ∷ rest

-- `order_by(Job.id)`, and `sorted` of ids.
unfoldable pub sort_ids : List ℕ → List ℕ
unfolding insert_id
sort_ids [] = []
sort_ids (n ∷ ns) = insert_id n (sort_ids ns)

unfoldable pub is_target : Bool → Database → Schedule → Job → Bool
unfolding any_row
is_target enabled_only db s j = is_joined enabled_only db j && in_target s j

unfoldable pub schedule_target_job_ids : Bool → Database → Schedule → List ℕ
unfolding is_target sort_ids
schedule_target_job_ids enabled_jobs_only db s =
    sort_ids (map (λ j. j.ident) (keep (is_target enabled_jobs_only db s) db.jobs))

unfoldable pub insert_schedule : Schedule → List Schedule → List Schedule
unfolding text_leb
insert_schedule s [] = s ∷ []
insert_schedule s (t ∷ ts) =
    let rest = insert_schedule s ts in if text_leb s.name t.name then s ∷ t ∷ ts else t ∷ rest

-- `order_by(BackupSchedule.name)`
unfoldable pub sort_schedules : List Schedule → List Schedule
unfolding insert_schedule
sort_schedules [] = []
sort_schedules (s ∷ ss) = insert_schedule s (sort_schedules ss)

-- `schedule_assignments(db)[job_id]`: the dictionary has the schedules of each id in the order of the query.
unfoldable pub schedule_assignments : Bool → Database → ℕ → List Schedule
unfolding schedule_target_job_ids sort_schedules
schedule_assignments enabled_only db job_id =
    keep (λ s. contains job_id (schedule_target_job_ids false db s))
      (sort_schedules (keep (λ s. not enabled_only || s.enabled) db.schedules))

-- `set(values) - existing` in order; not empty is a ValueError.
unfoldable pub missing_ids : (ℕ → Bool) → List ℕ → List ℕ
unfolding sort_ids
missing_ids exists [] = []
missing_ids exists (n ∷ ns) =
    let rest = missing_ids exists ns in if exists n || contains n ns then rest else insert_id n rest

abbrev pub has_job : ℕ → List Job → Bool
has_job i = any_row (λ j. j.ident == i)

abbrev knows_repository : Option ℕ → Database → Bool
knows_repository none db = false
knows_repository (some r) db = not (r == 0) && has_place false r db.repositories

-- Whether no ValueError is raised.
unfoldable pub validate_schedule_targets_exist : Database → Schedule → Bool
unfolding missing_ids any_row
validate_schedule_targets_exist db s = elim s.target_mode [
  | by_hosts ↦ is_empty (missing_ids (λ i. has_place false i db.hosts) s.target_host_ids)
  | by_repository ↦ knows_repository s.target_repository_id db
  | by_jobs ↦ is_empty (missing_ids (λ i. has_job i db.jobs) s.target_job_ids)
  | by_other ↦ false
]

-- `exclude_schedule_id and schedule.id == exclude_schedule_id`
abbrev pub is_excluded : Option ℕ → ℕ → Bool
is_excluded none i = false
is_excluded (some e) i = not (e == 0) && i == e

unfoldable pub note_conflicts : List ℕ → List ℕ → Text → Dict ℕ Text → Dict ℕ Text
unfolding Dict.put ℕ_discrete
note_conflicts ids [] name conflicts = conflicts
note_conflicts ids (n ∷ ns) name conflicts =
    let noted = note_conflicts ids ns name (Dict.put ℕ_discrete n name conflicts) in
    let passed = note_conflicts ids ns name conflicts in if contains n ids then noted else passed

-- The loop over the enabled schedules.
unfoldable pub collect_conflicts :
    Database → Option ℕ → List ℕ → List Schedule → Dict ℕ Text → Dict ℕ Text
unfolding note_conflicts schedule_target_job_ids
collect_conflicts db excluded ids [] conflicts = conflicts
collect_conflicts db excluded ids (s ∷ ss) conflicts =
    let noted = note_conflicts ids (schedule_target_job_ids false db s) s.name conflicts in
    let rest = collect_conflicts db excluded ids ss noted in
    let passed = collect_conflicts db excluded ids ss conflicts in
    if not s.enabled || is_excluded excluded s.ident then passed else rest

-- `conflicts`; not empty is a ValueError that names them.
unfoldable pub validate_schedule_conflicts : Database → Schedule → Option ℕ → Dict ℕ Text
unfolding collect_conflicts
validate_schedule_conflicts db candidate excluded =
    if not candidate.enabled
    then []
    else collect_conflicts db excluded (schedule_target_job_ids false db candidate) db.schedules []

-- The test of one schedule, which reads the row of the job and no other table.
abbrev same_repository : Option ℕ → ℕ → Bool
same_repository none i = false
same_repository (some r) i = i == r

unfoldable pub is_match : Job → Schedule → Bool
is_match j s = elim s.target_mode [
  | by_hosts ↦ contains j.host_id s.target_host_ids
  | by_repository ↦ same_repository s.target_repository_id j.repository_id
  | by_jobs ↦ not (j.ident == 0) && contains j.ident s.target_job_ids
  | by_other ↦ false
]

-- `matches`; more than one is a ValueError that names them.
unfoldable pub validate_job_schedule_conflicts : Database → Job → List Text
unfolding is_match
validate_job_schedule_conflicts db j =
    map (λ s. s.name) (keep (λ s. s.enabled && is_match j s) db.schedules)
