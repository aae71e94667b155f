-- ===== src/Schedules/JobHistory.antt =====
-- app/main.py: the writes to jobs and hosts, and what they keep of the schedules.
use borg_backup_manager.Prelude.{
  if◌then◌else◌, sym, ◌==◌, ◌++◌, subst, map-append, append-Unique, All_always, Bool-cases, arith,
  ◌≤◌, List, ◌<◌, ◌≡◌, ℕ, All_imp, All_and, All-map, All-append, Unique, keep, length, contains,
  map, refl, some, [], ◌∷◌, inl, inr, true, false, ◌&&◌, length-keep-fewer,
}
use borg_backup_manager.Schedules.{
  Job, Schedule, Database, has_job, in_target, is_target, is_match, validate_job_schedule_conflicts,
}
use borg_backup_manager.Schedules.Routes.{
  knows_places, JobData, replace_job, job_row, commit_job, create_job, update_job, allocate_job_id,
  highest, is_job_name,
}
use borg_backup_manager.Schedules.Exclusive.{is_assigned}
use borg_backup_manager.Schedules.History.{IsJoined, IsSingle, IsExclusive}

committed_job :
    (row : Job) (db e : Database)
    → commit_job row db ≡ some e
    → (e ≡ db) × (length (validate_job_schedule_conflicts db row) ≤ 1)
unfolding commit_job
committed_job row db e h = elim (Bool-cases (is_job_name row db.jobs)) [
  | inl n ↦ ground (arith, n, h)
  | inr n ↦ ground (arith, n, h)
]

-- A schedule whose targets have the job matches it.
target_matches : (j : Job) (s : Schedule) → 0 < j.ident → in_target s j ≡ true → is_match j s ≡ true
unfolding is_match
target_matches j s p h = ground (arith, p, h)

length-map {ℓ κ} :
    {A : Type ℓ} {B : Type κ} (f : A → B) (xs : List A) → length (map f xs) ≡ length xs
length-map f [] = refl
length-map f (x ∷ xs) = omega (arith, length-map f xs)

-- A job that was checked has one enabled schedule at most.
checked-IsSingle :
    (db : Database) (row : Job)
    → 0 < row.ident
    → length (validate_job_schedule_conflicts db row) ≤ 1
    → IsSingle db row
unfolding is_target validate_job_schedule_conflicts
checked-IsSingle db row p h = ground (
  arith,
  h,
  length-map (λ s. s.name) (keep (λ s. s.enabled && is_match row s) db.schedules),
  length-keep-fewer (is_assigned db row) (λ s. s.enabled && is_match row s) db.schedules
      (All_always (λ s. is_assigned db row s ≡ true → s.enabled && is_match row s ≡ true)
        (λ s g. ground (arith, g, target_matches row s p)) db.schedules),
)

highest_lem : (n : ℕ) (ns : List ℕ) → highest ns < n → contains n ns ≡ false
unfolding highest
highest_lem n [] h = refl
highest_lem n (m ∷ ms) h = ground (arith, h, highest_lem n ms)

replaced_job_ids :
    (row : Job) (js : List Job)
    → map (λ j. j.ident) (map (replace_job row) js) ≡ map (λ j. j.ident) js
replaced_job_ids row [] = refl
replaced_job_ids row (j ∷ js) = ground (arith, replaced_job_ids row js)

-- The schedules of a job do not depend on the other rows of the table of jobs.
jobs_apart :
    (db : Database) (js : List Job) (ns : List ℕ) (j : Job)
    → IsSingle db j
    → IsSingle (record db { jobs = js; reservations = ns }) j
unfolding is_target
jobs_apart db js ns j h = h

replaced-IsSingle :
    (db : Database) (row : Job) (js : List Job)
    → length (validate_job_schedule_conflicts (record db { jobs = js }) row) ≤ 1
    → (j : Job) → (0 < j.ident) × IsSingle db j
    → IsSingle (record db { jobs = js }) (replace_job row j)
unfolding is_target
replaced-IsSingle db row js v j h =
    elim (Bool-cases (j.ident == row.ident))
      as (λ o. IsSingle (record db { jobs = js }) (replace_job row j)) [
        | inl e ↦
            let positive : 0 < row.ident = ground (arith, e, h.0) in
            subst (λ b. IsSingle (record db { jobs = js }) (if b then row else j)) (sym e)
              (checked-IsSingle (record db { jobs = js }) row positive v)
        | inr e ↦ subst (λ b. IsSingle (record db { jobs = js }) (if b then row else j)) (sym e) h.1
      ]

pub create_job-IsExclusive :
    (input : JobData) (db e : Database)
    → create_job input db ≡ some e
    → IsExclusive db
    → IsExclusive e
unfolding create_job allocate_job_id is_target
create_job-IsExclusive input db e h x =
    let ident : ℕ = (allocate_job_id db).0 in
    let row = job_row ident input in
    let ids = map (λ j. j.ident) db.jobs in
    let created : Database = record db {
      jobs = db.jobs ++ row ∷ [];
      reservations = db.reservations ++ ident ∷ [];
    } in
    elim (Bool-cases (knows_places input db)) [
      | inr n ↦ ground (arith, n, h)
      | inl n ↦
          let done = committed_job row created e (ground (arith, n, h)) in
          let above : highest ids < ident = omega arith in
          let positive : 0 < row.ident = omega arith in
          let own : IsSingle created row = checked-IsSingle created row positive done.1 in
          subst IsExclusive (sym done.0) (record {
            job_ids =
                subst Unique (sym (map-append (λ j. j.ident) db.jobs (row ∷ [])))
                  (append-Unique ident ids (highest_lem ident ids above) x.job_ids);
            schedule_ids = x.schedule_ids;
            positive = All-append (λ j. 0 < j.ident) db.jobs (row ∷ []) x.positive (positive, tt);
            joined =
                All-append (IsJoined created) db.jobs (row ∷ []) x.joined (ground (arith, n), tt);
            single =
                All-append (IsSingle created) db.jobs (row ∷ [])
                  (All_imp (IsSingle db) (IsSingle created)
                    (jobs_apart db created.jobs created.reservations) db.jobs x.single)
                  (own, tt);
          })
    ]

pub update_job-IsExclusive :
    (ident : ℕ) (input : JobData) (db e : Database)
    → update_job ident input db ≡ some e
    → IsExclusive db
    → IsExclusive e
unfolding update_job is_target
update_job-IsExclusive ident input db e h x =
    let row = job_row ident input in
    let updated : Database = record db { jobs = map (replace_job row) db.jobs } in
    elim (Bool-cases (has_job ident db.jobs && knows_places input db)) [
      | inr n ↦ ground (arith, n, h)
      | inl n ↦
          let done = committed_job row updated e (ground (arith, n, h)) in
          subst IsExclusive (sym done.0) (record {
            job_ids = subst Unique (sym (replaced_job_ids row db.jobs)) x.job_ids;
            schedule_ids = x.schedule_ids;
            positive =
                All-map (λ j. 0 < j.ident) (replace_job row) db.jobs
                  (All_imp (λ j. 0 < j.ident) (λ j. 0 < (replace_job row j).ident)
                    (λ j p. ground (arith, p)) db.jobs x.positive);
            joined = All-map (IsJoined updated) (replace_job row) db.jobs (
                All_imp (IsJoined db) (λ j. IsJoined updated (replace_job row j))
                  (λ j g. ground (arith, n, g)) db.jobs x.joined);
            single = All-map (IsSingle updated) (replace_job row) db.jobs (
                All_imp (λ j. (0 < j.ident) × IsSingle db j)
                  (λ j. IsSingle updated (replace_job row j))
                  (replaced-IsSingle db row updated.jobs done.1) db.jobs
                  (All_and (λ j. 0 < j.ident) (IsSingle db) db.jobs x.positive x.single));
          })
    ]
