-- ===== src/Schedules/Retirement.antt =====
-- app/main.py: the deletion of a repository and the switch of a job, and what they keep of the schedules.
use borg_backup_manager.Prelude.{
  [], ◌<◌, Unique, sym, subst, arith, if◌then◌else◌, some, ◌∷◌, List, Bool, ◌≡◌, ℕ, All, not, ◌==◌,
  keep, map, true, false, length-keep-kept, length-keep-fewer, All_imp, All_and, All_always,
  All-map, keep-Unique, refl,
}
use borg_backup_manager.Schedules.{Place, Job, Database, any_row, is_target}
use borg_backup_manager.Schedules.Routes.{delete_repository, of_repository, set_job_enabled}
use borg_backup_manager.Schedules.Exclusive.{is_assigned}
use borg_backup_manager.Schedules.History.{IsJoined, IsSingle, IsExclusive}
use borg_backup_manager.Schedules.Removal.{kept_place, other_place}

unused_repository :
    (row_id : ℕ) (js : List Job)
    → any_row (λ j. j.repository_id == row_id) js ≡ false
    → All (λ j. (j.repository_id == row_id) ≡ false) js
unfolding any_row
unused_repository row_id [] h = tt
unused_repository row_id (j ∷ js) h = ground (arith, h, unused_repository row_id js)

-- What is left of the database without a repository.
abbrev without : ℕ → Database → Database
without row_id db = record db {
  repositories = keep (λ row. not (row.ident == row_id)) db.repositories;
  schedules = keep (λ s. not (of_repository row_id s)) db.schedules;
}

kept_joined :
    (db : Database) (row_id : ℕ) (j : Job)
    → (j.repository_id == row_id) ≡ false
    → IsJoined db j
    → IsJoined (without row_id db) j
kept_joined db row_id j n h =
    ground (arith, h, other_place row_id j.repository_id db.repositories n)

without-IsSingle :
    (row_id : ℕ) (db : Database) (j : Job) → IsSingle db j → IsSingle (without row_id db) j
unfolding is_target
without-IsSingle row_id db j h =
    let left : Database = without row_id db in
    let gone : Place → Bool = λ row. not (row.ident == row_id) in
    ground (
      arith,
      h,
      length-keep-kept (is_assigned left j) (λ s. not (of_repository row_id s)) db.schedules,
      length-keep-fewer (is_assigned left j) (is_assigned db j) db.schedules (
          All_always (λ s. is_assigned left j s ≡ true → is_assigned db j s ≡ true)
            (λ s g. ground (arith, g, kept_place gone j.repository_id db.repositories))
            db.schedules),
    )

pub delete_repository-IsExclusive :
    (busy : Bool) (row_id : ℕ) (db e : Database)
    → delete_repository busy row_id db ≡ some e
    → IsExclusive db
    → IsExclusive e
unfolding delete_repository
delete_repository-IsExclusive busy row_id db e h x =
    let same : e ≡ without row_id db = ground (arith, h) in
    subst IsExclusive (sym same) (record {
      job_ids = x.job_ids;
      schedule_ids =
          keep-Unique (λ s. s.ident) (λ s. not (of_repository row_id s)) db.schedules
            x.schedule_ids;
      positive = x.positive;
      joined =
          All_imp (λ j. ((j.repository_id == row_id) ≡ false) × IsJoined db j)
            (IsJoined (without row_id db)) (λ j g. kept_joined db row_id j g.0 g.1) db.jobs
            (All_and (λ j. (j.repository_id == row_id) ≡ false) (IsJoined db) db.jobs
              (unused_repository row_id db.jobs (ground (arith, h))) x.joined);
      single =
          All_imp (IsSingle db) (IsSingle (without row_id db)) (without-IsSingle row_id db) db.jobs
            x.single;
    })

abbrev switch : ℕ → Bool → Job → Job
switch row_id enabled j = if j.ident == row_id then record j { enabled = enabled } else j

switched_ids :
    (row_id : ℕ) (enabled : Bool) (js : List Job)
    → map (λ j. j.ident) (map (switch row_id enabled) js) ≡ map (λ j. j.ident) js
switched_ids row_id enabled [] = refl
switched_ids row_id enabled (j ∷ js) = ground (arith, switched_ids row_id enabled js)

-- What does not depend on whether a job is enabled holds of it after the switch.
switch_lem :
    (P : Job → Type 0) (row_id : ℕ) (enabled : Bool) (j : Job)
    → P j
    → P (record j { enabled = enabled })
    → P (switch row_id enabled j)
switch_lem P row_id enabled j p q = ground (arith, p, q)

pub set_job_enabled-IsExclusive :
    (active : Bool) (row_id : ℕ) (enabled : Bool) (db e : Database)
    → set_job_enabled active row_id enabled db ≡ some e
    → IsExclusive db
    → IsExclusive e
unfolding set_job_enabled is_target
set_job_enabled-IsExclusive active row_id enabled db e h x =
    let left : Database = record db { jobs = map (switch row_id enabled) db.jobs } in
    let same : e ≡ left = ground (arith, h) in
    subst IsExclusive (sym same) (record {
      job_ids = subst Unique (sym (switched_ids row_id enabled db.jobs)) x.job_ids;
      schedule_ids = x.schedule_ids;
      positive =
          All-map (λ j. 0 < j.ident) (switch row_id enabled) db.jobs
            (All_imp (λ j. 0 < j.ident) (λ j. 0 < (switch row_id enabled j).ident)
              (λ j p. switch_lem (λ i. 0 < i.ident) row_id enabled j p p) db.jobs x.positive);
      joined = All-map (IsJoined left) (switch row_id enabled) db.jobs (
          All_imp (IsJoined db) (λ j. IsJoined left (switch row_id enabled j))
            (λ j p. switch_lem (IsJoined left) row_id enabled j p p) db.jobs x.joined);
      single = All-map (IsSingle left) (switch row_id enabled) db.jobs (
          All_imp (IsSingle db) (λ j. IsSingle left (switch row_id enabled j))
            (λ j p. switch_lem (IsSingle left) row_id enabled j p p) db.jobs x.single);
    })
