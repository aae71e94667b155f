-- ===== src/Schedules/Removal.antt =====
-- app/main.py: the removal of a job or a host, and what it keeps of the schedules.
use borg_backup_manager.Prelude.{
  All, All_and, [], ◌∷◌, refl, ◌<◌, All-keep, keep-Unique, All_imp, sym, contains_kept, subst,
  arith, ◌==◌, ◌∷◌, true, ◌≤◌, not, keep, map, false, contains, Unique, length, some, List, ◌≡◌,
  Bool, ℕ,
}
use borg_backup_manager.Schedules.{Place, Job, Schedule, Database, any_row, has_place, is_target}
use borg_backup_manager.Schedules.Routes.{
  delete_job, delete_host, drop_job_schedule_references, drop_host_schedule_references,
}
use borg_backup_manager.Schedules.Exclusive.{is_assigned}
use borg_backup_manager.Schedules.History.{IsJoined, IsSingle, IsExclusive}

-- Where a job is deleted, no schedule gets a target that it had not.
unassigned_drop :
    (db : Database) (js : List Job) (row_id : ℕ) (j : Job) (ss : List Schedule)
    → length
        (keep (is_assigned (record db { jobs = js }) j) (drop_job_schedule_references row_id ss))
      ≤ length (keep (is_assigned db j) ss)
unfolding is_target drop_job_schedule_references
unassigned_drop db js row_id j [] = omega arith
unassigned_drop db js row_id j (s ∷ ss) = ground (
  arith,
  unassigned_drop db js row_id j ss,
  contains_kept j.ident (λ i. not (i == row_id)) s.target_job_ids,
)

dropped_job_ids :
    (row_id i : ℕ) (ss : List Schedule)
    → contains i (map (λ s. s.ident) ss) ≡ false
    → contains i (map (λ s. s.ident) (drop_job_schedule_references row_id ss)) ≡ false
unfolding drop_job_schedule_references
dropped_job_ids row_id i [] h = refl
dropped_job_ids row_id i (s ∷ ss) h = ground (arith, dropped_job_ids row_id i ss)

dropped_job-Unique :
    (row_id : ℕ) (ss : List Schedule)
    → Unique (map (λ s. s.ident) ss)
    → Unique (map (λ s. s.ident) (drop_job_schedule_references row_id ss))
unfolding drop_job_schedule_references
dropped_job-Unique row_id [] u = tt
dropped_job-Unique row_id (s ∷ ss) u =
    ground (arith, dropped_job_ids row_id s.ident ss u.0, dropped_job-Unique row_id ss u.1)

pub delete_job-IsExclusive :
    (active : Bool) (row_id : ℕ) (db e : Database)
    → delete_job active row_id db ≡ some e
    → IsExclusive db
    → IsExclusive e
unfolding delete_job is_target
delete_job-IsExclusive active row_id db e h x =
    let kept : Job → Bool = λ j. not (j.ident == row_id) in
    let left : Database = record db {
      jobs = keep kept db.jobs;
      schedules = drop_job_schedule_references row_id db.schedules;
      run_job_ids = keep (λ i. not (i == row_id)) db.run_job_ids;
    } in
    let same : e ≡ left = ground (arith, h) in
    subst IsExclusive (sym same) (record {
      job_ids = keep-Unique (λ j. j.ident) kept db.jobs x.job_ids;
      schedule_ids = dropped_job-Unique row_id db.schedules x.schedule_ids;
      positive = All-keep (λ j. 0 < j.ident) kept db.jobs x.positive;
      joined = All-keep (IsJoined left) kept db.jobs x.joined;
      single = All-keep (IsSingle left) kept db.jobs (
          All_imp (IsSingle db) (IsSingle left)
            (λ j g. omega (arith, g, unassigned_drop db left.jobs row_id j db.schedules)) db.jobs
            x.single);
    })

pub kept_place :
    (p : Place → Bool) (i : ℕ) (rows : List Place)
    → has_place false i (keep p rows) ≡ true
    → has_place false i rows ≡ true
unfolding any_row
kept_place p i [] h = h
kept_place p i (row ∷ rows) h = ground (arith, kept_place p i rows)

unassigned_host :
    (db : Database) (p : Place → Bool) (row_id : ℕ) (j : Job) (ss : List Schedule)
    → length (
        keep
          (is_assigned (record db { hosts = keep p db.hosts }) j)
          (drop_host_schedule_references row_id ss))
      ≤ length (keep (is_assigned db j) ss)
unfolding is_target drop_host_schedule_references
unassigned_host db p row_id j [] = omega arith
unassigned_host db p row_id j (s ∷ ss) = ground (
  arith,
  unassigned_host db p row_id j ss,
  kept_place p j.host_id db.hosts,
  contains_kept j.host_id (λ i. not (i == row_id)) s.target_host_ids,
)

dropped_host_ids :
    (row_id i : ℕ) (ss : List Schedule)
    → contains i (map (λ s. s.ident) ss) ≡ false
    → contains i (map (λ s. s.ident) (drop_host_schedule_references row_id ss)) ≡ false
unfolding drop_host_schedule_references
dropped_host_ids row_id i [] h = refl
dropped_host_ids row_id i (s ∷ ss) h = ground (arith, dropped_host_ids row_id i ss)

dropped_host-Unique :
    (row_id : ℕ) (ss : List Schedule)
    → Unique (map (λ s. s.ident) ss)
    → Unique (map (λ s. s.ident) (drop_host_schedule_references row_id ss))
unfolding drop_host_schedule_references
dropped_host-Unique row_id [] u = tt
dropped_host-Unique row_id (s ∷ ss) u =
    ground (arith, dropped_host_ids row_id s.ident ss u.0, dropped_host-Unique row_id ss u.1)

unused_host :
    (row_id : ℕ) (js : List Job)
    → any_row (λ j. j.host_id == row_id) js ≡ false
    → All (λ j. (j.host_id == row_id) ≡ false) js
unfolding any_row
unused_host row_id [] h = tt
unused_host row_id (j ∷ js) h = ground (arith, h, unused_host row_id js)

pub other_place :
    (row_id i : ℕ) (rows : List Place)
    → (i == row_id) ≡ false
    → has_place false i rows ≡ true
    → has_place false i (keep (λ row. not (row.ident == row_id)) rows) ≡ true
unfolding any_row
other_place row_id i [] n h = h
other_place row_id i (row ∷ rows) n h = ground (arith, n, h, other_place row_id i rows n)

kept_joined :
    (db : Database) (row_id : ℕ) (j : Job)
    → (j.host_id == row_id) ≡ false
    → IsJoined db j
    → IsJoined
        (record db {
          hosts = keep (λ row. not (row.ident == row_id)) db.hosts;
          schedules = drop_host_schedule_references row_id db.schedules;
        })
        j
kept_joined db row_id j n h = ground (arith, h, other_place row_id j.host_id db.hosts n)

pub delete_host-IsExclusive :
    (row_id : ℕ) (db e : Database) → delete_host row_id db ≡ some e → IsExclusive db → IsExclusive e
unfolding delete_host is_target
delete_host-IsExclusive row_id db e h x =
    let kept : Place → Bool = λ row. not (row.ident == row_id) in
    let left : Database = record db {
      hosts = keep kept db.hosts;
      schedules = drop_host_schedule_references row_id db.schedules;
    } in
    let same : e ≡ left = ground (arith, h) in
    subst IsExclusive (sym same) (record {
      job_ids = x.job_ids;
      schedule_ids = dropped_host-Unique row_id db.schedules x.schedule_ids;
      positive = x.positive;
      joined =
          All_imp (λ j. ((j.host_id == row_id) ≡ false) × IsJoined db j) (IsJoined left)
            (λ j g. kept_joined db row_id j g.0 g.1) db.jobs
            (All_and (λ j. (j.host_id == row_id) ≡ false) (IsJoined db) db.jobs
              (unused_host row_id db.jobs (ground (arith, h))) x.joined);
      single =
          All_imp (IsSingle db) (IsSingle left)
            (λ j g. omega (arith, g, unassigned_host db kept row_id j db.schedules)) db.jobs
            x.single;
    })
