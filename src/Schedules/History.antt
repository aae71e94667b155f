-- ===== src/Schedules/History.antt =====
-- app/main.py: sequences of writes to schedules, jobs and hosts, and what they keep.
use borg_backup_manager.Prelude.{
  is_empty, is_empty_lem, if◌then◌else◌, map-append, All_always, length-keep-kept, ◌++◌,
  append-Unique, keep-append, length-append, keep-Unique, length-keep-map, not, ◌==◌, arith,
  Bool-cases, sym, subst, ◌≤◌, ◌<◌, List, ◌≡◌, ℕ, All, All_imp, All_and, Unique, keep, length,
  contains, map, refl, some, [], ◌∷◌, inl, inr, true, false, length-keep-fewer,
}
use borg_backup_manager.Schedules.{
  is_joined, validate_schedule_targets_exist, Job, Schedule, Database, is_target,
  validate_schedule_conflicts,
}
use borg_backup_manager.Schedules.Routes.{
  is_schedule_name, ScheduleData, replace_schedule, schedule_row, commit_schedule,
  create_backup_schedule, update_backup_schedule, delete_backup_schedule,
}
use borg_backup_manager.Schedules.Exclusive.{is_assigned, IsListed, jobs-IsListed, checked_single}

abbrev pub IsSingle : Database → Job → Type 0
IsSingle db j = length (keep (is_assigned db j) db.schedules) ≤ 1

-- The host and the repository of the job exist.
abbrev pub IsJoined : Database → Job → Type 0
IsJoined db j = is_joined false db j ≡ true

pub record IsExclusive (db : Database) : Type 0 where
  pub job_ids : Unique (map (λ j. j.ident) db.jobs)
  pub schedule_ids : Unique (map (λ s. s.ident) db.schedules)
  pub positive : All (λ j. 0 < j.ident) db.jobs
  pub joined : All (IsJoined db) db.jobs
  pub single : All (IsSingle db) db.jobs

committed :
    (row : Schedule) (db e : Database)
    → commit_schedule row db ≡ some e
    → (e ≡ db) × (validate_schedule_conflicts db row (some row.ident) ≡ [])
unfolding commit_schedule
committed row db e h =
    let conflicts = validate_schedule_conflicts db row (some row.ident) in
    elim (Bool-cases (is_schedule_name row db.schedules)) [
      | inl n ↦ ground (arith, n, h)
      | inr n ↦ elim (Bool-cases (validate_schedule_targets_exist db row)) [
        | inr t ↦ ground (arith, n, t, h)
        | inl t ↦ elim (Bool-cases (is_empty conflicts)) [
          | inl c ↦ (ground (arith, n, t, c, h), is_empty_lem conflicts c)
          | inr c ↦ ground (arith, n, t, c, h)
        ]
      ]
    ]

-- A write of `row` keeps the jobs of the other schedules.
pub written-IsExclusive :
    (row : Schedule) (db e : Database) (ss : List Schedule)
    → commit_schedule row (record db { schedules = ss }) ≡ some e
    → Unique (map (λ s. s.ident) ss)
    → ((j : Job)
        → is_assigned db j row ≡ false
        → length (keep (is_assigned db j) ss) ≤ length (keep (is_assigned db j) db.schedules))
    → IsExclusive db
    → IsExclusive e
unfolding is_target
written-IsExclusive row db e ss c u f x =
    let written : Database = record db { schedules = ss } in
    let done = committed row written e c in
    subst IsExclusive (sym done.0) (record {
      job_ids = x.job_ids;
      schedule_ids = u;
      positive = x.positive;
      joined = x.joined;
      single =
          All_imp _ (IsSingle written)
            (λ j h. elim (Bool-cases (is_assigned written j row)) [
              | inl a ↦ checked_single written row j done.1 u h.0 a
              | inr a ↦ ground (arith, f j a, h.1)
            ])
            db.jobs
            (All_and (IsListed written) (IsSingle db) db.jobs (jobs-IsListed written) x.single);
    })

pub create_backup_schedule-IsExclusive :
    (ident : ℕ) (input : ScheduleData) (db e : Database)
    → contains ident (map (λ s. s.ident) db.schedules) ≡ false
    → create_backup_schedule ident input db ≡ some e
    → IsExclusive db
    → IsExclusive e
unfolding create_backup_schedule
create_backup_schedule-IsExclusive ident input db e n h x =
    let row = schedule_row ident input in
    written-IsExclusive row db e (db.schedules ++ row ∷ []) h
      (subst Unique (sym (map-append (λ s. s.ident) db.schedules (row ∷ [])))
        (append-Unique ident (map (λ s. s.ident) db.schedules) n x.schedule_ids))
      (λ j a. ground (
        arith,
        a,
        keep-append (is_assigned db j) db.schedules (row ∷ []),
        length-append (keep (is_assigned db j) db.schedules) (keep (is_assigned db j) (row ∷ [])),
      ))
      x

replaced_assigned :
    (db : Database) (row s : Schedule) (j : Job)
    → is_assigned db j row ≡ false
    → is_assigned db j (replace_schedule row s) ≡ true
    → is_assigned db j s ≡ true
replaced_assigned db row s j a g = elim (Bool-cases (s.ident == row.ident)) [
  | inl e ↦
      let moved : is_assigned db j row ≡ true =
        subst (λ b. is_assigned db j (if b then row else s) ≡ true) e g in
      ground (arith, a, moved)
  | inr e ↦ subst (λ b. is_assigned db j (if b then row else s) ≡ true) e g
]

replaced_ids :
    (row : Schedule) (ss : List Schedule)
    → map (λ s. s.ident) (map (replace_schedule row) ss) ≡ map (λ s. s.ident) ss
replaced_ids row [] = refl
replaced_ids row (s ∷ ss) = ground (arith, replaced_ids row ss)

pub update_backup_schedule-IsExclusive :
    (ident : ℕ) (input : ScheduleData) (db e : Database)
    → update_backup_schedule ident input db ≡ some e
    → IsExclusive db
    → IsExclusive e
unfolding update_backup_schedule
update_backup_schedule-IsExclusive ident input db e h x =
    let row = schedule_row ident input in
    written-IsExclusive row db e (map (replace_schedule row) db.schedules) (ground (arith, h))
      (subst Unique (sym (replaced_ids row db.schedules)) x.schedule_ids)
      (λ j a. ground (
        arith,
        length-keep-map (is_assigned db j) (replace_schedule row) db.schedules,
        length-keep-fewer (λ s. is_assigned db j (replace_schedule row s)) (is_assigned db j)
            db.schedules (All_always _ (λ s g. replaced_assigned db row s j a g) db.schedules),
      ))
      x

-- Fewer schedules, and fewer assignments by each, are no less exclusive.
pub fewer-IsExclusive :
    (db : Database) (ss : List Schedule)
    → Unique (map (λ s. s.ident) ss)
    → ((j : Job)
        → length (keep (is_assigned db j) ss) ≤ length (keep (is_assigned db j) db.schedules))
    → IsExclusive db
    → IsExclusive (record db { schedules = ss })
unfolding is_target
fewer-IsExclusive db ss u f x = record {
  job_ids = x.job_ids;
  schedule_ids = u;
  positive = x.positive;
  joined = x.joined;
  single = All_imp _ _ (λ j h. ground (arith, f j, h)) db.jobs x.single;
}

pub delete_backup_schedule-IsExclusive :
    (ident : ℕ) (db e : Database)
    → delete_backup_schedule ident db ≡ some e
    → IsExclusive db
    → IsExclusive e
unfolding delete_backup_schedule
delete_backup_schedule-IsExclusive ident db e h x =
    let ss : List Schedule = keep (λ s. not (s.ident == ident)) db.schedules in
    let same : e ≡ record db { schedules = ss } = ground (arith, h) in
    subst IsExclusive (sym same) (
      fewer-IsExclusive db ss (keep-Unique (λ s. s.ident) _ db.schedules x.schedule_ids)
        (λ j. length-keep-kept (is_assigned db j) (λ s. not (s.ident == ident)) db.schedules) x)
