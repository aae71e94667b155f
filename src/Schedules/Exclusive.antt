-- ===== src/Schedules/Exclusive.antt =====
-- app/schedules.py and app/main.py: however schedules and jobs are written, a job has one enabled schedule at most.
use borg_backup_manager.Prelude.{
  ◌≤◌, subst, ℕ_discrete, ◌∙◌, Option, not, ◌||◌, ◌≢◌, Bool-cases, arith, ◌&&◌, ◌≡◌, List, Bool, ℕ,
  All, All_imp, Unique, keep, length, contains, map, refl, some, [], ◌∷◌, inl, inr, true, false,
  kept_keys, length-keep-one,
}
use borg_backup_manager.Text.{Text}
use borg_backup_manager.Dict
use borg_backup_manager.Dict.{Dict}
use borg_backup_manager.Schedules.{
  Job, Schedule, Database, is_target, insert_id, sort_ids, schedule_target_job_ids, note_conflicts,
  collect_conflicts, validate_schedule_conflicts, is_excluded,
}

abbrev pub is_assigned : Database → Job → Schedule → Bool
is_assigned db j s = s.enabled && is_target false db s j

contains-insert_id : (i n : ℕ) (ns : List ℕ) → contains i (insert_id n ns) ≡ contains i (n ∷ ns)
unfolding insert_id
contains-insert_id i n [] = refl
contains-insert_id i n (m ∷ ms) = ground (arith, contains-insert_id i n ms)

pub contains-sort_ids : (i : ℕ) (ns : List ℕ) → contains i (sort_ids ns) ≡ contains i ns
unfolding sort_ids
contains-sort_ids i [] = refl
contains-sort_ids i (n ∷ ns) =
    ground (arith, contains-insert_id i n (sort_ids ns), contains-sort_ids i ns)

put_nil : (n : ℕ) (name : Text) (d : Dict ℕ Text) → Dict.put ℕ_discrete n name d ≢ []
unfolding Dict.put
put_nil n name [] e = cc
put_nil n name ((m, v) ∷ d) e = ground (arith, e)

note_conflicts_nil :
    (ids ns : List ℕ) (name : Text) (d : Dict ℕ Text) → note_conflicts ids ns name d ≡ [] → d ≡ []
unfolding note_conflicts
note_conflicts_nil ids [] name d e = e
note_conflicts_nil ids (n ∷ ns) name d e = elim (Bool-cases (contains n ids)) [
  | inl h ↦
      let put : Dict ℕ Text = Dict.put ℕ_discrete n name d in
      absurd (put_nil n name d (note_conflicts_nil ids ns name put (ground (arith, h, e))))
  | inr h ↦ note_conflicts_nil ids ns name d (ground (arith, h, e))
]

-- No conflict is noted only if the lists have no common id.
note_conflicts_apart :
    (ids ns : List ℕ) (name : Text) (d : Dict ℕ Text)
    → note_conflicts ids ns name d ≡ []
    → (i : ℕ) → contains i ids ≡ true
    → contains i ns ≡ false
unfolding note_conflicts
note_conflicts_apart ids [] name d e i c = refl
note_conflicts_apart ids (n ∷ ns) name d e i c = elim (Bool-cases (contains n ids)) [
  | inl h ↦
      let put : Dict ℕ Text = Dict.put ℕ_discrete n name d in
      absurd (put_nil n name d (note_conflicts_nil ids ns name put (ground (arith, h, e))))
  | inr h ↦
      let other : n ≢ i = λ q. ground (arith, h, c, subst (λ m. contains m ids ≡ false) q h) in
      ground (arith, other, note_conflicts_apart ids ns name d (ground (arith, h, e)) i c)
]

abbrev IsApart : Database → Option ℕ → List ℕ → Schedule → Type 0
IsApart db excluded ids s =
    s.enabled ≡ true
    → is_excluded excluded s.ident ≡ false
    → (i : ℕ) → contains i ids ≡ true
    → contains i (schedule_target_job_ids false db s) ≡ false

collect_conflicts_nil :
    (db : Database) (excluded : Option ℕ) (ids : List ℕ) (ss : List Schedule) (d : Dict ℕ Text)
    → collect_conflicts db excluded ids ss d ≡ []
    → d ≡ []
unfolding collect_conflicts
collect_conflicts_nil db excluded ids [] d e = e
collect_conflicts_nil db excluded ids (s ∷ ss) d e =
    elim (Bool-cases (not s.enabled || is_excluded excluded s.ident)) [
      | inl h ↦ collect_conflicts_nil db excluded ids ss d (ground (arith, h, e))
      | inr h ↦
          note_conflicts_nil ids (schedule_target_job_ids false db s) s.name d
            (collect_conflicts_nil db excluded ids ss _ (ground (arith, h, e)))
    ]

collect_conflicts-IsApart :
    (db : Database) (excluded : Option ℕ) (ids : List ℕ) (ss : List Schedule) (d : Dict ℕ Text)
    → collect_conflicts db excluded ids ss d ≡ []
    → All (IsApart db excluded ids) ss
unfolding collect_conflicts
collect_conflicts-IsApart db excluded ids [] d e = tt
collect_conflicts-IsApart db excluded ids (s ∷ ss) d e =
    elim (Bool-cases (not s.enabled || is_excluded excluded s.ident)) [
      | inl h ↦ (
        λ on out. λ i c. ground (arith, on, out, h),
        collect_conflicts-IsApart db excluded ids ss d (ground (arith, h, e)),
      )
      | inr h ↦
          let noted : Dict ℕ Text =
            note_conflicts ids (schedule_target_job_ids false db s) s.name d in
          let rest : collect_conflicts db excluded ids ss noted ≡ [] = ground (arith, h, e) in
          (
            λ on out.
                note_conflicts_apart ids (schedule_target_job_ids false db s) s.name d
                  (collect_conflicts_nil db excluded ids ss noted rest),
            collect_conflicts-IsApart db excluded ids ss noted rest,
          )
    ]

abbrev pub IsListed : Database → Job → Type 0
IsListed db j =
    (s : Schedule)
    → is_target false db s j ≡ true
    → contains j.ident (schedule_target_job_ids false db s) ≡ true

pub All_every :
    (P : Schedule → Job → Type 0) (js : List Job)
    → ((s : Schedule) → All (P s) js)
    → All (λ j. (s : Schedule) → P s j) js
All_every P [] f = tt
All_every P (j ∷ js) f = (λ s. (f s).0, All_every P js (λ s. (f s).1))

-- A job that a schedule targets is among the ids of its targets.
pub jobs-IsListed : (db : Database) → All (IsListed db) db.jobs
unfolding schedule_target_job_ids
jobs-IsListed db = All_every _ db.jobs (λ s.
    All_imp _ _ (λ j f h. contains-sort_ids j.ident _ ∙ f h) db.jobs
      (kept_keys (λ j. j.ident) (is_target false db s) db.jobs))

assigned_enabled :
    (db : Database) (j : Job) (s : Schedule) → is_assigned db j s ≡ true → s.enabled ≡ true
assigned_enabled db j s h = ground (arith, h)

assigned_target :
    (db : Database) (j : Job) (s : Schedule)
    → is_assigned db j s ≡ true
    → is_target false db s j ≡ true
assigned_target db j s h = ground (arith, h)

-- A schedule that was checked is the only one of each of its jobs.
pub checked_single :
    (db : Database) (row : Schedule) (j : Job)
    → validate_schedule_conflicts db row (some row.ident) ≡ []
    → Unique (map (λ s. s.ident) db.schedules)
    → IsListed db j
    → is_assigned db j row ≡ true
    → length (keep (is_assigned db j) db.schedules) ≤ 1
unfolding validate_schedule_conflicts
checked_single db row j e u listed a =
    let ids = schedule_target_job_ids false db row in
    let none_noted : collect_conflicts db (some row.ident) ids db.schedules [] ≡ [] =
      ground (arith, e, assigned_enabled db j row a) in
    length-keep-one (λ s. s.ident) row.ident (is_assigned db j) db.schedules u
      (All_imp (IsApart db (some row.ident) ids)
        (λ s. is_assigned db j s ≡ true → s.ident ≡ row.ident)
        (λ s apart h. elim (Bool-cases (is_excluded (some row.ident) s.ident)) [
          | inl q ↦ ground (arith, q)
          | inr q ↦ ground (
            arith,
            apart (assigned_enabled db j s h) q j.ident (listed row (assigned_target db j row a)),
            listed s (assigned_target db j s h),
          )
        ])
        db.schedules (collect_conflicts-IsApart db (some row.ident) ids db.schedules [] none_noted))
