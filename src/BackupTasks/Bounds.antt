-- ===== src/BackupTasks/Bounds.antt =====
-- app/manager_backup_progress.py: what holds of the tasks however they begin, change and end.
use borg_backup_manager.Prelude.{
  ap, if◌then◌else◌, ◌∙◌, false, ◌++◌, sym, subst, arith, ◌≤◌, true, ◌≡◌, Option, length, ℕ,
  Bool-cases, inl, inr, refl, none, some, [], ◌∷◌,
}
use borg_backup_manager.Text.{eq_of_text_eq, eq_of_text_eq, Text, Text-discrete, text_eq, codes}
use borg_backup_manager.Dict
use borg_backup_manager.Dict.{Dict, get-put}
use borg_backup_manager.Dict.Keys.{length-put-some, put-Distinct, length-put}
use borg_backup_manager.BackupTasks.{
  is_current, Task, Tasks, Changes, is_active, is_protected, begin_task, prune,
}
use borg_backup_manager.BackupTasks.Changing.{
  change_task, success_message, warning_event, vacate, update_task, finish_task, fail_task,
  end_task, updated, completed, failed_with, vacate,
}
use borg_backup_manager.BackupTasks.Tidy.{
  IsWell, IsTidy, found_cases, length-last_twelve, with_event_brief, prune-IsTidy, put_well,
  begin_task-IsTidy,
}

-- The worker of a task updates it from its begin to its end, so while it is the current one; ids
-- of new tasks are not empty.
pub data Step : Tasks → Tasks → Type 0 where
  begins :
      (c : ℕ) (ident backup_type : Text) (now : ℕ) (s t : Tasks)
      → begin_task (c ∷ ident) backup_type now s ≡ some t
      → Step s t
  updates :
      (ident : Text) (changes : Changes) (now : ℕ) (s : Tasks)
      → is_protected s.current ident ≡ true
      → Step s (update_task ident changes now s)
  finishes :
      (ident : Text) (warned : Option Text) (now : ℕ) (s : Tasks)
      → Step s (finish_task ident warned now s)
  fails : (ident error : Text) (now : ℕ) (s : Tasks) → Step s (fail_task ident error now s)

pub data Reach : Tasks → Tasks → Type 0 where
  here : {s : Tasks} → Reach s s
  next : {r s t : Tasks} → Reach r s → Step s t → Reach r t

abbrev pub idle : Tasks
idle = record { tasks = []; current = none }

-- Whose task ends is not the current one any more; another's stays it.
abbrev vacated : Option Text → Text → Option Text
vacated current ident = if is_current current ident then none else current

vacated_keeps :
    (current : Option Text) (k j : Text)
    → (k ≡ j → ⊥)
    → is_protected current j ≡ true
    → is_protected (vacated current k) j ≡ true
vacated_keeps none k j n p = cc
vacated_keeps (some []) k j n p = cc
vacated_keeps (some (c ∷ cs)) k j n p = elim (Bool-cases (text_eq (c ∷ cs) k)) [
  | inl e ↦ absurd (n (sym (eq_of_text_eq (c ∷ cs) k e) ∙ eq_of_text_eq (c ∷ cs) j p))
  | inr e ↦ rw e p
]

ended-IsTidy :
    (ident : Text) (u t : Task) (s : Tasks)
    → Dict.get Text-discrete ident s.tasks ≡ some t
    → u.ident ≡ t.ident
    → is_active u ≡ false
    → length u.events ≤ 12
    → IsTidy s
    → IsTidy (
        prune (record {
          tasks = Dict.put Text-discrete ident u s.tasks;
          current = vacated s.current ident;
        }))
ended-IsTidy ident u t s g same over brief i =
    prune-IsTidy _ (put-Distinct Text-discrete ident u s.tasks i.distinct)
      (omega (arith, i.count, length-put Text-discrete ident u s.tasks))
      (put_well (IsWell (vacated s.current ident)) ident u s.tasks
        (record {
          keyed = (i.well ident t g).keyed ∙ sym same;
          alone = λ a. ground (arith, over, a);
          brief = brief;
        })
        (λ j v n h. record {
          keyed = (i.well j v h).keyed;
          alone = λ a. vacated_keeps s.current ident j n ((i.well j v h).alone a);
          brief = (i.well j v h).brief;
        }))

vacate_lem :
    (ident : Text) (s : Tasks)
    → vacate ident s ≡ record { tasks = s.tasks; current = vacated s.current ident }
vacate_lem ident s = elim (Bool-cases (is_current s.current ident)) [
  | inl e ↦ rw e refl
  | inr e ↦ rw e refl
]

end_task-none :
    (ident : Text) (change : Task → Task) (s : Tasks)
    → Dict.get Text-discrete ident s.tasks ≡ none
    → end_task ident change s ≡ s
unfolding end_task
end_task-none ident change s g = ground (arith, g)

end_task-some :
    (ident : Text) (change : Task → Task) (s : Tasks) (t : Task)
    → Dict.get Text-discrete ident s.tasks ≡ some t
    → end_task ident change s
      ≡ prune (vacate ident (record s { tasks = Dict.put Text-discrete ident (change t) s.tasks }))
unfolding end_task
end_task-some ident change s t g = ground (arith, g)

change_task-none :
    (ident : Text) (change : Task → Task) (s : Tasks)
    → Dict.get Text-discrete ident s.tasks ≡ none
    → change_task ident change s ≡ s
change_task-none ident change s g = ground (arith, g)

change_task-some :
    (ident : Text) (change : Task → Task) (s : Tasks) (t : Task)
    → Dict.get Text-discrete ident s.tasks ≡ some t
    → change_task ident change s
      ≡ record s { tasks = Dict.put Text-discrete ident (change t) s.tasks }
change_task-some ident change s t g = ground (arith, g)

end_task-IsTidy :
    (ident : Text) (change : Task → Task) (s : Tasks)
    → ((t : Task) → (change t).ident ≡ t.ident)
    → ((t : Task) → is_active (change t) ≡ false)
    → ((t : Task) → length (change t).events ≤ 12)
    → IsTidy s
    → IsTidy (end_task ident change s)
unfolding end_task
end_task-IsTidy ident change s same over brief i =
    elim (found_cases (Dict.get Text-discrete ident s.tasks)) [
      | inl g ↦ subst IsTidy (sym (end_task-none ident change s g)) i
      | inr g ↦
          subst IsTidy
            (sym (
              end_task-some ident change s g.0 g.1
              ∙ ap prune (
                  vacate_lem ident
                    (record s { tasks = Dict.put Text-discrete ident (change g.0) s.tasks }))))
            (ended-IsTidy ident (change g.0) g.0 s g.1 (same g.0) (over g.0) (brief g.0) i)
    ]

update_task-IsTidy :
    (ident : Text) (changes : Changes) (now : ℕ) (s : Tasks)
    → is_protected s.current ident ≡ true
    → IsTidy s
    → IsTidy (update_task ident changes now s)
unfolding update_task updated
update_task-IsTidy ident changes now s p i =
    elim (found_cases (Dict.get Text-discrete ident s.tasks)) [
      | inl g ↦ subst IsTidy (sym (change_task-none ident (updated changes now) s g)) i
      | inr g ↦
          subst IsTidy (sym (change_task-some ident (updated changes now) s g.0 g.1)) (record {
            distinct =
                put-Distinct Text-discrete ident (updated changes now g.0) s.tasks i.distinct;
            count = ground (
              arith,
              length-put-some Text-discrete ident (updated changes now g.0) g.0 s.tasks g.1,
              i.count,
            );
            well =
                put_well (IsWell s.current) ident (updated changes now g.0) s.tasks
                  (record {
                    keyed = (i.well ident g.0 g.1).keyed;
                    alone = λ a. p;
                    brief = with_event_brief changes.message now g.0 (i.well ident g.0 g.1).brief;
                  })
                  (λ j t n h. i.well j t h);
          })
    ]

completed_over :
    (warned : Option Text) (now : ℕ) (t : Task) → is_active (completed warned now t) ≡ false
unfolding completed
completed_over none now t = refl
completed_over (some w) now t = refl

completed_brief :
    (warned : Option Text) (now : ℕ) (t : Task) → length (completed warned now t).events ≤ 12
unfolding completed
completed_brief warned now t =
    length-last_twelve
      ((t.events ++ (now, success_message t.kind warned) ∷ []) ++ warning_event warned now)

failed_with_brief :
    (error : Text) (now : ℕ) (t : Task) → length (failed_with error now t).events ≤ 12
unfolding failed_with
failed_with_brief error now t =
    length-last_twelve (t.events ++ (now, codes "Fehler: " ++ error) ∷ [])

Step-IsTidy : {s t : Tasks} → Step s t → IsTidy s → IsTidy t
unfolding finish_task fail_task completed failed_with
Step-IsTidy (begins c ident backup_type now s t e) i =
    begin_task-IsTidy c ident backup_type now s t e i
Step-IsTidy (updates ident changes now s p) i = update_task-IsTidy ident changes now s p i
Step-IsTidy (finishes ident warned now s) i =
    end_task-IsTidy ident (completed warned now) s (λ t. refl) (completed_over warned now)
      (completed_brief warned now) i
Step-IsTidy (fails ident error now s) i =
    end_task-IsTidy ident (failed_with error now) s (λ t. refl) (λ t. refl)
      (failed_with_brief error now) i

-- However backups of the manager begin, are updated by the worker of the current task, finish and
-- fail, at most twelve tasks are kept, under distinct keys that are their ids, each with at most
-- twelve events, and only the current task is queued or running.
pub Reach-IsTidy : (s : Tasks) → Reach idle s → IsTidy s
unfolding Dict.get
Reach-IsTidy s here = record { distinct = tt; count = omega arith; well = λ k t g. cc }
Reach-IsTidy s (next r st) = Step-IsTidy st (Reach-IsTidy _ r)
