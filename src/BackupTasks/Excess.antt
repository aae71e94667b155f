-- ===== src/BackupTasks/Excess.antt =====
-- app/manager_backup_progress.py: with a task too many there is one that may be removed.
use borg_backup_manager.Prelude.{
  All_imp, none, ◌<◌, ◌∙◌, refl, inl, inr, sym, ◌≤◌, length, Bool-cases, false, arith, some, true,
  subst, [], keep, ◌≢◌, List, ◌≡◌, ◌∷◌, Option, All, Bool,
}
use borg_backup_manager.Text.{Text, Text-discrete, eq_of_text_eq}
use borg_backup_manager.Dict
use borg_backup_manager.Dict.{Dict, get-pop}
use borg_backup_manager.Dict.Keys.{Distinct}
use borg_backup_manager.BackupTasks.{
  Task, is_active, is_protected, is_prunable, insert_task, sort_tasks, values,
}

abbrev pub Holds : Dict Text Task → Text → Type 0
Holds d ident = (t : Task) × (Dict.get Text-discrete ident d ≡ some t)

-- An entry stands under the id of its task.
abbrev pub IsKeyed : Text × Task → Type 0
IsKeyed e = e.0 ≡ e.1.ident

-- Only the current task is active.
abbrev pub IsIdle : Option Text → Text × Task → Type 0
IsIdle current e = is_active e.1 ≡ true → is_protected current e.0 ≡ true

Holds-cons :
    (k : Text) (v : Task) (d : Dict Text Task) (i : Text) → Holds d i → Holds ((k, v) ∷ d) i
unfolding Dict.get
Holds-cons k v d i h = elim (Text-discrete k i) [
  | yes e ↦ (v, ground (arith, e))
  | no n ↦ (h.0, ground (arith, n, h.1))
]

pub keys_hold : (d : Dict Text Task) → All (λ e. Holds d e.0) d
unfolding Dict.get
keys_hold [] = tt
keys_hold ((k, v) ∷ d) = (
  (v, ground arith),
  All_imp (λ e. Holds d e.0) (λ e. Holds ((k, v) ∷ d) e.0) (λ e h. Holds-cons k v d e.0 h) d
      (keys_hold d),
)

pub values_hold :
    (P : Text → Type 0) (d : Dict Text Task)
    → All (λ e. P e.0) d
    → All IsKeyed d
    → All (λ t. P t.ident) (values d)
unfolding values
values_hold P [] a k = tt
values_hold P (e ∷ d) a k = (subst P k.0 a.0, values_hold P d a.1 k.1)

All-insert_task :
    (P : Task → Type 0) (t : Task) (us : List Task) → P t → All P us → All P (insert_task t us)
unfolding insert_task
All-insert_task P t [] p a = (p, tt)
All-insert_task P t (u ∷ us) p a = ground (arith, All-insert_task P t us p a.1)

pub All-sort_tasks : (P : Task → Type 0) (ts : List Task) → All P ts → All P (sort_tasks ts)
unfolding sort_tasks
All-sort_tasks P [] a = tt
All-sort_tasks P (t ∷ ts) a = All-insert_task P t (sort_tasks ts) a.0 (All-sort_tasks P ts a.1)

insert_task_nil : (t : Task) (us : List Task) → insert_task t us ≢ []
unfolding insert_task
insert_task_nil t [] e = cc
insert_task_nil t (u ∷ us) e = ground arith

sort_tasks_nil : (ts : List Task) → sort_tasks ts ≡ [] → ts ≡ []
unfolding sort_tasks
sort_tasks_nil [] e = refl
sort_tasks_nil (t ∷ ts) e = ground (arith, insert_task_nil t (sort_tasks ts) e)

keep_nil : (p : Task → Bool) (ts : List Task) → keep p ts ≡ [] → All (λ t. p t ≡ false) ts
keep_nil p [] e = tt
keep_nil p (t ∷ ts) e = elim (Bool-cases (p t)) [
  | inl h ↦ ground arith
  | inr h ↦ (h, keep_nil p ts (ground arith))
]

protected_same :
    (current : Option Text) (i j : Text)
    → is_protected current i ≡ true
    → is_protected current j ≡ true
    → i ≡ j
protected_same none i j h g = cc
protected_same (some []) i j h g = cc
protected_same (some (c ∷ cs)) i j h g =
    sym (eq_of_text_eq (c ∷ cs) i h) ∙ eq_of_text_eq (c ∷ cs) j g

unprunable-is_protected :
    (current : Option Text) (e : Text × Task)
    → IsKeyed e
    → IsIdle current e
    → is_prunable current e.1 ≡ false
    → is_protected current e.0 ≡ true
unfolding is_prunable
unprunable-is_protected current e k a u = elim (Bool-cases (is_protected current e.1.ident)) [
  | inl h ↦ subst (λ i. is_protected current i ≡ true) (sym k) h
  | inr h ↦ a (ground (arith, h, u))
]

-- Without a prunable task every key is that of the current one.
unprunable_keys :
    (current : Option Text) (d : Dict Text Task)
    → All IsKeyed d
    → All (IsIdle current) d
    → All (λ t. is_prunable current t ≡ false) (values d)
    → All (λ e. is_protected current e.0 ≡ true) d
unfolding values
unprunable_keys current [] k a u = tt
unprunable_keys current (e ∷ d) k a u =
    (unprunable-is_protected current e k.0 a.0 u.0, unprunable_keys current d k.1 a.1 u.1)

few_keys :
    (current : Option Text) (d : Dict Text Task)
    → Distinct Text-discrete d
    → All (λ e. is_protected current e.0 ≡ true) d
    → length d ≤ 1
unfolding Dict.get
few_keys current [] h a = omega arith
few_keys current (e ∷ []) h a = omega arith
few_keys current (e ∷ f ∷ d) h a = ground (arith, h.0, protected_same current e.0 f.0 a.0 a.1.0)

-- With one task too many there is a task to remove.
pub excess_task :
    (current : Option Text) (d : Dict Text Task)
    → Distinct Text-discrete d
    → All IsKeyed d
    → All (IsIdle current) d
    → 1 < length d
    → sort_tasks (keep (is_prunable current) (values d)) ≢ []
excess_task current d h k a n e =
    let none_left = keep_nil (is_prunable current) (values d) (sort_tasks_nil _ e) in
    ground (arith, few_keys current d h (unprunable_keys current d k a none_left))
