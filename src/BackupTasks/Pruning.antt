-- ===== src/BackupTasks/Pruning.antt =====
-- app/manager_backup_progress.py, `_prune_locked`: its cut brings the tasks back to their limit.
use borg_backup_manager.Prelude.{
  All_imp, All-keep, if◌then◌else◌, ◌-◌, leb, none, ◌<◌, suc, inl, inr, ◌≤◌, length, Bool-cases,
  arith, some, subst, [], keep, ◌≢◌, List, ◌≡◌, ◌∷◌, All, ℕ,
}
use borg_backup_manager.Text.{Text, Text-discrete}
use borg_backup_manager.Dict
use borg_backup_manager.Dict.{Dict, get-pop}
use borg_backup_manager.Dict.Keys.{Distinct, length-pop, pop-Distinct, length-pop-le}
use borg_backup_manager.BackupTasks.{
  Task, Tasks, is_prunable, sort_tasks, values, pop_all, first, prune,
}
use borg_backup_manager.BackupTasks.Excess.{
  Holds, IsKeyed, IsIdle, keys_hold, values_hold, All-sort_tasks, excess_task,
}

length-pop_all : (ts : List Task) (d : Dict Text Task) → length (pop_all ts d) ≤ length d
unfolding pop_all
length-pop_all [] d = omega arith
length-pop_all (t ∷ ts) d = ground (
  arith,
  length-pop_all ts (Dict.pop Text-discrete t.ident d),
  length-pop-le Text-discrete t.ident d,
)

pop_all-Distinct :
    (ts : List Task) (d : Dict Text Task)
    → Distinct Text-discrete d
    → Distinct Text-discrete (pop_all ts d)
unfolding pop_all
pop_all-Distinct [] d h = h
pop_all-Distinct (t ∷ ts) d h = pop_all-Distinct ts _ (pop-Distinct Text-discrete t.ident d h)

-- The first of a list of tasks that stand in the dictionary takes one entry away.
first_pop :
    (ts : List Task) (d : Dict Text Task) (n : ℕ)
    → ts ≢ []
    → Distinct Text-discrete d
    → All (λ t. Holds d t.ident) ts
    → length (pop_all (first (suc n) ts) d) < length d
unfolding pop_all first
first_pop [] d n e h a = ground (arith, e)
first_pop (t ∷ ts) d n e h a = ground (
  arith,
  length-pop Text-discrete t.ident d a.0.0 h a.0.1,
  length-pop_all (first n ts) (Dict.pop Text-discrete t.ident d),
)

candidates_held :
    (s : Tasks)
    → All IsKeyed s.tasks
    → All (λ t. Holds s.tasks t.ident) (sort_tasks (keep (is_prunable s.current) (values s.tasks)))
candidates_held s k =
    let held = values_hold (Holds s.tasks) s.tasks (keys_hold s.tasks) k in
    All-sort_tasks (λ t. Holds s.tasks t.ident) (keep (is_prunable s.current) (values s.tasks))
      (All-keep (λ t. Holds s.tasks t.ident) (is_prunable s.current) (values s.tasks) held)

-- The tasks of `s` are within their limit, or one above it, before `prune`, and within it after.
pub prune_bounded :
    (s : Tasks)
    → Distinct Text-discrete s.tasks
    → All IsKeyed s.tasks
    → All (IsIdle s.current) s.tasks
    → length s.tasks ≤ 13
    → length (prune s).tasks ≤ 12
unfolding prune
prune_bounded s h k a n =
    let ts = sort_tasks (keep (is_prunable s.current) (values s.tasks)) in
    elim (Bool-cases (leb (length s.tasks) 12)) [
      | inl e ↦ ground (arith, e)
      | inr e ↦
          let more : length s.tasks - 12 ≡ suc (length s.tasks - 13) = ground (arith, e) in
          let some_task : ts ≢ [] = excess_task s.current s.tasks h k a (ground (arith, e)) in
          rw (e, more)
            (ground
              (arith, first_pop ts s.tasks (length s.tasks - 13) some_task h (candidates_held s k)))
    ]

abbrev cut : Tasks → List Task
cut s = first (length s.tasks - 12) (sort_tasks (keep (is_prunable s.current) (values s.tasks)))

pub prune-Distinct :
    (s : Tasks) → Distinct Text-discrete s.tasks → Distinct Text-discrete (prune s).tasks
unfolding prune
prune-Distinct s h = elim (Bool-cases (leb (length s.tasks) 12)) [
  | inl e ↦ rw e h
  | inr e ↦ rw e (pop_all-Distinct (cut s) s.tasks h)
]

get-pop_all :
    (ts : List Task) (d : Dict Text Task) (k : Text) (t : Task)
    → Dict.get Text-discrete k (pop_all ts d) ≡ some t
    → Dict.get Text-discrete k d ≡ some t
unfolding pop_all
get-pop_all [] d k t e = e
get-pop_all (u ∷ ts) d k t e =
    let popped = get-pop_all ts (Dict.pop Text-discrete u.ident d) k t e in
    ground (arith, get-pop Text-discrete u.ident k d, popped)

pub get-prune :
    (s : Tasks) (k : Text) (t : Task)
    → Dict.get Text-discrete k (prune s).tasks ≡ some t
    → Dict.get Text-discrete k s.tasks ≡ some t
unfolding prune
get-prune s k t e = elim (Bool-cases (leb (length s.tasks) 12)) [
  | inl h ↦ ground (arith, h, e)
  | inr h ↦ get-pop_all (cut s) s.tasks k t (
      subst
        (λ b.
          Dict.get Text-discrete k
            (if b then s else record s { tasks = pop_all (cut s) s.tasks }).tasks
          ≡ some t)
        h e)
]

pub prune_current : (s : Tasks) → (prune s).current ≡ s.current
unfolding prune
prune_current s = ground arith

entry_here :
    (d : Dict Text Task)
    → Distinct Text-discrete d
    → All (λ e. Dict.get Text-discrete e.0 d ≡ some e.1) d
unfolding Dict.get
entry_here [] h = tt
entry_here ((k, v) ∷ d) h = (
  ground arith,
  All_imp (λ e. Dict.get Text-discrete e.0 d ≡ some e.1)
      (λ e. Dict.get Text-discrete e.0 ((k, v) ∷ d) ≡ some e.1)
      (λ e g. elim (Text-discrete k e.0) [
        | yes q ↦ ground (arith, g, h.0, subst (λ i. Dict.get Text-discrete i d ≡ none) q h.0)
        | no n ↦ ground (arith, n, g)
      ])
      d (entry_here d h.1),
)

-- What holds of each task that the dictionary answers holds of each entry.
pub All-of_get :
    (P : Text × Task → Type 0) (d : Dict Text Task)
    → Distinct Text-discrete d
    → ((k : Text) (t : Task) → Dict.get Text-discrete k d ≡ some t → P (k, t))
    → All P d
All-of_get P d h f =
    All_imp (λ e. Dict.get Text-discrete e.0 d ≡ some e.1) P (λ e g. f e.0 e.1 g) d (entry_here d h)
