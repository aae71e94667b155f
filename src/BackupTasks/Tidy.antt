-- ===== src/BackupTasks/Tidy.antt =====
-- app/manager_backup_progress.py: the order that the tasks are kept in, and that their cut and a new
-- task keep it.
use borg_backup_manager.Prelude.{
  ◌⊎◌, false, ◌++◌, ◌-◌, sym, subst, arith, ◌-◌, ◌≤◌, true, ◌≡◌, Option, List, length, ℕ,
  Bool-cases, inl, inr, refl, none, some, [], ◌∷◌,
}
use borg_backup_manager.Text.{
  length-drop, text_eq_refl, eq_of_text_eq, eq_of_text_eq, Text, Text-discrete,
}
use borg_backup_manager.Dict
use borg_backup_manager.Dict.{Dict, get-put}
use borg_backup_manager.Dict.Keys.{Distinct, put-Distinct, length-put}
use borg_backup_manager.BackupTasks.{
  Task, Tasks, Kind, is_active, is_protected, is_busy, begin_task, prune, started, new_task,
  last_twelve, parse_kind,
}
use borg_backup_manager.BackupTasks.Changing.{with_event}
use borg_backup_manager.BackupTasks.Excess.{IsKeyed, IsIdle}
use borg_backup_manager.BackupTasks.Pruning.{
  prune_bounded, prune-Distinct, get-prune, prune_current, All-of_get,
}

-- A task stands under its id, is the current one while it is active, and has at most twelve events.
pub record IsWell (current : Option Text) (k : Text) (t : Task) : Type 0 where
  pub keyed : k ≡ t.ident
  pub alone : is_active t ≡ true → is_protected current k ≡ true
  pub brief : length t.events ≤ 12

pub record IsTidy (s : Tasks) : Type 0 where
  pub distinct : Distinct Text-discrete s.tasks
  pub count : length s.tasks ≤ 12
  pub well :
      (k : Text) (t : Task) → Dict.get Text-discrete k s.tasks ≡ some t → IsWell s.current k t

pub found_cases {ℓ} : {A : Type ℓ} (o : Option A) → (o ≡ none) ⊎ ((a : A) × (o ≡ some a))
found_cases none = inl refl
found_cases (some a) = inr (a, refl)

pub length-last_twelve : (xs : List (ℕ × Text)) → length (last_twelve xs) ≤ 12
length-last_twelve xs = omega (arith, length-drop (length xs - 12) xs)

pub with_event_brief :
    (m : Option Text) (now : ℕ) (t : Task) → length t.events ≤ 12 → length (with_event m now t) ≤ 12
with_event_brief none now t h = h
with_event_brief (some []) now t h = h
with_event_brief (some (c ∷ m)) now t h =
    ground (arith, length-last_twelve (t.events ++ (now, c ∷ m) ∷ []))

-- A task that is active while nothing is being created does not exist.
pub busy_task :
    (current : Option Text) (d : Dict Text Task) (k : Text) (t : Task)
    → is_protected current k ≡ true
    → Dict.get Text-discrete k d ≡ some t
    → is_active t ≡ true
    → is_busy (record { tasks = d; current = current }) ≡ true
unfolding is_busy
busy_task none d k t p g a = cc
busy_task (some []) d k t p g a = cc
busy_task (some (c ∷ cs)) d k t p g a =
    rw (subst (λ i. Dict.get Text-discrete i d ≡ some t) (sym (eq_of_text_eq (c ∷ cs) k p)) g) a

-- The cut of a state that is at most one task above its limit is sound.
pub prune-IsTidy :
    (s : Tasks)
    → Distinct Text-discrete s.tasks
    → length s.tasks ≤ 13
    → ((k : Text) (t : Task) → Dict.get Text-discrete k s.tasks ≡ some t → IsWell s.current k t)
    → IsTidy (prune s)
prune-IsTidy s h n w = record {
  distinct = prune-Distinct s h;
  count =
      prune_bounded s h (All-of_get IsKeyed s.tasks h (λ k t g. (w k t g).keyed))
        (All-of_get (IsIdle s.current) s.tasks h (λ k t g. (w k t g).alone)) n;
  well = λ k t g. subst (λ c. IsWell c k t) (sym (prune_current s)) (w k t (get-prune s k t g));
}

-- A write at `k` keeps what holds of each task, if it holds of the new one.
pub put_well :
    (P : Text → Task → Type 0) (k : Text) (v : Task) (d : Dict Text Task)
    → P k v
    → ((j : Text) (t : Task) → (k ≡ j → ⊥) → Dict.get Text-discrete j d ≡ some t → P j t)
    → (j : Text) (t : Task) → Dict.get Text-discrete j (Dict.put Text-discrete k v d) ≡ some t
    → P j t
put_well P k v d p f j t g = elim (Text-discrete k j) [
  | yes e ↦
      let same : v ≡ t = ground (arith, e, get-put Text-discrete k j v d, g) in
      subst (λ i. P i t) e (subst (λ u. P k u) same p)
  | no n ↦ f j t n (ground (arith, n, get-put Text-discrete k j v d, g))
]

pub started-IsTidy :
    (c : ℕ) (ident : Text) (kind : Kind) (now : ℕ) (s : Tasks)
    → is_busy s ≡ false
    → IsTidy s
    → IsTidy (prune (started (c ∷ ident) kind now s))
started-IsTidy c ident kind now s idle i =
    prune-IsTidy (started (c ∷ ident) kind now s)
      (put-Distinct Text-discrete (c ∷ ident) (new_task (c ∷ ident) kind now) s.tasks i.distinct)
      (omega (
        arith,
        i.count,
        length-put Text-discrete (c ∷ ident) (new_task (c ∷ ident) kind now) s.tasks,
      ))
      (put_well (IsWell (some (c ∷ ident))) (c ∷ ident) (new_task (c ∷ ident) kind now) s.tasks
        (record { keyed = refl; alone = λ a. text_eq_refl (c ∷ ident); brief = omega arith })
        (λ j t n g. record {
          keyed = (i.well j t g).keyed;
          alone = λ a.
              let busy = busy_task s.current s.tasks j t ((i.well j t g).alone a) g a in
              ground (arith, idle, busy);
          brief = (i.well j t g).brief;
        }))

pub begin_task-IsTidy :
    (c : ℕ) (ident backup_type : Text) (now : ℕ) (s t : Tasks)
    → begin_task (c ∷ ident) backup_type now s ≡ some t
    → IsTidy s
    → IsTidy t
unfolding begin_task
begin_task-IsTidy c ident backup_type now s t e i = elim (Bool-cases (is_busy s)) [
  | inl h ↦ ground (arith, h, e)
  | inr h ↦ elim (found_cases (parse_kind backup_type)) [
    | inl g ↦ ground (arith, h, g, e)
    | inr g ↦
        let same : t ≡ prune (started (c ∷ ident) g.0 now s) = ground (arith, h, g.1, e) in
        subst IsTidy (sym same) (started-IsTidy c ident g.0 now s h i)
  ]
]
