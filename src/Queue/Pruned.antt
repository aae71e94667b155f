-- ===== src/Queue/Pruned.antt =====
-- app/service.py, `_scheduled_backup_group`: the second phase prunes for jobs whose backup is usable.
use borg_backup_manager.Prelude.{
  ℕ, true, Option, none, some, List, [], ◌∷◌, ℕ_discrete, ◌≡◌, refl, arith, sym, subst, inl, inr,
  Bool-cases, All, All_imp,
}
use borg_backup_manager.Dict
use borg_backup_manager.Dict.{Dict, get-put}
use borg_backup_manager.Dict.Keys.{Distinct, put-Distinct}
use borg_backup_manager.Runs.{backup, prune, Status}
use borg_backup_manager.Queue.{
  Job, repository_id, Manager, Outcome, raised, answered, is_usable, has_retention, find_job,
}
use borg_backup_manager.Queue.Actions.{queue_job_action}
use borg_backup_manager.Queue.Manual.{World}
use borg_backup_manager.Queue.Groups
use borg_backup_manager.Queue.Groups.{
  Group, queue_kwargs, Backups, backup_queued, note_repository, backup_turn, queue_backups,
  statuses_of, awaited, Prunes, prune_job, prune_turn, queue_prunes,
}
use borg_backup_manager.Queue.Compaction.{no_prunes}

abbrev pub Found : ℕ → Dict ℕ ℕ → Type 0
Found j d = (n : ℕ) × (Dict.get ℕ_discrete j d ≡ some n)

-- The backup of the job ended with a usable status.
abbrev pub IsUsable : Dict ℕ Status → ℕ → Type 0
IsUsable statuses j =
    (s : Status) × ((Dict.get ℕ_discrete j statuses ≡ some s) × (is_usable s ≡ true))

pub record IsSound (statuses : Dict ℕ Status) (b : Prunes) : Type 0 where
  pub usable : (j : ℕ) → Found j b.prune_runs → IsUsable statuses j
  pub paired : (j : ℕ) → Found j b.prune_repository → Found j b.prune_runs
  pub distinct : Distinct ℕ_discrete b.prune_repository

-- A key that is found after an assignment is the new one or was found before.
found-put :
    (P : ℕ → Type 0) (j k n : ℕ) (d : Dict ℕ ℕ)
    → P j
    → (Found k d → P k)
    → Found k (Dict.put ℕ_discrete j n d)
    → P k
found-put P j k n d p f (v, e) = elim (ℕ_discrete j k) [
  | yes h ↦ subst P h p
  | no h ↦ f (v, ground (arith, get-put ℕ_discrete j k n d, h, e))
]

Found-new : (j n : ℕ) (d : Dict ℕ ℕ) → Found j (Dict.put ℕ_discrete j n d)
Found-new j n d = (n, ground (arith, get-put ℕ_discrete j j n d))

Found-old : (j k n : ℕ) (d : Dict ℕ ℕ) → Found k d → Found k (Dict.put ℕ_discrete j n d)
Found-old j k n d (v, e) = elim (ℕ_discrete j k) [
  | yes h ↦ subst (λ i. Found i (Dict.put ℕ_discrete j n d)) h (Found-new j n d)
  | no h ↦ (v, ground (arith, get-put ℕ_discrete j k n d, h, e))
]

module _ (w : World) (g : Group) (statuses : Dict ℕ Status) where
  prune_queued-IsSound :
      (j r : ℕ) (b : Prunes) (x : Manager × Outcome ℕ)
      → IsUsable statuses j
      → IsSound statuses b
      → IsSound statuses (Groups.prune_queued w g j r b x).1
  unfolding Groups.prune_queued
  prune_queued-IsSound j r b (m, answered n) u h = record {
    usable = λ k. found-put (IsUsable statuses) j k n b.prune_runs u (h.usable k);
    paired = λ k.
        found-put (λ i. Found i (Dict.put ℕ_discrete j n b.prune_runs)) j k r b.prune_repository
          (Found-new j n b.prune_runs) (λ f. Found-old j k n b.prune_runs (h.paired k f));
    distinct = put-Distinct ℕ_discrete j r b.prune_repository h.distinct;
  }
  prune_queued-IsSound j r b (m, raised why) u h = record {
    usable = h.usable;
    paired = h.paired;
    distinct = h.distinct;
  }

  prune_job-IsSound :
      (j : ℕ) (b : Prunes) (m : Manager) (o : Option Job)
      → IsUsable statuses j
      → IsSound statuses b
      → IsSound statuses (prune_job w g j b m o).1
  unfolding prune_job
  prune_job-IsSound j b m none u h = h
  prune_job-IsSound j b m (some job) u h = elim (Bool-cases (has_retention (some job))) [
    | inl e ↦
        rw (e, prune_job)
          (prune_queued-IsSound j (repository_id job) b
            (queue_job_action (w.probes m) j prune (queue_kwargs g) m) u h)
    | inr e ↦ rw (e, prune_job) h
  ]

  prune_turn-IsSound :
      (j : ℕ) (s : Status) (b : Prunes) (m : Manager)
      → Dict.get ℕ_discrete j statuses ≡ some s
      → IsSound statuses b
      → IsSound statuses (prune_turn w g j s b m).1
  unfolding prune_turn
  prune_turn-IsSound j s b m f h = elim (Bool-cases (is_usable s)) [
    | inl e ↦ rw (e, prune_turn) (prune_job-IsSound j b m (find_job j m) (s, (f, e)) h)
    | inr e ↦ rw (e, prune_turn) h
  ]

  queue_prunes-IsSound :
      (rest : Dict ℕ Status) (b : Prunes) (m : Manager)
      → All (λ e. Dict.get ℕ_discrete e.0 statuses ≡ some e.1) rest
      → IsSound statuses b
      → IsSound statuses (queue_prunes w g rest b m).1
  unfolding queue_prunes
  queue_prunes-IsSound [] b m a h = h
  queue_prunes-IsSound ((j, s) ∷ rest) b m a h =
      let turn = prune_turn w g j s b m in
      queue_prunes-IsSound rest turn.1 turn.0 a.1 (prune_turn-IsSound j s b m a.0 h)

clash : {o : Option Status} {s : Status} → o ≡ none → o ≡ some s → ⊥
clash e f = cc

-- Each entry of a dictionary is found under its key.
each_found :
    (d : Dict ℕ Status) → Distinct ℕ_discrete d → All (λ e. Dict.get ℕ_discrete e.0 d ≡ some e.1) d
unfolding Dict.get
each_found [] h = tt
each_found ((j, s) ∷ d) h = (
  ground arith,
  All_imp (λ (e : ℕ × Status). Dict.get ℕ_discrete e.0 d ≡ some e.1) _
      (λ e f. elim (ℕ_discrete j e.0) [
        | yes k ↦ absurd (clash (h.0) (subst (λ i. Dict.get ℕ_discrete i d ≡ some e.1) (sym k) f))
        | no k ↦ ground (arith, f, k)
      ])
      d (each_found d h.1),
)

module _ (w : World) (g : Group) where
  statuses-none :
      (m : Manager) (j : ℕ) (runs : Dict ℕ ℕ)
      → Dict.get ℕ_discrete j runs ≡ none
      → Dict.get ℕ_discrete j (statuses_of w m runs) ≡ none
  unfolding statuses_of Dict.get
  statuses-none m j [] h = refl
  statuses-none m j ((k, n) ∷ runs) h = ground (arith, h, statuses-none m j runs)

  pub statuses-Distinct :
      (m : Manager) (runs : Dict ℕ ℕ)
      → Distinct ℕ_discrete runs
      → Distinct ℕ_discrete (statuses_of w m runs)
  unfolding statuses_of
  statuses-Distinct m [] h = tt
  statuses-Distinct m ((k, n) ∷ runs) h = (statuses-none m k runs h.0, statuses-Distinct m runs h.1)

  noted-Distinct :
      (j : ℕ) (o : Option Job) (b : Backups)
      → Distinct ℕ_discrete b.backup_runs
      → Distinct ℕ_discrete (note_repository j o b).backup_runs
  unfolding note_repository
  noted-Distinct j none b h = h
  noted-Distinct j (some job) b h = h

  queued-Distinct :
      (j : ℕ) (b : Backups) (x : Manager × Outcome ℕ)
      → Distinct ℕ_discrete b.backup_runs
      → Distinct ℕ_discrete (backup_queued w g j b x).1.backup_runs
  unfolding backup_queued
  queued-Distinct j b (m, answered n) h = put-Distinct ℕ_discrete j n b.backup_runs h
  queued-Distinct j b (m, raised why) h = h

  pub backups-Distinct :
      (js : List ℕ) (b : Backups) (m : Manager)
      → Distinct ℕ_discrete b.backup_runs
      → Distinct ℕ_discrete (queue_backups w g js b m).1.backup_runs
  unfolding queue_backups backup_turn
  backups-Distinct [] b m h = h
  backups-Distinct (j ∷ js) b m h =
      let turn = backup_turn w g j b m in
      backups-Distinct js turn.1 turn.0 (
        queued-Distinct j (note_repository j (find_job j m) b)
          (queue_job_action (w.probes m) j backup (queue_kwargs g) m)
          (noted-Distinct j (find_job j m) b h))

  no_prunes-IsSound : (statuses : Dict ℕ Status) → IsSound statuses no_prunes
  unfolding Dict.get
  no_prunes-IsSound statuses = record { usable = λ j f. cc; paired = λ j f. cc; distinct = tt }

  pub prunes-IsSound :
      (statuses : Dict ℕ Status) (m : Manager)
      → Distinct ℕ_discrete statuses
      → IsSound statuses (queue_prunes w g statuses no_prunes m).1
  prunes-IsSound statuses m h =
      queue_prunes-IsSound w g statuses statuses no_prunes m (each_found statuses h)
        (no_prunes-IsSound statuses)
