-- ===== src/Planner/Limits.antt =====
-- The limits that `_execution_plan` (app/service.py) keeps, layer by layer.
use borg_backup_manager.Prelude.{
  max, ◌≤◌, ◌++◌, ℕ, ◌+◌, ◌<◌, Bool, true, Option, none, some, List, [], ◌∷◌, length, length-append,
  ◌≡◌, refl, arith,
}
use borg_backup_manager.Runs.{
  Run, RepositoryKey, RepositoryKey-discrete, MountKey, MountKey-discrete, ScheduleKey,
  ScheduleKey-discrete,
}
use borg_backup_manager.Planner.{
  block, occupy, select, plan, schedule_reason, mount_reason, source_stats_reason, global_reason,
  Layers, Plan, is_source_stats, repository_reason, at_repository, at_mount, at_schedule,
}
use borg_backup_manager.Planner.Step.{IsCleared}
use borg_backup_manager.Planner.Layer.{layer_limit, count, unit, has_key}

length-at_repository :
    (k : RepositoryKey) (o : Option RepositoryKey) (n : ℕ) (occupants : RepositoryKey → List ℕ)
    → length (at_repository o n occupants k)
      ≡ length (occupants k) + unit (has_key RepositoryKey-discrete k o)
length-at_repository k none n occupants = omega arith
length-at_repository k (some key) n occupants = ground (arith, length-append (occupants k) (n ∷ []))

length-at_mount :
    (limit : MountKey → ℕ) (k : MountKey) (o : Option MountKey) (n : ℕ)
    (occupants : MountKey → List ℕ)
    → 0 < limit k
    → length (at_mount limit o n occupants k)
      ≡ length (occupants k) + unit (has_key MountKey-discrete k o)
length-at_mount limit k none n occupants h = omega arith
length-at_mount limit k (some key) n occupants h = elim (MountKey-discrete key k) [
  | yes e ↦ let pos : 0 < limit key = rw e h in ground (arith, length-append (occupants k) (n ∷ []))
  | no e ↦ ground arith
]

length-at_schedule :
    (k : ScheduleKey) (o : Option ScheduleKey) (n : ℕ) (occupants : ScheduleKey → List ℕ)
    → length (at_schedule o n occupants k)
      ≡ length (occupants k) + unit (has_key ScheduleKey-discrete k o)
length-at_schedule k none n occupants = omega arith
length-at_schedule k (some key) n occupants = ground (arith, length-append (occupants k) (n ∷ []))

module _ (l : Layers) where
  abbrev pub uses_repository : RepositoryKey → Run → Bool
  uses_repository key r = has_key RepositoryKey-discrete key (l.repository_key r)

  abbrev pub uses_mount : MountKey → Run → Bool
  uses_mount key r = has_key MountKey-discrete key (l.mount_key r)

  abbrev pub uses_schedule : ScheduleKey → Run → Bool
  uses_schedule key r = has_key ScheduleKey-discrete key (l.schedule_key r)

abbrev pub scans_sources : Run → Bool
scans_sources r = is_source_stats r.action

module _ (l : Layers) (r : Run) (p : Plan) (c : IsCleared l p r) where
  repository_free :
      (key : RepositoryKey)
      → uses_repository l key r ≡ true
      → length (p.repository_occupants key) < 1
  unfolding repository_reason
  repository_free key h = go (l.repository_key r) refl
    where
      go :
          (o : Option RepositoryKey)
          → l.repository_key r ≡ o
          → length (p.repository_occupants key) < 1
      go none e = ground (arith, h)
      go (some k) e = elim (RepositoryKey-discrete k key) [
        | yes same ↦ ground (arith, c.repository, h)
        | no other ↦ ground (arith, h)
      ]

  mount_free :
      (key : MountKey)
      → 0 < l.mount_limit key
      → uses_mount l key r ≡ true
      → length (p.mount_occupants key) < l.mount_limit key
  unfolding mount_reason
  mount_free key pos h = go (l.mount_key r) refl
    where
      go :
          (o : Option MountKey)
          → l.mount_key r ≡ o
          → length (p.mount_occupants key) < l.mount_limit key
      go none e = ground (arith, h)
      go (some k) e = elim (MountKey-discrete k key) [
        | yes same ↦ ground (arith, c.mount, h)
        | no other ↦ ground (arith, h)
      ]

  schedule_free :
      (key : ScheduleKey)
      → 0 < l.schedule_limit key
      → uses_schedule l key r ≡ true
      → length (p.schedule_occupants key) < l.schedule_limit key
  unfolding schedule_reason
  schedule_free key pos h = go (l.schedule_key r) refl
    where
      go :
          (o : Option ScheduleKey)
          → l.schedule_key r ≡ o
          → length (p.schedule_occupants key) < l.schedule_limit key
      go none e = ground (arith, h)
      go (some k) e = elim (ScheduleKey-discrete k key) [
        | yes same ↦ ground (arith, c.schedule, h)
        | no other ↦ ground (arith, h)
      ]

  source_stats_free :
      scans_sources r ≡ true → length p.source_stats_occupants < l.source_stats_limit
  unfolding source_stats_reason
  source_stats_free h = ground (arith, c.source_stats)

  global_free : 0 < l.global_limit → length p.global_occupants < l.global_limit
  unfolding global_reason
  global_free h = ground (arith, c.global)

abbrev every_run : Run → Bool
every_run r = true

keep-every_run : (rows : List Run) → count every_run rows ≡ length rows
keep-every_run [] = refl
keep-every_run (r ∷ rows) = omega (arith, keep-every_run rows)

module _ (l : Layers) where
  -- However the queue is filled, a repository is used by at most one of the running and the newly
  -- selected runs, or by the running ones alone.
  pub one_run_per_repository :
      (running queued : List Run) (key : RepositoryKey)
      → count (uses_repository l key) (running ++ (plan l running queued).selected)
        ≤ max 1 (count (uses_repository l key) running)
  one_run_per_repository running queued key =
      layer_limit l (λ p. length (p.repository_occupants key)) (uses_repository l key) 1
        (λ r p.
          unfold select in
          length-at_repository key (l.repository_key r) r.ident p.repository_occupants)
        (λ r p.
          unfold occupy in
          length-at_repository key (l.repository_key r) r.ident p.repository_occupants)
        (λ r why p. unfold block in refl) (λ r p c h. repository_free l r p c key h) running queued
        refl

  -- The running and the newly selected runs on one filesystem keep its limit, or are no more than
  -- ran already; a limit of 0 is no limit.
  pub mount_limit_kept :
      (running queued : List Run) (key : MountKey)
      → 0 < l.mount_limit key
      → count (uses_mount l key) (running ++ (plan l running queued).selected)
        ≤ max (l.mount_limit key) (count (uses_mount l key) running)
  mount_limit_kept running queued key pos =
      layer_limit l (λ p. length (p.mount_occupants key)) (uses_mount l key) (l.mount_limit key)
        (λ r p.
          unfold select in
          length-at_mount l.mount_limit key (l.mount_key r) r.ident p.mount_occupants pos)
        (λ r p.
          unfold occupy in
          length-at_mount l.mount_limit key (l.mount_key r) r.ident p.mount_occupants pos)
        (λ r why p. unfold block in refl) (λ r p c h. mount_free l r p c key pos h) running queued
        refl

  -- With a limit on a schedule, the runs of the schedule that run or are selected stay within the
  -- limit, or are the running ones alone.
  pub schedule_limit_kept :
      (running queued : List Run) (key : ScheduleKey)
      → 0 < l.schedule_limit key
      → count (uses_schedule l key) (running ++ (plan l running queued).selected)
        ≤ max (l.schedule_limit key) (count (uses_schedule l key) running)
  schedule_limit_kept running queued key pos =
      layer_limit l (λ p. length (p.schedule_occupants key)) (uses_schedule l key)
        (l.schedule_limit key)
        (λ r p.
          unfold select in length-at_schedule key (l.schedule_key r) r.ident p.schedule_occupants)
        (λ r p.
          unfold occupy in length-at_schedule key (l.schedule_key r) r.ident p.schedule_occupants)
        (λ r why p. unfold block in refl) (λ r p c h. schedule_free l r p c key pos h) running
        queued refl

  -- The source scans among the running and the newly selected runs keep their limit, or are no
  -- more than ran already.
  pub source_stats_limit_kept :
      (running queued : List Run)
      → count scans_sources (running ++ (plan l running queued).selected)
        ≤ max l.source_stats_limit (count scans_sources running)
  source_stats_limit_kept running queued =
      layer_limit l (λ p. length p.source_stats_occupants) scans_sources l.source_stats_limit
        (λ r p.
          unfold select in ground (arith, length-append p.source_stats_occupants (r.ident ∷ [])))
        (λ r p.
          unfold occupy in ground (arith, length-append p.source_stats_occupants (r.ident ∷ [])))
        (λ r why p. unfold block in refl) (λ r p c h. source_stats_free l r p c h) running queued
        refl

  -- All the running and the newly selected runs together keep the global limit, or are no more
  -- than ran already; a limit of 0 is no limit.
  pub global_limit_kept :
      (running queued : List Run)
      → 0 < l.global_limit
      → length (running ++ (plan l running queued).selected) ≤ max l.global_limit (length running)
  global_limit_kept running queued pos =
      let kept =
        layer_limit l (λ p. length p.global_occupants) every_run l.global_limit
          (λ r p. unfold select in length-append p.global_occupants (r.ident ∷ []))
          (λ r p. unfold occupy in length-append p.global_occupants (r.ident ∷ []))
          (λ r why p. unfold block in refl) (λ r p c h. global_free l r p c pos) running queued
          refl in
      omega (
        arith,
        kept,
        keep-every_run running,
        keep-every_run (running ++ (plan l running queued).selected),
      )
