-- ===== src/Queue/Report.antt =====
-- app/service.py, `_scheduled_backup_group`: what lets a repository be compacted at the end.
use borg_backup_manager.Prelude.{
  ℕ, ◌≤◌, true, some, List, [], ◌∷◌, contains, ℕ_discrete, ◌==◌, ◌≡◌, arith, inl, inr, Bool-cases,
  All, All_imp,
}
use borg_backup_manager.Dict
use borg_backup_manager.Dict.{Dict}
use borg_backup_manager.Dict.Keys.{Distinct}
use borg_backup_manager.Runs.{Status}
use borg_backup_manager.Queue.{Manager}
use borg_backup_manager.Queue.Manual.{World}
use borg_backup_manager.Queue.Groups.{Group, queue_backups, statuses_of, awaited}
use borg_backup_manager.Queue.Compaction.{
  has_succeeded, GroupSettings, turns_of, Report, no_backups, compact_phase, prune_phase,
  scheduled_backup_group,
}
use borg_backup_manager.Queue.Pruned.{
  Found, IsUsable, IsSound, prunes-IsSound, backups-Distinct, statuses-Distinct,
}
use borg_backup_manager.Queue.Compacted.{jobs_of, turns_exact, representative_safe}

Found-add : (k j q : ℕ) (d : Dict ℕ ℕ) → Found k d → Found k ((j, q) ∷ d)
unfolding Dict.get
Found-add k j q d (v, e) = elim (ℕ_discrete j k) [
  | yes h ↦ (q, ground (arith, h))
  | no h ↦ (v, ground (arith, h, e))
]

here-Found : (j q : ℕ) (d : Dict ℕ ℕ) → Found j ((j, q) ∷ d)
unfolding Dict.get
here-Found j q d = (q, ground arith)

jobs_of-Found : (r : ℕ) (d : Dict ℕ ℕ) → All (λ k. Found k d) (jobs_of r d)
unfolding jobs_of
jobs_of-Found r [] = tt
jobs_of-Found r ((j, q) ∷ d) =
    let rest : All (λ k. Found k ((j, q) ∷ d)) (jobs_of r d) =
      All_imp (λ k. Found k d) _ (λ k f. Found-add k j q d f) (jobs_of r d) (jobs_of-Found r d) in
    elim (Bool-cases (q == r)) [
      | inl e ↦ rw (e, jobs_of) (here-Found j q d, rest)
      | inr e ↦ rw (e, jobs_of) rest
    ]

module _ (w : World) (g : Group) (s : GroupSettings) (job_ids : List ℕ) (m : Manager) where
  abbrev report : Report
  report = (scheduled_backup_group w g s job_ids m).1

  report-IsSound : IsSound report.backup_statuses report.prunes
  unfolding scheduled_backup_group prune_phase compact_phase
  report-IsSound =
      let backups = queue_backups w g job_ids no_backups m in
      let statuses : Dict ℕ Status = statuses_of w backups.0 backups.1.backup_runs in
      prunes-IsSound w g statuses (awaited w backups.1.backup_runs backups.0) (
        statuses-Distinct w g backups.0 backups.1.backup_runs
          (backups-Distinct w g job_ids no_backups m tt))

  -- What lets a repository be compacted with the job `j` for it.
  pub record IsCompactable (r j : ℕ) : Type 0 where
    pub setting : s.compact_after_prune ≡ true
    pub member : contains j (jobs_of r report.prunes.prune_repository) ≡ true
    pub least : All (λ k. j ≤ k) (jobs_of r report.prunes.prune_repository)
    pub pruned :
        All
          (λ k. has_succeeded report.prune_statuses k ≡ true)
          (jobs_of r report.prunes.prune_repository)
    pub backed_up : All (IsUsable report.backup_statuses) (jobs_of r report.prunes.prune_repository)

  turn-IsCompactable :
      (r j : ℕ)
      → Dict.get ℕ_discrete r (turns_of s report.prune_statuses report.prunes) ≡ some j
      → IsCompactable r j
  turn-IsCompactable r j e =
      let exact = (turns_exact s report.prune_statuses report.prunes r).0 in
      elim (Bool-cases s.compact_after_prune) [
        | inl b ↦
            let safe =
              representative_safe report.prune_statuses (jobs_of r report.prunes.prune_repository) j
                (ground (arith, exact, b, e)) in
            record {
              setting = b;
              member = safe.0;
              least = safe.1.1;
              pruned = safe.1.0;
              backed_up =
                  All_imp (λ k. Found k report.prunes.prune_repository) _
                    (λ k f. report-IsSound.usable k (report-IsSound.paired k f)) _
                    (jobs_of-Found r report.prunes.prune_repository);
            }
        | inr b ↦ ground (arith, exact, b, e)
      ]

  -- A scheduled group gives a repository a turn of its third phase only if the setting is on, and
  -- for the least job that it pruned there, after every prune run of the group in it succeeded and
  -- the backup of every job that was pruned there was usable; and no repository has two turns.
  pub scheduled_backup_group_compacts :
      (r j : ℕ)
      → Dict.get ℕ_discrete r report.turns ≡ some j
      → IsCompactable r j × Distinct ℕ_discrete report.turns
  unfolding scheduled_backup_group prune_phase compact_phase
  scheduled_backup_group_compacts r j e =
      (turn-IsCompactable r j e, (turns_exact s report.prune_statuses report.prunes r).1)
