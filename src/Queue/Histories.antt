-- ===== src/Queue/Histories.antt =====
-- app/service.py: a scheduled group and the maintenance after a manual backup are histories of the
-- run queue.
use borg_backup_manager.Prelude.{Option, ℕ, Bool, ◌&&◌, List, [], ◌∷◌, inl, inr, Bool-cases}
use borg_backup_manager.Text.{Text}
use borg_backup_manager.Runs.{Action, backup, prune, compact, Status}
use borg_backup_manager.Queue.{
  repository_id, has_retention, Job, Dict, is_usable, Manager, Outcome, raised, answered, Probes,
  find_job,
}
use borg_backup_manager.Queue.Actions.{Request, queue_job_action}
use borg_backup_manager.Queue.{Refusal}
use borg_backup_manager.Prelude.{some, none, []}
use borg_backup_manager.Queue.Compaction.{
  Compacts, compact_queued, compact_turn, queue_compacts, awaited_all, GroupSettings, compact_phase,
  prune_phase, scheduled_backup_group, no_backups, no_prunes, no_compacts, turns_of,
}
use borg_backup_manager.Queue.Manual.{
  release, after_refresh, conclude, finish_manual_backup_chain, World, in_chain, is_success,
  after_compact, after_prune, prune_queued, maintain,
}
use borg_backup_manager.Queue.Groups
use borg_backup_manager.Queue.Groups.{
  statuses_of, Prunes, prune_turn, queue_prunes, prune_job, awaited, Group, queue_kwargs,
  report_failure, record_schedule_error, Backups, backup_queued, note_repository, backup_turn,
  queue_backups,
}
use borg_backup_manager.Queue.Steps.{releases, queues, records_error, Reach, here, next}

pub then_Reach : {m n o : Manager} → Reach m n → Reach n o → Reach m o
then_Reach r here = r
then_Reach r (next s t) = next (then_Reach r s) t

-- What the other tasks do while a coroutine awaits is a history of the queue too.
module _ (w : World) (others : (m : Manager) → Reach m (w.meanwhile m)) where
  queue_Reach :
      (p : Probes) (job_id : ℕ) (a : Action) (q : Request) (m : Manager)
      → Reach m (queue_job_action p job_id a q m).0
  queue_Reach p job_id a q m = next here (queues p job_id a q m)

  after_compact-Reach : (x : Manager × Outcome ℕ) → Reach x.0 (after_compact w x).0
  unfolding after_compact
  after_compact-Reach (m, raised why) = here
  after_compact-Reach (m, answered n) = others m

  after_prune-Reach :
      (job_id : ℕ) (token : Text) (b : Bool) (s : Status) (m : Manager)
      → Reach m (after_prune w job_id token b s m).0
  unfolding after_prune
  after_prune-Reach job_id token b s m = elim (Bool-cases (is_success s && b)) [
    | inl e ↦
        rw (e, after_prune)
          (then_Reach (queue_Reach (w.probes m) job_id compact (in_chain token) m)
            (after_compact-Reach (queue_job_action (w.probes m) job_id compact (in_chain token) m)))
    | inr e ↦ rw (e, after_prune) here
  ]

  prune_queued-Reach :
      (job_id : ℕ) (token : Text) (b : Bool) (x : Manager × Outcome ℕ)
      → Reach x.0 (prune_queued w job_id token b x).0
  unfolding prune_queued
  prune_queued-Reach job_id token b (m, raised why) = here
  prune_queued-Reach job_id token b (m, answered n) =
      then_Reach (others m) (after_prune-Reach job_id token b (w.ended m n) (w.meanwhile m))

  pub maintain-Reach :
      (job_id : ℕ) (token : Text) (b : Bool) (m : Manager) → Reach m (maintain w job_id token b m).0
  unfolding maintain
  maintain-Reach job_id token b m =
      then_Reach (queue_Reach (w.probes m) job_id prune (in_chain token) m) (
        prune_queued-Reach job_id token b
          (queue_job_action (w.probes m) job_id prune (in_chain token) m))

  report-Reach :
      (g : Group) (j : ℕ) (message : Text) (m : Manager)
      → Reach m (report_failure w g j message m).0
  report-Reach g j message m =
      then_Reach (next here (records_error g j message m))
        (others (record_schedule_error g j message m).0)

  backup_queued-Reach :
      (g : Group) (j : ℕ) (b : Backups) (x : Manager × Outcome ℕ)
      → Reach x.0 (backup_queued w g j b x).0
  unfolding backup_queued
  backup_queued-Reach g j b (m, answered n) = here
  backup_queued-Reach g j b (m, raised why) = report-Reach g j ((w.probes m).message why) m

  queue_backups-Reach :
      (g : Group) (js : List ℕ) (b : Backups) (m : Manager) → Reach m (queue_backups w g js b m).0
  unfolding queue_backups backup_turn
  queue_backups-Reach g [] b m = here
  queue_backups-Reach g (j ∷ js) b m =
      let turn = backup_turn w g j b m in
      then_Reach
        (then_Reach (queue_Reach (w.probes m) j backup (queue_kwargs g) m) (
          backup_queued-Reach g j (note_repository j (find_job j m) b)
            (queue_job_action (w.probes m) j backup (queue_kwargs g) m)))
        (queue_backups-Reach g js turn.1 turn.0)

  prune_result-Reach :
      (g : Group) (j repository : ℕ) (b : Prunes) (x : Manager × Outcome ℕ)
      → Reach x.0 (Groups.prune_queued w g j repository b x).0
  unfolding Groups.prune_queued
  prune_result-Reach g j repository b (m, answered n) = here
  prune_result-Reach g j repository b (m, raised why) = report-Reach g j _ m

  prune_job-Reach :
      (g : Group) (j : ℕ) (b : Prunes) (m : Manager) (o : Option Job)
      → Reach m (prune_job w g j b m o).0
  unfolding prune_job
  prune_job-Reach g j b m none = here
  prune_job-Reach g j b m (some job) = elim (Bool-cases (has_retention (some job))) [
    | inl e ↦
        rw (e, prune_job)
          (then_Reach (queue_Reach (w.probes m) j prune (queue_kwargs g) m) (
            prune_result-Reach g j (repository_id job) b
              (queue_job_action (w.probes m) j prune (queue_kwargs g) m)))
    | inr e ↦ rw (e, prune_job) here
  ]

  prune_turn-Reach :
      (g : Group) (j : ℕ) (s : Status) (b : Prunes) (m : Manager)
      → Reach m (prune_turn w g j s b m).0
  unfolding prune_turn
  prune_turn-Reach g j s b m = elim (Bool-cases (is_usable s)) [
    | inl e ↦ rw (e, prune_turn) (prune_job-Reach g j b m (find_job j m))
    | inr e ↦ rw (e, prune_turn) here
  ]

  queue_prunes-Reach :
      (g : Group) (statuses : Dict ℕ Status) (b : Prunes) (m : Manager)
      → Reach m (queue_prunes w g statuses b m).0
  unfolding queue_prunes
  queue_prunes-Reach g [] b m = here
  queue_prunes-Reach g ((j, s) ∷ statuses) b m =
      let turn = prune_turn w g j s b m in
      then_Reach (prune_turn-Reach g j s b m) (queue_prunes-Reach g statuses turn.1 turn.0)

  compact_queued-Reach :
      (g : Group) (j : ℕ) (b : Compacts) (x : Manager × Outcome ℕ)
      → Reach x.0 (compact_queued w g j b x).0
  unfolding compact_queued
  compact_queued-Reach g j b (m, answered n) = here
  compact_queued-Reach g j b (m, raised why) = report-Reach g j _ m

  queue_compacts-Reach :
      (g : Group) (turns : Dict ℕ ℕ) (b : Compacts) (m : Manager)
      → Reach m (queue_compacts w g turns b m).0
  unfolding queue_compacts compact_turn
  queue_compacts-Reach g [] b m = here
  queue_compacts-Reach g ((r, j) ∷ turns) b m =
      let turn = compact_turn w g j b m in
      then_Reach
        (then_Reach (queue_Reach (w.probes m) j compact (queue_kwargs g) m)
          (compact_queued-Reach g j b (queue_job_action (w.probes m) j compact (queue_kwargs g) m)))
        (queue_compacts-Reach g turns turn.1 turn.0)

  awaited-Reach : (runs : Dict ℕ ℕ) (m : Manager) → Reach m (awaited w runs m)
  unfolding awaited
  awaited-Reach [] m = here
  awaited-Reach (r ∷ runs) m = others m

  awaited_all-Reach : (ns : List ℕ) (m : Manager) → Reach m (awaited_all w ns m)
  awaited_all-Reach [] m = here
  awaited_all-Reach (n ∷ ns) m = others m

  -- Whatever the other tasks do meanwhile, a scheduled group is a history of the queue.
  pub group-Reach :
      (g : Group) (s : GroupSettings) (job_ids : List ℕ) (m : Manager)
      → Reach m (scheduled_backup_group w g s job_ids m).0
  unfolding scheduled_backup_group prune_phase compact_phase
  group-Reach g s job_ids m =
      let backups = queue_backups w g job_ids no_backups m in
      let statuses = statuses_of w backups.0 backups.1.backup_runs in
      let waited = awaited w backups.1.backup_runs backups.0 in
      let prunes = queue_prunes w g statuses no_prunes waited in
      let pruned = awaited w prunes.1.prune_runs prunes.0 in
      let turns = turns_of s (statuses_of w prunes.0 prunes.1.prune_runs) prunes.1 in
      let compacts = queue_compacts w g turns no_compacts pruned in
      then_Reach (queue_backups-Reach g job_ids no_backups m) (
        then_Reach (awaited-Reach backups.1.backup_runs backups.0) (
          then_Reach (queue_prunes-Reach g statuses no_prunes waited) (
            then_Reach (awaited-Reach prunes.1.prune_runs prunes.0) (
              then_Reach (queue_compacts-Reach g turns no_compacts pruned) (
                then_Reach (awaited_all-Reach compacts.1.compact_runs compacts.0) (
                  awaited_all-Reach (scheduled_backup_group w g s job_ids m).1.refreshes
                    (awaited_all w compacts.1.compact_runs compacts.0)))))))

  refresh-Reach : (m : Manager) → Reach m (after_refresh w m)
  unfolding after_refresh
  refresh-Reach m = elim (Bool-cases w.size_after_run) [
    | inl e ↦ rw (e, after_refresh) (others m)
    | inr e ↦ rw (e, after_refresh) here
  ]

  conclude-Reach : (token : Text) (x : Manager × Option Refusal) → Reach x.0 (conclude w token x).0
  unfolding conclude
  conclude-Reach token (m, failure) =
      then_Reach (next here (releases token m)) (refresh-Reach (release token m))

  -- So is the maintenance after a manual backup.
  pub finish-Reach :
      (job_id backup_run : ℕ) (token : Text) (b : Bool) (m : Manager)
      → Reach m (finish_manual_backup_chain w job_id backup_run token b m).0
  unfolding finish_manual_backup_chain
  finish-Reach job_id backup_run token b m = elim (Bool-cases (is_usable (w.ended m backup_run))) [
    | inl e ↦
        rw (e, finish_manual_backup_chain)
          (then_Reach (others m) (
            then_Reach (maintain-Reach job_id token b (w.meanwhile m))
              (conclude-Reach token (maintain w job_id token b (w.meanwhile m)))))
    | inr e ↦ rw (e, finish_manual_backup_chain) (next (others m) (releases token (w.meanwhile m)))
  ]
