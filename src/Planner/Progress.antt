-- ===== src/Planner/Progress.antt =====
-- `_execution_plan` (app/service.py) does not stall: an idle system starts the oldest queued run.
use borg_backup_manager.Prelude.{
  ℕ, List, [], ◌∷◌, ◌++◌, ◌≡◌, refl, arith, none, contains, true, ◌<◌,
}
use borg_backup_manager.Runs.{Run}
use borg_backup_manager.Planner.{
  Layers, Plan, refusal, select, block, decide, decide_all, occupy_all, plan, vacant,
  archive_reason, chain_reason, repository_reason, mount_reason, schedule_reason,
  source_stats_reason, global_reason,
}
use borg_backup_manager.Planner.Step.{decide-none}
use borg_backup_manager.Planner.Decisions.{idents}

contains-append : (n : ℕ) (xs ys : List ℕ) → contains n xs ≡ true → contains n (xs ++ ys) ≡ true
contains-append n [] ys h = cc
contains-append n (x ∷ xs) ys h = ground (arith, contains-append n xs ys)

contains-last : (n : ℕ) (xs : List ℕ) → contains n (xs ++ n ∷ []) ≡ true
contains-last n [] = ground arith
contains-last n (x ∷ xs) = ground (arith, contains-last n xs)

idents-append : (xs : List Run) (r : Run) → idents (xs ++ r ∷ []) ≡ idents xs ++ r.ident ∷ []
idents-append [] r = refl
idents-append (x ∷ xs) r = ground (arith, idents-append xs r)

module _ (l : Layers) where
  decide-keeps :
      (n : ℕ) (r : Run) (p : Plan)
      → contains n (idents p.selected) ≡ true
      → contains n (idents (decide l p r).selected) ≡ true
  unfolding decide select block
  decide-keeps n r p h =
      ground
        (arith, idents-append p.selected r, contains-append n (idents p.selected) (r.ident ∷ []))

  decide_all-keeps :
      (n : ℕ) (queued : List Run) (p : Plan)
      → contains n (idents p.selected) ≡ true
      → contains n (idents (decide_all l p queued).selected) ≡ true
  unfolding decide_all
  decide_all-keeps n [] p h = h
  decide_all-keeps n (r ∷ queued) p h =
      decide_all-keeps n queued (decide l p r) (decide-keeps n r p h)

  refusal-vacant :
      (r : Run)
      → archive_reason l r ≡ none
      → chain_reason l r ≡ none
      → 0 < l.source_stats_limit
      → refusal l vacant r ≡ none
  unfolding refusal repository_reason mount_reason schedule_reason source_stats_reason global_reason
  refusal-vacant r a c pos = ground arith

  -- When no run is running, the oldest queued run is selected unless its repository has a mounted
  -- archive or is reserved by another chain: no limit can hold it back.
  pub oldest_starts :
      (r : Run) (queued : List Run)
      → archive_reason l r ≡ none
      → chain_reason l r ≡ none
      → 0 < l.source_stats_limit
      → contains r.ident (idents (plan l [] (r ∷ queued)).selected) ≡ true
  unfolding plan occupy_all decide_all
  oldest_starts r queued a c pos = decide_all-keeps r.ident queued (decide l vacant r) (
      rw (decide-none l vacant r (refusal-vacant r a c pos))
        (unfold select in contains-last r.ident []))
