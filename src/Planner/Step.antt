-- ===== src/Planner/Step.antt =====
-- One round of the loop of `_execution_plan` (app/service.py).
use borg_backup_manager.Prelude.{Option, none, some, ◌≡◌, refl, ◌⊎◌, inl, inr, arith}
use borg_backup_manager.Runs.{Run}
use borg_backup_manager.Planner.{
  Layers, Plan, Reason, refusal, archive_reason, chain_reason, repository_reason, mount_reason,
  schedule_reason, source_stats_reason, global_reason, select, block, decide,
}

-- A run that no test refuses.
pub record IsCleared (l : Layers) (p : Plan) (r : Run) : Type 0 where
  pub archive : archive_reason l r ≡ none
  pub chain : chain_reason l r ≡ none
  pub repository : repository_reason l p r ≡ none
  pub mount : mount_reason l p r ≡ none
  pub schedule : schedule_reason l p r ≡ none
  pub source_stats : source_stats_reason l p r ≡ none
  pub global : global_reason l p ≡ none

pub refusal-IsCleared : (l : Layers) (p : Plan) (r : Run) → refusal l p r ≡ none → IsCleared l p r
unfolding refusal
refusal-IsCleared l p r h = ground arith

pub decide-none :
    (l : Layers) (p : Plan) (r : Run) → refusal l p r ≡ none → decide l p r ≡ select l r p
unfolding decide
decide-none l p r h = rw (h, decide) refl

pub decide-some :
    (l : Layers) (p : Plan) (r : Run) (why : Reason)
    → refusal l p r ≡ some why
    → decide l p r ≡ block r why p
unfolding decide
decide-some l p r why h = rw (h, decide) refl

pub refusal_cases :
    (l : Layers) (p : Plan) (r : Run)
    → (refusal l p r ≡ none) ⊎ ((why : Reason) × (refusal l p r ≡ some why))
refusal_cases l p r = go (refusal l p r)
  where
    go : (o : Option Reason) → (o ≡ none) ⊎ ((why : Reason) × (o ≡ some why))
    go none = inl refl
    go (some why) = inr (why, refl)
