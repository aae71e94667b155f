-- ===== src/Planner.antt =====
-- app/service.py, `_execution_plan`: which queued runs may start now, and why the others wait.
-- A run passes seven tests in the order of the source; the first that refuses it gives the reason.
-- The dictionaries of occupants are functions from a key to the ids in their order, [] if absent.
pub mod Step
pub mod Layer
pub mod Limits
pub mod Decisions
pub mod Progress
mod Tests
use Prim.Native.Nat.{min}
use borg_backup_manager.Prelude.{
  ℕ, zero, suc, ◌+◌, ◌<◌, Bool, true, false, ◌&&◌, not, Option, none, some, List, [], ◌∷◌, ◌++◌,
  leb, ltb, ◌==◌, if◌then◌else◌, ite, length, keep, map,
}
use borg_backup_manager.Text.{Text, Text-discrete, text_eq}
use borg_backup_manager.Runs.{
  Run, Action, source_stats, RepositoryKey, RepositoryKey-discrete, MountKey, MountKey-discrete,
  ScheduleKey, ScheduleKey-discrete,
}
use borg_backup_manager.Chains.{Reservation}

-- What the plan reads besides the rows: keys and limits, the repositories whose archive is
-- mounted, the active chain reservations and the chain tokens of the runs.
pub record Layers : Type 0 where
  pub repository_key : Run → Option RepositoryKey
  pub mount_key : Run → Option MountKey
  pub mount_limit : MountKey → ℕ
  pub schedule_key : Run → Option ScheduleKey
  pub schedule_limit : ScheduleKey → ℕ
  pub source_stats_limit : ℕ
  pub global_limit : ℕ
  pub archive_mounted : Option ℕ → Bool
  pub reservation : RepositoryKey → Option Reservation
  pub chain_token : ℕ → Option Text

-- The "kind" of a blocker with the id, and the limit, that the queue message shows.
pub data Reason : Type 0 where
  archive_mount : Reason
  maintenance_chain : (root : ℕ) → Reason
  repository_busy : (blocker : ℕ) → Reason
  mount_full : (blocker limit : ℕ) → MountKey → Reason
  schedule_full : (blocker limit : ℕ) → Reason
  source_stats_full : (blocker limit : ℕ) → Reason
  global_full : (blocker limit : ℕ) → Reason

pub record Plan : Type 0 where
  pub selected : List Run
  pub blockers : List (ℕ × Reason)
  pub repository_occupants : RepositoryKey → List ℕ
  pub mount_occupants : MountKey → List ℕ
  pub schedule_occupants : ScheduleKey → List ℕ
  pub source_stats_occupants : List ℕ
  pub global_occupants : List ℕ

abbrev pub is_source_stats : Action → Bool
is_source_stats source_stats = true
is_source_stats _ = false

-- `min(occupants) if occupants else 0`
unfoldable pub least : List ℕ → ℕ
least [] = 0
least (n ∷ []) = n
least (n ∷ m ∷ ns) = min n (least (m ∷ ns))

-- `occupants.setdefault(key, []).append(ident)`
abbrev pub append_at {ℓ} : {K : Type ℓ} → Discrete K → K → ℕ → (K → List ℕ) → K → List ℕ
append_at dec key ident occupants k = ite (dec key k) (occupants k ++ ident ∷ []) (occupants k)

module _ (l : Layers) where
  unfoldable pub archive_reason : Run → Option Reason
  archive_reason r =
      if l.archive_mounted r.repository_id && not (is_source_stats r.action)
      then some archive_mount
      else none

  abbrev same_token : Option Text → Text → Bool
  same_token none token = false
  same_token (some t) token = text_eq t token

  reserved_reason : Run → Option Reservation → Option Reason
  reserved_reason r none = none
  reserved_reason r (some q) =
      if same_token (l.chain_token r.ident) q.token
      then none
      else if q.started
      then some (maintenance_chain q.root_run_id)
      else if ltb q.root_run_id r.ident
      then some (maintenance_chain q.root_run_id)
      else none

  unfoldable pub chain_reason : Run → Option Reason
  unfolding reserved_reason
  chain_reason r = elim (l.repository_key r) [
    | none ↦ none
    | some key ↦ reserved_reason r (l.reservation key)
  ]

  occupied_reason : List ℕ → Option Reason
  occupied_reason [] = none
  occupied_reason (n ∷ ns) = some (repository_busy (least (n ∷ ns)))

  unfoldable pub repository_reason : Plan → Run → Option Reason
  unfolding occupied_reason
  repository_reason p r = elim (l.repository_key r) [
    | none ↦ none
    | some key ↦ occupied_reason (p.repository_occupants key)
  ]

  -- `limit > 0 and len(occupants) >= limit`
  abbrev pub is_full : ℕ → List ℕ → Bool
  is_full limit occupants = ltb 0 limit && leb limit (length occupants)

  unfoldable pub mount_reason : Plan → Run → Option Reason
  mount_reason p r = elim (l.mount_key r) [
    | none ↦ none
    | some key ↦
        if is_full (l.mount_limit key) (p.mount_occupants key)
        then some (mount_full (least (p.mount_occupants key)) (l.mount_limit key) key)
        else none
  ]

  unfoldable pub schedule_reason : Plan → Run → Option Reason
  schedule_reason p r = elim (l.schedule_key r) [
    | none ↦ none
    | some key ↦
        if is_full (l.schedule_limit key) (p.schedule_occupants key)
        then some (schedule_full (least (p.schedule_occupants key)) (l.schedule_limit key))
        else none
  ]

  unfoldable pub source_stats_reason : Plan → Run → Option Reason
  source_stats_reason p r =
      if is_source_stats r.action && leb l.source_stats_limit (length p.source_stats_occupants)
      then some (source_stats_full (least p.source_stats_occupants) l.source_stats_limit)
      else none

  unfoldable pub global_reason : Plan → Option Reason
  global_reason p =
      if is_full l.global_limit p.global_occupants
      then some (global_full (least p.global_occupants) l.global_limit)
      else none

abbrev first_reason : Option Reason → Option Reason → Option Reason
first_reason (some why) other = some why
first_reason none other = other

-- The tests of the loop body, each ended by `continue`.
unfoldable pub refusal : Layers → Plan → Run → Option Reason
refusal l p r = first_reason (archive_reason l r) (
    first_reason (chain_reason l r) (
      first_reason (repository_reason l p r) (
        first_reason (mount_reason l p r) (
          first_reason (schedule_reason l p r)
            (first_reason (source_stats_reason l p r) (global_reason l p))))))

abbrev at_repository : Option RepositoryKey → ℕ → (RepositoryKey → List ℕ) → RepositoryKey → List ℕ
at_repository none ident occupants = occupants
at_repository (some key) ident occupants = append_at RepositoryKey-discrete key ident occupants

-- `if mount_key and mount_limit > 0`
abbrev at_mount : (MountKey → ℕ) → Option MountKey → ℕ → (MountKey → List ℕ) → MountKey → List ℕ
at_mount limit none ident occupants = occupants
at_mount limit (some key) ident occupants =
    if ltb 0 (limit key) then append_at MountKey-discrete key ident occupants else occupants

abbrev at_schedule : Option ScheduleKey → ℕ → (ScheduleKey → List ℕ) → ScheduleKey → List ℕ
at_schedule none ident occupants = occupants
at_schedule (some key) ident occupants = append_at ScheduleKey-discrete key ident occupants

-- A run takes its place in every layer: the loop over `running`, and the end of the loop body.
unfoldable pub occupy : Layers → Run → Plan → Plan
occupy l r p = record p {
  repository_occupants = at_repository (l.repository_key r) r.ident p.repository_occupants;
  mount_occupants = at_mount l.mount_limit (l.mount_key r) r.ident p.mount_occupants;
  schedule_occupants = at_schedule (l.schedule_key r) r.ident p.schedule_occupants;
  source_stats_occupants =
      if is_source_stats r.action
      then p.source_stats_occupants ++ r.ident ∷ []
      else p.source_stats_occupants;
  global_occupants = p.global_occupants ++ r.ident ∷ [];
}

unfoldable pub select : Layers → Run → Plan → Plan
unfolding occupy
select l r p = let q = occupy l r p in record q { selected = p.selected ++ r ∷ [] }

unfoldable pub block : Run → Reason → Plan → Plan
block r why p = record p { blockers = p.blockers ++ (r.ident, why) ∷ [] }

-- The body of the loop over `queued`.
unfoldable pub decide : Layers → Plan → Run → Plan
unfolding select block
decide l p r = elim (refusal l p r) [ none ↦ select l r p | some why ↦ block r why p ]

abbrev pub vacant : Plan
vacant = record {
  selected = [];
  blockers = [];
  repository_occupants = λ k. [];
  mount_occupants = λ k. [];
  schedule_occupants = λ k. [];
  source_stats_occupants = [];
  global_occupants = [];
}

-- The loop over `running`.
unfoldable pub occupy_all : Layers → List Run → Plan → Plan
unfolding occupy
occupy_all l [] p = p
occupy_all l (r ∷ running) p = occupy_all l running (occupy l r p)

unfoldable pub decide_all : Layers → Plan → List Run → Plan
decide_all l p [] = p
decide_all l p (r ∷ queued) = decide_all l (decide l p r) queued

-- The plan over the live rows, split by their status.
unfoldable pub plan : Layers → List Run → List Run → Plan
unfolding occupy_all decide_all
plan l running queued = decide_all l (occupy_all l running vacant) queued
