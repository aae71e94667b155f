-- ===== src/Chains.antt =====
-- app/service.py, the repository chains: a manual backup reserves its repository until its prune
-- and compact runs are done. `_repository_chain_reservations` and `_run_chain_tokens` are the two
-- dictionaries of `Chains`; each function is one critical section of `_repository_chain_lock`.
pub mod Order
pub mod Release
pub mod History
mod Tests
use borg_backup_manager.Prelude.{
  ℕ, Bool, true, false, ◌&&◌, Option, none, some, List, [], ◌∷◌, ◌++◌, leb, ◌==◌, if◌then◌else◌,
  ite, keep, not, ℕ_discrete, ◌≡◌,
}
use borg_backup_manager.Text.{Text, Text-discrete, text_eq}
use borg_backup_manager.Dict
use borg_backup_manager.Dict.{Dict}
use borg_backup_manager.Runs.{RepositoryKey, RepositoryKey-discrete}

-- {"token": token, "root_run_id": root, "started": started}
pub record Reservation : Type 0 where
  pub token : Text
  pub root_run_id : ℕ
  pub started : Bool

pub record Chains : Type 0 where
  pub reservations : Dict RepositoryKey (List Reservation)
  pub tokens : Dict ℕ Text

-- `queue.sort(key=lambda item: int(item["root_run_id"]))`, which is stable.
unfoldable pub insert_by_root : Reservation → List Reservation → List Reservation
insert_by_root r [] = r ∷ []
insert_by_root r (q ∷ queue) =
    let rest = insert_by_root r queue in
    if leb r.root_run_id q.root_run_id then r ∷ q ∷ queue else q ∷ rest

unfoldable pub sort_by_root : List Reservation → List Reservation
unfolding insert_by_root
sort_by_root [] = []
sort_by_root (r ∷ queue) = insert_by_root r (sort_by_root queue)

-- `reservations.setdefault(key, [])`
unfoldable pub queue_of : RepositoryKey → Chains → List Reservation
unfolding Dict.get
queue_of key c = elim (Dict.get RepositoryKey-discrete key c.reservations) [
  | none ↦ []
  | some q ↦ q
]

unfoldable pub register_repository_chain : RepositoryKey → ℕ → Text → Chains → Chains
unfolding queue_of sort_by_root
register_repository_chain key run_id token c =
    let item : Reservation = record { token = token; root_run_id = run_id; started = false } in
    record {
      reservations =
          Dict.put RepositoryKey-discrete key (sort_by_root (queue_of key c ++ item ∷ []))
            c.reservations;
      tokens = Dict.put ℕ_discrete run_id token c.tokens;
    }

-- `if not token: return` covers no token and the empty one.
unfoldable pub register_chain_run : ℕ → Option Text → Chains → Chains
register_chain_run run_id none c = c
register_chain_run run_id (some []) c = c
register_chain_run run_id (some (t ∷ oken)) c = record c {
  tokens = Dict.put ℕ_discrete run_id (t ∷ oken) c.tokens;
}

-- The inner loop of `_mark_repository_chain_started`: the queue, and whether an item was marked.
unfoldable pub mark_queue : Text → ℕ → List Reservation → List Reservation × Bool
mark_queue token run_id [] = ([], false)
mark_queue token run_id (q ∷ queue) =
    let rest = mark_queue token run_id queue in
    if text_eq q.token token && q.root_run_id == run_id
    then (record q { started = true } ∷ queue, true)
    else (q ∷ rest.0, rest.1)

unfoldable pub mark_queues :
    Text → ℕ → Dict RepositoryKey (List Reservation) → Dict RepositoryKey (List Reservation)
unfolding mark_queue
mark_queues token run_id [] = []
mark_queues token run_id ((key, queue) ∷ d) =
    let rest = mark_queues token run_id d in
    let marked = mark_queue token run_id queue in (key, marked.0) ∷ (if marked.1 then d else rest)

unfoldable pub mark_repository_chain_started : ℕ → Chains → Chains
unfolding mark_queues
mark_repository_chain_started run_id c = elim (Dict.get ℕ_discrete run_id c.tokens) [
  | none ↦ c
  | some token ↦ elim token [
    | [] ↦ c
    | t ∷ oken ↦ record c { reservations = mark_queues (t ∷ oken) run_id c.reservations }
  ]
]

unfoldable pub without_token : Text → List Reservation → List Reservation
without_token token = keep λ q. not (text_eq q.token token)

unfoldable pub release_queues :
    Text → Dict RepositoryKey (List Reservation) → Dict RepositoryKey (List Reservation)
unfolding without_token
release_queues token [] = []
release_queues token ((key, queue) ∷ d) =
    let rest = release_queues token d in
    elim (without_token token queue) [ [] ↦ rest | q ∷ left ↦ (key, q ∷ left) ∷ rest ]

unfoldable pub release_tokens : Text → Dict ℕ Text → Dict ℕ Text
release_tokens token = keep λ entry. not (text_eq entry.1 token)

unfoldable pub release_repository_chain : Text → Chains → Chains
unfolding release_queues release_tokens
release_repository_chain token c = record {
  reservations = release_queues token c.reservations;
  tokens = release_tokens token c.tokens;
}

-- The head of each queue that is not empty.
abbrev head_of : List Reservation → Option Reservation
head_of [] = none
head_of (q ∷ queue) = some q

-- `_repository_chain_snapshot`, as the two lookups that the planner makes in it.
unfoldable pub active_reservation : Chains → RepositoryKey → Option Reservation
unfolding queue_of
active_reservation c key = head_of (queue_of key c)

unfoldable pub chain_token : Chains → ℕ → Option Text
chain_token c run_id = Dict.get ℕ_discrete run_id c.tokens
