-- ===== src/Chains/Order.antt =====
-- The order of the reservations of app/service.py, under registration and marking.
use borg_backup_manager.Prelude.{
  ℕ, ◌&&◌, Option, none, some, List, [], ◌∷◌, ◌++◌, false, leb, ◌==◌, ℕ_discrete, ◌≡◌, refl, arith,
  ◌≤◌, All, Bool-cases, inl, inr,
}
use borg_backup_manager.Text.{Text, text_eq}
use borg_backup_manager.Dict
use borg_backup_manager.Dict.Keys.{Distinct, put-Distinct}
use borg_backup_manager.Dict.{Dict, get-put}
use borg_backup_manager.Runs.{RepositoryKey, RepositoryKey-discrete}
use borg_backup_manager.Chains.{
  Reservation, Chains, insert_by_root, sort_by_root, queue_of, register_repository_chain,
  register_chain_run, mark_queue, mark_queues, mark_repository_chain_started,
}

-- The reservations of one repository stand in the order of their root runs.
abbrev pub Sorted : List Reservation → Type 0
Sorted [] = Unit
Sorted (q ∷ queue) = All (λ r. q.root_run_id ≤ r.root_run_id) queue × Sorted queue

abbrev pub Queues : Dict RepositoryKey (List Reservation) → Type 0
Queues [] = Unit
Queues ((k, queue) ∷ d) = Sorted queue × Queues d

pub record IsOrdered (c : Chains) : Type 0 where
  pub repositories : Distinct RepositoryKey-discrete c.reservations
  pub runs : Distinct ℕ_discrete c.tokens
  pub sorted : Queues c.reservations

pub All-weaken :
    (a b : ℕ) (queue : List Reservation)
    → a ≤ b
    → All (λ r. b ≤ r.root_run_id) queue
    → All (λ r. a ≤ r.root_run_id) queue
All-weaken a b [] le h = tt
All-weaken a b (q ∷ queue) le h = (omega arith, All-weaken a b queue le h.1)

All-insert :
    (a : ℕ) (r : Reservation) (queue : List Reservation)
    → a ≤ r.root_run_id
    → All (λ q. a ≤ q.root_run_id) queue
    → All (λ q. a ≤ q.root_run_id) (insert_by_root r queue)
unfolding insert_by_root
All-insert a r [] le h = (le, tt)
All-insert a r (q ∷ queue) le h = ground (arith, All-insert a r queue le h.1)

pub insert-Sorted :
    (r : Reservation) (queue : List Reservation) → Sorted queue → Sorted (insert_by_root r queue)
unfolding insert_by_root
insert-Sorted r [] h = (tt, tt)
insert-Sorted r (q ∷ queue) h = elim (Bool-cases (leb r.root_run_id q.root_run_id)) [
  | inl e ↦
      rw e ((ground arith, All-weaken r.root_run_id q.root_run_id queue (ground arith) h.0), h)
  | inr e ↦ rw e (All-insert q.root_run_id r queue (ground arith) h.0, insert-Sorted r queue h.1)
]

pub sort-Sorted : (queue : List Reservation) → Sorted (sort_by_root queue)
unfolding sort_by_root
sort-Sorted [] = tt
sort-Sorted (r ∷ queue) = insert-Sorted r (sort_by_root queue) (sort-Sorted queue)

put-Queues :
    (k : RepositoryKey) (queue : List Reservation) (d : Dict RepositoryKey (List Reservation))
    → Sorted queue
    → Queues d
    → Queues (Dict.put RepositoryKey-discrete k queue d)
unfolding Dict.put
put-Queues k queue [] s h = (s, tt)
put-Queues k queue ((j, w) ∷ d) s h = ground (arith, put-Queues k queue d s h.1)

pub register-IsOrdered :
    (key : RepositoryKey) (run_id : ℕ) (token : Text) (c : Chains)
    → IsOrdered c
    → IsOrdered (register_repository_chain key run_id token c)
unfolding register_repository_chain
register-IsOrdered key run_id token c h = record {
  repositories = put-Distinct RepositoryKey-discrete key _ c.reservations h.repositories;
  runs = put-Distinct ℕ_discrete run_id token c.tokens h.runs;
  sorted =
      put-Queues key _ c.reservations
        (sort-Sorted
          (queue_of key c ++ record { token = token; root_run_id = run_id; started = false } ∷ []))
        h.sorted;
}

pub register_run-IsOrdered :
    (run_id : ℕ) (token : Option Text) (c : Chains)
    → IsOrdered c
    → IsOrdered (register_chain_run run_id token c)
unfolding register_chain_run
register_run-IsOrdered run_id none c h = h
register_run-IsOrdered run_id (some []) c h = h
register_run-IsOrdered run_id (some (t ∷ oken)) c h = record {
  repositories = h.repositories;
  runs = put-Distinct ℕ_discrete run_id (t ∷ oken) c.tokens h.runs;
  sorted = h.sorted;
}

All-mark :
    (a : ℕ) (token : Text) (run_id : ℕ) (queue : List Reservation)
    → All (λ r. a ≤ r.root_run_id) queue
    → All (λ r. a ≤ r.root_run_id) (mark_queue token run_id queue).0
unfolding mark_queue
All-mark a token run_id [] h = tt
All-mark a token run_id (q ∷ queue) h = ground (arith, All-mark a token run_id queue h.1)

mark-Sorted :
    (token : Text) (run_id : ℕ) (queue : List Reservation)
    → Sorted queue
    → Sorted (mark_queue token run_id queue).0
unfolding mark_queue
mark-Sorted token run_id [] h = tt
mark-Sorted token run_id (q ∷ queue) h =
    elim (Bool-cases (text_eq q.token token && q.root_run_id == run_id)) [
      | inl e ↦ rw e h
      | inr e ↦
          rw e (All-mark q.root_run_id token run_id queue h.0, mark-Sorted token run_id queue h.1)
    ]

mark-Queues :
    (token : Text) (run_id : ℕ) (d : Dict RepositoryKey (List Reservation))
    → Queues d
    → Queues (mark_queues token run_id d)
unfolding mark_queues
mark-Queues token run_id [] h = tt
mark-Queues token run_id ((k, queue) ∷ d) h =
    (mark-Sorted token run_id queue h.0, ground (arith, mark-Queues token run_id d h.1))

get-none-mark :
    (token : Text) (run_id : ℕ) (k : RepositoryKey) (d : Dict RepositoryKey (List Reservation))
    → Dict.get RepositoryKey-discrete k d ≡ none
    → Dict.get RepositoryKey-discrete k (mark_queues token run_id d) ≡ none
unfolding mark_queues Dict.get
get-none-mark token run_id k [] h = refl
get-none-mark token run_id k ((j, queue) ∷ d) h = ground (arith, get-none-mark token run_id k d)

mark-Distinct :
    (token : Text) (run_id : ℕ) (d : Dict RepositoryKey (List Reservation))
    → Distinct RepositoryKey-discrete d
    → Distinct RepositoryKey-discrete (mark_queues token run_id d)
unfolding mark_queues
mark-Distinct token run_id [] h = tt
mark-Distinct token run_id ((k, queue) ∷ d) h =
    ground (arith, mark-Distinct token run_id d h.1, get-none-mark token run_id k d h.0)

pub mark-IsOrdered :
    (run_id : ℕ) (c : Chains) → IsOrdered c → IsOrdered (mark_repository_chain_started run_id c)
unfolding mark_repository_chain_started
mark-IsOrdered run_id c h = go (Dict.get ℕ_discrete run_id c.tokens) refl
  where
    marked :
        (t : ℕ) (oken : Text)
        → IsOrdered (record c { reservations = mark_queues (t ∷ oken) run_id c.reservations })
    marked t oken = record {
      repositories = mark-Distinct (t ∷ oken) run_id c.reservations h.repositories;
      runs = h.runs;
      sorted = mark-Queues (t ∷ oken) run_id c.reservations h.sorted;
    }

    go :
        (o : Option Text)
        → Dict.get ℕ_discrete run_id c.tokens ≡ o
        → IsOrdered (mark_repository_chain_started run_id c)
    go none e = rw (e, mark_repository_chain_started) h
    go (some []) e = rw (e, mark_repository_chain_started) h
    go (some (t ∷ oken)) e = rw (e, mark_repository_chain_started) (marked t oken)
