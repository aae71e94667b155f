-- ===== src/Chains/History.antt =====
-- Histories of the repository chains of app/service.py: any sequence of critical sections.
use borg_backup_manager.Prelude.{
  ℕ, true, false, Option, none, some, List, [], ◌∷◌, ◌++◌, leb, if◌then◌else◌, ite, ◌≡◌, refl,
  arith, ◌≤◌, All, Bool-cases, inl, inr,
}
use mathlib.Core.Path.{subst}
use borg_backup_manager.Text.{Text, text_eq, text_eq_refl}
use borg_backup_manager.Dict
use borg_backup_manager.Dict.{Dict, get-put}
use borg_backup_manager.Runs.{RepositoryKey, RepositoryKey-discrete}
use borg_backup_manager.Chains.{
  Reservation, Chains, insert_by_root, sort_by_root, queue_of, register_repository_chain,
  register_chain_run, mark_repository_chain_started, without_token, release_repository_chain,
  head_of, active_reservation,
}
use borg_backup_manager.Chains.Order.{
  All-weaken, sort-Sorted, Sorted, Queues, IsOrdered, register-IsOrdered, register_run-IsOrdered,
  mark-IsOrdered,
}
use borg_backup_manager.Chains.Release.{release-IsOrdered, reservations-release}

pub data Event : Type 0 where
  reserves : RepositoryKey → ℕ → Text → Event
  joins : ℕ → Option Text → Event
  starts : ℕ → Event
  finishes : Text → Event

abbrev pub idle : Chains
idle = record { reservations = []; tokens = [] }

unfoldable pub apply : Event → Chains → Chains
apply (reserves key run_id token) c = register_repository_chain key run_id token c
apply (joins run_id token) c = register_chain_run run_id token c
apply (starts run_id) c = mark_repository_chain_started run_id c
apply (finishes token) c = release_repository_chain token c

unfoldable pub play : List Event → Chains → Chains
unfolding apply
play [] c = c
play (e ∷ es) c = play es (apply e c)

apply-IsOrdered : (e : Event) (c : Chains) → IsOrdered c → IsOrdered (apply e c)
unfolding apply
apply-IsOrdered (reserves key run_id token) c h = register-IsOrdered key run_id token c h
apply-IsOrdered (joins run_id token) c h = register_run-IsOrdered run_id token c h
apply-IsOrdered (starts run_id) c h = mark-IsOrdered run_id c h
apply-IsOrdered (finishes token) c h = release-IsOrdered token c h

play_from : (es : List Event) (c : Chains) → IsOrdered c → IsOrdered (play es c)
unfolding play
play_from [] c h = h
play_from (e ∷ es) c h = play_from es (apply e c) (apply-IsOrdered e c h)

-- After any history of chains the two dictionaries hold a key once, and the reservations of each
-- repository stand in the order of their root runs.
pub play-IsOrdered : (es : List Event) → IsOrdered (play es idle)
play-IsOrdered es = play_from es idle (record { repositories = tt; runs = tt; sorted = tt })

get-Sorted :
    (key : RepositoryKey) (d : Dict RepositoryKey (List Reservation)) (q : List Reservation)
    → Dict.get RepositoryKey-discrete key d ≡ some q
    → Queues d
    → Sorted q
unfolding Dict.get
get-Sorted key [] q e h = cc
get-Sorted key ((k, queue) ∷ d) q e h = elim (RepositoryKey-discrete k key) [
  | yes p ↦ let same : queue ≡ q = ground arith in subst Sorted same h.0
  | no p ↦ get-Sorted key d q (ground arith) h.1
]

queue_of-Sorted : (key : RepositoryKey) (c : Chains) → IsOrdered c → Sorted (queue_of key c)
unfolding queue_of
queue_of-Sorted key c h = go (Dict.get RepositoryKey-discrete key c.reservations) refl
  where
    go :
        (o : Option (List Reservation))
        → Dict.get RepositoryKey-discrete key c.reservations ≡ o
        → Sorted (queue_of key c)
    go none e = rw (e, queue_of) tt
    go (some q) e = rw (e, queue_of) (get-Sorted key c.reservations q e h.sorted)

least :
    (queue : List Reservation) (r : Reservation)
    → head_of queue ≡ some r
    → Sorted queue
    → All (λ q. r.root_run_id ≤ q.root_run_id) queue
least [] r e h = tt
least (q ∷ queue) r e h = ground arith

-- The active reservation of a repository is one whose root run has the least id of all that the
-- repository's queue holds, after any history.
pub active_reservation-least :
    (es : List Event) (key : RepositoryKey) (r : Reservation)
    → active_reservation (play es idle) key ≡ some r
    → All (λ q. r.root_run_id ≤ q.root_run_id) (queue_of key (play es idle))
unfolding active_reservation
active_reservation-least es key r e =
    least (queue_of key (play es idle)) r e (queue_of-Sorted key (play es idle) (play-IsOrdered es))

sort_of_Sorted : (queue : List Reservation) → Sorted queue → sort_by_root queue ≡ queue
unfolding sort_by_root insert_by_root
sort_of_Sorted [] h = refl
sort_of_Sorted (q ∷ []) h = refl
sort_of_Sorted (q ∷ r ∷ queue) h = ground (arith, sort_of_Sorted (r ∷ queue) h.1)

insert_head :
    (r : Reservation) (queue : List Reservation)
    → All (λ q. r.root_run_id ≤ q.root_run_id) queue
    → insert_by_root r queue ≡ r ∷ queue
unfolding insert_by_root
insert_head r [] h = refl
insert_head r (q ∷ queue) h = ground arith

module _ (token : Text) where
  All-without :
      (a : ℕ) (queue : List Reservation)
      → All (λ r. a ≤ r.root_run_id) queue
      → All (λ r. a ≤ r.root_run_id) (without_token token queue)
  unfolding without_token
  All-without a [] h = tt
  All-without a (q ∷ queue) h = ground (arith, All-without a queue h.1)

  without-Sorted : (queue : List Reservation) → Sorted queue → Sorted (without_token token queue)
  unfolding without_token
  without-Sorted [] h = tt
  without-Sorted (q ∷ queue) h = elim (Bool-cases (text_eq q.token token)) [
    | inl e ↦ rw e (without-Sorted queue h.1)
    | inr e ↦ rw e (All-without q.root_run_id queue h.0, without-Sorted queue h.1)
  ]

  without-insert :
      (r : Reservation) (queue : List Reservation)
      → Sorted queue
      → without_token token (insert_by_root r queue) ≡ (
          if text_eq r.token token
          then without_token token queue
          else insert_by_root r (without_token token queue))
  unfolding without_token insert_by_root
  without-insert r [] h = ground arith
  without-insert r (q ∷ queue) h = elim (Bool-cases (leb r.root_run_id q.root_run_id)) [
    | inl e ↦ ground (
      arith,
      insert_head r (without_token token queue) (
          All-without r.root_run_id queue
            (All-weaken r.root_run_id q.root_run_id queue (ground arith) h.0)),
    )
    | inr e ↦ ground (arith, without-insert r queue h.1)
  ]

  without-sort :
      (queue : List Reservation)
      → without_token token (sort_by_root queue) ≡ sort_by_root (without_token token queue)
  unfolding sort_by_root without_token
  without-sort [] = refl
  without-sort (r ∷ queue) =
      ground (arith, without-sort queue, without-insert r (sort_by_root queue) (sort-Sorted queue))

  without-append_self :
      (r : Reservation) (queue : List Reservation)
      → text_eq r.token token ≡ true
      → without_token token (queue ++ r ∷ []) ≡ without_token token queue
  unfolding without_token
  without-append_self r [] e = ground arith
  without-append_self r (q ∷ queue) e = ground (arith, without-append_self r queue e)

queue_of-register :
    (key k : RepositoryKey) (run_id : ℕ) (token : Text) (c : Chains)
    → queue_of k (register_repository_chain key run_id token c)
      ≡ ite
          (RepositoryKey-discrete key k)
          (sort_by_root (
            queue_of key c ++ record { token = token; root_run_id = run_id; started = false } ∷ []))
          (queue_of k c)
unfolding queue_of register_repository_chain
queue_of-register key k run_id token c = ground (
  arith,
  get-put RepositoryKey-discrete key k
      (sort_by_root
        (queue_of key c ++ record { token = token; root_run_id = run_id; started = false } ∷ []))
      c.reservations,
)

-- Reserving a repository under a token and releasing that token leaves every repository's queue
-- as the release alone leaves it: a chain that ends gives back exactly what it took.
pub reserve-release :
    (key k : RepositoryKey) (run_id : ℕ) (token : Text) (c : Chains)
    → IsOrdered c
    → queue_of k (release_repository_chain token (register_repository_chain key run_id token c))
      ≡ queue_of k (release_repository_chain token c)
reserve-release key k run_id token c h =
    let item : Reservation = record { token = token; root_run_id = run_id; started = false } in
    let after = register_repository_chain key run_id token c in
    let q = queue_of key c in
    ground (
      arith,
      reservations-release token k after (register-IsOrdered key run_id token c h),
      reservations-release token k c h,
      queue_of-register key k run_id token c,
      without-sort token (q ++ item ∷ []),
      without-append_self token item q (text_eq_refl token),
      sort_of_Sorted (without_token token q) (without-Sorted token q (queue_of-Sorted key c h)),
    )
