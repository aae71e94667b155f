-- ===== src/Queue/Initializing.antt =====
-- app/service.py: the runs that are queued without a job, and the initialisation of a repository, which
-- does not begin a second time before it ends.
use borg_backup_manager.Prelude.{
  ℕ, true, false, not, List, [], ◌∷◌, ◌==◌, keep, contains, ℕ_discrete, ◌≡◌, refl, ap, arith, inl,
  inr, Bool-cases,
}
use borg_backup_manager.Dict
use borg_backup_manager.Text.{Text}
use borg_backup_manager.Queue.{
  Manager, Refusal, initialization_running, Outcome, raised, answered, Probes, add_row, activate,
}
use borg_backup_manager.Queue.Inserts.{
  start_row, init_command, add_initializing, discard_initializing, init_queued,
  queue_repository_init,
}

keep_absent : (n : ℕ) (ns : List ℕ) → contains n ns ≡ false → keep (λ k. not (k == n)) ns ≡ ns
keep_absent n [] h = refl
keep_absent n (m ∷ ms) h = ground (arith, h, keep_absent n ms)

with_initializing : List ℕ → Manager → Manager
with_initializing ns m = record m { initializing = ns }

-- What is added and discarded was never there.
discard-add :
    (ident : ℕ) (m : Manager)
    → contains ident m.initializing ≡ false
    → discard_initializing ident (add_initializing ident m) ≡ m
unfolding discard_initializing add_initializing with_initializing
discard-add ident m h =
    let kept : List ℕ = keep (λ k. not (k == ident)) m.initializing in
    let same : keep (λ k. not (k == ident)) (ident ∷ kept) ≡ m.initializing =
      ground (arith, keep_absent ident m.initializing h) in
    ap (λ ns. with_initializing ns m) same

-- A refusal changes nothing, and an answer leaves the repository in the set.
IsGuarded : ℕ → Manager → Manager × Outcome ℕ → Type 0
IsGuarded ident m x =
    ((why : Refusal) → x.1 ≡ raised why → x.0 ≡ m)
    × ((n : ℕ) → x.1 ≡ answered n → contains ident x.0.initializing ≡ true)

queued-IsGuarded :
    (ident : ℕ) (m : Manager) (o : Outcome Text)
    → contains ident m.initializing ≡ false
    → IsGuarded ident m (init_queued ident (add_initializing ident m) o)
unfolding IsGuarded init_queued start_row add_initializing activate add_row
queued-IsGuarded ident m (raised w) h = (λ why e. discard-add ident m h, λ n e. cc)
queued-IsGuarded ident m (answered preview) h = (λ why e. cc, λ n e. ground arith)

init-IsGuarded :
    (p : Probes) (ident : ℕ) (m : Manager) → IsGuarded ident m (queue_repository_init p ident m)
unfolding IsGuarded queue_repository_init
init-IsGuarded p ident m = elim (Bool-cases (contains ident m.initializing)) [
  | inl e ↦ rw (e, queue_repository_init) (λ why k. refl, λ n k. e)
  | inr e ↦
      rw (e, queue_repository_init)
        (queued-IsGuarded ident m (init_command p (Dict.get ℕ_discrete ident m.targets)) e)
]

second_refused :
    (p : Probes) (ident : ℕ) (m : Manager)
    → contains ident m.initializing ≡ true
    → queue_repository_init p ident m ≡ (m, raised initialization_running)
unfolding queue_repository_init
second_refused p ident m h = rw (h, queue_repository_init) refl

-- An initialisation that is refused changes nothing; one that is queued keeps its repository from a
-- second one, whatever the probes answer then.
pub initialization_guarded :
    (p q : Probes) (ident : ℕ) (m : Manager)
    → ((why : Refusal)
        → (queue_repository_init p ident m).1 ≡ raised why
        → (queue_repository_init p ident m).0 ≡ m)
      × ((n : ℕ)
          → (queue_repository_init p ident m).1 ≡ answered n
          → queue_repository_init q ident (queue_repository_init p ident m).0
            ≡ ((queue_repository_init p ident m).0, raised initialization_running))
unfolding IsGuarded
initialization_guarded p q ident m =
    let guard = init-IsGuarded p ident m in
    (guard.0, λ n e. second_refused q ident (queue_repository_init p ident m).0 (guard.1 n e))
