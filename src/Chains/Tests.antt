-- ===== src/Chains/Tests.antt =====
-- Runs of the repository chains of app/service.py.
use borg_backup_manager.Prelude.{
  not, keep, ◌≡◌, refl, true, false, false, some, [], ◌∷◌, ◌≤◌, All, List,
}
use borg_backup_manager.Dict
use borg_backup_manager.Text.{codes, text_eq}
use borg_backup_manager.Runs.{RepositoryKey, RepositoryKey-discrete, managed}
use borg_backup_manager.Chains.{
  Reservation, register_repository_chain, release_repository_chain, queue_of, register_chain_run,
  mark_repository_chain_started, active_reservation, chain_token,
}
use borg_backup_manager.Chains.Release.{release_exact, other_token}
use borg_backup_manager.Chains.History.{
  Event, reserves, joins, starts, play, idle, play-IsOrdered, active_reservation-least,
}

abbrev nas : RepositoryKey
nas = managed (codes "/repositories/nas")

-- Chain "b" was registered later under an earlier root run.
abbrev two_chains : List Event
two_chains =
    reserves nas 5 (codes "a")
    ∷ reserves nas 3 (codes "b")
    ∷ joins 9 (some (codes "a"))
    ∷ starts 3
    ∷ []

abbrev chain_b : Reservation
chain_b = record { token = codes "b"; root_run_id = 3; started = true }

b_is_active : active_reservation (play two_chains idle) nas ≡ some chain_b
unfolding play active_reservation register_repository_chain register_chain_run
    mark_repository_chain_started Dict.put RepositoryKey-discrete text_eq
b_is_active = refl

b_released :
    queue_of nas (release_repository_chain (codes "b") (play two_chains idle))
    ≡ record { token = codes "a"; root_run_id = 5; started = false } ∷ []
unfolding play release_repository_chain register_repository_chain register_chain_run queue_of
    mark_repository_chain_started Dict.put RepositoryKey-discrete text_eq
b_released = refl

release_exact_example :
    (queue_of nas (release_repository_chain (codes "b") (play two_chains idle))
      ≡ keep (λ q. not (text_eq q.token (codes "b"))) (queue_of nas (play two_chains idle)))
    × (chain_token (release_repository_chain (codes "b") (play two_chains idle)) 9
        ≡ other_token (codes "b") (chain_token (play two_chains idle) 9))
release_exact_example =
    release_exact (codes "b") (play two_chains idle) nas 9 (play-IsOrdered two_chains)

active_reservation-least_example :
    All (λ q. 3 ≤ q.root_run_id) (queue_of nas (play two_chains idle))
active_reservation-least_example = active_reservation-least two_chains nas chain_b b_is_active
