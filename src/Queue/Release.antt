-- ===== src/Queue/Release.antt =====
-- app/service.py: a manual chain is released however its maintenance ends.
use borg_backup_manager.Prelude.{
  ℕ, Bool, false, List, [], ◌∷◌, ◌≡◌, refl, arith, inl, inr, Bool-cases, All,
}
use borg_backup_manager.Text.{Text, text_eq}
use borg_backup_manager.Dict.{Dict}
use borg_backup_manager.Runs.{RepositoryKey}
use borg_backup_manager.Chains.{
  Reservation, Chains, without_token, release_queues, release_tokens, release_repository_chain,
}
use borg_backup_manager.Queue.{Manager, is_usable}
use borg_backup_manager.Queue.Manual.{
  World, maintain, release, after_refresh, conclude, finish_manual_backup_chain,
}

module _ (token : Text) where
  -- No reservation and no run of the chain is left.
  pub record IsFree (c : Chains) : Type 0 where
    pub reservations :
        All
          (λ (e : RepositoryKey × List Reservation). All (λ q. text_eq q.token token ≡ false) e.1)
          c.reservations
    pub runs : All (λ (e : ℕ × Text). text_eq e.1 token ≡ false) c.tokens

  kept_queue :
      (queue : List Reservation)
      → All (λ q. text_eq q.token token ≡ false) (without_token token queue)
  unfolding without_token
  kept_queue [] = tt
  kept_queue (q ∷ queue) = ground (arith, kept_queue queue)

  kept_tokens : (d : Dict ℕ Text) → All (λ e. text_eq e.1 token ≡ false) (release_tokens token d)
  unfolding release_tokens
  kept_tokens [] = tt
  kept_tokens ((n, t) ∷ d) = ground (arith, kept_tokens d)

  kept_queues :
      (d : Dict RepositoryKey (List Reservation))
      → All (λ e. All (λ q. text_eq q.token token ≡ false) e.1) (release_queues token d)
  unfolding release_queues
  kept_queues [] = tt
  kept_queues ((k, queue) ∷ d) = ground (arith, kept_queues d, kept_queue queue)

  release-IsFree : (m : Manager) → IsFree (release token m).chains
  unfolding release release_repository_chain
  release-IsFree m = record {
    reservations = kept_queues m.chains.reservations;
    runs = kept_tokens m.chains.tokens;
  }

  refresh-IsFree :
      (w : World) (m : Manager)
      → ((n : Manager) → IsFree n.chains → IsFree (w.meanwhile n).chains)
      → IsFree m.chains
      → IsFree (after_refresh w m).chains
  unfolding after_refresh
  refresh-IsFree w m others h = elim (Bool-cases w.size_after_run) [
    | inl e ↦ rw (e, after_refresh) (others m h)
    | inr e ↦ rw (e, after_refresh) h
  ]

  -- The maintenance after a manual backup ends with its chain released, whether the backup failed,
  -- an action was refused or everything ran, if the other tasks do not take up the token; and it
  -- takes the repository as changed exactly if the backup was usable.
  pub finish-IsFree :
      (w : World) (job_id backup_run : ℕ) (compact_after : Bool) (m : Manager)
      → ((n : Manager) → IsFree n.chains → IsFree (w.meanwhile n).chains)
      → IsFree (finish_manual_backup_chain w job_id backup_run token compact_after m).0.chains
        × ((finish_manual_backup_chain w job_id backup_run token compact_after m).1.changed
            ≡ is_usable (w.ended m backup_run))
  unfolding finish_manual_backup_chain conclude
  finish-IsFree w job_id backup_run compact_after m others =
      elim (Bool-cases (is_usable (w.ended m backup_run))) [
        | inl e ↦
            rw (e, finish_manual_backup_chain)
              (
                refresh-IsFree w _ others
                    (release-IsFree (maintain w job_id token compact_after (w.meanwhile m)).0),
                refl,
              )
        | inr e ↦ rw (e, finish_manual_backup_chain) (release-IsFree (w.meanwhile m), refl)
      ]
