-- ===== src/Chains/Release.antt =====
-- The end of a chain of app/service.py, and histories of chains.
use borg_backup_manager.Prelude.{
  ℕ, Bool, Option, none, some, List, [], ◌∷◌, if◌then◌else◌, keep, not, ℕ_discrete, ◌≡◌, refl,
  arith, ◌≤◌, All, Bool-cases, inl, inr, sym, ◌∙◌, ap,
}
use borg_backup_manager.Text.{Text, text_eq}
use borg_backup_manager.Dict
use borg_backup_manager.Dict.Keys.{Distinct}
use borg_backup_manager.Dict.{Dict, get-put}
use borg_backup_manager.Runs.{RepositoryKey, RepositoryKey-discrete}
use borg_backup_manager.Chains.{
  Reservation, Chains, queue_of, without_token, release_queues, release_tokens,
  release_repository_chain, chain_token,
}
use borg_backup_manager.Chains.Order.{Sorted, Queues, IsOrdered}

All-keep :
    (a : ℕ) (p : Reservation → Bool) (queue : List Reservation)
    → All (λ r. a ≤ r.root_run_id) queue
    → All (λ r. a ≤ r.root_run_id) (keep p queue)
All-keep a p [] h = tt
All-keep a p (q ∷ queue) h = ground (arith, All-keep a p queue h.1)

keep-Sorted :
    (p : Reservation → Bool) (queue : List Reservation) → Sorted queue → Sorted (keep p queue)
keep-Sorted p [] h = tt
keep-Sorted p (q ∷ queue) h = elim (Bool-cases (p q)) [
  | inl e ↦ rw e (All-keep q.root_run_id p queue h.0, keep-Sorted p queue h.1)
  | inr e ↦ rw e (keep-Sorted p queue h.1)
]

module _ (token : Text) where
  abbrev kept : List Reservation → List Reservation
  kept = without_token token

  queue_in : Option (List Reservation) → List Reservation
  queue_in none = []
  queue_in (some q) = q

  get-none-release :
      (k : RepositoryKey) (d : Dict RepositoryKey (List Reservation))
      → Dict.get RepositoryKey-discrete k d ≡ none
      → Dict.get RepositoryKey-discrete k (release_queues token d) ≡ none
  unfolding release_queues Dict.get
  get-none-release k [] h = refl
  get-none-release k ((j, queue) ∷ d) h = ground (arith, get-none-release k d)

  release-Queues :
      (d : Dict RepositoryKey (List Reservation)) → Queues d → Queues (release_queues token d)
  unfolding release_queues without_token
  release-Queues [] h = tt
  release-Queues ((k, queue) ∷ d) h = ground (
    arith,
    release-Queues d h.1,
    keep-Sorted (λ (q : Reservation). not (text_eq q.token token)) queue h.0,
  )

  release-Distinct :
      (d : Dict RepositoryKey (List Reservation))
      → Distinct RepositoryKey-discrete d
      → Distinct RepositoryKey-discrete (release_queues token d)
  unfolding release_queues
  release-Distinct [] h = tt
  release-Distinct ((k, queue) ∷ d) h =
      ground (arith, release-Distinct d h.1, get-none-release k d h.0)

  queue_in-release :
      (k : RepositoryKey) (d : Dict RepositoryKey (List Reservation))
      → Distinct RepositoryKey-discrete d
      → queue_in (Dict.get RepositoryKey-discrete k (release_queues token d))
        ≡ kept (queue_in (Dict.get RepositoryKey-discrete k d))
  unfolding release_queues without_token Dict.get queue_in
  queue_in-release k [] h = refl
  queue_in-release k ((j, queue) ∷ d) h =
      ground (arith, queue_in-release k d h.1, get-none-release k d)

  get-none-tokens :
      (n : ℕ) (d : Dict ℕ Text)
      → Dict.get ℕ_discrete n d ≡ none
      → Dict.get ℕ_discrete n (release_tokens token d) ≡ none
  unfolding release_tokens Dict.get
  get-none-tokens n [] h = refl
  get-none-tokens n ((m, t) ∷ d) h = ground (arith, get-none-tokens n d)

  tokens-Distinct :
      (d : Dict ℕ Text) → Distinct ℕ_discrete d → Distinct ℕ_discrete (release_tokens token d)
  unfolding release_tokens
  tokens-Distinct [] h = tt
  tokens-Distinct ((n, t) ∷ d) h = ground (arith, tokens-Distinct d h.1, get-none-tokens n d h.0)

  abbrev pub other_token : Option Text → Option Text
  other_token none = none
  other_token (some t) = if text_eq t token then none else some t

  get-tokens :
      (n : ℕ) (d : Dict ℕ Text)
      → Distinct ℕ_discrete d
      → Dict.get ℕ_discrete n (release_tokens token d) ≡ other_token (Dict.get ℕ_discrete n d)
  unfolding release_tokens Dict.get
  get-tokens n [] h = refl
  get-tokens n ((m, t) ∷ d) h = ground (arith, get-tokens n d h.1, get-none-tokens n d)

  pub release-IsOrdered : (c : Chains) → IsOrdered c → IsOrdered (release_repository_chain token c)
  unfolding release_repository_chain
  release-IsOrdered c h = record {
    repositories = release-Distinct c.reservations h.repositories;
    runs = tokens-Distinct c.tokens h.runs;
    sorted = release-Queues c.reservations h.sorted;
  }

  queue_of_lem :
      (k : RepositoryKey) (c : Chains)
      → queue_of k c ≡ queue_in (Dict.get RepositoryKey-discrete k c.reservations)
  unfolding queue_of queue_in
  queue_of_lem k c = ground arith

  pub reservations-release :
      (key : RepositoryKey) (c : Chains)
      → IsOrdered c
      → queue_of key (release_repository_chain token c) ≡ kept (queue_of key c)
  unfolding release_repository_chain
  reservations-release key c h =
      queue_of_lem key (release_repository_chain token c)
      ∙ queue_in-release key c.reservations h.repositories
      ∙ ap kept (sym (queue_of_lem key c))

  -- Releasing a chain takes away the reservations with its token and the tokens of its runs: the
  -- reservations of a repository that are left are those that have another token, in their order,
  -- and a run has the token that it had, unless that is the token of the chain.
  pub release_exact :
      (c : Chains) (key : RepositoryKey) (run_id : ℕ)
      → IsOrdered c
      → (queue_of key (release_repository_chain token c)
          ≡ keep (λ q. not (text_eq q.token token)) (queue_of key c))
        × (chain_token (release_repository_chain token c) run_id
            ≡ other_token (chain_token c run_id))
  unfolding release_repository_chain chain_token without_token
  release_exact c key run_id h = (reservations-release key c h, get-tokens run_id c.tokens h.runs)
