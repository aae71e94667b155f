-- ===== src/Queue/Unchanged.antt =====
-- app/service.py: a refused action leaves the database and the chains as they were.
use borg_backup_manager.Prelude.{
  ℕ, zero, suc, Bool, false, Option, none, some, ◌∷◌, ◌⊎◌, ◌≡◌, refl, arith, inl, inr, Bool-cases,
}
use borg_backup_manager.Text.{Text}
use borg_backup_manager.Runs.{Action, backup}
use borg_backup_manager.Chains.{Chains}
use borg_backup_manager.BackupTasks.Tidy.{found_cases}
use borg_backup_manager.Queue.{
  Job, Manager, Refusal, Outcome, raised, answered, Probes, has_retention, find_job, find_row,
}
use borg_backup_manager.Queue.Actions.{Request, register, queue_job_action}
use borg_backup_manager.Queue.Atomic.{
  IsResult, refuses, reuses, enters, strays, queue_job_action_lem,
}
use borg_backup_manager.Queue.Manual.{
  plain, opens_chain, with_maintenance, queue_backup_of, queue_manual_backup, is_repeatable,
  is_backup, repeat_for, retry_run,
}

-- A request that reserves its repository has a token.
abbrev pub HasToken : Request → Type 0
HasToken q =
    (q.reserve_repository_chain ≡ false)
    ⊎ ((c : ℕ) × ((cs : Text) × (q.chain_token ≡ some (c ∷ cs))))

register_token :
    (p : Probes) (job : Job) (q : Request) (n : ℕ) (c : Chains)
    → HasToken q
    → register p job q n c ≡ none
    → ⊥
unfolding register
register_token p job q n c (inl e) h = ground (arith, e, h)
register_token p job q n c (inr (t, (ts, e))) h = elim (Bool-cases q.reserve_repository_chain) [
  | inl b ↦ ground (arith, b, e, h)
  | inr b ↦ ground (arith, b, h)
]

result_unchanged :
    (p : Probes) (job_id : ℕ) (a : Action) (q : Request) (m : Manager) (why : Refusal)
    → HasToken q
    → (x : Manager × Outcome ℕ) → IsResult p job_id a q m x
    → x.1 ≡ raised why
    → x.0 ≡ m
result_unchanged p job_id a q m why t x (refuses w) e = refl
result_unchanged p job_id a q m why t x (reuses job r f c) e = refl
result_unchanged p job_id a q m why t x (enters job preview c i g) e = cc
result_unchanged p job_id a q m why t x (strays job preview i g) e =
    absurd (register_token p job q m.next_id m.chains t g)

-- A job action that is refused changes nothing, if its request has a token where it needs one.
pub action_unchanged :
    (p : Probes) (job_id : ℕ) (a : Action) (q : Request) (m : Manager) (why : Refusal)
    → HasToken q
    → (queue_job_action p job_id a q m).1 ≡ raised why
    → (queue_job_action p job_id a q m).0 ≡ m
action_unchanged p job_id a q m why t =
    result_unchanged p job_id a q m why t _ (queue_job_action_lem p job_id a q m)

maintenance_clean :
    (o : Option Bool) (m : Manager) (x : Manager × Outcome ℕ)
    → ((why : Refusal) → x.1 ≡ raised why → x.0 ≡ m)
    → (why : Refusal) → (with_maintenance o x).1 ≡ raised why
    → (with_maintenance o x).0 ≡ m
maintenance_clean o m (n, raised w) h why e = h w refl
maintenance_clean o m (n, answered r) h why e = cc

plain_clean :
    (p : Probes) (job_id : ℕ) (a : Action) (m : Manager) (o : Option Bool) (why : Refusal)
    → (with_maintenance o (queue_job_action p job_id a plain m)).1 ≡ raised why
    → (with_maintenance o (queue_job_action p job_id a plain m)).0 ≡ m
plain_clean p job_id a m o =
    maintenance_clean o m (queue_job_action p job_id a plain m)
      (λ w. action_unchanged p job_id a plain m w (inl refl))

chain_clean :
    (p : Probes) (c : ℕ) (cs : Text) (job_id : ℕ) (m : Manager) (o : Option Bool) (why : Refusal)
    → (with_maintenance o (queue_job_action p job_id backup (opens_chain (c ∷ cs)) m)).1
      ≡ raised why
    → (with_maintenance o (queue_job_action p job_id backup (opens_chain (c ∷ cs)) m)).0 ≡ m
chain_clean p c cs job_id m o =
    maintenance_clean o m (queue_job_action p job_id backup (opens_chain (c ∷ cs)) m)
      (λ w. action_unchanged p job_id backup (opens_chain (c ∷ cs)) m w (inr (c, (cs, refl))))

backup_clean :
    (p : Probes) (c : ℕ) (cs : Text) (job : Job) (job_id : ℕ) (m : Manager) (why : Refusal)
    → (queue_backup_of p (c ∷ cs) job job_id m).1 ≡ raised why
    → (queue_backup_of p (c ∷ cs) job job_id m).0 ≡ m
unfolding queue_backup_of
backup_clean p c cs job job_id m why = elim (Bool-cases job.manual_prune_after_backup) [
  | inl e ↦ elim (Bool-cases (has_retention (some job))) [
    | inl r ↦
        rw (e, r, queue_backup_of)
          (chain_clean p c cs job_id m (some job.manual_compact_after_prune) why)
    | inr r ↦ rw (e, r, queue_backup_of) (λ k. refl)
  ]
  | inr e ↦ rw (e, queue_backup_of) (plain_clean p job_id backup m none why)
]

-- A manual backup that is refused changes nothing, where the token for its chain is not empty.
pub manual_unchanged :
    (p : Probes) (c : ℕ) (cs : Text) (job_id : ℕ) (m : Manager) (why : Refusal)
    → (queue_manual_backup p (c ∷ cs) job_id m).1 ≡ raised why
    → (queue_manual_backup p (c ∷ cs) job_id m).0 ≡ m
unfolding queue_manual_backup
manual_unchanged p c cs job_id m why = elim (found_cases (find_job job_id m)) [
  | inl e ↦ rw (e, queue_manual_backup) (λ k. refl)
  | inr (job, e) ↦ rw (e, queue_manual_backup) (backup_clean p c cs job job_id m why)
]

repeat_clean :
    (p : Probes) (c : ℕ) (cs : Text) (a : Action) (o : Option ℕ) (m : Manager) (why : Refusal)
    → (repeat_for p (c ∷ cs) a o m).1 ≡ raised why
    → (repeat_for p (c ∷ cs) a o m).0 ≡ m
unfolding repeat_for
repeat_clean p c cs a none m why = λ k. refl
repeat_clean p c cs a (some zero) m why = λ k. refl
repeat_clean p c cs a (some (suc j)) m why = elim (Bool-cases (is_repeatable a)) [
  | inl e ↦ elim (Bool-cases (is_backup a)) [
    | inl b ↦ rw (e, b, repeat_for) (manual_unchanged p c cs (suc j) m why)
    | inr b ↦ rw (e, b, repeat_for) (plain_clean p (suc j) a m none why)
  ]
  | inr e ↦ rw (e, repeat_for) (λ k. refl)
]

-- A repetition that is refused changes nothing, where the token for a new chain is not empty.
pub retry_unchanged :
    (p : Probes) (c : ℕ) (cs : Text) (run_id : ℕ) (m : Manager) (why : Refusal)
    → (retry_run p (c ∷ cs) run_id m).1 ≡ raised why
    → (retry_run p (c ∷ cs) run_id m).0 ≡ m
unfolding retry_run
retry_unchanged p c cs run_id m why = elim (found_cases (find_row run_id m.rows)) [
  | inl e ↦ rw (e, retry_run) (λ k. refl)
  | inr (r, e) ↦ rw (e, retry_run) (repeat_clean p c cs r.action r.job_id m why)
]
