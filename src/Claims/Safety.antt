-- ===== src/Claims/Safety.antt =====
-- No history of the queue of app/service.py lets two running runs use one repository.
use borg_backup_manager.Prelude.{
  ◌≤◌, Option, contains, ℕ, true, false, ◌&&◌, some, none, List, [], ◌∷◌, All, keep, ◌≡◌, refl,
  arith, ◌==◌, inl, inr, sym, subst, Bool-cases,
}
use borg_backup_manager.Runs.{Run, Platform, RepositoryKey}
use borg_backup_manager.Claims.Rows.{
  set_status-DistinctIds, append-DistinctIds, count-set_running, count-set_other,
}
use borg_backup_manager.Claims.History.{
  Step, enqueues, enters, claims, refreshes, publishes, leaves, others, Reach, here, next,
  append-Accounted, enter-Accounted, set_running-Accounted, set_other-Accounted, leave-Accounted,
  count-enqueue,
}
use borg_backup_manager.Claims.{
  RepositoryKey-discrete, claim_selected, claim_execution_turn, start_refresh, is_refreshable,
  RefreshTarget, was_selected, execution_plan, set_status, Manager, Surroundings,
}
use borg_backup_manager.Claims.Exclusive.{is_accounted, IsExclusive, claim_exclusive, needs-status}
use borg_backup_manager.Planner.Layer.{count}
use borg_backup_manager.Claims.{
  execution_plan, running, claim_execution_turn, was_selected, start_refresh, set_status,
  Surroundings, claim_selected, Manager, find_run, is_running, is_queued, row_repository_key,
  repository_run_blocker, blocks_repository,
}
use borg_backup_manager.Claims.Selected.{DistinctIds-Finds, IsRow}
use borg_backup_manager.Claims.Exclusive.{claim_exclusive, IsExclusive, needs}

idle_row :
    (n : ℕ) (rows part : List Run) (r : Run)
    → find_run n rows ≡ some r
    → is_queued r ≡ true
    → All (IsRow rows) part
    → All (λ s. (is_running s && s.ident == n) ≡ false) part
idle_row n rows [] r f q a = tt
idle_row n rows (s ∷ part) r f q a = (
  elim (Bool-cases (s.ident == n)) [
    | inl e ↦
        let same : s.ident ≡ n = ground arith in
        let found : find_run n rows ≡ some s = subst (λ k. find_run k rows ≡ some s) same a.0 in
        let is_r : s ≡ r = cc (found, f) in
        let waits : is_queued s ≡ true = subst (λ (x : Run). is_queued x ≡ true) (sym is_r) q in
        ground (arith, waits)
    | inr e ↦ ground arith
  ],
  idle_row n rows part r f q a.1,
)

no_holder :
    (os : Platform) (key : RepositoryKey) (n : ℕ) (rows : List Run)
    → keep (blocks_repository os key n) rows ≡ []
    → All (λ s. (is_running s && s.ident == n) ≡ false) rows
    → count (needs os key) (keep is_running rows) ≡ 0
unfolding row_repository_key blocks_repository
no_holder os key n [] e h = refl
no_holder os key n (s ∷ rows) e h = ground (arith, no_holder os key n rows)

unblocked :
    (os : Platform) (key : RepositoryKey) (n : ℕ) (rows : List Run)
    → repository_run_blocker os key n rows ≡ none
    → keep (blocks_repository os key n) rows ≡ []
unfolding repository_run_blocker
unblocked os key n rows e = ground arith

enter_running :
    (os : Platform) (m : Manager) (n : ℕ)
    → IsExclusive os m
    → contains n m.executing ≡ true
    → ((key : RepositoryKey)
        → count (needs os key) (keep is_running (set_status n running m.runs)) ≤ 1)
    → IsExclusive os (record m { runs = set_status n running m.runs })
enter_running os m n h e one = record {
  distinct = set_status-DistinctIds n running m.runs h.distinct;
  accounted = set_running-Accounted n m.executing m.runs e h.accounted;
  exclusive = one;
}

claim_selected-IsExclusive :
    (w : Surroundings) (m : Manager) (n : ℕ) (r : Run)
    → IsExclusive w.platform m
    → contains n m.executing ≡ true
    → find_run n m.runs ≡ some r
    → IsExclusive w.platform (claim_selected w n m).0
unfolding claim_selected
claim_selected-IsExclusive w m n r h e f =
    elim (Bool-cases (was_selected n (execution_plan w m (some n)))) [
      | inl s ↦
          let entered = enter_running w.platform m n h e (claim_exclusive w m n h r f s) in
          rw s (record {
            distinct = entered.distinct;
            accounted = entered.accounted;
            exclusive = entered.exclusive;
          })
      | inr s ↦
          rw s (record { distinct = h.distinct; accounted = h.accounted; exclusive = h.exclusive })
    ]

claim-IsExclusive :
    (w : Surroundings) (m : Manager) (n : ℕ)
    → IsExclusive w.platform m
    → contains n m.executing ≡ true
    → IsExclusive w.platform (claim_execution_turn w n m).0
unfolding claim_execution_turn
claim-IsExclusive w m n h e = go (find_run n m.runs) refl
  where
    go :
        (o : Option Run)
        → find_run n m.runs ≡ o
        → IsExclusive w.platform (claim_execution_turn w n m).0
    go none f = rw (f, claim_execution_turn) h
    go (some r) f = elim (Bool-cases (is_queued r)) [
      | inl q ↦ rw (f, claim_execution_turn) (rw q (claim_selected-IsExclusive w m n r h e f))
      | inr q ↦ rw (f, claim_execution_turn) (rw q h)
    ]

module _ (os : Platform) (m : Manager) (n : ℕ) (r : Run) (key : RepositoryKey)
    (h : IsExclusive os m) (f : find_run n m.runs ≡ some r)
    (needed : row_repository_key os r ≡ some key) (e : contains n m.executing ≡ true) where
  refresh_one :
      is_queued r ≡ true
      → repository_run_blocker os key n m.runs ≡ none
      → (k : RepositoryKey) → count (needs os k) (keep is_running (set_status n running m.runs)) ≤ 1
  refresh_one q free k =
      let zero_of =
        no_holder os key n m.runs (unblocked os key n m.runs free)
          (idle_row n m.runs m.runs r f q (DistinctIds-Finds m.runs h.distinct)) in
      let bound = count-set_running (needs os k) (needs-status os k) n m.runs r h.distinct f in
      elim (RepositoryKey-discrete key k) [
        | yes same ↦
            let zero_k : count (needs os k) (keep is_running m.runs) ≡ 0 =
              subst (λ j. count (needs os j) (keep is_running m.runs) ≡ 0) same zero_of in
            ground (arith, bound, zero_k)
        | no other ↦ ground (arith, bound, h.exclusive k, needed)
      ]

  refresh-IsExclusive :
      (target : RefreshTarget) → IsExclusive os (start_refresh os key target n m).0
  unfolding start_refresh
  refresh-IsExclusive target = elim (Bool-cases (is_queued r)) [
    | inl q ↦ go q (repository_run_blocker os key n m.runs) refl
    | inr q ↦ rw (f, start_refresh) (rw q h)
  ]
    where
      go :
          is_queued r ≡ true
          → (o : Option ℕ) → repository_run_blocker os key n m.runs ≡ o
          → IsExclusive os (start_refresh os key target n m).0
      go q none b = elim (Bool-cases (is_refreshable target)) [
        | inl a ↦ rw (f, start_refresh) (rw (q, b, a) (enter_running os m n h e (refresh_one q b)))
        | inr a ↦ rw (f, start_refresh) (rw (q, b, a) h)
      ]
      go q (some other) b = rw (f, start_refresh) (rw (q, b) h)

-- Each critical section keeps at most one running row for a repository.
Step-IsExclusive :
    {os : Platform} {m n : Manager} → Step os m n → IsExclusive os m → IsExclusive os n
Step-IsExclusive {os} (enqueues m r f e) h = record {
  distinct = append-DistinctIds m.runs r h.distinct f;
  accounted = append-Accounted m.executing m.runs r h.accounted e;
  exclusive = λ key. rw (count-enqueue (needs os key) m.runs r e) (h.exclusive key);
}
Step-IsExclusive {os} (enters m n) h = record {
  distinct = h.distinct;
  accounted = enter-Accounted n m.executing m.runs h.accounted;
  exclusive = h.exclusive;
}
Step-IsExclusive {os} (claims w m n p e) h =
    subst (λ o. IsExclusive o (claim_execution_turn w n m).0) p
      (claim-IsExclusive w m n (subst (λ o. IsExclusive o m) (sym p) h) e)
Step-IsExclusive {os} (refreshes m n r key target f k e) h =
    refresh-IsExclusive os m n r key h f k e target
Step-IsExclusive {os} (publishes m n s e) h = record {
  distinct = set_status-DistinctIds n s m.runs h.distinct;
  accounted = set_other-Accounted n s m.executing m.runs e h.accounted;
  exclusive = λ key.
      omega
        (arith, h.exclusive key, count-set_other (needs os key) (needs-status os key) n s m.runs e);
}
Step-IsExclusive {os} (leaves m n a) h = record {
  distinct = h.distinct;
  accounted = leave-Accounted n m.executing m.runs a h.accounted;
  exclusive = h.exclusive;
}
Step-IsExclusive {os} (others m mounts tasks chains) h = record {
  distinct = h.distinct;
  accounted = h.accounted;
  exclusive = h.exclusive;
}

Reach-IsExclusive :
    {os : Platform} {m n : Manager} → IsExclusive os m → Reach os m n → IsExclusive os n
Reach-IsExclusive h here = h
Reach-IsExclusive h (next r s) = Step-IsExclusive s (Reach-IsExclusive h r)

-- Whatever is queued, claimed, refreshed, published and left, in any order, from a state with
-- distinct ids in which at most one running row needs each repository and every running row is
-- executed by a task: at most one running row needs a given repository, and every running row is
-- executed by a task, ever after.
pub one_running_per_repository :
    (os : Platform) (m n : Manager) (key : RepositoryKey)
    → IsExclusive os m
    → Reach os m n
    → (count (needs os key) (keep is_running n.runs) ≤ 1)
      × All (λ r. is_accounted n.executing r ≡ true) n.runs
one_running_per_repository os m n key h r =
    ((Reach-IsExclusive h r).exclusive key, (Reach-IsExclusive h r).accounted)
