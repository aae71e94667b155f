-- ===== src/Capacity/Order.antt =====
-- In which order `_wake_waiters` of app/service.py serves the deque, and how far it goes.
use borg_backup_manager.Prelude.{
  ℕ, ◌+◌, ◌-◌, ◌≤◌, min, max, ◌≡◌, refl, false, List, [], ◌∷◌, ◌++◌, arith, length, if◌then◌else◌,
}
use borg_backup_manager.Capacity.{
  Waiter, Capacity, wake, wake_waiters, set_limit, acquire, cancel_waiter, resume, abandon, release,
  Step, acquires, resumes, cancels, abandons, releases, resizes,
}

-- The identities of the waiters that were not cancelled, in the order of the deque.
abbrev pub pending : List Waiter → List ℕ
pending [] = []
pending (w ∷ ws) = if w.done then pending ws else w.ident ∷ pending ws

-- Waking serves the live waiters first come, first served: those resolved, followed by those that
-- stay queued, are the live waiters of the deque in their order.
pub wake_fifo :
    (limit in_use : ℕ) (ws : List Waiter)
    → let woken = wake limit in_use ws in woken.2 ++ pending woken.1 ≡ pending ws
unfolding wake
wake_fifo l u [] = refl
wake_fifo l u (w ∷ ws) = ground (arith, wake_fifo l u ws, wake_fifo l (u + 1) ws)

-- Waking resolves as many waiters as there are free slots, or all live ones if these are fewer.
pub wake_exact :
    (limit in_use : ℕ) (ws : List Waiter)
    → length (wake limit in_use ws).2 ≡ min (limit - in_use) (length (pending ws))
unfolding wake
wake_exact l u [] = omega arith
wake_exact l u (w ∷ ws) = ground (arith, wake_exact l u ws, wake_exact l (u + 1) ws)

wake_bound : (l u : ℕ) (ws : List Waiter) → (wake l u ws).0 ≤ max u l
unfolding wake
wake_bound l u [] = omega arith
wake_bound l u (w ∷ ws) = ground (arith, wake_bound l u ws, wake_bound l (u + 1) ws)

-- No step brings the slots in use above both their number before it and the limit after it, so a
-- lowered limit is reached as the holders leave and is not passed again.
pub Step-bound : {c d : Capacity} → Step c d → d.in_use ≤ max c.in_use d.limit
unfolding acquire resume cancel_waiter abandon set_limit release wake_waiters
Step-bound (acquires n c) =
    ground
      (arith, wake_bound c.limit c.in_use (c.waiters ++ record { ident = n; done = false } ∷ []))
Step-bound (resumes n c d e) = ground arith
Step-bound (cancels n c) = omega arith
Step-bound (abandons n c) = ground (arith, wake_bound c.limit (c.in_use - 1) c.waiters)
Step-bound (releases c d h e r) = ground (arith, wake_bound c.limit (c.in_use - 1) c.waiters)
Step-bound (resizes n c) = wake_bound (max 1 n) c.in_use c.waiters

-- A raised limit takes effect at once: `set_limit` resolves as many live waiters as the new limit
-- has free slots, the longest waiting first.
pub set_limit_resolves :
    (limit : ℕ) (c : Capacity)
    → (served : List ℕ) × ((set_limit limit c).granted ≡ c.granted ++ served)
      × (served ++ pending (set_limit limit c).waiters ≡ pending c.waiters)
      × (length served ≡ min (max 1 limit - c.in_use) (length (pending c.waiters)))
unfolding set_limit wake_waiters
set_limit_resolves limit c = (
  (wake (max 1 limit) c.in_use c.waiters).2,
  refl,
  wake_fifo (max 1 limit) c.in_use c.waiters,
  wake_exact (max 1 limit) c.in_use c.waiters,
)
