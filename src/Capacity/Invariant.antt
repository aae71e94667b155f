-- ===== src/Capacity/Invariant.antt =====
-- What holds of the limiter of app/service.py between two steps of the event loop.
use borg_backup_manager.Prelude.{
  ℕ, suc, ◌+◌, ◌-◌, ◌≤◌, ◌<◌, ◌≡◌, refl, ◌⊎◌, inl, inr, true, false, some, List, [], ◌∷◌, ◌++◌,
  arith, length, length-append, contains, Bool-cases,
}
use borg_backup_manager.Capacity.{
  Waiter, Capacity, new, wake, wake_waiters, set_limit, acquire, remove_waiter, remove_first,
  cancel_future, cancel_waiter, resume, abandon, release, Step, acquires, resumes, cancels,
  abandons, releases, resizes, Reach, here, next,
}

-- Every slot in use belongs to a holder or to a resolved future, and no slot is free while the
-- deque holds a waiter.
pub record IsSound (c : Capacity) : Type 0 where
  pub accounted : c.in_use ≡ c.holders + length c.granted
  pub busy : (c.waiters ≡ []) ⊎ (c.limit ≤ c.in_use)
  pub positive : 0 < c.limit

wake_count : (l u : ℕ) (ws : List Waiter) → (wake l u ws).0 ≡ u + length (wake l u ws).2
unfolding wake
wake_count l u [] = omega arith
wake_count l u (w ∷ ws) = ground (arith, wake_count l u ws, wake_count l (u + 1) ws)

wake_busy : (l u : ℕ) (ws : List Waiter) → ((wake l u ws).1 ≡ []) ⊎ (l ≤ (wake l u ws).0)
unfolding wake
wake_busy l u [] = ground arith
wake_busy l u (w ∷ ws) = ground (arith, wake_busy l u ws, wake_busy l (u + 1) ws)

wake_waiters-IsSound :
    (c : Capacity)
    → c.in_use ≡ c.holders + length c.granted
    → 0 < c.limit
    → IsSound (wake_waiters c)
unfolding wake_waiters
wake_waiters-IsSound c a p = record {
  accounted = omega (
    arith,
    wake_count c.limit c.in_use c.waiters,
    length-append c.granted (wake c.limit c.in_use c.waiters).2,
  );
  busy = wake_busy c.limit c.in_use c.waiters;
  positive = p;
}

length-remove_first :
    (n : ℕ) (ns : List ℕ) → contains n ns ≡ true → length ns ≡ suc (length (remove_first n ns))
length-remove_first n [] h = cc
length-remove_first n (m ∷ ns) h = ground (arith, length-remove_first n ns)

remove_waiter_nil : (n : ℕ) (ws : List Waiter) → ws ≡ [] → remove_waiter n ws ≡ []
remove_waiter_nil n [] h = refl
remove_waiter_nil n (w ∷ ws) h = cc

cancel_future_nil : (n : ℕ) (ws : List Waiter) → ws ≡ [] → cancel_future n ws ≡ []
cancel_future_nil n [] h = refl
cancel_future_nil n (w ∷ ws) h = cc

pub new-IsSound : (limit : ℕ) → IsSound (new limit)
unfolding new
new-IsSound limit = ground arith

acquire-IsSound : (n : ℕ) (c : Capacity) → IsSound c → IsSound (acquire n c).0
unfolding acquire
acquire-IsSound n c s = ground (
  arith,
  wake_waiters-IsSound (record c { waiters = c.waiters ++ record { ident = n; done = false } ∷ [] })
      s.accounted s.positive,
)

resume-IsSound : (n : ℕ) (c d : Capacity) → resume n c ≡ some d → IsSound c → IsSound d
unfolding resume
resume-IsSound n c d e s = ground (arith, length-remove_first n c.granted)

abandon-IsSound : (n : ℕ) (c : Capacity) → IsSound c → IsSound (abandon n c)
unfolding abandon
abandon-IsSound n c s = elim (Bool-cases (contains n c.granted)) [
  | inl e ↦ rw e (
      wake_waiters-IsSound _ (omega (arith, length-remove_first n c.granted e, s.accounted))
        s.positive)
  | inr e ↦ rw e (ground (arith, remove_waiter_nil n c.waiters))
]

-- Every step of the event loop keeps the slots accounted for and leaves no slot idle.
pub Step-IsSound : {c d : Capacity} → Step c d → IsSound c → IsSound d
unfolding cancel_waiter set_limit release
Step-IsSound (acquires n c) s = acquire-IsSound n c s
Step-IsSound (resumes n c d e) s = resume-IsSound n c d e s
Step-IsSound (cancels n c) s = ground (arith, cancel_future_nil n c.waiters)
Step-IsSound (abandons n c) s = abandon-IsSound n c s
Step-IsSound (releases c d h e r) s = ground (
  arith,
  wake_waiters-IsSound (record c { in_use = c.in_use - 1; holders = c.holders - 1 })
      (omega (arith, s.accounted, e)) s.positive,
)
Step-IsSound (resizes n c) s = wake_waiters-IsSound _ s.accounted (omega arith)

IsSound-Reach : {c d : Capacity} → IsSound c → Reach c d → IsSound d
IsSound-Reach s here = s
IsSound-Reach s (next r st) = Step-IsSound st (IsSound-Reach s r)

-- However the tasks of one event loop acquire, wait, are cancelled, release and resize, the slots
-- in use are those of the holders and of the resolved futures, and a waiter stays queued only
-- while the limit is reached.
pub Reach-IsSound : (limit : ℕ) (c : Capacity) → Reach (new limit) c → IsSound c
Reach-IsSound limit c r = IsSound-Reach (new-IsSound limit) r

-- A reachable limiter with a holder never refuses the release of a slot as one too many.
pub release_ok :
    (limit : ℕ) (c : Capacity)
    → Reach (new limit) c
    → 0 < c.holders
    → (d : Capacity) × (release c ≡ some d)
unfolding release
release_ok limit c r h = (
  wake_waiters (record c { in_use = c.in_use - 1; holders = c.holders - 1 }),
  ground (arith, (Reach-IsSound limit c r).accounted),
)
