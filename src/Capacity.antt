-- ===== src/Capacity.antt =====
-- app/service.py, `_AdjustableCapacity`: an event-loop limiter whose limit can change live.
-- An `asyncio.Future` in the deque is a `Waiter`: its identity, and `done` once it was cancelled.
-- `granted` holds the futures whose result is set and whose `acquire` has not resumed yet, and
-- `holders` counts the calls of `acquire` that returned and were not released.
pub mod Invariant
pub mod Order
mod Tests
use borg_backup_manager.Prelude.{
  ℕ, zero, suc, ◌+◌, ◌-◌, max, Bool, true, false, Option, none, some, List, [], ◌∷◌, ◌++◌, ltb,
  ◌==◌, if◌then◌else◌, ◌&&◌, contains, not, ◌≡◌,
}

pub record Waiter : Type 0 where
  pub ident : ℕ
  pub done : Bool

pub record Capacity : Type 0 where
  pub limit : ℕ
  pub in_use : ℕ
  pub waiters : List Waiter
  pub granted : List ℕ
  pub holders : ℕ

-- `_AdjustableCapacity(limit)`
unfoldable pub new : ℕ → Capacity
new limit = record { limit = max 1 limit; in_use = 0; waiters = []; granted = []; holders = 0 }

-- The loop of `_wake_waiters` on the deque: slots in use, waiters left, futures resolved.
unfoldable pub wake : ℕ → ℕ → List Waiter → ℕ × List Waiter × List ℕ
wake limit in_use [] = (in_use, [], [])
wake limit in_use (w ∷ ws) =
    let skipped = wake limit in_use ws in
    let taken = wake limit (in_use + 1) ws in
    if ltb in_use limit
    then (if w.done then skipped else (taken.0, taken.1, w.ident ∷ taken.2))
    else (in_use, w ∷ ws, [])

unfoldable pub wake_waiters : Capacity → Capacity
wake_waiters c =
    let woken = wake c.limit c.in_use c.waiters in
    record c { in_use = woken.0; waiters = woken.1; granted = c.granted ++ woken.2 }

unfoldable pub set_limit : ℕ → Capacity → Capacity
set_limit limit c = wake_waiters (record c { limit = max 1 limit })

abbrev no_waiters : List Waiter → Bool
no_waiters [] = true
no_waiters (w ∷ ws) = false

-- `acquire` up to its first suspension: `true` if it returned at once.
unfoldable pub acquire : ℕ → Capacity → Capacity × Bool
acquire ident c =
    if ltb c.in_use c.limit && no_waiters c.waiters
    then (record c { in_use = c.in_use + 1; holders = c.holders + 1 }, true)
    else (
      wake_waiters
          (record c { waiters = c.waiters ++ record { ident = ident; done = false } ∷ [] }),
      false,
    )

-- `deque.remove` and `list.remove`: the first entry of that identity.
abbrev pub remove_waiter : ℕ → List Waiter → List Waiter
remove_waiter ident [] = []
remove_waiter ident (w ∷ ws) =
    let rest = w ∷ remove_waiter ident ws in if w.ident == ident then ws else rest

abbrev pub remove_first : ℕ → List ℕ → List ℕ
remove_first ident [] = []
remove_first ident (n ∷ ns) =
    let rest = n ∷ remove_first ident ns in if n == ident then ns else rest

-- The event loop cancels a future that is still queued.
abbrev pub cancel_future : ℕ → List Waiter → List Waiter
cancel_future ident [] = []
cancel_future ident (w ∷ ws) =
    (if w.ident == ident then record w { done = true } else w) ∷ cancel_future ident ws

unfoldable pub cancel_waiter : ℕ → Capacity → Capacity
cancel_waiter ident c = record c { waiters = cancel_future ident c.waiters }

-- `await waiter` returns: the caller holds the slot that `_wake_waiters` reserved.
unfoldable pub resume : ℕ → Capacity → Option Capacity
resume ident c =
    if contains ident c.granted
    then some (record c { granted = remove_first ident c.granted; holders = c.holders + 1 })
    else none

-- `except BaseException` of `acquire`: the waiting call is cancelled.
unfoldable pub abandon : ℕ → Capacity → Capacity
abandon ident c =
    if contains ident c.granted
    then wake_waiters (record c { in_use = c.in_use - 1; granted = remove_first ident c.granted })
    else record c { waiters = remove_waiter ident c.waiters }

-- `none` is the ValueError "capacity limiter released too many times".
unfoldable pub release : Capacity → Option Capacity
release c =
    if c.in_use == 0
    then none
    else some (wake_waiters (record c { in_use = c.in_use - 1; holders = c.holders - 1 }))

-- What the tasks of one event loop can do to the limiter, in any order. A call releases a slot
-- only if it holds one.
pub data Step : Capacity → Capacity → Type 0 where
  acquires : (n : ℕ) (c : Capacity) → Step c (acquire n c).0
  resumes : (n : ℕ) (c d : Capacity) → resume n c ≡ some d → Step c d
  cancels : (n : ℕ) (c : Capacity) → Step c (cancel_waiter n c)
  abandons : (n : ℕ) (c : Capacity) → Step c (abandon n c)
  releases : (c d : Capacity) (h : ℕ) → c.holders ≡ suc h → release c ≡ some d → Step c d
  resizes : (n : ℕ) (c : Capacity) → Step c (set_limit n c)

pub data Reach (c : Capacity) : Capacity → Type 0 where
  here : Reach c c
  next : {d e : Capacity} → Reach c d → Step d e → Reach c e
