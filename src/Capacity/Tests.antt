-- ===== src/Capacity/Tests.antt =====
-- Runs of the limiter of app/service.py on concrete waiters.
use borg_backup_manager.Prelude.{◌≡◌, refl, true, false, List, [], ◌∷◌, ◌++◌}
use borg_backup_manager.Capacity.{
  Waiter, Capacity, new, wake, wake_waiters, set_limit, acquire, acquires, Reach, here, next,
}
use borg_backup_manager.Capacity.Invariant.{IsSound, Reach-IsSound}
use borg_backup_manager.Capacity.Order.{pending, wake_fifo}

abbrev one : Capacity
one = (acquire 7 (new 1)).0

abbrev crowded : Capacity
crowded = (acquire 9 (acquire 8 one).0).0

one-Reach : Reach (new 1) one
one-Reach = next here (acquires 7 (new 1))

crowded-Reach : Reach (new 1) crowded
crowded-Reach = next (next one-Reach (acquires 8 one)) (acquires 9 (acquire 8 one).0)

raised_serves_both : (set_limit 3 crowded).granted ≡ 8 ∷ 9 ∷ []
unfolding set_limit wake_waiters wake acquire new
raised_serves_both = refl

abbrev queue : List Waiter
queue =
    record { ident = 8; done = true }
    ∷ record { ident = 9; done = false }
    ∷ record { ident = 4; done = false }
    ∷ []

Reach-IsSound_example : IsSound crowded
Reach-IsSound_example = Reach-IsSound 1 crowded crowded-Reach

wake_fifo_example : (wake 2 1 queue).2 ++ pending (wake 2 1 queue).1 ≡ 9 ∷ 4 ∷ []
wake_fifo_example = wake_fifo 2 1 queue
