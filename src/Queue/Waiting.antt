-- ===== src/Queue/Waiting.antt =====
-- app/service.py, `_wait_for_run`: the polls of the database until a run is over. `fuel` bounds the
-- number of polls; the loop of the source has no bound.
use borg_backup_manager.Prelude.{
  ◌⊎◌, ◌≢◌, ap, sym, ℕ, zero, suc, ◌+◌, ◌<◌, ◌≤◌, Option, none, some, if◌then◌else◌, ◌≡◌, refl,
  arith, subst, inl, inr,
}
use borg_backup_manager.BackupTasks.Tidy.{found_cases}
use borg_backup_manager.Runs.{Status, queued, running, success, warning, failed, cancelled}
use borg_backup_manager.Queue.{Row, Manager, is_terminal, find_row}

-- What one poll returns: `failed` for a run that is gone, the status of one that is over.
unfoldable pub polled : Option Row → Option Status
unfolding is_terminal
polled none = some failed
polled (some r) = if is_terminal r.status then some r.status else none

-- `_wait_for_run` from the poll `t` on, where `polls` is the database at each poll.
unfoldable pub wait_for_run : ℕ → ℕ → (ℕ → Manager) → ℕ → Option Status
unfolding polled find_row
wait_for_run zero n polls t = none
wait_for_run (suc fuel) n polls t =
    let rest = wait_for_run fuel n polls (suc t) in
    elim (polled (find_row n (polls t).rows)) [ some s ↦ some s | none ↦ rest ]

-- A run that is gone, with the answer `failed`, or one with a status after which it never runs.
abbrev pub IsOver : Option Row → Status → Type 0
IsOver none s = s ≡ failed
IsOver (some r) s = (s ≡ r.status) × ((r.status ≢ queued) × (r.status ≢ running))

-- A run that is there and has not ended.
abbrev pub IsPending : Option Row → Type 0
IsPending none = ⊥
IsPending (some r) = (r.status ≡ queued) ⊎ (r.status ≡ running)

IsOver-polled : (o : Option Row) (s : Status) → IsOver o s → polled o ≡ some s
unfolding polled is_terminal
IsOver-polled none s h = ap some (sym h)
IsOver-polled (some r) s h = ended_answer r.status s h
  where
    ended_answer :
        (a s : Status)
        → (s ≡ a) × ((a ≢ queued) × (a ≢ running))
        → (if is_terminal a then some a else none) ≡ some s
    ended_answer queued s h = absurd (h.1.0 refl)
    ended_answer running s h = absurd (h.1.1 refl)
    ended_answer success s h = ap some (sym h.0)
    ended_answer warning s h = ap some (sym h.0)
    ended_answer failed s h = ap some (sym h.0)
    ended_answer cancelled s h = ap some (sym h.0)

polled-IsOver : (o : Option Row) (s : Status) → polled o ≡ some s → IsOver o s
unfolding polled is_terminal
polled-IsOver none s h = cc
polled-IsOver (some r) s h = ended r.status s h
  where
    ended :
        (a s : Status)
        → (if is_terminal a then some a else none) ≡ some s
        → (s ≡ a) × ((a ≢ queued) × (a ≢ running))
    ended queued s h = cc
    ended running s h = cc
    ended success s h = (cc, ((λ e. cc), (λ e. cc)))
    ended warning s h = (cc, ((λ e. cc), (λ e. cc)))
    ended failed s h = (cc, ((λ e. cc), (λ e. cc)))
    ended cancelled s h = (cc, ((λ e. cc), (λ e. cc)))

polled-IsPending : (o : Option Row) → polled o ≡ none → IsPending o
unfolding polled is_terminal
polled-IsPending none h = cc
polled-IsPending (some r) h = unended r.status h
  where
    unended :
        (a : Status)
        → (if is_terminal a then some a else none) ≡ none
        → (a ≡ queued) ⊎ (a ≡ running)
    unended queued h = inl refl
    unended running h = inr refl
    unended success h = cc
    unended warning h = cc
    unended failed h = cc
    unended cancelled h = cc

-- The answer is that of the first poll from `t` on at which the run is over.
pub record IsFirst (n : ℕ) (polls : ℕ → Manager) (t : ℕ) (s : Status) : Type 0 where
  pub poll : ℕ
  pub later : t ≤ poll
  pub answer : IsOver (find_row n (polls poll).rows) s
  pub waited : (u : ℕ) → t ≤ u → u < poll → IsPending (find_row n (polls u).rows)

le_cases : (t u : ℕ) → t ≤ u → (t ≡ u) ⊎ (suc t ≤ u)
le_cases t u h = omega (arith, h)

abbrev Answers : ℕ → ℕ → (ℕ → Manager) → ℕ → Type 0
Answers fuel n polls t =
    (s : Status) × ((wait_for_run fuel n polls t ≡ some s) × IsFirst n polls t s)

IsFirst-next :
    (n : ℕ) (polls : ℕ → Manager) (t : ℕ) (s : Status)
    → polled (find_row n (polls t).rows) ≡ none
    → IsFirst n polls (suc t) s
    → IsFirst n polls t s
IsFirst-next n polls t s e f = record {
  poll = f.poll;
  later = omega (arith, f.later);
  answer = f.answer;
  waited = λ u h g. elim (le_cases t u h) [
    | inl k ↦
        subst (λ v. IsPending (find_row n (polls v).rows)) k
          (polled-IsPending (find_row n (polls t).rows) e)
    | inr k ↦ f.waited u k g
  ];
}

answer_now :
    (fuel n : ℕ) (polls : ℕ → Manager) (t : ℕ) (s : Status)
    → polled (find_row n (polls t).rows) ≡ some s
    → Answers (suc fuel) n polls t
unfolding wait_for_run
answer_now fuel n polls t s e = (
  s,
  (
    rw (e, wait_for_run) refl,
    record {
      poll = t;
      later = omega arith;
      answer = polled-IsOver (find_row n (polls t).rows) s e;
      waited = λ u h g. absurd (omega (arith, h, g));
    },
  ),
)

answer_later :
    (fuel n : ℕ) (polls : ℕ → Manager) (t : ℕ)
    → polled (find_row n (polls t).rows) ≡ none
    → Answers fuel n polls (suc t)
    → Answers (suc fuel) n polls t
unfolding wait_for_run
answer_later fuel n polls t e (s, (w, f)) =
    (s, (rw (e, wait_for_run) w, IsFirst-next n polls t s e f))

wait_from :
    (fuel n : ℕ) (polls : ℕ → Manager) (t d : ℕ) (s : Status)
    → polled (find_row n (polls (t + d)).rows) ≡ some s
    → d < fuel
    → Answers fuel n polls t
wait_from zero n polls t d s e h = absurd (omega (arith, h))
wait_from (suc fuel) n polls t zero s e h =
    answer_now fuel n polls t s
      (subst (λ u. polled (find_row n (polls u).rows) ≡ some s) (omega arith) e)
wait_from (suc fuel) n polls t (suc d) s e h =
    elim (found_cases (polled (find_row n (polls t).rows))) [
      | inl k ↦ answer_later fuel n polls t k (
          wait_from fuel n polls (suc t) d s
            (subst (λ u. polled (find_row n (polls u).rows) ≡ some s) (omega arith) e)
            (omega (arith, h)))
      | inr (a, k) ↦ answer_now fuel n polls t a k
    ]

-- If at some poll the run is gone or has a status other than `queued` and `running`, the wait ends
-- by that poll: with any fuel above the number of that poll it gives an answer. There is a poll
-- such that the run was there and queued or running at every poll before it, and at which either
-- the run is gone and the answer is `failed`, or the run is neither queued nor running and the
-- answer is its status.
pub wait_for_run_ends :
    (fuel n : ℕ) (polls : ℕ → Manager) (d : ℕ) (s : Status)
    → IsOver (find_row n (polls d).rows) s
    → d < fuel
    → (a : Status) × ((wait_for_run fuel n polls 0 ≡ some a) × IsFirst n polls 0 a)
wait_for_run_ends fuel n polls d s e h =
    wait_from fuel n polls 0 d s
      (subst (λ u. polled (find_row n (polls u).rows) ≡ some s) (omega arith)
        (IsOver-polled (find_row n (polls d).rows) s e))
      h
