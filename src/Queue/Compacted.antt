-- ===== src/Queue/Compacted.antt =====
-- app/service.py, `_scheduled_backup_group`: the third phase compacts a repository at most once, after
-- all of its prune runs succeeded.
use borg_backup_manager.Prelude.{
  ap, ◌∙◌, subst, none, some, ℕ_discrete, append_assoc, append_nil, true, contains, min, sym, ℕ,
  ◌<◌, ◌≤◌, List, [], ◌∷◌, ◌++◌, ltb, if◌then◌else◌, ◌==◌, ◌≡◌, refl, arith, inl, inr, Bool-cases,
  All, All_imp,
}
use borg_backup_manager.Dict
use borg_backup_manager.Runs.{Status}
use borg_backup_manager.Dict.Keys.{Distinct}
use borg_backup_manager.Queue.Groups.{Prunes}
use borg_backup_manager.Dict.{Dict}
use borg_backup_manager.Queue.Compaction.{
  has_succeeded, turns_of, GroupSettings, all_succeeded, jobs_by_repository, compact_turns,
  turns_of, least_of, representative, add_to_repository,
}

-- The jobs that were pruned in a repository, in the order of the phase.
unfoldable pub jobs_of : ℕ → Dict ℕ ℕ → List ℕ
jobs_of r [] = []
jobs_of r ((j, q) ∷ prunes) = let rest = jobs_of r prunes in if q == r then j ∷ rest else rest

Ascending : Dict ℕ (List ℕ) → Type 0
Ascending [] = Unit
Ascending ((r, js) ∷ d) = All (λ e. r < e.0) d × Ascending d

unfoldable pub list_at : ℕ → Dict ℕ (List ℕ) → List ℕ
list_at r [] = []
list_at r ((q, js) ∷ d) = let rest = list_at r d in if q == r then js else rest

above_absent : (r : ℕ) (d : Dict ℕ (List ℕ)) → All (λ e. r < e.0) d → list_at r d ≡ []
unfolding list_at
above_absent r [] h = refl
above_absent r ((q, js) ∷ d) h = ground (arith, h.0, above_absent r d h.1)

All-add :
    (n r j : ℕ) (d : Dict ℕ (List ℕ))
    → n < r
    → All (λ e. n < e.0) d
    → All (λ e. n < e.0) (add_to_repository r j d)
unfolding add_to_repository
All-add n r j [] l h = (l, tt)
All-add n r j ((q, js) ∷ d) l h = ground (arith, l, h.0, h.1, All-add n r j d l h.1)

add-Ascending : (r j : ℕ) (d : Dict ℕ (List ℕ)) → Ascending d → Ascending (add_to_repository r j d)
unfolding add_to_repository Ascending
add-Ascending r j [] h = (tt, tt)
add-Ascending r j ((q, js) ∷ d) h = elim (Bool-cases (q == r)) [
  | inl e ↦ ground (arith, e, h.0, h.1)
  | inr e ↦ elim (Bool-cases (ltb r q)) [
    | inl l ↦
        let above : All (λ e. r < e.0) d =
          All_imp (λ e. q < e.0) _ (λ e g. ground (arith, g, l)) d h.0 in
        ground (arith, e, l, h.0, h.1, above)
    | inr l ↦
        let order : q < r = ground (arith, e, l) in
        ground (arith, e, l, All-add q r j d order h.0, add-Ascending r j d h.1)
  ]
]

absent_below : (k q : ℕ) (d : Dict ℕ (List ℕ)) → All (λ e. q < e.0) d → k ≤ q → list_at k d ≡ []
absent_below k q d h l =
    above_absent k d (All_imp (λ e. q < e.0) _ (λ e g. omega (arith, g, l)) d h)

list_at-add :
    (k r j : ℕ) (d : Dict ℕ (List ℕ))
    → Ascending d
    → list_at k (add_to_repository r j d) ≡ (if r == k then list_at k d ++ j ∷ [] else list_at k d)
unfolding add_to_repository Ascending list_at
list_at-add k r j [] h = ground arith
list_at-add k r j ((q, js) ∷ d) h = elim (Bool-cases (r == k)) [
  | inl e ↦ ground (arith, e, list_at-add k r j d h.1, absent_below k q d h.0)
  | inr e ↦ ground (arith, e, list_at-add k r j d h.1)
]

jobs-Ascending :
    (prunes : Dict ℕ ℕ) (d : Dict ℕ (List ℕ))
    → Ascending d
    → Ascending (jobs_by_repository prunes d)
unfolding jobs_by_repository
jobs-Ascending [] d h = h
jobs-Ascending ((j, r) ∷ prunes) d h =
    jobs-Ascending prunes (add_to_repository r j d) (add-Ascending r j d h)

list_at-jobs :
    (k : ℕ) (prunes : Dict ℕ ℕ) (d : Dict ℕ (List ℕ))
    → Ascending d
    → list_at k (jobs_by_repository prunes d) ≡ list_at k d ++ jobs_of k prunes
unfolding jobs_by_repository jobs_of
list_at-jobs k [] d h = sym (append_nil (list_at k d))
list_at-jobs k ((j, r) ∷ prunes) d h =
    let rest = list_at-jobs k prunes (add_to_repository r j d) (add-Ascending r j d h) in
    elim (Bool-cases (r == k)) [
      | inl e ↦ ground (
        arith,
        e,
        rest,
        list_at-add k r j d h,
        append_assoc (list_at k d) (j ∷ []) (jobs_of k prunes),
      )
      | inr e ↦ ground (arith, e, rest, list_at-add k r j d h)
    ]

turns-above :
    (statuses : Dict ℕ Status) (r : ℕ) (d : Dict ℕ (List ℕ))
    → All (λ e. r < e.0) d
    → Dict.get ℕ_discrete r (compact_turns statuses d) ≡ none
unfolding compact_turns Dict.get
turns-above statuses r [] h = refl
turns-above statuses r ((q, js) ∷ d) h = ground (arith, h.0, turns-above statuses r d h.1)

get-turns :
    (statuses : Dict ℕ Status) (k : ℕ) (d : Dict ℕ (List ℕ))
    → Ascending d
    → Dict.get ℕ_discrete k (compact_turns statuses d) ≡ representative statuses (list_at k d)
unfolding compact_turns Dict.get list_at Ascending representative
get-turns statuses k [] h = refl
get-turns statuses k ((q, js) ∷ d) h = elim (Bool-cases (q == k)) [
  | inl e ↦
      let absent : Dict.get ℕ_discrete k (compact_turns statuses d) ≡ none =
        subst (λ i. Dict.get ℕ_discrete i (compact_turns statuses d) ≡ none) (ground (arith, e))
          (turns-above statuses q d h.0) in
      ground (arith, e, absent)
  | inr e ↦ ground (arith, e, get-turns statuses k d h.1)
]

turns-Distinct :
    (statuses : Dict ℕ Status) (d : Dict ℕ (List ℕ))
    → Ascending d
    → Distinct ℕ_discrete (compact_turns statuses d)
unfolding compact_turns Ascending
turns-Distinct statuses [] h = tt
turns-Distinct statuses ((q, js) ∷ d) h =
    ground (arith, turns-above statuses q d h.0, turns-Distinct statuses d h.1)

-- A repository has the turn that `representative` gives its pruned jobs if the setting is on, else
-- none, and no repository has two turns.
pub turns_exact :
    (s : GroupSettings) (statuses : Dict ℕ Status) (prunes : Prunes) (r : ℕ)
    → (Dict.get ℕ_discrete r (turns_of s statuses prunes) ≡ (
        if s.compact_after_prune
        then representative statuses (jobs_of r prunes.prune_repository)
        else none))
      × Distinct ℕ_discrete (turns_of s statuses prunes)
unfolding turns_of Ascending list_at Dict.get
turns_exact s statuses prunes r =
    let all : Dict ℕ (List ℕ) = jobs_by_repository prunes.prune_repository [] in
    let sorted : Ascending all = jobs-Ascending prunes.prune_repository [] tt in
    let found : Dict.get ℕ_discrete r (compact_turns statuses all)
        ≡ representative statuses (jobs_of r prunes.prune_repository) =
      get-turns statuses r all sorted
      ∙ ap (representative statuses) (list_at-jobs r prunes.prune_repository [] tt) in
    elim (Bool-cases s.compact_after_prune) [
      | inl e ↦ rw (e, turns_of) (found, turns-Distinct statuses all sorted)
      | inr e ↦ rw (e, turns_of) (refl, tt)
    ]

least_of-le : (n : ℕ) (ms : List ℕ) → least_of n ms ≤ n
unfolding least_of
least_of-le n [] = omega arith
least_of-le n (m ∷ ms) = omega (arith, least_of-le (min n m) ms)

least_of-All : (n : ℕ) (ms : List ℕ) → All (λ k. least_of n ms ≤ k) ms
unfolding least_of
least_of-All n [] = tt
least_of-All n (m ∷ ms) = (omega (arith, least_of-le (min n m) ms), least_of-All (min n m) ms)

contains-least_of : (n : ℕ) (ms : List ℕ) → contains (least_of n ms) (n ∷ ms) ≡ true
unfolding least_of
contains-least_of n [] = ground arith
contains-least_of n (m ∷ ms) = ground (arith, contains-least_of (min n m) ms)

all_succeeded-All :
    (statuses : Dict ℕ Status) (js : List ℕ)
    → all_succeeded statuses js ≡ true
    → All (λ k. has_succeeded statuses k ≡ true) js
unfolding all_succeeded
all_succeeded-All statuses [] h = tt
all_succeeded-All statuses (j ∷ js) h = ground (arith, h, all_succeeded-All statuses js)

-- The job that compacts stands for jobs whose prune runs all succeeded, and is the least of them.
pub representative_safe :
    (statuses : Dict ℕ Status) (js : List ℕ) (j : ℕ)
    → representative statuses js ≡ some j
    → (contains j js ≡ true) × (All (λ k. has_succeeded statuses k ≡ true) js × All (λ k. j ≤ k) js)
unfolding representative
representative_safe statuses [] j e = cc
representative_safe statuses (n ∷ ns) j e = elim (Bool-cases (all_succeeded statuses (n ∷ ns))) [
  | inl a ↦
      let least : least_of n ns ≡ j = ground (arith, a, e) in
      subst
        (λ i.
          (contains i (n ∷ ns) ≡ true)
          × (All (λ k. has_succeeded statuses k ≡ true) (n ∷ ns) × All (λ k. i ≤ k) (n ∷ ns)))
        least
        (
          contains-least_of n ns,
          (all_succeeded-All statuses (n ∷ ns) a, (least_of-le n ns, least_of-All n ns)),
        )
  | inr a ↦ ground (arith, a, e)
]
