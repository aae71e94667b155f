-- ===== src/Claims/Selected.antt =====
-- The runs that a plan selects are rows of the database: what a successful claim relies on.
use borg_backup_manager.Prelude.{
  Bool-cases, ℕ, ◌≤◌, Bool, true, some, none, List, [], ◌∷◌, ◌++◌, All, keep, map, contains, ◌≡◌,
  arith, ◌==◌, inl, inr, sym, subst,
}
use borg_backup_manager.Runs.{Run}
use borg_backup_manager.Planner.{
  Layers, Plan, select, block, decide, decide_all, occupy, occupy_all, plan, vacant,
}
use borg_backup_manager.Planner.Layer.{count}
use borg_backup_manager.Planner.Step.{decide-none, decide-some, refusal_cases}
use borg_backup_manager.Claims.{find_run}
use borg_backup_manager.Claims.Rows.{DistinctIds}

All-last :
    (P : Run → Type 0) (rows : List Run) (r : Run) → All P rows → P r → All P (rows ++ r ∷ [])
All-last P [] r h p = (p, tt)
All-last P (s ∷ rows) r h p = (h.0, All-last P rows r h.1 p)

module _ (l : Layers) (P : Run → Type 0) where
  decide-All : (r : Run) (p : Plan) → P r → All P p.selected → All P (decide l p r).selected
  decide-All r p q h = elim (refusal_cases l p r) [
    | inl e ↦
        subst (λ (d : Plan). All P d.selected) (sym (decide-none l p r e))
          (unfold select in All-last P p.selected r h q)
    | inr (why, e) ↦
        subst (λ (d : Plan). All P d.selected) (sym (decide-some l p r why e)) (unfold block in h)
  ]

  decide_all-All :
      (queued : List Run) (p : Plan)
      → All P queued
      → All P p.selected
      → All P (decide_all l p queued).selected
  unfolding decide_all
  decide_all-All [] p q h = h
  decide_all-All (r ∷ queued) p q h =
      decide_all-All queued (decide l p r) q.1 (decide-All r p q.0 h)

  occupy_all-All :
      (rows : List Run) (p : Plan) → All P p.selected → All P (occupy_all l rows p).selected
  unfolding occupy_all
  occupy_all-All [] p h = h
  occupy_all-All (r ∷ rows) p h = occupy_all-All rows (occupy l r p) (unfold occupy in h)

  pub plan-All : (rows queued : List Run) → All P queued → All P (plan l rows queued).selected
  unfolding plan
  plan-All rows queued q =
      decide_all-All queued (occupy_all l rows vacant) q (occupy_all-All rows vacant tt)

-- A row that its own id finds.
abbrev pub IsRow : List Run → Run → Type 0
IsRow rows r = find_run r.ident rows ≡ some r

pub row_counted :
    (holds : Run → Bool) (rows : List Run) (n : ℕ) (r : Run) (chosen : List Run)
    → All (IsRow rows) chosen
    → contains n (map (λ s. s.ident) chosen) ≡ true
    → find_run n rows ≡ some r
    → holds r ≡ true
    → 1 ≤ count holds chosen
row_counted holds rows n r [] a c f h = cc
row_counted holds rows n r (s ∷ chosen) a c f h = elim (Bool-cases (s.ident == n)) [
  | inl e ↦
      let same : s.ident ≡ n = ground arith in
      let found : find_run n rows ≡ some s = subst (λ k. find_run k rows ≡ some s) same a.0 in
      let is_r : s ≡ r = cc (found, f) in
      let held : holds s ≡ true = subst (λ x. holds x ≡ true) (sym is_r) h in ground (arith, held)
  | inr e ↦ ground (arith, row_counted holds rows n r chosen a.1 (ground arith) f h)
]

abbrev Finds : List Run → List Run → Type 0
Finds rows part = All (IsRow rows) part

find_run-cons :
    (s : Run) (rows part : List Run)
    → find_run s.ident rows ≡ none
    → Finds rows part
    → Finds (s ∷ rows) part
unfolding find_run
find_run-cons s rows [] d h = tt
find_run-cons s rows (r ∷ part) d h = ground (arith, find_run-cons s rows part d h.1)

pub DistinctIds-Finds : (rows : List Run) → DistinctIds rows → All (IsRow rows) rows
unfolding find_run
DistinctIds-Finds [] d = tt
DistinctIds-Finds (s ∷ rows) d =
    (ground arith, find_run-cons s rows rows d.0 (DistinctIds-Finds rows d.1))

pub keep-All :
    (P : Run → Type 0) (p : Run → Bool) (rows : List Run) → All P rows → All P (keep p rows)
keep-All P p [] h = tt
keep-All P p (r ∷ rows) h = ground (arith, keep-All P p rows h.1)
