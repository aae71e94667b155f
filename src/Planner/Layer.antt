-- ===== src/Planner/Layer.antt =====
-- The rule by which every layer of `_execution_plan` (app/service.py) keeps its limit.
use borg_backup_manager.Prelude.{
  ℕ, ◌+◌, ◌≤◌, ◌<◌, max, Bool, true, false, Option, none, some, List, [], ◌∷◌, ◌++◌, if◌then◌else◌,
  ite, length, length-append, keep, keep-append, ◌≡◌, refl, arith, inl, inr, sym,
}
use mathlib.Core.Path.{subst}
use borg_backup_manager.Runs.{Run}
use borg_backup_manager.Planner.{
  Layers, Plan, Reason, refusal, occupy, occupy_all, select, block, decide, decide_all, plan,
  vacant,
}
use borg_backup_manager.Planner.Step.{
  IsCleared, refusal-IsCleared, decide-none, decide-some, refusal_cases,
}

abbrev pub count : (Run → Bool) → List Run → ℕ
count holds rows = length (keep holds rows)

abbrev pub unit : Bool → ℕ
unit b = if b then 1 else 0

-- Whether a run's key is the given one.
abbrev pub has_key {ℓ} : {K : Type ℓ} → Discrete K → K → Option K → Bool
has_key dec k none = false
has_key dec k (some key) = ite (dec key k) true false

pub count-append :
    (holds : Run → Bool) (xs ys : List Run)
    → count holds (xs ++ ys) ≡ count holds xs + count holds ys
count-append holds xs ys =
    rw (keep-append holds xs ys) (length-append (keep holds xs) (keep holds ys))

-- A layer: the number of its occupants in a plan, and the runs that occupy it.
module _ (l : Layers) (occupants : Plan → ℕ) (holds : Run → Bool) (limit : ℕ)
    (takes : (r : Run) (p : Plan) → occupants (select l r p) ≡ occupants p + unit (holds r))
    (occupies : (r : Run) (p : Plan) → occupants (occupy l r p) ≡ occupants p + unit (holds r))
    (blocked : (r : Run) (why : Reason) (p : Plan) → occupants (block r why p) ≡ occupants p)
    (guarded : (r : Run) (p : Plan) → IsCleared l p r → holds r ≡ true → occupants p < limit) where
  occupied_count :
      (running : List Run) (p : Plan)
      → occupants (occupy_all l running p) ≡ occupants p + count holds running
  unfolding occupy_all
  occupied_count [] p = omega arith
  occupied_count (r ∷ running) p =
      ground (arith, occupied_count running (occupy l r p), occupies r p)

  abbrev Fits : ℕ → Plan → Type 0
  Fits base p = (occupants p ≡ base + count holds p.selected) × (occupants p ≤ max limit base)

  select-Fits :
      (base : ℕ) (r : Run) (p : Plan)
      → refusal l p r ≡ none
      → Fits base p
      → Fits base (select l r p)
  unfolding select
  select-Fits base r p e h = ground (
    arith,
    takes r p,
    guarded r p (refusal-IsCleared l p r e),
    count-append holds p.selected (r ∷ []),
  )

  block-Fits :
      (base : ℕ) (r : Run) (why : Reason) (p : Plan) → Fits base p → Fits base (block r why p)
  unfolding block
  block-Fits base r why p h = ground (arith, blocked r why p)

  decide-Fits : (base : ℕ) (r : Run) (p : Plan) → Fits base p → Fits base (decide l p r)
  decide-Fits base r p h = elim (refusal_cases l p r) [
    | inl e ↦ subst (Fits base) (sym (decide-none l p r e)) (select-Fits base r p e h)
    | inr (why, e) ↦ subst (Fits base) (sym (decide-some l p r why e)) (block-Fits base r why p h)
  ]

  decide_all-Fits :
      (base : ℕ) (queued : List Run) (p : Plan) → Fits base p → Fits base (decide_all l p queued)
  unfolding decide_all
  decide_all-Fits base [] p h = h
  decide_all-Fits base (r ∷ queued) p h =
      decide_all-Fits base queued (decide l p r) (decide-Fits base r p h)

  selected-occupy_all :
      (running : List Run) (p : Plan) → (occupy_all l running p).selected ≡ p.selected
  unfolding occupy_all
  selected-occupy_all [] p = refl
  selected-occupy_all (r ∷ running) p = selected-occupy_all running (occupy l r p)

  pub layer_limit :
      (running queued : List Run)
      → occupants vacant ≡ 0
      → count holds (running ++ (plan l running queued).selected) ≤ max limit (count holds running)
  unfolding plan
  layer_limit running queued z =
      let p = occupy_all l running vacant in
      let fits =
        decide_all-Fits (count holds running) queued p
          (ground (arith, occupied_count running vacant, selected-occupy_all running vacant)) in
      omega (arith, fits, count-append holds running (decide_all l p queued).selected)
