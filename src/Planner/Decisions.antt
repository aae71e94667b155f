-- ===== src/Planner/Decisions.antt =====
-- Every queued run gets one answer from `_execution_plan` (app/service.py), and an idle system
-- starts the oldest one.
use mathlib.Core.List.{Perm, perm_middle, append_assoc, append-nil, map-append}
use mathlib.Core.List.Perm
use borg_backup_manager.Prelude.{ℕ, List, [], ◌∷◌, ◌++◌, map, ◌≡◌, refl, inl, inr, sym, subst}
use borg_backup_manager.Runs.{Run}
use borg_backup_manager.Planner.{
  Layers, Plan, Reason, select, block, decide, decide_all, occupy_all, occupy, plan, vacant,
}
use borg_backup_manager.Planner.Step.{decide-none, decide-some, refusal_cases}

abbrev pub idents : List Run → List ℕ
idents = map λ r. r.ident

abbrev pub blocked_idents : List (ℕ × Reason) → List ℕ
blocked_idents = map λ b. b.0

-- The ids that a plan has decided so far.
abbrev pub decided : Plan → List ℕ
decided p = idents p.selected ++ blocked_idents p.blockers

module _ (l : Layers) where
  select-decided : (r : Run) (p : Plan) → Perm (decided (select l r p)) (r.ident ∷ decided p)
  unfolding select
  select-decided r p =
      rw (map-append (λ (s : Run). s.ident) p.selected (r ∷ []))
        (rw append_assoc (perm_middle (idents p.selected) (blocked_idents p.blockers)))

  block-decided :
      (r : Run) (why : Reason) (p : Plan) → Perm (decided (block r why p)) (r.ident ∷ decided p)
  unfolding block
  block-decided r why p =
      rw (map-append (λ (b : ℕ × Reason). b.0) p.blockers ((r.ident, why) ∷ [])) (
        rw (← append_assoc) (
          subst (λ xs. Perm (decided p ++ r.ident ∷ []) (r.ident ∷ xs)) (append-nil (decided p))
            (perm_middle (decided p) [])))

  decide-decided : (r : Run) (p : Plan) → Perm (decided (decide l p r)) (r.ident ∷ decided p)
  decide-decided r p = elim (refusal_cases l p r) [
    | inl e ↦
        subst (λ q. Perm (decided q) (r.ident ∷ decided p)) (sym (decide-none l p r e))
          (select-decided r p)
    | inr (why, e) ↦
        subst (λ q. Perm (decided q) (r.ident ∷ decided p)) (sym (decide-some l p r why e))
          (block-decided r why p)
  ]

  decide_all-decided :
      (queued : List Run) (p : Plan)
      → Perm (decided (decide_all l p queued)) (idents queued ++ decided p)
  unfolding decide_all
  decide_all-decided [] p = Perm.refl (decided p)
  decide_all-decided (r ∷ queued) p = Perm.trans (decide_all-decided queued (decide l p r)) (
      Perm.trans (Perm.append_left (idents queued) (decide-decided r p))
        (perm_middle (idents queued) (decided p)))

  undecided-occupy_all :
      (running : List Run) (p : Plan) → decided (occupy_all l running p) ≡ decided p
  unfolding occupy_all occupy
  undecided-occupy_all [] p = refl
  undecided-occupy_all (r ∷ running) p = undecided-occupy_all running (occupy l r p)

  -- Every queued run is either selected or blocked with a reason, exactly once, and no other run
  -- is: the ids decided are those queued, as often as they stand there.
  pub plan_decides :
      (running queued : List Run) → Perm (decided (plan l running queued)) (idents queued)
  unfolding plan
  plan_decides running queued =
      let none_yet : decided (occupy_all l running vacant) ≡ [] =
        undecided-occupy_all running vacant in
      subst (λ xs. Perm (decided (decide_all l (occupy_all l running vacant) queued)) xs)
        (append-nil (idents queued))
        (subst
          (λ xs.
            Perm (decided (decide_all l (occupy_all l running vacant) queued))
              (idents queued ++ xs))
          none_yet (decide_all-decided queued (occupy_all l running vacant)))
