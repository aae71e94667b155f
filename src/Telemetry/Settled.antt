-- ===== src/Telemetry/Settled.antt =====
-- app/borg_progress.py, `BorgNetworkStreamFilter`: the bytes that the machine holds back bring it to
-- the mode that it is in.
use borg_backup_manager.Prelude.{
  ℕ, false, [], ◌∷◌, ◌++◌, ◌==◌, contains, ◌≡◌, refl, sym, ap, ◌∙◌, subst, arith, inl, inr,
  Bool-cases,
}
use borg_backup_manager.ItemActivity.{Bytes}
use borg_backup_manager.Telemetry.{mark, Counters}
use borg_backup_manager.Telemetry.Scan.{Seen}
use borg_backup_manager.Telemetry.Machine.{
  Mode, passing, waiting, pending, Ran, first_wait, ran, prepend, step, run, run_by, run-append,
  step_pass, step_start, step_next, step_restart, step_break, step_line, step_inside,
}

-- The bytes that wait bring the machine back to the mode that they wait in.
unfoldable pub IsSettled : Mode → Type 0
IsSettled m =
    (on : Counters → Seen → Seen) (t : Seen) → run on (pending m) passing t ≡ ran on [] m t

pub passing-IsSettled : IsSettled passing
unfolding IsSettled run pending
passing-IsSettled on t = refl

first_wait-IsSettled : IsSettled first_wait
unfolding IsSettled run pending step
first_wait-IsSettled on t = refl

-- A byte that keeps the machine waiting.
longer-IsSettled :
    (c : ℕ) (seen rest rest' : Bytes)
    → IsSettled (waiting seen rest)
    → ((on : Counters → Seen → Seen) (t : Seen)
        → step on c (waiting seen rest) t ≡ ran on [] (waiting (seen ++ c ∷ []) rest') t)
    → IsSettled (waiting (seen ++ c ∷ []) rest')
unfolding IsSettled pending run
longer-IsSettled c seen rest rest' h e on t =
    run-append on seen (c ∷ []) passing t
    ∙ ap (λ (r : Ran Seen). prepend on r.output (run on (c ∷ []) r.mode r.state)) (h on t)
    ∙ run_by on c [] (waiting seen rest) t _ (e on t)

step-IsSettled :
    (on : Counters → Seen → Seen) (c : ℕ) (m : Mode) (t : Seen)
    → IsSettled m
    → IsSettled (step on c m t).mode
step-IsSettled on c passing t h = elim (Bool-cases (c == mark)) [
  | inl e ↦
      subst (λ (r : Ran Seen). IsSettled r.mode) (sym (step_start on c t e)) first_wait-IsSettled
  | inr e ↦ subst (λ (r : Ran Seen). IsSettled r.mode) (sym (step_pass on c t e)) passing-IsSettled
]
step-IsSettled on c (waiting seen []) t h = elim (Bool-cases (c == 10)) [
  | inl e ↦
      subst (λ (r : Ran Seen). IsSettled r.mode) (sym (step_line on c seen t e)) passing-IsSettled
  | inr e ↦
      subst (λ (r : Ran Seen). IsSettled r.mode) (sym (step_inside on c seen t e))
        (longer-IsSettled c seen [] [] h (λ on' t'. step_inside on' c seen t' e))
]
step-IsSettled on c (waiting seen (d ∷ rest)) t h = elim (Bool-cases (c == d)) [
  | inl e ↦
      subst (λ (r : Ran Seen). IsSettled r.mode) (sym (step_next on c d seen rest t e))
        (longer-IsSettled c seen (d ∷ rest) rest h (λ on' t'. step_next on' c d seen rest t' e))
  | inr e ↦ elim (Bool-cases (c == mark)) [
    | inl g ↦
        subst (λ (r : Ran Seen). IsSettled r.mode) (sym (step_restart on c d seen rest t e g))
          first_wait-IsSettled
    | inr g ↦
        subst (λ (r : Ran Seen). IsSettled r.mode) (sym (step_break on c d seen rest t e g))
          passing-IsSettled
  ]
]

pub run-IsSettled :
    (on : Counters → Seen → Seen) (s : Bytes) (m : Mode) (t : Seen)
    → IsSettled m
    → IsSettled (run on s m t).mode
unfolding run
run-IsSettled on [] m t h = h
run-IsSettled on (c ∷ s) m t h =
    let r = step on c m t in run-IsSettled on s r.mode r.state (step-IsSettled on c m t h)

pub run_unmarked :
    (on : Counters → Seen → Seen) (s : Bytes) (t : Seen)
    → contains mark s ≡ false
    → run on s passing t ≡ ran on s passing t
unfolding run
run_unmarked on [] t h = refl
run_unmarked on (c ∷ s) t h =
    run_by on c s passing t _ (step_pass on c t (ground (arith, h)))
    ∙ ap (prepend on (c ∷ [])) (run_unmarked on s t (ground (arith, h)))
