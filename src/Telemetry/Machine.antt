-- ===== src/Telemetry/Machine.antt =====
-- app/borg_progress.py, `BorgNetworkStreamFilter`: a machine that reads the output of Borg byte by byte,
-- and what it does on a payload without a whole record.
use borg_backup_manager.Prelude.{
  ℕ, true, false, [], ◌∷◌, ◌++◌, ◌==◌, if◌then◌else◌, contains, ◌≡◌, refl, sym, ap, ◌∙◌, arith, inl,
  inr, Bool-cases, append_assoc, append_nil,
}
use borg_backup_manager.ItemActivity.{Bytes}
use borg_backup_manager.Telemetry.{mark, prefix_tail, Counters}
use borg_backup_manager.Telemetry.Scan.{starts_with, passed, taken}

-- Bytes pass, or `seen` waits for the bytes `rest` of the prefix or, if there is none left, for the
-- end of the line.
pub data Mode : Type 0 where
  passing : Mode
  waiting : (seen rest : Bytes) → Mode

unfoldable pub pending : Mode → Bytes
pending passing = []
pending (waiting seen rest) = seen

pub record Ran (T : Type 0) : Type 0 where
  pub output : Bytes
  pub mode : Mode
  pub state : T

abbrev pub first_wait : Mode
first_wait = waiting (mark ∷ []) prefix_tail

module _ {T : Type 0} (on : Counters → T → T) where
  abbrev pub ran : Bytes → Mode → T → Ran T
  ran output mode t = record { output = output; mode = mode; state = t }

  unfoldable pub step : ℕ → Mode → T → Ran T
  unfolding passed taken
  step c passing t = if c == mark then ran [] first_wait t else ran (c ∷ []) passing t
  step c (waiting seen []) t =
      if c == 10
      then ran (passed seen) passing (taken on seen t)
      else ran [] (waiting (seen ++ c ∷ []) []) t
  step c (waiting seen (e ∷ rest)) t =
      if c == e
      then ran [] (waiting (seen ++ c ∷ []) rest) t
      else if c == mark
      then ran seen first_wait t
      else ran (seen ++ c ∷ []) passing t

  abbrev pub prepend : Bytes → Ran T → Ran T
  prepend s r = record r { output = s ++ r.output }

  unfoldable pub run : Bytes → Mode → T → Ran T
  unfolding step
  run [] m t = ran [] m t
  run (c ∷ s) m t = let r = step c m t in prepend r.output (run s r.mode r.state)

  prepend-prepend : (r s : Bytes) (x : Ran T) → prepend r (prepend s x) ≡ prepend (r ++ s) x
  prepend-prepend r s x = ap (λ o. ran o x.mode x.state) (sym (append_assoc r s x.output))

  pub run-append :
      (s u : Bytes) (m : Mode) (t : T)
      → run (s ++ u) m t ≡ (let r = run s m t in prepend r.output (run u r.mode r.state))
  unfolding run
  run-append [] u m t = refl
  run-append (c ∷ s) u m t =
      let r = step c m t in
      ap (prepend r.output) (run-append s u r.mode r.state)
      ∙ prepend-prepend r.output (run s r.mode r.state).output _

  -- A byte, and then the others.
  pub run_by :
      (c : ℕ) (s : Bytes) (m : Mode) (t : T) (r : Ran T)
      → step c m t ≡ r
      → run (c ∷ s) m t ≡ prepend r.output (run s r.mode r.state)
  unfolding run
  run_by c s m t r e = ap (λ (x : Ran T). prepend x.output (run s x.mode x.state)) e

  pub step_pass : (c : ℕ) (t : T) → (c == mark) ≡ false → step c passing t ≡ ran (c ∷ []) passing t
  unfolding step
  step_pass c t h = rw (h, step) refl

  pub step_next :
      (c e : ℕ) (seen rest : Bytes) (t : T)
      → (c == e) ≡ true
      → step c (waiting seen (e ∷ rest)) t ≡ ran [] (waiting (seen ++ c ∷ []) rest) t
  unfolding step
  step_next c e seen rest t h = rw (h, step) refl

  pub step_restart :
      (c e : ℕ) (seen rest : Bytes) (t : T)
      → (c == e) ≡ false
      → (c == mark) ≡ true
      → step c (waiting seen (e ∷ rest)) t ≡ ran seen first_wait t
  unfolding step
  step_restart c e seen rest t h g = rw (h, g, step) refl

  pub step_break :
      (c e : ℕ) (seen rest : Bytes) (t : T)
      → (c == e) ≡ false
      → (c == mark) ≡ false
      → step c (waiting seen (e ∷ rest)) t ≡ ran (seen ++ c ∷ []) passing t
  unfolding step
  step_break c e seen rest t h g = rw (h, g, step) refl

  pub step_start : (c : ℕ) (t : T) → (c == mark) ≡ true → step c passing t ≡ ran [] first_wait t
  unfolding step
  step_start c t h = rw (h, step) refl

  pub step_line :
      (c : ℕ) (seen : Bytes) (t : T)
      → (c == 10) ≡ true
      → step c (waiting seen []) t ≡ ran (passed seen) passing (taken on seen t)
  unfolding step
  step_line c seen t h = rw (h, step) refl

  pub step_inside :
      (c : ℕ) (seen : Bytes) (t : T)
      → (c == 10) ≡ false
      → step c (waiting seen []) t ≡ ran [] (waiting (seen ++ c ∷ []) []) t
  unfolding step
  step_inside c seen t h = rw (h, step) refl

  -- The rest of the prefix arrives.
  pub run_complete :
      (rest u seen : Bytes) (t : T)
      → run (rest ++ u) (waiting seen rest) t ≡ run u (waiting (seen ++ rest) []) t
  run_complete [] u seen t = ap (λ s. run u (waiting s []) t) (sym (append_nil seen))
  run_complete (e ∷ rest) u seen t =
      run_by e (rest ++ u) (waiting seen (e ∷ rest)) t _ (step_next e e seen rest t (ground arith))
      ∙ run_complete rest u (seen ++ e ∷ []) t
      ∙ ap (λ s. run u (waiting s []) t) (append_assoc seen (e ∷ []) rest)

  -- A part of the rest of the prefix arrives.
  pub run_partial :
      (s rest seen : Bytes) (t : T)
      → run s (waiting seen (s ++ rest)) t ≡ ran [] (waiting (seen ++ s) rest) t
  unfolding run
  run_partial [] rest seen t = ap (λ o. ran [] (waiting o rest) t) (sym (append_nil seen))
  run_partial (c ∷ s) rest seen t =
      run_by c s (waiting seen (c ∷ s ++ rest)) t _
        (step_next c c seen (s ++ rest) t (ground arith))
      ∙ run_partial s rest (seen ++ c ∷ []) t
      ∙ ap (λ o. ran [] (waiting o rest) t) (append_assoc seen (c ∷ []) s)

  Breaks : Bytes → Type 0
  Breaks s =
      (seen : Bytes) (e : ℕ) (rest : Bytes) (t : T)
      → contains mark (e ∷ rest) ≡ false
      → starts_with (e ∷ rest) s ≡ false
      → starts_with s (e ∷ rest) ≡ false
      → run s (waiting seen (e ∷ rest)) t ≡ prepend seen (run s passing t)

  run_longer :
      (c e : ℕ) (s seen rest : Bytes) (t : T)
      → Breaks s
      → (c == e) ≡ true
      → contains mark (e ∷ rest) ≡ false
      → starts_with (e ∷ rest) (c ∷ s) ≡ false
      → starts_with (c ∷ s) (e ∷ rest) ≡ false
      → run s (waiting (seen ++ c ∷ []) rest) t ≡ prepend (seen ++ c ∷ []) (run s passing t)
  unfolding starts_with Breaks
  run_longer c e s seen [] t ih k h f g = ground (arith, k, f)
  run_longer c e s seen (d ∷ rest) t ih k h f g =
      ih (seen ++ c ∷ []) d rest t (ground (arith, h)) (ground (arith, f, k)) (ground (arith, g, k))

  -- What turns out not to be the prefix passes as if nothing had waited.
  pub run_broken :
      (s seen : Bytes) (e : ℕ) (rest : Bytes) (t : T)
      → contains mark (e ∷ rest) ≡ false
      → starts_with (e ∷ rest) s ≡ false
      → starts_with s (e ∷ rest) ≡ false
      → run s (waiting seen (e ∷ rest)) t ≡ prepend seen (run s passing t)
  unfolding starts_with Breaks
  run_broken [] seen e rest t h f g = cc
  run_broken (c ∷ s) seen e rest t h f g = elim (Bool-cases (c == e)) [
    | inl k ↦
        run_by c s (waiting seen (e ∷ rest)) t _ (step_next c e seen rest t k)
        ∙ run_longer c e s seen rest t (run_broken s) k h f g
        ∙ sym (prepend-prepend seen (c ∷ []) (run s passing t))
        ∙ ap (prepend seen) (sym (run_by c s passing t _ (step_pass c t (ground (arith, k, h)))))
    | inr k ↦ elim (Bool-cases (c == mark)) [
      | inl j ↦
          run_by c s (waiting seen (e ∷ rest)) t _ (step_restart c e seen rest t k j)
          ∙ ap (prepend seen) (sym (run_by c s passing t _ (step_start c t j)))
      | inr j ↦
          run_by c s (waiting seen (e ∷ rest)) t _ (step_break c e seen rest t k j)
          ∙ sym (prepend-prepend seen (c ∷ []) (run s passing t))
          ∙ ap (prepend seen) (sym (run_by c s passing t _ (step_pass c t j)))
    ]
  ]
