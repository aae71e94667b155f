-- ===== src/Telemetry/Loop.antt =====
-- app/borg_progress.py, `BorgNetworkStreamFilter`: the loop of `feed` ends, and does on a payload what
-- the machine does that reads byte by byte.
use borg_backup_manager.Prelude.{
  ℕ, zero, suc, ◌<◌, true, false, none, some, [], ◌∷◌, ◌++◌, ◌==◌, length, ◌≡◌, refl, sym, ap, ◌∙◌,
  subst, arith, inl, inr, Bool-cases, append_assoc, append_nil,
}
use borg_backup_manager.ItemActivity.{Bytes}
use borg_backup_manager.BackupTasks.Tidy.{found_cases}
use borg_backup_manager.Telemetry.{network_prefix, Counters}
use borg_backup_manager.Telemetry.Scan.{
  passed, taken, find_prefix, find_newline, tail_of, Scanned, after_output, scanned_after, scan,
}
use borg_backup_manager.Telemetry.Machine.{
  passing, waiting, pending, Ran, ran, prepend, run, run_by, step_line, step_inside,
}
use borg_backup_manager.Telemetry.Resume.{Agrees, run_tail, IsFound, run-IsFound}

-- The search for the end of a line takes a byte.
line_cons :
    (c : ℕ) (u line after : Bytes)
    → (c == 10) ≡ false
    → find_newline (c ∷ u) ≡ some (line, after)
    → (l : Bytes) × ((find_newline u ≡ some (l, after)) × (line ≡ c ∷ l))
unfolding find_newline
line_cons c u line after h f = elim (found_cases (find_newline u)) [
  | inl e ↦ ground (arith, h, f, e)
  | inr (x, e) ↦ (x.0, ground (arith, h, f, e))
]

line_start :
    (c : ℕ) (u line after : Bytes)
    → (c == 10) ≡ true
    → find_newline (c ∷ u) ≡ some (line, after)
    → (line ≡ []) × (after ≡ u)
unfolding find_newline
line_start c u line after h f = ground (arith, h, f)

line_none :
    (c : ℕ) (u : Bytes)
    → find_newline (c ∷ u) ≡ none
    → ((c == 10) ≡ false) × (find_newline u ≡ none)
unfolding find_newline
line_none c u f = ground (arith, f)

prefix_line :
    (u : Bytes)
    → ((find_newline u ≡ none) → find_newline (network_prefix ++ u) ≡ none)
      × ((line after : Bytes)
          → find_newline u ≡ some (line, after)
          → find_newline (network_prefix ++ u) ≡ some (network_prefix ++ line, after))
unfolding find_newline
prefix_line u = (λ e. ground (arith, e), λ line after e. ground (arith, e))

module _ {T : Type 0} (on : Counters → T → T) where
  run_unended :
      (u seen : Bytes) (t : T)
      → find_newline u ≡ none
      → run on u (waiting seen []) t ≡ ran on [] (waiting (seen ++ u) []) t
  unfolding run
  run_unended [] seen t h = ap (λ s. ran on [] (waiting s []) t) (sym (append_nil seen))
  run_unended (c ∷ u) seen t h =
      let h' = line_none c u h in
      run_by on c u (waiting seen []) t _ (step_inside on c seen t h'.0)
      ∙ run_unended u (seen ++ c ∷ []) t h'.1
      ∙ ap (λ s. ran on [] (waiting s []) t) (append_assoc seen (c ∷ []) u)

  run_ended :
      (u seen line after : Bytes) (t : T)
      → find_newline u ≡ some (line, after)
      → (run on u (waiting seen []) t
          ≡ prepend on (passed (seen ++ line)) (run on after passing (taken on (seen ++ line) t)))
        × (length after < length u)
  unfolding find_newline
  run_ended [] seen line after t f = cc
  run_ended (c ∷ u) seen line after t f = elim (Bool-cases (c == 10)) [
    | inl h ↦
        let start = line_start c u line after h f in
        (
          run_by on c u (waiting seen []) t _ (step_line on c seen t h)
              ∙ ap (λ s. prepend on (passed s) (run on u passing (taken on s t)))
                  (sym (append_nil seen) ∙ ap (λ l. seen ++ l) (sym start.0))
              ∙ ap
                  (λ a.
                    prepend on (passed (seen ++ line))
                      (run on a passing (taken on (seen ++ line) t)))
                  (sym start.1),
          subst (λ a. length a < suc (length u)) (sym start.1) (omega arith),
        )
    | inr h ↦
        let later = line_cons c u line after h f in
        let rest = run_ended u (seen ++ c ∷ []) later.0 after t later.1.0 in
        (
          run_by on c u (waiting seen []) t _ (step_inside on c seen t h)
              ∙ rest.0
              ∙ ap (λ s. prepend on (passed s) (run on after passing (taken on s t)))
                  (append_assoc seen (c ∷ []) later.0 ∙ ap (λ l. seen ++ l) (sym later.1.1)),
          omega (arith, rest.1),
        )
  ]

  -- The loop ends, and as the machine does.
  pub record IsScanned (fuel : ℕ) (s : Bytes) (t : T) : Type 0 where
    pub result : Scanned T
    pub ended : scan on fuel s t ≡ some result
    pub agrees : Agrees on (run on s passing t) result.output result.carry result.state

  IsScanned-tail : (fuel : ℕ) (s : Bytes) (t : T) → find_prefix s ≡ none → IsScanned (suc fuel) s t
  unfolding scan
  IsScanned-tail fuel s t f = record {
    result = record { output = (tail_of s).0; carry = (tail_of s).1; state = t };
    ended = rw (f, scan) refl;
    agrees = run_tail on s t f;
  }

  IsScanned-open :
      (fuel : ℕ) (s b m : Bytes) (t : T)
      → find_prefix s ≡ some (b, m)
      → (f : IsFound on s b m t) → find_newline f.body ≡ none
      → IsScanned (suc fuel) s t
  unfolding scan pending
  IsScanned-open fuel s b m t e f h =
      let unended : find_newline m ≡ none =
        subst (λ x. find_newline x ≡ none) (sym f.marked) ((prefix_line f.body).0 h) in
      let reached : run on s passing t
          ≡ ran on (b ++ []) (waiting (network_prefix ++ f.body) []) t =
        f.reached ∙ ap (prepend on b) (run_unended f.body network_prefix t h) in
      record {
        result = record { output = b; carry = m; state = t };
        ended = rw (e, unended, scan) refl;
        agrees = subst (λ r. Agrees on r b m t) (sym reached) (append_nil b, (sym f.marked, refl));
      }

  agree_after :
      (b p : Bytes) (x : Ran T) (output carry : Bytes) (t : T)
      → Agrees on x output carry t
      → Agrees on (prepend on b (prepend on p x)) ((b ++ p) ++ output) carry t
  agree_after b p x output carry t a =
      (ap (λ o. b ++ (p ++ o)) a.0 ∙ sym (append_assoc b p output), a.1)

  IsScanned-line :
      (fuel : ℕ) (s b m line after : Bytes) (t : T)
      → find_prefix s ≡ some (b, m)
      → (f : IsFound on s b m t) → find_newline f.body ≡ some (line, after)
      → IsScanned fuel after (taken on (network_prefix ++ line) t)
      → IsScanned (suc fuel) s t
  unfolding scan
  IsScanned-line fuel s b m line after t e f h rest =
      let full : Bytes = network_prefix ++ line in
      let ended : find_newline m ≡ some (full, after) =
        subst (λ x. find_newline x ≡ some (full, after)) (sym f.marked)
          ((prefix_line f.body).1 line after h) in
      let reached : run on s passing t
          ≡ prepend on b (prepend on (passed full) (run on after passing (taken on full t))) =
        f.reached ∙ ap (prepend on b) (run_ended f.body network_prefix line after t h).0 in
      record {
        result = after_output (b ++ passed full) rest.result;
        ended = rw (e, ended, scan) (ap (scanned_after on (b ++ passed full)) rest.ended);
        agrees =
            subst
              (λ r.
                Agrees on r ((b ++ passed full) ++ rest.result.output) rest.result.carry
                  rest.result.state)
              (sym reached)
              (agree_after b (passed full) _ rest.result.output rest.result.carry rest.result.state
                rest.agrees);
      }

  -- With fuel above the length of the payload the loop of `feed` ends, and it ends with the output,
  -- the carry and the state of the machine that reads the payload byte by byte.
  pub scan_ends : (fuel : ℕ) (s : Bytes) (t : T) → length s < fuel → IsScanned fuel s t
  scan_ends zero s t h = absurd (omega (arith, h))
  scan_ends (suc fuel) s t h = elim (found_cases (find_prefix s)) [
    | inl e ↦ IsScanned-tail fuel s t e
    | inr ((b, m), e) ↦
        let f : IsFound on s b m t = run-IsFound on s b m t e in
        elim (found_cases (find_newline f.body)) [
          | inl g ↦ IsScanned-open fuel s b m t e f g
          | inr ((line, after), g) ↦
              let shorter : length after < length f.body =
                (run_ended f.body network_prefix line after t g).1 in
              IsScanned-line fuel s b m line after t e f g (
                scan_ends fuel after (taken on (network_prefix ++ line) t)
                  (omega (arith, h, shorter, f.shorter)))
        ]
  ]
