-- ===== src/Telemetry/Resume.antt =====
-- app/borg_progress.py, `BorgNetworkStreamFilter.feed`: the searches of its loop, read by the machine.
use borg_backup_manager.Prelude.{
  ℕ, ◌<◌, true, false, none, some, [], ◌∷◌, ◌++◌, ◌==◌, length, contains, ◌≡◌, refl, sym, ap, ◌∙◌,
  subst, arith, inl, inr, Bool-cases,
}
use borg_backup_manager.ItemActivity.{Bytes}
use borg_backup_manager.BackupTasks.Tidy.{found_cases}
use borg_backup_manager.Telemetry.{mark, prefix_tail, network_prefix, Counters}
use borg_backup_manager.Telemetry.Scan.{starts_with, find_prefix, last_mark, tail_of}
use borg_backup_manager.Telemetry.Machine.{
  ran, passing, waiting, pending, Ran, prepend, run, run_by, step_pass, step_start, run_complete,
  run_partial, run_broken,
}

-- A start is taken off.
pub starts_with-split : (p s : Bytes) → starts_with p s ≡ true → (r : Bytes) × (s ≡ p ++ r)
unfolding starts_with
starts_with-split [] s h = (s, refl)
starts_with-split (c ∷ p) [] h = cc
starts_with-split (c ∷ p) (d ∷ s) h =
    let rest = starts_with-split p s (ground (arith, h)) in (rest.0, ground (arith, h, rest.1))

partial_unfound :
    (s p : Bytes)
    → starts_with s p ≡ true
    → contains mark p ≡ false
    → (find_prefix s ≡ none) × (last_mark s ≡ none)
unfolding starts_with find_prefix last_mark
partial_unfound [] p h f = (refl, refl)
partial_unfound (c ∷ s) [] h f = cc
partial_unfound (c ∷ s) (d ∷ p) h f =
    ground (arith, h, f, partial_unfound s p (ground (arith, h)) (ground (arith, f)))

tail_cons :
    (c : ℕ) (s : Bytes)
    → starts_with (c ∷ s) network_prefix ≡ false
    → tail_of (c ∷ s) ≡ (c ∷ (tail_of s).0, (tail_of s).1)
unfolding tail_of last_mark
tail_cons c s h = ground (arith, h)

find_none_cons :
    (c : ℕ) (s : Bytes)
    → find_prefix (c ∷ s) ≡ none
    → (starts_with network_prefix (c ∷ s) ≡ false) × (find_prefix s ≡ none)
unfolding find_prefix
find_none_cons c s h = ground (arith, h)

module _ {T : Type 0} (on : Counters → T → T) where
  abbrev pub Agrees : Ran T → Bytes → Bytes → T → Type 0
  Agrees r output carry t = (r.output ≡ output) × ((pending r.mode ≡ carry) × (r.state ≡ t))

  cons-Agrees :
      (c : ℕ) (s : Bytes) (t : T)
      → starts_with (c ∷ s) network_prefix ≡ false
      → run on (c ∷ s) passing t ≡ prepend on (c ∷ []) (run on s passing t)
      → Agrees (run on s passing t) (tail_of s).0 (tail_of s).1 t
      → Agrees (run on (c ∷ s) passing t) (tail_of (c ∷ s)).0 (tail_of (c ∷ s)).1 t
  cons-Agrees c s t h e a =
      subst (λ (x : Bytes × Bytes). Agrees (run on (c ∷ s) passing t) x.0 x.1 t)
        (sym (tail_cons c s h))
        (subst (λ r. Agrees r (c ∷ (tail_of s).0) (tail_of s).1 t) (sym e)
          (ap (λ o. c ∷ o) a.0, a.1))

  -- The marker and a part of the rest of the prefix.
  whole-Agrees :
      (s : Bytes) (t : T)
      → starts_with s prefix_tail ≡ true
      → Agrees (run on (mark ∷ s) passing t) (tail_of (mark ∷ s)).0 (tail_of (mark ∷ s)).1 t
  unfolding pending tail_of last_mark starts_with
  whole-Agrees s t h =
      let split = starts_with-split s prefix_tail h in
      let none_left = partial_unfound s prefix_tail h refl in
      let result : run on (mark ∷ s) passing t ≡ ran on [] (waiting (mark ∷ s) split.0) t =
        run_by on mark s passing t _ (step_start on mark t refl)
        ∙ ap (λ r. run on s (waiting (mark ∷ []) r) t) split.1
        ∙ run_partial on s split.0 (mark ∷ []) t in
      subst (λ r. Agrees r (tail_of (mark ∷ s)).0 (tail_of (mark ∷ s)).1 t) (sym result)
        (ground (arith, none_left.1, h))

  mark_passes :
      (s : Bytes) (t : T)
      → starts_with network_prefix (mark ∷ s) ≡ false
      → starts_with s prefix_tail ≡ false
      → run on (mark ∷ s) passing t ≡ prepend on (mark ∷ []) (run on s passing t)
  unfolding starts_with
  mark_passes s t h g =
      run_by on mark s passing t _ (step_start on mark t refl)
      ∙ run_broken on s (mark ∷ []) 66 (66 ∷ 77 ∷ 78 ∷ 69 ∷ 84 ∷ 9 ∷ []) t refl h g

  other_passes :
      (c : ℕ) (s : Bytes) (t : T)
      → (c == mark) ≡ false
      → run on (c ∷ s) passing t ≡ prepend on (c ∷ []) (run on s passing t)
  other_passes c s t h = run_by on c s passing t _ (step_pass on c t h)

  no_start : (c : ℕ) (s : Bytes) → (c == mark) ≡ false → starts_with (c ∷ s) network_prefix ≡ false
  unfolding starts_with
  no_start c s h = ground (arith, h)

  mark_tail :
      (s : Bytes) (t : T)
      → starts_with network_prefix (mark ∷ s) ≡ false
      → Agrees (run on s passing t) (tail_of s).0 (tail_of s).1 t
      → Agrees (run on (mark ∷ s) passing t) (tail_of (mark ∷ s)).0 (tail_of (mark ∷ s)).1 t
  unfolding starts_with
  mark_tail s t h a = elim (Bool-cases (starts_with s prefix_tail)) [
    | inl g ↦ whole-Agrees s t g
    | inr g ↦ cons-Agrees mark s t g (mark_passes s t h g) a
  ]

  -- A payload without the prefix passes but for the beginning of one at its end.
  pub run_tail :
      (s : Bytes) (t : T)
      → find_prefix s ≡ none
      → Agrees (run on s passing t) (tail_of s).0 (tail_of s).1 t
  unfolding run pending tail_of last_mark
  run_tail [] t h = (refl, (refl, refl))
  run_tail (c ∷ s) t h =
      let h' = find_none_cons c s h in
      let rest = run_tail s t h'.1 in
      elim (Bool-cases (c == mark)) [
        | inl e ↦
            let same : mark ≡ c = ground (arith, e) in
            subst
              (λ d.
                starts_with network_prefix (d ∷ s) ≡ false
                → Agrees (run on (d ∷ s) passing t) (tail_of (d ∷ s)).0 (tail_of (d ∷ s)).1 t)
              same (λ g. mark_tail s t g rest) h'.0
        | inr e ↦ cons-Agrees c s t (no_start c s e) (other_passes c s t e) rest
      ]

  -- The machine is behind the first prefix.
  pub record IsFound (s b m : Bytes) (t : T) : Type 0 where
    pub body : Bytes
    pub marked : m ≡ network_prefix ++ body
    pub reached : run on s passing t ≡ prepend on b (run on body (waiting network_prefix []) t)
    pub shorter : length body < length s

  IsFound-here : (s : Bytes) (t : T) → starts_with network_prefix s ≡ true → IsFound s [] s t
  IsFound-here s t h =
      let split = starts_with-split network_prefix s h in
      record {
        body = split.0;
        marked = split.1;
        reached =
            ap (λ u. run on u passing t) split.1
            ∙ run_by on mark (prefix_tail ++ split.0) passing t _ (step_start on mark t refl)
            ∙ run_complete on prefix_tail split.0 (mark ∷ []) t;
        shorter = subst (λ u. length split.0 < length u) (sym split.1) (omega arith);
      }

  IsFound-cons :
      (c : ℕ) (s b m : Bytes) (t : T)
      → run on (c ∷ s) passing t ≡ prepend on (c ∷ []) (run on s passing t)
      → IsFound s b m t
      → IsFound (c ∷ s) (c ∷ b) m t
  IsFound-cons c s b m t e f = record {
    body = f.body;
    marked = f.marked;
    reached = e ∙ ap (prepend on (c ∷ [])) f.reached;
    shorter = omega (arith, f.shorter);
  }

  passes_before :
      (c : ℕ) (s b m : Bytes) (t : T)
      → starts_with network_prefix (c ∷ s) ≡ false
      → find_prefix s ≡ some (b, m)
      → run on (c ∷ s) passing t ≡ prepend on (c ∷ []) (run on s passing t)
  passes_before c s b m t h f = elim (Bool-cases (c == mark)) [
    | inl e ↦
        let same : mark ≡ c = ground (arith, e) in
        let unfinished : starts_with s prefix_tail ≡ false =
          elim (Bool-cases (starts_with s prefix_tail)) [
            | inl g ↦ ground (arith, (partial_unfound s prefix_tail g refl).0, f)
            | inr g ↦ g
          ] in
        subst
          (λ d.
            starts_with network_prefix (d ∷ s) ≡ false
            → run on (d ∷ s) passing t ≡ prepend on (d ∷ []) (run on s passing t))
          same (λ g. mark_passes s t g unfinished) h
    | inr e ↦ other_passes c s t e
  ]

  find_cons :
      (c : ℕ) (s b m : Bytes)
      → starts_with network_prefix (c ∷ s) ≡ false
      → find_prefix (c ∷ s) ≡ some (b, m)
      → (b' : Bytes) × ((find_prefix s ≡ some (b', m)) × (b ≡ c ∷ b'))
  unfolding find_prefix
  find_cons c s b m h f = elim (found_cases (find_prefix s)) [
    | inl e ↦ ground (arith, h, f, e)
    | inr (x, e) ↦ (x.0, ground (arith, h, f, e))
  ]

  find_start :
      (c : ℕ) (s b m : Bytes)
      → starts_with network_prefix (c ∷ s) ≡ true
      → find_prefix (c ∷ s) ≡ some (b, m)
      → (b ≡ []) × (m ≡ c ∷ s)
  unfolding find_prefix
  find_start c s b m h f = ground (arith, h, f)

  -- What stands before the first prefix passes.
  pub run-IsFound : (s b m : Bytes) (t : T) → find_prefix s ≡ some (b, m) → IsFound s b m t
  unfolding find_prefix
  run-IsFound [] b m t f = cc
  run-IsFound (c ∷ s) b m t f = elim (Bool-cases (starts_with network_prefix (c ∷ s))) [
    | inl h ↦
        let start = find_start c s b m h f in
        subst (λ x. IsFound (c ∷ s) x m t) (sym start.0)
          (subst (λ x. IsFound (c ∷ s) [] x t) (sym start.1) (IsFound-here (c ∷ s) t h))
    | inr h ↦
        let later = find_cons c s b m h f in
        subst (λ x. IsFound (c ∷ s) x m t) (sym later.1.1)
          (IsFound-cons c s later.0 m t (passes_before c s later.0 m t h later.1.0)
            (run-IsFound s later.0 m t later.1.0))
  ]
