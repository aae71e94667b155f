-- ===== src/Queue/Rows.antt =====
-- The rows of app/service.py's run queue: at most one of them is live for a job, and their ids differ.
use borg_backup_manager.Prelude.{
  ℕ, suc, Bool, true, false, List, [], ◌∷◌, ◌++◌, ◌≤◌, ◌<◌, keep, map, contains, ◌≡◌, refl, arith,
  sym, subst, All, All_imp, All-append, All-map, All_always, Unique, append-Unique, length,
  length-keep-fewer, length-keep-map, map-append, keep-append, length-append,
}
use borg_backup_manager.Queue.{Row, Manager, is_live_of_job, has_row, add_row}

abbrev pub live_runs : ℕ → List Row → ℕ
live_runs job rows = length (keep (is_live_of_job job) rows)

pub record IsAlone (m : Manager) : Type 0 where
  pub below : All (λ r. r.ident < m.next_id) m.rows
  pub distinct : Unique (map (λ r. r.ident) m.rows)
  pub alone : (job : ℕ) → live_runs job m.rows ≤ 1

-- A query that finds no row counts none.
pub no_row : (p : Row → Bool) (rows : List Row) → has_row p rows ≡ false → length (keep p rows) ≡ 0
unfolding has_row
no_row p [] h = refl
no_row p (r ∷ rows) h = ground (arith, no_row p rows)

fresh :
    (n : ℕ) (rows : List Row)
    → All (λ r. r.ident < n) rows
    → contains n (map (λ r. r.ident) rows) ≡ false
fresh n [] h = refl
fresh n (r ∷ rows) h = ground (arith, h.0, fresh n rows h.1)

below_next :
    (n : ℕ) (rows : List Row) → All (λ r. r.ident < n) rows → All (λ r. r.ident < suc n) rows
below_next n rows h = All_imp (λ r. r.ident < n) _ (λ r g. omega (arith, g)) rows h

-- A row with the next id that is live for a job only if no other is.
pub add_row-IsAlone :
    (row : ℕ → Row) (m : Manager)
    → (row m.next_id).ident ≡ m.next_id
    → ((job : ℕ) → is_live_of_job job (row m.next_id) ≡ true → live_runs job m.rows ≡ 0)
    → IsAlone m
    → IsAlone (add_row row m)
unfolding add_row
add_row-IsAlone row m e f h = record {
  below =
      All-append (λ (r : Row). r.ident < suc m.next_id) m.rows (row m.next_id ∷ [])
        (below_next m.next_id m.rows h.below) (omega (arith, e), tt);
  distinct = subst Unique (sym (map-append (λ (r : Row). r.ident) m.rows (row m.next_id ∷ []))) (
      subst (λ i. Unique (map (λ r. r.ident) m.rows ++ i ∷ [])) (sym e)
        (append-Unique m.next_id (map (λ r. r.ident) m.rows) (fresh m.next_id m.rows h.below)
          h.distinct));
  alone = λ job.
      subst (λ (rows : List Row). length rows ≤ 1)
        (sym (keep-append (is_live_of_job job) m.rows (row m.next_id ∷ [])))
        (ground (
          arith,
          h.alone job,
          f job,
          length-append (keep (is_live_of_job job) m.rows) (row m.next_id ∷ []),
          length-append (keep (is_live_of_job job) m.rows) [],
        ));
}

-- What neither the rows nor the next id reads may change.
pub same_rows : (m n : Manager) → n.rows ≡ m.rows → n.next_id ≡ m.next_id → IsAlone m → IsAlone n
same_rows m n e f h = record {
  below =
      subst (λ rows. All (λ r. r.ident < n.next_id) rows) (sym e)
        (subst (λ i. All (λ r. r.ident < i) m.rows) (sym f) h.below);
  distinct = subst (λ (rows : List Row). Unique (map (λ r. r.ident) rows)) (sym e) h.distinct;
  alone = λ job. subst (λ rows. live_runs job rows ≤ 1) (sym e) (h.alone job);
}

map_same :
    (f : Row → Row)
    → ((r : Row) → (f r).ident ≡ r.ident)
    → (rows : List Row) → map (λ r. r.ident) (map f rows) ≡ map (λ r. r.ident) rows
map_same f e [] = refl
map_same f e (r ∷ rows) = ground (arith, e r, map_same f e rows)

-- A change of the rows that keeps their ids and makes none live.
pub map-IsAlone :
    (f : Row → Row) (m : Manager)
    → ((r : Row) → (f r).ident ≡ r.ident)
    → ((job : ℕ) (r : Row) → is_live_of_job job (f r) ≡ true → is_live_of_job job r ≡ true)
    → IsAlone m
    → IsAlone (record m { rows = map f m.rows })
map-IsAlone f m e g h = record {
  below =
      All-map (λ (r : Row). r.ident < m.next_id) f m.rows
        (All_imp (λ r. r.ident < m.next_id) _ (λ r k. omega (arith, k, e r)) m.rows h.below);
  distinct = subst Unique (sym (map_same f e m.rows)) h.distinct;
  alone = λ job. omega (
    arith,
    h.alone job,
    length-keep-map (is_live_of_job job) f m.rows,
    length-keep-fewer (λ r. is_live_of_job job (f r)) (is_live_of_job job) m.rows
        (All_always _ (g job) m.rows),
  );
}
