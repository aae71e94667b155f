-- ===== src/ItemActivity/Lines.antt =====
-- app/borg_progress.py: the lines of a text that is read in pieces.
use borg_backup_manager.Prelude.{
  sym, ◌∙◌, ◌≡◌, ℕ, true, false, List, [], ◌∷◌, ◌++◌, ◌==◌, append_assoc, ap, refl, inl, inr,
  Bool-cases,
}
use borg_backup_manager.ItemActivity.{with_first, Bytes, split_lines, join_lines}

-- A text that is cut after a rest: what `split_lines` makes of it.
abbrev continued : List Bytes × Bytes → Bytes → List Bytes × Bytes
continued p t = (p.0 ++ (split_lines (p.1 ++ t)).0, (split_lines (p.1 ++ t)).1)

newline_append :
    (c : ℕ) (s t : Bytes)
    → (c == 10) ≡ true
    → split_lines (s ++ t) ≡ continued (split_lines s) t
    → split_lines (c ∷ (s ++ t)) ≡ continued (split_lines (c ∷ s)) t
unfolding split_lines
newline_append c s t h e = rw h (ap (λ p. ([] ∷ p.0, p.1)) e)

letter_append :
    (c : ℕ) (s t : Bytes)
    → (c == 10) ≡ false
    → (p : List Bytes × Bytes) → split_lines (s ++ t) ≡ continued p t
    → with_first c (split_lines (s ++ t)) ≡ continued (with_first c p) t
unfolding split_lines
letter_append c s t h ([], r) e = rw h (ap (with_first c) e)
letter_append c s t h (l ∷ ls, r) e = ap (with_first c) e

-- The lines of a text and more: those of the text, and those of its rest and more.
pub split_lines-append :
    (s t : Bytes)
    → split_lines (s ++ t) ≡ (
      (split_lines s).0 ++ (split_lines ((split_lines s).1 ++ t)).0,
      (split_lines ((split_lines s).1 ++ t)).1,
    )
unfolding split_lines
split_lines-append [] t = refl
split_lines-append (c ∷ s) t = elim (Bool-cases (c == 10)) [
  | inl h ↦ newline_append c s t h (split_lines-append s t)
  | inr h ↦ rw h (letter_append c s t h (split_lines s) (split_lines-append s t))
]

pub join_lines-append :
    (ks ls : List Bytes) → join_lines (ks ++ ls) ≡ join_lines ks ++ join_lines ls
unfolding join_lines
join_lines-append [] ls = refl
join_lines-append (k ∷ ks) ls =
    ap (λ t. k ++ 10 ∷ t) (join_lines-append ks ls)
    ∙ sym (append_assoc k (10 ∷ join_lines ks) (join_lines ls))

with_first_rest :
    (c : ℕ) (p : List Bytes × Bytes)
    → (c == 10) ≡ false
    → split_lines p.1 ≡ ([], p.1)
    → split_lines (with_first c p).1 ≡ ([], (with_first c p).1)
unfolding split_lines
with_first_rest c ([], r) h e = rw h (ap (with_first c) e)
with_first_rest c (l ∷ ls, r) h e = e

-- What is left behind the last line has no line.
pub split_lines_rest : (s : Bytes) → split_lines (split_lines s).1 ≡ ([], (split_lines s).1)
unfolding split_lines
split_lines_rest [] = refl
split_lines_rest (c ∷ s) = elim (Bool-cases (c == 10)) [
  | inl h ↦ rw h (split_lines_rest s)
  | inr h ↦ rw h (with_first_rest c (split_lines s) h (split_lines_rest s))
]
