-- ===== src/Schedules/Lines.antt =====
-- app/schedules.py: cutting a schedule at its separators, and what stripping leaves.
use borg_backup_manager.Prelude.{
  is_empty, if◌then◌else◌, ◌∙◌, ap, arith, ◌≡◌, ℕ, Bool, true, false, not, ◌&&◌, List, [], ◌∷◌,
  ◌++◌, ◌==◌, refl, All,
}
use mathlib.Core.List.{reverse, reverse-cons}
use borg_backup_manager.Text.{Text, strip, lstrip, rstrip, any_of}
use borg_backup_manager.Schedules.Expressions.{replace, first_with, split, join}
use borg_backup_manager.Schedules.Words.{any-append, IsLine, is_in_line}

-- What the two replacements leave: neither a carriage return nor a semicolon.
abbrev pub IsReplaced : Text → Type 0
IsReplaced s = All (λ c. not (c == 13) && not (c == 59) ≡ true) s

abbrev pub replaced : Text → Text
replaced value = replace 59 10 (replace 13 10 value)

pub replaced-IsReplaced : (s : Text) → IsReplaced (replaced s)
unfolding replace
replaced-IsReplaced [] = tt
replaced-IsReplaced (c ∷ s) = (ground arith, replaced-IsReplaced s)

first_with-IsLine :
    (c : ℕ) (ws : List Text) → is_in_line c ≡ true → All IsLine ws → All IsLine (first_with c ws)
first_with-IsLine c [] h a = ((h, tt), tt)
first_with-IsLine c (w ∷ ws) h a = ((h, a.0), a.1)

pub split-IsLine : (s : Text) → IsReplaced s → All IsLine (split 10 s)
unfolding split
split-IsLine [] a = (tt, tt)
split-IsLine (c ∷ s) a = ground (arith, a.0, split-IsLine s a.1, first_with-IsLine c (split 10 s))

replaced_line : (s : Text) → IsLine s → replaced s ≡ s
unfolding replace
replaced_line [] a = refl
replaced_line (c ∷ s) a = ground (arith, a.0, replaced_line s a.1)

replaced-append : (s t : Text) → replaced (s ++ t) ≡ replaced s ++ replaced t
unfolding replace
replaced-append [] t = refl
replaced-append (c ∷ s) t =
    ap (λ u. (if (if c == 13 then 10 else c) == 59 then 10 else (if c == 13 then 10 else c)) ∷ u)
      (replaced-append s t)

split_line : (s : Text) → IsLine s → split 10 s ≡ s ∷ []
unfolding split
split_line [] a = refl
split_line (c ∷ s) a = ground (arith, a.0, split_line s a.1)

split-append : (s t : Text) → IsLine s → split 10 (s ++ 10 ∷ t) ≡ s ∷ split 10 t
unfolding split
split-append [] t a = refl
split-append (c ∷ s) t a = ground (arith, a.0, split-append s t a.1)

-- The joined lines are cut where they were joined.
pub raw_items-join :
    (e : Text) (es : List Text)
    → All IsLine (e ∷ es)
    → split 10 (replaced (join 59 (e ∷ es))) ≡ e ∷ es
unfolding join replace
raw_items-join e [] a = ap (split 10) (replaced_line e a.0) ∙ split_line e a.0
raw_items-join e (f ∷ es) a =
    ap (split 10) (replaced-append e (59 ∷ join 59 (f ∷ es)))
    ∙ ap (λ u. split 10 (u ++ 10 ∷ replaced (join 59 (f ∷ es)))) (replaced_line e a.0)
    ∙ split-append e (replaced (join 59 (f ∷ es))) a.0
    ∙ ap (λ us. e ∷ us) (raw_items-join f es a.1)

any-reverse : (p : ℕ → Bool) (s : Text) → any_of p (reverse s) ≡ any_of p s
unfolding any_of
any-reverse p [] = refl
any-reverse p (c ∷ s) =
    ap (any_of p) (reverse-cons c s)
    ∙ any-append p (reverse s) (c ∷ [])
    ∙ ground (arith, any-reverse p s)

any-lstrip :
    (drops : ℕ → Bool) (s : Text)
    → any_of (λ c. not (drops c)) s ≡ true
    → any_of (λ c. not (drops c)) (lstrip drops s) ≡ true
unfolding any_of lstrip
any-lstrip drops [] h = h
any-lstrip drops (c ∷ s) h = ground (arith, h, any-lstrip drops s)

pub any_full : (p : ℕ → Bool) (s : Text) → any_of p s ≡ true → is_empty s ≡ false
unfolding any_of
any_full p [] h = cc
any_full p (c ∷ s) h = refl

-- A text with a character that is not dropped is not stripped to nothing.
pub strip_full :
    (drops : ℕ → Bool) (s : Text)
    → any_of (λ c. not (drops c)) s ≡ true
    → is_empty (strip drops s) ≡ false
unfolding strip rstrip
strip_full drops s h =
    let kept : ℕ → Bool = λ c. not (drops c) in
    let left = any-lstrip drops s h in
    let right =
      any-lstrip drops (reverse (lstrip drops s)) (any-reverse kept (lstrip drops s) ∙ left) in
    any_full kept (strip drops s)
      (any-reverse kept (lstrip drops (reverse (lstrip drops s))) ∙ right)
