-- ===== src/Schedules/Words.antt =====
-- app/schedules.py: cutting text into words and lines, and joining them again.
use borg_backup_manager.Prelude.{
  is_empty, append_nil, append_assoc, ◌||◌, ◌∙◌, if◌then◌else◌, sym, ap, subst, arith, All-append,
  ◌≡◌, ℕ, Bool, Bool-cases, true, false, not, ◌&&◌, List, [], ◌∷◌, ◌++◌, ◌==◌, refl, All,
  All-append, inl, inr,
}
use borg_backup_manager.Text.{any_of, Text, is_space}
use borg_backup_manager.Schedules.Expressions.{with_word, words_from, join, compact}

abbrev pub IsWord : Text → Type 0
IsWord w = (is_empty w ≡ false) × All (λ c. is_space c ≡ false) w

abbrev pub is_in_line : ℕ → Bool
is_in_line c = not (c == 10) && (not (c == 13) && not (c == 59))

abbrev pub IsLine : Text → Type 0
IsLine s = All (λ c. is_in_line c ≡ true) s

with_word-All :
    (P : Text → Type 0) (w : Text) (ws : List Text)
    → (is_empty w ≡ false → P w)
    → All P ws
    → All P (with_word w ws)
with_word-All P [] ws p a = a
with_word-All P (c ∷ w) ws p a = (p refl, a)

words_from-IsWord : (w s : Text) → All (λ c. is_space c ≡ false) w → All IsWord (words_from w s)
unfolding words_from
words_from-IsWord w [] a = with_word-All IsWord w [] (λ n. (n, a)) tt
words_from-IsWord w (c ∷ s) a =
    elim (Bool-cases (is_space c)) as (λ o. All IsWord (words_from w (c ∷ s))) [
      | inl h ↦
          subst
            (λ b.
              All IsWord (if b then with_word w (words_from [] s) else words_from (w ++ c ∷ []) s))
            (sym h)
            (with_word-All IsWord w (words_from [] s) (λ n. (n, a)) (words_from-IsWord [] s tt))
      | inr h ↦
          subst
            (λ b.
              All IsWord (if b then with_word w (words_from [] s) else words_from (w ++ c ∷ []) s))
            (sym h) (words_from-IsWord (w ++ c ∷ []) s (All-append _ w (c ∷ []) a (h, tt)))
    ]

words_from-IsLine : (w s : Text) → IsLine w → IsLine s → All IsLine (words_from w s)
unfolding words_from
words_from-IsLine w [] a b = with_word-All IsLine w [] (λ n. a) tt
words_from-IsLine w (c ∷ s) a b = ground (
  arith,
  with_word-All IsLine w (words_from [] s) (λ n. a) (words_from-IsLine [] s tt b.1),
  words_from-IsLine (w ++ c ∷ []) s (All-append _ w (c ∷ []) a (b.0, tt)) b.1,
)

-- A word is read to its end.
words_from-append :
    (w v s : Text) → All (λ c. is_space c ≡ false) v → words_from w (v ++ s) ≡ words_from (w ++ v) s
unfolding words_from
words_from-append w [] s a = ap (λ u. words_from u s) (sym (append_nil w))
words_from-append w (c ∷ v) s a =
    let longer = words_from-append (w ++ c ∷ []) v s a.1 in
    let assoc = ap (λ u. words_from u s) (append_assoc w (c ∷ []) v) in
    ground (arith, a.0, longer, assoc)

with_word_full : (w : Text) (ws : List Text) → is_empty w ≡ false → with_word w ws ≡ w ∷ ws
with_word_full [] ws h = cc
with_word_full (c ∷ w) ws h = refl

words_from-join : (ws : List Text) → All IsWord ws → words_from [] (join 32 ws) ≡ ws
unfolding words_from join is_space
words_from-join [] a = refl
words_from-join (w ∷ []) a =
    ap (words_from []) (sym (append_nil w))
    ∙ words_from-append [] w [] a.0.1
    ∙ with_word_full w [] a.0.0
words_from-join (w ∷ v ∷ ws) a =
    words_from-append [] w (32 ∷ join 32 (v ∷ ws)) a.0.1
    ∙ with_word_full w (words_from [] (join 32 (v ∷ ws))) a.0.0
    ∙ ap (λ us. w ∷ us) (words_from-join (v ∷ ws) a.1)

pub compact-compact : (raw : Text) → compact (compact raw) ≡ compact raw
unfolding compact
compact-compact raw =
    ap (join 32) (words_from-join (words_from [] raw) (words_from-IsWord [] raw tt))

join-IsLine : (ws : List Text) → All IsLine ws → IsLine (join 32 ws)
unfolding join
join-IsLine [] a = tt
join-IsLine (w ∷ []) a = a.0
join-IsLine (w ∷ v ∷ ws) a =
    All-append _ w (32 ∷ join 32 (v ∷ ws)) a.0 (refl, join-IsLine (v ∷ ws) a.1)

pub compact-IsLine : (raw : Text) → IsLine raw → IsLine (compact raw)
unfolding compact
compact-IsLine raw a = join-IsLine (words_from [] raw) (words_from-IsLine [] raw tt a)

pub any-append : (p : ℕ → Bool) (s t : Text) → any_of p (s ++ t) ≡ any_of p s || any_of p t
unfolding any_of
any-append p [] t = refl
any-append p (c ∷ s) t = ground (arith, any-append p s t)

word_solid : (w : Text) → IsWord w → any_of (λ c. not (is_space c)) w ≡ true
unfolding any_of
word_solid [] a = cc
word_solid (c ∷ w) a = ground (arith, a.1.0)

join_solid :
    (ws : List Text)
    → All IsWord ws
    → is_empty (join 32 ws) ≡ false
    → any_of (λ c. not (is_space c)) (join 32 ws) ≡ true
unfolding join
join_solid [] a h = cc
join_solid (w ∷ []) a h = word_solid w a.0
join_solid (w ∷ v ∷ ws) a h =
    ground (arith, word_solid w a.0, any-append (λ c. not (is_space c)) w (32 ∷ join 32 (v ∷ ws)))

pub compact_solid :
    (raw : Text)
    → is_empty (compact raw) ≡ false
    → any_of (λ c. not (is_space c)) (compact raw) ≡ true
unfolding compact
compact_solid raw h = join_solid (words_from [] raw) (words_from-IsWord [] raw tt) h
