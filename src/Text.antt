-- ===== src/Text.antt =====
-- Python's `str` as the list of its code points, with the methods that the program calls on it.
use Prim.Native.Char.{code}
use Prim.Native.String.{String}
use mathlib.Core.List.{reverse}
use borg_backup_manager.Prelude.{
  length, ◌-◌, ◌≤◌, ltb, zero, suc, arith, ℕ, Bool, true, false, ◌||◌, ◌&&◌, Option, none, some,
  List, [], ◌∷◌, leb, ◌==◌, if◌then◌else◌, ℕ_discrete, ◌≡◌, refl,
}

abbrev pub Text : Type 0
Text = List ℕ

-- The code points of a literal.
abbrev pub codes : String → Text
codes String.[] = []
codes (String.◌∷◌ c s) = code c ∷ codes s

unfoldable pub Text-discrete : Discrete Text
unfolding ℕ_discrete
Text-discrete = hlevel ℕ_discrete

unfoldable pub text_eq : Text → Text → Bool
text_eq [] [] = true
text_eq (a ∷ s) (b ∷ t) = let rest = text_eq s t in if a == b then rest else false
text_eq _ _ = false

pub text_eq_refl : (s : Text) → text_eq s s ≡ true
unfolding text_eq
text_eq_refl [] = refl
text_eq_refl (a ∷ s) = ground (arith, text_eq_refl s)

pub eq_of_text_eq : (s t : Text) → text_eq s t ≡ true → s ≡ t
unfolding text_eq
eq_of_text_eq [] [] h = refl
eq_of_text_eq [] (b ∷ t) h = cc
eq_of_text_eq (a ∷ s) [] h = cc
eq_of_text_eq (a ∷ s) (b ∷ t) h = ground (arith, eq_of_text_eq s t)

-- `str.isspace` of one character: the code points that `strip` and `split` drop.
unfoldable pub is_space : ℕ → Bool
is_space c =
    (leb 9 c && leb c 13)
    || ((leb 28 c && leb c 32)
        || (c == 0x85
            || (c == 0xa0
                || (c == 0x1680
                    || ((leb 0x2000 c && leb c 0x200a)
                        || (c == 0x2028
                            || (c == 0x2029 || (c == 0x202f || (c == 0x205f || c == 0x3000)))))))))

-- `value.lstrip(chars)`, `value.rstrip(chars)` and `value.strip(chars)` for a set of characters.
unfoldable pub lstrip : (ℕ → Bool) → Text → Text
lstrip drops [] = []
lstrip drops (c ∷ s) = let rest = lstrip drops s in if drops c then rest else c ∷ s

unfoldable pub rstrip : (ℕ → Bool) → Text → Text
unfolding lstrip
rstrip drops s = reverse (lstrip drops (reverse s))

unfoldable pub strip : (ℕ → Bool) → Text → Text
unfolding lstrip rstrip
strip drops s = rstrip drops (lstrip drops s)

-- `any(c in value for c in chars)`
unfoldable pub any_of : (ℕ → Bool) → Text → Bool
any_of p [] = false
any_of p (c ∷ s) = let rest = any_of p s in if p c then true else rest

-- `value or None`: the empty text counts as absent.
abbrev pub non_empty : Option Text → Option Text
non_empty none = none
non_empty (some []) = none
non_empty (some (c ∷ s)) = some (c ∷ s)

strip_blanks : strip is_space (codes " ab ") ≡ codes "ab"
unfolding strip is_space
strip_blanks = refl

-- `value[:n]`
unfoldable pub take : ℕ → Text → Text
take zero s = []
take (suc n) [] = []
take (suc n) (c ∷ s) = c ∷ take n s

-- The order of texts in `sorted` and `ORDER BY`: that of the code points.
unfoldable pub text_leb : Text → Text → Bool
text_leb [] t = true
text_leb (a ∷ s) [] = false
text_leb (a ∷ s) (b ∷ t) = let rest = text_leb s t in if a == b then rest else ltb a b

-- `xs[n:]`
unfoldable pub drop {ℓ} : {A : Type ℓ} → ℕ → List A → List A
drop zero xs = xs
drop (suc n) [] = []
drop (suc n) (x ∷ xs) = drop n xs

pub length-drop {ℓ} : {A : Type ℓ} (n : ℕ) (xs : List A) → length (drop n xs) ≡ length xs - n
unfolding drop
length-drop zero xs = omega arith
length-drop (suc n) [] = omega arith
length-drop (suc n) (x ∷ xs) = omega (arith, length-drop n xs)

pub length-take_le : (n : ℕ) (s : Text) → length (take n s) ≤ n
unfolding take
length-take_le zero s = omega arith
length-take_le (suc n) [] = omega arith
length-take_le (suc n) (c ∷ s) = omega (arith, length-take_le n s)
