-- ===== src/Schedules/Expressions.antt =====
-- app/schedules.py, `schedule_expressions` and `normalize_schedule`. Whether APScheduler's
-- `CronTrigger.from_crontab` accepts an expression is the parameter `is_crontab`.
use borg_backup_manager.Prelude.{
  is_empty, ℕ, Bool, true, false, ◌||◌, Option, none, some, List, [], ◌∷◌, ◌++◌, leb, ◌==◌,
  if◌then◌else◌, length, map,
}
use borg_backup_manager.Text.{Text, text_eq, is_space, strip}

abbrev pub max_schedule_expressions : ℕ
max_schedule_expressions = 24

-- `value.replace(a, b)` of two characters.
unfoldable pub replace : ℕ → ℕ → Text → Text
replace a b s = map (λ c. if c == a then b else c) s

abbrev pub first_with : ℕ → List Text → List Text
first_with c [] = (c ∷ []) ∷ []
first_with c (w ∷ ws) = (c ∷ w) ∷ ws

-- `value.split(separator)` by one character.
unfoldable pub split : ℕ → Text → List Text
split separator [] = [] ∷ []
split separator (c ∷ s) =
    let rest = split separator s in if c == separator then [] ∷ rest else first_with c rest

abbrev pub with_word : Text → List Text → List Text
with_word [] ws = ws
with_word (c ∷ w) ws = (c ∷ w) ∷ ws

-- `value.split()`: `w` is the part of the current word that is read.
unfoldable pub words_from : Text → Text → List Text
words_from w [] = with_word w []
words_from w (c ∷ s) =
    let longer = words_from (w ++ c ∷ []) s in
    let rest = words_from [] s in if is_space c then with_word w rest else longer

-- `separator.join(words)` by one character.
unfoldable pub join : ℕ → List Text → Text
join separator [] = []
join separator (w ∷ []) = w
join separator (w ∷ v ∷ ws) = w ++ separator ∷ join separator (v ∷ ws)

unfoldable pub is_listed : Text → List Text → Bool
unfolding text_eq
is_listed t [] = false
is_listed t (u ∷ us) = let rest = is_listed t us in if text_eq u t then true else rest

-- `" ".join(raw.split())`
unfoldable pub compact : Text → Text
unfolding words_from join is_space
compact raw = join 32 (words_from [] raw)

abbrev pub at_most : Option (List Text) → Option (List Text)
at_most none = none
at_most (some es) = if leb (length es) max_schedule_expressions then some es else none

-- The text after the two replacements and the cut at the ends of lines.
abbrev pub raw_items : Text → List Text
raw_items value = split 10 (replace 59 10 (replace 13 10 value))

abbrev pub joined : Option (List Text) → Option (Option Text)
joined none = none
joined (some []) = some none
joined (some (e ∷ es)) = some (some (join 59 (e ∷ es)))

module _ (is_crontab : Text → Bool) where
  -- The loop; `none` is a ValueError.
  unfoldable pub collect : List Text → List Text → Option (List Text)
  unfolding compact is_listed
  collect expressions [] = some expressions
  collect expressions (raw ∷ raws) =
      let passed = collect expressions raws in
      let added = collect (expressions ++ compact raw ∷ []) raws in
      if is_empty (compact raw) || is_listed (compact raw) expressions
      then passed
      else if is_crontab (compact raw)
      then added
      else none

  unfoldable pub schedule_expressions : Option Text → Option (List Text)
  unfolding collect strip replace split
  schedule_expressions none = some []
  schedule_expressions (some value) =
      if is_empty (strip is_space value) then some [] else at_most (collect [] (raw_items value))

  unfoldable pub normalize_schedule : Option Text → Option (Option Text)
  unfolding schedule_expressions join
  normalize_schedule value = joined (schedule_expressions value)
