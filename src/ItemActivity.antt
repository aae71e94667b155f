-- ===== src/ItemActivity.antt =====
-- app/borg_progress.py, `BorgItemActivityStreamFilter`: the filter that counts the items that Borg
-- lists as added, modified, changed or failed in the chunks of its output. The two regular
-- expressions are functions of one line. `decode` is `bytes.decode("utf-8", errors="replace")`.
pub mod Lines
pub mod Cuts
mod Tests
use borg_backup_manager.Prelude.{
  is_empty, is_empty_lem, ℕ, ◌+◌, suc, Bool, true, false, not, ◌&&◌, ◌||◌, Option, none, some, List,
  [], ◌∷◌, ◌++◌, leb, ◌==◌, if◌then◌else◌, keep,
}
use borg_backup_manager.Text.{Text, codes, is_space, strip}

abbrev pub Bytes : Type 0
Bytes = List ℕ

-- `[ \t]`
abbrev is_blank : ℕ → Bool
is_blank c = c == 32 || c == 9

unfoldable pub skip_blanks : Bytes → Bytes
skip_blanks [] = []
skip_blanks (c ∷ s) = let rest = skip_blanks s in if is_blank c then rest else c ∷ s

-- A letter in either case; the letters are ASCII.
abbrev lower : ℕ → ℕ
lower c = if leb 65 c && leb c 90 then c + 32 else c

-- What follows a prefix, up to the case of letters.
unfoldable pub after_prefix : Bytes → Bytes → Option Bytes
after_prefix [] s = some s
after_prefix (p ∷ ps) [] = none
after_prefix (p ∷ ps) (c ∷ s) = let rest = after_prefix ps s in if lower c == p then rest else none

abbrev pub remote_prefix : Bytes
remote_prefix = codes "remote:"

abbrev unprefixed : Bytes → Option Bytes → Bytes
unprefixed s none = s
unprefixed s (some rest) = skip_blanks rest

-- `^[ \t]*(?:remote:[ \t]*)?`
unfoldable pub item_start : Bytes → Bytes
unfolding skip_blanks after_prefix
item_start line = unprefixed (skip_blanks line) (after_prefix remote_prefix (skip_blanks line))

-- `[^\r\n]+` and what is left behind it, in a line without `\n`.
unfoldable pub body_of : Bytes → Bytes × Bytes
body_of [] = ([], [])
body_of (c ∷ s) = let rest = body_of s in if c == 13 then ([], c ∷ s) else (c ∷ rest.0, rest.1)

-- `\r?$`
abbrev is_end : Bytes → Bool
is_end [] = true
is_end (c ∷ []) = c == 13
is_end _ = false

pub data Status : Type 0 where
  added modified changed error : Status

abbrev status_of : ℕ → Option Status
status_of c =
    if c == 65
    then some added
    else if c == 77
    then some modified
    else if c == 67
    then some changed
    else if c == 69
    then some error
    else none

-- The last of the blanks that a text begins with.
unfoldable pub last_blank : Bytes → Option Bytes
last_blank [] = none
last_blank (c ∷ s) = elim (last_blank s) [
  | some b ↦ if is_blank c then some b else none
  | none ↦ if is_blank c then some (c ∷ []) else none
]

-- After the letter, its first blank `b` and all blanks: the path. If nothing else is left, the
-- last blank is given back to the path, as long as one blank stays before it.
unfoldable pub item_path : Bytes → Option Bytes
unfolding skip_blanks body_of last_blank
item_path [] = none
item_path (b ∷ s) =
    let found = body_of (skip_blanks s) in
    if not (is_blank b) || not (is_end found.1)
    then none
    else if not (is_empty found.0)
    then some found.0
    else last_blank s

abbrev with_path : Option Status → Option Bytes → Option (Status × Bytes)
with_path none path = none
with_path (some s) none = none
with_path (some s) (some path) = some (s, path)

abbrev item_of : Bytes → Option (Status × Bytes)
item_of [] = none
item_of (c ∷ s) = with_path (status_of c) (item_path s)

-- `_ITEM_ACTIVITY_RE` on one line.
unfoldable pub item_activity : Bytes → Option (Status × Bytes)
unfolding item_start item_path
item_activity line = item_of (item_start line)

-- What follows `[AM]`: a blank, and a body up to the end that `ends` accepts.
abbrev ends_item : (Bytes → Bool) → Bytes → Bool
ends_item ends [] = false
ends_item ends (b ∷ s) = is_blank b && ends (body_of s).1

abbrev is_item : (Bytes → Bool) → Bytes → Bool
is_item ends [] = false
is_item ends (c ∷ s) = (c == 65 || c == 77) && ends_item ends s

-- `_ADDED_MODIFIED_LINE_RE` on a line that `\n` ends, and on the last one without it.
unfoldable pub is_added_modified : Bytes → Bool
unfolding item_start body_of
is_added_modified line = is_item is_end (item_start line)

unfoldable pub is_added_modified_end : Bytes → Bool
unfolding item_start body_of
is_added_modified_end line = is_item is_empty (item_start line)

pub record Filter : Type 0 where
  pub strip_added_modified : Bool
  pub carry : Bytes
  pub added_count : ℕ
  pub modified_count : ℕ
  pub changed_count : ℕ
  pub error_count : ℕ
  pub last : Option (Status × Text)

unfoldable pub new_filter : Bool → Filter
new_filter strip_added_modified = record {
  strip_added_modified = strip_added_modified;
  carry = [];
  added_count = 0;
  modified_count = 0;
  changed_count = 0;
  error_count = 0;
  last = none;
}

abbrev pub with_first : ℕ → List Bytes × Bytes → List Bytes × Bytes
with_first c ([], r) = ([], c ∷ r)
with_first c (l ∷ ls, r) = ((c ∷ l) ∷ ls, r)

-- The lines that end, each without its `\n`, and the rest behind the last of them.
unfoldable pub split_lines : Bytes → List Bytes × Bytes
split_lines [] = ([], [])
split_lines (c ∷ s) =
    let rest = split_lines s in if c == 10 then ([] ∷ rest.0, rest.1) else with_first c rest

unfoldable pub join_lines : List Bytes → Bytes
join_lines [] = []
join_lines (l ∷ ls) = l ++ 10 ∷ join_lines ls

module _ (decode : Bytes → Text) where
  abbrev pub count_status : Status → Filter → Filter
  count_status added f = record f { added_count = f.added_count + 1 }
  count_status modified f = record f { modified_count = f.modified_count + 1 }
  count_status changed f = record f { changed_count = f.changed_count + 1 }
  count_status error f = record f { error_count = f.error_count + 1 }

  -- One match; the path of the newest one is kept.
  abbrev pub count_item : Option (Status × Bytes) → Filter → Filter
  count_item none f = f
  count_item (some (s, path)) f = record (count_status s f) {
    last = some (s, strip is_space (decode path));
  }

  unfoldable pub consume_complete : List Bytes → Filter → Filter
  unfolding item_activity strip is_space
  consume_complete [] f = f
  consume_complete (l ∷ ls) f = consume_complete ls (count_item (item_activity l) f)

  -- The new state and what is passed on.
  unfoldable pub feed : Bytes → Filter → Filter × Bytes
  unfolding consume_complete split_lines join_lines is_added_modified
  feed [] f = (f, [])
  feed (c ∷ s) f =
      let cut = split_lines (f.carry ++ c ∷ s) in
      let kept = keep (λ l. not (is_added_modified l)) cut.0 in
      (
        consume_complete cut.0 (record f { carry = cut.1 }),
        if f.strip_added_modified then join_lines kept else c ∷ s,
      )

  unfoldable pub finalize : Filter → Filter × Bytes
  unfolding consume_complete is_added_modified_end
  finalize f =
      let counted = consume_complete (f.carry ∷ []) (record f { carry = [] }) in
      if is_empty f.carry
      then (f, [])
      else if f.strip_added_modified && not (is_added_modified_end f.carry)
      then (counted, f.carry)
      else (counted, [])
