-- ===== src/Paths.antt =====
-- Resolved absolute paths, as the list of their components below `/`, and the choice of the mount
-- that contains a path (app/storage_guard.py, `_matching_mount`).
use borg_backup_manager.Prelude.{
  Bool, true, false, Option, none, some, List, [], ◌∷◌, ◌++◌, ltb, if◌then◌else◌, length, keep,
}
use borg_backup_manager.Text.{Text, text_eq, codes}

abbrev pub FilePath : Type 0
FilePath = List Text

-- `str(path)`
unfoldable pub str_path : FilePath → Text
str_path [] = codes "/"
str_path (part ∷ []) = b'/' ∷ part
str_path (part ∷ parts) = (b'/' ∷ part) ++ str_path parts

-- `path == mount or mount in path.parents`
unfoldable pub is_below : FilePath → FilePath → Bool
is_below [] path = true
is_below (a ∷ mount) [] = false
is_below (a ∷ mount) (b ∷ path) =
    let rest = is_below mount path in if text_eq a b then rest else false

-- `max(candidates, key=lambda item: len(item.parts), default=None)`: the first of the longest.
unfoldable pub longest : List FilePath → Option FilePath
longest [] = none
longest (path ∷ paths) =
    let best = longest paths in
    elim best [
      | none ↦ some path
      | some other ↦ if ltb (length path) (length other) then some other else some path
    ]

unfoldable pub matching_mount : FilePath → List FilePath → Option FilePath
unfolding longest
matching_mount path mounts = longest (keep (λ mount. is_below mount path) mounts)
