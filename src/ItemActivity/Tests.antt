-- ===== src/ItemActivity/Tests.antt =====
-- Runs and witnesses of the item filter of app/borg_progress.py.
use borg_backup_manager.Prelude.{refl, true, false, some, none, List, [], ◌∷◌, ◌++◌, ◌≡◌}
use borg_backup_manager.Text.{codes}
use borg_backup_manager.ItemActivity.{
  Bytes, item_activity, is_added_modified, new_filter, added, changed,
}
use borg_backup_manager.ItemActivity.Cuts.{feed_all, cuts_do_not_matter}

abbrev same : Bytes → Bytes
same bytes = bytes

added_run : item_activity (codes "A /home/a b") ≡ some (added, codes "/home/a b")
unfolding item_activity
added_run = refl

remote_run : item_activity (codes " Remote: C  /x" ++ 13 ∷ []) ≡ some (changed, codes "/x")
unfolding item_activity
remote_run = refl

other_run : item_activity (codes "Archive name: A") ≡ none
unfolding item_activity
other_run = refl

inner_run : is_added_modified (codes "M /a" ++ 13 ∷ codes "b") ≡ false
unfolding is_added_modified
inner_run = refl

abbrev chunks : List Bytes
chunks = codes "A /a" ∷ (10 ∷ codes "C /b") ∷ (10 ∷ codes "M") ∷ codes " /c" ∷ []

abbrev others : List Bytes
others = [] ∷ (codes "A /a" ++ 10 ∷ codes "C /b" ++ 10 ∷ codes "M /c") ∷ []

cuts_do_not_matter_example :
    feed_all same chunks (new_filter true) ≡ feed_all same others (new_filter true)
cuts_do_not_matter_example = cuts_do_not_matter same true chunks others refl

passed_run : (feed_all same chunks (new_filter true)).1 ≡ codes "C /b" ++ 10 ∷ []
unfolding feed_all new_filter
passed_run = refl
