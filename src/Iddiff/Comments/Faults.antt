-- ===== src/Iddiff/Comments/Faults.antt =====
-- Where the last parts of gettextpo-helper/gtpo/iddiff.cpp do not do what they mean to.
use stupid_ids.Base.{
  ℕ, ◌≡◌, Bool, true, false, List, [], ◌∷◌, none, some, ok, err, null_pointer, refl, arith,
}
use stupid_ids.Text.{Text, text_eq}
use stupid_ids.Message.{Message}
use stupid_ids.Iddiff.Change.{IddiffChange}
use stupid_ids.Iddiff.Map.{find}
use stupid_ids.Iddiff.{Items, find_added, find_added_single, single}
use stupid_ids.Iddiff.Ids.{involved_ids_single}
use stupid_ids.Iddiff.Comments.{
  range_difference, set_difference, set_of_lines, add_comments, comments_between, warn_not_found,
  apply_to_groups, apply_ids, apply_iddiff,
}

set_difference_keeps : (a b : List Text) → set_difference a b ≡ a
unfolding set_difference range_difference
set_difference_keeps [] b = refl
set_difference_keeps (s ∷ ss) b = refl

-- Where the comments of a message differ, `diffTrCommentsFiles` takes every line of the new comments
-- for a new one, also the lines that the old comments have.
pub comments_between_all :
    (fresh : ℕ) (m : Items) (msg_id : ℕ) (a b : Text)
    → text_eq a b ≡ false
    → comments_between fresh m msg_id a b ≡ add_comments fresh m msg_id (set_of_lines b)
unfolding comments_between
comments_between_all fresh m msg_id a b h =
    rw (h, set_difference_keeps (set_of_lines b) (set_of_lines a)) refl

none_added :
    (k : ℕ) (c : IddiffChange)
    → c.added_items ≡ []
    → find_added_single ((k, some c) ∷ []) k ≡ ok none
unfolding find_added_single find_added single find
none_added k c e = ground (arith, e)

not_found :
    (k : ℕ) (c : IddiffChange)
    → c.added_items ≡ []
    → warn_not_found ((k, some c) ∷ []) k [] ≡ err null_pointer
unfolding warn_not_found
not_found k c e = rw (none_added k c e)

-- Where a set says only that translations of one ID are REMOVED, and the message is found in no file,
-- `applyIddiff` reads a null pointer to print its warning.
pub apply_iddiff_not_found :
    (k : ℕ) (c : IddiffChange) (messages : ℕ → List (List Message)) (apply_comments : Bool)
    → c.added_items ≡ []
    → messages k ≡ []
    → apply_iddiff true ((k, some c) ∷ []) messages apply_comments ≡ err null_pointer
unfolding apply_iddiff apply_ids apply_to_groups
apply_iddiff_not_found k c messages b e f =
    rw (involved_ids_single k (some c), f, apply_iddiff) (rw (not_found k c e))
