-- ===== src/Iddiff/Comments/Applied.antt =====
-- `applyToMessageComments` of gettextpo-helper/gtpo/iddiff.cpp.
use stupid_ids.Base.{ℕ, ◌≡◌, Bool, not, ◌&&◌, ◌||◌, List, [], ◌∷◌, Option, ok, ◌>>=◌, refl, ap, ◌∙◌}
use stupid_ids.Text.{Text, string, to_string}
use stupid_ids.Message.{Message, edit_msgcomments}
use stupid_ids.Iddiff.Change.{Item}
use stupid_ids.Iddiff.{Items, find_added_single, find_removed_single}
use stupid_ids.Iddiff.Comments.{
  lines_loop, insert_lines, erase_lines, set_of_lines, join_strings, strings_of_item,
  apply_to_message_comments,
}
use stupid_ids.Iddiff.Comments.Sets.{
  has_line, IsLineSet, insert_lines-IsLineSet, has_line-insert_lines, erase_lines-has_line,
}

or_false : (b : Bool) → (b || Bool.false) ≡ b
or_false Bool.true = refl
or_false Bool.false = refl

or_turn : (a b : Bool) → (a || b) ≡ (b || a)
or_turn Bool.true Bool.true = refl
or_turn Bool.true Bool.false = refl
or_turn Bool.false Bool.true = refl
or_turn Bool.false Bool.false = refl

pub set_of_lines-has_line :
    (input : Text)
    → IsLineSet (set_of_lines input)
      × ((s : Text) → has_line (set_of_lines input) s ≡ has_line (lines_loop [] input) s)
unfolding set_of_lines
set_of_lines-has_line input = (
  insert_lines-IsLineSet (lines_loop [] input) [] tt,
  λ s.
      has_line-insert_lines (lines_loop [] input) [] s
      ∙ or_false (has_line (lines_loop [] input) s),
)

-- `applyToMessageComments` writes a sorted list of different lines, joined by newlines: the lines of
-- the old comments that are not REMOVED, and the lines that are ADDED. The message has comments, at
-- most one entry is REMOVED and at most one ADDED, and neither has a null string.
pub apply_to_message_comments-lines :
    (m : Items) (message : Message) (min_id : ℕ) {comments : Text} {removed added : Option Item}
    {removed_lines added_lines : List Text}
    → message.msgcomments ≡ string comments
    → find_removed_single m min_id ≡ ok removed
    → strings_of_item removed ≡ ok removed_lines
    → find_added_single m min_id ≡ ok added
    → strings_of_item added ≡ ok added_lines
    → (set : List Text) × (apply_to_message_comments m (message ∷ []) min_id
        ≡ ok (edit_msgcomments message (string (join_strings set (10 ∷ []))) ∷ []))
      × IsLineSet set
      × ((s : Text)
          → has_line set s ≡ (
              has_line (lines_loop [] comments) s && not (has_line removed_lines s)
              || has_line added_lines s))
unfolding apply_to_message_comments to_string
apply_to_message_comments-lines m message min_id {comments} {removed_lines} {added_lines} e r rl a
      al =
    let (old, has_old) = set_of_lines-has_line comments in
    let (kept, has_kept) = erase_lines-has_line removed_lines (set_of_lines comments) old in
    (
      insert_lines added_lines (erase_lines removed_lines (set_of_lines comments)),
      rw (ap to_string e, ◌>>=◌)
          (rw (r, ◌>>=◌) (rw (rl, ◌>>=◌) (rw (a, ◌>>=◌) (rw (al, ◌>>=◌) refl)))),
      insert_lines-IsLineSet added_lines _ kept,
      λ s.
          has_line-insert_lines added_lines _ s
          ∙ ap (λ b. has_line added_lines s || b)
              (has_kept s ∙ ap (λ b. b && not (has_line removed_lines s)) (has_old s))
          ∙ or_turn (has_line added_lines s) _,
    )
