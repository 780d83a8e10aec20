-- ===== src/Iddiff/Comments/Examples.antt =====
-- The comments of translators of gettextpo-helper/gtpo/iddiff.cpp, at small sets of lines.
use stupid_ids.Base.{ℕ, ◌≡◌, false, not, ◌&&◌, ◌||◌, List, [], ◌∷◌, none, some, ok, refl}
use stupid_ids.Text.{Text, OptString, string, to_string}
use stupid_ids.Message.{Message, edit_msgcomments}
use stupid_ids.Iddiff.Map.{find}
use stupid_ids.Iddiff.Change.{Item, IddiffChange}
use stupid_ids.Iddiff.{
  Items, find_added, find_removed, find_added_single, find_removed_single, single,
}
use stupid_ids.Iddiff.Merge.{strings_of}
use stupid_ids.Iddiff.Comments.{
  lines_loop, join_strings, split_string, strings_of_item, apply_to_message_comments,
}
use stupid_ids.Iddiff.Comments.Lines.{split_string-join_strings}
use stupid_ids.Iddiff.Comments.Sets.{has_line, IsLineSet}
use stupid_ids.Iddiff.Comments.Applied.{apply_to_message_comments-lines}

-- "a", "bc" and "d", with spaces between them.
split_string-join_strings_example :
    split_string (join_strings ((97 ∷ []) ∷ (98 ∷ 99 ∷ []) ∷ (100 ∷ []) ∷ []) (32 ∷ [])) (32 ∷ [])
    ≡ ok ((97 ∷ []) ∷ (98 ∷ 99 ∷ []) ∷ (100 ∷ []) ∷ [])
split_string-join_strings_example =
    split_string-join_strings 32 ((97 ∷ []) ∷ (98 ∷ 99 ∷ []) ∷ (100 ∷ []) ∷ [])
      ((tt, (refl, tt)), ((tt, (refl, (refl, tt))), ((tt, (refl, tt)), tt)))

-- An item whose texts are the lines.
abbrev item_of : ℕ → List OptString → Item
item_of address texts = record {
  address = address;
  message = record { plural = false; fuzzy = false; msgstr = texts };
}

-- "b" is REMOVED and "c" is ADDED.
abbrev change : IddiffChange
change = record {
  removed_items = item_of 1 (string (98 ∷ []) ∷ []) ∷ [];
  added_items = item_of 2 (string (99 ∷ []) ∷ []) ∷ [];
  review_comment = none;
}

abbrev reviews : Items
reviews = (103, some change) ∷ []

-- A message with the lines "a" and "b".
abbrev message : Message
message = record {
  translation = record { plural = false; fuzzy = false; msgstr = string (65 ∷ []) ∷ [] };
  obsolete = false;
  untranslated = false;
  msgcomments = string (97 ∷ 10 ∷ 98 ∷ []);
  index = some 0;
  filename = [];
  edited = false;
}

removed_found : find_removed_single reviews 103 ≡ ok (some (item_of 1 (string (98 ∷ []) ∷ [])))
unfolding find_removed_single find_removed single find
removed_found = refl

added_found : find_added_single reviews 103 ≡ ok (some (item_of 2 (string (99 ∷ []) ∷ [])))
unfolding find_added_single find_added single find
added_found = refl

texts :
    (c : ℕ) (address : ℕ)
    → strings_of_item (some (item_of address (string (c ∷ []) ∷ []))) ≡ ok ((c ∷ []) ∷ [])
unfolding strings_of_item strings_of to_string
texts c address = refl

apply_to_message_comments-lines_example :
    (set : List Text) × (apply_to_message_comments reviews (message ∷ []) 103
      ≡ ok (edit_msgcomments message (string (join_strings set (10 ∷ []))) ∷ []))
    × IsLineSet set
    × ((s : Text)
        → has_line set s ≡ (
            has_line (lines_loop [] (97 ∷ 10 ∷ 98 ∷ [])) s && not (has_line ((98 ∷ []) ∷ []) s)
            || has_line ((99 ∷ []) ∷ []) s))
apply_to_message_comments-lines_example =
    apply_to_message_comments-lines reviews message 103 refl removed_found (texts 98 1) added_found
      (texts 99 2)
