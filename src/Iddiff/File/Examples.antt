-- ===== src/Iddiff/File/Examples.antt =====
-- A list of two messages, read as gettextpo-helper/gtpo/iddiff.cpp does it, and why it cannot be written.
use stupid_ids.Base.{ℕ, ◌≡◌, Bool, false, true, List, [], ◌∷◌, err, ok, map, refl, dangling_pointer}
use stupid_ids.Text.{string, c_str, text_eq}
use stupid_ids.Json
use stupid_ids.Json.{item, nil, empty, member, array, bool, number, find_member, items_of}
use stupid_ids.Iddiff.Change.{Item}
use stupid_ids.Iddiff.File.{
  codes, forms_as_json, write_json, write_messages, write_message_list, load_message_list,
}
use stupid_ids.Iddiff.File.Read.{
  Entry, value_of, translation_of, IsEntry, load_message_list-entries,
}

abbrev item_of : Bool → ℕ → Item
item_of fuzzy c = record {
  address = c;
  message = record { plural = false; fuzzy = fuzzy; msgstr = string (c ∷ []) ∷ [] };
}

dangles : write_message_list (item_of true 65 ∷ item_of false 66 ∷ []) ≡ err dangling_pointer
unfolding write_message_list write_messages write_json forms_as_json c_str
dangles = refl

abbrev entry : Bool → ℕ → Entry
entry fuzzy c = record {
  members =
      member (codes "msgstr") (array (item (Json.string (c ∷ [])) nil))
        (member (codes "line") (number 7) (member (codes "fuzzy") (bool fuzzy) empty));
  fuzzy = fuzzy;
  forms = (c ∷ []) ∷ [];
}

abbrev entries : List Entry
entries = entry true 65 ∷ entry false 66 ∷ []

entry-IsEntry : (fuzzy : Bool) (c : ℕ) → IsEntry (entry fuzzy c)
unfolding find_member text_eq
entry-IsEntry fuzzy c = record { fuzzy_there = refl; forms_there = refl }

load_message_list-entries_example :
    load_message_list (array (items_of (map value_of entries))) ≡ ok (map translation_of entries)
load_message_list-entries_example =
    load_message_list-entries entries (entry-IsEntry true 65, (entry-IsEntry false 66, tt))
