-- ===== src/Iddiff/Apply/Examples.antt =====
-- One set of reviews applied to a message.
use stupid_ids.Base.{ℕ, ◌≡◌, true, false, [], ◌∷◌, none, some, ok, arith, refl}
use stupid_ids.Text.{null, string, is_null, text_eq, opt_eq}
use stupid_ids.Message.{
  MessageTranslation, Message, equal_msgstr, msgstr_eq, edit_fuzzy, edit_msgstr, copy_forms,
  copy_translations_to_message, replace,
}
use stupid_ids.Iddiff.Map.{find, put}
use stupid_ids.Iddiff.Change.{Item, IddiffChange}
use stupid_ids.Iddiff.{Items, find_in_list, find_removed, find_added_single, find_added, single}
use stupid_ids.Iddiff.View.{
  added_at, removed_at, has, IsWellFormed, Becomes, Becomes-IsWellFormed, put-Becomes,
}
use stupid_ids.Iddiff.Apply.{apply_to_message, can_drop_message, replace_translation}
use stupid_ids.Iddiff.Apply.Messages.{apply_to_message_added, apply_to_message_twice}

abbrev text : ℕ → MessageTranslation
text c = record { plural = false; fuzzy = false; msgstr = string (c ∷ []) ∷ [] }

abbrev message : MessageTranslation → Message
message t = record {
  translation = t;
  obsolete = false;
  untranslated = false;
  msgcomments = null;
  index = none;
  filename = [];
  edited = false;
}

abbrev fuzzy_message : Message
fuzzy_message = message (record (text 66) { fuzzy = true })

abbrev added_item : Item
added_item = record { address = 1; message = text 65 }

abbrev change : IddiffChange
change = record { removed_items = []; added_items = added_item ∷ []; review_comment = none }

abbrev reviews : Items
reviews = put 103 (some change) []

nothing-IsWellFormed : IsWellFormed []
unfolding find
nothing-IsWellFormed = record {
  live = λ k h. cc;
  sound = λ k. record { one = omega arith; disjoint = tt; distinct = tt };
}

reviews-Becomes : Becomes [] 103 [] (added_item ∷ []) none reviews
reviews-Becomes = put-Becomes [] 103 change

reviews-IsWellFormed : IsWellFormed reviews
unfolding find_in_list
reviews-IsWellFormed =
    Becomes-IsWellFormed nothing-IsWellFormed reviews-Becomes
      (record { one = omega arith; disjoint = (refl, tt); distinct = tt })

nothing_removed : (t : MessageTranslation) → has (removed_at reviews 103) t ≡ false
unfolding find_in_list
nothing_removed t = rw reviews-Becomes.now_removed

strings_there : is_null (string (66 ∷ [])) ≡ false
unfolding is_null
strings_there = refl

apply_to_message_added_example :
    (after : Message) × (apply_to_message reviews fuzzy_message 103 ≡ ok after)
    × (after.translation.msgstr ≡ string (65 ∷ []) ∷ [])
    × (after.translation.fuzzy ≡ false)
    × (after.untranslated ≡ false)
apply_to_message_added_example =
    apply_to_message_added reviews-IsWellFormed 103 fuzzy_message added_item
      reviews-Becomes.now_added refl refl (strings_there, tt)

nothing_added : added_at [] 103 ≡ []
unfolding find
nothing_added = refl

abbrev translated : Message
translated = record (message (text 65)) { edited = true }

applied : apply_to_message reviews fuzzy_message 103 ≡ ok translated
unfolding apply_to_message can_drop_message replace_translation find_removed find_added_single
    find_added single find put find_in_list equal_msgstr msgstr_eq opt_eq text_eq
    copy_translations_to_message copy_forms edit_msgstr replace edit_fuzzy is_null
applied = refl

apply_to_message_twice_example : apply_to_message reviews translated 103 ≡ ok translated
apply_to_message_twice_example =
    apply_to_message_twice reviews-IsWellFormed 103 fuzzy_message translated added_item
      reviews-Becomes.now_added refl refl (strings_there, tt) refl refl applied
