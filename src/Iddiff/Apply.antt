-- ===== src/Iddiff/Apply.antt =====
-- `applyToMessage` of gettextpo-helper/gtpo/iddiff.cpp: a set of reviews put into a message.
pub mod Messages
mod Examples
use stupid_ids.Base.{
  ℕ, Bool, true, false, not, ◌&&◌, ◌||◌, List, [], ◌∷◌, Option, none, some, Result, ok, err,
  assertion, assert, ◌>>=◌, ◌>>◌, if◌then◌else◌,
}
use stupid_ids.Message.{
  MessageTranslation, Message, equal_msgstr, equal_translations, edit_fuzzy,
  copy_translations_to_message,
}
use stupid_ids.Iddiff.Change.{Item, is_none}
use stupid_ids.Iddiff.{Items, find_removed, find_added_single, find_in_list}

-- `Message::isFuzzy`, `Message::isUntranslated`, and the loop over REMOVED.
pub can_drop_message : Items → Message → ℕ → Result Bool
can_drop_message m message min_id = do
  removed ← find_removed m min_id
  ok (
      message.translation.fuzzy
      || message.untranslated
      || not (is_none (find_in_list removed message.translation)))

pub replace_translation : Message → Option Item → Result Message
replace_translation message none = ok (edit_fuzzy message true)
replace_translation message (some added) = do
  copied ← copy_translations_to_message added.message message
  ok (edit_fuzzy copied false)

pub keep_translation : Message → Option Item → Result Message
keep_translation message none = ok message
keep_translation message (some added) =
    if not (equal_translations added.message message.translation) then err assertion else ok message

-- The group has one message.
pub apply_to_message : Items → Message → ℕ → Result Message
apply_to_message m message min_id = do
  added ← find_added_single m min_id
  can_drop ← can_drop_message m message min_id
  if can_drop then replace_translation message added else keep_translation message added
