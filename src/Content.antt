-- ===== src/Content.antt =====
-- The messages of a .po file: gettextpo-helper/gtpo/messageoriginaltext.cpp, messagegroup.cpp,
-- message.cpp and translationcontent.cpp, over what libgettextpo reads.
pub mod Written
pub mod Template
mod Examples
use stupid_ids.Base.{
  ℕ, zero, suc, ◌+◌, ◌≡◌, Bool, true, false, not, ◌&&◌, ◌||◌, List, [], ◌∷◌, ◌++◌, Option, none,
  some, Result, ok, err, assertion, exception, null_pointer, assert, ◌>>=◌, ◌>>◌, length, ltb, ◌==◌,
  if◌then◌else◌, map,
}
use stupid_ids.Text.{Text, OptString, null, string, is_null, opt_eq, opt_lt, text_eq}
use stupid_ids.Message.{
  MessageTranslation, Message, bool_eq, equal_translations, edit_msgstr, num_plurals, msgstr_at,
}
use stupid_ids.Po.{PoMessage, po_message_is_untranslated}

-- The fields of MessageOriginalText.
pub record OriginalText : Type 0 where
  pub msgid : OptString
  pub msgid_plural : OptString
  pub msgctxt : OptString

abbrev pub original_text : PoMessage → OriginalText
original_text m = record {
  msgid = string m.msgid;
  msgid_plural = m.msgid_plural;
  msgctxt = m.msgctxt;
}

unfoldable pub orig_eq : OriginalText → OriginalText → Bool
orig_eq a b =
    opt_eq a.msgid b.msgid && opt_eq a.msgid_plural b.msgid_plural && opt_eq a.msgctxt b.msgctxt

-- `operator<` of std::tuple.
unfoldable pub orig_lt : OriginalText → OriginalText → Bool
orig_lt a b =
    opt_lt a.msgctxt b.msgctxt
    || (not (opt_lt b.msgctxt a.msgctxt)
        && (opt_lt a.msgid b.msgid
            || (not (opt_lt b.msgid a.msgid) && opt_lt a.msgid_plural b.msgid_plural)))

-- The constructor of MessageTranslationBase.
unfoldable pub translation_of : PoMessage → MessageTranslation
translation_of m = elim m.plural_forms [
  | [] ↦ record { plural = false; fuzzy = m.fuzzy; msgstr = string m.msgstr ∷ [] }
  | t ∷ ts ↦ record { plural = true; fuzzy = m.fuzzy; msgstr = string t ∷ map string ts }
]

-- `Message(message, index, filename)`
unfoldable pub message_of : PoMessage → ℕ → Text → Message
unfolding translation_of
message_of m index filename = record {
  translation = translation_of m;
  obsolete = m.obsolete;
  untranslated = po_message_is_untranslated m;
  msgcomments = string m.comments;
  index = some index;
  filename = filename;
  edited = false;
}

-- `Message(fuzzy, msgcomment, msgstr0, n_plurals)`
pub single_form_message : Bool → (msgcomment msgstr0 : Text) → (n_plurals : ℕ) → Result Message
single_form_message fuzzy msgcomment msgstr0 n_plurals = do
  assert (n_plurals == 0 || n_plurals == 1)
  ok (record {
    translation = record { plural = ltb 0 n_plurals; fuzzy = fuzzy; msgstr = string msgstr0 ∷ [] };
    obsolete = false;
    untranslated = false;
    msgcomments = string msgcomment;
    index = none;
    filename = [];
    edited = false;
  })

pub is_translated : Message → Bool
is_translated m = not m.translation.fuzzy && not m.untranslated

pub equal_translations_comments : Message → Message → Result Bool
equal_translations_comments m o = do
  assert (bool_eq m.translation.plural o.translation.plural)
  ok (equal_translations m.translation o.translation && opt_eq m.msgcomments o.msgcomments)

-- The loop of `clearTranslation`: each form, from `index` on, becomes a null string.
clear_forms : Message → (rounds index : ℕ) → Result Message
clear_forms m zero index = ok m
clear_forms m (suc rounds) index = do
  m' ← edit_msgstr m index null
  clear_forms m' rounds (index + 1)

pub clear_translation : Message → Result Message
clear_translation m = do
  m' ← clear_forms m (num_plurals m.translation) 0
  ok (record m' { untranslated = true; edited = true })

pub record MessageGroup : Type 0 where
  pub orig : OriginalText
  pub messages : List Message

unfoldable pub group_of : PoMessage → ℕ → Text → MessageGroup
unfolding message_of
group_of m index filename = record {
  orig = original_text m;
  messages = message_of m index filename ∷ [];
}

pub add_message : MessageGroup → Message → MessageGroup
add_message g m = record g { messages = g.messages ++ m ∷ [] }

unfoldable pub merge_message_group : MessageGroup → MessageGroup → MessageGroup
merge_message_group g other = record g { messages = g.messages ++ other.messages }

-- `assert(size() == 1)`
unfoldable pub only_message : List Message → Result Message
only_message [] = err assertion
only_message (m ∷ []) = ok m
only_message (m ∷ n ∷ rest) = err assertion

pub update_translation_from : MessageGroup → MessageGroup → Result MessageGroup
update_translation_from g other = do
  old ← only_message g.messages
  new ← only_message other.messages
  ok (record g { messages = new ∷ [] })

pub clear_group : MessageGroup → Result MessageGroup
clear_group g = do
  m ← only_message g.messages
  m' ← clear_translation m
  ok (record g { messages = m' ∷ [] })

-- The loop of `readMessagesInternal` behind the header.
unfoldable pub read_loop : Text → (index : ℕ) → List PoMessage → List MessageGroup
unfolding group_of
read_loop filename index [] = []
read_loop filename index (m ∷ messages) =
    if m.obsolete
    then read_loop filename index messages
    else group_of m index filename ∷ read_loop filename (index + 1) messages

-- The first message is the header; `filename` is the name for display.
unfoldable pub read_messages : Text → List PoMessage → Result (List MessageGroup)
read_messages [] po = err assertion
read_messages (c ∷ filename) [] = ok []
read_messages (c ∷ filename) (header ∷ messages) = ok (read_loop (c ∷ filename) 0 messages)

count_translated : List MessageGroup → Result ℕ
count_translated [] = ok 0
count_translated (record_group ∷ groups) = do
  n ← count_translated groups
  elim record_group.messages [
    | [] ↦ err assertion
    | m ∷ rest ↦ ok (if is_translated m then suc n else n)
  ]

pub translated_count : Text → List PoMessage → Result ℕ
translated_count filename po = do groups ← read_messages filename po; count_translated groups

find_by_orig : OriginalText → List MessageGroup → Option MessageGroup
find_by_orig orig [] = none
find_by_orig orig (g ∷ groups) = if orig_eq g.orig orig then some g else find_by_orig orig groups

pub find_message_group_by_orig : Text → List PoMessage → MessageGroup → Result (Option MessageGroup)
find_message_group_by_orig filename po msg = do
  groups ← read_messages filename po
  ok (find_by_orig msg.orig groups)
