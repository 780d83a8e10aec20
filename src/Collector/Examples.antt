-- ===== src/Collector/Examples.antt =====
-- Two files with one message each, collected as gettextpo-helper/gtpo/translation-collector.cpp does it.
use stupid_ids.Base.{ℕ, inr, ◌≡◌, false, true, List, [], ◌∷◌, Option, none, some, Result, ok, refl}
use stupid_ids.Text.{Text, null}
use stupid_ids.Po.{PoMessage}
use stupid_ids.Content.{
  original_text, message_of, group_of, merge_message_group, read_loop, read_messages,
}
use stupid_ids.Iddiff.Map.{find, put}
use stupid_ids.Collector.{
  TranslationContent, TranslationCollector, ask_min_ids, get_min_ids, insert_message,
  insert_messages, init_content, init_contents, init_trans_confl,
}
use stupid_ids.Collector.Gathered.{
  messages_at, gathered, Answered, IsAnswered, init_trans_confl-gathered,
}

abbrev po_message : (msgid msgstr : Text) → PoMessage
po_message msgid msgstr = record {
  msgctxt = null;
  msgid = msgid;
  msgid_plural = null;
  extracted_comments = null;
  filepos = [];
  formats = [];
  range = none;
  msgstr = msgstr;
  plural_forms = [];
  fuzzy = false;
  obsolete = false;
  comments = [];
}

abbrev content : ℕ → Option (List ℕ) → TranslationContent
content letter min_ids = record {
  display_filename = letter ∷ [];
  file = po_message [] [] ∷ po_message (102 ∷ []) (letter ∷ []) ∷ [];
  tp_hash = letter ∷ [];
  min_ids = min_ids;
}

-- Both messages have the minimized ID 103.
abbrev ask : Text → Result (List ℕ)
ask tp_hash = ok (103 ∷ [])

abbrev collector : TranslationCollector
collector = record {
  contents = content 97 none ∷ content 98 none ∷ [];
  trans = [];
  trans_init = false;
}

abbrev initialised : TranslationCollector
initialised = record {
  contents = content 97 (some (103 ∷ [])) ∷ content 98 (some (103 ∷ [])) ∷ [];
  trans =
      (
        103,
        record {
          orig = original_text (po_message (102 ∷ []) (97 ∷ []));
          messages =
              message_of (po_message (102 ∷ []) (97 ∷ [])) 0 (97 ∷ [])
              ∷ message_of (po_message (102 ∷ []) (98 ∷ [])) 0 (98 ∷ [])
              ∷ [];
        },
      )
      ∷ [];
  trans_init = true;
}

-- The file itself, with the group that is read from it.
abbrev answered : ℕ → Answered
answered letter = record {
  content = content letter none;
  groups = group_of (po_message (102 ∷ []) (letter ∷ [])) 0 (letter ∷ []) ∷ [];
  ids = 103 ∷ [];
}

answered-IsAnswered : (letter : ℕ) → IsAnswered ask (answered letter)
unfolding read_messages read_loop
answered-IsAnswered letter = record { readable = refl; known = inr (refl, refl); as_many = refl }

initialises : init_trans_confl ask collector ≡ ok initialised
unfolding init_trans_confl init_contents init_content get_min_ids ask_min_ids insert_messages
    insert_message merge_message_group find put read_messages read_loop group_of
initialises = refl

init_trans_confl-gathered_example :
    (c' : TranslationCollector) × (init_trans_confl ask collector ≡ ok c')
    × (c'.trans_init ≡ true)
    × ((k : ℕ) → messages_at c'.trans k ≡ gathered k (answered 97 ∷ answered 98 ∷ []))
init_trans_confl-gathered_example =
    init_trans_confl-gathered ask collector (answered 97 ∷ answered 98 ∷ []) refl refl refl
      (answered-IsAnswered 97, (answered-IsAnswered 98, tt))
