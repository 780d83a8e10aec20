-- ===== src/Iddiff/File/Read.antt =====
-- What `loadMessageList` of gettextpo-helper/gtpo/iddiff.cpp reads, for the documents that its format
-- allows.
use stupid_ids.Base.{
  ◌≡◌, Bool, false, List, [], ◌∷◌, ◌++◌, some, ok, err, assertion, ◌>>=◌, All, map, refl, ap, ◌∙◌,
}
use mathlib.Core.List.{append_assoc, append-nil}
use stupid_ids.Text.{Text, string}
use stupid_ids.Json
use stupid_ids.Json.{Value, Members, nil, object, array, bool, find_member, items_of}
use stupid_ids.Message.{MessageTranslation, add_msgstr, empty_message}
use stupid_ids.Iddiff.File.{
  codes, members_of, elements_of, text_of, bool_of, required, get_member, load_forms, load_message,
  load_messages, load_message_list, not_nil,
}

-- A value, and the flag and the forms that it stands for.
pub record Entry : Type 0 where
  pub members : Members
  pub fuzzy : Bool
  pub forms : List Text

abbrev pub value_of : Entry → Value
value_of e = object e.members

-- The members may stand in any order, with others between them.
pub record IsEntry (e : Entry) : Type 0 where
  pub fuzzy_there : find_member (codes "fuzzy") e.members ≡ some (bool e.fuzzy)
  pub forms_there :
      find_member (codes "msgstr") e.members ≡ some (array (items_of (map Json.string e.forms)))

-- No message that is read is marked as plural.
abbrev pub translation_of : Entry → MessageTranslation
translation_of e = record { plural = false; fuzzy = e.fuzzy; msgstr = map string e.forms }

load_forms-append :
    (m : MessageTranslation) (forms : List Text)
    → load_forms m (items_of (map Json.string forms))
      ≡ ok (record m { msgstr = m.msgstr ++ map string forms })
unfolding load_forms text_of add_msgstr
load_forms-append m [] = rw (append-nil m.msgstr) refl
load_forms-append m (t ∷ ts) =
    load_forms-append (add_msgstr m (string t)) ts
    ∙ ap (λ l. ok (record m { msgstr = l })) (append_assoc m.msgstr (string t ∷ []) (map string ts))

load_message-entry : (e : Entry) → IsEntry e → load_message (value_of e) ≡ ok (translation_of e)
unfolding load_message get_member members_of required bool_of elements_of
load_message-entry e i =
    rw (i.fuzzy_there, i.forms_there)
      (load_forms-append (record empty_message { fuzzy = e.fuzzy }) e.forms)

load_messages-entries :
    (es : List Entry)
    → All IsEntry es
    → load_messages (items_of (map value_of es)) ≡ ok (map translation_of es)
unfolding load_messages
load_messages-entries [] i = refl
load_messages-entries (e ∷ es) i =
    rw (load_message-entry e i.0, ◌>>=◌) (rw (load_messages-entries es i.1) refl)

pub load_message_list-entries :
    (es : List Entry)
    → All IsEntry es
    → load_message_list (array (items_of (map value_of es)))
      ≡ elim es [ [] ↦ err assertion | e ∷ rest ↦ ok (map translation_of (e ∷ rest)) ]
unfolding load_message_list elements_of not_nil
load_message_list-entries [] i = refl
load_message_list-entries (e ∷ es) i = load_messages-entries (e ∷ es) i
