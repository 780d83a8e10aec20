-- ===== src/Content/Template/Hash.antt =====
-- What the dump of a template (gettextpo-helper/gtpo/translationcontent.cpp) depends on, and what it
-- holds.
use stupid_ids.Base.{ℕ, ◌≡◌, true, false, List, [], ◌∷◌, Option, none, some, ok, map, refl, ap, ◌∙◌}
use stupid_ids.Text.{Text, OptString, null, string, text_eq}
use stupid_ids.Json
use stupid_ids.Json.{
  Value, Members, empty, member, add_member, items_of, find_member, find_member-add_member, or_else,
  array, object, bool, number,
}
use stupid_ids.Po.{PoMessage, is_empty_text}
use stupid_ids.Content.Template.{
  codes, filepos_entries_as_json, messageformats_as_json, add_string, add_range, template_members,
  translation_members, template_message_as_json, messages_as_json, as_json, file_template_as_json,
  calculate_tp_hash,
}
use stupid_ids.Content.Template.Header.{HasCreationDate, template_header_as_json-HasCreationDate}

-- A message without its translation.
abbrev pub as_template : PoMessage → PoMessage
as_template m = record m { msgstr = []; plural_forms = []; fuzzy = false; comments = [] }

messages_as_json-template :
    (messages : List PoMessage)
    → messages_as_json messages false ≡ messages_as_json (map as_template messages) false
unfolding messages_as_json template_message_as_json filepos_entries_as_json messageformats_as_json
messages_as_json-template [] = refl
messages_as_json-template (m ∷ messages) = rw (messages_as_json-template messages) refl

-- The template hash of a file depends on the creation date of its template and on what its messages
-- have without their translations, and on nothing else: two files in which these are the same have
-- the same hash, or fail in the same way. The headers consist of lines, begin with a letter, and have
-- the date in their first line for it.
pub calculate_tp_hash-template :
    (sha1_of : Value → Text) (date : Text) (header header' : PoMessage)
    (messages messages' : List PoMessage)
    → HasCreationDate header.msgstr date
    → HasCreationDate header'.msgstr date
    → map as_template messages ≡ map as_template messages'
    → calculate_tp_hash sha1_of (header ∷ messages)
      ≡ calculate_tp_hash sha1_of (header' ∷ messages')
unfolding calculate_tp_hash file_template_as_json as_json
calculate_tp_hash-template sha1_of date header header' messages messages' h h' e =
    rw
      (
        template_header_as_json-HasCreationDate h,
        template_header_as_json-HasCreationDate h',
        messages_as_json-template messages,
        e,
        ← messages_as_json-template messages',
      )
      refl

or_none : (o : Option Value) → or_else o none ≡ o
or_none none = refl
or_none (some v) = refl

add_string_other :
    (name n : Text) (ms : Members) (o : OptString)
    → text_eq n name ≡ false
    → find_member name (add_string ms n o) ≡ find_member name ms
add_string_other name n ms null h = refl
add_string_other name n ms (string s) h =
    find_member-add_member name n ms (Json.string s) ∙ rw h (or_none (find_member name ms))

stays :
    (name n : Text) (ms : Members) (v w : Value)
    → find_member name ms ≡ some w
    → find_member name (add_member ms n v) ≡ some w
stays name n ms v w h = find_member-add_member name n ms v ∙ rw h refl

stays_range :
    (name : Text) (ms : Members) (r : Option (ℕ × ℕ)) (w : Value)
    → find_member name ms ≡ some w
    → find_member name (add_range ms r) ≡ some w
unfolding add_range
stays_range name ms none w h = h
stays_range name ms (some (minp, maxp)) w h = stays name _ ms _ w h

abbrev comments_name : Text
comments_name = codes "comments"

texts_before : PoMessage → Members
texts_before m =
    add_string
      (add_string (add_string empty (codes "msgctxt") m.msgctxt) (codes "msgid") (string m.msgid))
      (codes "msgid_plural") m.msgid_plural

none_before : (m : PoMessage) → find_member comments_name (texts_before m) ≡ none
unfolding texts_before text_eq find_member
none_before m =
    add_string_other comments_name (codes "msgid_plural") _ m.msgid_plural refl
    ∙ add_string_other comments_name (codes "msgid") (add_string empty (codes "msgctxt") m.msgctxt)
        (string m.msgid) refl
    ∙ add_string_other comments_name (codes "msgctxt") empty m.msgctxt refl

extracted_found :
    (m : PoMessage) (extracted : Text)
    → m.extracted_comments ≡ string extracted
    → find_member comments_name (add_string (texts_before m) comments_name m.extracted_comments)
      ≡ some (Json.string extracted)
unfolding text_eq
extracted_found m extracted e =
    ap (λ o. find_member comments_name (add_string (texts_before m) comments_name o)) e
    ∙ find_member-add_member comments_name comments_name (texts_before m) (Json.string extracted)
    ∙ rw (none_before m) refl

-- Where a message has extracted comments, the dump with translations has two members "comments", and a
-- reader that takes the first one does not see the comments of the translator.
pub template_message_as_json_comments :
    (m : PoMessage) (extracted : Text)
    → m.extracted_comments ≡ string extracted
    → m.obsolete ≡ false
    → is_empty_text m.msgid ≡ false
    → (members : Members) × (template_message_as_json m true ≡ ok (object members))
      × (find_member (codes "comments") members ≡ some (Json.string extracted))
unfolding template_message_as_json texts_before
template_message_as_json_comments m extracted e live there = (
  translation_members m (template_members m),
  rw (live, there) refl,
  let first = extracted_found m extracted e in
      let found = stays_range comments_name _ m.range _ (
        stays comments_name (codes "formats") _ _ _
          (stays comments_name (codes "filepos") _ _ _ first)) in
      stays comments_name _ _ _ _ (
        stays comments_name _ _ _ _ (
          stays comments_name _ _ _ _
            (stays comments_name _ _ _ _ (stays comments_name (codes "msgstr") _ _ _ found)))),
)
