-- ===== src/Content/Template.antt =====
-- The dump of a template by which gettextpo-helper/gtpo/translationcontent.cpp knows it. Its hash is
-- SHA-1 of the text, which rapidjson writes. Texts are lists of bytes.
pub mod Header
pub mod Hash
use Prim.Native.Char.{code}
use Prim.Native.String.{String}
use stupid_ids.Base.{
  ℕ, zero, suc, ◌+◌, ◌-◌, ◌≡◌, Bool, true, false, not, ◌&&◌, ◌||◌, List, [], ◌∷◌, ◌++◌, Option,
  none, some, Result, ok, err, assertion, exception, null_pointer, uninitialised, out_of_range,
  not_po, dangling_pointer, assert, ◌>>=◌, ◌>>◌, length, drop, leb, ◌==◌, if◌then◌else◌, map, refl,
  arith, inl, inr, Bool-cases, ap, ◌∙◌,
}
use stupid_ids.Text.{Text, OptString, null, string, text_eq}
use stupid_ids.Json
use stupid_ids.Json.{
  Value, Members, empty, member, add_member, items_of, find_member, find_member-add_member, or_else,
  array, object, bool, number,
}
use stupid_ids.Iddiff.Comments.{is_prefix}
use stupid_ids.Po.{PoMessage, is_empty_text, po_message_is_untranslated}

-- The bytes of an ASCII text.
abbrev pub codes : String → Text
codes String.[] = []
codes (String.◌∷◌ c s) = code c ∷ codes s

-- `isalpha` in the C locale.
abbrev pub is_alpha : Text → Bool
is_alpha [] = false
is_alpha (c ∷ cs) = (leb 65 c && leb c 90) || (leb 97 c && leb c 122)

-- What stands behind the first occurrence of a pattern.
unfoldable pub after : (pattern s : Text) → Option Text
after pattern [] = if is_empty_text pattern then some [] else none
after pattern (c ∷ s) =
    if is_prefix pattern (c ∷ s) then some (drop (length pattern) (c ∷ s)) else after pattern s

-- Up to the first newline, if there is one.
unfoldable pub to_newline : Text → Option Text
to_newline [] = none
to_newline (c ∷ s) = elim (c == 10) [
  | true ↦ some []
  | false ↦ elim (to_newline s) [ none ↦ none | some line ↦ some (c ∷ line) ]
]

unfoldable pub creation_date : Option Text → Result Text
creation_date none = err not_po
creation_date (some rest) = elim (to_newline rest) [ none ↦ err assertion | some date ↦ ok date ]

unfoldable pub template_header_as_json : Text → Result Members
template_header_as_json header = if not (is_alpha header) then err not_po else (do
  date ← creation_date (after (10 ∷ codes "POT-Creation-Date: ") (10 ∷ header))
  ok (member (codes "pot_creation_date") (Json.string date) empty))

add_line : Members → Option ℕ → Members
add_line m none = m
add_line m (some line) = add_member m (codes "line") (number line)

filepos_entry : Text × Option ℕ → Value
filepos_entry (file, line) = object (add_line (member (codes "file") (Json.string file) empty) line)

pub filepos_entries_as_json : PoMessage → Value
filepos_entries_as_json m = array (items_of (map filepos_entry m.filepos))

pub messageformats_as_json : PoMessage → Value
messageformats_as_json m = array (items_of (map Json.string m.formats))

-- A member for a string that is not null.
abbrev add_string : Members → Text → OptString → Members
add_string m name null = m
add_string m name (string s) = add_member m name (Json.string s)

add_range : Members → Option (ℕ × ℕ) → Members
add_range m none = m
add_range m (some (minp, maxp)) =
    add_member m (codes "numeric_range")
      (object (member (codes "min") (number minp) (member (codes "max") (number maxp) empty)))

forms_as_json : PoMessage → Value
forms_as_json m = elim m.plural_forms [
  | [] ↦ array (items_of (Json.string m.msgstr ∷ []))
  | t ∷ ts ↦ array (items_of (map Json.string (t ∷ ts)))
]

-- The parts of a message that a template has.
abbrev template_members : PoMessage → Members
template_members m =
    let texts =
      add_string
        (add_string
          (add_string (add_string empty (codes "msgctxt") m.msgctxt) (codes "msgid")
            (string m.msgid))
          (codes "msgid_plural") m.msgid_plural)
        (codes "comments") m.extracted_comments in
    add_range
      (add_member (add_member texts (codes "filepos") (filepos_entries_as_json m)) (codes "formats")
        (messageformats_as_json m))
      m.range

abbrev translation_members : PoMessage → Members → Members
translation_members m members =
    add_member
      (add_member
        (add_member
          (add_member (add_member members (codes "msgstr") (forms_as_json m)) (codes "fuzzy")
            (bool m.fuzzy))
          (codes "obsolete") (bool m.obsolete))
        (codes "untranslated") (bool (po_message_is_untranslated m)))
      (codes "comments") (Json.string m.comments)

abbrev is_null_string : OptString → Bool
is_null_string null = true
is_null_string (string s) = false

-- A second header is refused, and null stands for an obsolete message.
pub template_message_as_json : PoMessage → (include_translations : Bool) → Result Value
template_message_as_json m include_translations =
    if is_empty_text m.msgid && is_null_string m.msgctxt
    then err exception
    else if m.obsolete
    then ok Json.null
    else ok (
        object (
          if include_translations
          then translation_members m (template_members m)
          else template_members m))

push_value : Value → List Value → List Value
push_value Json.null values = values
push_value (bool b) values = bool b ∷ values
push_value (number n) values = number n ∷ values
push_value (Json.string s) values = Json.string s ∷ values
push_value (array items) values = array items ∷ values
push_value (object members) values = object members ∷ values

messages_as_json : List PoMessage → Bool → Result (List Value)
messages_as_json [] include_translations = ok []
messages_as_json (m ∷ messages) include_translations = do
  v ← template_message_as_json m include_translations
  rest ← messages_as_json messages include_translations
  ok (push_value v rest)

-- The header fields that libgettextpo finds.
add_header_fields : Members → Bool → (revision_date last_translator : OptString) → Members
add_header_fields m false revision_date last_translator = m
add_header_fields m true revision_date last_translator =
    add_string (add_string m (codes "po_revision_date") revision_date) (codes "last_translator")
      last_translator

-- The document of `asJson`. Where the file has no message it is not a .po file.
pub as_json :
    List PoMessage
    → (include_translations : Bool) (revision_date last_translator : OptString) → Result Value
as_json [] include_translations revision_date last_translator = err not_po
as_json (header ∷ messages) include_translations revision_date last_translator = do
  members ← template_header_as_json header.msgstr
  values ← messages_as_json messages include_translations
  ok (
      object (
        member (codes "header")
          (object (add_header_fields members include_translations revision_date last_translator))
          (member (codes "messages") (array (items_of values)) empty)))

-- `fileTemplateAsJson`, from which the template hash is computed.
pub file_template_as_json : List PoMessage → Result Value
file_template_as_json file = as_json file false null null

-- The null hash stands for what is not a .po file; other exceptions go through.
pub hash_or_null : (sha1_of : Value → Text) → Result Value → Result (Option Text)
hash_or_null sha1_of (ok v) = ok (some (sha1_of v))
hash_or_null sha1_of (err not_po) = ok none
hash_or_null sha1_of (err assertion) = err assertion
hash_or_null sha1_of (err null_pointer) = err null_pointer
hash_or_null sha1_of (err exception) = err exception
hash_or_null sha1_of (err uninitialised) = err uninitialised
hash_or_null sha1_of (err out_of_range) = err out_of_range
hash_or_null sha1_of (err dangling_pointer) = err dangling_pointer

pub calculate_tp_hash : (sha1_of : Value → Text) → List PoMessage → Result (Option Text)
calculate_tp_hash sha1_of file = hash_or_null sha1_of (file_template_as_json file)
