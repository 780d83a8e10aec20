-- ===== src/Po.antt =====
-- A message as libgettextpo reads it, and the helpers on it of
-- gettextpo-helper/gtpo/gettextpo-helper.cpp.
use stupid_ids.Base.{
  ℕ, suc, ◌+◌, ◌/◌, ◌%◌, Bool, true, false, not, ◌&&◌, ◌||◌, List, [], ◌∷◌, Option, Result, ok, err,
  assertion, assert, ◌>>◌, length, ltb, ◌==◌, if◌then◌else◌,
}
use stupid_ids.Text.{Text, OptString, null, string, text_eq}

-- `plural_forms` is empty where there is no msgid_plural; a line number may be missing.
pub record PoMessage : Type 0 where
  pub msgctxt : OptString
  pub msgid : Text
  pub msgid_plural : OptString
  pub extracted_comments : OptString
  pub filepos : List (Text × Option ℕ)
  pub formats : List Text
  pub range : Option (ℕ × ℕ)
  pub msgstr : Text
  pub plural_forms : List Text
  pub fuzzy : Bool
  pub obsolete : Bool
  pub comments : Text

abbrev pub is_empty_text : Text → Bool
is_empty_text [] = true
is_empty_text (c ∷ cs) = false

abbrev pub all_empty_texts : List Text → Bool
all_empty_texts [] = true
all_empty_texts (t ∷ ts) = is_empty_text t && all_empty_texts ts

unfoldable pub po_message_is_untranslated : PoMessage → Bool
po_message_is_untranslated m = elim m.plural_forms [
  | [] ↦ is_empty_text m.msgstr
  | t ∷ ts ↦ all_empty_texts (t ∷ ts)
]

abbrev pub po_message_n_plurals : PoMessage → ℕ
po_message_n_plurals m = length m.plural_forms

-- Whether a form differs.
forms_differ : List Text → List Text → Bool
forms_differ [] ts = false
forms_differ (s ∷ ss) [] = false
forms_differ (s ∷ ss) (t ∷ ts) = not (text_eq s t) || forms_differ ss ts

-- true is a result that is not 0.
pub compare_po_message_msgstr : PoMessage → PoMessage → Result Bool
compare_po_message_msgstr a b = do
  assert (po_message_n_plurals a == po_message_n_plurals b)
  ok (
      if ltb 0 (po_message_n_plurals a)
      then forms_differ a.plural_forms b.plural_forms
      else not (text_eq a.msgstr b.msgstr))

not_obsolete : List PoMessage → ℕ
not_obsolete [] = 0
not_obsolete (m ∷ messages) =
    if m.obsolete then not_obsolete messages else suc (not_obsolete messages)

-- The first message is the header.
pub get_pot_length : List PoMessage → Result ℕ
get_pot_length [] = err assertion
get_pot_length (header ∷ messages) = do
  assert (is_empty_text header.msgid)
  ok (not_obsolete messages)

-- What comes after the last slash; the rest of the path is walked with what may be the result.
after_slash : (name path : Text) → Text
after_slash name [] = name
after_slash name (c ∷ path) =
    let rest = after_slash name path in if c == 47 then after_slash path path else rest

pub path_to_basename : Text → Text
path_to_basename path = after_slash path path

hex_digit : ℕ → ℕ
hex_digit n = if ltb n 10 then 48 + n else 87 + n

-- "n" for a null pointer, else two digits for each byte.
pub hex_of : Text → Text
hex_of [] = []
hex_of (c ∷ cs) = hex_digit (c / 16) ∷ hex_digit (c % 16) ∷ hex_of cs

pub wrap_string_hex : OptString → Text
wrap_string_hex null = 110 ∷ []
wrap_string_hex (string s) = hex_of s
