-- ===== src/Content/Examples.antt =====
-- A small .po file, written and hashed as gettextpo-helper/gtpo/translationcontent.cpp does it.
use stupid_ids.Base.{
  ℕ, ◌≡◌, ◌≤◌, inl, arith, ap, length, true, false, List, [], ◌∷◌, ◌++◌, none, some, ok, refl,
}
use stupid_ids.Text.{Text, null}
use stupid_ids.Json
use stupid_ids.Json.{Value, bool, number, array, object}
use stupid_ids.Po.{PoMessage}
use stupid_ids.Content.Written.{write_to_file, write_to_file-same}
use stupid_ids.Content.Template.{codes, calculate_tp_hash}
use stupid_ids.Content.Template.Header.{HasCreationDate}
use stupid_ids.Content.Template.Hash.{calculate_tp_hash-template}

abbrev po_message : (msgid msgstr : Text) → PoMessage
po_message msgid msgstr = record {
  msgctxt = null;
  msgid = msgid;
  msgid_plural = null;
  extracted_comments = null;
  filepos = [];
  formats = [];
  range = none;
  msgstr = msgstr;
  plural_forms = [];
  fuzzy = false;
  obsolete = false;
  comments = [];
}

abbrev header : Text → PoMessage
header project = po_message [] (
    project
    ++ 10 ∷ codes "POT-Creation-Date: 2013"
    ++ 10 ∷ codes "PO-Revision-Date: "
    ++ project
    ++ 10 ∷ [])

abbrev translated : Text → List PoMessage
translated msgstr = po_message (102 ∷ []) msgstr ∷ po_message (103 ∷ []) [] ∷ []

write_to_file-same_example :
    write_to_file (97 ∷ []) (header (80 ∷ []) ∷ translated (65 ∷ [])) true
    ≡ ok (some (header (80 ∷ []) ∷ translated (65 ∷ [])))
write_to_file-same_example = write_to_file-same 97 [] (header (80 ∷ []) ∷ translated (65 ∷ [])) true

-- A stand-in for the hash: the kind of the document.
abbrev kind : Value → Text
kind Json.null = 0 ∷ []
kind (bool b) = 1 ∷ []
kind (number n) = 2 ∷ []
kind (Json.string t) = 3 ∷ []
kind (array items) = 4 ∷ []
kind (object members) = 5 ∷ []

-- The first line is the project's.
header-HasCreationDate :
    (c : ℕ) → (65 ≤ c) × (c ≤ 90) → HasCreationDate (header (c ∷ [])).msgstr (codes "2013")
header-HasCreationDate c h = record {
  before = (c ∷ []) ∷ [];
  behind = (codes "PO-Revision-Date: " ++ c ∷ []) ∷ [];
  is_text = refl;
  others = ((ground arith, λ t e. absurd (omega (arith, ap length e))), tt);
  one_line = refl;
  first = c;
  rest = 10 ∷ codes "POT-Creation-Date: 2013" ++ 10 ∷ codes "PO-Revision-Date: " ++ c ∷ 10 ∷ [];
  begins = refl;
  letter = inl h;
}

-- Two translations of one template, whose headers have one creation date.
calculate_tp_hash-template_example :
    calculate_tp_hash kind (header (80 ∷ []) ∷ translated (65 ∷ []))
    ≡ calculate_tp_hash kind (header (81 ∷ []) ∷ translated (66 ∷ []))
calculate_tp_hash-template_example =
    calculate_tp_hash-template kind (codes "2013") (header (80 ∷ [])) (header (81 ∷ []))
      (translated (65 ∷ [])) (translated (66 ∷ []))
      (header-HasCreationDate 80 (omega arith, omega arith))
      (header-HasCreationDate 81 (omega arith, omega arith)) refl
