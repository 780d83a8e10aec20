-- ===== src/Iddiff/Diff/Examples.antt =====
-- The difference of two small files.
use stupid_ids.Base.{some, Option, ℕ, ◌≡◌, true, false, List, [], ◌∷◌, none, ok, arith, refl}
use stupid_ids.Text.{Text, null, string, empty}
use stupid_ids.Message.{MessageTranslation, Message, all_empty, equal_msgstr}
use stupid_ids.Iddiff.{Items}
use stupid_ids.Iddiff.View.{IsWellFormed}
use stupid_ids.Iddiff.Diff.{decide, diff_files}
use stupid_ids.Iddiff.Diff.Decision.{IsConsistent, to_remove, to_add, decide_lem}
use stupid_ids.Iddiff.Diff.Files.{Describes, diff_files-Describes}

abbrev text : ℕ → MessageTranslation
text c = record { plural = false; fuzzy = false; msgstr = string (c ∷ []) ∷ [] }

abbrev message : MessageTranslation → Message
message t = record {
  translation = t;
  obsolete = false;
  untranslated = false;
  msgcomments = null;
  index = none;
  filename = [];
  edited = false;
}

abbrev untranslated : Message
untranslated =
    record (message (record { plural = false; fuzzy = false; msgstr = string [] ∷ [] })) {
      untranslated = true;
    }

text-IsConsistent : (c : ℕ) → IsConsistent (message (text c))
unfolding all_empty empty
text-IsConsistent c = record { untranslated_iff = refl; not_fuzzy = refl }

untranslated-IsConsistent : IsConsistent untranslated
unfolding all_empty empty
untranslated-IsConsistent = record { untranslated_iff = refl; not_fuzzy = refl }

decide_lem_example :
    decide (message (text 65)) (message (text 66))
    ≡ ok (
      to_remove false false (equal_msgstr (text 65) (text 66)) false false,
      to_add false false (equal_msgstr (text 65) (text 66)) false false,
    )
decide_lem_example =
    decide_lem (message (text 65)) (message (text 66)) (text-IsConsistent 65) (text-IsConsistent 66)

-- One message changes, one is translated for the first time.
abbrev old_file : List Message
old_file = message (text 65) ∷ untranslated ∷ []

abbrev new_file : List Message
new_file = message (text 66) ∷ message (text 67) ∷ []

abbrev first_ids : Text → Option (ℕ × ℕ)
first_ids hash = some (103, 2)

diff_files-Describes_example :
    (m : Items) × (diff_files first_ids 1 (7 ∷ []) (7 ∷ []) old_file new_file ≡ ok m)
    × IsWellFormed m
    × Describes 1 m 103 old_file new_file
diff_files-Describes_example =
    diff_files-Describes first_ids 1 (7 ∷ []) old_file new_file 103 2 refl (omega arith) refl
      (text-IsConsistent 65, (untranslated-IsConsistent, tt))
      (text-IsConsistent 66, (text-IsConsistent 67, tt))
