-- ===== src/Message.antt =====
-- Translations of one message: gettextpo-helper/gtpo/messagetranslationbase.cpp, message.cpp and
-- iddiffmessage.cpp.
use stupid_ids.Base.{
  ℕ, zero, suc, ◌≡◌, ◌↔◌, Bool, true, false, not, ◌&&◌, List, [], ◌∷◌, ◌++◌, Result, ok, err,
  assert, ◌>>=◌, ◌>>◌, ◌==◌, arith, if◌then◌else◌, length, get_elem?, assertion, Option, none, some,
}
use stupid_ids.Text.{Text, OptString, is_null, empty, opt_eq, opt_eq_iff}

-- The fields of MessageTranslationBase; IddiffMessage adds none.
pub record MessageTranslation : Type 0 where
  pub plural : Bool
  pub fuzzy : Bool
  pub msgstr : List OptString

abbrev pub num_plurals : MessageTranslation → ℕ
num_plurals m = length m.msgstr

-- `operator==` of std::vector<OptString>.
unfoldable pub msgstr_eq : List OptString → List OptString → Bool
msgstr_eq [] [] = true
msgstr_eq [] (t ∷ ts) = false
msgstr_eq (s ∷ ss) [] = false
msgstr_eq (s ∷ ss) (t ∷ ts) = opt_eq s t && msgstr_eq ss ts

unfoldable pub equal_msgstr : MessageTranslation → MessageTranslation → Bool
equal_msgstr m o =
    if not (num_plurals m == num_plurals o) then false else msgstr_eq m.msgstr o.msgstr

abbrev pub bool_eq : Bool → Bool → Bool
bool_eq true b = b
bool_eq false b = not b

unfoldable pub equal_translations : MessageTranslation → MessageTranslation → Bool
equal_translations m o = equal_msgstr m o && bool_eq m.fuzzy o.fuzzy

unfoldable pub all_empty : List OptString → Bool
all_empty [] = true
all_empty (s ∷ ss) = empty s && all_empty ss

-- MessageTranslationBase::isUntranslated, which IddiffMessage inherits.
unfoldable pub is_untranslated : MessageTranslation → Bool
is_untranslated m = all_empty m.msgstr

-- IddiffMessage::isTranslated.
unfoldable pub is_translated : MessageTranslation → Bool
is_translated m = not m.fuzzy && not (is_untranslated m)

or_fail : Option OptString → Result OptString
or_fail none = err assertion
or_fail (some s) = ok s

unfoldable pub msgstr_at : MessageTranslation → ℕ → Result OptString
unfolding or_fail
msgstr_at m index = or_fail (get_elem? m.msgstr index)

-- `IddiffMessage()` and `addMsgstr`.
abbrev pub empty_message : MessageTranslation
empty_message = record { plural = false; fuzzy = false; msgstr = [] }

unfoldable pub add_msgstr : MessageTranslation → OptString → MessageTranslation
add_msgstr m s = record m { msgstr = m.msgstr ++ s ∷ [] }

pub record Message : Type 0 where
  pub translation : MessageTranslation
  pub obsolete : Bool
  pub untranslated : Bool
  pub msgcomments : OptString
  pub index : Option ℕ
  pub filename : Text
  pub edited : Bool

unfoldable pub edit_fuzzy : Message → Bool → Message
edit_fuzzy m fuzzy =
    if bool_eq fuzzy m.translation.fuzzy
    then m
    else record m { translation = record (m.translation) { fuzzy = fuzzy }; edited = true }

-- A write in range.
unfoldable pub replace : List OptString → ℕ → OptString → List OptString
replace [] i s = []
replace (t ∷ ts) zero s = s ∷ ts
replace (t ∷ ts) (suc i) s = t ∷ replace ts i s

edit_slot : Message → ℕ → OptString → Option OptString → Result Message
edit_slot m index s none = err assertion
edit_slot m index s (some old) = do
  assert (not (is_null old))
  ok (
      if opt_eq old s then m else record m {
        translation = record (m.translation) { msgstr = replace m.translation.msgstr index s };
        edited = true;
      })

unfoldable pub edit_msgstr : Message → ℕ → OptString → Result Message
unfolding edit_slot
edit_msgstr m index s = edit_slot m index s (get_elem? m.translation.msgstr index)

unfoldable pub edit_msgcomments : Message → OptString → Message
edit_msgcomments m s =
    if opt_eq m.msgcomments s then m else record m { msgcomments = s; edited = true }

-- The loop of `copyTranslationsToMessage`, from form `i` on.
unfoldable pub copy_forms : Message → ℕ → List OptString → Result Message
copy_forms m i [] = ok m
copy_forms m i (s ∷ ss) = do edited ← edit_msgstr m i s; copy_forms edited (suc i) ss

unfoldable pub copy_translations_to_message : MessageTranslation → Message → Result Message
copy_translations_to_message t m = do
  assert (num_plurals t == num_plurals m.translation)
  copy_forms m 0 t.msgstr

pub msgstr_eq_iff : (ss ts : List OptString) → (msgstr_eq ss ts ≡ true) ↔ (ss ≡ ts)
unfolding msgstr_eq
msgstr_eq_iff [] [] = ground arith
msgstr_eq_iff [] (t ∷ ts) = ground arith
msgstr_eq_iff (s ∷ ss) [] = ground arith
msgstr_eq_iff (s ∷ ss) (t ∷ ts) = ground (arith, opt_eq_iff s t, msgstr_eq_iff ss ts)

-- `equalMsgstr` is true exactly where the two messages have the same list of strings, null or not.
pub equal_msgstr_iff :
    (m o : MessageTranslation) → (equal_msgstr m o ≡ true) ↔ (m.msgstr ≡ o.msgstr)
unfolding equal_msgstr
equal_msgstr_iff m o = ground (arith, msgstr_eq_iff m.msgstr o.msgstr)
