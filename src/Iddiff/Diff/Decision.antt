-- ===== src/Iddiff/Diff/Decision.antt =====
-- The decision table of `diffFiles` of gettextpo-helper/gtpo/iddiff.cpp: what it decides.
use stupid_ids.Base.{
  ◌+◌, ◌≡◌, Bool, true, false, not, ◌&&◌, ◌||◌, some, ok, get_elem?, if◌then◌else◌, refl, sym, ◌∙◌,
  ap, Bool-cases, inl, inr,
}
use stupid_ids.Message.{Message, equal_msgstr, equal_msgstr_iff, all_empty}
use stupid_ids.Iddiff.Diff.{need_added, need_removed, bit, index_code, decided, decide}

-- A message as .po files have it: the flag says whether all strings are empty, and an empty
-- translation is not fuzzy.
pub record IsConsistent (a : Message) : Type 0 where
  pub untranslated_iff : a.untranslated ≡ all_empty a.translation.msgstr
  pub not_fuzzy : a.untranslated && a.translation.fuzzy ≡ false

-- What the comments of the code say, in words: a translation is REMOVED, ADDED.
abbrev pub to_remove : (empty_a empty_b equal fuzzy_a fuzzy_b : Bool) → Bool
to_remove empty_a empty_b equal fuzzy_a fuzzy_b =
    not empty_a && (if fuzzy_a then not equal && not fuzzy_b else not equal || fuzzy_b)

abbrev pub to_add : (empty_a empty_b equal fuzzy_a fuzzy_b : Bool) → Bool
to_add empty_a empty_b equal fuzzy_a fuzzy_b = not empty_b && not fuzzy_b && (not equal || fuzzy_a)

code_lem :
    (empty_a empty_b equal fuzzy_a fuzzy_b : Bool)
    → empty_a && fuzzy_a ≡ false
    → empty_b && fuzzy_b ≡ false
    → equal && (empty_a && not empty_b || not empty_a && empty_b) ≡ false
    → (get_elem? need_removed
          (bit empty_a 1 + bit empty_b 2 + bit equal 4 + bit fuzzy_a 8 + bit fuzzy_b 16)
        ≡ some (some (to_remove empty_a empty_b equal fuzzy_a fuzzy_b)))
      × (get_elem? need_added
            (bit empty_a 1 + bit empty_b 2 + bit equal 4 + bit fuzzy_a 8 + bit fuzzy_b 16)
          ≡ some (some (to_add empty_a empty_b equal fuzzy_a fuzzy_b)))
unfolding need_removed need_added
code_lem false false false false false p q r = (refl, refl)
code_lem false false false false true p q r = (refl, refl)
code_lem false false false true false p q r = (refl, refl)
code_lem false false false true true p q r = (refl, refl)
code_lem false false true false false p q r = (refl, refl)
code_lem false false true false true p q r = (refl, refl)
code_lem false false true true false p q r = (refl, refl)
code_lem false false true true true p q r = (refl, refl)
code_lem false true false false false p q r = (refl, refl)
code_lem false true false false true p q r = absurd cc
code_lem false true false true false p q r = (refl, refl)
code_lem false true false true true p q r = absurd cc
code_lem false true true false false p q r = absurd cc
code_lem false true true false true p q r = absurd cc
code_lem false true true true false p q r = absurd cc
code_lem false true true true true p q r = absurd cc
code_lem true false false false false p q r = (refl, refl)
code_lem true false false false true p q r = (refl, refl)
code_lem true false false true false p q r = absurd cc
code_lem true false false true true p q r = absurd cc
code_lem true false true false false p q r = absurd cc
code_lem true false true false true p q r = absurd cc
code_lem true false true true false p q r = absurd cc
code_lem true false true true true p q r = absurd cc
code_lem true true false false false p q r = (refl, refl)
code_lem true true false false true p q r = absurd cc
code_lem true true false true false p q r = absurd cc
code_lem true true false true true p q r = absurd cc
code_lem true true true false false p q r = (refl, refl)
code_lem true true true false true p q r = absurd cc
code_lem true true true true false p q r = absurd cc
code_lem true true true true true p q r = absurd cc

-- Equal translations are both empty or both not.
equal_empty :
    (a b : Message)
    → IsConsistent a
    → IsConsistent b
    → equal_msgstr a.translation b.translation
        && (a.untranslated && not b.untranslated || not a.untranslated && b.untranslated)
      ≡ false
equal_empty a b u v = elim (Bool-cases (equal_msgstr a.translation b.translation)) [
  | inl e ↦
      let same : a.untranslated ≡ b.untranslated =
        u.untranslated_iff
        ∙ ap all_empty ((equal_msgstr_iff a.translation b.translation).0 e)
        ∙ sym v.untranslated_iff in
      rw (e, same) (opposite b.untranslated)
  | inr e ↦ rw e
]
  where
    opposite : (c : Bool) → c && not c || not c && c ≡ false
    opposite true = refl
    opposite false = refl

-- For two messages as .po files have them no assert of the table fails, and what is REMOVED and
-- what is ADDED is what the comments at the table say.
pub decide_lem :
    (a b : Message)
    → IsConsistent a
    → IsConsistent b
    → decide a b
      ≡ ok (
        to_remove a.untranslated b.untranslated
            (equal_msgstr a.translation b.translation)
            a.translation.fuzzy
            b.translation.fuzzy,
        to_add a.untranslated b.untranslated
            (equal_msgstr a.translation b.translation)
            a.translation.fuzzy
            b.translation.fuzzy,
      )
unfolding decide index_code decided
decide_lem a b u v =
    let (r, s) =
      code_lem a.untranslated b.untranslated (equal_msgstr a.translation b.translation)
        a.translation.fuzzy b.translation.fuzzy u.not_fuzzy v.not_fuzzy (equal_empty a b u v) in
    rw (r, s)
