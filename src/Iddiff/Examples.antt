-- ===== src/Iddiff/Examples.antt =====
-- The theorems on gettextpo-helper/gtpo/iddiff.cpp at one small set of reviews.
use stupid_ids.Base.{
  ℕ, ◌≡◌, ◌≢◌, ◌⊎◌, inl, inr, ◌||◌, All, [], ◌∷◌, true, false, none, some, ok, err, assertion,
  arith, refl, sym,
}
use stupid_ids.Text.{string, text_eq, opt_eq}
use stupid_ids.Message.{MessageTranslation, equal_msgstr, msgstr_eq}
use stupid_ids.Iddiff.Map.{find, put}
use stupid_ids.Iddiff.Change.{Item, IddiffChange}
use stupid_ids.Iddiff.{Items, insert_added, accept_translation, reject_translation, find_in_list}
use stupid_ids.Iddiff.View.{
  removed_at, added_at, has, HasAddress, IsWellFormed, Becomes, Becomes-IsWellFormed, put-Becomes,
}
use stupid_ids.Iddiff.Outcome.{Reviewed, has_other, insert_added-Reviewed}
use stupid_ids.Iddiff.Review.{reject_translation-Reviewed}
use stupid_ids.Iddiff.Accept.{accept_translation-Reviewed, accept_translation_aborts}

abbrev pub text : ℕ → MessageTranslation
text c = record { plural = false; fuzzy = false; msgstr = string (c ∷ []) ∷ [] }

-- 103 has one translation ADDED and one REMOVED.
abbrev added_item : Item
added_item = record { address = 1; message = text 65 }

abbrev removed_item : Item
removed_item = record { address = 2; message = text 66 }

abbrev pub change : IddiffChange
change = record {
  removed_items = removed_item ∷ [];
  added_items = added_item ∷ [];
  review_comment = none;
}

abbrev pub reviews : Items
reviews = put 103 (some change) []

pub nothing-IsWellFormed : IsWellFormed []
unfolding find
nothing-IsWellFormed = record {
  live = λ k h. cc;
  sound = λ k. record { one = omega arith; disjoint = tt; distinct = tt };
}

pub reviews-Becomes : Becomes [] 103 (removed_item ∷ []) (added_item ∷ []) none reviews
reviews-Becomes = put-Becomes [] 103 change

texts_differ : equal_msgstr (text 66) (text 65) ≡ false
unfolding equal_msgstr msgstr_eq opt_eq text_eq
texts_differ = refl

pub reviews-IsWellFormed : IsWellFormed reviews
unfolding find_in_list
reviews-IsWellFormed =
    Becomes-IsWellFormed nothing-IsWellFormed reviews-Becomes (record {
      one = omega arith;
      disjoint = (rw texts_differ, tt);
      distinct = (refl, λ h. h, tt);
    })

fresh_in_removed : (a : ℕ) → a ≢ 2 → ¬ HasAddress a (removed_at reviews 103)
fresh_in_removed a n =
    rw reviews-Becomes.now_removed (λ h. elim h [ inl e ↦ n (sym e) | inr z ↦ absurd z ])

texts_differ' : equal_msgstr (text 65) (text 66) ≡ false
unfolding equal_msgstr msgstr_eq opt_eq text_eq
texts_differ' = refl

none_at_104 : All (λ a. equal_msgstr a.message (text 65) ≡ true) (added_at reviews 104)
unfolding find put
none_at_104 = tt

abbrev new_item : Item
new_item = record { address = 3; message = text 67 }

insert_added-Reviewed_example :
    ((has (removed_at reviews 103) (text 67) || has_other (added_at reviews 103) (text 67) ≡ true)
      × (insert_added reviews 103 new_item ≡ err assertion))
    ⊎ ((has (removed_at reviews 103) (text 67) || has_other (added_at reviews 103) (text 67)
          ≡ false)
        × (m' : Items) × (insert_added reviews 103 new_item ≡ ok m')
        × Reviewed reviews 103 (text 67) true m')
insert_added-Reviewed_example = insert_added-Reviewed reviews-IsWellFormed 103 new_item

reject_translation-Reviewed_example :
    (m' : Items) × (reject_translation 3 reviews 103 (text 65) ≡ ok m')
    × Reviewed reviews 103 (text 65) false m'
reject_translation-Reviewed_example =
    reject_translation-Reviewed reviews-IsWellFormed 103 (text 65) (omega arith) 3
      (fresh_in_removed 3 (omega arith))

accept_translation-Reviewed_example :
    (m' : Items) × (accept_translation 3 4 reviews 104 (text 65) ≡ ok m')
    × Reviewed reviews 104 (text 65) true m'
accept_translation-Reviewed_example =
    accept_translation-Reviewed reviews-IsWellFormed 104 (text 65) (omega arith) 3 4 none_at_104

-- 66 was rejected; to accept it now aborts the program, since 65 is still ADDED.
accept_translation_aborts_example : accept_translation 3 4 reviews 103 (text 66) ≡ err assertion
accept_translation_aborts_example =
    accept_translation_aborts reviews-IsWellFormed 103 (text 66) (omega arith) 3 4 added_item
      reviews-Becomes.now_added texts_differ'
