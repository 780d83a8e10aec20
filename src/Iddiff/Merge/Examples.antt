-- ===== src/Iddiff/Merge/Examples.antt =====
-- Two small sets of translations of gettextpo-helper/gtpo/iddiff.cpp, merged and filtered.
use stupid_ids.Base.{
  ℕ, ◌≡◌, true, not, ◌&&◌, ◌||◌, inl, inr, [], ◌∷◌, none, some, ok, arith, refl, subst, Bool-cases,
  ◌==◌,
}
use stupid_ids.Base.Int.{pos}
use stupid_ids.Date.{of_git_time}
use stupid_ids.Text.{text_eq, text_lt, opt_eq}
use stupid_ids.Message.{MessageTranslation, equal_msgstr, msgstr_eq, is_translated}
use stupid_ids.Iddiff.Map.{find, put}
use stupid_ids.Iddiff.Change.{IddiffChange}
use stupid_ids.Iddiff.{
  Items, insert_removed, insert_added, insert_review, find_in_list, find_removed_item,
  find_added_item, find_removed, find_added, entry_or_new, push_removed, push_added, check_added,
}
use stupid_ids.Iddiff.View.{removed_at, added_at, has, HasAddress, IsWellFormed}
use stupid_ids.Iddiff.Vectors.{get_removed_vector, get_added_vector, get_review_vector}
use stupid_ids.Iddiff.Examples.{
  text, change, reviews, reviews-Becomes, nothing-IsWellFormed, reviews-IsWellFormed,
}
use stupid_ids.Iddiff.Merge.{
  Iddiff, insert_text, sort_texts, unique_texts, sort_uniq_texts, merge_headers,
  insert_removed_clones, insert_added_clones, insert_review_clones, merge_items, merge,
  not_removed_in, not_added_in, filter_trusted_iddiff,
}
use stupid_ids.Iddiff.Merge.Says.{AreBelow}
use stupid_ids.Iddiff.Merge.Whole.{HasUniqueKeys, merge-Extends}
use stupid_ids.Iddiff.Merge.Filter.{filter_trusted_iddiff-Extends}

abbrev with_items : Items → ℕ → Iddiff
with_items m time = record {
  subject = [];
  authors = (65 ∷ []) ∷ [];
  date = of_git_time (pos time);
  items = m;
  minimized_ids = true;
}

abbrev rejected : IddiffChange
rejected = record {
  removed_items = record { address = 7; message = text 67 } ∷ [];
  added_items = [];
  review_comment = none;
}

abbrev accepted : IddiffChange
accepted = record {
  removed_items = [];
  added_items = record { address = 8; message = text 68 } ∷ [];
  review_comment = none;
}

-- 103 has one more translation REMOVED, and 104 has one ADDED.
abbrev other_reviews : Items
other_reviews = (103, some rejected) ∷ (104, some accepted) ∷ []

abbrev both_at_103 : IddiffChange
both_at_103 = record change {
  removed_items =
      record { address = 2; message = text 66 } ∷ record { address = 10; message = text 67 } ∷ [];
}

abbrev new_at_104 : IddiffChange
new_at_104 = record accepted { added_items = record { address = 11; message = text 68 } ∷ [] }

abbrev merged : Items
merged = (103, some both_at_103) ∷ (104, some new_at_104) ∷ []

reviews_below : AreBelow 10 reviews
unfolding find
reviews_below k a h = elim (Bool-cases (k == 103)) [
  | inl e ↦
      let same : k ≡ 103 = ground arith in
      let there : HasAddress a (removed_at reviews 103) =
        subst (λ i. HasAddress a (removed_at reviews i)) same h in
      let there' = subst (HasAddress a) reviews-Becomes.now_removed there in
      elim there' [ inl p ↦ omega arith | inr z ↦ absurd z ]
  | inr e ↦ let none_there = reviews-Becomes.others k (ground arith) in absurd (rw none_there at h)
]

other-HasUniqueKeys : HasUniqueKeys other_reviews
unfolding find
other-HasUniqueKeys = (refl, (refl, tt))

merges : merge 10 (with_items reviews 5) (with_items other_reviews 6) ≡ ok (with_items merged 6)
unfolding merge merge_headers sort_uniq_texts unique_texts sort_texts insert_text merge_items
    insert_removed_clones insert_added_clones insert_review_clones insert_removed insert_added
    insert_review find_in_list get_removed_vector get_added_vector get_review_vector find put
    text_eq text_lt opt_eq equal_msgstr msgstr_eq is_translated find_removed_item find_added_item
    find_removed find_added entry_or_new push_removed push_added check_added
merges = refl

merge-Extends_example :
    IsWellFormed merged
    × ((j : ℕ) (t : MessageTranslation)
        → has (removed_at merged j) t
          ≡ (has (removed_at reviews j) t || has (removed_at other_reviews j) t))
    × ((j : ℕ) (t : MessageTranslation)
        → has (added_at merged j) t
          ≡ (has (added_at reviews j) t || has (added_at other_reviews j) t))
merge-Extends_example =
    merge-Extends 10 (with_items reviews 5) (with_items other_reviews 6) reviews-IsWellFormed
      reviews_below other-HasUniqueKeys merges

-- The filter has one of the two translations of the input.
abbrev input_items : Items
input_items =
    (103, some (record rejected { removed_items = record { address = 7; message = text 66 } ∷ [] }))
    ∷ (104, some accepted)
    ∷ []

abbrev filtered : Items
filtered =
    (104, some (record accepted { added_items = record { address = 10; message = text 68 } ∷ [] }))
    ∷ []

input-HasUniqueKeys : HasUniqueKeys input_items
unfolding find
input-HasUniqueKeys = (refl, (refl, tt))

nothing_below : AreBelow 10 []
unfolding find
nothing_below k a h = absurd h

filters :
    filter_trusted_iddiff 10 (with_items [] 5) (with_items reviews 5) (with_items input_items 6)
    ≡ ok (with_items filtered 6)
unfolding filter_trusted_iddiff not_removed_in not_added_in merge_headers sort_uniq_texts
    unique_texts sort_texts insert_text insert_removed_clones insert_added_clones insert_removed
    insert_added find_in_list get_removed_vector get_added_vector get_review_vector find put text_eq
    text_lt opt_eq equal_msgstr msgstr_eq is_translated find_removed_item find_added_item
    find_removed find_added entry_or_new push_removed push_added check_added
filters = refl

filter_trusted_iddiff-Extends_example :
    IsWellFormed filtered
    × ((j : ℕ) (t : MessageTranslation)
        → has (removed_at filtered j) t ≡ (
            has (removed_at [] j) t
            || (has (removed_at input_items j) t && not (has (removed_at reviews j) t))))
    × ((j : ℕ) (t : MessageTranslation)
        → has (added_at filtered j) t ≡ (
            has (added_at [] j) t
            || (has (added_at input_items j) t && not (has (added_at reviews j) t))))
filter_trusted_iddiff-Extends_example =
    filter_trusted_iddiff-Extends 10 (with_items [] 5) (with_items reviews 5)
      (with_items input_items 6) nothing-IsWellFormed reviews-IsWellFormed nothing_below
      input-HasUniqueKeys filters
