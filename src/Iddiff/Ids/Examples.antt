-- ===== src/Iddiff/Ids/Examples.antt =====
-- IDs replaced in one small set of reviews.
use stupid_ids.Base.{ℕ, ◌≡◌, ◌≢◌, false, [], ◌∷◌, none, some, ok, arith, refl}
use stupid_ids.Text.{string}
use stupid_ids.Iddiff.Map.{find}
use stupid_ids.Iddiff.Change.{Item, IddiffChange, empty}
use stupid_ids.Iddiff.{Items}
use stupid_ids.Iddiff.Ids.{substitute_msg_id, substitute_msg_id_moves}

abbrev item : Item
item = record {
  address = 1;
  message = record { plural = false; fuzzy = false; msgstr = string (65 ∷ []) ∷ [] };
}

abbrev change : IddiffChange
change = record { removed_items = []; added_items = item ∷ []; review_comment = none }

abbrev one_review : Items
one_review = (105, some change) ∷ []

abbrev two_reviews : Items
two_reviews = (103, some change) ∷ (105, some change) ∷ []

at_105 : find 105 one_review ≡ some (some change)
unfolding find
at_105 = refl

not_at_103 : find 103 one_review ≡ none
unfolding find
not_at_103 = refl

change_says : empty change ≡ false
unfolding empty
change_says = refl

substitute_msg_id_moves_example :
    (m' : Items) × (substitute_msg_id one_review 105 103 ≡ ok m')
    × (find 103 m' ≡ some (some change))
    × (find 105 m' ≡ none)
    × ((j : ℕ) → j ≢ 105 → j ≢ 103 → find j m' ≡ find j one_review)
substitute_msg_id_moves_example =
    substitute_msg_id_moves one_review 105 103 change (omega arith) at_105 change_says not_at_103
