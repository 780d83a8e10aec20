-- ===== src/Iddiff/Change.antt =====
-- gettextpo-helper/gtpo/iddiffchange.cpp: what an .iddiff says of one message ID. An item is a
-- pointer and the translation that it points to, which does not change once it is in a list.
use stupid_ids.Base.{
  ℕ, Bool, true, false, ◌&&◌, List, [], ◌∷◌, Option, none, some, Result, ok, err, exception, ◌>>=◌,
  ◌==◌, if◌then◌else◌,
}
use stupid_ids.Message.{MessageTranslation}

pub record Item : Type 0 where
  pub address : ℕ
  pub message : MessageTranslation

pub record IddiffChange : Type 0 where
  pub removed_items : List Item
  pub added_items : List Item
  pub review_comment : Option Item

abbrev pub new_change : IddiffChange
new_change = record { removed_items = []; added_items = []; review_comment = none }

abbrev pub is_empty {ℓ} : {A : Type ℓ} → List A → Bool
is_empty [] = true
is_empty (x ∷ xs) = false

abbrev pub is_none {ℓ} : {A : Type ℓ} → Option A → Bool
is_none none = true
is_none (some a) = false

abbrev pub empty_removed : IddiffChange → Bool
empty_removed c = is_empty c.removed_items

abbrev pub empty_added : IddiffChange → Bool
empty_added c = is_empty c.added_items

abbrev pub empty_review : IddiffChange → Bool
empty_review c = is_none c.review_comment

unfoldable pub empty : IddiffChange → Bool
empty c = empty_review c && (empty_added c && empty_removed c)

abbrev pub clear_review : IddiffChange → IddiffChange
clear_review c = record c { review_comment = none }

abbrev prepend_item : Item → Result (List Item) → Result (List Item)
prepend_item x (ok xs) = ok (x ∷ xs)
prepend_item x (err e) = err e

-- The first item with the pointer; comparison by pointer, not by translations.
unfoldable pub erase_item : List Item → ℕ → Result (List Item)
erase_item [] address = err exception
erase_item (x ∷ xs) address =
    if x.address == address then ok xs else prepend_item x (erase_item xs address)

unfoldable pub erase_removed : IddiffChange → ℕ → Result IddiffChange
erase_removed c address = do
  rest ← erase_item c.removed_items address
  ok (record c { removed_items = rest })

unfoldable pub erase_added : IddiffChange → ℕ → Result IddiffChange
erase_added c address = do
  rest ← erase_item c.added_items address
  ok (record c { added_items = rest })
