-- ===== src/Iddiff/Merge.antt =====
-- Merging and filtering sets of translations: the last part of gettextpo-helper/gtpo/iddiff.cpp. A
-- whole .iddiff has a header besides its entries. `fresh` is the next address that `new` returns.
pub mod Says
pub mod Whole
pub mod Filter
mod Examples
use stupid_ids.Base.{
  ℕ, ◌+◌, Bool, true, false, not, ◌&&◌, ◌||◌, List, [], ◌∷◌, ◌++◌, Option, none, some, Result, ok,
  err, assert, ◌>>=◌, ◌>>◌, length, if◌then◌else◌,
}
use stupid_ids.Text.{Text, OptString, null, string, to_string, text_lt, text_eq}
use stupid_ids.Date.{FileDateTime, is_null, date_gt}
use stupid_ids.Message.{MessageTranslation, add_msgstr, empty_message}
use stupid_ids.Iddiff.Change.{Item, is_none, is_empty}
use stupid_ids.Iddiff.{
  Items, insert_removed, insert_added, insert_review, find_removed_item, find_added_item,
  find_added_single, erase_added_item,
}
use stupid_ids.Iddiff.Vectors.{get_removed_vector, get_added_vector, get_review_vector}

pub record Iddiff : Type 0 where
  pub subject : Text
  pub authors : List Text
  pub date : FileDateTime
  pub items : Items
  pub minimized_ids : Bool

-- `sort_uniq` on strings.
insert_text : Text → List Text → List Text
insert_text s [] = s ∷ []
insert_text s (t ∷ ts) = if text_lt s t then s ∷ t ∷ ts else t ∷ insert_text s ts

sort_texts : List Text → List Text
sort_texts [] = []
sort_texts (s ∷ ss) = insert_text s (sort_texts ss)

unique_texts : List Text → List Text
unique_texts [] = []
unique_texts (s ∷ []) = s ∷ []
unique_texts (s ∷ t ∷ ts) = if text_eq s t then unique_texts (t ∷ ts) else s ∷ unique_texts (t ∷ ts)

pub sort_uniq_texts : List Text → List Text
sort_uniq_texts ss = unique_texts (sort_texts ss)

-- The later date, and all authors.
pub merge_headers : Iddiff → Iddiff → Iddiff
merge_headers d o = record d {
  date = if is_null d.date || date_gt o.date d.date then o.date else d.date;
  authors = sort_uniq_texts (d.authors ++ o.authors);
}

abbrev clone : ℕ → Item → Item
clone fresh item = record { address = fresh; message = item.message }

-- The loops over insertRemovedClone, insertAddedClone and insertReviewClone.
pub insert_removed_clones : ℕ → Items → List (ℕ × Item) → Result Items
insert_removed_clones fresh m [] = ok m
insert_removed_clones fresh m ((msg_id, item) ∷ others) = do
  m' ← insert_removed m msg_id (clone fresh item)
  insert_removed_clones (fresh + 1) m' others

pub insert_added_clones : ℕ → Items → List (ℕ × Item) → Result Items
insert_added_clones fresh m [] = ok m
insert_added_clones fresh m ((msg_id, item) ∷ others) = do
  m' ← insert_added m msg_id (clone fresh item)
  insert_added_clones (fresh + 1) m' others

pub insert_review_clones : ℕ → Items → List (ℕ × Item) → Result Items
insert_review_clones fresh m [] = ok m
insert_review_clones fresh m ((msg_id, item) ∷ others) = do
  m' ← insert_review m msg_id (clone fresh item)
  insert_review_clones (fresh + 1) m' others

pub merge_items : ℕ → Items → (removed added review : List (ℕ × Item)) → Result Items
merge_items fresh m removed added review = do
  m1 ← insert_removed_clones fresh m removed
  m2 ← insert_added_clones (fresh + length removed) m1 added
  insert_review_clones (fresh + length removed + length added) m2 review

pub merge : ℕ → Iddiff → Iddiff → Result Iddiff
merge fresh d o = do
  removed ← get_removed_vector o.items
  added ← get_added_vector o.items
  review ← get_review_vector o.items
  m ← merge_items fresh d.items removed added review
  ok (merge_headers (record d { items = m }) o)

-- The items that the filter does not have.
pub not_removed_in : Items → List (ℕ × Item) → Result (List (ℕ × Item))
not_removed_in filter [] = ok []
not_removed_in filter ((msg_id, item) ∷ others) = do
  found ← find_removed_item filter msg_id item.message
  rest ← not_removed_in filter others
  ok (if is_none found then (msg_id, item) ∷ rest else rest)

pub not_added_in : Items → List (ℕ × Item) → Result (List (ℕ × Item))
not_added_in filter [] = ok []
not_added_in filter ((msg_id, item) ∷ others) = do
  found ← find_added_item filter msg_id item.message
  rest ← not_added_in filter others
  ok (if is_none found then (msg_id, item) ∷ rest else rest)

-- The filter does not change meanwhile.
pub filter_trusted_iddiff : ℕ → Iddiff → (filter input_diff : Iddiff) → Result Iddiff
filter_trusted_iddiff fresh d filter input_diff = do
  review ← get_review_vector input_diff.items
  assert (is_empty review)
  other_removed ← get_removed_vector input_diff.items
  other_added ← get_added_vector input_diff.items
  removed ← not_removed_in filter.items other_removed
  m ← insert_removed_clones fresh d.items removed
  added ← not_added_in filter.items other_added
  m' ← insert_added_clones (fresh + length removed) m added
  ok (merge_headers (record d { items = m' }) input_diff)

-- `std::string(message->msgstr(i))` for each form; a null string throws.
unfoldable pub strings_of : List OptString → Result (List Text)
strings_of [] = ok []
strings_of (s ∷ ss) = do t ← to_string s; ts ← strings_of ss; ok (t ∷ ts)

pub add_msgstrs : MessageTranslation → List Text → MessageTranslation
add_msgstrs message [] = message
add_msgstrs message (t ∷ ts) = add_msgstrs (add_msgstr message (string t)) ts

-- The comments of both messages, in order, each once.
merge_comments : ℕ → Items → ℕ → Item → Option Item → Result Items
merge_comments fresh m msg_id item none = insert_added m msg_id (clone fresh item)
merge_comments fresh m msg_id item (some prev) = do
  comments ← strings_of item.message.msgstr
  prev_comments ← strings_of prev.message.msgstr
  let message = add_msgstrs empty_message (sort_uniq_texts (comments ++ prev_comments))
  m' ← erase_added_item m msg_id prev.address
  insert_added m' msg_id (record { address = fresh; message = message })

pub merge_all_comments : ℕ → Items → List (ℕ × Item) → Result Items
merge_all_comments fresh m [] = ok m
merge_all_comments fresh m ((msg_id, item) ∷ others) = do
  prev ← find_added_single m msg_id
  m' ← merge_comments fresh m msg_id item prev
  merge_all_comments (fresh + 1) m' others

pub merge_tr_comments : ℕ → Iddiff → Iddiff → Result Iddiff
merge_tr_comments fresh d o = do
  review ← get_review_vector o.items
  assert (is_empty review)
  other_removed ← get_removed_vector o.items
  other_added ← get_added_vector o.items
  assert (is_empty other_removed)
  m ← merge_all_comments fresh d.items other_added
  ok (merge_headers (record d { items = m }) o)
