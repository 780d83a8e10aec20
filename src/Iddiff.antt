-- ===== src/Iddiff.antt =====
-- gettextpo-helper/gtpo/iddiff.cpp: a set of accepted, rejected and commented translations, by
-- message ID. The children hold the map, the entries, and what is proved.
pub mod Map
pub mod Change
pub mod View
pub mod Insert
pub mod Erase
pub mod Review
pub mod Accept
pub mod Diff
pub mod Apply
pub mod Ids
pub mod Vectors
pub mod Outcome
pub mod Merge
pub mod Comments
pub mod File
mod Examples
use stupid_ids.Base.{
  ℕ, ◌≡◌, ◌≤◌, Bool, true, false, not, ◌&&◌, ◌||◌, List, [], ◌∷◌, ◌++◌, Option, none, some, Result,
  ok, err, exception, null_pointer, assertion, assert, ◌>>=◌, ◌>>◌, ◌==◌, leb, if◌then◌else◌, arith,
  refl, length,
}
use stupid_ids.Text.{Text, OptString, null}
use stupid_ids.Message.{MessageTranslation, equal_msgstr, is_translated, msgstr_at}
use Map.{find, put, erase}
use Change.{
  Item, IddiffChange, new_change, is_empty, is_none, empty_removed, empty_added, empty_review,
  empty, clear_review, erase_removed, erase_added,
}

abbrev pub Items : Type 0
Items = List (ℕ × Option IddiffChange)

-- The entry of `msg_id`, after `if (!m_items[msg_id]) m_items[msg_id] = new IddiffChange();`
pub entry_or_new : ℕ → Items → IddiffChange
entry_or_new msg_id m = elim (find msg_id m) [
  | none ↦ new_change
  | some none ↦ new_change
  | some (some c) ↦ c
]

-- A pointer that is read.
abbrev pub deref : Option IddiffChange → Result IddiffChange
deref none = err null_pointer
deref (some c) = ok c

pub find_removed : Items → ℕ → Result (List Item)
find_removed m msg_id = elim (find msg_id m) [
  | none ↦ ok []
  | some p ↦ do c ← deref p; ok (if not (empty_removed c) then c.removed_items else [])
]

pub find_added : Items → ℕ → Result (List Item)
find_added m msg_id = elim (find msg_id m) [
  | none ↦ ok []
  | some p ↦ do c ← deref p; ok (if not (empty_added c) then c.added_items else [])
]

-- The first item with the same translations.
pub find_in_list : List Item → MessageTranslation → Option Item
find_in_list [] message = none
find_in_list (x ∷ xs) message =
    if equal_msgstr x.message message then some x else find_in_list xs message

pub find_removed_item : Items → ℕ → MessageTranslation → Result (Option Item)
find_removed_item m msg_id message = do list ← find_removed m msg_id; ok (find_in_list list message)

pub find_added_item : Items → ℕ → MessageTranslation → Result (Option Item)
find_added_item m msg_id message = do list ← find_added m msg_id; ok (find_in_list list message)

-- assert(arr.size() <= 1); return arr.size() == 1 ? arr[0] : NULL;
pub single : List Item → Result (Option Item)
single [] = ok none
single (x ∷ []) = ok (some x)
single (x ∷ y ∷ rest) = err assertion

pub find_added_single : Items → ℕ → Result (Option Item)
find_added_single m msg_id = do arr ← find_added m msg_id; single arr

pub find_removed_single : Items → ℕ → Result (Option Item)
find_removed_single m msg_id = do arr ← find_removed m msg_id; single arr

push_removed : Items → ℕ → Item → Items
push_removed m msg_id item =
    let c = entry_or_new msg_id m in
    put msg_id (some (record c { removed_items = c.removed_items ++ item ∷ [] })) m

push_added : Items → ℕ → Item → Items
push_added m msg_id item =
    let c = entry_or_new msg_id m in
    put msg_id (some (record c { added_items = c.added_items ++ item ∷ [] })) m

pub insert_removed : Items → ℕ → Item → Result Items
insert_removed m msg_id item = do
  duplicate ← find_removed_item m msg_id item.message
  if not (is_none duplicate) then ok m else (do
    conflict ← find_added_item m msg_id item.message
    assert (is_none conflict)
    ok (push_removed m msg_id item))

-- The loop over ADDED: it ends at the first item, which is a duplicate or a conflict.
check_added : Items → ℕ → Item → List Item → Result Items
check_added m msg_id item [] = ok (push_added m msg_id item)
check_added m msg_id item (x ∷ xs) =
    if equal_msgstr x.message item.message then ok m else err assertion

pub insert_added : Items → ℕ → Item → Result Items
insert_added m msg_id item = do
  conflict ← find_removed_item m msg_id item.message
  assert (is_none conflict)
  added_this_id ← find_added m msg_id
  check_added m msg_id item added_this_id

pub insert_review : Items → ℕ → Item → Result Items
insert_review m msg_id item = do
  let c = entry_or_new msg_id m
  assert (empty_review c)
  assert (is_translated item.message)
  ok (put msg_id (some (record c { review_comment = some item })) m)

pub clear_empty_message_data : Items → ℕ → Result Items
clear_empty_message_data m msg_id = elim (find msg_id m) [
  | none ↦ ok m
  | some p ↦ do c ← deref p; ok (if empty c then erase msg_id m else m)
]

-- eraseRemoved and eraseAdded of class Iddiff; `item` is a pointer.
pub erase_removed_item : Items → ℕ → ℕ → Result Items
erase_removed_item m msg_id item = elim (find msg_id m) [
  | none ↦ err assertion
  | some p ↦ do
    c ← deref p
    c' ← erase_removed c item
    clear_empty_message_data (put msg_id (some c') m) msg_id
]

pub erase_added_item : Items → ℕ → ℕ → Result Items
erase_added_item m msg_id item = elim (find msg_id m) [
  | none ↦ err assertion
  | some p ↦ do
    c ← deref p
    c' ← erase_added c item
    clear_empty_message_data (put msg_id (some c') m) msg_id
]

-- `fresh` is the address that `new IddiffMessage(*item)` returns.
reject_added : Items → ℕ → MessageTranslation → Option Item → Result Items
reject_added m msg_id message none = ok m
reject_added m msg_id message (some added) =
    if equal_msgstr added.message message then erase_added_item m msg_id added.address else ok m

pub reject_translation : ℕ → Items → ℕ → MessageTranslation → Result Items
reject_translation fresh m msg_id message = do
  assert (not (msg_id == 0))
  added ← find_added_single m msg_id
  m' ← reject_added m msg_id message added
  removed ← find_removed_item m' msg_id message
  if is_none removed
      then insert_removed m' msg_id (record { address = fresh; message = message })
      else ok m'

accept_removed : Items → ℕ → Option Item → Result Items
accept_removed m msg_id none = ok m
accept_removed m msg_id (some removed) = erase_removed_item m msg_id removed.address

accept_added : ℕ → ℕ → Items → ℕ → MessageTranslation → Option Item → Result Items
accept_added fresh fresh' m msg_id message none =
    insert_added m msg_id (record { address = fresh; message = message })
accept_added fresh fresh' m msg_id message (some added) =
    if not (equal_msgstr added.message message)
    then (do
      m' ← insert_added m msg_id (record { address = fresh; message = message })
      reject_translation fresh' m' msg_id added.message)
    else ok m

pub accept_translation : ℕ → ℕ → Items → ℕ → MessageTranslation → Result Items
accept_translation fresh fresh' m msg_id message = do
  assert (not (msg_id == 0))
  removed ← find_removed_item m msg_id message
  m' ← accept_removed m msg_id removed
  added ← find_added_single m' msg_id
  accept_added fresh fresh' m' msg_id message added

pub is_accept_already_reviewed : Items → ℕ → MessageTranslation → Result Bool
is_accept_already_reviewed m msg_id message = do
  found ← find_added_item m msg_id message
  ok (not (is_none found))

pub is_reject_already_reviewed : Items → ℕ → MessageTranslation → Result Bool
is_reject_already_reviewed m msg_id message = do
  found ← find_removed_item m msg_id message
  ok (not (is_none found))
