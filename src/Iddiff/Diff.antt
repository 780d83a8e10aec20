-- ===== src/Iddiff/Diff.antt =====
-- `diffFiles` and `diffAgainstEmpty` of gettextpo-helper/gtpo/iddiff.cpp: what is ADDED and REMOVED
-- between two versions of a translation.
pub mod Decision
pub mod Files
mod Examples
use stupid_ids.Base.{
  ℕ, ◌+◌, ◌≡◌, Bool, true, false, not, ◌&&◌, ◌||◌, List, [], ◌∷◌, Option, none, some, Result, ok,
  err, assertion, uninitialised, assert, ◌>>=◌, ◌>>◌, get_elem?, if◌then◌else◌, refl, ltb, ◌==◌,
}
use stupid_ids.Message.{
  MessageTranslation, Message, equal_msgstr, all_empty, msgstr_eq, num_plurals,
}
use stupid_ids.Text.{Text, text_eq}
use stupid_ids.Iddiff.Change.{Item}
use stupid_ids.Iddiff.{Items, insert_removed, insert_added}

-- FORMAT_IDDIFF_BITARRAY; `none` is -1.
abbrev iddiff_bitarray :
    (p1 p2 p3 p4 p5 p6 p7 p8 p9 p10 p11 p12 p13 p14 : Bool) → List (Option Bool)
iddiff_bitarray p1 p2 p3 p4 p5 p6 p7 p8 p9 p10 p11 p12 p13 p14 =
    some p1
    ∷ some p2
    ∷ some p3
    ∷ some p4
    ∷ some p5
    ∷ none
    ∷ none
    ∷ some p6
    ∷ some p7
    ∷ none
    ∷ some p8
    ∷ none
    ∷ some p9
    ∷ none
    ∷ none
    ∷ none
    ∷ some p10
    ∷ some p11
    ∷ none
    ∷ none
    ∷ some p12
    ∷ none
    ∷ none
    ∷ none
    ∷ some p13
    ∷ none
    ∷ none
    ∷ none
    ∷ some p14
    ∷ none
    ∷ none
    ∷ none
    ∷ []

pub need_added : List (Option Bool)
need_added =
    iddiff_bitarray true true false false false false true false true false false false false false

pub need_removed : List (Option Bool)
need_removed =
    iddiff_bitarray true false true false false false true true false true false true false false

abbrev bit : Bool → ℕ → ℕ
bit false value = 0
bit true value = value

pub index_code : (a b : Message) → ℕ
index_code a b =
    bit a.untranslated 1
    + bit b.untranslated 2
    + bit (equal_msgstr a.translation b.translation) 4
    + bit a.translation.fuzzy 8
    + bit b.translation.fuzzy 16

-- The asserts on the index and on -1.
decided : Option (Option Bool) → Result Bool
decided none = err assertion
decided (some none) = err assertion
decided (some (some needed)) = ok needed

-- What is needed: REMOVED, ADDED.
pub decide : (a b : Message) → Result (Bool × Bool)
decide a b = do
  removed ← decided (get_elem? need_removed (index_code a b))
  added ← decided (get_elem? need_added (index_code a b))
  ok (removed, added)

insert_removed_if : Bool → Items → ℕ → Item → Result Items
insert_removed_if false m msg_id item = ok m
insert_removed_if true m msg_id item = insert_removed m msg_id item

insert_added_if : Bool → Items → ℕ → Item → Result Items
insert_added_if false m msg_id item = ok m
insert_added_if true m msg_id item = insert_added m msg_id item

-- One round of the loop. `fresh` is the address of the first new message, the next one follows.
pub diff_message : (fresh : ℕ) → Items → ℕ → (a b : Message) → Result Items
diff_message fresh m msg_id a b = do
  needed ← decide a b
  m' ← insert_removed_if needed.0 m msg_id (record { address = fresh; message = a.translation })
  insert_added_if needed.1 m' msg_id (record { address = fresh + 1; message = b.translation })

-- From the message `msg_id` on. The second file has to have as many messages.
pub diff_messages : (fresh : ℕ) → Items → ℕ → (messages_a messages_b : List Message) → Result Items
diff_messages fresh m msg_id [] messages_b = ok m
diff_messages fresh m msg_id (a ∷ messages_a) [] = err uninitialised
diff_messages fresh m msg_id (a ∷ messages_a) (b ∷ messages_b) = do
  m' ← diff_message fresh m msg_id a b
  diff_messages (fresh + 2) m' (msg_id + 1) messages_a messages_b

-- `assert(first_id > 0)`; `none` is the answer (-1, -1).
pub first_id_of : Option (ℕ × ℕ) → Result ℕ
first_id_of none = err assertion
first_id_of (some (first_id, count)) = assert (ltb 0 first_id) >> ok first_id

-- The map is emptied first. `ask` is the client's request for the first ID of a template. The date and
-- the authors are not in the map.
pub diff_files :
    (ask : Text → Option (ℕ × ℕ)) (fresh : ℕ) (hash_a hash_b : Text)
    (messages_a messages_b : List Message)
    → Result Items
diff_files ask fresh hash_a hash_b messages_a messages_b = do
  assert (text_eq hash_a hash_b)
  first_id ← first_id_of (ask hash_a)
  diff_messages fresh [] first_id messages_a messages_b

-- `diffAgainstEmpty`: one round, and the loop.
pub add_translated : (fresh : ℕ) → Items → ℕ → Message → Result Items
add_translated fresh m msg_id b =
    insert_added_if (not b.untranslated && not b.translation.fuzzy) m msg_id
      (record { address = fresh; message = b.translation })

pub add_all_translated : (fresh : ℕ) → Items → ℕ → List Message → Result Items
add_all_translated fresh m msg_id [] = ok m
add_all_translated fresh m msg_id (b ∷ messages) = do
  m' ← add_translated fresh m msg_id b
  add_all_translated (fresh + 1) m' (msg_id + 1) messages

pub diff_against_empty :
    (ask : Text → Option (ℕ × ℕ)) (fresh : ℕ) (hash : Text) → List Message → Result Items
diff_against_empty ask fresh hash messages = do
  first_id ← first_id_of (ask hash)
  add_all_translated fresh [] first_id messages
