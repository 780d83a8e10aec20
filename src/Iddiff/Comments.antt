-- ===== src/Iddiff/Comments.antt =====
-- The comments of translators, and the application of a set of translations to many messages:
-- gettextpo-helper/gtpo/iddiff.cpp. A std::set of strings is a sorted list.
pub mod Lines
pub mod Sets
pub mod Faults
pub mod Applied
mod Examples
use stupid_ids.Base.{
  ℕ, zero, suc, ◌+◌, ◌-◌, ◌≡◌, Bool, true, false, not, ◌&&◌, ◌||◌, List, [], ◌∷◌, ◌++◌, Option,
  none, some, Result, ok, err, assertion, null_pointer, assert, ◌>>=◌, ◌>>◌, length, ◌==◌,
  if◌then◌else◌,
}
use stupid_ids.Text.{Text, OptString, null, string, to_string, text_lt, text_eq}
use stupid_ids.Message.{MessageTranslation, Message, add_msgstr, empty_message, edit_msgcomments}
use stupid_ids.Iddiff.Change.{Item, is_empty}
use stupid_ids.Iddiff.{Items, insert_added, find_added_single, find_removed_single}
use stupid_ids.Iddiff.Diff.{first_id_of}
use stupid_ids.Iddiff.Apply.{apply_to_message}
use stupid_ids.Iddiff.Ids.{involved_ids}
use stupid_ids.Iddiff.Merge.{add_msgstrs, strings_of}

unfoldable pub is_prefix : Text → Text → Bool
is_prefix [] s = true
is_prefix (c ∷ p) [] = false
is_prefix (c ∷ p) (d ∷ s) = c == d && is_prefix p s

-- A piece that is not empty.
abbrev pub push_piece : Text → List Text → List Text
push_piece [] rest = rest
push_piece (c ∷ piece) rest = (c ∷ piece) ∷ rest

-- From the place where the search stands: `skip` bytes of a separator are left, and `piece` is what
-- came since the last one.
unfoldable pub split_loop : (sep : Text) (skip : ℕ) (piece s : Text) → List Text
split_loop sep skip piece [] = push_piece piece []
split_loop sep (suc skip) piece (c ∷ s) = split_loop sep skip piece s
split_loop sep zero piece (c ∷ s) = elim (is_prefix sep (c ∷ s)) [
  | true ↦ push_piece piece (split_loop sep (length sep - 1) [] s)
  | false ↦ split_loop sep zero (piece ++ c ∷ []) s
]

pub split_string : (str sep : Text) → Result (List Text)
split_string str sep = do assert (not (is_empty sep)); ok (split_loop sep 0 [] str)

unfoldable pub join_strings : List Text → (sep : Text) → Text
join_strings [] sep = []
join_strings (s ∷ []) sep = s
join_strings (s ∷ t ∷ ts) sep = s ++ (sep ++ join_strings (t ∷ ts) sep)

-- std::getline, until the stream ends. 10 is the newline.
unfoldable pub lines_loop : (item s : Text) → List Text
lines_loop item [] = push_piece item []
lines_loop item (c ∷ s) = if c == 10 then item ∷ lines_loop [] s else lines_loop (item ++ c ∷ []) s

unfoldable pub insert_line : Text → List Text → List Text
insert_line s [] = s ∷ []
insert_line s (t ∷ ts) =
    if text_lt s t then s ∷ t ∷ ts else if text_lt t s then t ∷ insert_line s ts else t ∷ ts

unfoldable pub insert_lines : List Text → List Text → List Text
insert_lines [] set = set
insert_lines (s ∷ ss) set = insert_lines ss (insert_line s set)

unfoldable pub erase_line : Text → List Text → List Text
erase_line s [] = []
erase_line s (t ∷ ts) = if text_eq s t then ts else t ∷ erase_line s ts

unfoldable pub erase_lines : List Text → List Text → List Text
erase_lines [] set = set
erase_lines (s ∷ ss) set = erase_lines ss (erase_line s set)

unfoldable pub set_of_lines : Text → List Text
set_of_lines input = insert_lines (lines_loop [] input) []

-- The algorithm of the library, on two sorted ranges.
unfoldable pub range_difference : List Text → List Text → List Text
range_difference [] bs = []
range_difference (a ∷ as') [] = a ∷ as'
range_difference (a ∷ as') (b ∷ bs) =
    if text_lt a b
    then a ∷ range_difference as' (b ∷ bs)
    else if text_lt b a
    then range_difference (a ∷ as') bs
    else range_difference as' bs

-- The second range goes from `b.begin()` to `b.begin()`.
unfoldable pub set_difference : List Text → List Text → List Text
set_difference a b = range_difference a []

pub add_comments : (fresh : ℕ) → Items → ℕ → List Text → Result Items
add_comments fresh m msg_id [] = ok m
add_comments fresh m msg_id (t ∷ ts) =
    insert_added m msg_id (record { address = fresh; message = add_msgstrs empty_message (t ∷ ts) })

-- A message is its comments, and whether it is obsolete.
pub comments_against_empty : (fresh : ℕ) → Items → ℕ → List (Text × Bool) → Result Items
comments_against_empty fresh m msg_id [] = ok m
comments_against_empty fresh m msg_id ((comments, true) ∷ messages) = ok m
comments_against_empty fresh m msg_id ((comments, false) ∷ messages) = do
  m' ← add_comments fresh m msg_id (set_difference (set_of_lines comments) [])
  comments_against_empty (fresh + 1) m' (msg_id + 1) messages

-- `ask` is the client's request for the first ID of a template; the date and the author go into the
-- header.
pub diff_tr_comments_against_empty :
    (ask : Text → Option (ℕ × ℕ)) (fresh : ℕ) (hash : Text) → List (Text × Bool) → Result Items
diff_tr_comments_against_empty ask fresh hash messages = do
  first_id ← first_id_of (ask hash)
  comments_against_empty fresh [] first_id messages

pub comments_between : (fresh : ℕ) → Items → ℕ → (a b : Text) → Result Items
comments_between fresh m msg_id a b =
    if text_eq a b
    then ok m
    else add_comments fresh m msg_id (set_difference (set_of_lines b) (set_of_lines a))

pub comments_of_files :
    (fresh : ℕ) → Items → ℕ → (messages_a messages_b : List (Text × Bool)) → Result Items
comments_of_files fresh m msg_id [] messages_b = ok m
comments_of_files fresh m msg_id (a ∷ messages_a) [] = ok m
comments_of_files fresh m msg_id ((a, obsolete_a) ∷ messages_a) ((b, obsolete_b) ∷ messages_b) =
    elim (obsolete_a || obsolete_b) [
      | true ↦ ok m
      | false ↦ do
        m' ← comments_between fresh m msg_id a b
        comments_of_files (fresh + 1) m' (msg_id + 1) messages_a messages_b
    ]

pub diff_tr_comments_files :
    (ask : Text → Option (ℕ × ℕ)) (fresh : ℕ) (hash_a hash_b : Text)
    (messages_a messages_b : List (Text × Bool))
    → Result Items
diff_tr_comments_files ask fresh hash_a hash_b messages_a messages_b = do
  assert (text_eq hash_a hash_b)
  first_id ← first_id_of (ask hash_a)
  comments_of_files fresh [] first_id messages_a messages_b

pub strings_of_item : Option Item → Result (List Text)
strings_of_item none = ok []
strings_of_item (some item) = strings_of item.message.msgstr

-- A message group that holds one message.
pub apply_to_message_comments : Items → List Message → ℕ → Result (List Message)
apply_to_message_comments m [] min_id = err assertion
apply_to_message_comments m (message ∷ other ∷ messages) min_id = err assertion
apply_to_message_comments m (message ∷ []) min_id = do
  comments ← to_string message.msgcomments
  removed ← find_removed_single m min_id
  removed_lines ← strings_of_item removed
  added ← find_added_single m min_id
  added_lines ← strings_of_item added
  let set = insert_lines added_lines (erase_lines removed_lines (set_of_lines comments))
  ok (edit_msgcomments message (string (join_strings set (10 ∷ []))) ∷ [])

-- `applyToMessage` asserts the same of the group.
pub apply_to_group : Items → List Message → ℕ → Result (List Message)
apply_to_group m [] min_id = err assertion
apply_to_group m (message ∷ other ∷ messages) min_id = err assertion
apply_to_group m (message ∷ []) min_id = do
  edited ← apply_to_message m message min_id
  ok (edited ∷ [])

-- `binary_search` on a sorted list.
pub binary_search : ℕ → List ℕ → Bool
binary_search n [] = false
binary_search n (k ∷ ks) = n == k || binary_search n ks

-- The messages of a file, each with its minimized ID.
pub apply_to_content : Items → List (List Message × ℕ) → Result (List (List Message))
apply_to_content m [] = ok []
apply_to_content m ((group, min_id) ∷ groups) = do
  edited ←
      (if binary_search min_id (involved_ids m) then apply_to_group m group min_id else ok group)
  rest ← apply_to_content m groups
  ok (edited ∷ rest)

apply_to_groups : Bool → Items → ℕ → List (List Message) → Result (List (List Message))
apply_to_groups comments m min_id [] = ok []
apply_to_groups comments m min_id (group ∷ groups) = do
  edited ←
      (if comments then apply_to_message_comments m group min_id else apply_to_group m group min_id)
  rest ← apply_to_groups comments m min_id groups
  ok (edited ∷ rest)

-- `findAddedSingle(min_id)->toJson()`, for the warning that a message has not been found.
warn_not_found : Items → ℕ → List (List Message) → Result (Unit {0})
warn_not_found m min_id (group ∷ groups) = ok tt
warn_not_found m min_id [] = do
  added ← find_added_single m min_id
  elim added [ none ↦ err null_pointer | some item ↦ ok tt ]

apply_ids :
    Bool
    → Items
    → (messages : ℕ → List (List Message)) → List ℕ
    → Result (List (ℕ × List (List Message)))
apply_ids comments m messages [] = ok []
apply_ids comments m messages (min_id ∷ ids) = do
  edited ← apply_to_groups comments m min_id (messages min_id)
  warn_not_found m min_id (messages min_id)
  rest ← apply_ids comments m messages ids
  ok ((min_id, edited) ∷ rest)

-- `messages` is what the collector finds for each ID; the result is what is written.
pub apply_iddiff :
    (minimized_ids : Bool)
    → Items
    → (messages : ℕ → List (List Message)) → (apply_comments : Bool)
    → Result (List (ℕ × List (List Message)))
apply_iddiff minimized_ids m messages apply_comments = do
  assert minimized_ids
  apply_ids apply_comments m messages (involved_ids m)
