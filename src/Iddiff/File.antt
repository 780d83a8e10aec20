-- ===== src/Iddiff/File.antt =====
-- An .iddiff file as a JSON document: `generateIddiffText` and `loadIddiff` of
-- gettextpo-helper/gtpo/iddiff.cpp, and `writeJson` of messagetranslationbase.cpp. The text of the
-- document is rapidjson's, that of a date the C library's.
pub mod Read
mod Examples
use Prim.Native.Char.{code}
use Prim.Native.String.{String}
use stupid_ids.Base.{
  ℕ, ◌+◌, ◌^◌, ◌≡◌, Bool, true, false, not, ◌&&◌, ◌||◌, List, [], ◌∷◌, ◌++◌, Option, none, some,
  Result, ok, err, assertion, assert, ◌>>=◌, ◌>>◌, length, ltb, ◌==◌, if◌then◌else◌, map,
}
use stupid_ids.Text.{Text, OptString, c_str}
use stupid_ids.Text
use stupid_ids.Date.{FileDateTime}
use stupid_ids.Json
use stupid_ids.Json.{
  Value, Items, nil, item, Members, empty, member, object, array, bool, number, find_member,
  add_member, items_of,
}
use stupid_ids.Message.{MessageTranslation, add_msgstr, empty_message, num_plurals}
use stupid_ids.Iddiff.Change.{Item, is_empty}
use stupid_ids.Iddiff.{insert_removed, insert_added, insert_review}
use stupid_ids.Iddiff
use stupid_ids.Iddiff.Vectors.{get_removed_vector, get_added_vector, get_review_vector}
use stupid_ids.Iddiff.Ids.{sort_uniq}
use stupid_ids.Iddiff.Merge.{Iddiff}

-- The bytes of an ASCII text.
abbrev pub codes : String → Text
codes String.[] = []
codes (String.◌∷◌ c s) = code c ∷ codes s

forms_as_json : List OptString → Result Items
forms_as_json [] = ok nil
forms_as_json (s ∷ ss) = do t ← c_str s; rest ← forms_as_json ss; ok (item (Json.string t) rest)

pub write_json : MessageTranslation → Result Value
write_json m = do
  assert (ltb 0 (num_plurals m))
  forms ← forms_as_json m.msgstr
  ok (object (member (codes "fuzzy") (bool m.fuzzy) (member (codes "msgstr") (array forms) empty)))

write_messages : List Item → Result Items
write_messages [] = ok nil
write_messages (x ∷ xs) = do v ← write_json x.message; rest ← write_messages xs; ok (item v rest)

pub write_message_list : List Item → Result Value
write_message_list xs = do values ← write_messages xs; ok (array values)

with_first : ℕ → List (ℕ × Item) → List Item
with_first id [] = []
with_first id ((k, x) ∷ rest) = if id == k then x ∷ with_first id rest else with_first id rest

firsts : List (ℕ × Item) → List ℕ
firsts [] = []
firsts ((k, x) ∷ rest) = k ∷ firsts rest

add_list : Members → Text → List Item → Result Members
add_list m name [] = ok m
add_list m name (x ∷ xs) = do v ← write_message_list (x ∷ xs); ok (add_member m name v)

-- What is written for one ID.
write_entry : (removed added review : List (ℕ × Item)) → ℕ → Result Value
write_entry removed added review id = do
  m1 ←
      (add_list (member (codes "ref") (object (member (codes "intid") (number id) empty)) empty)
        (codes "accept") (with_first id added))
  m2 ← add_list m1 (codes "reject") (with_first id removed)
  m3 ← add_list m2 (codes "review") (with_first id review)
  ok (object m3)

write_entries : (removed added review : List (ℕ × Item)) → List ℕ → Result Items
write_entries removed added review [] = ok nil
write_entries removed added review (id ∷ ids) = do
  v ← write_entry removed added review id
  rest ← write_entries removed added review ids
  ok (item v rest)

-- The IDs are a std::set.
pub generate_iddiff : (date_string : FileDateTime → Text) → Iddiff → Result Value
generate_iddiff date_string d = do
  removed ← get_removed_vector d.items
  added ← get_added_vector d.items
  review ← get_review_vector d.items
  if is_empty removed && is_empty added && is_empty review then ok (object empty) else (do
    entries ←
        write_entries removed added review
          (sort_uniq (firsts removed ++ firsts added ++ firsts review))
    ok (
        object (
          member (codes "subject") (Json.string d.subject) (
            member (codes "authors") (array (items_of (map Json.string d.authors))) (
              member (codes "dateCreated") (Json.string (date_string d.date))
                (member (codes "messages") (array entries) empty))))))

-- rapidjson asserts the kind of a value where it is read.
members_of : Value → Result Members
members_of (object m) = ok m
members_of _ = err assertion

elements_of : Value → Result Items
elements_of (array xs) = ok xs
elements_of _ = err assertion

text_of : Value → Result Text
text_of (Json.string s) = ok s
text_of _ = err assertion

bool_of : Value → Result Bool
bool_of (bool b) = ok b
bool_of _ = err assertion

-- `IsInt`
int_of : Value → Result ℕ
int_of (number n) = do assert (ltb n (2 ^ 31)); ok n
int_of _ = err assertion

required : Option Value → Result Value
required none = err assertion
required (some v) = ok v

-- `assert(v.HasMember(name))` and `v[name]`
get_member : Text → Value → Result Value
get_member name v = do m ← members_of v; required (find_member name m)

texts_of : Items → Result (List Text)
texts_of nil = ok []
texts_of (item v rest) = do t ← text_of v; ts ← texts_of rest; ok (t ∷ ts)

load_forms : MessageTranslation → Items → Result MessageTranslation
load_forms m nil = ok m
load_forms m (item v rest) = do t ← text_of v; load_forms (add_msgstr m (Text.string t)) rest

pub load_message : Value → Result MessageTranslation
load_message v = do
  fuzzy_value ← get_member (codes "fuzzy") v
  fuzzy ← bool_of fuzzy_value
  forms_value ← get_member (codes "msgstr") v
  forms ← elements_of forms_value
  load_forms (record empty_message { fuzzy = fuzzy }) forms

load_messages : Items → Result (List MessageTranslation)
load_messages nil = ok []
load_messages (item v rest) = do m ← load_message v; ms ← load_messages rest; ok (m ∷ ms)

not_nil : Items → Bool
not_nil nil = false
not_nil (item v rest) = true

pub load_message_list : Value → Result (List MessageTranslation)
load_message_list v = do xs ← elements_of v; assert (not_nil xs); load_messages xs

-- The insertion of each message that is listed, with a new pointer.
insert_each :
    (Iddiff.Items → ℕ → Item → Result Iddiff.Items)
    → (fresh : ℕ) → Iddiff.Items
    → ℕ
    → List MessageTranslation
    → Result Iddiff.Items
insert_each insert fresh m id [] = ok m
insert_each insert fresh m id (t ∷ ts) = do
  m' ← insert m id (record { address = fresh; message = t })
  insert_each insert (fresh + 1) m' id ts

-- The list, if it is there; and how many pointers were made.
insert_listed :
    (Iddiff.Items → ℕ → Item → Result Iddiff.Items)
    → (fresh : ℕ) → Iddiff.Items
    → ℕ
    → Option Value
    → Result (Iddiff.Items × ℕ)
insert_listed insert fresh m id none = ok (m, fresh)
insert_listed insert fresh m id (some v) = do
  ts ← load_message_list v
  m' ← insert_each insert fresh m id ts
  ok (m', fresh + length ts)

abbrev is_some : Option Value → Bool
is_some none = false
is_some (some v) = true

load_entry : (fresh : ℕ) → Iddiff.Items → Value → Result (Iddiff.Items × ℕ)
load_entry fresh m v = do
  members ← members_of v
  ref ← required (find_member (codes "ref") members)
  id_value ← get_member (codes "intid") ref
  id ← int_of id_value
  let accept = find_member (codes "accept") members
  let reject = find_member (codes "reject") members
  let review = find_member (codes "review") members
  assert (is_some accept || is_some reject || is_some review)
  s1 ← insert_listed insert_added fresh m id accept
  s2 ← insert_listed insert_removed s1.1 s1.0 id reject
  insert_listed insert_review s2.1 s2.0 id review

load_entries : (fresh : ℕ) → Iddiff.Items → Items → Result Iddiff.Items
load_entries fresh m nil = ok m
load_entries fresh m (item v rest) = do s ← load_entry fresh m v; load_entries s.1 s.0 rest

load_date : (parse_date : Text → FileDateTime) → FileDateTime → Option Value → Result FileDateTime
load_date parse_date date none = ok date
load_date parse_date date (some v) = do t ← text_of v; ok (parse_date t)

-- The document of a file that is there and is not empty. The items are added to those of `d`.
pub load_iddiff : (parse_date : Text → FileDateTime) → (fresh : ℕ) → Iddiff → Value → Result Iddiff
load_iddiff parse_date fresh d doc = do
  members ← members_of doc
  subject_value ← required (find_member (codes "subject") members)
  subject ← text_of subject_value
  authors_value ← required (find_member (codes "authors") members)
  author_items ← elements_of authors_value
  authors ← texts_of author_items
  date ← load_date parse_date d.date (find_member (codes "dateCreated") members)
  messages_value ← required (find_member (codes "messages") members)
  messages ← elements_of messages_value
  assert (not_nil messages)
  items ← load_entries fresh d.items messages
  ok (record d { subject = subject; authors = authors; date = date; items = items })
