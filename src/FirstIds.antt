-- ===== src/FirstIds.antt =====
-- gettextpo-helper/gtpo/filedbfirstids.cpp: the table of the first IDs of templates. `oid_of` is
-- libgit2's reading of 40 hexadecimal digits.
pub mod Table
pub mod Lookup
mod Examples
use stupid_ids.Base.{
  ℕ, ◌+◌, ◌-◌, ◌*◌, Bool, true, false, not, ◌&&◌, ◌||◌, List, [], ◌∷◌, Option, none, some, Result,
  ok, err, assertion, exception, assert, ◌>>=◌, ◌>>◌, length, take, drop, ltb, leb, ◌==◌,
  if◌then◌else◌,
}
use stupid_ids.Base.Int.{ℤ, pos, negsuc, ltb_ℤ, sub_ℕ}
use stupid_ids.Text.{Text, text_eq, text_lt}

-- `atoi` on a line that begins with digits.
pub digits : (value : ℕ) → Text → ℕ
digits value [] = value
digits value (c ∷ cs) = if leb 48 c && leb c 57 then digits (value * 10 + (c - 48)) cs else value

first_of : Text → Option ℕ
first_of [] = none
first_of (c ∷ cs) = some c

is_space : Option ℕ → Bool
is_space none = false
is_space (some c) = c == 32

-- A line has a hash of 40 digits, a space, and the first ID.
pub parse_line : (oid_of : Text → Result Text) → Text → Result (Text × ℕ)
parse_line oid_of line = if ltb (length line) 42 then err exception else (do
  assert (is_space (first_of (drop 40 line)))
  oid ← oid_of (take 40 line)
  ok (oid, digits 0 (drop 41 line)))

pub parse_lines : (oid_of : Text → Result Text) → List Text → Result (List (Text × ℕ))
parse_lines oid_of [] = ok []
parse_lines oid_of (line ∷ lines) = do
  row ← parse_line oid_of line
  rows ← parse_lines oid_of lines
  ok (row ∷ rows)

pub record Entry : Type 0 where
  pub tp_hash : Text
  pub first_id : ℕ
  pub count : ℤ

-- The first ID of the next line, or the next ID that is free.
unfoldable pub next_first : List (Text × ℕ) → (next_id : ℕ) → ℕ
next_first [] next_id = next_id
next_first ((oid, first_id) ∷ rows) next_id = first_id

unfoldable pub entries_of : List (Text × ℕ) → (next_id : ℕ) → List Entry
entries_of [] next_id = []
entries_of ((oid, first_id) ∷ rows) next_id =
    record { tp_hash = oid; first_id = first_id; count = sub_ℕ (next_first rows next_id) first_id }
    ∷ entries_of rows next_id

-- `operator<` of std::pair.
unfoldable pub entry_lt : Entry → Entry → Bool
entry_lt a b =
    text_lt a.tp_hash b.tp_hash
    || (not (text_lt b.tp_hash a.tp_hash)
        && (ltb a.first_id b.first_id
            || (not (ltb b.first_id a.first_id) && ltb_ℤ a.count b.count)))

unfoldable pub insert_entry : Entry → List Entry → List Entry
insert_entry e [] = e ∷ []
insert_entry e (d ∷ ds) = if entry_lt d e then d ∷ insert_entry e ds else e ∷ d ∷ ds

unfoldable pub sort_entries : List Entry → List Entry
sort_entries [] = []
sort_entries (e ∷ es) = insert_entry e (sort_entries es)

-- The constructor, over the lines of the two files.
pub first_ids :
    (oid_of : Text → Result Text) (lines : List Text) (next_line : Text) → Result (List Entry)
first_ids oid_of lines next_line = do
  rows ← parse_lines oid_of lines
  ok (sort_entries (entries_of rows (digits 0 next_line)))

-- `lower_bound`: the first entry that is not before the key.
unfoldable pub lower_bound : Entry → List Entry → Option Entry
lower_bound key [] = none
lower_bound key (e ∷ es) = if entry_lt e key then lower_bound key es else some e

abbrev pub if_equal : Text → Option Entry → ℕ × ℤ
if_equal tp_hash none = (0, negsuc 0)
if_equal tp_hash (some e) =
    if text_eq tp_hash e.tp_hash then (e.first_id, e.count) else (0, negsuc 0)

-- (0, -1) where the hash is not there.
pub get_first_id : List Entry → Text → ℕ × ℤ
get_first_id table tp_hash =
    if_equal tp_hash
      (lower_bound (record { tp_hash = tp_hash; first_id = 0; count = negsuc 0 }) table)
