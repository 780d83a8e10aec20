-- ===== src/FirstIds/Examples.antt =====
-- A table of two lines of gettextpo-helper/gtpo/filedbfirstids.cpp.
use stupid_ids.Base.{ℕ, zero, suc, ◌≡◌, List, [], ◌∷◌, ◌++◌, ok, arith, refl}
use stupid_ids.Base.Int.{pos}
use stupid_ids.Text.{Text, text_eq, text_lt}
use stupid_ids.FirstIds.{
  Entry, digits, first_of, is_space, parse_line, parse_lines, first_ids, next_first, entries_of,
  entry_lt, insert_entry, sort_entries, get_first_id,
}
use stupid_ids.FirstIds.Lookup.{range_of, AreRows, get_first_id-range_of}

abbrev times : ℕ → ℕ → Text
times zero c = []
times (suc n) c = c ∷ times n c

-- "b…b 7" and "a…a 9"; the next free ID is 20.
abbrev lines : List Text
lines = (times 40 98 ++ 32 ∷ 55 ∷ []) ∷ (times 40 97 ++ 32 ∷ 57 ∷ []) ∷ []

abbrev rows : List (Text × ℕ)
rows = (times 40 98, 7) ∷ (times 40 97, 9) ∷ []

abbrev table : List Entry
table =
    record { tp_hash = times 40 97; first_id = 9; count = pos 11 }
    ∷ record { tp_hash = times 40 98; first_id = 7; count = pos 2 }
    ∷ []

parses : parse_lines ok lines ≡ ok rows
unfolding parse_lines parse_line digits first_of is_space
parses = refl

makes : first_ids ok lines (50 ∷ 48 ∷ 10 ∷ []) ≡ ok table
unfolding first_ids parse_lines parse_line digits first_of is_space sort_entries insert_entry
    entry_lt entries_of next_first text_lt text_eq
makes = refl

rows-AreRows : AreRows rows
unfolding text_eq
rows-AreRows = ((refl, tt), omega arith, (tt, omega arith, tt))

get_first_id-range_of_example :
    get_first_id table (times 40 97) ≡ range_of rows (digits 0 (50 ∷ 48 ∷ 10 ∷ [])) (times 40 97)
get_first_id-range_of_example =
    get_first_id-range_of ok lines (50 ∷ 48 ∷ 10 ∷ []) parses rows-AreRows makes (times 40 97)
