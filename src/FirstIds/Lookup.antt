-- ===== src/FirstIds/Lookup.antt =====
-- What gettextpo-helper/gtpo/filedbfirstids.cpp finds for a hash: the row of the file.
use stupid_ids.Base.{
  ℕ, ◌≡◌, ◌<◌, false, List, [], ◌∷◌, Result, ok, All, ◌>>=◌, ok-injective, refl, ap, ◌∙◌,
  Bool-cases, inl, inr, if◌then◌else◌,
}
use stupid_ids.Base.Int.{ℤ, negsuc, sub_ℕ}
use stupid_ids.Text.{Text, text_eq}
use stupid_ids.FirstIds.{
  Entry, parse_lines, next_first, entries_of, sort_entries, first_ids, get_first_id, digits,
}
use stupid_ids.FirstIds.Table.{
  find_entry, IsDistinct, All-sort_entries, find_entry-sort_entries, sort_entries-IsSorted, answer,
  lower_bound-find_entry,
}

-- What the file says of a hash: the first ID in its line, and how far it is to that of the next line.
abbrev pub range_of : List (Text × ℕ) → (next_id : ℕ) (tp_hash : Text) → ℕ × ℤ
range_of [] next_id tp_hash = (0, negsuc 0)
range_of ((oid, first_id) ∷ rows) next_id tp_hash =
    if text_eq tp_hash oid
    then (first_id, sub_ℕ (next_first rows next_id) first_id)
    else range_of rows next_id tp_hash

-- No hash stands in two lines, and no first ID is 0.
abbrev pub AreRows : List (Text × ℕ) → Type 0
AreRows [] = Unit
AreRows ((oid, first_id) ∷ rows) =
    All (λ row. text_eq oid row.0 ≡ false) rows × (0 < first_id) × AreRows rows

entries_of-differ :
    (oid : Text) (rows : List (Text × ℕ)) (next_id : ℕ)
    → All (λ row. text_eq oid row.0 ≡ false) rows
    → All (λ d. text_eq oid d.tp_hash ≡ false) (entries_of rows next_id)
unfolding entries_of
entries_of-differ oid [] next_id h = tt
entries_of-differ oid ((other, first_id) ∷ rows) next_id h =
    (h.0, entries_of-differ oid rows next_id h.1)

entries_of-IsDistinct :
    (rows : List (Text × ℕ)) (next_id : ℕ)
    → AreRows rows
    → IsDistinct (entries_of rows next_id) × All (λ e. 0 < e.first_id) (entries_of rows next_id)
unfolding entries_of
entries_of-IsDistinct [] next_id v = (tt, tt)
entries_of-IsDistinct ((oid, first_id) ∷ rows) next_id v =
    let (distinct, positive) = entries_of-IsDistinct rows next_id v.2 in
    ((entries_of-differ oid rows next_id v.0, distinct), (v.1, positive))

find_entry-entries_of :
    (tp_hash : Text) (rows : List (Text × ℕ)) (next_id : ℕ)
    → answer (find_entry tp_hash (entries_of rows next_id)) ≡ range_of rows next_id tp_hash
unfolding entries_of
find_entry-entries_of tp_hash [] next_id = refl
find_entry-entries_of tp_hash ((oid, first_id) ∷ rows) next_id =
    elim (Bool-cases (text_eq tp_hash oid)) [
      | inl f ↦ rw f refl
      | inr f ↦ rw f (find_entry-entries_of tp_hash rows next_id)
    ]

-- For a table made of lines in which no hash stands twice and no first ID is 0, `getFirstId` gives
-- the first ID of the line with the hash and the distance to the first ID of the next line, or of the
-- next free ID behind the last line; and (0, -1) for a hash that is in no line.
pub get_first_id-range_of :
    (oid_of : Text → Result Text) (lines : List Text) (next_line : Text) {rows : List (Text × ℕ)}
    {table : List Entry}
    → parse_lines oid_of lines ≡ ok rows
    → AreRows rows
    → first_ids oid_of lines next_line ≡ ok table
    → (tp_hash : Text) → get_first_id table tp_hash ≡ range_of rows (digits 0 next_line) tp_hash
unfolding first_ids get_first_id
get_first_id-range_of oid_of lines next_line {rows} p v h tp_hash =
    let entries = entries_of rows (digits 0 next_line) in
    let (distinct, positive) = entries_of-IsDistinct rows (digits 0 next_line) v in
    let same = ok-injective (rw (p, ◌>>=◌) at h) in
    rw (← same) (
      lower_bound-find_entry tp_hash (sort_entries entries) (sort_entries-IsSorted entries)
        (All-sort_entries (λ e. 0 < e.first_id) entries positive)
      ∙ ap answer (find_entry-sort_entries tp_hash entries distinct)
      ∙ find_entry-entries_of tp_hash rows (digits 0 next_line))
