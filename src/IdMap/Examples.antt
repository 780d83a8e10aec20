-- ===== src/IdMap/Examples.antt =====
-- The theorems on gettextpo-helper/gtpo/mappedfile.cpp at one small file: 110 → 105 → 103.
use stupid_ids.Base.{ℕ, ◌≡◌, ◌↔◌, ok, ◌==◌, if◌then◌else◌, arith, refl}
use stupid_ids.IdMap.{
  MappedFile, get_recursive_min_id, get_plain_min_id, add_row, normalize_database,
}
use stupid_ids.IdMap.Roots.{
  IsWellFormed, Root, top, link, get_recursive_min_id-Root, get_recursive_min_id_iff,
}
use stupid_ids.IdMap.Collapse.{Collapsed, add_row-Collapsed, add_row_splits}
use stupid_ids.IdMap.Normalize.{normalize_database-plain}

-- A file of 120 rows.
abbrev chain : MappedFile
chain = record {
  file_length = 480;
  rows = λ i. if i == 110 then 105 else if i == 105 then 103 else 0;
}

chain-IsWellFormed : IsWellFormed chain
chain-IsWellFormed = record {
  aligned = omega arith;
  falling = λ i h. ground arith;
  reserved = λ i h. ground arith;
  outside = λ i h. ground arith;
}

end_110 : get_recursive_min_id chain 110 ≡ ok 103
end_110 =
    (get_recursive_min_id_iff chain-IsWellFormed 110 103).1
      (link (omega arith) (link (omega arith) (top refl)))

end_101 : get_recursive_min_id chain 101 ≡ ok 101
end_101 = (get_recursive_min_id_iff chain-IsWellFormed 101 101).1 (top refl)

end_102 : get_recursive_min_id chain 102 ≡ ok 102
end_102 = (get_recursive_min_id_iff chain-IsWellFormed 102 102).1 (top refl)

get_recursive_min_id-Root_example :
    (r : ℕ) × (get_recursive_min_id chain 110 ≡ ok r) × Root chain.rows 110 r
get_recursive_min_id-Root_example = get_recursive_min_id-Root chain-IsWellFormed 110

get_recursive_min_id_iff_example :
    (get_recursive_min_id chain 110 ≡ ok 103) ↔ Root chain.rows 110 103
get_recursive_min_id_iff_example = get_recursive_min_id_iff chain-IsWellFormed 110 103

add_row-Collapsed_example :
    (after : MappedFile) × (add_row chain 110 102 ≡ ok after) × Collapsed chain 110 102 102 after
add_row-Collapsed_example =
    add_row-Collapsed chain-IsWellFormed 110 102 (omega arith) (omega arith) (omega arith)
      (omega arith) (omega arith) end_110 end_102

-- 103 and 110 were one message; after 110 is collapsed with 101 they are two.
add_row_splits_example :
    (after : MappedFile) × (add_row chain 110 101 ≡ ok after)
    × (get_recursive_min_id chain 103 ≡ ok 103)
    × (get_recursive_min_id after 103 ≡ ok 103)
    × (get_recursive_min_id after 110 ≡ ok 101)
add_row_splits_example =
    add_row_splits chain-IsWellFormed 110 101 (omega arith) (omega arith) (omega arith)
      (omega arith) (omega arith) end_110 end_101 (omega arith) (omega arith)

normalize_database-plain_example :
    (after : MappedFile) × (count : ℕ) × (normalize_database chain ≡ ok (after, count))
    × IsWellFormed after
    × ((i : ℕ) → get_recursive_min_id after i ≡ get_recursive_min_id chain i)
    × ((i : ℕ) → get_plain_min_id after i ≡ get_recursive_min_id chain i)
normalize_database-plain_example = normalize_database-plain chain-IsWellFormed
