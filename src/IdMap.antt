-- ===== src/IdMap.antt =====
-- The map of collapsed message IDs: gettextpo-helper/gtpo/mappedfile.h and mappedfile.cpp.
-- A mapped file is its length in bytes and the cells of four bytes (`IdMapDb_row`) in it.
pub mod Roots
pub mod Collapse
pub mod Normalize
mod Examples
use stupid_ids.Base.{
  ℕ, ◌+◌, ◌-◌, ◌*◌, ◌/◌, ◌≡◌, Bool, true, not, ◌&&◌, List, [], ◌∷◌, Acc, ◌<◌, Result, ok, err,
  ◌>>=◌, ◌>>◌, assert, ltb, leb, ◌==◌, if◌then◌else◌, assertion, dite, dec_lt, lt_wf, min, zero,
  suc, false,
}

pub record MappedFile : Type 0 where
  pub file_length : ℕ
  pub rows : ℕ → ℕ

-- sizeof(IdMapDb_row)
abbrev pub row_size : ℕ
row_size = 4

abbrev pub megabyte : ℕ
megabyte = 1048576

-- ((offset + len) + 0xfffff) & (~0xfffff)
pub round_up : ℕ → ℕ
round_up n = (n + 1048575) / megabyte * megabyte

-- `fwrite` of zeros up to the next megabyte boundary; the cells past the old end become zeros.
pub grow : ℕ → MappedFile → MappedFile
unfolding round_up
grow needed file = record {
  file_length = file.file_length + (round_up needed - file.file_length);
  rows = λ i. if ltb (row_size * i) file.file_length then file.rows i else 0;
}

pub ptr : ℕ → ℕ → MappedFile → Result MappedFile
unfolding grow
ptr offset len file = do
  assert (leb 1 len)
  let grown = if ltb file.file_length (offset + len) then grow (offset + len) file else file
  assert (ltb (offset + len - 1) grown.file_length)
  ok grown

pub ptr_const : ℕ → ℕ → MappedFile → Result (Unit {0})
ptr_const offset len file = do
  assert (leb 1 len)
  assert (ltb (offset + len - 1) file.file_length)
  ok tt

-- A row outside the file reads as zero.
pub get_row_const : MappedFile → ℕ → Result ℕ
unfolding ptr_const
get_row_const file msg_id =
    if leb file.file_length (row_size * msg_id)
    then ok 0
    else (do ptr_const (row_size * msg_id) row_size file; ok (file.rows msg_id))

-- The file after a row has been made accessible; the row is then `rows msg_id`.
pub get_row : MappedFile → ℕ → Result MappedFile
unfolding ptr
get_row file msg_id = ptr (row_size * msg_id) row_size file

-- `while ((msg_id = getRowConst(prev_id = msg_id)->min_id)) assert(msg_id < prev_id);`
-- The assert makes the IDs fall, so that the loop recurs on the ID and needs no fuel.
pub recursive_min_id_loop : (file : MappedFile) (prev_id : ℕ) → Acc ◌<◌ prev_id → Result ℕ
recursive_min_id_loop file prev_id (Acc.intro _ smaller) = elim (get_row_const file prev_id) [
  | err e ↦ err e
  | ok msg_id ↦ elim (msg_id == 0) [
    | true ↦ ok prev_id
    | false ↦
        dite (dec_lt msg_id prev_id) (λ h. recursive_min_id_loop file msg_id (smaller msg_id h))
          (λ _. err assertion)
  ]
]

pub get_recursive_min_id : MappedFile → ℕ → Result ℕ
get_recursive_min_id file msg_id = recursive_min_id_loop file msg_id (lt_wf.apply msg_id)

pub get_plain_min_id : MappedFile → ℕ → Result ℕ
get_plain_min_id file msg_id = do
  min_id ← get_row_const file msg_id
  ok (if not (min_id == 0) then min_id else msg_id)

abbrev pub update : (ℕ → ℕ) → ℕ → ℕ → ℕ → ℕ
update f k v i = if k == i then v else f i

pub write_row : MappedFile → ℕ → ℕ → Result MappedFile
write_row file msg_id min_id = do
  assert (leb 100 msg_id && ltb msg_id 100_000_000)
  accessible ← get_row file msg_id
  ok (record accessible { rows = update accessible.rows msg_id min_id })

write_row_if : Bool → MappedFile → ℕ → ℕ → Result MappedFile
write_row_if true file msg_id min_id = write_row file msg_id min_id
write_row_if false file msg_id min_id = ok file

pub add_row : MappedFile → ℕ → ℕ → Result MappedFile
add_row file msg_id min_id = do
  assert (not (msg_id == min_id))
  a ← get_recursive_min_id file msg_id
  b ← get_recursive_min_id file min_id
  let global_min = min a b
  written ← write_row_if (not (msg_id == global_min)) file msg_id global_min
  write_row_if (not (min_id == global_min)) written min_id global_min

-- One round of the loop of `normalizeDatabase`, with the count of changes.
normalize_row : ℕ → MappedFile × ℕ → Result (MappedFile × ℕ)
normalize_row msg_id (file, changed_count) = do
  accessible ← get_row file msg_id
  recurs_min_id ← get_recursive_min_id accessible msg_id
  ok (
      if not (accessible.rows msg_id == 0) && not (accessible.rows msg_id == recurs_min_id)
      then (
        record accessible { rows = update accessible.rows msg_id recurs_min_id },
        changed_count + 1,
      )
      else (accessible, changed_count))

-- `for (msg_id = first; msg_id < first + rounds; msg_id ++)`
normalize_rows : (rounds first : ℕ) → MappedFile × ℕ → Result (MappedFile × ℕ)
normalize_rows zero first state = ok state
normalize_rows (suc rounds) first state = do
  next ← normalize_row first state
  normalize_rows rounds (first + 1) next

-- The cast of the number of rows to `int` is exact for files below 8 GB.
pub normalize_database : MappedFile → Result (MappedFile × ℕ)
normalize_database file =
    let row_count = file.file_length / row_size in normalize_rows (row_count - 100) 100 (file, 0)

-- `for (i = 0; i < num; i ++) res[i] = getRecursiveMinId(first_msg_id + i);`
pub min_id_list : (num first_msg_id : ℕ) → MappedFile → Result (List ℕ)
min_id_list zero first_msg_id file = ok []
min_id_list (suc num) first_msg_id file = do
  first ← get_recursive_min_id file first_msg_id
  rest ← min_id_list num (first_msg_id + 1) file
  ok (first ∷ rest)

pub get_min_id_array : MappedFile → ℕ → ℕ → Result (List ℕ)
get_min_id_array file first_msg_id num = do
  assert (ltb 0 num)
  assert (leb 100 first_msg_id)
  min_id_list num first_msg_id file
