-- ===== src/Repo/Blobs.antt =====
-- The walk over the files of a git tree: `blob_iterator` and `getCurrentOids` of
-- gettextpo-helper/gtpo/repository.cpp. The stack holds what is left of each directory, the innermost
-- first. `none` means that the rounds have run out.
pub mod Walk
mod Examples
use stupid_ids.Base.{
  ℕ, zero, suc, ◌-◌, Bool, true, false, List, [], ◌∷◌, ◌++◌, Option, none, some, Result, ok, err,
  assertion, out_of_range, ◌>>=◌, length, drop, ltb, if◌then◌else◌,
}
use stupid_ids.Text.{Text, text_eq}
use stupid_ids.Repo.Tree.{
  Entries, done, entry, Object, blob, subtree, entry_id, is_dir, compared_name, before_next,
}

-- An empty tree is not put on the stack.
abbrev pub enter_dir : Entries → List Entries → List Entries
enter_dir done stack = stack
enter_dir (entry name mode object rest) stack = entry name mode object rest ∷ stack

-- `m_stack.top().idx ++`
abbrev pub next_entry : List Entries → List Entries
next_entry [] = []
next_entry (done ∷ stack) = done ∷ stack
next_entry (entry name mode object rest ∷ stack) = rest ∷ stack

-- The tree under an entry with the mode of a directory; git_tree_lookup fails on anything else.
abbrev pub enter_object : Object → List Entries → Result (List Entries)
enter_object (blob id) stack = err assertion
enter_object (subtree id entries) stack = ok (enter_dir entries stack)

-- The loop of `walkBlob`: to the next file.
pub walk_blob : (rounds : ℕ) → List Entries → Option (Result (List Entries))
walk_blob zero stack = none
walk_blob (suc rounds) [] = some (ok [])
walk_blob (suc rounds) (done ∷ stack) = walk_blob rounds (next_entry stack)
walk_blob (suc rounds) (entry name mode object rest ∷ stack) =
    elim (before_next (compared_name name mode) rest) [
      | false ↦ some (err assertion)
      | true ↦ elim (is_dir mode) [
        | false ↦ some (ok (entry name mode object rest ∷ stack))
        | true ↦ elim (enter_object object (entry name mode object rest ∷ stack)) [
          | err e ↦ some (err e)
          | ok stack' ↦ walk_blob rounds stack'
        ]
      ]
    ]

-- `strcmp(name + strlen(name) - 3, ".po")`
unfoldable pub is_po : Text → Result Bool
is_po name =
    if ltb (length name) 3
    then err out_of_range
    else ok (text_eq (drop (length name - 3) name) (46 ∷ 112 ∷ 111 ∷ []))

abbrev pub keep_po : Bool → Text → List Text → List Text
keep_po true id ids = id ∷ ids
keep_po false id ids = ids

-- The loop of `getCurrentOids`, from a file on the stack or the end.
pub oids_loop : (rounds : ℕ) → List Entries → Option (Result (List Text))
oids_loop zero stack = none
oids_loop (suc rounds) [] = some (ok [])
oids_loop (suc rounds) (done ∷ stack) = some (err assertion)
oids_loop (suc rounds) (entry name mode object rest ∷ stack) = elim (is_po name) [
  | err e ↦ some (err e)
  | ok po ↦ elim (walk_blob rounds (rest ∷ stack)) [
    | none ↦ none
    | some (err e) ↦ some (err e)
    | some (ok stack') ↦ elim (oids_loop rounds stack') [
      | none ↦ none
      | some (err e) ↦ some (err e)
      | some (ok ids) ↦ some (ok (keep_po po (entry_id object) ids))
    ]
  ]
]

pub get_current_oids : (rounds : ℕ) → Entries → Option (Result (List Text))
get_current_oids rounds root = elim (walk_blob rounds (enter_dir root [])) [
  | none ↦ none
  | some (err e) ↦ some (err e)
  | some (ok stack) ↦ oids_loop rounds stack
]
