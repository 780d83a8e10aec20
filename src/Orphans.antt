-- ===== src/Orphans.antt =====
-- The file process_orphans.txt, which says what became of files: gettextpo-helper/gtpo/processorphans.cpp.
pub mod Lines
mod Examples
use stupid_ids.Base.{
  ℕ, Bool, true, false, not, ◌&&◌, ◌||◌, List, [], ◌∷◌, ◌++◌, Option, none, some, Result, ok, err,
  assertion, exception, ◌>>=◌, ◌==◌, if◌then◌else◌,
}
use stupid_ids.Text.{Text, text_eq}
use stupid_ids.Content.Template.{codes}

pub data Command : Type 0 where
  move copy delete merge mergekeep : Command

pub record OrphansEntry : Type 0 where
  pub command : Command
  pub orig_path : Text
  pub orig_name_pot : Text
  pub dest_path : Text
  pub dest_name_pot : Text

abbrev pub name_of_command : Command → Text
name_of_command move = codes "move"
name_of_command copy = codes "copy"
name_of_command delete = codes "delete"
name_of_command merge = codes "merge"
name_of_command mergekeep = codes "mergekeep"

unfoldable pub command_of : Text → Result Command
command_of cmd =
    if text_eq cmd (codes "move")
    then ok move
    else if text_eq cmd (codes "copy")
    then ok copy
    else if text_eq cmd (codes "delete")
    then ok delete
    else if text_eq cmd (codes "merge")
    then ok merge
    else if text_eq cmd (codes "mergekeep")
    then ok mergekeep
    else err exception

abbrev pub after_first : ℕ → Text → Option (Text × Text) → Option (Text × Text)
after_first c s none = if c == 47 then some ([], s) else none
after_first c s (some (path, name)) = some (c ∷ path, name)

-- What is in front of the last slash, and what is behind it.
unfoldable pub at_last_slash : Text → Option (Text × Text)
at_last_slash [] = none
at_last_slash (c ∷ s) = after_first c s (at_last_slash s)

abbrev pub with_t : Option (Text × Text) → Result (Text × Text)
with_t none = err exception
with_t (some (path, name)) = ok (path, name ++ 116 ∷ [])

-- The path, and the name with a "t" at its end.
pub split_fullname_pot : Text → Result (Text × Text)
split_fullname_pot fullname = with_t (at_last_slash fullname)

abbrev pub is_delete : Command → Bool
is_delete move = false
is_delete copy = false
is_delete delete = true
is_delete merge = false
is_delete mergekeep = false

destination_of : Bool → Option Text → Result (Text × Text)
destination_of true destination = ok ([], [])
destination_of false none = err exception
destination_of false (some destination) = split_fullname_pot destination

-- The constructor of ProcessOrphansTxtEntry.
pub new_entry : (cmd origin : Text) (destination : Option Text) → Result OrphansEntry
new_entry cmd origin destination = do
  command ← command_of cmd
  orig ← split_fullname_pot origin
  dest ← destination_of (is_delete command) destination
  ok (record {
    command = command;
    orig_path = orig.0;
    orig_name_pot = orig.1;
    dest_path = dest.0;
    dest_name_pot = dest.1;
  })

abbrev pub keep_first : ℕ → Option (Text × Text) → Option (Text × Text)
keep_first c none = none
keep_first c (some (word, rest)) = some (c ∷ word, rest)

-- `strchr(s, ' ')`: what is in front of the first space, and what is behind it.
unfoldable pub at_space : Text → Option (Text × Text)
at_space [] = none
at_space (c ∷ s) = let rest = keep_first c (at_space s) in if c == 32 then some ([], s) else rest

-- `strcspn(s, " \n\r")`
unfoldable pub to_break : Text → Text
to_break [] = []
to_break (c ∷ s) = let rest = c ∷ to_break s in if c == 32 || c == 10 || c == 13 then [] else rest

-- An empty line or a comment.
is_skipped : Text → Bool
is_skipped [] = true
is_skipped (c ∷ s) = c == 10 || c == 13 || text_eq (c ∷ s) (32 ∷ 10 ∷ []) || c == 35

entry_of : (cmd rest : Text) → Option (Text × Text) → Result OrphansEntry
entry_of cmd rest none = new_entry cmd (to_break rest) none
entry_of cmd rest (some (origin, destination)) = new_entry cmd origin (some (to_break destination))

parse_words : Option (Text × Text) → Result OrphansEntry
parse_words none = err assertion
parse_words (some (cmd, rest)) = entry_of cmd rest (at_space rest)

pub parse_line : Text → Result (Option OrphansEntry)
parse_line line =
    if is_skipped line then ok none else (do entry ← parse_words (at_space line); ok (some entry))

add_entry : Option OrphansEntry → List OrphansEntry → List OrphansEntry
add_entry none entries = entries
add_entry (some entry) entries = entry ∷ entries

-- The constructor of ProcessOrphansTxt, over the lines that `fgets` reads.
pub process_orphans_txt : List Text → Result (List OrphansEntry)
process_orphans_txt [] = ok []
process_orphans_txt (line ∷ lines) = do
  entry ← parse_line line
  entries ← process_orphans_txt lines
  ok (add_entry entry entries)

-- `types` says which commands are asked for.
pub find_by_origin :
    List OrphansEntry → (name path : Text) (types : Command → Bool) → List OrphansEntry
find_by_origin [] name path types = []
find_by_origin (e ∷ entries) name path types =
    let rest = find_by_origin entries name path types in
    if types e.command && text_eq path e.orig_path && text_eq name e.orig_name_pot
    then e ∷ rest
    else rest

pub find_by_destination :
    List OrphansEntry → (name path : Text) (types : Command → Bool) → List OrphansEntry
find_by_destination [] name path types = []
find_by_destination (e ∷ entries) name path types =
    let rest = find_by_destination entries name path types in
    if types e.command && text_eq path e.dest_path && text_eq name e.dest_name_pot
    then e ∷ rest
    else rest
