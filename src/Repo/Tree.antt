-- ===== src/Repo/Tree.antt =====
-- The difference of two git trees: `Repository::diffTree` of gettextpo-helper/gtpo/repository.cpp
-- and the constructor of gettextpo-helper/gtpo/commitfilechange.cpp. What libgit2 reads is data.
pub mod Keys
pub mod Sorted
pub mod Lone
pub mod Both
pub mod Returns
use stupid_ids.Base.{
  ℕ, ◌/◌, ◌%◌, Bool, true, false, not, ◌&&◌, ◌||◌, List, [], ◌∷◌, ◌++◌, Option, none, some, Result,
  ok, err, assertion, assert, ◌>>=◌, ◌>>◌, ◌==◌, if◌then◌else◌,
}
use stupid_ids.Text.{Text, text_eq, text_lt}
use stupid_ids.Repo.{CommitFileChange, ChangeType, add, mod_, del}

-- The entries of a tree, in the order in which git keeps them. An entry has a name, a mode, and an
-- OID with what is found under it.
mutual
  pub data Entries : Type 0 where
    done : Entries
    entry : (name : Text) (mode : ℕ) (object : Object) (rest : Entries) → Entries

  pub data Object : Type 0 where
    blob : (id : Text) → Object
    subtree : (id : Text) (entries : Entries) → Object

pub record Tree : Type 0 where
  pub id : Text
  pub entries : Entries

abbrev pub entry_id : Object → Text
entry_id (blob id) = id
entry_id (subtree id entries) = id

-- `filemode & REPO_MODE_DIR`, which is 040000.
unfoldable pub is_dir : ℕ → Bool
is_dir mode = (mode / 16384) % 2 == 1

-- The name by which git_tree_entry_namecmp compares.
unfoldable pub compared_name : Text → ℕ → Text
compared_name name mode = if is_dir mode then name ++ 47 ∷ [] else name

abbrev pub concat_path : Text → Text → Text
concat_path path name = path ++ 47 ∷ name

-- The path of a change, where a slash in front is taken off.
abbrev pub without_slash : Text → Text
without_slash [] = []
without_slash (c ∷ path) = if c == 47 then path else c ∷ path

abbrev pub is_null_oid : Option Text → Bool
is_null_oid none = true
is_null_oid (some oid) = false

-- The asserts of the constructor of CommitFileChange.
abbrev pub oids_fit : ChangeType → Option Text → Option Text → Bool
oids_fit add oid1 oid2 = is_null_oid oid1 && not (is_null_oid oid2)
oids_fit del oid1 oid2 = not (is_null_oid oid1) && is_null_oid oid2
oids_fit mod_ oid1 oid2 = not (is_null_oid oid1) && not (is_null_oid oid2)

unfoldable pub new_file_change :
    (oid1 oid2 : Option Text) (path name : Text) → ChangeType → Result CommitFileChange
new_file_change oid1 oid2 path name type = do
  assert (oids_fit type oid1 oid2)
  ok (record { oid1 = oid1; oid2 = oid2; path = without_slash path; name = name; type_ = type })

-- The changes of the current commit, with one more at the end.
unfoldable pub add_file_change :
    List CommitFileChange
    → (oid1 oid2 : Option Text) (path name : Text) → ChangeType
    → Result (List CommitFileChange)
add_file_change changes oid1 oid2 path name type = do
  c ← new_file_change oid1 oid2 path name type
  ok (changes ++ c ∷ [])

-- The assert that an entry comes before the next one.
unfoldable pub before_next : Text → Entries → Bool
before_next key done = true
before_next key (entry name mode object rest) = text_lt key (compared_name name mode)

-- The modes that a changed entry may have: the same, or an executable file becomes a plain one.
unfoldable pub modes_fit : ℕ → ℕ → Bool
modes_fit mode1 mode2 = mode1 == mode2 || (mode1 == 33261 && mode2 == 33188)

-- Which of the two trees is not null.
pub data Side : Type 0 where
  only_first only_second : Side

unfoldable pub lone_file :
    Side → Text → (path name : Text) → List CommitFileChange → Result (List CommitFileChange)
lone_file only_first id path name changes = add_file_change changes (some id) none path name del
lone_file only_second id path name changes = add_file_change changes none (some id) path name add

-- `diffTree(tree1, NULL, path, currentCommit)` and `diffTree(NULL, tree2, path, currentCommit)`
unfoldable mutual
  pub lone_entries : Side → Entries → Text → List CommitFileChange → Result (List CommitFileChange)
  lone_entries side done path changes = ok changes
  lone_entries side (entry name mode object rest) path changes = do
    assert (before_next (compared_name name mode) rest)
    changes' ← lone_object side object name mode path changes
    lone_entries side rest path changes'

  pub lone_object :
      Side
      → Object
      → (name : Text) (mode : ℕ) (path : Text) → List CommitFileChange
      → Result (List CommitFileChange)
  lone_object side (blob id) name mode path changes =
      if is_dir mode then err assertion else lone_file side id path name changes
  lone_object side (subtree id entries) name mode path changes =
      if is_dir mode
      then lone_entries side entries (concat_path path name) changes
      else lone_file side id path name changes

-- The loop of `diffTree` over two trees, and what it does for two entries with one name.
unfoldable mutual
  pub diff_entries :
      Entries → Entries → Text → List CommitFileChange → Result (List CommitFileChange)
  diff_entries done entries2 path changes = lone_entries only_second entries2 path changes
  diff_entries (entry name1 mode1 object1 rest1) done path changes =
      lone_entries only_first (entry name1 mode1 object1 rest1) path changes
  diff_entries (entry name1 mode1 object1 rest1) (entry name2 mode2 object2 rest2) path changes = do
    assert (before_next (compared_name name1 mode1) rest1)
    assert (before_next (compared_name name2 mode2) rest2)
    elim (text_lt (compared_name name1 mode1) (compared_name name2 mode2)) [
      | true ↦ do
        changes' ← lone_object only_first object1 name1 mode1 path changes
        diff_entries rest1 (entry name2 mode2 object2 rest2) path changes'
      | false ↦ elim (text_lt (compared_name name2 mode2) (compared_name name1 mode1)) [
        | true ↦ do
          changes' ← lone_object only_second object2 name2 mode2 path changes
          diff_entries (entry name1 mode1 object1 rest1) rest2 path changes'
        | false ↦ do
          changes' ← diff_objects object1 object2 name1 mode1 mode2 path changes
          diff_entries rest1 rest2 path changes'
      ]
    ]

  pub diff_objects :
      Object
      → Object
      → (name : Text) (mode1 mode2 : ℕ) (path : Text) → List CommitFileChange
      → Result (List CommitFileChange)
  diff_objects (blob id1) object2 name mode1 mode2 path changes =
      if text_eq id1 (entry_id object2) then ok changes else (do
        assert (modes_fit mode1 mode2)
        if is_dir mode1
            then err assertion
            else add_file_change changes (some id1) (some (entry_id object2)) path name mod_)
  diff_objects (subtree id1 entries1) (blob id2) name mode1 mode2 path changes =
      if text_eq id1 id2 then ok changes else (do
        assert (modes_fit mode1 mode2)
        if is_dir mode1
            then err assertion
            else add_file_change changes (some id1) (some id2) path name mod_)
  diff_objects (subtree id1 entries1) (subtree id2 entries2) name mode1 mode2 path changes =
      if text_eq id1 id2 then ok changes else (do
        assert (modes_fit mode1 mode2)
        if is_dir mode1
            then diff_entries entries1 entries2 (concat_path path name) changes
            else add_file_change changes (some id1) (some id2) path name mod_)

-- Two trees, either of which may be null.
unfoldable pub diff_tree :
    Option Tree → Option Tree → Text → List CommitFileChange → Result (List CommitFileChange)
diff_tree none none path changes = ok changes
diff_tree none (some tree2) path changes = lone_entries only_second tree2.entries path changes
diff_tree (some tree1) none path changes = lone_entries only_first tree1.entries path changes
diff_tree (some tree1) (some tree2) path changes =
    if text_eq tree1.id tree2.id
    then ok changes
    else diff_entries tree1.entries tree2.entries path changes
