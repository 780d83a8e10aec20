-- ===== src/Detector.antt =====
-- The pairs of files that are versions of one another: DetectorSuccessors of
-- gettextpo-helper/gtpo/detector.cpp, and gettextpo-helper/gtpo/detectorbase.cpp.
pub mod Ordered
pub mod Order
pub mod Unique
mod Examples
use stupid_ids.Base.{
  ℕ, zero, suc, ◌+◌, ◌-◌, Bool, true, false, not, ◌&&◌, ◌||◌, List, [], ◌∷◌, ◌++◌, Option, none,
  some, Result, ok, err, uninitialised, assert, ◌>>=◌, ◌>>◌, length, if◌then◌else◌,
}
use stupid_ids.Text.{Text, text_eq, text_lt}
use stupid_ids.Repo.{Commit, CommitFileChange, ChangeType, add, mod_, del}
use stupid_ids.Repo.Updates.{find_next_update_oid, find_last_update_oid}
use stupid_ids.Repo.Search.{find_last_removal_oid}
use stupid_ids.Repo.History.{History, Repository, read_repository_commits}
use stupid_ids.Orphans.{
  Command, move, copy, delete, merge, mergekeep, OrphansEntry, find_by_origin, find_by_destination,
}

pub record OidPair : Type 0 where
  pub oid1 : Text
  pub oid2 : Text

-- `operator<` and `operator==` of GitOidPair.
unfoldable pub pair_lt : OidPair → OidPair → Result Bool
pair_lt p q = do
  assert (text_lt p.oid1 p.oid2)
  ok (text_lt p.oid1 q.oid1 || (not (text_lt q.oid1 p.oid1) && text_lt p.oid2 q.oid2))

unfoldable pub pair_eq : OidPair → OidPair → Result Bool
pair_eq p q = do assert (text_lt p.oid1 p.oid2); ok (text_eq p.oid1 q.oid1 && text_eq p.oid2 q.oid2)

-- The pairs of the detector, with one more at the end. A file is no pair with itself.
unfoldable pub add_oid_pair : List OidPair → (oid1 oid2 : Text) → List OidPair
add_oid_pair pairs oid1 oid2 =
    if text_lt oid1 oid2
    then pairs ++ record { oid1 = oid1; oid2 = oid2 } ∷ []
    else if text_lt oid2 oid1
    then pairs ++ record { oid1 = oid2; oid2 = oid1 } ∷ []
    else pairs

abbrev is_move_or_merge : Command → Bool
is_move_or_merge move = true
is_move_or_merge copy = false
is_move_or_merge delete = false
is_move_or_merge merge = true
is_move_or_merge mergekeep = false

abbrev is_copy : Command → Bool
is_copy move = false
is_copy copy = true
is_copy delete = false
is_copy merge = false
is_copy mergekeep = false

-- The OID of a change, which its constructor has set where the type needs it.
stored : Option Text → Result Text
stored none = err uninitialised
stored (some oid) = ok oid

abbrev pub add_if_found : List OidPair → Text → Option Text → List OidPair
add_if_found pairs oid none = pairs
add_if_found pairs oid (some found) = add_oid_pair pairs oid found

abbrev pub add_removed : List OidPair → Option Text → Text → List OidPair
add_removed pairs none oid2 = pairs
add_removed pairs (some removed) oid2 = add_oid_pair pairs removed oid2

-- The files to which a removed file has been moved.
moves_loop :
    List Commit
    → (from_commit : ℕ) → Text
    → List OrphansEntry
    → List OidPair
    → Result (List OidPair)
moves_loop commits from_commit oid [] pairs = ok pairs
moves_loop commits from_commit oid (e ∷ transitions) pairs = do
  found ← find_next_update_oid commits from_commit e.dest_name_pot e.dest_path
  moves_loop commits from_commit oid transitions (add_if_found pairs oid found)

-- The files from which an added file has been copied.
copies_loop :
    List Commit
    → (commit_index : ℕ) → Text
    → List OrphansEntry
    → List OidPair
    → Result (List OidPair)
copies_loop commits commit_index oid [] pairs = ok pairs
copies_loop commits commit_index oid (e ∷ transitions) pairs = do
  found ← find_last_update_oid commits commit_index e.orig_name_pot e.orig_path
  copies_loop commits commit_index oid transitions (add_if_found pairs oid found)

-- `commit_index - 1`, where `none` is -1.
abbrev before_index : ℕ → Option ℕ
before_index zero = none
before_index (suc n) = some n

process_type :
    List Commit
    → List OrphansEntry
    → ℕ
    → ChangeType
    → CommitFileChange
    → List OidPair
    → Result (List OidPair)
process_type commits transitions commit_index mod_ c pairs = do
  oid1 ← stored c.oid1
  oid2 ← stored c.oid2
  ok (add_oid_pair pairs oid1 oid2)
process_type commits transitions commit_index del c pairs = do
  oid1 ← stored c.oid1
  moves_loop commits (commit_index - 20) oid1
      (find_by_origin transitions c.name c.path is_move_or_merge) pairs
process_type commits transitions commit_index add c pairs = do
  found ← find_last_removal_oid commits (before_index commit_index) c.name c.path
  oid2 ← stored c.oid2
  copies_loop commits commit_index oid2 (find_by_destination transitions c.name c.path is_copy)
      (add_removed pairs found oid2)

-- `transitions` is empty where there is no process_orphans.txt.
pub process_change :
    List Commit
    → (transitions : List OrphansEntry) → (commit_index : ℕ) → CommitFileChange
    → List OidPair
    → Result (List OidPair)
process_change commits transitions commit_index c pairs =
    process_type commits transitions commit_index c.type_ c pairs

process_changes :
    List Commit
    → List OrphansEntry
    → ℕ
    → List CommitFileChange
    → List OidPair
    → Result (List OidPair)
process_changes commits transitions i [] pairs = ok pairs
process_changes commits transitions i (c ∷ changes) pairs = do
  pairs' ← process_change commits transitions i c pairs
  process_changes commits transitions i changes pairs'

commits_loop :
    List Commit
    → List OrphansEntry
    → (i : ℕ) → (rest : List Commit) → List OidPair
    → Result (List OidPair)
commits_loop commits transitions i [] pairs = ok pairs
commits_loop commits transitions i (c ∷ rest) pairs = do
  pairs' ← process_changes commits transitions i c.changes pairs
  commits_loop commits transitions (i + 1) rest pairs'

-- `doDetect` of DetectorSuccessors, with the pairs that it adds.
pub detect_successors :
    History → Repository → (transitions : List OrphansEntry) → Result (List OidPair)
detect_successors history repo transitions = do
  read ← read_repository_commits history repo
  commits_loop read.commits transitions 0 read.commits []

-- `sort` and `unique` of `detectTransitions`.
pub insert_pair : OidPair → List OidPair → Result (List OidPair)
insert_pair p [] = ok (p ∷ [])
insert_pair p (q ∷ qs) = do
  later ← pair_lt q p
  rest ← insert_pair p qs
  ok (if later then q ∷ rest else p ∷ q ∷ qs)

pub sort_pairs : List OidPair → Result (List OidPair)
sort_pairs [] = ok []
sort_pairs (p ∷ ps) = do rest ← sort_pairs ps; insert_pair p rest

-- `p` is the last pair that has been kept.
pub unique_loop : OidPair → List OidPair → Result (List OidPair)
unique_loop p [] = ok (p ∷ [])
unique_loop p (q ∷ qs) = do
  same ← pair_eq p q
  rest ← unique_loop (if same then p else q) qs
  ok (if same then rest else p ∷ rest)

pub unique_pairs : List OidPair → Result (List OidPair)
unique_pairs [] = ok []
unique_pairs (p ∷ ps) = unique_loop p ps

pub sort_unique_pairs : List OidPair → Result (List OidPair)
sort_unique_pairs pairs = do sorted ← sort_pairs pairs; unique_pairs sorted
