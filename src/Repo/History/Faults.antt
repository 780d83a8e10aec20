-- ===== src/Repo/History/Faults.antt =====
-- Where gettextpo-helper/gtpo/repository.cpp and commit.cpp do not do what they mean to.
use stupid_ids.Base.{
  ℕ, ◌≡◌, ◌<◌, true, false, List, [], ◌∷◌, ◌++◌, none, some, ok, err, out_of_range, ◌>>=◌, arith,
  refl, lt_wf, Acc, dif_pos, dif_neg, le_prop, ◌-◌, ◌∙◌, dec_lt,
}
use stupid_ids.Text.{Text, text_lt}
use stupid_ids.Repo.{
  Commit, CommitFileChange, add, find_change, find_loop, full_name, build_pathname, change,
  change_in_range, middle, before_middle_falls,
}
use stupid_ids.Repo.Tree.{
  Tree, diff_tree, entry, done, blob, subtree, is_dir, compared_name, lone_entries, lone_object,
  lone_file, add_file_change, new_file_change, before_next,
}
use stupid_ids.Repo.History.{
  GitCommit, root_commit, Repository, diff_commit, read_history, check_neighbours, neighbours_fit,
  check_every_second, read_commits, read_repository_commits,
}

abbrev pub unread : Repository
unread = record { commits_init = false; commits = [] }

-- On a repository with one commit, whose tree can be compared, `readRepositoryCommits` reads past the
-- end of the list of commits.
pub read_repository_commits_single :
    (c : GitCommit) {changes : List CommitFileChange}
    → diff_tree none (some c.root) [] [] ≡ ok changes
    → read_repository_commits (root_commit c) unread ≡ err out_of_range
unfolding read_repository_commits read_commits read_history diff_commit check_neighbours
    neighbours_fit check_every_second
read_repository_commits_single c h = rw h

-- The root of a repository: a directory with one file, and one file after it.
abbrev pub mixed_root : (directory file_in_it file : Text) (id oid oid' : Text) → Tree
mixed_root directory file_in_it file id oid oid' = record {
  id = id;
  entries =
      entry directory 16384 (subtree id (entry file_in_it 33188 (blob oid) done))
        (entry file 33188 (blob oid') done);
}

abbrev pub added_file : (oid path name : Text) → CommitFileChange
added_file oid path name = record {
  oid1 = none;
  oid2 = some oid;
  path = path;
  name = name;
  type_ = add;
}

find_loop_end :
    (c : Commit) (pattern : Text) (left : ℕ) (w : Acc ◌<◌ 0)
    → find_loop c pattern left 0 w ≡ ok none
unfolding find_loop
find_loop_end c pattern left (Acc.intro _ smaller) = rw (dif_neg (dec_lt 0 0) (omega arith))

-- One round that goes left.
find_loop_left :
    (c : Commit) (pattern : Text) (left width : ℕ) (w : Acc ◌<◌ width) (x : CommitFileChange)
    → 0 < width
    → change c (middle left width) ≡ ok x
    → text_lt (full_name x) pattern ≡ false
    → text_lt pattern (full_name x) ≡ true
    → (w' : Acc ◌<◌ (middle left width - left)) × (find_loop c pattern left width w
        ≡ find_loop c pattern left (middle left width - left) w')
unfolding find_loop
find_loop_left c pattern left width (Acc.intro _ smaller) x some_left there t u = (
  smaller _ (before_middle_falls left width some_left),
  rw (dif_pos (dec_lt 0 width) le_prop some_left, there, ◌>>=◌) (rw (t, u)),
)

-- Where a root directory whose name begins with a byte above the slash comes before a file of the
-- root, `diffTree` lists both files in this order; `findChange` does not find the file of the root in
-- that list.
pub find_change_misses :
    (c : ℕ) (d x f id oid oid' commit_oid : Text) (time : ℕ)
    → 47 < c
    → text_lt ((c ∷ d) ++ 47 ∷ []) f ≡ true
    → let changes = added_file oid (c ∷ d) x ∷ added_file oid' [] f ∷ [] in
      (diff_tree none (some (mixed_root (c ∷ d) x f id oid oid')) [] [] ≡ ok changes)
      × (find_change (record { oid = commit_oid; time = time; changes = changes }) f [] ≡ ok none)
unfolding diff_tree lone_entries lone_object lone_file add_file_change new_file_change before_next
    compared_name is_dir find_change full_name build_pathname change change_in_range text_lt
find_change_misses c d x f id oid oid' commit_oid time above before = (
  rw before refl,
  let changes : List CommitFileChange = added_file oid (c ∷ d) x ∷ added_file oid' [] f ∷ [] in
      let commit : Commit = record { oid = commit_oid; time = time; changes = changes } in
      let (w, e) =
        find_loop_left commit (47 ∷ f) 0 2 (lt_wf.apply 2) (added_file oid (c ∷ d) x) (omega arith)
          refl (ground arith) (ground arith) in
      e ∙ find_loop_end commit (47 ∷ f) 0 w,
)
