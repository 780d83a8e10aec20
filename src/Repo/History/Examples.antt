-- ===== src/Repo/History/Examples.antt =====
-- The commits of two small repositories, as gettextpo-helper/gtpo/repository.cpp reads them.
use stupid_ids.Base.{
  ℕ, zero, suc, ◌+◌, ◌<◌, ◌≤◌, ◌≡◌, Bool, true, false, inl, List, [], ◌∷◌, Option, none, some, ok,
  arith, refl, if◌then◌else◌,
}
use stupid_ids.Text.{Text, text_lt, text_eq}
use stupid_ids.Repo.{CommitFileChange, add, mod_, find_change}
use stupid_ids.Repo.Tree.{
  done, entry, blob, subtree, Tree, diff_tree, diff_entries, diff_objects, lone_entries,
  lone_object, lone_file, add_file_change, new_file_change, before_next, compared_name, is_dir,
  modes_fit,
}
use stupid_ids.Repo.Tree.Sorted.{IsTidy}
use stupid_ids.Repo.History.{
  History, root_commit, child_commit, Repository, diff_commit, read_history, check_neighbours,
  neighbours_fit, check_every_second, seconds_fit, read_commits, read_repository_commits,
}
use mathlib.Core.List.{reverse}
use stupid_ids.Repo.Tree.Returns.{IsPlain}
use stupid_ids.Repo.History.Returns.{
  IsPlainHistory, times_of, nth, AreInTime, commit_times, read_repository_commits_returns,
}
use stupid_ids.Repo.History.Ready.{IsTidyHistory, IsSearchable, read_repository_commits-IsReady}
use stupid_ids.Repo.History.Faults.{unread, mixed_root, added_file, find_change_misses}

-- The file "f" of the directory "d".
abbrev root_with : ℕ → Tree
root_with oid = record {
  id = oid ∷ [];
  entries =
      entry (100 ∷ []) 16384 (subtree (oid ∷ []) (entry (102 ∷ []) 33188 (blob (oid ∷ [])) done))
        done;
}

-- The file is added, and then changed.
abbrev history : History
history =
    child_commit (record { oid = 2 ∷ []; time = 20; root = root_with 2 })
      (root_commit (record { oid = 1 ∷ []; time = 10; root = root_with 1 }))

abbrev change_of : Option Text → Bool → CommitFileChange
change_of oid1 was_added = record {
  oid1 = oid1;
  oid2 = some ((if was_added then 1 else 2) ∷ []);
  path = 100 ∷ [];
  name = 102 ∷ [];
  type_ = if was_added then add else mod_;
}

abbrev have_read : Repository
have_read = record {
  commits_init = true;
  commits =
      record { oid = 1 ∷ []; time = 10; changes = change_of none true ∷ [] }
      ∷ record { oid = 2 ∷ []; time = 20; changes = change_of (some (1 ∷ [])) false ∷ [] }
      ∷ [];
}

reads : read_repository_commits history unread ≡ ok have_read
unfolding read_repository_commits read_commits read_history diff_commit check_neighbours
    neighbours_fit check_every_second seconds_fit diff_tree diff_entries diff_objects lone_entries
    lone_object lone_file add_file_change new_file_change before_next compared_name is_dir modes_fit
    text_lt text_eq
reads = refl

history-IsTidy : IsTidyHistory history
unfolding IsTidy is_dir
history-IsTidy = (
  (((omega arith), tt), (refl, ((omega arith, tt), (refl, tt), tt)), tt),
  (((omega arith), tt), (refl, ((omega arith, tt), (refl, tt), tt)), tt),
)

root_with-IsPlain : (n : ℕ) → IsPlain (root_with n).entries
unfolding IsPlain before_next
root_with-IsPlain n = (refl, (refl, (refl, refl, tt)), tt)

history-IsPlain : IsPlainHistory history
history-IsPlain = (root_with-IsPlain 2, root_with-IsPlain 1)

history-AreInTime : AreInTime (reverse (times_of history))
history-AreInTime = record {
  two = omega arith;
  close = close;
  nearly = λ i l. absurd (omega arith);
}
  where
    close : (i : ℕ) → i + 1 < 2 → nth (10 ∷ 20 ∷ []) i ≤ nth (10 ∷ 20 ∷ []) (i + 1) + 394
    close zero l = omega arith
    close (suc i) l = absurd (omega arith)

read_repository_commits_returns_example :
    (repo' : Repository) × (read_repository_commits history unread ≡ ok repo')
    × (repo'.commits_init ≡ true)
    × IsSearchable repo'.commits
    × (commit_times repo'.commits ≡ reverse (times_of history))
read_repository_commits_returns_example =
    read_repository_commits_returns history unread history-IsTidy history-IsPlain history-AreInTime
      refl refl

read_repository_commits-IsReady_example : (true ≡ true) × IsSearchable have_read.commits
read_repository_commits-IsReady_example =
    read_repository_commits-IsReady history unread have_read history-IsTidy (inl (refl, refl)) reads

directory_first : text_lt (100 ∷ 47 ∷ []) (101 ∷ []) ≡ true
unfolding text_lt
directory_first = refl

-- The files "d/f" and "e".
find_change_misses_example :
    let changes : List CommitFileChange =
      added_file (1 ∷ []) (100 ∷ []) (102 ∷ []) ∷ added_file (2 ∷ []) [] (101 ∷ []) ∷ [] in
    (diff_tree none (some (mixed_root (100 ∷ []) (102 ∷ []) (101 ∷ []) [] (1 ∷ []) (2 ∷ []))) [] []
      ≡ ok changes)
    × (find_change (record { oid = []; time = 10; changes = changes }) (101 ∷ []) [] ≡ ok none)
find_change_misses_example =
    find_change_misses 100 [] (102 ∷ []) (101 ∷ []) [] (1 ∷ []) (2 ∷ []) [] 10 (omega arith)
      directory_first
