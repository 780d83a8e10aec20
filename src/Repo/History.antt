-- ===== src/Repo/History.antt =====
-- Reading the commits of a repository: `diffCommit` and `readRepositoryCommits` of
-- gettextpo-helper/gtpo/repository.cpp. What libgit2 reads is data: a commit with its tree and its
-- parents.
pub mod Ready
pub mod Returns
mod Examples
pub mod Faults
use stupid_ids.Base.{
  ℕ, ◌+◌, Bool, true, false, not, List, [], ◌∷◌, ◌++◌, Option, none, some, Result, ok, err,
  assertion, out_of_range, assert, ◌>>=◌, ◌>>◌, leb, if◌then◌else◌,
}
use mathlib.Core.List.{reverse}
use stupid_ids.Text.{Text}
use stupid_ids.Repo.{Commit}
use stupid_ids.Repo.Tree.{Tree, diff_tree}

pub record GitCommit : Type 0 where
  pub oid : Text
  pub time : ℕ
  pub root : Tree

-- A commit and all that came before it.
pub data History : Type 0 where
  root_commit : GitCommit → History
  child_commit : GitCommit → (parent : History) → History
  merge_commit : GitCommit → History

abbrev pub head_commit : History → GitCommit
head_commit (root_commit c) = c
head_commit (child_commit c parent) = c
head_commit (merge_commit c) = c

pub record Repository : Type 0 where
  pub commits_init : Bool
  pub commits : List Commit

abbrev pub root_of : Option GitCommit → Option Tree
root_of none = none
root_of (some c) = some c.root

pub diff_commit : Option GitCommit → GitCommit → Repository → Result Repository
diff_commit parent commit repo = do
  assert (not repo.commits_init)
  changes ← diff_tree (root_of parent) (some commit.root) [] []
  ok (record repo {
    commits =
        repo.commits ++ record { oid = commit.oid; time = commit.time; changes = changes } ∷ [];
  })

-- The loop from HEAD to the root.
pub read_history : History → Repository → Result Repository
read_history (root_commit c) repo = diff_commit none c repo
read_history (child_commit c parent) repo = do
  repo' ← diff_commit (some (head_commit parent)) c repo
  read_history parent repo'
read_history (merge_commit c) repo = err assertion

-- No commit is more than 394 seconds later than the next one.
neighbours_fit : Commit → List Commit → Result (Unit {0})
neighbours_fit c [] = ok tt
neighbours_fit c (d ∷ commits) = do assert (leb c.time (d.time + 394)); neighbours_fit d commits

-- `i < m_commits.size() - 1`, which is the largest number where there is no commit.
pub check_neighbours : List Commit → Result (Unit {0})
check_neighbours [] = err out_of_range
check_neighbours (c ∷ commits) = neighbours_fit c commits

-- Each commit is earlier than the second one after it.
seconds_fit : Commit → Commit → List Commit → Result (Unit {0})
seconds_fit c d [] = ok tt
seconds_fit c d (e ∷ commits) = do assert (not (leb e.time c.time)); seconds_fit d e commits

-- `i < m_commits.size() - 2`, which is the largest number where there is one commit.
pub check_every_second : List Commit → Result (Unit {0})
check_every_second [] = ok tt
check_every_second (c ∷ []) = err out_of_range
check_every_second (c ∷ d ∷ commits) = seconds_fit c d commits

pub read_commits : History → Repository → Result Repository
read_commits history repo = do
  read ← read_history history repo
  check_neighbours (reverse read.commits)
  check_every_second (reverse read.commits)
  ok (record { commits_init = true; commits = reverse read.commits })

unfoldable pub read_repository_commits : History → Repository → Result Repository
read_repository_commits history repo =
    if repo.commits_init then ok repo else read_commits history repo
