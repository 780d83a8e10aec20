-- ===== src/Repo/History/Ready.antt =====
-- What the searches of gettextpo-helper/gtpo/repository.cpp and commit.cpp need of the commits, and
-- that `readRepositoryCommits` provides it.
use stupid_ids.Base.{
  ℕ, zero, suc, ◌+◌, ◌≡◌, ◌<◌, ◌≤◌, ◌⊎◌, inl, inr, true, false, not, List, [], ◌∷◌, Option, none,
  some, ok, assert-then, >>=-eq-ok, ok-injective, All, All-append, length, get_elem?, leb, leb→le,
  arith, refl, subst,
}
use mathlib.Core.List.{reverse, reverse-cons}
use stupid_ids.Text.{Text, text_lt}
use stupid_ids.Repo.{Commit, CommitFileChange, commit, in_range, full_name}
use stupid_ids.Repo.ByTime.{time_at, IsNearlySorted}
use stupid_ids.Repo.Changes.{AreSorted, name_at, name_of}
use stupid_ids.Repo.Tree.{diff_tree}
use stupid_ids.Repo.Tree.Sorted.{IsSorted}
use stupid_ids.Repo.Tree.Both.{IsTidyTree, diff_tree-IsSorted}
use stupid_ids.Repo.History.{
  GitCommit, History, root_commit, child_commit, merge_commit, head_commit, Repository, root_of,
  diff_commit, read_history, neighbours_fit, check_neighbours, seconds_fit, check_every_second,
  read_commits, read_repository_commits,
}

abbrev pub IsTidyHistory : History → Type 0
IsTidyHistory (root_commit c) = IsTidyTree (some c.root)
IsTidyHistory (child_commit c parent) = IsTidyTree (some c.root) × IsTidyHistory parent
IsTidyHistory (merge_commit c) = IsTidyTree (some c.root)

abbrev ChangesSorted : Commit → Type 0
ChangesSorted c = IsSorted c.changes

diff_commit-sorted :
    (parent : Option GitCommit) (c : GitCommit) (repo : Repository) {repo' : Repository}
    → IsTidyTree (root_of parent)
    → IsTidyTree (some c.root)
    → All ChangesSorted repo.commits
    → diff_commit parent c repo ≡ ok repo'
    → All ChangesSorted repo'.commits
unfolding diff_commit
diff_commit-sorted parent c repo v w s h =
    let (fresh, h') = assert-then (not repo.commits_init) h in
    let (changes, p, q) = >>=-eq-ok (diff_tree (root_of parent) (some c.root) [] []) _ h' in
    let same = ok-injective q in
    rw (← same) (
      All-append ChangesSorted repo.commits _ s
        (diff_tree-IsSorted (root_of parent) (some c.root) v w p, tt))

pub head_tidy : (h : History) → IsTidyHistory h → IsTidyTree (root_of (some (head_commit h)))
head_tidy (root_commit c) v = v
head_tidy (child_commit c parent) v = v.0
head_tidy (merge_commit c) v = v

read_history-sorted :
    (history : History) (repo repo' : Repository)
    → IsTidyHistory history
    → All ChangesSorted repo.commits
    → read_history history repo ≡ ok repo'
    → All ChangesSorted repo'.commits
unfolding read_history
read_history-sorted (root_commit c) repo repo' v s h = diff_commit-sorted none c repo tt v s h
read_history-sorted (child_commit c parent) repo repo' v s h =
    let (mid, p, q) = >>=-eq-ok (diff_commit (some (head_commit parent)) c repo) _ h in
    read_history-sorted parent mid repo' v.1
      (diff_commit-sorted (some (head_commit parent)) c repo (head_tidy parent v.1) v.0 s p) q
read_history-sorted (merge_commit c) repo repo' v s h = cc

All-reverse {ℓ κ} : {A : Type ℓ} (P : A → Type κ) (xs : List A) → All P xs → All P (reverse xs)
All-reverse P [] h = h
All-reverse P (x ∷ xs) h =
    rw (reverse-cons x xs) (All-append P (reverse xs) (x ∷ []) (All-reverse P xs h.1) (h.0, tt))

All-commit :
    (P : Commit → Type 0) (commits : List Commit) (i : ℕ) {c : Commit}
    → All P commits
    → commit commits i ≡ ok c
    → P c
unfolding commit in_range
All-commit P [] i h e = cc
All-commit P (d ∷ commits) zero h e = subst P (ok-injective e) h.0
All-commit P (d ∷ commits) (suc i) h e = All-commit P commits i h.1 e

name_above :
    (c : Text) (xs : List CommitFileChange) (j : ℕ)
    → All (λ d. text_lt c (full_name d) ≡ true) xs
    → j < length xs
    → text_lt c (name_of (get_elem? xs j)) ≡ true
unfolding name_of
name_above c [] j h k = absurd (omega arith)
name_above c (x ∷ xs) zero h k = h.0
name_above c (x ∷ xs) (suc j) h k = name_above c xs j h.1 (omega arith)

names_sorted :
    (xs : List CommitFileChange) (i j : ℕ)
    → IsSorted xs
    → i < j
    → j < length xs
    → text_lt (name_of (get_elem? xs i)) (name_of (get_elem? xs j)) ≡ true
unfolding name_of
names_sorted [] i j s a b = absurd (omega arith)
names_sorted (x ∷ xs) i zero s a b = absurd (omega arith)
names_sorted (x ∷ xs) zero (suc j) s a b = name_above (full_name x) xs j s.0 (omega arith)
names_sorted (x ∷ xs) (suc i) (suc j) s a b = names_sorted xs i j s.1 (omega arith) (omega arith)

IsSorted-AreSorted : (c : Commit) → IsSorted c.changes → AreSorted c
unfolding name_at
IsSorted-AreSorted c s i j a b = names_sorted c.changes i j s a b

seconds_fit-IsNearlySorted :
    (c d : Commit) (commits : List Commit)
    → seconds_fit c d commits ≡ ok tt
    → IsNearlySorted (c ∷ d ∷ commits)
unfolding seconds_fit
seconds_fit-IsNearlySorted c d [] h i inside = absurd (omega arith)
seconds_fit-IsNearlySorted c d (e ∷ commits) h zero inside =
    let (later, h') = assert-then (not (leb e.time c.time)) h in ground arith
seconds_fit-IsNearlySorted c d (e ∷ commits) h (suc i) inside =
    let (later, h') = assert-then (not (leb e.time c.time)) h in
    let same : suc (i + 2) ≡ suc i + 2 = omega arith in
    subst (λ k. time_at (d ∷ e ∷ commits) i < time_at (c ∷ d ∷ e ∷ commits) k) same
      (seconds_fit-IsNearlySorted d e commits h' i (omega arith))

check_every_second-IsNearlySorted :
    (commits : List Commit) → check_every_second commits ≡ ok tt → IsNearlySorted commits
unfolding check_every_second
check_every_second-IsNearlySorted [] h i inside = absurd (omega arith)
check_every_second-IsNearlySorted (c ∷ []) h i inside = absurd (omega arith)
check_every_second-IsNearlySorted (c ∷ d ∷ commits) h i inside =
    seconds_fit-IsNearlySorted c d commits h i inside

-- What `lastCommitByTime` and `findChange` rely on.
pub record IsSearchable (commits : List Commit) : Type 0 where
  pub nearly : IsNearlySorted commits
  pub close : (i : ℕ) → i + 1 < length commits → time_at commits i ≤ time_at commits (i + 1) + 394
  pub sorted : (i : ℕ) (c : Commit) → commit commits i ≡ ok c → AreSorted c

-- Nothing has been read, or what has been read can be searched.
abbrev pub IsReady : Repository → Type 0
IsReady repo =
    ((repo.commits_init ≡ false) × (repo.commits ≡ []))
    ⊎ ((repo.commits_init ≡ true) × IsSearchable repo.commits)

neighbours_fit-close :
    (c : Commit) (commits : List Commit)
    → neighbours_fit c commits ≡ ok tt
    → (i : ℕ) → i + 1 < length (c ∷ commits)
    → time_at (c ∷ commits) i ≤ time_at (c ∷ commits) (i + 1) + 394
unfolding neighbours_fit
neighbours_fit-close c [] h i inside = absurd (omega arith)
neighbours_fit-close c (d ∷ commits) h zero inside =
    let (close, h') = assert-then (leb c.time (d.time + 394)) h in leb→le _ _ close
neighbours_fit-close c (d ∷ commits) h (suc i) inside =
    let (close, h') = assert-then (leb c.time (d.time + 394)) h in
    let same : suc (i + 1) ≡ suc i + 1 = omega arith in
    subst (λ k. time_at (d ∷ commits) i ≤ time_at (c ∷ d ∷ commits) k + 394) same
      (neighbours_fit-close d commits h' i (omega arith))

check_neighbours-close :
    (commits : List Commit)
    → check_neighbours commits ≡ ok tt
    → (i : ℕ) → i + 1 < length commits
    → time_at commits i ≤ time_at commits (i + 1) + 394
unfolding check_neighbours
check_neighbours-close [] h i inside = absurd (omega arith)
check_neighbours-close (c ∷ commits) h i inside = neighbours_fit-close c commits h i inside

read_commits-IsSearchable :
    (history : History) (repo repo' : Repository)
    → IsTidyHistory history
    → repo.commits ≡ []
    → read_commits history repo ≡ ok repo'
    → (repo'.commits_init ≡ true) × IsSearchable repo'.commits
unfolding read_commits
read_commits-IsSearchable history repo repo' v none_yet h =
    let (read, p, h') = >>=-eq-ok (read_history history repo) _ h in
    let (u, q, h'') = >>=-eq-ok (check_neighbours (reverse read.commits)) _ h' in
    let (w, r, t) = >>=-eq-ok (check_every_second (reverse read.commits)) _ h'' in
    let same = ok-injective t in
    let sorted =
      All-reverse ChangesSorted read.commits
        (read_history-sorted history repo read v (rw none_yet tt) p) in
    rw (← same) (
      refl,
      record {
        nearly = check_every_second-IsNearlySorted (reverse read.commits) r;
        close = check_neighbours-close (reverse read.commits) q;
        sorted = λ i c there.
            IsSorted-AreSorted c (All-commit ChangesSorted (reverse read.commits) i sorted there);
      },
    )

-- Where the roots of all commits hold directories only, in the order and with the names and modes
-- that git keeps, the repository is ready, be it read or not, and `readRepositoryCommits` returns, the
-- repository has then been read and can be searched: each commit is earlier than the second one after it and
-- at most 394 seconds later than the next, and the changes of every commit are in the order of their
-- full names.
pub read_repository_commits-IsReady :
    (history : History) (repo repo' : Repository)
    → IsTidyHistory history
    → IsReady repo
    → read_repository_commits history repo ≡ ok repo'
    → (repo'.commits_init ≡ true) × IsSearchable repo'.commits
unfolding read_repository_commits
read_repository_commits-IsReady history repo repo' v (inr (e, s)) h =
    subst (λ r. (r.commits_init ≡ true) × IsSearchable r.commits) (ok-injective (rw e at h))
      (refl, s)
read_repository_commits-IsReady history repo repo' v (inl (e, none_yet)) h =
    read_commits-IsSearchable history (record repo { commits_init = false }) repo' v none_yet
      (rw e at h)
