-- ===== src/Repo/History/Returns.antt =====
-- Where `readRepositoryCommits` of gettextpo-helper/gtpo/repository.cpp returns.
use stupid_ids.Base.{
  ℕ, zero, suc, ◌+◌, ◌≡◌, ◌<◌, ◌≤◌, inl, true, false, List, [], ◌∷◌, ◌++◌, Option, none, some, ok,
  ◌>>=◌, length, leb, if◌then◌else◌, arith, refl, sym, ap, subst, ◌∙◌,
}
use mathlib.Core.List.{reverse, reverse-cons, append_assoc}
use stupid_ids.Repo.{Commit}
use stupid_ids.Repo.Tree.Both.{IsTidyTree}
use stupid_ids.Repo.Tree.Returns.{IsPlain, IsPlainTree, diff_tree_returns}
use stupid_ids.Repo.History.{
  GitCommit, History, root_commit, child_commit, merge_commit, head_commit, Repository, root_of,
  diff_commit, read_history, neighbours_fit, check_neighbours, seconds_fit, check_every_second,
  read_commits, read_repository_commits,
}
use stupid_ids.Repo.History.Ready.{
  IsTidyHistory, IsSearchable, head_tidy, read_repository_commits-IsReady,
}

-- No merge, and the trees are in git's order and have no executable files.
abbrev pub IsPlainHistory : History → Type 0
IsPlainHistory (root_commit c) = IsPlain c.root.entries
IsPlainHistory (child_commit c parent) = IsPlain c.root.entries × IsPlainHistory parent
IsPlainHistory (merge_commit c) = ⊥

-- From HEAD to the root.
abbrev pub times_of : History → List ℕ
times_of (root_commit c) = c.time ∷ []
times_of (child_commit c parent) = c.time ∷ times_of parent
times_of (merge_commit c) = c.time ∷ []

abbrev pub nth : List ℕ → ℕ → ℕ
nth [] i = 0
nth (t ∷ ts) zero = t
nth (t ∷ ts) (suc i) = nth ts i

-- At least two, each at most 394 seconds later than the next and earlier than the second one after it.
pub record AreInTime (ts : List ℕ) : Type 0 where
  pub two : 1 < length ts
  pub close : (i : ℕ) → i + 1 < length ts → nth ts i ≤ nth ts (i + 1) + 394
  pub nearly : (i : ℕ) → i + 2 < length ts → nth ts i < nth ts (i + 2)

abbrev pub commit_times : List Commit → List ℕ
commit_times [] = []
commit_times (c ∷ commits) = c.time ∷ commit_times commits

commit_times-append :
    (xs ys : List Commit) → commit_times (xs ++ ys) ≡ commit_times xs ++ commit_times ys
commit_times-append [] ys = refl
commit_times-append (x ∷ xs) ys = ap (◌∷◌ x.time) (commit_times-append xs ys)

commit_times-reverse : (xs : List Commit) → commit_times (reverse xs) ≡ reverse (commit_times xs)
commit_times-reverse [] = refl
commit_times-reverse (x ∷ xs) =
    ap commit_times (reverse-cons x xs)
    ∙ commit_times-append (reverse xs) (x ∷ [])
    ∙ ap (λ ts. ts ++ x.time ∷ []) (commit_times-reverse xs)
    ∙ sym (reverse-cons x.time (commit_times xs))

diff_commit_returns :
    (parent : Option GitCommit) (c : GitCommit) (repo : Repository)
    → IsTidyTree (root_of parent)
    → IsTidyTree (some c.root)
    → IsPlainTree (root_of parent)
    → IsPlain c.root.entries
    → repo.commits_init ≡ false
    → (repo' : Repository) × (diff_commit parent c repo ≡ ok repo')
      × (repo'.commits_init ≡ false)
      × (commit_times repo'.commits ≡ commit_times repo.commits ++ c.time ∷ [])
unfolding diff_commit
diff_commit_returns parent c repo v w h k e =
    let (changes, f) = diff_tree_returns (root_of parent) (some c.root) v w h k in
    (
      record repo {
        commits = repo.commits ++ record { oid = c.oid; time = c.time; changes = changes } ∷ [];
      },
      rw e (rw (f, ◌>>=◌) refl),
      e,
      commit_times-append repo.commits _,
    )

head_commit-IsPlain : (h : History) → IsPlainHistory h → IsPlain (head_commit h).root.entries
head_commit-IsPlain (root_commit c) v = v
head_commit-IsPlain (child_commit c parent) v = v.0
head_commit-IsPlain (merge_commit c) v = absurd v

read_history_returns :
    (history : History) (repo : Repository)
    → IsTidyHistory history
    → IsPlainHistory history
    → repo.commits_init ≡ false
    → (read : Repository) × (read_history history repo ≡ ok read)
      × (commit_times read.commits ≡ commit_times repo.commits ++ times_of history)
unfolding read_history
read_history_returns (root_commit c) repo v w e =
    let (repo', f, g, t) = diff_commit_returns none c repo tt v tt w e in (repo', f, t)
read_history_returns (child_commit c parent) repo v w e =
    let (mid, f, g, t) =
      diff_commit_returns (some (head_commit parent)) c repo (head_tidy parent v.1) v.0
        (head_commit-IsPlain parent w.1) w.0 e in
    let (read, p, q) = read_history_returns parent mid v.1 w.1 g in
    (
      read,
      rw (f, ◌>>=◌) p,
      q
          ∙ ap (λ ts. ts ++ times_of parent) t
          ∙ append_assoc (commit_times repo.commits) (c.time ∷ []) (times_of parent),
    )
read_history_returns (merge_commit c) repo v w e = absurd w

neighbours_fit_ok :
    (c : Commit) (commits : List Commit)
    → ((i : ℕ)
        → i + 1 < length (commit_times (c ∷ commits))
        → nth (commit_times (c ∷ commits)) i ≤ nth (commit_times (c ∷ commits)) (i + 1) + 394)
    → neighbours_fit c commits ≡ ok tt
unfolding neighbours_fit
neighbours_fit_ok c [] h = refl
neighbours_fit_ok c (d ∷ commits) h =
    let first = h 0 (omega arith) in
    let close : leb c.time (d.time + 394) ≡ true = ground arith in
    rw close (
      neighbours_fit_ok d commits (λ i l.
        let same : suc i + 1 ≡ suc (i + 1) = omega arith in
        subst
          (λ k. nth (commit_times (d ∷ commits)) i ≤ nth (commit_times (c ∷ d ∷ commits)) k + 394)
          same (h (suc i) (omega arith))))

seconds_fit_ok :
    (c d : Commit) (commits : List Commit)
    → ((i : ℕ)
        → i + 2 < length (commit_times (c ∷ d ∷ commits))
        → nth (commit_times (c ∷ d ∷ commits)) i < nth (commit_times (c ∷ d ∷ commits)) (i + 2))
    → seconds_fit c d commits ≡ ok tt
unfolding seconds_fit
seconds_fit_ok c d [] h = refl
seconds_fit_ok c d (e ∷ commits) h =
    let first = h 0 (omega arith) in
    let later : leb e.time c.time ≡ false = ground arith in
    rw later (
      seconds_fit_ok d e commits (λ i l.
        let same : suc i + 2 ≡ suc (i + 2) = omega arith in
        subst
          (λ k. nth (commit_times (d ∷ e ∷ commits)) i < nth (commit_times (c ∷ d ∷ e ∷ commits)) k)
          same (h (suc i) (omega arith))))

checks_pass :
    (commits : List Commit)
    → AreInTime (commit_times commits)
    → (check_neighbours commits ≡ ok tt) × (check_every_second commits ≡ ok tt)
unfolding check_neighbours check_every_second
checks_pass [] a = let many = a.two in absurd (omega arith)
checks_pass (c ∷ []) a = let many = a.two in absurd (omega arith)
checks_pass (c ∷ d ∷ commits) a =
    (neighbours_fit_ok c (d ∷ commits) a.close, seconds_fit_ok c d commits a.nearly)

read_commits_ok :
    (history : History) (repo read : Repository)
    → read_history history repo ≡ ok read
    → check_neighbours (reverse read.commits) ≡ ok tt
    → check_every_second (reverse read.commits) ≡ ok tt
    → read_commits history repo
      ≡ ok (record { commits_init = true; commits = reverse read.commits })
unfolding read_commits
read_commits_ok history repo read f p q = rw (f, ◌>>=◌) (rw (p, ◌>>=◌) (rw (q, ◌>>=◌) refl))

pub read_repository_commits_returns :
    (history : History) (repo : Repository)
    → IsTidyHistory history
    → IsPlainHistory history
    → AreInTime (reverse (times_of history))
    → repo.commits_init ≡ false
    → repo.commits ≡ []
    → (repo' : Repository) × (read_repository_commits history repo ≡ ok repo')
      × (repo'.commits_init ≡ true)
      × IsSearchable repo'.commits
      × (commit_times repo'.commits ≡ reverse (times_of history))
unfolding read_repository_commits
read_repository_commits_returns history repo v w a e none_yet =
    let (read, f, t) = read_history_returns history repo v w e in
    let whole : commit_times read.commits ≡ times_of history =
      t ∙ ap (λ cs. commit_times cs ++ times_of history) none_yet in
    let there : commit_times (reverse read.commits) ≡ reverse (times_of history) =
      commit_times-reverse read.commits ∙ ap reverse whole in
    let (p, q) = checks_pass (reverse read.commits) (subst AreInTime (sym there) a) in
    let repo' : Repository = record { commits_init = true; commits = reverse read.commits } in
    let returns : read_repository_commits history repo ≡ ok repo' =
      ap (λ b. if b then ok repo else read_commits history repo) e
      ∙ read_commits_ok history repo read f p q in
    let (init, s) =
      read_repository_commits-IsReady history repo repo' v (inl (e, none_yet)) returns in
    (repo', returns, init, s, there)
