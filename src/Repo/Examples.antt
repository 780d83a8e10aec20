-- ===== src/Repo/Examples.antt =====
-- The searches in one small list of commits.
use stupid_ids.Base.{
  subst, ok-injective, ℕ, zero, suc, ◌-◌, ◌≡◌, ◌≢◌, ◌<◌, ◌≤◌, ◌⊎◌, List, [], ◌∷◌, none, some, ok,
  arith, refl,
}
use stupid_ids.Text.{Text, text_lt}
use stupid_ids.Repo.Updates.{LastUpdate, find_file_oid_by_time, find_file_oid_by_time_lem}
use stupid_ids.Repo.{
  commit, in_range, Commit, CommitFileChange, add, build_pathname, full_name, change, find_change,
  last_commit_by_time,
}
use stupid_ids.Repo.ByTime.{time_at, IsNearlySorted, last_commit_by_time_lem}
use stupid_ids.Repo.Changes.{name_at, name_of, AreSorted, find_change-Answers}

abbrev at_time : ℕ → Commit
at_time time = record { oid = []; time = time; changes = [] }

-- The third commit is older than the second.
abbrev commits : List Commit
commits = at_time 10 ∷ at_time 30 ∷ at_time 20 ∷ at_time 40 ∷ []

commits-IsNearlySorted : IsNearlySorted commits
commits-IsNearlySorted zero h = omega arith
commits-IsNearlySorted (suc zero) h = omega arith
commits-IsNearlySorted (suc (suc i)) h = absurd (omega arith)

last_commit_by_time_lem_example :
    (i : ℕ) × (last_commit_by_time commits 25 ≡ ok (some i))
    × (i < 4)
    × (time_at commits i ≤ 25)
    × ((j : ℕ) → i < j → j < 4 → (25 < time_at commits j) ⊎ (25 < time_at commits (j - 1)))
last_commit_by_time_lem_example =
    last_commit_by_time_lem commits 25 (omega arith) (omega arith) commits-IsNearlySorted

-- Files "a" and "b" of the directory "/d".
abbrev file : ℕ → CommitFileChange
file letter = record {
  oid1 = none;
  oid2 = some (letter ∷ []);
  path = 47 ∷ 100 ∷ [];
  name = letter ∷ [];
  type_ = add;
}

abbrev two_files : Commit
two_files = record { oid = []; time = 10; changes = file 97 ∷ file 98 ∷ [] }

two_files-AreSorted : AreSorted two_files
unfolding name_at name_of full_name build_pathname text_lt
two_files-AreSorted zero zero h k = absurd (omega arith)
two_files-AreSorted zero (suc zero) h k = refl
two_files-AreSorted zero (suc (suc j)) h k = absurd (omega arith)
two_files-AreSorted (suc i) j h k = absurd (omega arith)

find_change-Answers_example :
    ((i : ℕ) × (x : CommitFileChange) × (i < 2)
      × (find_change two_files (98 ∷ []) (47 ∷ 100 ∷ []) ≡ ok (some x))
      × (change two_files i ≡ ok x)
      × (full_name x ≡ build_pathname (47 ∷ 100 ∷ []) (98 ∷ [])))
    ⊎ ((find_change two_files (98 ∷ []) (47 ∷ 100 ∷ []) ≡ ok none)
        × ((i : ℕ) → i < 2 → name_at two_files i ≢ build_pathname (47 ∷ 100 ∷ []) (98 ∷ [])))
find_change-Answers_example =
    find_change-Answers two_files two_files-AreSorted (98 ∷ []) (47 ∷ 100 ∷ [])

-- The file "b" is added by the second of three commits.
abbrev empty_commit : ℕ → Commit
empty_commit time = record { oid = []; time = time; changes = [] }

abbrev history : List Commit
history = empty_commit 5 ∷ two_files ∷ empty_commit 20 ∷ []

empty-AreSorted : (time : ℕ) → AreSorted (empty_commit time)
empty-AreSorted time i j h k = absurd (omega arith)

history-AreSorted : (i : ℕ) (c : Commit) → commit history i ≡ ok c → AreSorted c
unfolding commit in_range
history-AreSorted zero c e = subst AreSorted (ok-injective e) (empty-AreSorted 5)
history-AreSorted (suc zero) c e = subst AreSorted (ok-injective e) two_files-AreSorted
history-AreSorted (suc (suc zero)) c e = subst AreSorted (ok-injective e) (empty-AreSorted 20)
history-AreSorted (suc (suc (suc i))) c e = cc

abbrev b_name : Text
b_name = 98 ∷ []

abbrev d_path : Text
d_path = 47 ∷ 100 ∷ []

history-IsNearlySorted : IsNearlySorted history
history-IsNearlySorted zero h = omega arith
history-IsNearlySorted (suc i) h = absurd (omega arith)

find_file_oid_by_time_lem_example :
    (i : ℕ) × (last_commit_by_time history 15 ≡ ok (some i))
    × (time_at history i ≤ 15)
    × LastUpdate history b_name d_path i (find_file_oid_by_time history 15 b_name d_path)
find_file_oid_by_time_lem_example =
    find_file_oid_by_time_lem history b_name d_path history-AreSorted 15 (omega arith) (omega arith)
      history-IsNearlySorted
