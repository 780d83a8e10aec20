-- ===== src/Detector/Ordered.antt =====
-- What gettextpo-helper/gtpo/detector.cpp detects are pairs of two different files, the smaller OID
-- first; so the comparisons of pairs do not fail, and `detectTransitions` can sort them.
use stupid_ids.Base.{
  ℕ, ◌+◌, ◌-◌, ◌≡◌, inl, inr, true, List, [], ◌∷◌, Option, none, some, ok, >>=-eq-ok, ok-injective,
  All, All-append, Bool-cases,
}
use stupid_ids.Text.{Text, text_lt}
use stupid_ids.Repo.{Commit, CommitFileChange, ChangeType, add, mod_, del}
use stupid_ids.Repo.Updates.{find_next_update_oid, find_last_update_oid}
use stupid_ids.Repo.Search.{find_last_removal_oid}
use stupid_ids.Repo.History.{History, Repository, read_repository_commits}
use stupid_ids.Orphans.{OrphansEntry}
use stupid_ids.Detector.{
  OidPair, add_oid_pair, stored, add_if_found, add_removed, moves_loop, copies_loop, before_index,
  process_type, process_change, process_changes, commits_loop, detect_successors,
}

abbrev pub IsOrdered : OidPair → Type 0
IsOrdered p = text_lt p.oid1 p.oid2 ≡ true

add_oid_pair-IsOrdered :
    (pairs : List OidPair) (oid1 oid2 : Text)
    → All IsOrdered pairs
    → All IsOrdered (add_oid_pair pairs oid1 oid2)
unfolding add_oid_pair
add_oid_pair-IsOrdered pairs oid1 oid2 v = elim (Bool-cases (text_lt oid1 oid2)) [
  | inl e ↦ rw e (All-append IsOrdered pairs _ v (e, tt))
  | inr e ↦ elim (Bool-cases (text_lt oid2 oid1)) [
    | inl f ↦ rw (e, f) (All-append IsOrdered pairs _ v (f, tt))
    | inr f ↦ rw (e, f) v
  ]
]

add_if_found-IsOrdered :
    (pairs : List OidPair) (oid : Text) (found : Option Text)
    → All IsOrdered pairs
    → All IsOrdered (add_if_found pairs oid found)
add_if_found-IsOrdered pairs oid none v = v
add_if_found-IsOrdered pairs oid (some f) v = add_oid_pair-IsOrdered pairs oid f v

add_removed-IsOrdered :
    (pairs : List OidPair) (found : Option Text) (oid2 : Text)
    → All IsOrdered pairs
    → All IsOrdered (add_removed pairs found oid2)
add_removed-IsOrdered pairs none oid2 v = v
add_removed-IsOrdered pairs (some f) oid2 v = add_oid_pair-IsOrdered pairs f oid2 v

module _ (commits : List Commit) where
  moves_loop-IsOrdered :
      (from_commit : ℕ) (oid : Text) (transitions : List OrphansEntry) (pairs : List OidPair)
      {res : List OidPair}
      → All IsOrdered pairs
      → moves_loop commits from_commit oid transitions pairs ≡ ok res
      → All IsOrdered res
  unfolding moves_loop
  moves_loop-IsOrdered from_commit oid [] pairs v h = rw (← ok-injective h) v
  moves_loop-IsOrdered from_commit oid (e ∷ transitions) pairs v h =
      let (found, p, h') =
        >>=-eq-ok (find_next_update_oid commits from_commit e.dest_name_pot e.dest_path) _ h in
      moves_loop-IsOrdered from_commit oid transitions _ (add_if_found-IsOrdered pairs oid found v)
        h'

  copies_loop-IsOrdered :
      (commit_index : ℕ) (oid : Text) (transitions : List OrphansEntry) (pairs : List OidPair)
      {res : List OidPair}
      → All IsOrdered pairs
      → copies_loop commits commit_index oid transitions pairs ≡ ok res
      → All IsOrdered res
  unfolding copies_loop
  copies_loop-IsOrdered commit_index oid [] pairs v h = rw (← ok-injective h) v
  copies_loop-IsOrdered commit_index oid (e ∷ transitions) pairs v h =
      let (found, p, h') =
        >>=-eq-ok (find_last_update_oid commits commit_index e.orig_name_pot e.orig_path) _ h in
      copies_loop-IsOrdered commit_index oid transitions _
        (add_if_found-IsOrdered pairs oid found v) h'

  module _ (transitions : List OrphansEntry) where
    process_type-IsOrdered :
        (i : ℕ) (type : ChangeType) (c : CommitFileChange) (pairs : List OidPair)
        {res : List OidPair}
        → All IsOrdered pairs
        → process_type commits transitions i type c pairs ≡ ok res
        → All IsOrdered res
    unfolding process_type
    process_type-IsOrdered i mod_ c pairs v h =
        let (oid1, p, h') = >>=-eq-ok (stored c.oid1) _ h in
        let (oid2, q, e) = >>=-eq-ok (stored c.oid2) _ h' in
        rw (← ok-injective e) (add_oid_pair-IsOrdered pairs oid1 oid2 v)
    process_type-IsOrdered i del c pairs v h =
        let (oid1, p, h') = >>=-eq-ok (stored c.oid1) _ h in
        moves_loop-IsOrdered (i - 20) oid1 _ pairs v h'
    process_type-IsOrdered i add c pairs v h =
        let (found, p, h') =
          >>=-eq-ok (find_last_removal_oid commits (before_index i) c.name c.path) _ h in
        let (oid2, q, h'') = >>=-eq-ok (stored c.oid2) _ h' in
        copies_loop-IsOrdered i oid2 _ _ (add_removed-IsOrdered pairs found oid2 v) h''

    process_changes-IsOrdered :
        (i : ℕ) (changes : List CommitFileChange) (pairs : List OidPair) {res : List OidPair}
        → All IsOrdered pairs
        → process_changes commits transitions i changes pairs ≡ ok res
        → All IsOrdered res
    unfolding process_changes process_change
    process_changes-IsOrdered i [] pairs v h = rw (← ok-injective h) v
    process_changes-IsOrdered i (c ∷ changes) pairs v h =
        let (pairs', p, h') = >>=-eq-ok (process_type commits transitions i c.type_ c pairs) _ h in
        process_changes-IsOrdered i changes pairs' (process_type-IsOrdered i c.type_ c pairs v p) h'

    commits_loop-IsOrdered :
        (i : ℕ) (rest : List Commit) (pairs : List OidPair) {res : List OidPair}
        → All IsOrdered pairs
        → commits_loop commits transitions i rest pairs ≡ ok res
        → All IsOrdered res
    unfolding commits_loop
    commits_loop-IsOrdered i [] pairs v h = rw (← ok-injective h) v
    commits_loop-IsOrdered i (c ∷ rest) pairs v h =
        let (pairs', p, h') =
          >>=-eq-ok (process_changes commits transitions i c.changes pairs) _ h in
        commits_loop-IsOrdered (i + 1) rest pairs' (process_changes-IsOrdered i c.changes pairs v p)
          h'

pub detect_successors-IsOrdered :
    (history : History) (repo : Repository) (transitions : List OrphansEntry) {pairs : List OidPair}
    → detect_successors history repo transitions ≡ ok pairs
    → All IsOrdered pairs
unfolding detect_successors
detect_successors-IsOrdered history repo transitions h =
    let (read, p, h') = >>=-eq-ok (read_repository_commits history repo) _ h in
    commits_loop-IsOrdered read.commits transitions 0 read.commits [] tt h'
