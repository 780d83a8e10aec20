-- ===== src/Repo/Search.antt =====
-- The other searches of gettextpo-helper/gtpo/repository.cpp and commit.cpp.
mod Between
mod Window
mod Times
mod Near
pub mod Listed
mod Examples
use stupid_ids.Base.{
  ℕ, zero, suc, ◌+◌, ◌-◌, Bool, true, false, not, ◌&&◌, List, [], ◌∷◌, ◌++◌, Option, none, some,
  Result, ok, err, assertion, assert, ◌>>=◌, ◌>>◌, length, ltb, leb, min, if◌then◌else◌,
}
use stupid_ids.Base.Int.{ℤ, pos, negsuc}
use stupid_ids.Text.{Text, text_eq}
use stupid_ids.Date.{
  FileDateTime, of_git_time, date_lt, git_time, is_between, plus_hours, plus_days, plus_seconds,
}
use stupid_ids.Repo.{
  Commit, CommitFileChange, ChangeType, add, mod_, del, commit, find_removal_oid,
  nearest_commit_by_time,
}

-- tryOid1 and tryOid2 of CommitFileChange.
abbrev pub try_oid1 : CommitFileChange → Option Text
try_oid1 c = elim c.type_ [ add ↦ none | mod_ ↦ c.oid1 | del ↦ c.oid1 ]

abbrev pub try_oid2 : CommitFileChange → Option Text
try_oid2 c = elim c.type_ [ add ↦ c.oid2 | mod_ ↦ c.oid2 | del ↦ none ]

-- `for (i = from_commit; i >= 0 && i >= from_commit - 10; i --)`
removal_loop : List Commit → (name path : Text) (rounds i : ℕ) → Result (Option Text)
removal_loop commits name path zero i = ok none
removal_loop commits name path (suc rounds) zero = do
  c ← commit commits 0
  find_removal_oid c name path
removal_loop commits name path (suc rounds) (suc i) = do
  c ← commit commits (suc i)
  oid ← find_removal_oid c name path
  elim oid [ some o ↦ ok (some o) | none ↦ removal_loop commits name path rounds i ]

-- `none` is a number below 0.
pub find_last_removal_oid :
    List Commit → (from_commit : Option ℕ) (name path : Text) → Result (Option Text)
find_last_removal_oid commits none name path = ok none
find_last_removal_oid commits (some from_commit) name path = do
  assert (ltb from_commit (length commits))
  removal_loop commits name path 11 from_commit

pub named : Text → List CommitFileChange → List CommitFileChange
named basename [] = []
named basename (c ∷ changes) =
    if text_eq basename c.name then c ∷ named basename changes else named basename changes

pub find_changes_by_basename : Commit → Text → List CommitFileChange
find_changes_by_basename c basename = named basename c.changes

present : List (Option Text) → List Text
present [] = []
present (none ∷ oids) = present oids
present (some oid ∷ oids) = oid ∷ present oids

update_oids : List CommitFileChange → List Text
update_oids [] = []
update_oids (c ∷ changes) = present (try_oid2 c ∷ []) ++ update_oids changes

pub find_update_oids_by_basename : Commit → Text → List Text
find_update_oids_by_basename c basename = update_oids (find_changes_by_basename c basename)

-- No commit is made before 1970, and `nearestCommitByTime` is 0 where no commit is early enough.
pub nearest : List Commit → ℤ → Result ℕ
nearest commits (pos time) = nearest_commit_by_time commits time
nearest commits (negsuc time) = ok 0

-- `for (i = less; i <= more; i ++)`
pub between_loop : List Commit → (a b : FileDateTime) (rounds i : ℕ) → Result (List ℕ)
between_loop commits a b zero i = ok []
between_loop commits a b (suc rounds) i = do
  c ← commit commits i
  rest ← between_loop commits a b rounds (i + 1)
  ok (if is_between (of_git_time (pos c.time)) a b then i ∷ rest else rest)

pub compare_commits_by_date : List Commit → (a b : ℕ) (descending : Bool) → Result Bool
compare_commits_by_date commits a b descending = do
  assert (ltb a (length commits) && ltb b (length commits))
  first ← commit commits a
  second ← commit commits b
  ok (if descending then ltb second.time first.time else ltb first.time second.time)

-- `sort` with this order. Commits of one time stay in the order of the list.
pub insert_by_date : List Commit → (descending : Bool) (a : ℕ) → List ℕ → Result (List ℕ)
insert_by_date commits descending a [] = ok (a ∷ [])
insert_by_date commits descending a (b ∷ bs) = do
  later ← compare_commits_by_date commits b a descending
  rest ← insert_by_date commits descending a bs
  ok (if later then b ∷ rest else a ∷ b ∷ bs)

pub sort_by_date : List Commit → (descending : Bool) → List ℕ → Result (List ℕ)
sort_by_date commits descending [] = ok []
sort_by_date commits descending (a ∷ rest_of) = do
  rest ← sort_by_date commits descending rest_of
  insert_by_date commits descending a rest

-- From 5 commits before the one to 5 commits after the other.
pub window : List Commit → (a b : FileDateTime) (less more : ℕ) → Result (List ℕ)
window commits a b less more =
    between_loop commits a b (min (more + 6) (length commits) - (less - 5)) (less - 5)

pub list_commits_between_dates : List Commit → FileDateTime → FileDateTime → Result (List ℕ)
list_commits_between_dates commits date_a date_b = do
  a ← nearest commits (git_time date_a)
  b ← nearest commits (git_time date_b)
  found ←
      (if date_lt date_b date_a
        then window commits date_a date_b b a
        else window commits date_a date_b a b)
  sort_by_date commits (date_lt date_b date_a) found

-- assert(po_oids.size() <= 1); and go on where there is none.
pot_loop : List Commit → (basename : Text) → List ℕ → Result (Option Text)
pot_loop commits basename [] = ok none
pot_loop commits basename (i ∷ is) = do
  c ← commit commits i
  elim (find_update_oids_by_basename c basename) [
    | [] ↦ pot_loop commits basename is
    | oid ∷ oids ↦ elim oids [ [] ↦ ok (some oid) | other ∷ more ↦ err assertion ]
  ]

pub find_relevant_pot : List Commit → (basename : Text) → FileDateTime → Result (Option Text)
find_relevant_pot commits basename date = do
  near ← list_commits_between_dates commits (plus_hours date (negsuc 2)) (plus_days date (pos 14))
  before ←
      (list_commits_between_dates commits (plus_seconds (plus_hours date (negsuc 2)) (negsuc 0))
        (of_git_time (pos 0)))
  pot_loop commits basename (near ++ before)

with_change : CommitFileChange → List Text → List (Text × CommitFileChange)
with_change c [] = []
with_change c (oid ∷ oids) = (oid, c) ∷ with_change c oids

dump_changes : List CommitFileChange → List (Text × CommitFileChange)
dump_changes [] = []
dump_changes (c ∷ changes) =
    with_change c (present (try_oid1 c ∷ try_oid2 c ∷ [])) ++ dump_changes changes

-- Every OID, with the change that it stands in.
pub dump_oids : List Commit → List (Text × CommitFileChange)
dump_oids [] = []
dump_oids (c ∷ commits) = dump_changes c.changes ++ dump_oids commits

index_loop : List Commit → Text → (i : ℕ) → Option ℕ
index_loop [] oid i = none
index_loop (c ∷ commits) oid i =
    if text_eq oid c.oid then some i else index_loop commits oid (i + 1)

-- `none` is -1.
pub commit_index_by_oid : List Commit → Text → Option ℕ
commit_index_by_oid commits oid = index_loop commits oid 0
