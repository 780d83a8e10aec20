-- ===== src/Repo.antt =====
-- The list of commits of a repository: gettextpo-helper/gtpo/commit.cpp and repository.cpp. Times are
-- seconds since 1970, and none is before.
pub mod ByTime
pub mod Changes
pub mod Updates
pub mod Tree
pub mod History
pub mod Search
pub mod Blobs
mod Examples
use stupid_ids.Base.{
  ℕ, zero, suc, ◌+◌, ◌-◌, ◌/◌, ◌≡◌, ◌<◌, ◌≤◌, Bool, true, false, not, ◌&&◌, ◌||◌, List, [], ◌∷◌,
  ◌++◌, Acc, Option, none, some, Result, ok, err, assertion, ◌>>=◌, length, get_elem?,
  if◌then◌else◌, dite, dec_lt, lt_wf, ltb, leb, ◌==◌, arith,
}
use stupid_ids.Text.{Text, text_lt}

-- CommitFileChange::type
pub data ChangeType : Type 0 where
  add mod_ del : ChangeType

pub record CommitFileChange : Type 0 where
  pub oid1 : Option Text
  pub oid2 : Option Text
  pub path : Text
  pub name : Text
  pub type_ : ChangeType

pub record Commit : Type 0 where
  pub oid : Text
  pub time : ℕ
  pub changes : List CommitFileChange

in_range : Option Commit → Result Commit
in_range none = err assertion
in_range (some c) = ok c

-- Repository::commit asserts the range.
pub commit : List Commit → ℕ → Result Commit
commit commits index = in_range (get_elem? commits index)

pub left_half_falls : (l width : ℕ) → 2 < width → (l + (l + width)) / 2 - l < width
left_half_falls l width h = omega arith

pub right_half_falls : (l width : ℕ) → 2 < width → l + width - (l + (l + width)) / 2 < width
right_half_falls l width h = omega arith

or_first : Option ℕ → ℕ
or_first none = 0
or_first (some index) = index

-- `for (; r >= l; r --)` from `r = l + k` on; past it the code has `assert(0)`.
pub scan_down : List Commit → (time l k : ℕ) → Result ℕ
scan_down commits time l zero = do
  c ← commit commits l
  if leb c.time time then ok l else err assertion
scan_down commits time l (suc k) = do
  c ← commit commits (l + suc k)
  elim (leb c.time time) [ true ↦ ok (l + suc k) | false ↦ scan_down commits time l k ]

-- `while (r - l > 2)`, and the scan after it; `width` is `r - l`.
pub search_loop : List Commit → (time l width : ℕ) → Acc ◌<◌ width → Result ℕ
search_loop commits time l width (Acc.intro _ smaller) =
    dite (dec_lt 2 width)
      (λ wide. do
        c ← commit commits ((l + (l + width)) / 2)
        elim (ltb time c.time) [
          | true ↦
              search_loop commits time l ((l + (l + width)) / 2 - l)
                (smaller _ (left_half_falls l width wide))
          | false ↦
              search_loop commits time ((l + (l + width)) / 2) (l + width - (l + (l + width)) / 2)
                (smaller _ (right_half_falls l width wide))
        ])
      (λ _. scan_down commits time l width)

-- `none` is -1: there is no commit yet.
pub last_commit_by_time : List Commit → ℕ → Result (Option ℕ)
last_commit_by_time [] time = ok none
last_commit_by_time (first ∷ commits) time = if ltb time first.time then ok none else (do
  found ← search_loop (first ∷ commits) time 0 (length commits) (lt_wf.apply (length commits))
  ok (some found))

pub nearest_commit_by_time : List Commit → ℕ → Result ℕ
nearest_commit_by_time commits time = do
  found ← last_commit_by_time commits time
  ok (or_first found)

-- "#{path}/#{name}"; 47 is the slash.
pub build_pathname : (path name : Text) → Text
build_pathname path name = path ++ 47 ∷ name

pub full_name : CommitFileChange → Text
full_name c = build_pathname c.path c.name

change_in_range : Option CommitFileChange → Result CommitFileChange
change_in_range none = err assertion
change_in_range (some c) = ok c

pub change : Commit → ℕ → Result CommitFileChange
change c index = change_in_range (get_elem? c.changes index)

-- `(left + right) / 2`, where `right` is `left + width - 1`.
abbrev pub middle : (left width : ℕ) → ℕ
middle left width = (left + (left + width - 1)) / 2

pub after_middle_falls :
    (left width : ℕ) → 0 < width → left + width - (middle left width + 1) < width
after_middle_falls left width h = omega arith

pub before_middle_falls : (left width : ℕ) → 0 < width → middle left width - left < width
before_middle_falls left width h = omega arith

-- `while (left <= right)`; names have no zero bytes, so that `strcmp` is the order of strings.
pub find_loop :
    Commit → (pattern : Text) (left width : ℕ) → Acc ◌<◌ width → Result (Option CommitFileChange)
find_loop c pattern left width (Acc.intro _ smaller) =
    dite (dec_lt 0 width)
      (λ some_left. do
        found ← change c (middle left width)
        elim (text_lt (full_name found) pattern) [
          | true ↦
              find_loop c pattern (middle left width + 1) (left + width - (middle left width + 1))
                (smaller _ (after_middle_falls left width some_left))
          | false ↦ elim (text_lt pattern (full_name found)) [
            | true ↦
                find_loop c pattern left (middle left width - left)
                  (smaller _ (before_middle_falls left width some_left))
            | false ↦ ok (some found)
          ]
        ])
      (λ _. ok none)

pub find_change : Commit → (name path : Text) → Result (Option CommitFileChange)
find_change c name path =
    find_loop c (build_pathname path name) 0 (length c.changes) (lt_wf.apply (length c.changes))

removal_oid : Option CommitFileChange → Option Text
removal_oid none = none
removal_oid (some c) = elim c.type_ [ del ↦ c.oid1 | _ ↦ none ]

update_oid : Option CommitFileChange → Option Text
update_oid none = none
update_oid (some c) = elim c.type_ [ del ↦ none | _ ↦ c.oid2 ]

pub find_removal_oid : Commit → (name path : Text) → Result (Option Text)
find_removal_oid c name path = do found ← find_change c name path; ok (removal_oid found)

pub find_update_oid : Commit → (name path : Text) → Result (Option Text)
find_update_oid c name path = do found ← find_change c name path; ok (update_oid found)
