-- ===== src/Repo/Search/Listed.antt =====
-- What `listCommitsBetweenDates` of gettextpo-helper/gtpo/repository.cpp lists, where the commits are in
-- the order of their times.
use stupid_ids.Base.{
  ℕ, ◌+◌, ◌-◌, ◌≡◌, ◌<◌, inl, inr, Bool, true, false, List, ok, ◌>>=◌, All, length, min, arith,
  refl, subst, if◌then◌else◌,
}
use stupid_ids.Base.Int.{ℤ, pos, ◌≤ℤ◌, ltb_ℤ, pos_part, neg_part}
use stupid_ids.Date.{FileDateTime, git_time, date_lt}
use stupid_ids.Repo.{Commit}
use stupid_ids.Repo.ByTime.{time_at}
use stupid_ids.Repo.Search.{window, sort_by_date, list_commits_between_dates}
use stupid_ids.Repo.Search.Between.{
  IsIn, IsOnce, IsOrdered, sort_by_date-All, sort_by_date-IsOrdered, sort_by_date-IsIn,
  sort_by_date-IsOnce,
}
use stupid_ids.Repo.Search.Window.{LiesBetween, IsListed, All-lift, between_loop-Finds}
use stupid_ids.Repo.Search.Times.{
  Ascends, Descends, ordered_Ascends, ordered_Descends, sort_by_date_returns,
}
use stupid_ids.Repo.Search.Near.{AreInOrder, IsNear, near}

-- What is found, before it is sorted.
record Covers (commits : List Commit) (a b : ℤ) (found : List ℕ) : Type 0 where
  listed : All (IsListed commits a b) found
  once : IsOnce found
  every : (k : ℕ) → IsListed commits a b k → IsIn k found

module _ (commits : List Commit) (a b : FileDateTime) where
  window-Covers :
      {x y : ℤ} {less more : ℕ}
      → IsNear commits x less
      → IsNear commits y more
      → ((d : ℤ) → LiesBetween (git_time a) (git_time b) d → (x ≤ℤ d) × (d ≤ℤ y))
      → (found : List ℕ) × (window commits a b less more ≡ ok found)
        × Covers commits (git_time a) (git_time b) found
  unfolding window
  window-Covers {less} {more} n m inside =
      let (found, f) =
        between_loop-Finds commits a b (min (more + 6) (length commits) - (less - 5)) (less - 5)
          (omega arith) in
      (
        found,
        f.returns,
        record {
          listed = f.listed;
          once = f.once;
          every = λ k w.
              let (low, high) = inside (pos (time_at commits k)) w.between in
              let from = n.back_to k w.there low in
              let to = m.up_to k w.there high in
              let there = w.there in f.all_in k (omega arith) (omega arith) w;
        },
      )

-- The commits whose times lie from one number to the other: all of them, each once, and in the order
-- of their times, or in the opposite order if the second number is the smaller.
pub record AreBetween (commits : List Commit) (a b : ℤ) (res : List ℕ) : Type 0 where
  pub only : All (IsListed commits a b) res
  pub every : (k : ℕ) → IsListed commits a b k → IsIn k res
  pub once : IsOnce res
  pub forward : a ≤ℤ b → Ascends commits res
  pub backward : ¬ (a ≤ℤ b) → Descends commits res

module _ (commits : List Commit) (a b : ℤ) where
  sorted-AreBetween :
      (descending : Bool)
      → ltb_ℤ b a ≡ descending
      → {found : List ℕ} → Covers commits a b found
      → (res : List ℕ) × (sort_by_date commits descending found ≡ ok res)
        × AreBetween commits a b res
  sorted-AreBetween descending h {found} c =
      let inside = All-lift _ (λ j. j < length commits) (λ j l. l.there) found c.listed in
      let (res, e) = sort_by_date_returns commits descending found inside in
      let within =
        sort_by_date-All commits descending (λ j. j < length commits) found res inside e in
      let ordered = sort_by_date-IsOrdered commits descending found res e in
      (
        res,
        e,
        record {
          only = sort_by_date-All commits descending (IsListed commits a b) found res c.listed e;
          every = λ k l. sort_by_date-IsIn commits descending found res e k (c.every k l);
          once = sort_by_date-IsOnce commits descending found res c.once e;
          forward = λ l.
              let up : descending ≡ false = ground arith in
              ordered_Ascends commits res within (subst (λ d. IsOrdered commits d res) up ordered);
          backward = λ l.
              let down : descending ≡ true = ground arith in
              ordered_Descends commits res within
                (subst (λ d. IsOrdered commits d res) down ordered);
        },
      )

lies_forward : (x y d : ℤ) → ltb_ℤ y x ≡ false → LiesBetween x y d → (x ≤ℤ d) × (d ≤ℤ y)
lies_forward x y d h (inl l) = l
lies_forward x y d h (inr (l, u)) =
    let o : x ≤ℤ y = ground arith in (omega (arith, l, u, o), omega (arith, l, u, o))

lies_backward : (x y d : ℤ) → ltb_ℤ y x ≡ true → LiesBetween x y d → (y ≤ℤ d) × (d ≤ℤ x)
lies_backward x y d h (inl (l, u)) =
    let o : pos_part y + neg_part x < pos_part x + neg_part y = ground arith in
    (omega (arith, l, u, o), omega (arith, l, u, o))
lies_backward x y d h (inr l) = l

module _ (commits : List Commit) (a b : FileDateTime) {i j : ℕ} (n : IsNear commits (git_time a) i)
    (m : IsNear commits (git_time b) j) where
  either-Covers :
      (backward : Bool)
      → ltb_ℤ (git_time b) (git_time a) ≡ backward
      → (found : List ℕ) × ((if backward then window commits a b j i else window commits a b i j)
          ≡ ok found)
        × Covers commits (git_time a) (git_time b) found
  either-Covers true h =
      window-Covers commits a b m n (λ d. lies_backward (git_time a) (git_time b) d h)
  either-Covers false h =
      window-Covers commits a b n m (λ d. lies_forward (git_time a) (git_time b) d h)

-- Where no commit is earlier than the one before it, each is later than the second one before it, and
-- both dates are set, `listCommitsBetweenDates` succeeds and returns the commits whose times lie between
-- the dates: all of them, each once, in the order of their times, or in the opposite order if the
-- second date is before the first.
pub list_commits_between_dates_lem :
    (commits : List Commit) (date_a date_b : FileDateTime)
    → AreInOrder commits
    → date_a.init ≡ true
    → date_b.init ≡ true
    → (res : List ℕ) × (list_commits_between_dates commits date_a date_b ≡ ok res)
      × AreBetween commits date_a.date date_b.date res
unfolding list_commits_between_dates
list_commits_between_dates_lem commits date_a date_b sorted h k =
    let p : git_time date_a ≡ date_a.date = rw h refl in
    let q : git_time date_b ≡ date_b.date = rw k refl in
    let (i, n) = near commits sorted (git_time date_a) in
    let (j, m) = near commits sorted (git_time date_b) in
    let same : ltb_ℤ (git_time date_b) (git_time date_a) ≡ date_lt date_b date_a = rw (p, q) refl in
    let (found, e, c) = either-Covers commits date_a date_b n m (date_lt date_b date_a) same in
    let (res, f, g) =
      sorted-AreBetween commits (git_time date_a) (git_time date_b) (date_lt date_b date_a) same
        c in
    (
      res,
      rw (n.returns, ◌>>=◌) (rw (m.returns, ◌>>=◌) (rw (e, ◌>>=◌) f)),
      subst (λ x. AreBetween commits x date_b.date res) p
          (subst (λ y. AreBetween commits (git_time date_a) y res) q g),
    )
