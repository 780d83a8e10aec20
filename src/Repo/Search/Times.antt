-- ===== src/Repo/Search/Times.antt =====
-- The sort by date of gettextpo-helper/gtpo/repository.cpp returns, and puts the commits in the order of
-- their times.
use stupid_ids.Base.{
  ℕ, ◌≡◌, ◌<◌, ◌≤◌, Bool, true, false, ◌&&◌, List, [], ◌∷◌, ok, ◌>>=◌, All, length, ltb, arith,
  refl, if◌then◌else◌, sym, ◌∙◌, ok-injective,
}
use stupid_ids.Repo.{Commit}
use stupid_ids.Repo.ByTime.{time_at, commit-at}
use stupid_ids.Repo.Search.{compare_commits_by_date, insert_by_date, sort_by_date}
use stupid_ids.Repo.Search.Between.{IsOrdered, sort_by_date-All}

abbrev pub Ascends : List Commit → List ℕ → Type 0
Ascends commits [] = Unit
Ascends commits (i ∷ []) = Unit
Ascends commits (i ∷ j ∷ js) = (time_at commits i ≤ time_at commits j) × Ascends commits (j ∷ js)

abbrev pub Descends : List Commit → List ℕ → Type 0
Descends commits [] = Unit
Descends commits (i ∷ []) = Unit
Descends commits (i ∷ j ∷ js) = (time_at commits j ≤ time_at commits i) × Descends commits (j ∷ js)

module _ (commits : List Commit) where
  compare_at :
      (a b : ℕ) (descending : Bool)
      → a < length commits
      → b < length commits
      → compare_commits_by_date commits a b descending
        ≡ ok (
            if descending
            then ltb (time_at commits b) (time_at commits a)
            else ltb (time_at commits a) (time_at commits b))
  unfolding compare_commits_by_date
  compare_at a b descending h k =
      let (c, p, q) = commit-at commits a h in
      let (d, r, s) = commit-at commits b k in
      let inside : (ltb a (length commits) && ltb b (length commits)) ≡ true = ground arith in
      rw (inside, p, ◌>>=◌) (rw (r, ◌>>=◌) (rw (q, s) refl))

  pub ordered_Ascends :
      (is : List ℕ)
      → All (λ i. i < length commits) is
      → IsOrdered commits false is
      → Ascends commits is
  ordered_Ascends [] h o = tt
  ordered_Ascends (i ∷ []) h o = tt
  ordered_Ascends (i ∷ j ∷ js) h o =
      let e : ltb (time_at commits j) (time_at commits i) ≡ false =
        ok-injective (sym (compare_at j i false h.1.0 h.0) ∙ o.0) in
      (ground arith, ordered_Ascends (j ∷ js) h.1 o.1)

  pub ordered_Descends :
      (is : List ℕ)
      → All (λ i. i < length commits) is
      → IsOrdered commits true is
      → Descends commits is
  ordered_Descends [] h o = tt
  ordered_Descends (i ∷ []) h o = tt
  ordered_Descends (i ∷ j ∷ js) h o =
      let e : ltb (time_at commits i) (time_at commits j) ≡ false =
        ok-injective (sym (compare_at j i true h.1.0 h.0) ∙ o.0) in
      (ground arith, ordered_Descends (j ∷ js) h.1 o.1)

  insert_by_date_returns :
      (descending : Bool) (i : ℕ) (is : List ℕ)
      → i < length commits
      → All (λ j. j < length commits) is
      → (res : List ℕ) × (insert_by_date commits descending i is ≡ ok res)
  unfolding insert_by_date
  insert_by_date_returns descending i [] h hs = (i ∷ [], refl)
  insert_by_date_returns descending i (j ∷ js) h hs =
      let (rest, e) = insert_by_date_returns descending i js h hs.1 in
      let later : Bool =
        (if descending
          then ltb (time_at commits i) (time_at commits j)
          else ltb (time_at commits j) (time_at commits i)) in
      (
        (if later then j ∷ rest else i ∷ j ∷ js),
        rw (compare_at j i descending hs.0 h, ◌>>=◌) (rw (e, ◌>>=◌) refl),
      )

  pub sort_by_date_returns :
      (descending : Bool) (is : List ℕ)
      → All (λ j. j < length commits) is
      → (res : List ℕ) × (sort_by_date commits descending is ≡ ok res)
  unfolding sort_by_date
  sort_by_date_returns descending [] hs = ([], refl)
  sort_by_date_returns descending (i ∷ is) hs =
      let (rest, e) = sort_by_date_returns descending is hs.1 in
      let inside = sort_by_date-All commits descending (λ j. j < length commits) is rest hs.1 e in
      let (res, f) = insert_by_date_returns descending i rest hs.0 inside in (res, rw (e, ◌>>=◌) f)
