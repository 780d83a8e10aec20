-- ===== src/Repo/Search/Between.antt =====
-- The sort by date of gettextpo-helper/gtpo/repository.cpp, where it returns.
use stupid_ids.Base.{
  ℕ, ◌≡◌, ◌≢◌, ◌⊎◌, sym, inl, inr, Bool, true, false, ◌&&◌, List, [], ◌∷◌, ok, assert-then, ◌>>=◌,
  >>=-eq-ok, ok-injective, All, length, ltb, arith, Bool-cases, if◌then◌else◌,
}
use stupid_ids.Repo.{Commit, commit}
use stupid_ids.Repo.Search.{compare_commits_by_date, insert_by_date, sort_by_date}

abbrev pub IsIn : ℕ → List ℕ → Type 0
IsIn k [] = ⊥
IsIn k (i ∷ is) = (i ≡ k) ⊎ IsIn k is

abbrev pub IsOnce : List ℕ → Type 0
IsOnce [] = Unit
IsOnce (i ∷ is) = All (λ j. j ≢ i) is × IsOnce is

-- The second commit does not come before the first in the given order.
abbrev pub NotAfter : List Commit → Bool → ℕ → ℕ → Type 0
NotAfter commits descending i j = compare_commits_by_date commits j i descending ≡ ok false

module _ (commits : List Commit) (descending : Bool) (P : ℕ → Type 0) where
  insert_by_date-All :
      (i : ℕ) (is res : List ℕ)
      → P i
      → All P is
      → insert_by_date commits descending i is ≡ ok res
      → All P res
  unfolding insert_by_date
  insert_by_date-All i [] res p ps h = rw (← ok-injective h) (p, tt)
  insert_by_date-All i (j ∷ js) res p ps h =
      let (later, q, h') = >>=-eq-ok (compare_commits_by_date commits j i descending) _ h in
      let (rest, r, e) = >>=-eq-ok (insert_by_date commits descending i js) _ h' in
      elim (Bool-cases later) [
        | inl t ↦
            let same : j ∷ rest ≡ res = ok-injective (rw t at e) in
            rw (← same) (ps.0, insert_by_date-All i js rest p ps.1 r)
        | inr t ↦ let same : i ∷ j ∷ js ≡ res = ok-injective (rw t at e) in rw (← same) (p, ps)
      ]

  pub sort_by_date-All :
      (is res : List ℕ) → All P is → sort_by_date commits descending is ≡ ok res → All P res
  unfolding sort_by_date
  sort_by_date-All [] res ps h = rw (← ok-injective h) tt
  sort_by_date-All (i ∷ is) res ps h =
      let (rest, q, e) = >>=-eq-ok (sort_by_date commits descending is) _ h in
      insert_by_date-All i rest res ps.0 (sort_by_date-All is rest ps.1 q) e

abbrev pub HeadNotAfter : List Commit → Bool → ℕ → List ℕ → Type 0
HeadNotAfter commits descending i [] = Unit
HeadNotAfter commits descending i (j ∷ js) = NotAfter commits descending i j

abbrev pub IsOrdered : List Commit → Bool → List ℕ → Type 0
IsOrdered commits descending [] = Unit
IsOrdered commits descending (i ∷ is) =
    HeadNotAfter commits descending i is × IsOrdered commits descending is

dates_asym :
    (descending : Bool) (s t : ℕ)
    → ok (if descending then ltb t s else ltb s t) ≡ ok true
    → ok (if descending then ltb s t else ltb t s) ≡ ok false
dates_asym true s t h = ground arith
dates_asym false s t h = ground arith

module _ (commits : List Commit) where
  compare_asym :
      (i j : ℕ) (descending : Bool)
      → compare_commits_by_date commits j i descending ≡ ok true
      → compare_commits_by_date commits i j descending ≡ ok false
  unfolding compare_commits_by_date
  compare_asym i j descending h =
      let (inside, h') = assert-then (ltb j (length commits) && ltb i (length commits)) h in
      let (c, p, h'') = >>=-eq-ok (commit commits j) _ h' in
      let (d, q, e) = >>=-eq-ok (commit commits i) _ h'' in
      let turned : (ltb i (length commits) && ltb j (length commits)) ≡ true = ground arith in
      rw (turned, q, ◌>>=◌) (rw (p, ◌>>=◌) (dates_asym descending c.time d.time e))

module _ (commits : List Commit) (descending : Bool) where
  insert_by_date-IsOrdered :
      (i : ℕ) (is res : List ℕ)
      → IsOrdered commits descending is
      → insert_by_date commits descending i is ≡ ok res
      → IsOrdered commits descending res
        × ((k : ℕ)
            → NotAfter commits descending k i
            → HeadNotAfter commits descending k is
            → HeadNotAfter commits descending k res)
  unfolding insert_by_date
  insert_by_date-IsOrdered i [] res o h = rw (← ok-injective h) ((tt, tt), λ k n m. n)
  insert_by_date-IsOrdered i (j ∷ js) res o h =
      let (later, q, h') = >>=-eq-ok (compare_commits_by_date commits j i descending) _ h in
      let (rest, r, e) = >>=-eq-ok (insert_by_date commits descending i js) _ h' in
      let (ordered, heads) = insert_by_date-IsOrdered i js rest o.1 r in
      elim (Bool-cases later) [
        | inl t ↦
            let same : j ∷ rest ≡ res = ok-injective (rw t at e) in
            let after = compare_asym commits i j descending (rw t at q) in
            rw (← same) ((heads j after o.0, ordered), λ k n m. m)
        | inr t ↦
            let same : i ∷ j ∷ js ≡ res = ok-injective (rw t at e) in
            rw (← same) ((rw t at q, o), λ k n m. n)
      ]

  pub sort_by_date-IsOrdered :
      (is res : List ℕ)
      → sort_by_date commits descending is ≡ ok res
      → IsOrdered commits descending res
  unfolding sort_by_date
  sort_by_date-IsOrdered [] res h = rw (← ok-injective h) tt
  sort_by_date-IsOrdered (i ∷ is) res h =
      let (rest, q, e) = >>=-eq-ok (sort_by_date commits descending is) _ h in
      (insert_by_date-IsOrdered i rest res (sort_by_date-IsOrdered is rest q) e).0

module _ (commits : List Commit) (descending : Bool) where
  insert_by_date-IsIn :
      (i k : ℕ) (is res : List ℕ)
      → (i ≡ k) ⊎ IsIn k is
      → insert_by_date commits descending i is ≡ ok res
      → IsIn k res
  unfolding insert_by_date
  insert_by_date-IsIn i k [] res m h = rw (← ok-injective h) m
  insert_by_date-IsIn i k (j ∷ js) res m h =
      let (later, q, h') = >>=-eq-ok (compare_commits_by_date commits j i descending) _ h in
      let (rest, r, e) = >>=-eq-ok (insert_by_date commits descending i js) _ h' in
      elim (Bool-cases later) [
        | inl t ↦
            let same : j ∷ rest ≡ res = ok-injective (rw t at e) in
            rw (← same) (elim m [
              | inl p ↦ inr (insert_by_date-IsIn i k js rest (inl p) r)
              | inr n ↦ elim n [
                | inl p ↦ inl p
                | inr p ↦ inr (insert_by_date-IsIn i k js rest (inr p) r)
              ]
            ])
        | inr t ↦ let same : i ∷ j ∷ js ≡ res = ok-injective (rw t at e) in rw (← same) m
      ]

  pub sort_by_date-IsIn :
      (is res : List ℕ)
      → sort_by_date commits descending is ≡ ok res
      → (k : ℕ) → IsIn k is
      → IsIn k res
  unfolding sort_by_date
  sort_by_date-IsIn [] res h k m = absurd m
  sort_by_date-IsIn (i ∷ is) res h k m =
      let (rest, q, e) = >>=-eq-ok (sort_by_date commits descending is) _ h in
      insert_by_date-IsIn i k rest res
        (elim m [ inl p ↦ inl p | inr n ↦ inr (sort_by_date-IsIn is rest q k n) ]) e

  insert_by_date-IsOnce :
      (i : ℕ) (is res : List ℕ)
      → All (λ j. j ≢ i) is
      → IsOnce is
      → insert_by_date commits descending i is ≡ ok res
      → IsOnce res
  unfolding insert_by_date
  insert_by_date-IsOnce i [] res d o h = rw (← ok-injective h) (tt, tt)
  insert_by_date-IsOnce i (j ∷ js) res d o h =
      let (later, q, h') = >>=-eq-ok (compare_commits_by_date commits j i descending) _ h in
      let (rest, r, e) = >>=-eq-ok (insert_by_date commits descending i js) _ h' in
      elim (Bool-cases later) [
        | inl t ↦
            let same : j ∷ rest ≡ res = ok-injective (rw t at e) in
            rw (← same) (
              insert_by_date-All commits descending (λ k. k ≢ j) i js rest (λ p. d.0 (sym p)) o.0 r,
              insert_by_date-IsOnce i js rest d.1 o.1 r,
            )
        | inr t ↦ let same : i ∷ j ∷ js ≡ res = ok-injective (rw t at e) in rw (← same) (d, o)
      ]

  pub sort_by_date-IsOnce :
      (is res : List ℕ) → IsOnce is → sort_by_date commits descending is ≡ ok res → IsOnce res
  unfolding sort_by_date
  sort_by_date-IsOnce [] res o h = rw (← ok-injective h) tt
  sort_by_date-IsOnce (i ∷ is) res o h =
      let (rest, q, e) = >>=-eq-ok (sort_by_date commits descending is) _ h in
      insert_by_date-IsOnce i rest res
        (sort_by_date-All commits descending (λ j. j ≢ i) is rest o.0 q)
        (sort_by_date-IsOnce is rest o.1 q) e
