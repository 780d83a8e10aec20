-- ===== src/Repo/Search/Window.antt =====
-- The commits that `listCommitsBetweenDates` of gettextpo-helper/gtpo/repository.cpp looks at.
use stupid_ids.Base.{
  ℕ, zero, suc, ◌+◌, ◌-◌, ◌≡◌, ◌≢◌, ◌<◌, ◌≤◌, ◌⊎◌, inl, inr, List, [], ◌∷◌, ok, ◌>>=◌, All, length,
  arith, refl, subst, Bool-cases, dec_lt, sym, ◌∙◌,
}
use stupid_ids.Base.Int.{ℤ, pos, ◌≤ℤ◌}
use stupid_ids.Date.{FileDateTime, of_git_time, git_time, is_between, is_between_iff}
use stupid_ids.Repo.{Commit}
use stupid_ids.Repo.ByTime.{time_at, commit-at}
use stupid_ids.Repo.Search.{between_loop}
use stupid_ids.Repo.Search.Between.{IsIn, IsOnce}

-- The number lies from the one to the other, in either order.
abbrev pub LiesBetween : ℤ → ℤ → ℤ → Type 0
LiesBetween a b d = ((a ≤ℤ d) × (d ≤ℤ b)) ⊎ ((b ≤ℤ d) × (d ≤ℤ a))

-- The commit `i` is there, and its time lies between the two.
pub record IsListed (commits : List Commit) (a b : ℤ) (i : ℕ) : Type 0 where
  pub there : i < length commits
  pub between : LiesBetween a b (pos (time_at commits i))

pub All-lift : (P Q : ℕ → Type 0) (f : (i : ℕ) → P i → Q i) (is : List ℕ) → All P is → All Q is
All-lift P Q f [] ps = tt
All-lift P Q f (i ∷ is) ps = (f i ps.0, All-lift P Q f is ps.1)

module _ (commits : List Commit) (a b : FileDateTime) where
  abbrev pub Listed : ℕ → Type 0
  Listed = IsListed commits (git_time a) (git_time b)

  -- What the loop finds from `i` on, in `rounds` rounds.
  pub record Finds (rounds i : ℕ) (found : List ℕ) : Type 0 where
    pub returns : between_loop commits a b rounds i ≡ ok found
    pub listed : All Listed found
    pub from : All (λ k. i ≤ k) found
    pub once : IsOnce found
    pub all_in : (k : ℕ) → i ≤ k → k < i + rounds → Listed k → IsIn k found

  pub between_loop-Finds :
      (rounds i : ℕ) → rounds ≤ length commits - i → (found : List ℕ) × Finds rounds i found
  unfolding between_loop
  between_loop-Finds zero i h = (
    [],
    record {
      returns = refl;
      listed = tt;
      from = tt;
      once = tt;
      all_in = λ k l u w. absurd (omega arith);
    },
  )
  between_loop-Finds (suc rounds) i h =
      let (c, p, q) = commit-at commits i (omega arith) in
      let (rest, f) = between_loop-Finds rounds (i + 1) (omega arith) in
      let iff = is_between_iff (of_git_time (pos c.time)) a b in
      elim (Bool-cases (is_between (of_git_time (pos c.time)) a b)) [
        | inl t ↦ (
          i ∷ rest,
          record {
            returns = rw (p, ◌>>=◌) (rw (f.returns, ◌>>=◌) (rw t refl));
            listed = (
              record {
                there = omega arith;
                between = subst (λ n. LiesBetween (git_time a) (git_time b) (pos n)) q (iff.0 t);
              },
              f.listed,
            );
            from = (omega arith, All-lift _ (λ k. i ≤ k) (λ k l. omega arith) rest f.from);
            once = (All-lift _ (λ k. k ≢ i) (λ k l e. absurd (omega arith)) rest f.from, f.once);
            all_in = λ k l u w. elim (dec_lt i k) [
              | yes far ↦ inr (f.all_in k (omega arith) (omega arith) w)
              | no near ↦ inl (omega arith)
            ];
          },
        )
        | inr t ↦ (
          rest,
          record {
            returns = rw (p, ◌>>=◌) (rw (f.returns, ◌>>=◌) (rw t refl));
            listed = f.listed;
            from = All-lift _ (λ k. i ≤ k) (λ k l. omega arith) rest f.from;
            once = f.once;
            all_in = λ k l u w. elim (dec_lt i k) [
              | yes far ↦ f.all_in k (omega arith) (omega arith) w
              | no near ↦
                  let same : k ≡ i = omega arith in
                  let here : LiesBetween (git_time a) (git_time b) (pos c.time) =
                    subst (λ n. LiesBetween (git_time a) (git_time b) (pos n))
                      (subst (λ j. time_at commits j ≡ c.time) (sym same) (sym q)) w.between in
                  absurd (cc (sym t ∙ iff.1 here))
            ];
          },
        )
      ]
