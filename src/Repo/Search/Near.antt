-- ===== src/Repo/Search/Near.antt =====
-- `nearestCommitByTime` of gettextpo-helper/gtpo/repository.cpp, where the commits are in the order of
-- their times.
use stupid_ids.Base.{
  ℕ, zero, suc, ◌+◌, ◌-◌, ◌≡◌, ◌<◌, ◌≤◌, inl, inr, true, List, [], ◌∷◌, none, ok, length, ltb,
  arith, refl, subst, dec_lt,
}
use stupid_ids.Base.Int.{ℤ, pos, negsuc, ◌≤ℤ◌}
use stupid_ids.Repo.{Commit, nearest_commit_by_time, last_commit_by_time, or_first}
use stupid_ids.Repo.ByTime.{time_at, IsNearlySorted, last_commit_by_time_lem}
use stupid_ids.Repo.Search.{nearest}

-- No commit is earlier than the one before it, and each is later than the second one before it.
pub record AreInOrder (commits : List Commit) : Type 0 where
  pub next_to : (i : ℕ) → i + 1 < length commits → time_at commits i ≤ time_at commits (i + 1)
  pub by_two : IsNearlySorted commits

last_commit_by_time-none :
    (commits : List Commit) (t : ℕ)
    → (0 < length commits → t < time_at commits 0)
    → last_commit_by_time commits t ≡ ok none
unfolding last_commit_by_time
last_commit_by_time-none [] t h = refl
last_commit_by_time-none (c ∷ commits) t h =
    let late = h (omega arith) in let e : ltb t c.time ≡ true = ground arith in rw e refl

module _ (commits : List Commit) where
  -- The commit that is near to a time: later commits are later, and commits well before it are
  -- earlier.
  pub record IsNear (z : ℤ) (i : ℕ) : Type 0 where
    pub returns : nearest commits z ≡ ok i
    pub up_to : (k : ℕ) → k < length commits → pos (time_at commits k) ≤ℤ z → k ≤ i
    pub back_to : (k : ℕ) → k < length commits → z ≤ℤ pos (time_at commits k) → i ≤ k + 1

  module _ (sorted : AreInOrder commits) where
    later-at : (i k : ℕ) → i + k < length commits → time_at commits i ≤ time_at commits (i + k)
    later-at i zero h =
        let same : i ≡ i + zero = omega arith in
        subst (λ j. time_at commits i ≤ time_at commits j) same (omega arith)
    later-at i (suc k) h =
        let before = later-at i k (omega arith) in
        let step = sorted.next_to (i + k) (omega arith) in
        let same : i + k + 1 ≡ i + suc k = omega arith in
        subst (λ j. time_at commits i ≤ time_at commits j) same (omega arith)

    in_order : (i j : ℕ) → i ≤ j → j < length commits → time_at commits i ≤ time_at commits j
    in_order i j l h =
        let same : i + (j - i) ≡ j = omega arith in
        subst (λ n. time_at commits i ≤ time_at commits n) same (later-at i (j - i) (omega arith))

    found_IsNear : (t : ℕ) → 0 < length commits → time_at commits 0 ≤ t → (i : ℕ) × IsNear (pos t) i
    unfolding nearest nearest_commit_by_time or_first
    found_IsNear t n e =
        let (i, f, inside, early, late) = last_commit_by_time_lem commits t n e sorted.by_two in
        (
          i,
          record {
            returns = rw f refl;
            up_to = λ k l u. elim (dec_lt i k) [
              | no near ↦ omega arith
              | yes far ↦ elim (late k far l) [
                | inl w ↦ absurd (omega arith)
                | inr w ↦ absurd (omega (arith, in_order (k - 1) k (omega arith) l))
              ]
            ];
            back_to = λ k l u. elim (dec_lt (k + 1) i) [
              | no near ↦ omega arith
              | yes far ↦ absurd (
                  omega
                    (arith, sorted.by_two k (omega arith), in_order (k + 2) i (omega arith) inside))
            ];
          },
        )

    none_IsNear : (t : ℕ) → (0 < length commits → t < time_at commits 0) → IsNear (pos t) 0
    unfolding nearest nearest_commit_by_time or_first
    none_IsNear t h = record {
      returns = rw (last_commit_by_time-none commits t h) refl;
      up_to = λ k l u. absurd (omega (arith, h (omega arith), in_order 0 k (omega arith) l));
      back_to = λ k l u. omega arith;
    }

    pub near : (z : ℤ) → (i : ℕ) × IsNear z i
    unfolding nearest
    near (negsuc n) = (
      0,
      record {
        returns = refl;
        up_to = λ k l u. absurd (omega arith);
        back_to = λ k l u. omega arith;
      },
    )
    near (pos t) = elim (dec_lt 0 (length commits)) [
      | no empty ↦ (0, none_IsNear t (λ n. absurd (empty n)))
      | yes full ↦ elim (dec_lt t (time_at commits 0)) [
        | yes late ↦ (0, none_IsNear t (λ n. late))
        | no early ↦ found_IsNear t full (omega arith)
      ]
    ]
