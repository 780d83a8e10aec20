-- ===== src/Repo/ByTime.antt =====
-- `lastCommitByTime` of gettextpo-helper/gtpo/repository.cpp, where the times of the commits are not
-- quite sorted.
pub mod Loops
pub use Loops.{time_of, time_at, commit-at}
use stupid_ids.Base.{
  ℕ, zero, suc, ◌+◌, ◌-◌, ◌*◌, ◌/◌, ◌≡◌, ◌<◌, ◌≤◌, ◌⊎◌, inl, inr, true, false, List, [], ◌∷◌, Acc,
  Option, none, some, ok, ◌>>=◌, length, get_elem?, dec_lt, lt_wf, ltb, leb, arith, refl, sym, ◌∙◌,
  subst, Bool-cases, dif_pos, dif_neg, le_prop,
}
use stupid_ids.Repo.{
  Commit, commit, in_range, scan_down, search_loop, last_commit_by_time, left_half_falls,
  right_half_falls,
}
use stupid_ids.Repo.ByTime.Loops.{Found, scan_down-Found, search_loop-Found, in_list}

-- What `readRepositoryCommits` checks: no commit is as late as the second one after it.
abbrev pub IsNearlySorted : List Commit → Type 0
IsNearlySorted commits =
    (i : ℕ) → i + 2 < length commits → time_at commits i < time_at commits (i + 2)

-- From a late commit on, every second one is late.
late_by_two :
    (commits : List Commit)
    → IsNearlySorted commits
    → (time i k : ℕ) → i + 2 * k < length commits
    → time < time_at commits i
    → time < time_at commits (i + 2 * k)
late_by_two commits s time i zero h e =
    let same : i ≡ i + 2 * zero = omega arith in subst (λ n. time < time_at commits n) same e
late_by_two commits s time i (suc k) h e =
    let before = late_by_two commits s time i k (omega arith) e in
    let same : i + 2 * k + 2 ≡ i + 2 * suc k = omega arith in
    subst (λ n. time < time_at commits n) same (omega (arith, s (i + 2 * k) (omega arith)))

-- Of two neighbours after a late commit one is late.
neighbour_late :
    (commits : List Commit)
    → IsNearlySorted commits
    → (time r j : ℕ) → r < j
    → j < length commits
    → time < time_at commits r
    → (time < time_at commits j) ⊎ (time < time_at commits (j - 1))
neighbour_late commits s time r j a b e =
    let half : ℕ = (j - r) / 2 in
    elim (dec_lt (r + 2 * half) j) [
      | no same ↦ inl (
          let there : r + 2 * half ≡ j = omega arith in
          subst (λ n. time < time_at commits n) there
            (late_by_two commits s time r half (omega arith) e))
      | yes odd ↦ inr (
          let there : r + 2 * half ≡ j - 1 = omega arith in
          subst (λ n. time < time_at commits n) there
            (late_by_two commits s time r half (omega arith) e))
    ]

-- If there is a first commit that is not later than the time, `lastCommitByTime` returns a commit
-- that is not later, without reaching its `assert(0)`; after it, a commit that is not later either
-- comes only directly after one that is later. Each commit is earlier than the second one after
-- it, as `readRepositoryCommits` checks.
pub last_commit_by_time_lem :
    (commits : List Commit) (time : ℕ)
    → 0 < length commits
    → time_at commits 0 ≤ time
    → IsNearlySorted commits
    → (i : ℕ) × (last_commit_by_time commits time ≡ ok (some i))
      × (i < length commits)
      × (time_at commits i ≤ time)
      × ((j : ℕ)
          → i < j
          → j < length commits
          → (time < time_at commits j) ⊎ (time < time_at commits (j - 1)))
unfolding last_commit_by_time
last_commit_by_time_lem [] time n e s = absurd (omega arith)
last_commit_by_time_lem (c ∷ commits) time n e s =
    let first : ltb time c.time ≡ false = ground arith in
    let (i, r, f, found, le, end) =
      search_loop-Found (c ∷ commits) time (length commits) (lt_wf.apply (length commits)) 0
        (omega arith) e in
    (
      i,
      rw first (rw f),
      omega (arith, found.to),
      found.early,
      λ j a b. elim (dec_lt r j) [
        | no near ↦ inl (found.late j a (omega arith))
        | yes far ↦ elim end [
          | inl last ↦ absurd (omega arith)
          | inr late ↦ neighbour_late (c ∷ commits) s time r j far b late
        ]
      ],
    )
