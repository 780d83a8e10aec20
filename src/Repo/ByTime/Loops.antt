-- ===== src/Repo/ByTime/Loops.antt =====
-- What the loops of `lastCommitByTime` find (gettextpo-helper/gtpo/repository.cpp).
use stupid_ids.Base.{
  ℕ, zero, suc, ◌+◌, ◌-◌, ◌/◌, ◌≡◌, ◌<◌, ◌≤◌, ◌⊎◌, inl, inr, true, List, [], ◌∷◌, Acc, Option, none,
  some, ok, ◌>>=◌, length, get_elem?, dec_lt, ltb, leb, arith, refl, sym, ◌∙◌, subst, Bool-cases,
  dif_pos, dif_neg, le_prop,
}
use stupid_ids.Repo.{
  Commit, commit, in_range, scan_down, search_loop, left_half_falls, right_half_falls,
}

abbrev pub time_of : Option Commit → ℕ
time_of none = 0
time_of (some c) = c.time

-- The time of a commit in the list.
abbrev pub time_at : List Commit → ℕ → ℕ
time_at commits i = time_of (get_elem? commits i)

pub in_list :
    (commits : List Commit) (i : ℕ)
    → i < length commits
    → (c : Commit) × (get_elem? commits i ≡ some c)
in_list [] i h = absurd (omega arith)
in_list (c ∷ commits) zero h = (c, refl)
in_list (c ∷ commits) (suc i) h = in_list commits i (omega arith)

pub commit-at :
    (commits : List Commit) (i : ℕ)
    → i < length commits
    → (c : Commit) × (commit commits i ≡ ok c) × (c.time ≡ time_at commits i)
unfolding commit in_range
commit-at commits i h = let (c, e) = in_list commits i h in (c, rw e, rw e)

-- The commit found between `l` and `r`: all that come after it up to `r` are later than `time`.
pub record Found (commits : List Commit) (time l r i : ℕ) : Type 0 where
  pub from : l ≤ i
  pub to : i ≤ r
  pub early : time_at commits i ≤ time
  pub late : (j : ℕ) → i < j → j ≤ r → time < time_at commits j

pub scan_down-Found :
    (commits : List Commit) (time l k : ℕ)
    → l + k < length commits
    → time_at commits l ≤ time
    → (i : ℕ) × (scan_down commits time l k ≡ ok i) × Found commits time l (l + k) i
unfolding scan_down
scan_down-Found commits time l zero h e =
    let (c, p, q) = commit-at commits l (omega arith) in
    let t : leb c.time time ≡ true = ground arith in
    (
      l,
      rw (p, t),
      record {
        from = omega arith;
        to = omega arith;
        early = e;
        late = λ j a b. absurd (omega arith);
      },
    )
scan_down-Found commits time l (suc k) h e =
    let (c, p, q) = commit-at commits (l + suc k) h in
    elim (Bool-cases (leb c.time time)) [
      | inl t ↦ (
        l + suc k,
        rw (p, ◌>>=◌) (rw t),
        record {
          from = omega arith;
          to = omega arith;
          early = ground arith;
          late = λ j a b. absurd (omega arith);
        },
      )
      | inr t ↦
          let (i, f, w) = scan_down-Found commits time l k (omega arith) e in
          let above : time < time_at commits (l + suc k) = ground arith in
          (
            i,
            rw (p, ◌>>=◌) (rw t f),
            record {
              from = w.from;
              to = omega (arith, w.to);
              early = w.early;
              late = λ j a b. elim (dec_lt j (l + suc k)) [
                | yes less ↦ w.late j a (omega arith)
                | no more ↦
                    let same : l + suc k ≡ j = omega arith in
                    subst (λ n. time < time_at commits n) same above
              ];
            },
          )
    ]

-- The loop keeps a commit that is early enough at its left end; what it returns is last up to a right
-- end `r`, which is the old one or is later than `time`.
pub search_loop-Found :
    (commits : List Commit) (time width : ℕ) (w : Acc ◌<◌ width) (l : ℕ)
    → l + width < length commits
    → time_at commits l ≤ time
    → (i r : ℕ) × (search_loop commits time l width w ≡ ok i)
      × Found commits time l r i
      × (r ≤ l + width)
      × ((r ≡ l + width) ⊎ (time < time_at commits r))
unfolding search_loop
search_loop-Found commits time width (Acc.intro _ smaller) l h e = elim (dec_lt 2 width) [
  | no narrow ↦
      let (i, f, found) = scan_down-Found commits time l width h e in
      (i, l + width, rw (dif_neg (dec_lt 2 width) narrow) f, found, omega arith, inl refl)
  | yes wide ↦
      let (c, p, q) = commit-at commits ((l + (l + width)) / 2) (omega arith) in
      elim (Bool-cases (ltb time c.time)) [
        | inl t ↦
            let (i, r, f, found, le, end) =
              search_loop-Found commits time ((l + (l + width)) / 2 - l)
                (smaller _ (left_half_falls l width wide)) l (omega arith) e in
            let middle : l + ((l + (l + width)) / 2 - l) ≡ (l + (l + width)) / 2 = omega arith in
            let later : time < time_at commits ((l + (l + width)) / 2) = ground arith in
            (
              i,
              r,
              rw (dif_pos (dec_lt 2 width) le_prop wide, p, ◌>>=◌) (rw t f),
              found,
              omega arith,
              inr (elim end [
                | inl same ↦ subst (λ n. time < time_at commits n) (sym (same ∙ middle)) later
                | inr z ↦ z
              ]),
            )
        | inr t ↦
            let early : time_at commits ((l + (l + width)) / 2) ≤ time = ground arith in
            let (i, r, f, found, le, end) =
              search_loop-Found commits time (l + width - (l + (l + width)) / 2)
                (smaller _ (right_half_falls l width wide)) ((l + (l + width)) / 2) (omega arith)
                early in
            let whole : (l + (l + width)) / 2 + (l + width - (l + (l + width)) / 2) ≡ l + width =
              omega arith in
            (
              i,
              r,
              rw (dif_pos (dec_lt 2 width) le_prop wide, p, ◌>>=◌) (rw t f),
              record {
                from = omega (arith, found.from);
                to = found.to;
                early = found.early;
                late = found.late;
              },
              omega arith,
              elim end [ inl same ↦ inl (same ∙ whole) | inr z ↦ inr z ],
            )
      ]
]
