-- ===== src/Repo/Changes.antt =====
-- The search for a file among the changes of a commit: gettextpo-helper/gtpo/commit.cpp.
use stupid_ids.Base.{
  ℕ, zero, suc, ◌+◌, ◌-◌, ◌≡◌, ◌≢◌, ◌<◌, ◌≤◌, ◌⊎◌, inl, inr, true, List, [], ◌∷◌, Acc, Option, none,
  some, Result, ok, ◌>>=◌, length, get_elem?, dec_lt, lt_wf, arith, refl, sym, subst, Bool-cases,
  dif_pos, dif_neg, le_prop,
}
use stupid_ids.Text.{Text, text_lt, text_lt_irrefl, text_lt_trans, text_lt_total}
use stupid_ids.Repo.{
  Commit, CommitFileChange, build_pathname, full_name, change, change_in_range, middle,
  after_middle_falls, before_middle_falls, find_loop, find_change,
}

unfoldable pub name_of : Option CommitFileChange → Text
name_of none = []
name_of (some c) = full_name c

unfoldable pub name_at : Commit → ℕ → Text
name_at c i = name_of (get_elem? c.changes i)

-- The changes are in the order of their full names, each name once.
abbrev pub AreSorted : Commit → Type 0
AreSorted c = (i j : ℕ) → i < j → j < length c.changes → text_lt (name_at c i) (name_at c j) ≡ true

in_list :
    (xs : List CommitFileChange) (i : ℕ)
    → i < length xs
    → (x : CommitFileChange) × (get_elem? xs i ≡ some x)
in_list [] i h = absurd (omega arith)
in_list (x ∷ xs) zero h = (x, refl)
in_list (x ∷ xs) (suc i) h = in_list xs i (omega arith)

change-at :
    (c : Commit) (i : ℕ)
    → i < length c.changes
    → (x : CommitFileChange) × (change c i ≡ ok x) × (full_name x ≡ name_at c i)
unfolding change change_in_range name_at name_of
change-at c i h = let (x, e) = in_list c.changes i h in (x, rw e, rw e)

-- The change with the name, or none has it.
Answers : Commit → Text → Result (Option CommitFileChange) → Type 0
Answers c pattern result =
    ((i : ℕ) × (x : CommitFileChange) × (i < length c.changes)
      × (result ≡ ok (some x))
      × (change c i ≡ ok x)
      × (full_name x ≡ pattern))
    ⊎ ((result ≡ ok none) × ((i : ℕ) → i < length c.changes → name_at c i ≢ pattern))

-- All before `left` are smaller than the name, all from `stop` on are greater.
record Between (c : Commit) (pattern : Text) (left stop : ℕ) : Type 0 where
  inside : stop ≤ length c.changes
  below : (i : ℕ) → i < left → text_lt (name_at c i) pattern ≡ true
  above : (i : ℕ) → stop ≤ i → i < length c.changes → text_lt pattern (name_at c i) ≡ true

lt_differ : (s t : Text) → text_lt s t ≡ true → s ≢ t
lt_differ s t h e =
    let k = text_lt_irrefl t in
    let h' : text_lt t t ≡ true = subst (λ u. text_lt u t ≡ true) e h in cc

module _ (c : Commit) (sorted : AreSorted c) (pattern : Text) where
  -- What is known of the middle change is known of all on its one side.
  go_right :
      (left stop mid : ℕ)
      → Between c pattern left stop
      → mid < stop
      → text_lt (name_at c mid) pattern ≡ true
      → Between c pattern (mid + 1) stop
  go_right left stop mid b inside h = record {
    inside = b.inside;
    below = λ i p. elim (dec_lt i mid) [
      | yes q ↦
          text_lt_trans (name_at c i) (name_at c mid) pattern
            (sorted i mid q (omega (arith, b.inside))) h
      | no q ↦
          let same : mid ≡ i = omega arith in
          subst (λ n. text_lt (name_at c n) pattern ≡ true) same h
    ];
    above = b.above;
  }

  go_left :
      (left stop mid : ℕ)
      → Between c pattern left stop
      → mid < stop
      → text_lt pattern (name_at c mid) ≡ true
      → Between c pattern left mid
  go_left left stop mid b inside h = record {
    inside = omega (arith, b.inside);
    below = b.below;
    above = λ i p r. elim (dec_lt mid i) [
      | yes q ↦ text_lt_trans pattern (name_at c mid) (name_at c i) h (sorted mid i q r)
      | no q ↦
          let same : mid ≡ i = omega arith in
          subst (λ n. text_lt pattern (name_at c n) ≡ true) same h
    ];
  }

  find_loop-Answers :
      (width : ℕ) (w : Acc ◌<◌ width) (left : ℕ)
      → Between c pattern left (left + width)
      → Answers c pattern (find_loop c pattern left width w)
  unfolding find_loop Answers
  find_loop-Answers width (Acc.intro _ smaller) left b = elim (dec_lt 0 width) [
    | no empty ↦ inr (
      rw (dif_neg (dec_lt 0 width) empty),
      λ i h. elim (dec_lt i left) [
        | yes p ↦ lt_differ (name_at c i) pattern (b.below i p)
        | no p ↦ λ e. lt_differ pattern (name_at c i) (b.above i (omega arith) h) (sym e)
      ],
    )
    | yes more ↦
        let (x, p, q) = change-at c (middle left width) (omega (arith, b.inside)) in
        elim (Bool-cases (text_lt (full_name x) pattern)) [
          | inl t ↦
              let whole : left + width
                  ≡ middle left width + 1 + (left + width - (middle left width + 1)) =
                omega arith in
              let b' = subst (Between c pattern (middle left width + 1)) whole (
                go_right left (left + width) (middle left width) b (omega arith)
                  (subst (λ n. text_lt n pattern ≡ true) q t)) in
              rw (dif_pos (dec_lt 0 width) le_prop more, p, ◌>>=◌)
                (rw t (
                  find_loop-Answers (left + width - (middle left width + 1))
                    (smaller _ (after_middle_falls left width more)) (middle left width + 1) b'))
          | inr t ↦ elim (Bool-cases (text_lt pattern (full_name x))) [
            | inl u ↦
                let whole : middle left width ≡ left + (middle left width - left) = omega arith in
                let b' = subst (Between c pattern left) whole (
                  go_left left (left + width) (middle left width) b (omega arith)
                    (subst (λ n. text_lt pattern n ≡ true) q u)) in
                rw (dif_pos (dec_lt 0 width) le_prop more, p, ◌>>=◌)
                  (rw (t, u)
                    (find_loop-Answers (middle left width - left)
                      (smaller _ (before_middle_falls left width more)) left b'))
            | inr u ↦ inl (
              middle left width,
              x,
              omega (arith, b.inside),
              rw (dif_pos (dec_lt 0 width) le_prop more, p, ◌>>=◌) (rw (t, u)),
              p,
              text_lt_total (full_name x) pattern t u,
            )
          ]
        ]
  ]

-- The binary search is right for changes in the order of their full names: it returns a change of the
-- commit that has the full name asked for, or nothing, and then none has it. Its asserts hold.
pub find_change-Answers :
    (c : Commit)
    → AreSorted c
    → (name path : Text)
    → ((i : ℕ) × (x : CommitFileChange) × (i < length c.changes)
        × (find_change c name path ≡ ok (some x))
        × (change c i ≡ ok x)
        × (full_name x ≡ build_pathname path name))
      ⊎ ((find_change c name path ≡ ok none)
          × ((i : ℕ) → i < length c.changes → name_at c i ≢ build_pathname path name))
unfolding find_change Answers
find_change-Answers c sorted name path =
    find_loop-Answers c sorted (build_pathname path name) (length c.changes)
      (lt_wf.apply (length c.changes)) 0
      (record {
        inside = omega arith;
        below = λ i h. absurd (omega arith);
        above = λ i h k. absurd (omega arith);
      })

pub elem_inside :
    (xs : List CommitFileChange) (i : ℕ) {x : CommitFileChange}
    → get_elem? xs i ≡ some x
    → i < length xs
elem_inside [] i h = cc
elem_inside (y ∷ xs) zero h = omega arith
elem_inside (y ∷ xs) (suc i) h = let l = elem_inside xs i h in omega arith

change_in_range-some :
    (o : Option CommitFileChange) {x : CommitFileChange} → change_in_range o ≡ ok x → o ≡ some x
unfolding change_in_range
change_in_range-some none h = cc
change_in_range-some (some y) h = cc

pub change-elem :
    (c : Commit) (i : ℕ) {x : CommitFileChange} → change c i ≡ ok x → get_elem? c.changes i ≡ some x
unfolding change
change-elem c i h = change_in_range-some (get_elem? c.changes i) h

pub elem-name_at :
    (c : Commit) (i : ℕ) {x : CommitFileChange}
    → get_elem? c.changes i ≡ some x
    → name_at c i ≡ full_name x
unfolding name_at name_of
elem-name_at c i h = rw h refl

-- A full name stands at one place only.
pub name_at_once :
    (c : Commit)
    → AreSorted c
    → (i j : ℕ) → i < length c.changes
    → j < length c.changes
    → name_at c i ≡ name_at c j
    → i ≡ j
name_at_once c sorted i j h k e = elim (dec_lt i j) [
  | yes l ↦ absurd (lt_differ _ _ (sorted i j l k) e)
  | no l ↦ elim (dec_lt j i) [
    | yes m ↦ absurd (lt_differ _ _ (sorted j i m h) (sym e))
    | no m ↦ omega arith
  ]
]
