-- ===== src/Detector/Unique.antt =====
-- The sorting of pairs and the removal of repeated ones in `detectTransitions` of
-- gettextpo-helper/gtpo/detector.cpp.
use stupid_ids.Base.{
  ◌≡◌, inl, inr, Bool, true, false, ◌||◌, List, [], ◌∷◌, ok, ◌>>=◌, All, All-mono, refl, ◌∙◌,
  Bool-cases, if◌then◌else◌,
}
use stupid_ids.Repo.History.{History, Repository}
use stupid_ids.Orphans.{OrphansEntry}
use stupid_ids.Detector.{
  OidPair, detect_successors, insert_pair, sort_pairs, unique_loop, unique_pairs, sort_unique_pairs,
}
use stupid_ids.Detector.Ordered.{IsOrdered, detect_successors-IsOrdered}
use stupid_ids.Detector.Order.{
  before, same_pair, pair_lt-before, pair_eq-same_pair, same_pair_is, before_trans, before_total,
  before_irrefl, not_after_trans, before_not_after,
}

-- The same functions without the asserts.
unfoldable inserted : OidPair → List OidPair → List OidPair
inserted p [] = p ∷ []
inserted p (q ∷ qs) = let rest = inserted p qs in if before q p then q ∷ rest else p ∷ q ∷ qs

unfoldable sorted : List OidPair → List OidPair
sorted [] = []
sorted (p ∷ ps) = inserted p (sorted ps)

unfoldable kept : OidPair → List OidPair → List OidPair
kept p [] = p ∷ []
kept p (q ∷ qs) =
    let rest = kept (if same_pair p q then p else q) qs in if same_pair p q then rest else p ∷ rest

abbrev kept_of : List OidPair → List OidPair
kept_of [] = []
kept_of (p ∷ ps) = kept p ps

module _ (P : OidPair → Type 0) where
  All-inserted : (p : OidPair) (qs : List OidPair) → P p → All P qs → All P (inserted p qs)
  unfolding inserted
  All-inserted p [] v vs = (v, tt)
  All-inserted p (q ∷ qs) v vs = elim (Bool-cases (before q p)) [
    | inl e ↦ rw e (vs.0, All-inserted p qs v vs.1)
    | inr e ↦ rw e (v, vs)
  ]

  All-sorted : (ps : List OidPair) → All P ps → All P (sorted ps)
  unfolding sorted
  All-sorted [] vs = tt
  All-sorted (p ∷ ps) vs = All-inserted p (sorted ps) vs.0 (All-sorted ps vs.1)

  All-kept : (p : OidPair) (qs : List OidPair) → P p → All P qs → All P (kept p qs)
  unfolding kept
  All-kept p [] v vs = (v, tt)
  All-kept p (q ∷ qs) v vs = elim (Bool-cases (same_pair p q)) [
    | inl e ↦ rw e (All-kept p qs v vs.1)
    | inr e ↦ rw e (v, All-kept q qs vs.0 vs.1)
  ]

insert_pair-inserted :
    (p : OidPair) (qs : List OidPair) → All IsOrdered qs → insert_pair p qs ≡ ok (inserted p qs)
unfolding insert_pair inserted
insert_pair-inserted p [] v = refl
insert_pair-inserted p (q ∷ qs) v =
    rw (pair_lt-before q p v.0, ◌>>=◌) (rw (insert_pair-inserted p qs v.1, ◌>>=◌) refl)

sort_pairs-sorted : (ps : List OidPair) → All IsOrdered ps → sort_pairs ps ≡ ok (sorted ps)
unfolding sort_pairs sorted
sort_pairs-sorted [] v = refl
sort_pairs-sorted (p ∷ ps) v =
    rw (sort_pairs-sorted ps v.1, ◌>>=◌)
      (insert_pair-inserted p (sorted ps) (All-sorted IsOrdered ps v.1))

either-IsOrdered :
    (b : Bool) (p q : OidPair) → IsOrdered p → IsOrdered q → IsOrdered (if b then p else q)
either-IsOrdered true p q v w = v
either-IsOrdered false p q v w = w

unique_loop-kept :
    (p : OidPair) (qs : List OidPair)
    → IsOrdered p
    → All IsOrdered qs
    → unique_loop p qs ≡ ok (kept p qs)
unfolding unique_loop kept
unique_loop-kept p [] v vs = refl
unique_loop-kept p (q ∷ qs) v vs =
    rw (pair_eq-same_pair p q v, ◌>>=◌)
      (rw
        (
          unique_loop-kept (if same_pair p q then p else q) qs
              (either-IsOrdered (same_pair p q) p q v vs.0) vs.1,
          ◌>>=◌,
        )
        refl)

unique_pairs-kept : (ps : List OidPair) → All IsOrdered ps → unique_pairs ps ≡ ok (kept_of ps)
unfolding unique_pairs
unique_pairs-kept [] v = refl
unique_pairs-kept (p ∷ ps) v = unique_loop-kept p ps v.0 v.1

-- Whether the pair is in the list.
abbrev pub has_pair : OidPair → List OidPair → Bool
has_pair x [] = false
has_pair x (p ∷ ps) = same_pair x p || has_pair x ps

or_swap : (a b c : Bool) → (a || (b || c)) ≡ (b || (a || c))
or_swap true true c = refl
or_swap true false c = refl
or_swap false true c = refl
or_swap false false c = refl

has_pair-inserted :
    (x p : OidPair) (qs : List OidPair)
    → has_pair x (inserted p qs) ≡ (same_pair x p || has_pair x qs)
unfolding inserted
has_pair-inserted x p [] = refl
has_pair-inserted x p (q ∷ qs) = elim (Bool-cases (before q p)) [
  | inr e ↦ rw e refl
  | inl e ↦
      rw (e, has_pair-inserted x p qs) (or_swap (same_pair x q) (same_pair x p) (has_pair x qs))
]

has_pair-sorted : (x : OidPair) (ps : List OidPair) → has_pair x (sorted ps) ≡ has_pair x ps
unfolding sorted
has_pair-sorted x [] = refl
has_pair-sorted x (p ∷ ps) = has_pair-inserted x p (sorted ps) ∙ rw (has_pair-sorted x ps) refl

or_twice : (a b : Bool) → (a || b) ≡ (a || (a || b))
or_twice true b = refl
or_twice false b = refl

has_pair-kept : (x p : OidPair) (qs : List OidPair) → has_pair x (kept p qs) ≡ has_pair x (p ∷ qs)
unfolding kept
has_pair-kept x p [] = refl
has_pair-kept x p (q ∷ qs) = elim (Bool-cases (same_pair p q)) [
  | inr e ↦ rw (e, has_pair-kept x q qs) refl
  | inl e ↦
      rw (e, has_pair-kept x p qs, ← same_pair_is p q e) (or_twice (same_pair x p) (has_pair x qs))
]

has_pair-kept_of : (x : OidPair) (ps : List OidPair) → has_pair x (kept_of ps) ≡ has_pair x ps
has_pair-kept_of x [] = refl
has_pair-kept_of x (p ∷ ps) = has_pair-kept x p ps

abbrev IsSorted : List OidPair → Type 0
IsSorted [] = Unit
IsSorted (p ∷ ps) = All (λ q. before q p ≡ false) ps × IsSorted ps

-- Each pair is before every later one.
abbrev pub IsAscending : List OidPair → Type 0
IsAscending [] = Unit
IsAscending (p ∷ ps) = All (λ q. before p q ≡ true) ps × IsAscending ps

before_asym : (p q : OidPair) → before p q ≡ true → before q p ≡ false
before_asym p q h = elim (Bool-cases (before q p)) [
  | inr e ↦ e
  | inl e ↦ absurd (cc (before_trans p q p h e, before_irrefl p))
]

inserted-IsSorted : (p : OidPair) (qs : List OidPair) → IsSorted qs → IsSorted (inserted p qs)
unfolding inserted
inserted-IsSorted p [] v = (tt, tt)
inserted-IsSorted p (q ∷ qs) v = elim (Bool-cases (before q p)) [
  | inl e ↦ rw e (
    All-inserted (λ x. before x q ≡ false) p qs (before_asym q p e) v.0,
    inserted-IsSorted p qs v.1,
  )
  | inr e ↦ rw e ((e, All-mono (λ x h. not_after_trans p q x e h) qs v.0), v)
]

sorted-IsSorted : (ps : List OidPair) → IsSorted (sorted ps)
unfolding sorted
sorted-IsSorted [] = tt
sorted-IsSorted (p ∷ ps) = inserted-IsSorted p (sorted ps) (sorted-IsSorted ps)

differ_before : (p q : OidPair) → same_pair p q ≡ false → before q p ≡ false → before p q ≡ true
differ_before p q h k = elim (Bool-cases (before p q)) [
  | inl e ↦ e
  | inr e ↦ absurd (cc (before_total p q e k, h))
]

kept-IsAscending : (p : OidPair) (qs : List OidPair) → IsSorted (p ∷ qs) → IsAscending (kept p qs)
unfolding kept
kept-IsAscending p [] v = (tt, tt)
kept-IsAscending p (q ∷ qs) v = elim (Bool-cases (same_pair p q)) [
  | inl e ↦ rw e (kept-IsAscending p qs (v.0.1, v.1.1))
  | inr e ↦
      let first = differ_before p q e v.0.0 in
      rw e (
        All-kept (λ x. before p x ≡ true) q qs first
            (All-mono (λ x h. before_not_after p q x first h) qs v.1.0),
        kept-IsAscending q qs v.1,
      )
]

kept_of-IsAscending : (ps : List OidPair) → IsSorted ps → IsAscending (kept_of ps)
kept_of-IsAscending [] v = tt
kept_of-IsAscending (p ∷ ps) v = kept-IsAscending p ps v

-- The pairs that DetectorSuccessors finds can be sorted, since no assert of the comparison fails; the
-- result of `detectTransitions` on them has the same pairs, in ascending order and each once.
pub detect_successors-sort_unique_pairs :
    (history : History) (repo : Repository) (transitions : List OrphansEntry) {pairs : List OidPair}
    → detect_successors history repo transitions ≡ ok pairs
    → (res : List OidPair) × (sort_unique_pairs pairs ≡ ok res)
      × IsAscending res
      × ((x : OidPair) → has_pair x res ≡ has_pair x pairs)
unfolding sort_unique_pairs
detect_successors-sort_unique_pairs history repo transitions {pairs} h =
    let ordered = detect_successors-IsOrdered history repo transitions h in
    (
      kept_of (sorted pairs),
      rw (sort_pairs-sorted pairs ordered, ◌>>=◌)
          (unique_pairs-kept (sorted pairs) (All-sorted IsOrdered pairs ordered)),
      kept_of-IsAscending (sorted pairs) (sorted-IsSorted pairs),
      λ x. has_pair-kept_of x (sorted pairs) ∙ has_pair-sorted x pairs,
    )
