-- ===== src/Server/Involved.antt =====
-- How `handleInvolvedByMinIds` of stupids-server/server.cpp tests two lists of IDs for a common ID:
-- sort both, and look whether their intersection is empty.
use stupid_ids.Base.{
  ℕ, ◌≤◌, ◌<◌, ◌≡◌, Bool, false, not, ◌||◌, List, [], ◌∷◌, All, refl, ◌∙◌, ap, arith, leb, ◌==◌,
  Bool-cases, inl, inr,
}
use stupid_ids.Server.{sort, insert, set_intersection, is_empty}

abbrev pub contains : ℕ → List ℕ → Bool
contains z [] = false
contains z (y ∷ ys) = z == y || contains z ys

-- Whether some number is in both lists.
abbrev pub common : List ℕ → List ℕ → Bool
common [] ys = false
common (x ∷ xs) ys = contains x ys || common xs ys

abbrev IsSorted : List ℕ → Type 0
IsSorted [] = Unit
IsSorted (x ∷ xs) = All (λ y. x ≤ y) xs × IsSorted xs

All-le_trans : (x y : ℕ) (xs : List ℕ) → x ≤ y → All (λ z. y ≤ z) xs → All (λ z. x ≤ z) xs
All-le_trans x y [] h a = tt
All-le_trans x y (z ∷ xs) h a = (omega arith, All-le_trans x y xs h a.1)

insert-All : (x n : ℕ) (ms : List ℕ) → x ≤ n → All (λ z. x ≤ z) ms → All (λ z. x ≤ z) (insert n ms)
unfolding insert
insert-All x n [] h a = (h, tt)
insert-All x n (m ∷ ms) h a = ground (arith, insert-All x n ms h a.1)

insert-IsSorted : (n : ℕ) (ms : List ℕ) → IsSorted ms → IsSorted (insert n ms)
unfolding insert
insert-IsSorted n [] s = (tt, tt)
insert-IsSorted n (m ∷ ms) s = elim (Bool-cases (leb n m)) [
  | inl e ↦ rw e ((ground arith, All-le_trans n m ms (ground arith) s.0), s)
  | inr e ↦ rw e (insert-All m n ms (ground arith) s.0, insert-IsSorted n ms s.1)
]

sort-IsSorted : (ns : List ℕ) → IsSorted (sort ns)
unfolding sort
sort-IsSorted [] = tt
sort-IsSorted (n ∷ ns) = insert-IsSorted n (sort ns) (sort-IsSorted ns)

contains-insert : (z n : ℕ) (ms : List ℕ) → contains z (insert n ms) ≡ (z == n || contains z ms)
unfolding insert
contains-insert z n [] = refl
contains-insert z n (m ∷ ms) = ground (arith, contains-insert z n ms)

contains-sort : (z : ℕ) (ns : List ℕ) → contains z (sort ns) ≡ contains z ns
unfolding sort
contains-sort z [] = refl
contains-sort z (n ∷ ns) =
    contains-insert z n (sort ns) ∙ ap (λ b. z == n || b) (contains-sort z ns)

common-insert : (n : ℕ) (ms ys : List ℕ) → common (insert n ms) ys ≡ (contains n ys || common ms ys)
unfolding insert
common-insert n [] ys = refl
common-insert n (m ∷ ms) ys = ground (arith, common-insert n ms ys)

common-sort_left : (xs ys : List ℕ) → common (sort xs) ys ≡ common xs ys
unfolding sort
common-sort_left [] ys = refl
common-sort_left (x ∷ xs) ys =
    common-insert x (sort xs) ys ∙ ap (λ b. contains x ys || b) (common-sort_left xs ys)

common-sort_right : (xs ys : List ℕ) → common xs (sort ys) ≡ common xs ys
common-sort_right [] ys = refl
common-sort_right (x ∷ xs) ys = ground (arith, contains-sort x ys, common-sort_right xs ys)

contains_below : (x y : ℕ) (ys : List ℕ) → x < y → All (λ z. y ≤ z) ys → contains x ys ≡ false
contains_below x y [] h a = refl
contains_below x y (z ∷ ys) h a = ground (arith, contains_below x y ys h a.1)

common_skip :
    (x y : ℕ) (xs ys : List ℕ) → y < x → All (λ z. x ≤ z) xs → common xs (y ∷ ys) ≡ common xs ys
common_skip x y [] ys h a = refl
common_skip x y (z ∷ xs) ys h a = ground (arith, common_skip x y xs ys h a.1)

common-nil : (xs : List ℕ) → common xs [] ≡ false
common-nil [] = refl
common-nil (x ∷ xs) = common-nil xs

intersection_lem :
    (xs ys : List ℕ)
    → IsSorted xs
    → IsSorted ys
    → is_empty (set_intersection xs ys) ≡ not (common xs ys)
unfolding set_intersection
intersection_lem [] ys s t = refl
intersection_lem (x ∷ xs) [] s t = rw (common-nil xs)
intersection_lem (x ∷ xs) (y ∷ ys) s t = ground (
  arith,
  contains_below x y ys,
  t.0,
  s.0,
  common_skip x y xs ys,
  intersection_lem xs (y ∷ ys) s.1 t,
  intersection_lem (x ∷ xs) ys s t.1,
)

-- To sort two lists and to look whether their intersection is empty, as `handleInvolvedByMinIds`
-- does, tells for any two lists whether they have nothing in common.
pub set_intersection-common :
    (xs ys : List ℕ) → is_empty (set_intersection (sort xs) (sort ys)) ≡ not (common xs ys)
set_intersection-common xs ys =
    intersection_lem (sort xs) (sort ys) (sort-IsSorted xs) (sort-IsSorted ys)
    ∙ ap not (common-sort_left xs (sort ys) ∙ common-sort_right xs ys)
