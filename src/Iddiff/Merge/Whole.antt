-- ===== src/Iddiff/Merge/Whole.antt =====
-- Merging and filtering of whole sets, the last part of gettextpo-helper/gtpo/iddiff.cpp.
use stupid_ids.Base.{
  ℕ, ◌+◌, ◌≡◌, inl, inr, Bool, ◌&&◌, ◌||◌, List, [], ◌∷◌, ◌++◌, Option, none, some, ok, >>=-eq-ok,
  ok-injective, ◌==◌, arith, refl, sym, subst, ap, ◌∙◌, Bool-cases, length,
}
use stupid_ids.Message.{MessageTranslation}
use stupid_ids.Iddiff.Map.{find}
use stupid_ids.Iddiff.Change.{Item, IddiffChange}
use stupid_ids.Iddiff.{Items, find_in_list, insert_removed, insert_added, insert_review}
use stupid_ids.Iddiff.Vectors.{with_id, get_removed_vector, get_added_vector, get_review_vector}
use stupid_ids.Iddiff.View.{removed_at, added_at, removed_of, added_of, has, IsWellFormed}
use stupid_ids.Iddiff.Merge.{
  Iddiff, clone, insert_removed_clones, insert_added_clones, insert_review_clones, merge_items,
  merge, merge_headers,
}
use stupid_ids.Iddiff.Merge.Says.{
  says, AreBelow, Extends, nothing, or_false, Extends-trans, insert_removed-Extends,
  insert_added-Extends, insert_review-Extends,
}

Extends-same : (m : Items) → IsWellFormed m → Extends m m nothing nothing
Extends-same m v = record {
  valid = v;
  says_removed = λ j o. or_false (has (removed_at m j) o);
  says_added = λ j o. or_false (has (added_at m j) o);
}

pub Extends-as :
    {m m' : Items} {r r' a a' : ℕ → MessageTranslation → Bool}
    → ((j : ℕ) (o : MessageTranslation) → r j o ≡ r' j o)
    → ((j : ℕ) (o : MessageTranslation) → a j o ≡ a' j o)
    → Extends m m' r a
    → Extends m m' r' a'
Extends-as {m} p q e = record {
  valid = e.valid;
  says_removed = λ j o. e.says_removed j o ∙ ap (λ b. has (removed_at m j) o || b) (p j o);
  says_added = λ j o. e.says_added j o ∙ ap (λ b. has (added_at m j) o || b) (q j o);
}

pub insert_removed_clones-Extends :
    (l : List (ℕ × Item)) (fresh : ℕ) (m : Items) {m' : Items}
    → IsWellFormed m
    → AreBelow fresh m
    → insert_removed_clones fresh m l ≡ ok m'
    → Extends m m' (says l) nothing × AreBelow (fresh + length l) m'
unfolding insert_removed_clones
insert_removed_clones-Extends [] fresh m v b h =
    rw (← ok-injective h) (Extends-same m v, λ j a z. let low = b j a z in omega arith)
insert_removed_clones-Extends ((k, item) ∷ l) fresh m v b h =
    let (mid, p, q) = >>=-eq-ok (insert_removed m k (clone fresh item)) _ h in
    let (e, b') = insert_removed-Extends m k (clone fresh item) v b refl p in
    let (f, b'') = insert_removed_clones-Extends l (fresh + 1) mid e.valid b' q in
    (Extends-trans e f, λ j a z. let low = b'' j a z in omega arith)

pub insert_added_clones-Extends :
    (l : List (ℕ × Item)) (fresh bound : ℕ) (m : Items) {m' : Items}
    → IsWellFormed m
    → AreBelow bound m
    → insert_added_clones fresh m l ≡ ok m'
    → Extends m m' nothing (says l) × AreBelow bound m'
unfolding insert_added_clones
insert_added_clones-Extends [] fresh bound m v b h = rw (← ok-injective h) (Extends-same m v, b)
insert_added_clones-Extends ((k, item) ∷ l) fresh bound m v b h =
    let (mid, p, q) = >>=-eq-ok (insert_added m k (clone fresh item)) _ h in
    let (e, b') = insert_added-Extends m k (clone fresh item) v b p in
    let (f, b'') = insert_added_clones-Extends l (fresh + 1) bound mid e.valid b' q in
    (Extends-trans e f, b'')

insert_review_clones-Extends :
    (l : List (ℕ × Item)) (fresh bound : ℕ) (m : Items) {m' : Items}
    → IsWellFormed m
    → AreBelow bound m
    → insert_review_clones fresh m l ≡ ok m'
    → Extends m m' nothing nothing
unfolding insert_review_clones
insert_review_clones-Extends [] fresh bound m v b h = rw (← ok-injective h) (Extends-same m v)
insert_review_clones-Extends ((k, item) ∷ l) fresh bound m v b h =
    let (mid, p, q) = >>=-eq-ok (insert_review m k (clone fresh item)) _ h in
    let (e, b') = insert_review-Extends m k (clone fresh item) v b p in
    Extends-trans e (insert_review_clones-Extends l (fresh + 1) bound mid e.valid b' q)

-- Each ID has one entry, as in a std::map.
abbrev pub HasUniqueKeys : Items → Type 0
HasUniqueKeys [] = Unit
HasUniqueKeys ((k, p) ∷ m) = (find k m ≡ none) × HasUniqueKeys m

says-append :
    (l l' : List (ℕ × Item)) (j : ℕ) (o : MessageTranslation)
    → says (l ++ l') j o ≡ (says l j o || says l' j o)
says-append [] l' j o = refl
says-append ((k, x) ∷ l) l' j o = ground (arith, says-append l l' j o)

says-with_id :
    (k : ℕ) (xs : List Item) (j : ℕ) (o : MessageTranslation)
    → says (with_id k xs) j o ≡ (k == j && has xs o)
unfolding find_in_list
says-with_id k [] j o = ground arith
says-with_id k (x ∷ xs) j o = ground (arith, says-with_id k xs j o)

-- What one entry says, and the others.
entry_says :
    (k j : ℕ) (xs : List Item) (o : MessageTranslation)
    (items_of : Option (Option IddiffChange) → List Item) (m : Items) (c : IddiffChange)
    → items_of (some (some c)) ≡ xs
    → items_of none ≡ []
    → find k m ≡ none
    → (k == j && has xs o || has (items_of (find j m)) o)
      ≡ has (items_of (find j ((k, some c) ∷ m))) o
unfolding find find_in_list
entry_says k j xs o items_of m c e f free = elim (Bool-cases (k == j)) [
  | inr t ↦ rw t refl
  | inl t ↦
      let same : k ≡ j = ground arith in
      let gone : find j m ≡ none = subst (λ i. find i m ≡ none) same free in
      rw (t, gone, e, f) (sym (or_false (has xs o)))
]

pub says-get_removed_vector :
    (m : Items) {l : List (ℕ × Item)}
    → HasUniqueKeys m
    → get_removed_vector m ≡ ok l
    → (j : ℕ) (o : MessageTranslation) → says l j o ≡ has (removed_at m j) o
unfolding get_removed_vector find find_in_list
says-get_removed_vector [] u h j o = rw (← ok-injective h) refl
says-get_removed_vector ((k, none) ∷ m) u h j o = absurd (cc)
says-get_removed_vector ((k, some c) ∷ m) u h j o =
    let (rest, p, q) = >>=-eq-ok (get_removed_vector m) _ h in
    rw (← ok-injective q) (
      says-append (with_id k c.removed_items) rest j o
      ∙ rw (says-with_id k c.removed_items j o, says-get_removed_vector m u.1 p j o)
          (entry_says k j c.removed_items o removed_of m c refl refl u.0))

pub says-get_added_vector :
    (m : Items) {l : List (ℕ × Item)}
    → HasUniqueKeys m
    → get_added_vector m ≡ ok l
    → (j : ℕ) (o : MessageTranslation) → says l j o ≡ has (added_at m j) o
unfolding get_added_vector find find_in_list
says-get_added_vector [] u h j o = rw (← ok-injective h) refl
says-get_added_vector ((k, none) ∷ m) u h j o = absurd (cc)
says-get_added_vector ((k, some c) ∷ m) u h j o =
    let (rest, p, q) = >>=-eq-ok (get_added_vector m) _ h in
    rw (← ok-injective q) (
      says-append (with_id k c.added_items) rest j o
      ∙ rw (says-with_id k c.added_items j o, says-get_added_vector m u.1 p j o)
          (entry_says k j c.added_items o added_of m c refl refl u.0))

merge_items-Extends :
    (fresh : ℕ) (m : Items) (removed added review : List (ℕ × Item)) {m' : Items}
    → IsWellFormed m
    → AreBelow fresh m
    → merge_items fresh m removed added review ≡ ok m'
    → Extends m m' (says removed) (says added)
unfolding merge_items
merge_items-Extends fresh m removed added review v b h =
    let (m1, p, h') = >>=-eq-ok (insert_removed_clones fresh m removed) _ h in
    let (m2, q, r) = >>=-eq-ok (insert_added_clones (fresh + length removed) m1 added) _ h' in
    let (e, b') = insert_removed_clones-Extends removed fresh m v b p in
    let (f, b'') = insert_added_clones-Extends added (fresh + length removed) _ m1 e.valid b' q in
    let g = insert_review_clones-Extends review _ _ m2 f.valid b'' r in
    Extends-as (λ j o. sym (or_false (says removed j o))) (λ j o. sym (or_false (says added j o)))
      (Extends-trans e (Extends-trans f g))

-- Where `merge` returns, it has made the union: a translation of an ID is REMOVED afterwards exactly
-- where it was REMOVED in the one set or in the other, and ADDED likewise; the set is well formed
-- again. The set that is merged into is well formed, new pointers are not in its REMOVED lists, and
-- the other set has one entry for each ID.
pub merge-Extends :
    (fresh : ℕ) (d o : Iddiff) {r : Iddiff}
    → IsWellFormed d.items
    → AreBelow fresh d.items
    → HasUniqueKeys o.items
    → merge fresh d o ≡ ok r
    → IsWellFormed r.items
      × ((j : ℕ) (t : MessageTranslation)
          → has (removed_at r.items j) t
            ≡ (has (removed_at d.items j) t || has (removed_at o.items j) t))
      × ((j : ℕ) (t : MessageTranslation)
          → has (added_at r.items j) t ≡ (has (added_at d.items j) t || has (added_at o.items j) t))
unfolding merge merge_headers
merge-Extends fresh d o v b u h =
    let (removed, p, h1) = >>=-eq-ok (get_removed_vector o.items) _ h in
    let (added, q, h2) = >>=-eq-ok (get_added_vector o.items) _ h1 in
    let (review, s, h3) = >>=-eq-ok (get_review_vector o.items) _ h2 in
    let (m, e, t) = >>=-eq-ok (merge_items fresh d.items removed added review) _ h3 in
    let x =
      Extends-as (says-get_removed_vector o.items u p) (says-get_added_vector o.items u q)
        (merge_items-Extends fresh d.items removed added review v b e) in
    rw (← ok-injective t) (x.valid, x.says_removed, x.says_added)
