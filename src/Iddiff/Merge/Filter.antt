-- ===== src/Iddiff/Merge/Filter.antt =====
-- `filterTrustedIddiff` of gettextpo-helper/gtpo/iddiff.cpp.
use stupid_ids.Base.{
  ℕ, ◌+◌, ◌≡◌, inl, inr, Bool, true, false, not, ◌&&◌, ◌||◌, List, [], ◌∷◌, ok, assert-then,
  >>=-eq-ok, ok-injective, ◌==◌, arith, refl, sym, ap, ◌∙◌, Bool-cases, length, if◌then◌else◌,
}
use stupid_ids.Message.{MessageTranslation, equal_msgstr}
use stupid_ids.Iddiff.Change.{Item, is_none, is_empty}
use stupid_ids.Iddiff.{Items, find_removed_item, find_added_item}
use stupid_ids.Iddiff.Vectors.{get_removed_vector, get_added_vector, get_review_vector}
use stupid_ids.Iddiff.View.{removed_at, added_at, has, IsWellFormed}
use stupid_ids.Iddiff.Insert.{find_removed_item-at, find_added_item-at}
use stupid_ids.Iddiff.Merge.{
  Iddiff, insert_removed_clones, insert_added_clones, merge_headers, not_removed_in, not_added_in,
  filter_trusted_iddiff,
}
use stupid_ids.Iddiff.Merge.Says.{says, AreBelow, or_false, has_cong, Extends-trans}
use stupid_ids.Iddiff.Merge.Whole.{
  Extends-as, HasUniqueKeys, insert_removed_clones-Extends, insert_added_clones-Extends,
  says-get_removed_vector, says-get_added_vector,
}

-- One item is kept or left out.
kept_says :
    (in_filter : ℕ → MessageTranslation → Bool)
    → ((k : ℕ) (x o : MessageTranslation) → equal_msgstr x o ≡ true → in_filter k x ≡ in_filter k o)
    → (k : ℕ) (x : Item) (rest kept : List (ℕ × Item)) (j : ℕ) (o : MessageTranslation)
    → says kept j o ≡ (says rest j o && not (in_filter j o))
    → says (if not (in_filter k x.message) then (k, x) ∷ kept else kept) j o
      ≡ (says ((k, x) ∷ rest) j o && not (in_filter j o))
kept_says f cong k x rest kept j o ih = elim (Bool-cases (k == j)) [
  | inr e ↦ elim (Bool-cases (f k x.message)) [ inl g ↦ rw (g, e) ih | inr g ↦ rw (g, e) ih ]
  | inl e ↦
      let same : k ≡ j = ground arith in
      elim (Bool-cases (equal_msgstr x.message o)) [
        | inr t ↦ elim (Bool-cases (f k x.message)) [
          | inl g ↦ rw (g, e, t) ih
          | inr g ↦ rw (g, e, t) ih
        ]
        | inl t ↦
            let alike : f k x.message ≡ f j o = cong k x.message o t ∙ ap (λ i. f i o) same in
            elim (Bool-cases (f k x.message)) [
              | inl g ↦ let g' : f j o ≡ true = sym alike ∙ g in rw (g, g', ih) (ground arith)
              | inr g ↦ let g' : f j o ≡ false = sym alike ∙ g in rw (g, e, t, g') refl
            ]
      ]
]

not-not : (b : Bool) → b ≡ not (not b)
not-not true = refl
not-not false = refl

says-not_removed_in :
    {filter : Items}
    → IsWellFormed filter
    → (l : List (ℕ × Item)) {l' : List (ℕ × Item)} → not_removed_in filter l ≡ ok l'
    → (j : ℕ) (o : MessageTranslation)
    → says l' j o ≡ (says l j o && not (has (removed_at filter j) o))
unfolding not_removed_in
says-not_removed_in v [] h j o = rw (← ok-injective h) refl
says-not_removed_in {filter} v ((k, x) ∷ l) h j o =
    let (found, p, h') = >>=-eq-ok (find_removed_item filter k x.message) _ h in
    let (rest, q, t) = >>=-eq-ok (not_removed_in filter l) _ h' in
    let it = ok-injective (sym p ∙ find_removed_item-at v k x.message) in
    let keep : is_none found ≡ not (has (removed_at filter k) x.message) =
      ap is_none it ∙ not-not _ in
    rw (← ok-injective t, keep)
      (kept_says (λ i. has (removed_at filter i)) (λ i. has_cong (removed_at filter i)) k x l rest j
        o (says-not_removed_in v l q j o))

says-not_added_in :
    {filter : Items}
    → IsWellFormed filter
    → (l : List (ℕ × Item)) {l' : List (ℕ × Item)} → not_added_in filter l ≡ ok l'
    → (j : ℕ) (o : MessageTranslation)
    → says l' j o ≡ (says l j o && not (has (added_at filter j) o))
unfolding not_added_in
says-not_added_in v [] h j o = rw (← ok-injective h) refl
says-not_added_in {filter} v ((k, x) ∷ l) h j o =
    let (found, p, h') = >>=-eq-ok (find_added_item filter k x.message) _ h in
    let (rest, q, t) = >>=-eq-ok (not_added_in filter l) _ h' in
    let it = ok-injective (sym p ∙ find_added_item-at v k x.message) in
    let keep : is_none found ≡ not (has (added_at filter k) x.message) =
      ap is_none it ∙ not-not _ in
    rw (← ok-injective t, keep)
      (kept_says (λ i. has (added_at filter i)) (λ i. has_cong (added_at filter i)) k x l rest j o
        (says-not_added_in v l q j o))

-- Where `filterTrustedIddiff` returns, a translation is REMOVED afterwards exactly where it was, or
-- where the input has it REMOVED and the filter does not, and ADDED likewise; the set is well formed
-- again. The set and the filter are well formed, new pointers are not in the set's REMOVED lists, and
-- the input has one entry for each ID.
pub filter_trusted_iddiff-Extends :
    (fresh : ℕ) (d filter input : Iddiff) {r : Iddiff}
    → IsWellFormed d.items
    → IsWellFormed filter.items
    → AreBelow fresh d.items
    → HasUniqueKeys input.items
    → filter_trusted_iddiff fresh d filter input ≡ ok r
    → IsWellFormed r.items
      × ((j : ℕ) (t : MessageTranslation)
          → has (removed_at r.items j) t ≡ (
              has (removed_at d.items j) t
              || (has (removed_at input.items j) t && not (has (removed_at filter.items j) t))))
      × ((j : ℕ) (t : MessageTranslation)
          → has (added_at r.items j) t ≡ (
              has (added_at d.items j) t
              || (has (added_at input.items j) t && not (has (added_at filter.items j) t))))
unfolding filter_trusted_iddiff merge_headers
filter_trusted_iddiff-Extends fresh d filter input v w b u h =
    let (review, a, h1) = >>=-eq-ok (get_review_vector input.items) _ h in
    let (no_review, h2) = assert-then (is_empty review) h1 in
    let (other_removed, p, h3) = >>=-eq-ok (get_removed_vector input.items) _ h2 in
    let (other_added, q, h4) = >>=-eq-ok (get_added_vector input.items) _ h3 in
    let (removed, e, h5) = >>=-eq-ok (not_removed_in filter.items other_removed) _ h4 in
    let (m, f, h6) = >>=-eq-ok (insert_removed_clones fresh d.items removed) _ h5 in
    let (added, g, h7) = >>=-eq-ok (not_added_in filter.items other_added) _ h6 in
    let (m', i, t) = >>=-eq-ok (insert_added_clones (fresh + length removed) m added) _ h7 in
    let (x, b') = insert_removed_clones-Extends removed fresh d.items v b f in
    let (y, b'') = insert_added_clones-Extends added _ _ m x.valid b' i in
    let z =
      Extends-as
        (λ j o.
          sym (or_false (says removed j o))
          ∙ says-not_removed_in w other_removed e j o
          ∙ ap (λ n. n && not (has (removed_at filter.items j) o))
              (says-get_removed_vector input.items u p j o))
        (λ j o.
          says-not_added_in w other_added g j o
          ∙ ap (λ n. n && not (has (added_at filter.items j) o))
              (says-get_added_vector input.items u q j o))
        (Extends-trans x y) in
    rw (← ok-injective t) (z.valid, z.says_removed, z.says_added)
