-- ===== src/Iddiff/Review.antt =====
-- `acceptTranslation` and `rejectTranslation` of gettextpo-helper/gtpo/iddiff.cpp.
use stupid_ids.Base.{
  ℕ, ◌≡◌, ◌≢◌, ◌≤◌, inl, inr, false, List, [], ◌∷◌, Option, none, some, Result, ok, ◌>>=◌, ◌==◌,
  if◌then◌else◌, arith, refl, length, All, Bool-cases, ◌∙◌, ap, subst,
}
use stupid_ids.Message.{MessageTranslation, equal_msgstr}
use stupid_ids.Iddiff.Change.{Item, is_none}
use stupid_ids.Iddiff.{
  Items, find_in_list, find_added_single, find_removed_item, single, reject_added,
  reject_translation, insert_removed,
}
use stupid_ids.Iddiff.View.{
  removed_at, added_at, has, HasAddress, Distinct, IsSound, IsWellFormed, Changed,
  Becomes-IsWellFormed, Changed-same, find_added-at, equal_msgstr_refl,
}
use stupid_ids.Iddiff.Insert.{find_removed_item-at}
use stupid_ids.Iddiff.Outcome.{Reviewed, same-Reviewed, removed-Reviewed}
use stupid_ids.Iddiff.Erase.{without, has-without, Distinct-without, erase_added_item-Changed}

pub without_absent :
    (message : MessageTranslation) (xs : List Item)
    → has xs message ≡ false
    → without message xs ≡ xs
unfolding without find_in_list
without_absent message [] h = refl
without_absent message (x ∷ xs) h = ground (arith, without_absent message xs)

All-without :
    (rs : List Item) (message : MessageTranslation) (xs : List Item)
    → All (λ a. has rs a.message ≡ false) xs
    → All (λ a. has rs a.message ≡ false) (without message xs)
unfolding without
All-without rs message [] h = tt
All-without rs message (x ∷ xs) h = elim (Bool-cases (equal_msgstr x.message message)) [
  | inl e ↦ rw e (h.1)
  | inr e ↦ rw e (h.0, All-without rs message xs h.1)
]

length-without :
    (message : MessageTranslation) (xs : List Item) → length (without message xs) ≤ length xs
unfolding without
length-without message [] = omega arith
length-without message (x ∷ xs) = ground (arith, length-without message xs)

pub one-Distinct : (xs : List Item) → length xs ≤ 1 → Distinct xs
unfolding find_in_list
one-Distinct [] h = tt
one-Distinct (x ∷ []) h = (refl, λ z. z, tt)
one-Distinct (x ∷ y ∷ xs) h = absurd (omega arith)

-- REMOVED loses a translation.
pub without-IsSound :
    (message : MessageTranslation) (rs xs : List Item)
    → IsSound rs xs
    → IsSound (without message rs) xs
without-IsSound message rs xs s = record {
  one = s.one;
  disjoint = kept xs s.disjoint;
  distinct = Distinct-without message rs s.distinct;
}
  where
    kept :
        (ys : List Item)
        → All (λ a. has rs a.message ≡ false) ys
        → All (λ a. has (without message rs) a.message ≡ false) ys
    kept [] h = tt
    kept (y ∷ ys) h = (ground (arith, has-without rs message y.message s.distinct), kept ys h.1)

abbrev pub first : List Item → Option Item
first [] = none
first (x ∷ xs) = some x

pub single-first : (xs : List Item) → length xs ≤ 1 → single xs ≡ ok (first xs)
unfolding single
single-first [] h = refl
single-first (x ∷ []) h = refl
single-first (x ∷ y ∷ xs) h = absurd (omega arith)

pub find_added_single-at :
    {m : Items} → IsWellFormed m → (k : ℕ) → find_added_single m k ≡ ok (first (added_at m k))
unfolding find_added_single
find_added_single-at {m} v k = rw (find_added-at m k (v.live k)) (single-first _ (v.sound k).one)

module _ {m : Items} (v : IsWellFormed m) (k : ℕ) (message : MessageTranslation) where
  reject_added-Changed :
      (xs : List Item)
      → added_at m k ≡ xs
      → (m' : Items) × (reject_added m k message (first xs) ≡ ok m')
        × Changed m k (removed_at m k) (without message xs) m'
  unfolding reject_added find_in_list without
  reject_added-Changed [] e =
      (m, refl, subst (λ ys. Changed m k (removed_at m k) ys m) e (Changed-same k (v.live k)))
  reject_added-Changed (x ∷ []) e = elim (Bool-cases (equal_msgstr x.message message)) [
    | inl t ↦
        let found : find_in_list (added_at m k) message ≡ some x = rw e (ground arith) in
        let (m', f, c) =
          erase_added_item-Changed m k message x (one-Distinct _ (v.sound k).one) found in
        (m', rw t f, subst (λ ys. Changed m k (removed_at m k) (without message ys) m') e c)
    | inr t ↦ (
      m,
      rw t,
      rw t (subst (λ ys. Changed m k (removed_at m k) ys m) e (Changed-same k (v.live k))),
    )
  ]
  reject_added-Changed (x ∷ y ∷ xs) e = absurd (omega (arith, (v.sound k).one, ap length e))

  added_loses-IsSound : IsSound (removed_at m k) (without message (added_at m k))
  added_loses-IsSound = record {
    one = omega (arith, length-without message (added_at m k), (v.sound k).one);
    disjoint = All-without (removed_at m k) message (added_at m k) (v.sound k).disjoint;
    distinct = (v.sound k).distinct;
  }

  -- The second half of `rejectTranslation`, where the translation is not ADDED.
  reject_rest : ℕ → Result Items
  reject_rest fresh = do
    removed ← find_removed_item m k message
    if is_none removed
        then insert_removed m k (record { address = fresh; message = message })
        else ok m

  reject_rest-Reviewed :
      (fresh : ℕ)
      → ¬ HasAddress fresh (removed_at m k)
      → has (added_at m k) message ≡ false
      → (m' : Items) × (reject_rest fresh ≡ ok m') × Reviewed m k message false m'
  unfolding reject_rest
  reject_rest-Reviewed fresh f h = elim (Bool-cases (has (removed_at m k) message)) [
    | inl t ↦ (
      m,
      rw (find_removed_item-at v k message) (ground arith),
      same-Reviewed v k message false h t,
    )
    | inr t ↦
        let (m', e, r) =
          removed-Reviewed v k (record { address = fresh; message = message }) f t h in
        (m', rw (find_removed_item-at v k message) (ground (arith, e)), r)
  ]

module _ {m : Items} (v : IsWellFormed m) (k : ℕ) (message : MessageTranslation)
    (nonzero : k ≢ 0) where
  is_id : (k == 0) ≡ false
  is_id = ground arith

  -- In a well-formed set the rejection of any translation of any ID but 0 succeeds, if the new
  -- pointer is not in REMOVED of the ID yet: the translation is then REMOVED and not ADDED,
  -- nothing else has changed, and the set is well formed.
  pub reject_translation-Reviewed :
      (fresh : ℕ)
      → ¬ HasAddress fresh (removed_at m k)
      → (m' : Items) × (reject_translation fresh m k message ≡ ok m')
        × Reviewed m k message false m'
  unfolding reject_translation reject_rest
  reject_translation-Reviewed fresh f =
      let (m1, e, c) = reject_added-Changed v k message (added_at m k) refl in
      let v1 : IsWellFormed m1 = Becomes-IsWellFormed v c (added_loses-IsSound v k message) in
      let gone : has (added_at m1 k) message ≡ false = rw (c.now_added) (
        ground (
          arith,
          has-without (added_at m k) message message (one-Distinct _ (v.sound k).one),
          equal_msgstr_refl message,
        )) in
      let (m', g, r) = reject_rest-Reviewed v1 k message fresh (rw c.now_removed f) gone in
      (
        m',
        rw (is_id, find_added_single-at v k, e) g,
        record {
          valid = r.valid;
          in_added = r.in_added;
          in_removed = r.in_removed;
          other_added = λ o d.
              r.other_added o d
              ∙ rw c.now_added (
                  ground
                    (arith, has-without (added_at m k) message o (one-Distinct _ (v.sound k).one)));
          other_removed = λ o d. r.other_removed o d ∙ rw c.now_removed;
          review_kept = r.review_kept ∙ c.now_review;
          others = λ j d. r.others j d ∙ c.others j d;
        },
      )
