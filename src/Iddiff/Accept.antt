-- ===== src/Iddiff/Accept.antt =====
-- `acceptTranslation` of gettextpo-helper/gtpo/iddiff.cpp.
use stupid_ids.Base.{
  ℕ, ◌≡◌, ◌≢◌, inl, inr, true, false, List, [], ◌∷◌, Result, ok, err, ◌>>=◌, ◌==◌, arith, refl,
  length, All, ◌∙◌, ap, Option-cases, assertion,
}
use stupid_ids.Message.{MessageTranslation, equal_msgstr}
use stupid_ids.Iddiff.Change.{Item}
use stupid_ids.Iddiff.{
  Items, find_in_list, find_added_single, accept_removed, accept_added, accept_translation,
}
use stupid_ids.Iddiff.View.{
  removed_at, added_at, has, IsWellFormed, Changed, Becomes-IsWellFormed, Changed-same,
  equal_msgstr_refl,
}
use stupid_ids.Iddiff.Insert.{find_removed_item-at, insert_added_conflict}
use stupid_ids.Iddiff.Erase.{without, has-without, erase_removed_item-Changed}
use stupid_ids.Iddiff.Review.{without_absent, without-IsSound, find_added_single-at}
use stupid_ids.Iddiff.Outcome.{Reviewed, same-Reviewed, added-Reviewed}

module _ {m : Items} (v : IsWellFormed m) (k : ℕ) (message : MessageTranslation) where
  -- The second half of `acceptTranslation`, where the translation is not REMOVED.
  accept_rest : ℕ → ℕ → Result Items
  accept_rest fresh fresh' = do
    added ← find_added_single m k
    accept_added fresh fresh' m k message added

  accept_rest-Reviewed :
      (fresh fresh' : ℕ) (xs : List Item)
      → added_at m k ≡ xs
      → All (λ a. equal_msgstr a.message message ≡ true) xs
      → has (removed_at m k) message ≡ false
      → (m' : Items) × (accept_rest fresh fresh' ≡ ok m') × Reviewed m k message true m'
  unfolding accept_rest accept_added find_in_list
  accept_rest-Reviewed fresh fresh' [] e same h =
      let (m', f, r) = added-Reviewed v k (record { address = fresh; message = message }) h e in
      (m', rw (find_added_single-at v k, e) f, r)
  accept_rest-Reviewed fresh fresh' (x ∷ []) e same h = (
    m,
    rw (find_added_single-at v k, e) (rw same.0),
    same-Reviewed v k message true (rw e (rw same.0)) h,
  )
  accept_rest-Reviewed fresh fresh' (x ∷ y ∷ xs) e same h =
      absurd (omega (arith, (v.sound k).one, ap length e))

  -- Another translation is ADDED.
  accept_rest_conflict :
      (fresh fresh' : ℕ) (x : Item)
      → added_at m k ≡ x ∷ []
      → equal_msgstr x.message message ≡ false
      → accept_rest fresh fresh' ≡ err assertion
  unfolding accept_rest accept_added
  accept_rest_conflict fresh fresh' x e h =
      rw (find_added_single-at v k, e)
        (rw (h, insert_added_conflict v k (record { address = fresh; message = message }) x [] e h))

module _ {m : Items} (v : IsWellFormed m) (k : ℕ) (message : MessageTranslation)
    (nonzero : k ≢ 0) where
  is_id : (k == 0) ≡ false
  is_id = ground arith

  accept_removed-Changed :
      (m' : Items) × (accept_removed m k (find_in_list (removed_at m k) message) ≡ ok m')
      × Changed m k (without message (removed_at m k)) (added_at m k) m'
  unfolding accept_removed
  accept_removed-Changed = elim (Option-cases (find_in_list (removed_at m k) message)) [
    | inl e ↦
        (m, rw e, rw (without_absent message (removed_at m k) (rw e)) (Changed-same k (v.live k)))
    | inr (x, e) ↦
        let (m', f, c) = erase_removed_item-Changed m k message x (v.sound k).distinct e in
        (m', rw e f, c)
  ]

  -- In a well-formed set the acceptance of a translation of an ID but 0 succeeds unless another
  -- translation of the ID is ADDED already: the translation is then ADDED and not REMOVED, nothing
  -- else has changed, and the set is well formed.
  pub accept_translation-Reviewed :
      (fresh fresh' : ℕ)
      → All (λ a. equal_msgstr a.message message ≡ true) (added_at m k)
      → (m' : Items) × (accept_translation fresh fresh' m k message ≡ ok m')
        × Reviewed m k message true m'
  unfolding accept_translation accept_rest
  accept_translation-Reviewed fresh fresh' same =
      let (m1, e, c) = accept_removed-Changed in
      let v1 : IsWellFormed m1 =
        Becomes-IsWellFormed v c (without-IsSound message _ _ (v.sound k)) in
      let gone : has (removed_at m1 k) message ≡ false = rw (c.now_removed) (
        ground (
          arith,
          has-without (removed_at m k) message message (v.sound k).distinct,
          equal_msgstr_refl message,
        )) in
      let (m', g, r) =
        accept_rest-Reviewed v1 k message fresh fresh' (added_at m1 k) refl (rw c.now_added same)
          gone in
      (
        m',
        rw (is_id, find_removed_item-at v k message, e) g,
        record {
          valid = r.valid;
          in_added = r.in_added;
          in_removed = r.in_removed;
          other_added = λ o d. r.other_added o d ∙ rw c.now_added;
          other_removed = λ o d.
              r.other_removed o d
              ∙ rw c.now_removed
                  (ground (arith, has-without (removed_at m k) message o (v.sound k).distinct));
          review_kept = r.review_kept ∙ c.now_review;
          others = λ j d. r.others j d ∙ c.others j d;
        },
      )

  -- The defect: where another translation of the ID, which is not 0, is ADDED in a well-formed
  -- set, the acceptance is aborted by `insertAdded`, before `rejectTranslation` could move the old
  -- translation to REMOVED.
  pub accept_translation_aborts :
      (fresh fresh' : ℕ) (x : Item)
      → added_at m k ≡ x ∷ []
      → equal_msgstr x.message message ≡ false
      → accept_translation fresh fresh' m k message ≡ err assertion
  unfolding accept_translation accept_rest
  accept_translation_aborts fresh fresh' x a d =
      let (m1, e, c) = accept_removed-Changed in
      let v1 : IsWellFormed m1 =
        Becomes-IsWellFormed v c (without-IsSound message _ _ (v.sound k)) in
      rw (is_id, find_removed_item-at v k message, e)
        (accept_rest_conflict v1 k message fresh fresh' x (c.now_added ∙ a) d)
