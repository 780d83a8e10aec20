-- ===== src/Iddiff/Outcome.antt =====
-- Which calls of `insertRemoved` and `insertAdded` of gettextpo-helper/gtpo/iddiff.cpp succeed, and
-- what they leave.
use stupid_ids.Base.{
  ℕ, ◌≡◌, ◌≢◌, ◌⊎◌, inl, inr, Bool, true, false, not, ◌||◌, List, [], ◌∷◌, ok, err, arith, refl,
  All, Bool-cases, sym, ◌∙◌, ap, assertion,
}
use stupid_ids.Message.{MessageTranslation, equal_msgstr}
use stupid_ids.Iddiff.Map.{find}
use stupid_ids.Iddiff.Change.{Item, is_none}
use stupid_ids.Iddiff.{Items, find_in_list, insert_removed, insert_added}
use stupid_ids.Iddiff.View.{
  removed_at, added_at, review_of, has, HasAddress, IsWellFormed, Becomes-IsWellFormed,
  equal_msgstr_refl, find_in_list_cong,
}
use stupid_ids.Iddiff.Insert.{
  has-append, insert_removed-Changed, removed-IsSound, insert_added-Changed, insert_added_conflict,
}
use stupid_ids.Iddiff.Insert.{
  insert_removed_duplicate, insert_removed_conflict, insert_added_removed, insert_added_duplicate,
}

-- After a review of `message` it is ADDED or REMOVED as was decided, and nothing else has
-- changed.
pub record Reviewed (m : Items) (k : ℕ) (message : MessageTranslation) (accepted : Bool)
    (m' : Items) : Type 0 where
  pub valid : IsWellFormed m'
  pub in_added : has (added_at m' k) message ≡ accepted
  pub in_removed : has (removed_at m' k) message ≡ not accepted
  pub other_added :
      (o : MessageTranslation)
      → equal_msgstr message o ≡ false
      → has (added_at m' k) o ≡ has (added_at m k) o
  pub other_removed :
      (o : MessageTranslation)
      → equal_msgstr message o ≡ false
      → has (removed_at m' k) o ≡ has (removed_at m k) o
  pub review_kept : review_of (find k m') ≡ review_of (find k m)
  pub others : (j : ℕ) → j ≢ k → find j m' ≡ find j m

-- Another translation of the ID is ADDED.
abbrev pub has_other : List Item → MessageTranslation → Bool
has_other [] o = false
has_other (x ∷ xs) o = not (equal_msgstr x.message o)

-- A translation that is ADDED is not REMOVED.
added_not_removed :
    (rs xs : List Item) (o : MessageTranslation)
    → All (λ a. has rs a.message ≡ false) xs
    → has xs o ≡ true
    → has rs o ≡ false
unfolding find_in_list
added_not_removed rs [] o d h = cc
added_not_removed rs (x ∷ xs) o d h = elim (Bool-cases (equal_msgstr x.message o)) [
  | inl e ↦ ap (λ r. not (is_none r)) (sym (find_in_list_cong rs x.message o e)) ∙ d.0
  | inr e ↦ added_not_removed rs xs o d.1 (ground arith)
]

-- Nothing has to be done.
pub same-Reviewed :
    {m : Items}
    → IsWellFormed m
    → (k : ℕ) (message : MessageTranslation) (accepted : Bool)
    → has (added_at m k) message ≡ accepted
    → has (removed_at m k) message ≡ not accepted
    → Reviewed m k message accepted m
same-Reviewed v k message accepted a r = record {
  valid = v;
  in_added = a;
  in_removed = r;
  other_added = λ o d. refl;
  other_removed = λ o d. refl;
  review_kept = refl;
  others = λ j d. refl;
}

module _ {m : Items} (v : IsWellFormed m) (k : ℕ) (item : Item) where
  pub removed-Reviewed :
      ¬ HasAddress item.address (removed_at m k)
      → has (removed_at m k) item.message ≡ false
      → has (added_at m k) item.message ≡ false
      → (m' : Items) × (insert_removed m k item ≡ ok m') × Reviewed m k item.message false m'
  removed-Reviewed f r a =
      let (m', e, c) = insert_removed-Changed v k item r a in
      (
        m',
        e,
        record {
          valid = Becomes-IsWellFormed v c (removed-IsSound v k item r a f);
          in_added = rw c.now_added a;
          in_removed = rw c.now_removed (
              ground (
                arith,
                has-append (removed_at m k) item item.message,
                equal_msgstr_refl item.message,
              ));
          other_added = λ o d. rw c.now_added;
          other_removed =
              λ o d. rw c.now_removed (ground (arith, has-append (removed_at m k) item o));
          review_kept = c.now_review;
          others = c.others;
        },
      )

  pub added-Reviewed :
      has (removed_at m k) item.message ≡ false
      → added_at m k ≡ []
      → (m' : Items) × (insert_added m k item ≡ ok m') × Reviewed m k item.message true m'
  unfolding find_in_list
  added-Reviewed r e =
      let (m', f, c) = insert_added-Changed v k item r e in
      (
        m',
        f,
        record {
          valid =
              Becomes-IsWellFormed v c
                (record { one = omega arith; disjoint = (r, tt); distinct = (v.sound k).distinct });
          in_added = rw c.now_added (ground (arith, equal_msgstr_refl item.message));
          in_removed = rw c.now_removed r;
          other_added = λ o d. rw (c.now_added, e) (ground arith);
          other_removed = λ o d. rw c.now_removed;
          review_kept = c.now_review;
          others = c.others;
        },
      )

  not_added :
      ¬ HasAddress item.address (removed_at m k)
      → has (added_at m k) item.message ≡ false
      → (m' : Items) × (insert_removed m k item ≡ ok m') × Reviewed m k item.message false m'
  not_added f h = elim (Bool-cases (has (removed_at m k) item.message)) [
    | inl r ↦ (m, insert_removed_duplicate v k item r, same-Reviewed v k item.message false h r)
    | inr r ↦ removed-Reviewed f r h
  ]

  -- In a well-formed set `insertRemoved` fails exactly where the translation is ADDED for the ID;
  -- otherwise the translation is REMOVED afterwards and not ADDED, nothing else has changed, and
  -- the set is well formed. The new pointer is not in REMOVED of the ID yet.
  pub insert_removed-Reviewed :
      ¬ HasAddress item.address (removed_at m k)
      → ((has (added_at m k) item.message ≡ true) × (insert_removed m k item ≡ err assertion))
        ⊎ ((has (added_at m k) item.message ≡ false)
            × (m' : Items) × (insert_removed m k item ≡ ok m')
            × Reviewed m k item.message false m')
  insert_removed-Reviewed f = elim (Bool-cases (has (added_at m k) item.message)) [
    | inl h ↦ inl (
      h,
      insert_removed_conflict v k item
          (added_not_removed _ (added_at m k) item.message (v.sound k).disjoint h) h,
    )
    | inr h ↦ let (m', e, r) = not_added f h in inr (h, m', e, r)
  ]

  AddedOutcome : Type 0
  AddedOutcome =
      ((has (removed_at m k) item.message || has_other (added_at m k) item.message ≡ true)
        × (insert_added m k item ≡ err assertion))
      ⊎ ((has (removed_at m k) item.message || has_other (added_at m k) item.message ≡ false)
          × (m' : Items) × (insert_added m k item ≡ ok m')
          × Reviewed m k item.message true m')

  outcome_free :
      has (removed_at m k) item.message ≡ false
      → (xs : List Item) → added_at m k ≡ xs
      → AddedOutcome
  unfolding AddedOutcome find_in_list
  outcome_free r [] e = let (m', f, w) = added-Reviewed r e in inr (rw (r, e), m', f, w)
  outcome_free r (x ∷ xs) e = elim (Bool-cases (equal_msgstr x.message item.message)) [
    | inl t ↦ inr (
      rw (r, e) (rw t),
      m,
      insert_added_duplicate v k item x xs e t r,
      same-Reviewed v k item.message true (rw e (rw t)) r,
    )
    | inr t ↦ inl (rw (r, e) (rw t), insert_added_conflict v k item x xs e t)
  ]

  -- In a well-formed set `insertAdded` fails exactly where the translation is REMOVED or another
  -- one is ADDED for the ID; otherwise the translation is ADDED afterwards and not REMOVED,
  -- nothing else has changed, and the set is well formed.
  pub insert_added-Reviewed :
      ((has (removed_at m k) item.message || has_other (added_at m k) item.message ≡ true)
        × (insert_added m k item ≡ err assertion))
      ⊎ ((has (removed_at m k) item.message || has_other (added_at m k) item.message ≡ false)
          × (m' : Items) × (insert_added m k item ≡ ok m')
          × Reviewed m k item.message true m')
  unfolding AddedOutcome
  insert_added-Reviewed = elim (Bool-cases (has (removed_at m k) item.message)) [
    | inl r ↦ inl (rw r, insert_added_removed v k item r)
    | inr r ↦ outcome_free r (added_at m k) refl
  ]
