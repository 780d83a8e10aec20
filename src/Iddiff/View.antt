-- ===== src/Iddiff/View.antt =====
-- The entries of gettextpo-helper/gtpo/iddiff.cpp read as what they say: for each ID the items that
-- are REMOVED and the items that are ADDED.
use stupid_ids.Base.{
  ℕ, ◌≡◌, ◌≢◌, ◌≤◌, ◌⊎◌, inl, inr, Bool, true, false, not, List, [], ◌∷◌, Option, none, some, ok,
  ◌==◌, arith, refl, length, All, Bool-cases, sym, ◌∙◌, subst, ==_refl,
}
use stupid_ids.Message.{MessageTranslation, equal_msgstr, equal_msgstr_iff}
use stupid_ids.Iddiff.Map.{find, put, find-put}
use stupid_ids.Iddiff.Change.{Item, IddiffChange, is_none}
use stupid_ids.Iddiff.{Items, find_removed, find_added, find_in_list, entry_or_new}

abbrev pub removed_of : Option (Option IddiffChange) → List Item
removed_of none = []
removed_of (some none) = []
removed_of (some (some c)) = c.removed_items

abbrev pub added_of : Option (Option IddiffChange) → List Item
added_of none = []
added_of (some none) = []
added_of (some (some c)) = c.added_items

abbrev pub review_of : Option (Option IddiffChange) → Option Item
review_of none = none
review_of (some none) = none
review_of (some (some c)) = c.review_comment

abbrev pub removed_at : Items → ℕ → List Item
removed_at m k = removed_of (find k m)

abbrev pub added_at : Items → ℕ → List Item
added_at m k = added_of (find k m)

-- Whether one of the items has the translations.
abbrev pub has : List Item → MessageTranslation → Bool
has xs message = not (is_none (find_in_list xs message))

abbrev pub HasAddress : ℕ → List Item → Type 0
HasAddress a [] = ⊥
HasAddress a (x ∷ xs) = (x.address ≡ a) ⊎ HasAddress a xs

-- No translation twice, no pointer twice.
abbrev pub Distinct : List Item → Type 0
Distinct [] = Unit
Distinct (x ∷ xs) = (has xs x.message ≡ false) × (¬ HasAddress x.address xs) × Distinct xs

-- At most one ADDED item, which is not REMOVED.
pub record IsSound (removed added : List Item) : Type 0 where
  pub one : length added ≤ 1
  pub disjoint : All (λ a. has removed a.message ≡ false) added
  pub distinct : Distinct removed

pub record IsWellFormed (m : Items) : Type 0 where
  pub live : (k : ℕ) → find k m ≢ some none
  pub sound : (k : ℕ) → IsSound (removed_at m k) (added_at m k)

-- What an operation on the ID `k` leaves.
pub record Becomes (m : Items) (k : ℕ) (removed added : List Item) (review : Option Item)
    (m' : Items) : Type 0 where
  pub now_removed : removed_at m' k ≡ removed
  pub now_added : added_at m' k ≡ added
  pub now_review : review_of (find k m') ≡ review
  pub others : (j : ℕ) → j ≢ k → find j m' ≡ find j m
  pub not_null : find k m' ≢ some none

-- The REVIEW comment of the ID stays.
abbrev pub Changed : (m : Items) (k : ℕ) (removed added : List Item) (m' : Items) → Type 0
Changed m k removed added m' = Becomes m k removed added (review_of (find k m)) m'

pub Becomes-IsWellFormed :
    {m m' : Items} {k : ℕ} {removed added : List Item} {review : Option Item}
    → IsWellFormed m
    → Becomes m k removed added review m'
    → IsSound removed added
    → IsWellFormed m'
Becomes-IsWellFormed {m} {m'} {k} v c s = record {
  live = λ j. elim (Bool-cases (j == k)) [
    | inl e ↦ let same : k ≡ j = ground arith in subst (λ i. find i m' ≢ some none) same c.not_null
    | inr e ↦ λ h. v.live j (sym (c.others j (ground arith)) ∙ h)
  ];
  sound = λ j. elim (Bool-cases (j == k)) [
    | inl e ↦
        let same : k ≡ j = ground arith in
        subst (λ i. IsSound (removed_at m' i) (added_at m' i)) same
          (rw (c.now_removed, c.now_added) s)
    | inr e ↦ rw (c.others j (ground arith)) (v.sound j)
  ];
}

module _ (m : Items) (k : ℕ) (live : find k m ≢ some none) where
  pub find_removed-at : find_removed m k ≡ ok (removed_at m k)
  unfolding find_removed
  find_removed-at = ground arith

  pub find_added-at : find_added m k ≡ ok (added_at m k)
  unfolding find_added
  find_added-at = ground arith

-- The tests look at the translations alone.
pub equal_msgstr_cong :
    (x m o : MessageTranslation) → equal_msgstr m o ≡ true → equal_msgstr x m ≡ equal_msgstr x o
equal_msgstr_cong x m o h =
    ground (arith, equal_msgstr_iff x m, equal_msgstr_iff x o, equal_msgstr_iff m o)

pub equal_msgstr_refl : (m : MessageTranslation) → equal_msgstr m m ≡ true
equal_msgstr_refl m = (equal_msgstr_iff m m).1 refl

pub equal_msgstr_sym : (m o : MessageTranslation) → equal_msgstr m o ≡ equal_msgstr o m
equal_msgstr_sym m o = ground (arith, equal_msgstr_iff m o, equal_msgstr_iff o m)

pub find_in_list_cong :
    (xs : List Item) (m o : MessageTranslation)
    → equal_msgstr m o ≡ true
    → find_in_list xs m ≡ find_in_list xs o
unfolding find_in_list
find_in_list_cong [] m o h = refl
find_in_list_cong (x ∷ xs) m o h =
    rw (equal_msgstr_cong x.message m o h, find_in_list_cong xs m o h)

pub find-put_self : (k : ℕ) (p : Option IddiffChange) (m : Items) → find k (put k p m) ≡ some p
find-put_self k p m = rw (find-put k k p m, ==_refl k)

find-put_ne :
    (j k : ℕ) (p : Option IddiffChange) (m : Items) → j ≢ k → find j (put k p m) ≡ find j m
find-put_ne j k p m h = ground (arith, find-put j k p m)

pub put-Becomes :
    (m : Items) (k : ℕ) (c : IddiffChange)
    → Becomes m k c.removed_items c.added_items c.review_comment (put k (some c) m)
put-Becomes m k c = record {
  now_removed = rw (find-put_self k (some c) m);
  now_added = rw (find-put_self k (some c) m);
  now_review = rw (find-put_self k (some c) m);
  others = λ j h. find-put_ne j k (some c) m h;
  not_null = λ h. cc (sym (find-put_self k (some c) m) ∙ h);
}

pub entry_or_new-at :
    (m : Items) (k : ℕ)
    → ((entry_or_new k m).removed_items ≡ removed_at m k)
      × ((entry_or_new k m).added_items ≡ added_at m k)
      × ((entry_or_new k m).review_comment ≡ review_of (find k m))
unfolding entry_or_new
entry_or_new-at m k = ground arith

-- Two changes at one ID are one change.
pub Changed-trans :
    {m m' m'' : Items} {k : ℕ} {removed removed' added added' : List Item}
    → Changed m k removed added m'
    → Changed m' k removed' added' m''
    → Changed m k removed' added' m''
Changed-trans c d = record {
  now_removed = d.now_removed;
  now_added = d.now_added;
  now_review = d.now_review ∙ c.now_review;
  others = λ j h. d.others j h ∙ c.others j h;
  not_null = d.not_null;
}

pub Changed-same :
    {m : Items} (k : ℕ) → find k m ≢ some none → Changed m k (removed_at m k) (added_at m k) m
Changed-same k h = record {
  now_removed = refl;
  now_added = refl;
  now_review = refl;
  others = λ j p. refl;
  not_null = h;
}
