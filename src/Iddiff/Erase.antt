-- ===== src/Iddiff/Erase.antt =====
-- `eraseRemoved`, `eraseAdded` and `clearEmptyMessageData` of gettextpo-helper/gtpo/iddiff.cpp: the
-- item to erase is found by its translations and erased by its pointer.
use stupid_ids.Base.{
  ℕ, ◌≡◌, inl, inr, true, false, not, ◌&&◌, List, [], ◌∷◌, Option, none, some, ok, ◌==◌,
  if◌then◌else◌, arith, refl, Bool-cases, sym, ◌∙◌, ap, subst, ==_refl,
}
use stupid_ids.Message.{MessageTranslation, equal_msgstr}
use stupid_ids.Iddiff.Map.{find, put, erase, find-erase}
use stupid_ids.Iddiff.Change.{
  Item, IddiffChange, is_none, empty, erase_item, erase_removed, erase_added,
}
use stupid_ids.Iddiff.{
  Items, find_in_list, clear_empty_message_data, erase_removed_item, erase_added_item,
}
use stupid_ids.Iddiff.View.{
  removed_at, added_at, removed_of, added_of, has, HasAddress, Distinct, Changed, Becomes,
  put-Becomes, find-put_self, equal_msgstr_cong, equal_msgstr_sym, find_in_list_cong,
}

-- The list without its first item that has the translations.
unfoldable pub without : MessageTranslation → List Item → List Item
without message [] = []
without message (x ∷ xs) = if equal_msgstr x.message message then xs else x ∷ without message xs

find-HasAddress :
    (xs : List Item) (message : MessageTranslation) (x : Item)
    → find_in_list xs message ≡ some x
    → HasAddress x.address xs
unfolding find_in_list
find-HasAddress [] message x h = cc
find-HasAddress (y ∷ ys) message x h = elim (Bool-cases (equal_msgstr y.message message)) [
  | inl e ↦ inl (ground arith)
  | inr e ↦ inr (find-HasAddress ys message x (ground arith))
]

erase_item-without :
    (xs : List Item) (message : MessageTranslation) (x : Item)
    → Distinct xs
    → find_in_list xs message ≡ some x
    → erase_item xs x.address ≡ ok (without message xs)
unfolding find_in_list erase_item without
erase_item-without [] message x d h = cc
erase_item-without (y ∷ ys) message x (p, q, d) h =
    elim (Bool-cases (equal_msgstr y.message message)) [
      | inl e ↦ rw e (ground arith)
      | inr e ↦
          let later : find_in_list ys message ≡ some x = ground arith in
          let other : (y.address == x.address) ≡ false =
            elim (Bool-cases (y.address == x.address)) [
              | inl s ↦ absurd (
                  q (
                    subst (λ a. HasAddress a ys) (sym (same y.address x.address s))
                      (find-HasAddress ys message x later)))
              | inr s ↦ s
            ] in
          rw (e, other, erase_item-without ys message x d later)
    ]
  where
    same : (a b : ℕ) → (a == b) ≡ true → a ≡ b
    same a b s = ground arith

pub has_same :
    (xs : List Item) (m o : MessageTranslation) → equal_msgstr m o ≡ true → has xs m ≡ has xs o
has_same xs m o h = ap (λ f. not (is_none f)) (find_in_list_cong xs m o h)

pub has-without :
    (xs : List Item) (message o : MessageTranslation)
    → Distinct xs
    → has (without message xs) o ≡ (has xs o && not (equal_msgstr message o))
unfolding find_in_list without
has-without [] message o d = refl
has-without (x ∷ xs) message o (p, q, d) = ground (
  arith,
  has-without xs message o d,
  equal_msgstr_cong x.message message o,
  equal_msgstr_cong o x.message message,
  equal_msgstr_sym x.message o,
  equal_msgstr_sym message o,
  has_same xs x.message o,
)

HasAddress-without :
    (a : ℕ) (message : MessageTranslation) (xs : List Item)
    → HasAddress a (without message xs)
    → HasAddress a xs
unfolding without
HasAddress-without a message [] h = h
HasAddress-without a message (x ∷ xs) h = elim (Bool-cases (equal_msgstr x.message message)) [
  | inl e ↦ inr (rw e at h)
  | inr e ↦ elim (rw e at h) [ inl p ↦ inl p | inr p ↦ inr (HasAddress-without a message xs p) ]
]

pub Distinct-without :
    (message : MessageTranslation) (xs : List Item) → Distinct xs → Distinct (without message xs)
unfolding without
Distinct-without message [] d = tt
Distinct-without message (x ∷ xs) (p, q, d) = elim (Bool-cases (equal_msgstr x.message message)) [
  | inl e ↦ rw e d
  | inr e ↦ rw e (
    ground (arith, has-without xs message x.message d),
    λ a. q (HasAddress-without x.address message xs a),
    Distinct-without message xs d,
  )
]

empty-nil :
    (c : IddiffChange)
    → empty c ≡ true
    → (c.removed_items ≡ []) × (c.added_items ≡ []) × (c.review_comment ≡ none)
unfolding empty
empty-nil c h = ground arith

clear-Changed :
    (m : Items) (k : ℕ) (c : IddiffChange)
    → find k m ≡ some (some c)
    → (m' : Items) × (clear_empty_message_data m k ≡ ok m')
      × Becomes m k c.removed_items c.added_items c.review_comment m'
unfolding clear_empty_message_data
clear-Changed m k c e = elim (Bool-cases (empty c)) [
  | inl t ↦
      let (r, a, s) = empty-nil c t in
      let gone : find k (erase k m) ≡ none = rw (find-erase k k m, ==_refl k) in
      (
        erase k m,
        ground arith,
        record {
          now_removed = rw (gone, r);
          now_added = rw (gone, a);
          now_review = rw (gone, s);
          others = λ j h. ground (arith, find-erase j k m);
          not_null = λ h. cc (sym gone ∙ h);
        },
      )
  | inr t ↦ (
    m,
    ground arith,
    record {
      now_removed = rw e;
      now_added = rw e;
      now_review = rw e;
      others = λ j h. refl;
      not_null = λ h. cc (sym e ∙ h);
    },
  )
]

-- An entry with REMOVED or ADDED items is there.
entry_of_removed :
    (p : Option (Option IddiffChange)) (message : MessageTranslation) (x : Item)
    → find_in_list (removed_of p) message ≡ some x
    → (c : IddiffChange) × (p ≡ some (some c))
unfolding find_in_list
entry_of_removed none message x h = cc
entry_of_removed (some none) message x h = cc
entry_of_removed (some (some c)) message x h = (c, refl)

entry_of_added :
    (p : Option (Option IddiffChange)) (message : MessageTranslation) (x : Item)
    → find_in_list (added_of p) message ≡ some x
    → (c : IddiffChange) × (p ≡ some (some c))
unfolding find_in_list
entry_of_added none message x h = cc
entry_of_added (some none) message x h = cc
entry_of_added (some (some c)) message x h = (c, refl)

module _ (m : Items) (k : ℕ) (message : MessageTranslation) (x : Item) where
  pub erase_removed_item-Changed :
      Distinct (removed_at m k)
      → find_in_list (removed_at m k) message ≡ some x
      → (m' : Items) × (erase_removed_item m k x.address ≡ ok m')
        × Changed m k (without message (removed_at m k)) (added_at m k) m'
  unfolding erase_removed_item erase_removed
  erase_removed_item-Changed d h =
      let (c, e) = entry_of_removed (find k m) message x h in
      let c' : IddiffChange = record c { removed_items = without message c.removed_items } in
      let gone : erase_item c.removed_items x.address ≡ ok (without message c.removed_items) =
        erase_item-without c.removed_items message x (rw e at d) (rw e at h) in
      let (m', f, g) = clear-Changed (put k (some c') m) k c' (find-put_self k (some c') m) in
      (
        m',
        ground arith,
        record {
          now_removed = g.now_removed ∙ rw e;
          now_added = g.now_added ∙ rw e;
          now_review = g.now_review ∙ rw e;
          others = λ j h. g.others j h ∙ (put-Becomes m k c').others j h;
          not_null = g.not_null;
        },
      )

  pub erase_added_item-Changed :
      Distinct (added_at m k)
      → find_in_list (added_at m k) message ≡ some x
      → (m' : Items) × (erase_added_item m k x.address ≡ ok m')
        × Changed m k (removed_at m k) (without message (added_at m k)) m'
  unfolding erase_added_item erase_added
  erase_added_item-Changed d h =
      let (c, e) = entry_of_added (find k m) message x h in
      let c' : IddiffChange = record c { added_items = without message c.added_items } in
      let gone : erase_item c.added_items x.address ≡ ok (without message c.added_items) =
        erase_item-without c.added_items message x (rw e at d) (rw e at h) in
      let (m', f, g) = clear-Changed (put k (some c') m) k c' (find-put_self k (some c') m) in
      (
        m',
        ground arith,
        record {
          now_removed = g.now_removed ∙ rw e;
          now_added = g.now_added ∙ rw e;
          now_review = g.now_review ∙ rw e;
          others = λ j h. g.others j h ∙ (put-Becomes m k c').others j h;
          not_null = g.not_null;
        },
      )
