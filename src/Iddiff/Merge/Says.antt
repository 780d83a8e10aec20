-- ===== src/Iddiff/Merge/Says.antt =====
-- What the insertions of gettextpo-helper/gtpo/iddiff.cpp leave, where they all succeed: for each ID
-- and translation, whether it is REMOVED and whether it is ADDED.
use stupid_ids.Base.{
  Option, ℕ, ◌+◌, ◌≡◌, ◌≢◌, ◌<◌, inl, inr, Bool, true, false, not, ◌&&◌, ◌||◌, List, [], ◌∷◌, ◌++◌,
  ok, assert-then, ok-injective, ◌==◌, ==_refl, arith, refl, sym, subst, ap, ◌∙◌, Bool-cases, some,
}
use stupid_ids.Message.{MessageTranslation, equal_msgstr, is_translated}
use stupid_ids.Iddiff.Change.{Item, is_none, empty_review}
use stupid_ids.Iddiff.{
  Items, find_in_list, insert_removed, insert_added, insert_review, entry_or_new,
}
use stupid_ids.Iddiff.View.{
  removed_at, added_at, has, HasAddress, IsWellFormed, Changed, Becomes, Becomes-IsWellFormed,
  find_in_list_cong, put-Becomes, entry_or_new-at,
}
use stupid_ids.Iddiff.Insert.{
  has-append, HasAddress-append, insert_removed_duplicate, insert_removed_conflict,
  insert_removed-Changed, removed-IsSound, insert_added-Changed, insert_added_removed,
  insert_added_duplicate, insert_added_conflict,
}

-- Whether the list has the translation for the ID.
abbrev pub says : List (ℕ × Item) → ℕ → MessageTranslation → Bool
says [] j o = false
says ((k, x) ∷ others) j o = (k == j && equal_msgstr x.message o) || says others j o

-- All pointers of REMOVED are below the next new one.
abbrev pub AreBelow : ℕ → Items → Type 0
AreBelow fresh m = (k a : ℕ) → HasAddress a (removed_at m k) → a < fresh

-- What REMOVED and ADDED say of each translation has been extended.
pub record Extends (m m' : Items) (removed added : ℕ → MessageTranslation → Bool) : Type 0 where
  pub valid : IsWellFormed m'
  pub says_removed :
      (j : ℕ) (o : MessageTranslation)
      → has (removed_at m' j) o ≡ (has (removed_at m j) o || removed j o)
  pub says_added :
      (j : ℕ) (o : MessageTranslation) → has (added_at m' j) o ≡ (has (added_at m j) o || added j o)

abbrev pub nothing : ℕ → MessageTranslation → Bool
nothing j o = false

abbrev pub one : ℕ → MessageTranslation → ℕ → MessageTranslation → Bool
one k message j o = k == j && equal_msgstr message o

pub or_false : (b : Bool) → b ≡ (b || false)
or_false true = refl
or_false false = refl

pub has_cong :
    (xs : List Item) (m o : MessageTranslation) → equal_msgstr m o ≡ true → has xs m ≡ has xs o
has_cong xs m o h = ap (λ r. not (is_none r)) (find_in_list_cong xs m o h)

already :
    (has_it : ℕ → MessageTranslation → Bool) (k : ℕ) (message : MessageTranslation)
    → ((o : MessageTranslation) → equal_msgstr message o ≡ true → has_it k o ≡ true)
    → (j : ℕ) (o : MessageTranslation) → has_it j o ≡ (has_it j o || one k message j o)
already has_it k message h j o = elim (Bool-cases (k == j)) [
  | inr e ↦ rw e (or_false (has_it j o))
  | inl e ↦ elim (Bool-cases (equal_msgstr message o)) [
    | inr f ↦ rw (e, f) (or_false (has_it j o))
    | inl f ↦
        let same : k ≡ j = ground arith in
        let t : has_it j o ≡ true = subst (λ i. has_it i o ≡ true) same (h o f) in rw t refl
  ]
]

-- What changes at one ID only.
elsewhere :
    (P : ℕ → Type 0) (k : ℕ) → P k → ((j : ℕ) → j ≢ k → (k == j) ≡ false → P j) → (j : ℕ) → P j
elsewhere P k here there j = elim (Bool-cases (k == j)) [
  | inl e ↦ let same : k ≡ j = ground arith in subst P same here
  | inr e ↦ there j (ground arith) e
]

module _ (m : Items) (k : ℕ) (item : Item) where
  removed_more :
      {m' : Items}
      → Changed m k (removed_at m k ++ item ∷ []) (added_at m k) m'
      → (j : ℕ) (o : MessageTranslation)
      → has (removed_at m' j) o ≡ (has (removed_at m j) o || one k item.message j o)
  removed_more {m'} c j o =
      elsewhere (λ i. has (removed_at m' i) o ≡ (has (removed_at m i) o || one k item.message i o))
        k (rw (c.now_removed, ==_refl k) (has-append (removed_at m k) item o))
        (λ i ne e. rw (c.others i ne, e) (or_false (has (removed_at m i) o))) j

  added_same :
      {m' : Items} {rs : List Item} {review : Option Item}
      → Becomes m k rs (added_at m k) review m'
      → (j : ℕ) → added_at m' j ≡ added_at m j
  added_same {m'} c =
      elsewhere (λ i. added_at m' i ≡ added_at m i) k c.now_added (λ i ne e. rw (c.others i ne))

  removed_same :
      {m' : Items} {xs : List Item} {review : Option Item}
      → Becomes m k (removed_at m k) xs review m'
      → (j : ℕ) → removed_at m' j ≡ removed_at m j
  removed_same {m'} c =
      elsewhere (λ i. removed_at m' i ≡ removed_at m i) k c.now_removed
        (λ i ne e. rw (c.others i ne))

  pub insert_removed-Extends :
      {m' : Items} {fresh : ℕ}
      → IsWellFormed m
      → AreBelow fresh m
      → item.address ≡ fresh
      → insert_removed m k item ≡ ok m'
      → Extends m m' (one k item.message) nothing × AreBelow (fresh + 1) m'
  insert_removed-Extends {m'} {fresh} v b new h =
      elim (Bool-cases (has (removed_at m k) item.message)) [
        | inl r ↦
            let same : m ≡ m' = ok-injective (sym (insert_removed_duplicate v k item r) ∙ h) in
            rw (← same) (
              record {
                valid = v;
                says_removed =
                    already (λ j o. has (removed_at m j) o) k item.message
                      (λ o e. sym (has_cong (removed_at m k) item.message o e) ∙ r);
                says_added = λ j o. or_false (has (added_at m j) o);
              },
              λ j a z. let low = b j a z in omega arith,
            )
        | inr r ↦ elim (Bool-cases (has (added_at m k) item.message)) [
          | inl s ↦ let bad = sym (insert_removed_conflict v k item r s) ∙ h in absurd (cc)
          | inr s ↦
              let (m'', e, c) = insert_removed-Changed v k item r s in
              let same : m'' ≡ m' = ok-injective (sym e ∙ h) in
              let new_address : ¬ HasAddress item.address (removed_at m k) =
                λ z. let low = b k item.address z in omega arith in
              rw (← same) (
                record {
                  valid = Becomes-IsWellFormed v c (removed-IsSound v k item r s new_address);
                  says_removed = removed_more c;
                  says_added = λ j o. rw (added_same c j) (or_false (has (added_at m j) o));
                },
                λ j a.
                    elsewhere (λ i. HasAddress a (removed_at m'' i) → a < fresh + 1) k
                      (λ z.
                        elim (HasAddress-append a (removed_at m k) item (rw c.now_removed at z)) [
                          | inl old ↦ let low = b k a old in omega arith
                          | inr it ↦ omega arith
                        ])
                      (λ i ne e z. let low = b i a (rw (c.others i ne) at z) in omega arith) j,
              )
        ]
      ]

  added_more :
      {m' : Items}
      → added_at m k ≡ []
      → Changed m k (removed_at m k) (item ∷ []) m'
      → (j : ℕ) (o : MessageTranslation)
      → has (added_at m' j) o ≡ (has (added_at m j) o || one k item.message j o)
  added_more {m'} free c j o =
      elsewhere (λ i. has (added_at m' i) o ≡ (has (added_at m i) o || one k item.message i o)) k
        (rw (c.now_added, free, ==_refl k) (has-append [] item o))
        (λ i ne e. rw (c.others i ne, e) (or_false (has (added_at m i) o))) j

  insert_added_free :
      {m' : Items} {fresh : ℕ}
      → IsWellFormed m
      → AreBelow fresh m
      → has (removed_at m k) item.message ≡ false
      → (xs : List Item) → added_at m k ≡ xs
      → insert_added m k item ≡ ok m'
      → Extends m m' nothing (one k item.message) × AreBelow fresh m'
  unfolding find_in_list
  insert_added_free {m'} {fresh} v b r [] free h =
      let (m'', e, c) = insert_added-Changed v k item r free in
      let same : m'' ≡ m' = ok-injective (sym e ∙ h) in
      rw (← same) (
        record {
          valid =
              Becomes-IsWellFormed v c
                (record { one = omega arith; disjoint = (r, tt); distinct = (v.sound k).distinct });
          says_removed = λ j o. rw (removed_same c j) (or_false (has (removed_at m j) o));
          says_added = added_more free c;
        },
        λ j a z. b j a (rw (removed_same c j) at z),
      )
  insert_added_free {m'} v b r (x ∷ xs) there h =
      elim (Bool-cases (equal_msgstr x.message item.message)) [
        | inl t ↦
            let same : m ≡ m' =
              ok-injective (sym (insert_added_duplicate v k item x xs there t r) ∙ h) in
            let known : has (added_at m k) item.message ≡ true = rw (there, t) refl in
            rw (← same) (
              record {
                valid = v;
                says_removed = λ j o. or_false (has (removed_at m j) o);
                says_added =
                    already (λ j o. has (added_at m j) o) k item.message
                      (λ o e. sym (has_cong (added_at m k) item.message o e) ∙ known);
              },
              b,
            )
        | inr t ↦ let bad = sym (insert_added_conflict v k item x xs there t) ∙ h in absurd (cc)
      ]

  pub insert_added-Extends :
      {m' : Items} {fresh : ℕ}
      → IsWellFormed m
      → AreBelow fresh m
      → insert_added m k item ≡ ok m'
      → Extends m m' nothing (one k item.message) × AreBelow fresh m'
  insert_added-Extends v b h = elim (Bool-cases (has (removed_at m k) item.message)) [
    | inl r ↦ let bad = sym (insert_added_removed v k item r) ∙ h in absurd (cc)
    | inr r ↦ insert_added_free v b r (added_at m k) refl h
  ]

  pub insert_review-Extends :
      {m' : Items} {fresh : ℕ}
      → IsWellFormed m
      → AreBelow fresh m
      → insert_review m k item ≡ ok m'
      → Extends m m' nothing nothing × AreBelow fresh m'
  unfolding insert_review
  insert_review-Extends {m'} v b h =
      let (free, h') = assert-then (empty_review (entry_or_new k m)) h in
      let (fit, e) = assert-then (is_translated item.message) h' in
      let same = ok-injective e in
      let (p, q, _) = entry_or_new-at m k in
      let changed = put-Becomes m k (record (entry_or_new k m) { review_comment = some item }) in
      let c : Becomes m k (removed_at m k) (added_at m k) (some item) m' =
        rw (← same, ← p, ← q) changed in
      (
        record {
          valid = Becomes-IsWellFormed v c (v.sound k);
          says_removed = λ j o. rw (removed_same c j) (or_false (has (removed_at m j) o));
          says_added = λ j o. rw (added_same c j) (or_false (has (added_at m j) o));
        },
        λ j a z. b j a (rw (removed_same c j) at z),
      )

or_append : (a b c : Bool) → ((a || b) || c) ≡ (a || (b || c))
or_append true b c = refl
or_append false b c = refl

-- One extension after another.
pub Extends-trans :
    {m m' m'' : Items} {r r' a a' : ℕ → MessageTranslation → Bool}
    → Extends m m' r a
    → Extends m' m'' r' a'
    → Extends m m'' (λ j o. r j o || r' j o) (λ j o. a j o || a' j o)
Extends-trans {m} {r} {r'} {a} {a'} e f = record {
  valid = f.valid;
  says_removed = λ j o.
      f.says_removed j o
      ∙ ap (λ b. b || r' j o) (e.says_removed j o)
      ∙ or_append (has (removed_at m j) o) (r j o) (r' j o);
  says_added = λ j o.
      f.says_added j o
      ∙ ap (λ b. b || a' j o) (e.says_added j o)
      ∙ or_append (has (added_at m j) o) (a j o) (a' j o);
}
