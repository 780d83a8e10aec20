-- ===== src/Iddiff/Diff/Files.antt =====
-- What `diffFiles` of gettextpo-helper/gtpo/iddiff.cpp leaves in the map.
use stupid_ids.Base.{
  some, Option, ℕ, ◌+◌, ◌≡◌, ◌<◌, ◌≤◌, Bool, true, false, ◌&&◌, List, [], ◌∷◌, none, ok, All,
  length, ltb, refl, ◌∙◌, arith,
}
use stupid_ids.Message.{Message, equal_msgstr}
use stupid_ids.Iddiff.Map.{find}
use stupid_ids.Iddiff.Change.{Item}
use stupid_ids.Iddiff.{Items, find_in_list}
use stupid_ids.Iddiff.View.{
  removed_at, added_at, IsSound, IsWellFormed, Changed, Becomes-IsWellFormed, Changed-trans,
}
use stupid_ids.Iddiff.Insert.{insert_removed-Changed, insert_added-Changed}
use stupid_ids.Text.{Text, text_eq, text_eq_iff}
use stupid_ids.Iddiff.Diff.{
  first_id_of, insert_removed_if, insert_added_if, diff_message, diff_messages, diff_files,
}
use stupid_ids.Iddiff.Diff.Decision.{IsConsistent, to_remove, to_add, decide_lem}

abbrev only_if : Bool → Item → List Item
only_if true item = item ∷ []
only_if false item = []

only_if-IsSound : (r : Bool) (item : Item) → IsSound (only_if r item) []
unfolding find_in_list
only_if-IsSound true item = record {
  one = omega arith;
  disjoint = tt;
  distinct = (refl, λ z. z, tt);
}
only_if-IsSound false item = record { one = omega arith; disjoint = tt; distinct = tt }

both-IsSound :
    (r s : Bool) (x y : Item)
    → r && s && equal_msgstr x.message y.message ≡ false
    → IsSound (only_if r x) (only_if s y)
unfolding find_in_list
both-IsSound r false x y h = only_if-IsSound r x
both-IsSound true true x y h = record {
  one = omega arith;
  disjoint = (rw h, tt);
  distinct = (refl, λ z. z, tt);
}
both-IsSound false true x y h = record { one = omega arith; disjoint = (refl, tt); distinct = tt }

module _ {m : Items} (v : IsWellFormed m) (k : ℕ) where
  unchanged : {rs xs : List Item} → removed_at m k ≡ rs → added_at m k ≡ xs → Changed m k rs xs m
  unchanged p q = record {
    now_removed = p;
    now_added = q;
    now_review = refl;
    others = λ j h. refl;
    not_null = v.live k;
  }

  insert_removed_if-Changed :
      (r : Bool) (item : Item)
      → removed_at m k ≡ []
      → added_at m k ≡ []
      → (m' : Items) × (insert_removed_if r m k item ≡ ok m') × Changed m k (only_if r item) [] m'
  unfolding insert_removed_if find_in_list
  insert_removed_if-Changed true item p q =
      let (m', e, c) = insert_removed-Changed v k item (rw p) (rw q) in (m', e, rw (p, q) at c)
  insert_removed_if-Changed false item p q = (m, refl, unchanged p q)

  insert_added_if-Changed :
      (s : Bool) (x item : Item) (r : Bool)
      → removed_at m k ≡ only_if r x
      → added_at m k ≡ []
      → r && s && equal_msgstr x.message item.message ≡ false
      → (m' : Items) × (insert_added_if s m k item ≡ ok m')
        × Changed m k (only_if r x) (only_if s item) m'
  unfolding insert_added_if find_in_list
  insert_added_if-Changed true x item true p q h =
      let (m', e, c) = insert_added-Changed v k item (rw p (rw h)) q in (m', e, rw p at c)
  insert_added_if-Changed true x item false p q h =
      let (m', e, c) = insert_added-Changed v k item (rw p) q in (m', e, rw p at c)
  insert_added_if-Changed false x item r p q h = (m, refl, unchanged p q)

abbrev removes : (a b : Message) → Bool
removes a b =
    to_remove a.untranslated b.untranslated (equal_msgstr a.translation b.translation)
      a.translation.fuzzy b.translation.fuzzy

abbrev adds : (a b : Message) → Bool
adds a b =
    to_add a.untranslated b.untranslated (equal_msgstr a.translation b.translation)
      a.translation.fuzzy b.translation.fuzzy

-- The same translation is never both REMOVED and ADDED.
not_both :
    (ea eb equal fa fb : Bool)
    → to_remove ea eb equal fa fb && to_add ea eb equal fa fb && equal ≡ false
not_both true eb equal fa fb = refl
not_both false true true true fb = refl
not_both false true true false true = refl
not_both false true true false false = refl
not_both false true false true true = refl
not_both false true false true false = refl
not_both false true false false fb = refl
not_both false false true true fb = refl
not_both false false true false true = refl
not_both false false true false false = refl
not_both false false false true true = refl
not_both false false false true false = refl
not_both false false false false true = refl
not_both false false false false false = refl

abbrev removed_item : ℕ → Message → Item
removed_item fresh a = record { address = fresh; message = a.translation }

abbrev added_item : ℕ → Message → Item
added_item fresh b = record { address = fresh + 1; message = b.translation }

-- From the ID `k` on each pair of messages has the entry that its two versions ask for.
abbrev pub Describes : (fresh : ℕ) → Items → ℕ → (messages_a messages_b : List Message) → Type 0
Describes fresh m k [] messages_b = Unit
Describes fresh m k (a ∷ messages_a) [] = Unit
Describes fresh m k (a ∷ messages_a) (b ∷ messages_b) =
    (removed_at m k ≡ only_if (removes a b) (removed_item fresh a))
    × (added_at m k ≡ only_if (adds a b) (added_item fresh b))
    × Describes (fresh + 2) m (k + 1) messages_a messages_b

module _ {m : Items} (v : IsWellFormed m) (k fresh : ℕ) (free : find k m ≡ none) (a b : Message)
    (u : IsConsistent a) (w : IsConsistent b) where
  diff_message-Changed :
      (m' : Items) × (diff_message fresh m k a b ≡ ok m')
      × Changed m k
          (only_if (removes a b) (removed_item fresh a))
          (only_if (adds a b) (added_item fresh b))
          m'
      × IsWellFormed m'
  unfolding diff_message
  diff_message-Changed =
      let nothing : (removed_at m k ≡ []) × (added_at m k ≡ []) = (rw free, rw free) in
      let apart =
        not_both a.untranslated b.untranslated (equal_msgstr a.translation b.translation)
          a.translation.fuzzy b.translation.fuzzy in
      let (m1, e, c) =
        insert_removed_if-Changed v k (removes a b) (removed_item fresh a) nothing.0 nothing.1 in
      let v1 = Becomes-IsWellFormed v c (only_if-IsSound (removes a b) (removed_item fresh a)) in
      let (m2, f, d) =
        insert_added_if-Changed v1 k (adds a b) (removed_item fresh a) (added_item fresh b)
          (removes a b) c.now_removed c.now_added apart in
      (
        m2,
        rw (decide_lem a b u w) (rw e f),
        Changed-trans c d,
        Becomes-IsWellFormed v1 d (
            both-IsSound (removes a b) (adds a b) (removed_item fresh a) (added_item fresh b)
              apart),
      )

nothing-IsWellFormed : IsWellFormed []
unfolding find
nothing-IsWellFormed = record {
  live = λ k h. cc;
  sound = λ k. record { one = omega arith; disjoint = tt; distinct = tt };
}

diff_messages-Describes :
    (k fresh : ℕ) (messages_a messages_b : List Message) (m : Items)
    → IsWellFormed m
    → ((j : ℕ) → k ≤ j → find j m ≡ none)
    → length messages_a ≡ length messages_b
    → All IsConsistent messages_a
    → All IsConsistent messages_b
    → (m' : Items) × (diff_messages fresh m k messages_a messages_b ≡ ok m')
      × IsWellFormed m'
      × Describes fresh m' k messages_a messages_b
      × ((j : ℕ) → j < k → find j m' ≡ find j m)
unfolding diff_messages
diff_messages-Describes k fresh [] messages_b m v free size u w = (m, refl, v, tt, λ j h. refl)
diff_messages-Describes k fresh (a ∷ messages_a) [] m v free size u w = absurd (omega arith)
diff_messages-Describes k fresh (a ∷ messages_a) (b ∷ messages_b) m v free size u w =
    let (m1, e, c, v1) = diff_message-Changed v k fresh (free k (omega arith)) a b u.0 w.0 in
    let (m2, f, v2, d, before) =
      diff_messages-Describes (k + 1) (fresh + 2) messages_a messages_b m1 v1
        (λ j h. c.others j (omega arith) ∙ free j (omega arith)) (omega arith) u.1 w.1 in
    let here : find k m2 ≡ find k m1 = before k (omega arith) in
    (
      m2,
      rw e f,
      v2,
      (rw here c.now_removed, rw here c.now_added, d),
      λ j h. before j (omega arith) ∙ c.others j (omega arith),
    )

-- The difference of two files of one template with as many messages, which are consistent, succeeds
-- if the first ID is known; the result is well formed, and each ID has REMOVED and ADDED exactly what
-- the two versions of its message ask for: the old translation, the new one, both or none.
pub diff_files-Describes :
    (ask : Text → Option (ℕ × ℕ)) (fresh : ℕ) (hash : Text) (messages_a messages_b : List Message)
    (first_id count : ℕ)
    → ask hash ≡ some (first_id, count)
    → 0 < first_id
    → length messages_a ≡ length messages_b
    → All IsConsistent messages_a
    → All IsConsistent messages_b
    → (m : Items) × (diff_files ask fresh hash hash messages_a messages_b ≡ ok m)
      × IsWellFormed m
      × Describes fresh m first_id messages_a messages_b
unfolding diff_files first_id_of find
diff_files-Describes ask fresh hash messages_a messages_b first_id count known pos size u w =
    let positive : ltb 0 first_id ≡ true = ground arith in
    let same : text_eq hash hash ≡ true = (text_eq_iff hash hash).1 refl in
    let (m, e, v, d, before) =
      diff_messages-Describes first_id fresh messages_a messages_b [] nothing-IsWellFormed
        (λ j h. refl) size u w in
    (m, rw (same, known) (rw positive e), v, d)
