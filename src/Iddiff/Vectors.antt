-- ===== src/Iddiff/Vectors.antt =====
-- The lists of all entries, and the review comments, of gettextpo-helper/gtpo/iddiff.cpp. Where the
-- code writes `m_items[msg_id]` a missing entry is made, with a null pointer.
use stupid_ids.Base.{
  ℕ, ◌≡◌, List, [], ◌∷◌, ◌++◌, Option, none, some, Result, ok, err, null_pointer, ◌>>=◌, refl,
  arith,
}
use stupid_ids.Text.{OptString, null}
use stupid_ids.Message.{msgstr_at}
use stupid_ids.Iddiff.Map.{find, put}
use stupid_ids.Iddiff.Change.{Item, IddiffChange, clear_review}
use stupid_ids.Iddiff.{Items, deref}
use stupid_ids.Iddiff.View.{find-put_self}

-- `m_items[msg_id]`: the map afterwards, and the pointer.
pub index : ℕ → Items → Items × Option IddiffChange
index msg_id m = elim (find msg_id m) [ none ↦ (put msg_id none m, none) | some p ↦ (m, p) ]

comment_text : Option Item → Result OptString
comment_text none = ok null
comment_text (some comment) = msgstr_at comment.message 0

comment_of : Option IddiffChange → Option Item
comment_of none = none
comment_of (some c) = c.review_comment

-- The text, and the map afterwards.
pub review_comment_text : Items → ℕ → Result (OptString × Items)
review_comment_text m msg_id = do
  text ← comment_text (comment_of (index msg_id m).1)
  ok (text, (index msg_id m).0)

cleared : ℕ → Items × Option IddiffChange → Items
cleared msg_id (m, none) = m
cleared msg_id (m, some c) = put msg_id (some (clear_review c)) m

pub clear_review_comment : Items → ℕ → Items
clear_review_comment m msg_id = cleared msg_id (index msg_id m)

-- `clearReviewComments`: every pointer is read.
pub clear_review_comments : Items → Result Items
clear_review_comments [] = ok []
clear_review_comments ((k, p) ∷ m) = do
  c ← deref p
  rest ← clear_review_comments m
  ok ((k, some (clear_review c)) ∷ rest)

abbrev pub with_id : ℕ → List Item → List (ℕ × Item)
with_id k [] = []
with_id k (x ∷ xs) = (k, x) ∷ with_id k xs

unfoldable pub get_removed_vector : Items → Result (List (ℕ × Item))
get_removed_vector [] = ok []
get_removed_vector ((k, p) ∷ m) = do
  c ← deref p
  rest ← get_removed_vector m
  ok (with_id k c.removed_items ++ rest)

unfoldable pub get_added_vector : Items → Result (List (ℕ × Item))
get_added_vector [] = ok []
get_added_vector ((k, p) ∷ m) = do
  c ← deref p
  rest ← get_added_vector m
  ok (with_id k c.added_items ++ rest)

abbrev if_any : ℕ → Option Item → List (ℕ × Item)
if_any k none = []
if_any k (some comment) = (k, comment) ∷ []

unfoldable pub get_review_vector : Items → Result (List (ℕ × Item))
get_review_vector [] = ok []
get_review_vector ((k, p) ∷ m) = do
  c ← deref p
  rest ← get_review_vector m
  ok (if_any k c.review_comment ++ rest)

removed_null : (m : Items) (k : ℕ) → find k m ≡ some none → get_removed_vector m ≡ err null_pointer
unfolding get_removed_vector find
removed_null [] k h = cc
removed_null ((j, none) ∷ m) k h = refl
removed_null ((j, some c) ∷ m) k h = rw (removed_null m k (ground arith))

index_absent : (m : Items) (k : ℕ) → find k m ≡ none → index k m ≡ (put k none m, none)
unfolding index
index_absent m k h = rw (h, index)

-- The defect: to ask for the comment on an ID that has no entry gives none, but leaves a null
-- pointer in the map, and the next list of REMOVED translations reads it.
pub review_comment_text_null :
    (m : Items) (k : ℕ)
    → find k m ≡ none
    → (m' : Items) × (review_comment_text m k ≡ ok (null, m'))
      × (get_removed_vector m' ≡ err null_pointer)
unfolding review_comment_text comment_text comment_of
review_comment_text_null m k h = (
  put k none m,
  rw (index_absent m k h, review_comment_text),
  removed_null (put k none m) k (find-put_self k none m),
)
