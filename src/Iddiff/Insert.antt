-- ===== src/Iddiff/Insert.antt =====
-- `insertRemoved` and `insertAdded` of gettextpo-helper/gtpo/iddiff.cpp.
use stupid_ids.Base.{
  ℕ, ◌≡◌, ◌⊎◌, inl, inr, true, false, ◌||◌, List, [], ◌∷◌, ◌++◌, ok, err, arith, refl, All, sym,
  subst, assertion,
}
use stupid_ids.Message.{MessageTranslation, equal_msgstr}
use stupid_ids.Iddiff.Change.{Item}
use stupid_ids.Iddiff.{
  Items, find_removed_item, find_added_item, find_in_list, insert_removed, insert_added,
  push_removed, push_added, check_added,
}
use stupid_ids.Iddiff.View.{
  removed_at, added_at, has, HasAddress, Distinct, IsSound, IsWellFormed, Changed, find_removed-at,
  find_added-at, put-Becomes, entry_or_new-at, equal_msgstr_sym,
}

pub has-append :
    (xs : List Item) (x : Item) (o : MessageTranslation)
    → has (xs ++ x ∷ []) o ≡ (has xs o || equal_msgstr x.message o)
unfolding find_in_list
has-append [] x o = ground arith
has-append (y ∷ xs) x o = ground (arith, has-append xs x o)

pub HasAddress-append :
    (a : ℕ) (xs : List Item) (x : Item)
    → HasAddress a (xs ++ x ∷ [])
    → HasAddress a xs ⊎ (x.address ≡ a)
HasAddress-append a [] x (inl h) = inr h
HasAddress-append a [] x (inr h) = absurd h
HasAddress-append a (y ∷ xs) x (inl h) = inl (inl h)
HasAddress-append a (y ∷ xs) x (inr h) = elim (HasAddress-append a xs x h) [
  | inl p ↦ inl (inr p)
  | inr p ↦ inr p
]

Distinct-append :
    (xs : List Item) (x : Item)
    → Distinct xs
    → has xs x.message ≡ false
    → ¬ HasAddress x.address xs
    → Distinct (xs ++ x ∷ [])
unfolding find_in_list
Distinct-append [] x d h a = (refl, λ z. z, tt)
Distinct-append (y ∷ xs) x (p, q, d) h a = (
  ground (arith, has-append xs x y.message, equal_msgstr_sym x.message y.message),
  λ z. elim (HasAddress-append y.address xs x z) [ inl u ↦ q u | inr u ↦ a (inl (sym u)) ],
  Distinct-append xs x d (ground arith) (λ z. a (inr z)),
)

disjoint_append :
    (rs added : List Item) (x : Item)
    → has added x.message ≡ false
    → All (λ a. has rs a.message ≡ false) added
    → All (λ a. has (rs ++ x ∷ []) a.message ≡ false) added
unfolding find_in_list
disjoint_append rs [] x h d = tt
disjoint_append rs (a ∷ added) x h (p, d) = (
  ground (arith, has-append rs x a.message, equal_msgstr_sym x.message a.message),
  disjoint_append rs added x (ground arith) d,
)

push_removed-Changed :
    (m : Items) (k : ℕ) (item : Item)
    → Changed m k (removed_at m k ++ item ∷ []) (added_at m k) (push_removed m k item)
unfolding push_removed
push_removed-Changed m k item =
    let (r, a, c) = entry_or_new-at m k in rw (← r, ← a, ← c) (put-Becomes m k _)

push_added-Changed :
    (m : Items) (k : ℕ) (item : Item)
    → Changed m k (removed_at m k) (added_at m k ++ item ∷ []) (push_added m k item)
unfolding push_added
push_added-Changed m k item =
    let (r, a, c) = entry_or_new-at m k in rw (← r, ← a, ← c) (put-Becomes m k _)

module _ {m : Items} (v : IsWellFormed m) (k : ℕ) where
  pub find_removed_item-at :
      (o : MessageTranslation) → find_removed_item m k o ≡ ok (find_in_list (removed_at m k) o)
  unfolding find_removed_item
  find_removed_item-at o = rw (find_removed-at m k (v.live k))

  pub find_added_item-at :
      (o : MessageTranslation) → find_added_item m k o ≡ ok (find_in_list (added_at m k) o)
  unfolding find_added_item
  find_added_item-at o = rw (find_added-at m k (v.live k))

module _ {m : Items} (v : IsWellFormed m) (k : ℕ) (item : Item) where
  -- A translation that is REMOVED already stays as it is.
  pub insert_removed_duplicate :
      has (removed_at m k) item.message ≡ true → insert_removed m k item ≡ ok m
  unfolding insert_removed
  insert_removed_duplicate h = rw (find_removed_item-at v k item.message, h)

  -- A translation that is ADDED cannot become REMOVED.
  pub insert_removed_conflict :
      has (removed_at m k) item.message ≡ false
      → has (added_at m k) item.message ≡ true
      → insert_removed m k item ≡ err assertion
  unfolding insert_removed
  insert_removed_conflict h g =
      rw (find_removed_item-at v k item.message, h, find_added_item-at v k item.message)
        (ground arith)

  pub insert_removed-Changed :
      has (removed_at m k) item.message ≡ false
      → has (added_at m k) item.message ≡ false
      → (m' : Items) × (insert_removed m k item ≡ ok m')
        × Changed m k (removed_at m k ++ item ∷ []) (added_at m k) m'
  unfolding insert_removed
  insert_removed-Changed h g = (
    push_removed m k item,
    rw (find_removed_item-at v k item.message, h, find_added_item-at v k item.message)
        (ground arith),
    push_removed-Changed m k item,
  )

  pub removed-IsSound :
      has (removed_at m k) item.message ≡ false
      → has (added_at m k) item.message ≡ false
      → ¬ HasAddress item.address (removed_at m k)
      → IsSound (removed_at m k ++ item ∷ []) (added_at m k)
  removed-IsSound h g fresh = record {
    one = (v.sound k).one;
    disjoint = disjoint_append (removed_at m k) (added_at m k) item g (v.sound k).disjoint;
    distinct = Distinct-append (removed_at m k) item (v.sound k).distinct h fresh;
  }

  -- A translation that is REMOVED cannot become ADDED.
  pub insert_added_removed :
      has (removed_at m k) item.message ≡ true → insert_added m k item ≡ err assertion
  unfolding insert_added
  insert_added_removed h = rw (find_removed_item-at v k item.message) (ground arith)

  -- Nor can a second translation of the ID.
  pub insert_added_conflict :
      (x : Item) (xs : List Item)
      → added_at m k ≡ x ∷ xs
      → equal_msgstr x.message item.message ≡ false
      → insert_added m k item ≡ err assertion
  unfolding insert_added check_added
  insert_added_conflict x xs e h =
      rw (find_removed_item-at v k item.message, find_added-at m k (v.live k), e) (ground arith)

  pub insert_added_duplicate :
      (x : Item) (xs : List Item)
      → added_at m k ≡ x ∷ xs
      → equal_msgstr x.message item.message ≡ true
      → has (removed_at m k) item.message ≡ false
      → insert_added m k item ≡ ok m
  unfolding insert_added check_added
  insert_added_duplicate x xs e h g =
      rw (find_removed_item-at v k item.message, find_added-at m k (v.live k), e) (ground arith)

  pub insert_added-Changed :
      has (removed_at m k) item.message ≡ false
      → added_at m k ≡ []
      → (m' : Items) × (insert_added m k item ≡ ok m') × Changed m k (removed_at m k) (item ∷ []) m'
  unfolding insert_added check_added
  insert_added-Changed h e = (
    push_added m k item,
    rw (find_removed_item-at v k item.message, find_added-at m k (v.live k), e) (ground arith),
    subst (λ xs. Changed m k (removed_at m k) xs (push_added m k item)) (rw e)
        (push_added-Changed m k item),
  )
