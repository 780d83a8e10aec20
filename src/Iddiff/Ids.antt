-- ===== src/Iddiff/Ids.antt =====
-- The IDs in a set of reviews, and `minimizeIds` of gettextpo-helper/gtpo/iddiff.cpp, which replaces
-- every ID by the smallest ID of the same message. `get_min_ids` stands for the request of the client.
mod Examples
use stupid_ids.Base.{
  ℕ, ◌≡◌, ◌≢◌, Bool, true, false, not, ◌&&◌, ◌||◌, List, [], ◌∷◌, map, Option, none, some, Result,
  ok, err, assertion, assert, ◌>>=◌, ◌>>◌, ◌==◌, length, if◌then◌else◌, refl, sym, ◌∙◌, ap, arith,
  Bool-cases, inl, inr, ==_refl, subst,
}
use stupid_ids.Server.{sort}
use stupid_ids.Iddiff.Map.{find, put, erase, find-put, find-erase}
use stupid_ids.Iddiff.Change.{IddiffChange, is_none, empty}
use stupid_ids.Iddiff.{Items, clear_empty_message_data, deref}
use stupid_ids.Iddiff.View.{IsWellFormed}

-- `std::unique`: the first of each run of equal numbers.
unique : List ℕ → List ℕ
unique [] = []
unique (n ∷ []) = n ∷ []
unique (n ∷ m ∷ ms) = if n == m then unique (m ∷ ms) else n ∷ unique (m ∷ ms)

pub sort_uniq : List ℕ → List ℕ
sort_uniq ns = unique (sort ns)

abbrev keys {ℓ} : {V : Type ℓ} → List (ℕ × V) → List ℕ
keys [] = []
keys ((k, v) ∷ m) = k ∷ keys m

pub involved_ids : Items → List ℕ
involved_ids m = sort_uniq (keys m)

pub involved_ids_single : (k : ℕ) (p : Option IddiffChange) → involved_ids ((k, p) ∷ []) ≡ k ∷ []
unfolding involved_ids sort_uniq unique sort
involved_ids_single k p = refl

move_entry : Items → (old_id new_id : ℕ) → Option (Option IddiffChange) → Items
move_entry m old_id new_id none = m
move_entry m old_id new_id (some p) = erase old_id (put new_id p m)

pub substitute_msg_id : Items → (old_id new_id : ℕ) → Result Items
substitute_msg_id m old_id new_id = if old_id == new_id then ok m else (do
  m1 ← clear_empty_message_data m old_id
  m2 ← clear_empty_message_data m1 new_id
  assert (is_none (find new_id m2))
  ok (move_entry m2 old_id new_id (find old_id m2)))

pub substitute_all : Items → (msg_ids min_ids : List ℕ) → Result Items
substitute_all m [] min_ids = ok m
substitute_all m (msg_id ∷ msg_ids) [] = err assertion
substitute_all m (msg_id ∷ msg_ids) (min_id ∷ min_ids) = do
  m' ← substitute_msg_id m msg_id min_id
  substitute_all m' msg_ids min_ids

pub minimize_ids : (get_min_ids : List ℕ → Result (List ℕ)) → Items → Result Items
minimize_ids get_min_ids m = do
  min_ids ← get_min_ids (involved_ids m)
  assert (length (involved_ids m) == length min_ids)
  substitute_all m (involved_ids m) min_ids

clear_kept :
    (m : Items) (k : ℕ) (c : IddiffChange)
    → find k m ≡ some (some c)
    → empty c ≡ false
    → clear_empty_message_data m k ≡ ok m
unfolding clear_empty_message_data
clear_kept m k c e h = rw (e, clear_empty_message_data) (rw h)

clear_absent : (m : Items) (k : ℕ) → find k m ≡ none → clear_empty_message_data m k ≡ ok m
unfolding clear_empty_message_data
clear_absent m k e = rw (e, clear_empty_message_data)

-- An entry that says something moves to another ID, if that has no entry yet: the new ID then has
-- the entry of the old one, which has none, and no other ID changes.
pub substitute_msg_id_moves :
    (m : Items) (old_id new_id : ℕ) (c : IddiffChange)
    → old_id ≢ new_id
    → find old_id m ≡ some (some c)
    → empty c ≡ false
    → find new_id m ≡ none
    → (m' : Items) × (substitute_msg_id m old_id new_id ≡ ok m')
      × (find new_id m' ≡ some (some c))
      × (find old_id m' ≡ none)
      × ((j : ℕ) → j ≢ old_id → j ≢ new_id → find j m' ≡ find j m)
unfolding substitute_msg_id move_entry
substitute_msg_id_moves m old_id new_id c ne e h free =
    let differ : (old_id == new_id) ≡ false = ground arith in
    (
      erase old_id (put new_id (some c) m),
      rw (differ, clear_kept m old_id c e h) (rw (clear_absent m new_id free) (rw (free, e))),
      ground (
        arith,
        find-erase new_id old_id (put new_id (some c) m),
        find-put new_id new_id (some c) m,
      ),
      ground (arith, find-erase old_id old_id (put new_id (some c) m)),
      λ j p q.
          ground (arith, find-erase j old_id (put new_id (some c) m), find-put j new_id (some c) m),
    )

-- Where two different IDs both have entries that say something, even the same, `substituteMsgId`
-- stops the program.
pub substitute_msg_id_collision :
    (m : Items) (old_id new_id : ℕ) (c d : IddiffChange)
    → old_id ≢ new_id
    → find old_id m ≡ some (some c)
    → empty c ≡ false
    → find new_id m ≡ some (some d)
    → empty d ≡ false
    → substitute_msg_id m old_id new_id ≡ err assertion
unfolding substitute_msg_id
substitute_msg_id_collision m old_id new_id c d ne e h f g =
    let differ : (old_id == new_id) ≡ false = ground arith in
    rw (differ, clear_kept m old_id c e h) (rw (clear_kept m new_id d f g) (rw f))

substitute_all_same : (m : Items) (ids : List ℕ) → substitute_all m ids ids ≡ ok m
unfolding substitute_all substitute_msg_id
substitute_all_same m [] = refl
substitute_all_same m (id ∷ ids) = rw (==_refl id) (substitute_all_same m ids)

-- A set of reviews for whose IDs the server answers with the same IDs stays as it is.
pub minimize_ids_minimal :
    (get_min_ids : List ℕ → Result (List ℕ)) (m : Items)
    → get_min_ids (involved_ids m) ≡ ok (involved_ids m)
    → minimize_ids get_min_ids m ≡ ok m
unfolding minimize_ids
minimize_ids_minimal get_min_ids m h =
    rw h (rw (==_refl (length (involved_ids m))) (substitute_all_same m (involved_ids m)))
