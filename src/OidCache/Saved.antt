-- ===== src/OidCache/Saved.antt =====
-- That the file of gettextpo-helper/gtpo/oidmapcache.cpp holds what the map in memory holds.
use stupid_ids.Base.{
  ℕ, zero, suc, ◌*◌, ◌/◌, ◌%◌, ◌≡◌, true, false, List, [], ◌∷◌, ◌++◌, some, ok, assert-then,
  ok-injective, length, length-append, length-drop, take, drop, take-append, drop-append,
  take-append_of_le, drop-append_of_le, nil_of_length, ◌==◌, arith, refl, ap, subst, ◌∙◌,
  Bool-cases, inl, inr, if◌then◌else◌,
}
use mathlib.Core.List.{append-nil}
use stupid_ids.Text.{Text, text_eq, text_lt, text_eq_iff, text_lt_irrefl, text_lt_total}
use stupid_ids.Client.{is_null_oid}
use stupid_ids.OidCache.{
  OidMapCache, find, put, load_loop, is_nil, load_cache, new_cache, or_zero, get_value, add_pair,
}

pub find-put :
    (j key value : Text) (m : List (Text × Text))
    → find j (put key value m) ≡ (if text_eq j key then some value else find j m)
unfolding find put
find-put j key value [] = refl
find-put j key value ((k, v) ∷ m) = elim (Bool-cases (text_lt key k)) [
  | inl e ↦ rw e
  | inr e ↦ elim (Bool-cases (text_lt k key)) [
    | inl f ↦ elim (Bool-cases (text_eq j k)) [
      | inl g ↦
          let same : j ≡ k = (text_eq_iff j k).0 g in
          let differ : text_eq j key ≡ false =
            ground (arith, f, same, text_eq_iff j key, text_lt_irrefl key) in
          rw (e, f) (rw (g, differ))
      | inr g ↦ rw (e, f) (rw g (find-put j key value m))
    ]
    | inr f ↦ let same : key ≡ k = text_lt_total key k e f in rw (e, f) (rw (← same) (ground arith))
  ]
]

take_all_of : (n : ℕ) (s t : Text) → length s ≡ n → take n (s ++ t) ≡ s
take_all_of n s t h = subst (λ k. take k (s ++ t) ≡ s) h (take-append s t)

drop_all_of : (n : ℕ) (s t : Text) → length s ≡ n → drop n (s ++ t) ≡ t
drop_all_of n s t h = subst (λ k. drop k (s ++ t) ≡ t) h (drop-append s t)

take_whole : (n : ℕ) (s : Text) → length s ≡ n → take n s ≡ s
take_whole n s h = subst (λ t. take n t ≡ s) (append-nil s) (take_all_of n s [] h)

-- A pair at the end of the file is put last.
load_loop-append :
    (n : ℕ) (file oid tp_hash : Text) (m : List (Text × Text))
    → length file ≡ n * 40
    → length oid ≡ 20
    → length tp_hash ≡ 20
    → load_loop (suc n) (file ++ (oid ++ tp_hash)) m ≡ put oid tp_hash (load_loop n file m)
unfolding load_loop
load_loop-append zero file oid tp_hash m e p q = rw (nil_of_length file e) (
    rw (take_all_of 20 oid tp_hash p, drop_all_of 20 oid tp_hash p)
      (rw (take_whole 20 tp_hash q) refl))
load_loop-append (suc n) file oid tp_hash m e p q =
    let all = oid ++ tp_hash in
    let ih =
      load_loop-append n (drop 40 file) oid tp_hash (put (take 20 file) (take 20 (drop 20 file)) m)
        (omega (arith, length-drop 40 file, e)) p q in
    let first = take-append_of_le 20 file all (omega arith) in
    let behind = drop-append_of_le 20 file all (omega arith) in
    let second = take-append_of_le 20 (drop 20 file) all (omega (arith, length-drop 20 file)) in
    let rest = drop-append_of_le 40 file all (omega arith) in
    rw (rest, first, behind) (rw second ih)

-- The file holds whole pairs, and to read it gives the map in memory.
pub record IsSaved (c : OidMapCache) : Type 0 where
  pub pairs : ℕ
  pub whole : length c.file ≡ pairs * 40
  pub same : load_loop pairs c.file [] ≡ c.cache

new_cache-loads :
    (c : OidMapCache) → IsSaved c → new_cache true c.file ≡ ok (record c { file_exists = true })
unfolding new_cache load_cache is_nil
new_cache-loads c s =
    let whole : (length c.file % 40 == 0) ≡ true = ground (arith, s.whole) in
    let pairs : length c.file / 40 ≡ s.pairs = omega (arith, s.whole) in
    rw whole (rw (pairs, s.same) refl)

add_pair-adds :
    (c c' : OidMapCache) (oid tp_hash : Text)
    → add_pair c oid tp_hash ≡ ok c'
    → record c { file = c.file ++ (oid ++ tp_hash); cache = put oid tp_hash c.cache } ≡ c'
unfolding add_pair
add_pair-adds c c' oid tp_hash h = ok-injective (assert-then (is_null_oid (get_value c oid)) h).1

-- Where the file holds what the map holds, `addPair` of two OIDs of 20 bytes keeps it so: an OidMapCache
-- that is made anew from the file then has the same pairs. The new pair is found, and what is found
-- for any other OID stays.
pub add_pair-IsSaved :
    (c : OidMapCache) {c' : OidMapCache} (oid tp_hash : Text)
    → IsSaved c
    → length oid ≡ 20
    → length tp_hash ≡ 20
    → add_pair c oid tp_hash ≡ ok c'
    → IsSaved c'
      × (new_cache true c'.file ≡ ok (record c' { file_exists = true }))
      × ((j : Text) → get_value c' j ≡ (if text_eq j oid then tp_hash else get_value c j))
unfolding get_value or_zero
add_pair-IsSaved c {c'} oid tp_hash s p q h =
    let added = add_pair-adds c c' oid tp_hash h in
    let saved : IsSaved c' = subst IsSaved added (record {
      pairs = suc s.pairs;
      whole =
          omega (arith, s.whole, length-append c.file (oid ++ tp_hash), length-append oid tp_hash);
      same =
          load_loop-append s.pairs c.file oid tp_hash [] s.whole p q ∙ ap (put oid tp_hash) s.same;
    }) in
    (
      saved,
      new_cache-loads c' saved,
      subst (λ d. (j : Text) → get_value d j ≡ (if text_eq j oid then tp_hash else get_value c j))
          added (λ j. rw (find-put j oid tp_hash c.cache) (ground arith)),
    )
