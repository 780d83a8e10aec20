-- ===== src/OidCache.antt =====
-- gettextpo-helper/gtpo/oidmapcache.cpp: a map from OIDs to OIDs that is kept in a file, 40 bytes for
-- each pair.
pub mod Saved
mod Examples
use stupid_ids.Base.{
  ℕ, zero, suc, ◌+◌, ◌/◌, ◌%◌, Bool, true, false, List, [], ◌∷◌, ◌++◌, Option, none, some, Result,
  ok, err, assert, ◌>>=◌, ◌>>◌, length, take, drop, ◌==◌, if◌then◌else◌,
}
use stupid_ids.Text.{Text, text_eq, text_lt}
use stupid_ids.Server.{oid_size}
use stupid_ids.Client.{is_null_oid, zeros}

-- `file` is what stands in the file.
pub record OidMapCache : Type 0 where
  pub file_exists : Bool
  pub file : Text
  pub cache : List (Text × Text)

-- std::map of GitOid: `find` and `m_cache[key] = value`.
unfoldable pub find : Text → List (Text × Text) → Option Text
find key [] = none
find key ((k, v) ∷ m) = if text_eq key k then some v else find key m

unfoldable pub put : (key value : Text) → List (Text × Text) → List (Text × Text)
put key value [] = (key, value) ∷ []
put key value ((k, v) ∷ m) =
    if text_lt key k
    then (key, value) ∷ (k, v) ∷ m
    else if text_lt k key
    then (k, v) ∷ put key value m
    else (key, value) ∷ m

-- The pairs in the file, into the map.
pub load_loop : (pairs : ℕ) → Text → List (Text × Text) → List (Text × Text)
load_loop zero bytes m = m
load_loop (suc pairs) bytes m =
    load_loop pairs (drop (oid_size + oid_size) bytes)
      (put (take oid_size bytes) (take oid_size (drop oid_size bytes)) m)

is_nil : List (Text × Text) → Bool
is_nil [] = true
is_nil (p ∷ m) = false

-- `opens` is whether the file can be opened or made.
pub load_cache : (opens : Bool) → OidMapCache → Result OidMapCache
load_cache opens c = do
  assert (is_nil c.cache)
  if opens
      then (do
        assert (length c.file % (oid_size + oid_size) == 0)
        ok (record c {
          file_exists = true;
          cache = load_loop (length c.file / (oid_size + oid_size)) c.file c.cache;
        }))
      else ok (record c { file_exists = false })

-- The constructor, over what is in the file.
pub new_cache : (opens : Bool) (file : Text) → Result OidMapCache
new_cache opens file = load_cache opens (record { file_exists = false; file = file; cache = [] })

or_zero : Option Text → Text
or_zero none = zeros oid_size
or_zero (some oid) = oid

pub get_value : OidMapCache → Text → Text
get_value c oid = or_zero (find oid c.cache)

keys_of : Text → List (Text × Text) → List Text
keys_of oid [] = []
keys_of oid ((k, v) ∷ m) = if text_eq v oid then k ∷ keys_of oid m else keys_of oid m

pub reverse_get_values : OidMapCache → Text → List Text
reverse_get_values c oid = keys_of oid c.cache

-- The directories of the file are made, and the file is, where it was not there.
pub add_pair : OidMapCache → (oid tp_hash : Text) → Result OidMapCache
add_pair c oid tp_hash = do
  assert (is_null_oid (get_value c oid))
  ok (record c { file = c.file ++ (oid ++ tp_hash); cache = put oid tp_hash c.cache })
