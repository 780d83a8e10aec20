-- ===== src/OidCache/Examples.antt =====
-- A pair added to an empty cache of gettextpo-helper/gtpo/oidmapcache.cpp.
use stupid_ids.Base.{ℕ, zero, suc, ◌≡◌, true, [], ◌∷◌, ◌++◌, ok, refl, if◌then◌else◌}
use stupid_ids.Text.{Text, text_eq}
use stupid_ids.Client.{is_null_oid}
use stupid_ids.OidCache.{OidMapCache, load_loop, put, find, new_cache, or_zero, get_value, add_pair}
use stupid_ids.OidCache.Saved.{IsSaved, add_pair-IsSaved}

abbrev bytes : ℕ → ℕ → Text
bytes zero b = []
bytes (suc n) b = b ∷ bytes n b

abbrev no_pairs : OidMapCache
no_pairs = record { file_exists = true; file = []; cache = [] }

abbrev one_pair : OidMapCache
one_pair = record {
  file_exists = true;
  file = bytes 20 1 ++ bytes 20 2;
  cache = (bytes 20 1, bytes 20 2) ∷ [];
}

adds : add_pair no_pairs (bytes 20 1) (bytes 20 2) ≡ ok one_pair
unfolding add_pair get_value or_zero find put is_null_oid text_eq
adds = refl

no_pairs-IsSaved : IsSaved no_pairs
unfolding load_loop
no_pairs-IsSaved = record { pairs = 0; whole = refl; same = refl }

add_pair-IsSaved_example :
    IsSaved one_pair
    × (new_cache true one_pair.file ≡ ok one_pair)
    × ((j : Text)
        → get_value one_pair j
          ≡ (if text_eq j (bytes 20 1) then bytes 20 2 else get_value no_pairs j))
add_pair-IsSaved_example =
    add_pair-IsSaved no_pairs (bytes 20 1) (bytes 20 2) no_pairs-IsSaved refl refl adds
