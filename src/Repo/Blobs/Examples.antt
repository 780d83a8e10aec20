-- ===== src/Repo/Blobs/Examples.antt =====
-- The walk of `blob_iterator` (gettextpo-helper/gtpo/repository.cpp) over a small tree.
use stupid_ids.Base.{◌≡◌, ◌<◌, [], ◌∷◌, some, ok, arith, refl}
use stupid_ids.Text.{text_eq, text_lt}
use stupid_ids.Repo.Tree.{Entries, done, entry, blob, subtree, is_dir, before_next, compared_name}
use stupid_ids.Repo.Blobs.{get_current_oids}
use stupid_ids.Repo.Blobs.Walk.{IsWalkable, po_files, weight, get_current_oids-po_files}

-- The files "d/a.po", "d/b.c" and "e.po".
abbrev root : Entries
root =
    entry (100 ∷ []) 16384
      (subtree [] (
        entry (97 ∷ 46 ∷ 112 ∷ 111 ∷ []) 33188 (blob (1 ∷ []))
          (entry (98 ∷ 46 ∷ 99 ∷ []) 33188 (blob (2 ∷ [])) done)))
      (entry (101 ∷ 46 ∷ 112 ∷ 111 ∷ []) 33188 (blob (3 ∷ [])) done)

root-IsWalkable : IsWalkable root
unfolding IsWalkable before_next compared_name is_dir text_lt
root-IsWalkable = (
  refl,
  (refl, (refl, (refl, omega arith), (refl, (refl, omega arith), tt))),
  (refl, (refl, omega arith), tt),
)

root_weight : weight root < 20
unfolding weight
root_weight = omega arith

root_files : po_files root ≡ (1 ∷ []) ∷ (3 ∷ []) ∷ []
unfolding po_files text_eq
root_files = refl

get_current_oids-po_files_example : get_current_oids 20 root ≡ some (ok (po_files root))
get_current_oids-po_files_example = get_current_oids-po_files root 20 root-IsWalkable root_weight
