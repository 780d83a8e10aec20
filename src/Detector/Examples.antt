-- ===== src/Detector/Examples.antt =====
-- The pairs that gettextpo-helper/gtpo/detector.cpp finds where a file is changed and changed back.
use stupid_ids.Base.{ℕ, ◌≡◌, true, List, [], ◌∷◌, some, ok, refl}
use stupid_ids.Text.{text_lt}
use stupid_ids.Repo.{Commit, mod_}
use stupid_ids.Repo.Tree.{done}
use stupid_ids.Repo.History.{History, root_commit, Repository, read_repository_commits}
use stupid_ids.Detector.{
  OidPair, add_oid_pair, stored, process_type, process_change, process_changes, commits_loop,
  detect_successors, sort_unique_pairs,
}
use stupid_ids.Detector.Unique.{IsAscending, has_pair, detect_successors-sort_unique_pairs}

abbrev changed : ℕ → ℕ → Commit
changed old new = record {
  oid = [];
  time = 10;
  changes =
      record {
        oid1 = some (old ∷ []);
        oid2 = some (new ∷ []);
        path = [];
        name = 97 ∷ [];
        type_ = mod_;
      }
      ∷ [];
}

-- It has been read already.
abbrev repo : Repository
repo = record { commits_init = true; commits = changed 2 1 ∷ changed 1 2 ∷ [] }

abbrev history : History
history = root_commit (record { oid = []; time = 10; root = record { id = []; entries = done } })

abbrev pair : OidPair
pair = record { oid1 = 1 ∷ []; oid2 = 2 ∷ [] }

detects : detect_successors history repo [] ≡ ok (pair ∷ pair ∷ [])
unfolding detect_successors read_repository_commits commits_loop process_changes process_change
    process_type stored add_oid_pair text_lt
detects = refl

detect_successors-sort_unique_pairs_example :
    (res : List OidPair) × (sort_unique_pairs (pair ∷ pair ∷ []) ≡ ok res)
    × IsAscending res
    × ((x : OidPair) → has_pair x res ≡ has_pair x (pair ∷ pair ∷ []))
detect_successors-sort_unique_pairs_example =
    detect_successors-sort_unique_pairs history repo [] detects
