-- ===== src/Repo/Search/Examples.antt =====
-- The commits between two dates, of gettextpo-helper/gtpo/repository.cpp, in a list of three.
use stupid_ids.Base.{ℕ, zero, suc, ◌+◌, ◌≡◌, ◌<◌, ◌≤◌, List, [], ◌∷◌, ok, refl, length, arith}
use stupid_ids.Base.Int.{pos}
use stupid_ids.Date.{FileDateTime, of_git_time}
use stupid_ids.Repo.{Commit}
use stupid_ids.Repo.ByTime.{time_at}
use stupid_ids.Repo.Search.{list_commits_between_dates}
use stupid_ids.Repo.Search.Near.{AreInOrder}
use stupid_ids.Repo.Search.Listed.{AreBetween, list_commits_between_dates_lem}

abbrev at_time : ℕ → Commit
at_time time = record { oid = []; time = time; changes = [] }

abbrev commits : List Commit
commits = at_time 10 ∷ at_time 20 ∷ at_time 30 ∷ []

next_to : (i : ℕ) → i + 1 < length commits → time_at commits i ≤ time_at commits (i + 1)
next_to zero h = omega arith
next_to (suc zero) h = omega arith
next_to (suc (suc i)) h = absurd (omega arith)

by_two : (i : ℕ) → i + 2 < length commits → time_at commits i < time_at commits (i + 2)
by_two zero h = omega arith
by_two (suc i) h = absurd (omega arith)

commits-AreInOrder : AreInOrder commits
commits-AreInOrder = record { next_to = next_to; by_two = by_two }

-- The later date comes first.
abbrev from : FileDateTime
from = of_git_time (pos 35)

abbrev to : FileDateTime
to = of_git_time (pos 15)

list_commits_between_dates_lem_example :
    (res : List ℕ) × (list_commits_between_dates commits from to ≡ ok res)
    × AreBetween commits (pos 35) (pos 15) res
list_commits_between_dates_lem_example =
    list_commits_between_dates_lem commits from to commits-AreInOrder refl refl
