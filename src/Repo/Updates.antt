-- ===== src/Repo/Updates.antt =====
-- The searches for an OID of a file in the list of commits: gettextpo-helper/gtpo/repository.cpp.
use stupid_ids.Base.{
  ℕ, zero, suc, ◌+◌, ◌-◌, ◌≡◌, ◌<◌, ◌≤◌, ◌⊎◌, inl, inr, true, List, ◌∷◌, ◌++◌, ◌≢◌, get_elem?, refl,
  sym, ◌∙◌, Option, none, some, Result, ok, assert, ◌>>=◌, ◌>>◌, length, dec_lt, arith, subst, ltb,
}
use stupid_ids.Text.{Text}
use stupid_ids.Repo.{
  Commit, CommitFileChange, ChangeType, add, mod_, del, build_pathname, full_name, commit,
  find_change, find_update_oid, update_oid, last_commit_by_time,
}
use stupid_ids.Repo.ByTime.{commit-at, time_at, IsNearlySorted, last_commit_by_time_lem}
use stupid_ids.Repo.Changes.{
  AreSorted, find_change-Answers, elem_inside, change-elem, elem-name_at, name_at_once,
}

-- `for (i = from_commit; i < nCommits(); i ++)`
pub next_loop : List Commit → (name path : Text) (rounds i : ℕ) → Result (Option Text)
next_loop commits name path zero i = ok none
next_loop commits name path (suc rounds) i = do
  c ← commit commits i
  oid ← find_update_oid c name path
  elim oid [ some o ↦ ok (some o) | none ↦ next_loop commits name path rounds (i + 1) ]

pub find_next_update_oid : List Commit → (from_commit : ℕ) (name path : Text) → Result (Option Text)
find_next_update_oid commits from_commit name path = do
  assert (ltb from_commit (length commits))
  next_loop commits name path (length commits - from_commit) from_commit

-- `for (i = from_commit; i >= 0; --i)`
pub last_loop : List Commit → (name path : Text) (i : ℕ) → Result (Option Text)
last_loop commits name path zero = do c ← commit commits 0; find_update_oid c name path
last_loop commits name path (suc i) = do
  c ← commit commits (suc i)
  oid ← find_update_oid c name path
  elim oid [ some o ↦ ok (some o) | none ↦ last_loop commits name path i ]

pub find_last_update_oid : List Commit → (from_commit : ℕ) (name path : Text) → Result (Option Text)
find_last_update_oid commits from_commit name path = do
  assert (ltb from_commit (length commits))
  last_loop commits name path from_commit

from_found : List Commit → (name path : Text) → Option ℕ → Result (Option Text)
from_found commits name path none = ok none
from_found commits name path (some index) = last_loop commits name path index

pub find_file_oid_by_time : List Commit → ℕ → (name path : Text) → Result (Option Text)
find_file_oid_by_time commits time name path = do
  index ← last_commit_by_time commits time
  from_found commits name path index

-- The commit `i` leaves the file with the OID `o`: one of its changes has the full name of the file and
-- this new OID, and is no removal.
pub record Updates (commits : List Commit) (name path : Text) (i : ℕ) (o : Text) : Type 0 where
  pub at_commit : Commit
  pub there : commit commits i ≡ ok at_commit
  pub place : ℕ
  pub changed : CommitFileChange
  pub change_there : get_elem? at_commit.changes place ≡ some changed
  pub its_name : full_name changed ≡ path ++ 47 ∷ name
  pub not_removed : changed.type_ ≢ del
  pub new_oid : changed.oid2 ≡ some o

-- No change of the commit `i` leaves the file with an OID: those with its full name are removals, or
-- have no new OID.
pub record Passes (commits : List Commit) (name path : Text) (i : ℕ) : Type 0 where
  pub at_commit : Commit
  pub there : commit commits i ≡ ok at_commit
  pub no_update :
      (place : ℕ) (changed : CommitFileChange)
      → get_elem? at_commit.changes place ≡ some changed
      → full_name changed ≡ path ++ 47 ∷ name
      → (changed.type_ ≡ del) ⊎ (changed.oid2 ≡ none)

-- The result is the OID of the last update up to the commit `from`; removals are passed over.
pub LastUpdate : List Commit → (name path : Text) → ℕ → Result (Option Text) → Type 0
LastUpdate commits name path from result =
    ((o : Text) × (i : ℕ) × (result ≡ ok (some o))
      × (i ≤ from)
      × Updates commits name path i o
      × ((j : ℕ) → i < j → j ≤ from → Passes commits name path j))
    ⊎ ((result ≡ ok none) × ((j : ℕ) → j ≤ from → Passes commits name path j))

update_oid-some :
    (x : CommitFileChange) {o : Text}
    → update_oid (some x) ≡ some o
    → (x.type_ ≢ del) × (x.oid2 ≡ some o)
unfolding update_oid
update_oid-some x h = by_type x.type_ h
  where
    by_type :
        (t : ChangeType) {o : Text}
        → elim t [ del ↦ none | _ ↦ x.oid2 ] ≡ some o
        → (t ≢ del) × (x.oid2 ≡ some o)
    by_type add h = (λ e. cc, h)
    by_type mod_ h = (λ e. cc, h)
    by_type del h = cc

update_oid-none :
    (x : CommitFileChange) → update_oid (some x) ≡ none → (x.type_ ≡ del) ⊎ (x.oid2 ≡ none)
unfolding update_oid
update_oid-none x h = by_type x.type_ h
  where
    by_type :
        (t : ChangeType) → elim t [ del ↦ none | _ ↦ x.oid2 ] ≡ none → (t ≡ del) ⊎ (x.oid2 ≡ none)
    by_type add h = inr h
    by_type mod_ h = inr h
    by_type del h = inl refl

-- What `findUpdateOid` gives.
data Gives (commits : List Commit) (name path : Text) (i : ℕ) : Option Text → Type 0 where
  updated :
      {o : Text}
      → (c : Commit) → commit commits i ≡ ok c
      → find_update_oid c name path ≡ ok (some o)
      → Updates commits name path i o
      → Gives commits name path i (some o)
  passed :
      (c : Commit)
      → commit commits i ≡ ok c
      → find_update_oid c name path ≡ ok none
      → Passes commits name path i
      → Gives commits name path i none

module _ (commits : List Commit) (name path : Text)
    (sorted : (i : ℕ) (c : Commit) → commit commits i ≡ ok c → AreSorted c) where
  found_Gives :
      (i : ℕ) (c : Commit)
      → commit commits i ≡ ok c
      → (k : ℕ) (x : CommitFileChange) → find_change c name path ≡ ok (some x)
      → get_elem? c.changes k ≡ some x
      → full_name x ≡ build_pathname path name
      → (o : Option Text) → update_oid (some x) ≡ o
      → Gives commits name path i o
  unfolding find_update_oid build_pathname
  found_Gives i c p k x e f g none u = passed c p (rw e (rw u refl)) (record {
    at_commit = c;
    there = p;
    no_update = λ place y h n.
        (let same : place ≡ k =
            name_at_once c (sorted i c p) place k (elem_inside c.changes place h)
              (elem_inside c.changes k f)
              (elem-name_at c place h ∙ n ∙ sym g ∙ sym (elem-name_at c k f)) in
          let here : get_elem? c.changes k ≡ some y =
            subst (λ m. get_elem? c.changes m ≡ some y) same h in
          let it : x ≡ y = cc (sym f ∙ here) in
          subst (λ z. (z.type_ ≡ del) ⊎ (z.oid2 ≡ none)) it (update_oid-none x u));
  })
  found_Gives i c p k x e f g (some o) u =
      let (live, new) = update_oid-some x u in
      updated c p (rw e (rw u refl)) (record {
        at_commit = c;
        there = p;
        place = k;
        changed = x;
        change_there = f;
        its_name = g;
        not_removed = live;
        new_oid = new;
      })

  Gives-at : (i : ℕ) → i < length commits → (o : Option Text) × Gives commits name path i o
  unfolding find_update_oid update_oid build_pathname
  Gives-at i h =
      let (c, p, q) = commit-at commits i h in
      elim (find_change-Answers c (sorted i c p) name path) [
        | inl (k, x, lt, e, f, g) ↦
            (update_oid (some x), found_Gives i c p k x e (change-elem c k f) g _ refl)
        | inr (e, f) ↦ (
          none,
          passed c p (rw e refl) (record {
            at_commit = c;
            there = p;
            no_update = λ place y there n.
                absurd
                  (f place (elem_inside c.changes place there) (elem-name_at c place there ∙ n));
          }),
        )
      ]

  at_or_below :
      (i : ℕ)
      → Passes commits name path (suc i)
      → (j : ℕ) → j ≤ suc i
      → (j ≤ i → Passes commits name path j)
      → Passes commits name path j
  at_or_below i u j b below = elim (dec_lt i j) [
    | yes top ↦ let same : suc i ≡ j = omega arith in subst (λ n. Passes commits name path n) same u
    | no under ↦ below (omega arith)
  ]

  from_first :
      (o : Option Text)
      → Gives commits name path 0 o
      → LastUpdate commits name path 0 (last_loop commits name path 0)
  unfolding last_loop LastUpdate
  from_first (some o) (updated c p f u) =
      inl (o, 0, rw (p, ◌>>=◌) f, omega arith, u, λ j a b. absurd (omega arith))
  from_first none (passed c p f u) = inr (
    rw (p, ◌>>=◌) f,
    λ j b. let same : 0 ≡ j = omega arith in subst (λ n. Passes commits name path n) same u,
  )

  from_next :
      (i : ℕ) (o : Option Text)
      → Gives commits name path (suc i) o
      → LastUpdate commits name path i (last_loop commits name path i)
      → LastUpdate commits name path (suc i) (last_loop commits name path (suc i))
  unfolding last_loop LastUpdate
  from_next i (some o) (updated c p f u) below =
      inl (o, suc i, rw (p, ◌>>=◌) (rw f), omega arith, u, λ j a b. absurd (omega arith))
  from_next i none (passed c p f u) (inl (o, k, e, le, w, later)) = inl (
    o,
    k,
    rw (p, ◌>>=◌) (rw f e),
    omega arith,
    w,
    λ j a b. at_or_below i u j b (λ c. later j a c),
  )
  from_next i none (passed c p f u) (inr (e, never)) =
      inr (rw (p, ◌>>=◌) (rw f e), λ j b. at_or_below i u j b (λ c. never j c))

  last_loop-LastUpdate :
      (i : ℕ) → i < length commits → LastUpdate commits name path i (last_loop commits name path i)
  last_loop-LastUpdate zero h = let (o, u) = Gives-at zero h in from_first o u
  last_loop-LastUpdate (suc i) h =
      let (o, u) = Gives-at (suc i) h in from_next i o u (last_loop-LastUpdate i (omega arith))

  -- Where the changes of every commit are in the order of their full names, `findLastUpdateOid` from
  -- a commit of the list returns the OID of the last update of the file up to that commit, or nothing
  -- if no commit up to it updates the file.
  pub find_last_update_oid_lem :
      (from_commit : ℕ)
      → from_commit < length commits
      → LastUpdate commits name path from_commit
          (find_last_update_oid commits from_commit name path)
  unfolding find_last_update_oid LastUpdate
  find_last_update_oid_lem from_commit h =
      let inside : ltb from_commit (length commits) ≡ true = ground arith in
      rw inside (last_loop-LastUpdate from_commit h)

  -- If the first commit is not later than the time, each commit is earlier than the second one after
  -- it, and the changes of every commit are in the order of their full names, then
  -- `findFileOidByTime` returns the OID of the last update of the file up to the commit that
  -- `lastCommitByTime` finds, or nothing if there is none up to it. Removals of the file are passed
  -- over, so that the OID of a file that has been removed before the time is returned, too.
  pub find_file_oid_by_time_lem :
      (time : ℕ)
      → 0 < length commits
      → time_at commits 0 ≤ time
      → IsNearlySorted commits
      → (i : ℕ) × (last_commit_by_time commits time ≡ ok (some i))
        × (time_at commits i ≤ time)
        × LastUpdate commits name path i (find_file_oid_by_time commits time name path)
  unfolding find_file_oid_by_time from_found LastUpdate
  find_file_oid_by_time_lem time h e s =
      let (i, f, inside, early, after) = last_commit_by_time_lem commits time h e s in
      (i, f, early, rw (f, ◌>>=◌) (last_loop-LastUpdate i inside))
