-- ===== src/Repo/Blobs/Walk.antt =====
-- That the walk of `blob_iterator` (gettextpo-helper/gtpo/repository.cpp) ends, and what it visits.
use stupid_ids.Base.{
  ℕ, zero, suc, ◌+◌, ◌-◌, ◌≡◌, ◌≤◌, ◌<◌, Bool, true, false, List, [], ◌∷◌, ◌++◌, none, some, ok,
  length, drop, ltb, arith, refl, sym, ap, ◌∙◌,
}
use mathlib.Core.List.{append_assoc, append-nil}
use stupid_ids.Text.{Text, text_eq}
use stupid_ids.Repo.Tree.{
  Entries, done, entry, Object, blob, subtree, is_dir, compared_name, before_next,
}
use stupid_ids.Repo.Blobs.{walk_blob, is_po, keep_po, oids_loop, get_current_oids}

-- What git keeps: entries in order, directories that are not empty, and here names of 3 bytes at
-- least.
unfoldable mutual
  pub IsWalkable : Entries → Type 0
  IsWalkable done = Unit
  IsWalkable (entry name mode object rest) =
      (before_next (compared_name name mode) rest ≡ true)
      × Enters object name mode
      × IsWalkable rest

  pub Enters : Object → Text → ℕ → Type 0
  Enters (blob id) name mode = (is_dir mode ≡ false) × (3 ≤ length name)
  Enters (subtree id done) name mode = ⊥
  Enters (subtree id (entry n m o r)) name mode = (is_dir mode ≡ true) × IsWalkable (entry n m o r)

abbrev pub ends_in_po : Text → Bool
ends_in_po name = text_eq (drop (length name - 3) name) (46 ∷ 112 ∷ 111 ∷ [])

-- The OIDs of all .po files, directory by directory.
unfoldable mutual
  pub po_files : Entries → List Text
  po_files done = []
  po_files (entry name mode object rest) = po_object object name ++ po_files rest

  pub po_object : Object → Text → List Text
  po_object (blob id) name = keep_po (ends_in_po name) id []
  po_object (subtree id entries) name = po_files entries

unfoldable mutual
  pub weight : Entries → ℕ
  weight done = 1
  weight (entry name mode object rest) = suc (object_weight object + weight rest)

  pub object_weight : Object → ℕ
  object_weight (blob id) = 0
  object_weight (subtree id entries) = weight entries

-- Below the top of the stack stand the directories that are being visited.
abbrev lower_files : List Entries → List Text
lower_files [] = []
lower_files (done ∷ stack) = lower_files stack
lower_files (entry name mode object rest ∷ stack) = po_files rest ++ lower_files stack

abbrev lower_weight : List Entries → ℕ
lower_weight [] = 0
lower_weight (done ∷ stack) = lower_weight stack
lower_weight (entry name mode object rest ∷ stack) = weight rest + lower_weight stack

abbrev IsLower : List Entries → Type 0
IsLower [] = Unit
IsLower (done ∷ stack) = ⊥
IsLower (entry name mode object rest ∷ stack) = IsWalkable rest × IsLower stack

abbrev IsStack : List Entries → Type 0
IsStack [] = Unit
IsStack (top ∷ stack) = IsWalkable top × IsLower stack

abbrev files : List Entries → List Text
files [] = []
files (top ∷ stack) = po_files top ++ lower_files stack

abbrev stack_weight : List Entries → ℕ
stack_weight [] = 0
stack_weight (top ∷ stack) = weight top + lower_weight stack

-- At the end, or at a file.
abbrev AtFile : List Entries → Type 0
AtFile [] = Unit
AtFile (done ∷ stack) = ⊥
AtFile (entry name mode (blob id) rest ∷ stack) = Unit
AtFile (entry name mode (subtree id entries) rest ∷ stack) = ⊥

record Reaches (rounds : ℕ) (stack : List Entries) : Type 0 where
  stack' : List Entries
  walks : walk_blob rounds stack ≡ some (ok stack')
  at_file : AtFile stack'
  is_stack : IsStack stack'
  same_files : files stack' ≡ files stack
  lighter : stack_weight stack' ≤ stack_weight stack

walk_blob-Reaches :
    (rounds : ℕ) (stack : List Entries)
    → IsStack stack
    → stack_weight stack < rounds
    → Reaches rounds stack
unfolding walk_blob IsWalkable po_files weight
walk_blob-Reaches zero stack v h = absurd (omega arith)
walk_blob-Reaches (suc rounds) [] v h = record {
  stack' = [];
  walks = refl;
  at_file = tt;
  is_stack = tt;
  same_files = refl;
  lighter = omega arith;
}
walk_blob-Reaches (suc rounds) (done ∷ []) v h =
    let r = walk_blob-Reaches rounds [] tt (omega arith) in
    record {
      stack' = r.stack';
      walks = r.walks;
      at_file = r.at_file;
      is_stack = r.is_stack;
      same_files = r.same_files;
      lighter = omega (arith, r.lighter);
    }
walk_blob-Reaches (suc rounds) (done ∷ done ∷ stack) v h = absurd v.1
walk_blob-Reaches (suc rounds) (done ∷ entry n m o rest ∷ stack) v h =
    let r = walk_blob-Reaches rounds (rest ∷ stack) v.1 (omega arith) in
    record {
      stack' = r.stack';
      walks = r.walks;
      at_file = r.at_file;
      is_stack = r.is_stack;
      same_files = r.same_files;
      lighter = omega (arith, r.lighter);
    }
walk_blob-Reaches (suc rounds) (entry n m (blob id) rest ∷ stack) v h = record {
  stack' = entry n m (blob id) rest ∷ stack;
  walks = rw (v.0.0, walk_blob) (rw v.0.1.0 refl);
  at_file = tt;
  is_stack = v;
  same_files = refl;
  lighter = omega arith;
}
walk_blob-Reaches (suc rounds) (entry n m (subtree id done) rest ∷ stack) v h = absurd v.0.1
walk_blob-Reaches (suc rounds) (entry n m (subtree id (entry k l o q)) rest ∷ stack) v h =
    let r =
      walk_blob-Reaches rounds (entry k l o q ∷ entry n m (subtree id (entry k l o q)) rest ∷ stack)
        (v.0.1.1, (v.0.2, v.1)) (omega arith) in
    record {
      stack' = r.stack';
      walks = rw (v.0.0, walk_blob) (rw v.0.1.0 r.walks);
      at_file = r.at_file;
      is_stack = r.is_stack;
      same_files = r.same_files ∙ simp append_assoc;
      lighter = omega (arith, r.lighter);
    }

is_po-ends : (name : Text) → 3 ≤ length name → is_po name ≡ ok (ends_in_po name)
unfolding is_po
is_po-ends name h = let long : ltb (length name) 3 ≡ false = ground arith in rw long refl

keep_po-append :
    (b : Bool) (id : Text) (ids : List Text) → keep_po b id [] ++ ids ≡ keep_po b id ids
keep_po-append true id ids = refl
keep_po-append false id ids = refl

oids_loop-files :
    (rounds : ℕ) (stack : List Entries)
    → IsStack stack
    → AtFile stack
    → stack_weight stack < rounds
    → oids_loop rounds stack ≡ some (ok (files stack))
unfolding oids_loop IsWalkable po_files weight
oids_loop-files zero stack v a h = absurd (omega arith)
oids_loop-files (suc rounds) [] v a h = refl
oids_loop-files (suc rounds) (done ∷ stack) v a h = absurd a
oids_loop-files (suc rounds) (entry n m (subtree id entries) rest ∷ stack) v a h = absurd a
oids_loop-files (suc rounds) (entry n m (blob id) rest ∷ stack) v a h =
    let r = walk_blob-Reaches rounds (rest ∷ stack) (v.0.2, v.1) (omega arith) in
    let ih = oids_loop-files rounds r.stack' r.is_stack r.at_file (omega (arith, r.lighter)) in
    rw (is_po-ends n v.0.1.1, oids_loop)
      (rw r.walks (
        rw (ih, r.same_files)
          (ap (λ ids. some (ok ids))
            (sym (keep_po-append (ends_in_po n) id (po_files rest ++ lower_files stack))
              ∙ sym (
                  append_assoc (keep_po (ends_in_po n) id []) (po_files rest)
                    (lower_files stack))))))

empty_root : (rounds : ℕ) → get_current_oids (suc rounds) done ≡ some (ok [])
unfolding get_current_oids walk_blob oids_loop
empty_root rounds = refl

-- On a tree as git keeps it, with no empty directory below the root and no file name under 3 bytes,
-- and with more rounds than the tree has entries and directories, the root included, the walk of
-- `getCurrentOids` ends and returns the OIDs of the files whose name ends in ".po", in the order of
-- the entries, a directory's files in the place of the directory.
pub get_current_oids-po_files :
    (root : Entries) (rounds : ℕ)
    → IsWalkable root
    → weight root < rounds
    → get_current_oids rounds root ≡ some (ok (po_files root))
unfolding get_current_oids IsWalkable po_files weight
get_current_oids-po_files done zero v h = absurd (omega arith)
get_current_oids-po_files done (suc rounds) v h = empty_root rounds
get_current_oids-po_files (entry n m o rest) rounds v h =
    let r = walk_blob-Reaches rounds (entry n m o rest ∷ []) (v, tt) (omega arith) in
    rw (r.walks, get_current_oids)
      (oids_loop-files rounds r.stack' r.is_stack r.at_file (omega (arith, r.lighter))
        ∙ ap (λ ids. some (ok ids)) (r.same_files ∙ append-nil (po_files (entry n m o rest))))

-- An empty directory is entered again and again: however many rounds it is given, the walk does not
-- come to an end.
pub walk_blob_stuck :
    (rounds : ℕ) (name id : Text) (mode : ℕ) (rest : Entries) (stack : List Entries)
    → before_next (compared_name name mode) rest ≡ true
    → is_dir mode ≡ true
    → walk_blob rounds (entry name mode (subtree id done) rest ∷ stack) ≡ none
unfolding walk_blob
walk_blob_stuck zero name id mode rest stack h k = refl
walk_blob_stuck (suc rounds) name id mode rest stack h k =
    rw (h, walk_blob) (rw k (walk_blob_stuck rounds name id mode rest stack h k))
