-- ===== src/Repo/Tree/Sorted.antt =====
-- The changes that `Repository::diffTree` lists (gettextpo-helper/gtpo/repository.cpp) are in the order
-- of their full names.
use stupid_ids.Base.{
  ℕ, ◌≡◌, true, false, List, [], ◌∷◌, ◌++◌, All, All-append, All-mono, sym, ap, ◌∙◌,
}
use mathlib.Core.List.{append_assoc, append-nil}
use stupid_ids.Text.{Text, text_lt}
use stupid_ids.Repo.{CommitFileChange, full_name}
use stupid_ids.Repo.Tree.{
  Entries, done, entry, Object, blob, subtree, is_dir, concat_path, without_slash,
}
use stupid_ids.Repo.Tree.Keys.{NoSlash, Extends, Extends-lt, text_lt-append_left}

abbrev pub IsNonempty : Text → Type 0
IsNonempty [] = ⊥
IsNonempty (c ∷ cs) = Unit

-- What git keeps: no slash in a name, and the mode of a directory where there is a tree. The tree
-- whose path is empty, the root, has no files of its own.
unfoldable mutual
  pub IsTidy : Text → Entries → Type 0
  IsTidy path done = Unit
  IsTidy path (entry name mode object rest) =
      NoSlash name × Fits path object name mode × IsTidy path rest

  pub Fits : Text → Object → Text → ℕ → Type 0
  Fits path (blob id) name mode = (is_dir mode ≡ false) × IsNonempty path
  Fits path (subtree id entries) name mode =
      (is_dir mode ≡ true) × IsTidy (concat_path path name) entries

-- What the full names of a tree begin with.
abbrev pub prefix_of : Text → Text
prefix_of [] = []
prefix_of (c ∷ path) = without_slash (c ∷ path) ++ 47 ∷ []

-- A file below the entry that is compared by `key`.
pub record Under (path key : Text) (c : CommitFileChange) : Type 0 where
  pub below : Text
  pub names : full_name c ≡ prefix_of path ++ below
  pub extends : Extends key below

pub record Above (path low : Text) (c : CommitFileChange) : Type 0 where
  pub key : Text
  pub higher : text_lt low key ≡ true
  pub under : Under path key c

pub record Within (path : Text) (c : CommitFileChange) : Type 0 where
  pub below : Text
  pub names : full_name c ≡ prefix_of path ++ below

abbrev pub IsSorted : List CommitFileChange → Type 0
IsSorted [] = Unit
IsSorted (c ∷ cs) = All (λ d. text_lt (full_name c) (full_name d) ≡ true) cs × IsSorted cs

IsSorted-append :
    (xs ys : List CommitFileChange)
    → IsSorted xs
    → IsSorted ys
    → All (λ c. All (λ d. text_lt (full_name c) (full_name d) ≡ true) ys) xs
    → IsSorted (xs ++ ys)
IsSorted-append [] ys s t h = t
IsSorted-append (x ∷ xs) ys s t h = (All-append _ xs ys s.0 h.0, IsSorted-append xs ys s.1 t h.1)

-- The changes that one entry gives, and those that the entries of a tree give.
pub record ListedUnder (path key : Text) (changes result : List CommitFileChange) : Type 0 where
  pub out : List CommitFileChange
  pub adds : result ≡ changes ++ out
  pub sorted : IsSorted out
  pub under : All (Under path key) out

pub record Listed (path : Text) (Free : Text → Type 0) (changes result : List CommitFileChange)
    : Type 0 where
  pub out : List CommitFileChange
  pub adds : result ≡ changes ++ out
  pub sorted : IsSorted out
  pub within : All (Within path) out
  pub above : (low : Text) → Free low → All (Above path low) out

Under-lt :
    (path key : Text) (c d : CommitFileChange)
    → Under path key c
    → Above path key d
    → text_lt (full_name c) (full_name d) ≡ true
Under-lt path key c d u a =
    rw (u.names, a.under.names)
      (text_lt-append_left (prefix_of path) u.below a.under.below
        ∙ Extends-lt key a.key u.below a.under.below u.extends a.under.extends a.higher)

Under-Within : (path key : Text) (c : CommitFileChange) → Under path key c → Within path c
Under-Within path key c u = record { below = u.below; names = u.names }

pub Listed-nothing :
    (path : Text) (Free : Text → Type 0) (changes : List CommitFileChange)
    → Listed path Free changes changes
Listed-nothing path Free changes = record {
  out = [];
  adds = sym (append-nil changes);
  sorted = tt;
  within = tt;
  above = λ low free. tt;
}

-- An entry, and then the ones that come after it.
pub Listed-step :
    {path key : Text} {Free Next : Text → Type 0} {changes changes' result : List CommitFileChange}
    → ListedUnder path key changes changes'
    → Listed path Next changes' result
    → Next key
    → ((low : Text) → Free low → (text_lt low key ≡ true) × Next low)
    → Listed path Free changes result
Listed-step {path} {key} {changes} {result} u l next free = record {
  out = u.out ++ l.out;
  adds = l.adds ∙ ap (λ cs. cs ++ l.out) u.adds ∙ append_assoc changes u.out l.out;
  sorted = IsSorted-append u.out l.out u.sorted l.sorted (
      All-mono (λ c below. All-mono (λ d. Under-lt path key c d below) l.out (l.above key next))
        u.out u.under);
  within = All-append _ u.out l.out (All-mono (Under-Within path key) u.out u.under) l.within;
  above = λ low f.
      All-append _ u.out l.out
        (All-mono (λ c below. record { key = key; higher = (free low f).0; under = below }) u.out
          u.under)
        (l.above low (free low f).1);
}
