-- ===== src/Repo/Tree/Lone.antt =====
-- `Repository::diffTree` of gettextpo-helper/gtpo/repository.cpp where one of the trees is null.
use stupid_ids.Base.{
  ℕ, ◌≡◌, inl, inr, true, false, List, [], ◌∷◌, ◌++◌, Option, none, some, ok, assert-then,
  >>=-eq-ok, ok-injective, All-mono, refl, sym, ap, ◌∙◌, Bool-cases, ◌==◌,
}
use mathlib.Core.List.{append_assoc}
use stupid_ids.Text.{Text, text_lt, text_lt_trans}
use stupid_ids.Repo.{CommitFileChange, ChangeType, add, del, full_name, build_pathname}
use stupid_ids.Repo.Tree.{
  Entries, done, entry, Object, blob, subtree, Side, only_first, only_second, is_dir, compared_name,
  concat_path, without_slash, oids_fit, new_file_change, add_file_change, before_next, lone_file,
  lone_entries, lone_object,
}
use stupid_ids.Repo.Tree.Keys.{NoSlash}
use stupid_ids.Repo.Tree.Sorted.{
  IsTidy, Fits, IsNonempty, prefix_of, ListedUnder, Listed, Listed-nothing, Listed-step,
}

pub prefix_of-concat_path :
    (path name : Text) → prefix_of (concat_path path name) ≡ prefix_of path ++ (name ++ 47 ∷ [])
prefix_of-concat_path [] name = refl
prefix_of-concat_path (c ∷ cs) name = elim (Bool-cases (c == 47)) [
  | inl e ↦ rw e (simp append_assoc)
  | inr e ↦ rw e (simp append_assoc)
]

file_in :
    (path name : Text)
    → IsNonempty path
    → build_pathname (without_slash path) name ≡ prefix_of path ++ name
unfolding build_pathname
file_in [] name h = absurd h
file_in (c ∷ cs) name h = sym (append_assoc (without_slash (c ∷ cs)) (47 ∷ []) name)

module _ (changes : List CommitFileChange) {result : List CommitFileChange} (path name : Text)
    (mode : ℕ) where
  -- A file gives one change.
  pub file_listed :
      (oid1 oid2 : Option Text) (type : ChangeType)
      → NoSlash name
      → is_dir mode ≡ false
      → IsNonempty path
      → add_file_change changes oid1 oid2 path name type ≡ ok result
      → ListedUnder path (compared_name name mode) changes result
  unfolding add_file_change new_file_change compared_name full_name
  file_listed oid1 oid2 type tidy plain whole h = elim (Bool-cases (oids_fit type oid1 oid2)) [
    | inl e ↦ record {
      out =
          (record {
            oid1 = oid1;
            oid2 = oid2;
            path = without_slash path;
            name = name;
            type_ = type;
          })
          ∷ [];
      adds = sym (ok-injective (rw e at h));
      sorted = (tt, tt);
      under = (
        record {
          below = name;
          names = file_in path name whole;
          extends = inl (rw plain tidy, rw plain);
        },
        tt,
      );
    }
    | inr e ↦ absurd (let bad = rw e at h in cc)
  ]

  -- A directory gives the changes of its entries.
  pub directory-Listed :
      {Free : Text → Type 0}
      → NoSlash name
      → is_dir mode ≡ true
      → Listed (concat_path path name) Free changes result
      → ListedUnder path (compared_name name mode) changes result
  unfolding compared_name
  directory-Listed tidy dir l = record {
    out = l.out;
    adds = l.adds;
    sorted = l.sorted;
    under =
        All-mono
          (λ c w. record {
            below = name ++ 47 ∷ w.below;
            names =
                w.names
                ∙ ap (λ p. p ++ w.below) (prefix_of-concat_path path name)
                ∙ simp append_assoc;
            extends = inr (name, w.below, tidy, rw dir, refl);
          })
          l.out l.within;
  }

pub before_next_trans :
    (low key : Text) (e : Entries)
    → before_next key e ≡ true
    → text_lt low key ≡ true
    → before_next low e ≡ true
unfolding before_next
before_next_trans low key done h k = refl
before_next_trans low key (entry name mode object rest) h k =
    text_lt_trans low key (compared_name name mode) k h

mutual
  unfolding lone_entries lone_object lone_file IsTidy before_next

  pub lone_entries-Listed :
      (e : Entries) (side : Side) (path : Text) (changes result : List CommitFileChange)
      → IsTidy path e
      → lone_entries side e path changes ≡ ok result
      → Listed path (λ low. before_next low e ≡ true) changes result
  lone_entries-Listed done side path changes result tidy h =
      rw (← ok-injective h) (Listed-nothing path _ changes)
  lone_entries-Listed (entry name mode object rest) side path changes result tidy h =
      let (next, h') = assert-then (before_next (compared_name name mode) rest) h in
      let (changes', p, q) = >>=-eq-ok (lone_object side object name mode path changes) _ h' in
      Listed-step (lone_object-Listed object side name mode path changes changes' tidy.0 tidy.1 p)
        (lone_entries-Listed rest side path changes' result tidy.2 q) next
        (λ low free. (free, before_next_trans low (compared_name name mode) rest next free))

  pub lone_object-Listed :
      (object : Object) (side : Side) (name : Text) (mode : ℕ) (path : Text)
      (changes result : List CommitFileChange)
      → NoSlash name
      → Fits path object name mode
      → lone_object side object name mode path changes ≡ ok result
      → ListedUnder path (compared_name name mode) changes result
  lone_object-Listed (blob id) only_first name mode path changes result tidy fits h =
      file_listed changes path name mode (some id) none del tidy fits.0 fits.1 (rw fits.0 at h)
  lone_object-Listed (blob id) only_second name mode path changes result tidy fits h =
      file_listed changes path name mode none (some id) add tidy fits.0 fits.1 (rw fits.0 at h)
  lone_object-Listed (subtree id entries) side name mode path changes result tidy fits h =
      directory-Listed changes path name mode tidy fits.0 (
        lone_entries-Listed entries side (concat_path path name) changes result fits.1
          (rw fits.0 at h))
