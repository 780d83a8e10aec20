-- ===== src/Repo/Tree/Returns.antt =====
-- `Repository::diffTree` of gettextpo-helper/gtpo/repository.cpp returns for trees as git keeps them
-- in which no file is executable.
use stupid_ids.Base.{
  ℕ, ◌≡◌, inl, inr, true, false, List, [], ◌∷◌, ◌++◌, Option, none, some, ok, ◌>>=◌, arith, refl,
  sym, subst, ◌∙◌, Bool-cases,
}
use stupid_ids.Text.{Text, text_lt, text_lt_total, text_eq}
use stupid_ids.Repo.{CommitFileChange, mod_}
use stupid_ids.Repo.Tree.{
  Entries, done, entry, Object, blob, subtree, Side, only_first, only_second, is_dir, compared_name,
  Tree, diff_tree, concat_path, before_next, modes_fit, new_file_change, add_file_change, lone_file,
  lone_entries, lone_object, diff_entries, diff_objects,
}
use stupid_ids.Repo.Tree.Keys.{NoSlash, compared_name-injective, no_last_slash}
use stupid_ids.Repo.Tree.Sorted.{IsTidy, Fits}
use stupid_ids.Repo.Tree.Both.{IsTidyTree}

-- The entries are in git's order, and have the modes of plain files and directories.
unfoldable mutual
  pub IsPlain : Entries → Type 0
  IsPlain done = Unit
  IsPlain (entry name mode object rest) =
      (before_next (compared_name name mode) rest ≡ true) × IsPlainObject object mode × IsPlain rest

  pub IsPlainObject : Object → ℕ → Type 0
  IsPlainObject (blob id) mode = mode ≡ 33188
  IsPlainObject (subtree id entries) mode = (mode ≡ 16384) × IsPlain entries

plain_file : {mode : ℕ} → mode ≡ 33188 → is_dir mode ≡ false
unfolding is_dir
plain_file h = rw h refl

directory : {mode : ℕ} → mode ≡ 16384 → is_dir mode ≡ true
unfolding is_dir
directory h = rw h refl

lone_file_returns :
    (side : Side) (id path name : Text) (changes : List CommitFileChange)
    → (result : List CommitFileChange) × (lone_file side id path name changes ≡ ok result)
unfolding lone_file add_file_change new_file_change
lone_file_returns only_first id path name changes = (_, refl)
lone_file_returns only_second id path name changes = (_, refl)

mutual
  unfolding lone_entries lone_object IsPlain

  pub lone_entries_returns :
      (e : Entries) (side : Side) (path : Text) (changes : List CommitFileChange)
      → IsPlain e
      → (result : List CommitFileChange) × (lone_entries side e path changes ≡ ok result)
  lone_entries_returns done side path changes h = (changes, refl)
  lone_entries_returns (entry name mode object rest) side path changes h =
      let (mid, e) = lone_object_returns object side name mode path changes h.1 in
      let (result, f) = lone_entries_returns rest side path mid h.2 in
      (result, rw (h.0, e, ◌>>=◌) f)

  pub lone_object_returns :
      (object : Object) (side : Side) (name : Text) (mode : ℕ) (path : Text)
      (changes : List CommitFileChange)
      → IsPlainObject object mode
      → (result : List CommitFileChange) × (lone_object side object name mode path changes
          ≡ ok result)
  lone_object_returns (blob id) side name mode path changes h =
      rw (plain_file h) (lone_file_returns side id path name changes)
  lone_object_returns (subtree id entries) side name mode path changes h =
      rw (directory h.0) (lone_entries_returns entries side (concat_path path name) changes h.1)

-- Entries with one name to compare are two files or two directories.
same_kind :
    (n m : Text) (mode1 mode2 : ℕ)
    → NoSlash n
    → NoSlash m
    → compared_name n mode1 ≡ compared_name m mode2
    → is_dir mode1 ≡ is_dir mode2
unfolding compared_name
same_kind n m mode1 mode2 v w h = elim (Bool-cases (is_dir mode1)) [
  | inl e ↦ elim (Bool-cases (is_dir mode2)) [
    | inl f ↦ e ∙ sym f
    | inr f ↦ let bad : n ++ 47 ∷ [] ≡ m = rw (e, f) at h in absurd (no_last_slash n (rw bad w))
  ]
  | inr e ↦ elim (Bool-cases (is_dir mode2)) [
    | inl f ↦
        let bad : m ++ 47 ∷ [] ≡ n = sym (rw (e, f) at h) in absurd (no_last_slash m (rw bad v))
    | inr f ↦ e ∙ sym f
  ]
]

same_modes_fit : {mode1 mode2 : ℕ} (m : ℕ) → mode1 ≡ m → mode2 ≡ m → modes_fit mode1 mode2 ≡ true
unfolding modes_fit
same_modes_fit m h k = ground arith

file_edited :
    (changes : List CommitFileChange) (i j path name : Text)
    → (result : List CommitFileChange) × (add_file_change changes (some i) (some j) path name mod_
        ≡ ok result)
unfolding add_file_change new_file_change
file_edited changes i j path name = (_, refl)

mutual
  unfolding diff_entries diff_objects IsPlain IsTidy

  pub diff_entries_returns :
      (e1 e2 : Entries) (path : Text) (changes : List CommitFileChange)
      → IsTidy path e1
      → IsTidy path e2
      → IsPlain e1
      → IsPlain e2
      → (result : List CommitFileChange) × (diff_entries e1 e2 path changes ≡ ok result)
  diff_entries_returns done e2 path changes v w h k =
      lone_entries_returns e2 only_second path changes k
  diff_entries_returns (entry n m o r) done path changes v w h k =
      lone_entries_returns (entry n m o r) only_first path changes h
  diff_entries_returns (entry n1 m1 o1 r1) (entry n2 m2 o2 r2) path changes v w h k =
      elim (Bool-cases (text_lt (compared_name n1 m1) (compared_name n2 m2))) [
        | inl e ↦
            let (mid, f) = lone_object_returns o1 only_first n1 m1 path changes h.1 in
            let (result, g) = diff_entries_returns r1 (entry n2 m2 o2 r2) path mid v.2 w h.2 k in
            (result, rw (h.0, k.0, e) (rw (f, ◌>>=◌) g))
        | inr e ↦ elim (Bool-cases (text_lt (compared_name n2 m2) (compared_name n1 m1))) [
          | inl d ↦
              let (mid, f) = lone_object_returns o2 only_second n2 m2 path changes k.1 in
              let (result, g) = diff_entries_returns (entry n1 m1 o1 r1) r2 path mid v w.2 h k.2 in
              (result, rw (h.0, k.0, e, d) (rw (f, ◌>>=◌) g))
          | inr d ↦
              let same = text_lt_total (compared_name n1 m1) (compared_name n2 m2) e d in
              let kind = same_kind n1 n2 m1 m2 v.0 w.0 same in
              let name = compared_name-injective n1 n2 m1 m2 v.0 w.0 same in
              let (mid, f) =
                diff_objects_returns o1 o2 n1 m1 m2 path changes v.1
                  (subst (λ n. Fits path o2 n m2) (sym name) w.1) h.1 k.1 kind in
              let (result, g) = diff_entries_returns r1 r2 path mid v.2 w.2 h.2 k.2 in
              (result, rw (h.0, k.0, e, d) (rw (f, ◌>>=◌) g))
        ]
      ]

  pub diff_objects_returns :
      (o1 o2 : Object) (name : Text) (m1 m2 : ℕ) (path : Text) (changes : List CommitFileChange)
      → Fits path o1 name m1
      → Fits path o2 name m2
      → IsPlainObject o1 m1
      → IsPlainObject o2 m2
      → is_dir m1 ≡ is_dir m2
      → (result : List CommitFileChange) × (diff_objects o1 o2 name m1 m2 path changes ≡ ok result)
  diff_objects_returns (blob i) (subtree j t) name m1 m2 path changes v w h k d =
      let bad : false ≡ true = sym (plain_file h) ∙ d ∙ directory k.0 in absurd (cc)
  diff_objects_returns (subtree i s) (blob j) name m1 m2 path changes v w h k d =
      let bad : true ≡ false = sym (directory h.0) ∙ d ∙ plain_file k in absurd (cc)
  diff_objects_returns (blob i) (blob j) name m1 m2 path changes v w h k d =
      elim (Bool-cases (text_eq i j)) [
        | inl e ↦ (changes, rw e refl)
        | inr e ↦
            let (result, f) = file_edited changes i j path name in
            (result, rw (e, same_modes_fit 33188 h k, plain_file h) f)
      ]
  diff_objects_returns (subtree i s) (subtree j t) name m1 m2 path changes v w h k d =
      elim (Bool-cases (text_eq i j)) [
        | inl e ↦ (changes, rw e refl)
        | inr e ↦
            let (result, f) =
              diff_entries_returns s t (concat_path path name) changes v.1 w.1 h.1 k.1 in
            (result, rw (e, same_modes_fit 16384 h.0 k.0, directory h.0) f)
      ]

abbrev pub IsPlainTree : Option Tree → Type 0
IsPlainTree none = Unit
IsPlainTree (some t) = IsPlain t.entries

pub diff_tree_returns :
    (t1 t2 : Option Tree)
    → IsTidyTree t1
    → IsTidyTree t2
    → IsPlainTree t1
    → IsPlainTree t2
    → (changes : List CommitFileChange) × (diff_tree t1 t2 [] [] ≡ ok changes)
unfolding diff_tree
diff_tree_returns none none v w h k = ([], refl)
diff_tree_returns none (some t) v w h k = lone_entries_returns t.entries only_second [] [] k
diff_tree_returns (some t) none v w h k = lone_entries_returns t.entries only_first [] [] h
diff_tree_returns (some t) (some u) v w h k = elim (Bool-cases (text_eq t.id u.id)) [
  | inl e ↦ ([], rw e refl)
  | inr e ↦
      let (result, f) = diff_entries_returns t.entries u.entries [] [] v w h k in (result, rw e f)
]
