-- ===== src/Repo/Tree/Both.antt =====
-- `Repository::diffTree` of gettextpo-helper/gtpo/repository.cpp on two trees.
use stupid_ids.Base.{
  ℕ, ◌≡◌, inl, inr, true, List, [], Option, none, some, ok, assert-then, >>=-eq-ok, ok-injective,
  sym, subst, ◌∙◌, Bool-cases,
}
use mathlib.Core.List.{append-nil}
use stupid_ids.Text.{Text, text_lt, text_lt_total, text_eq}
use stupid_ids.Repo.{CommitFileChange, mod_}
use stupid_ids.Repo.Tree.{
  Entries, done, entry, Object, blob, subtree, only_first, only_second, compared_name, Tree,
  diff_tree, concat_path, before_next, modes_fit, lone_object, diff_entries, diff_objects, entry_id,
}
use stupid_ids.Repo.Tree.Keys.{NoSlash, compared_name-injective}
use stupid_ids.Repo.Tree.Sorted.{IsTidy, Fits, IsSorted, ListedUnder, Listed, Listed-step}
use stupid_ids.Repo.Tree.Lone.{
  file_listed, directory-Listed, before_next_trans, lone_entries-Listed, lone_object-Listed,
}

unchanged :
    {changes result : List CommitFileChange} (path key : Text)
    → changes ≡ result
    → ListedUnder path key changes result
unchanged {changes} path key e = record {
  out = [];
  adds = sym e ∙ sym (append-nil changes);
  sorted = tt;
  under = tt;
}

-- Both trees come after `low`.
abbrev pub Before : Entries → Entries → Text → Type 0
Before e1 e2 low = (before_next low e1 ≡ true) × (before_next low e2 ≡ true)

Listed-Before :
    (e1 e2 : Entries) {path : Text} {changes result : List CommitFileChange}
    → {Free : Text → Type 0} → Listed path Free changes result
    → ((low : Text) → Before e1 e2 low → Free low)
    → Listed path (Before e1 e2) changes result
Listed-Before e1 e2 l f = record {
  out = l.out;
  adds = l.adds;
  sorted = l.sorted;
  within = l.within;
  above = λ low b. l.above low (f low b);
}

mutual
  unfolding diff_entries diff_objects IsTidy before_next

  pub diff_entries-Listed :
      (e1 e2 : Entries) (path : Text) (changes result : List CommitFileChange)
      → IsTidy path e1
      → IsTidy path e2
      → diff_entries e1 e2 path changes ≡ ok result
      → Listed path (Before e1 e2) changes result
  diff_entries-Listed done e2 path changes result tidy1 tidy2 h =
      Listed-Before done e2 (lone_entries-Listed e2 only_second path changes result tidy2 h)
        (λ low b. b.1)
  diff_entries-Listed (entry n m o r) done path changes result tidy1 tidy2 h =
      Listed-Before (entry n m o r) done
        (lone_entries-Listed (entry n m o r) only_first path changes result tidy1 h) (λ low b. b.0)
  diff_entries-Listed (entry n1 m1 o1 r1) (entry n2 m2 o2 r2) path changes result tidy1 tidy2 h =
      let (next1, h') = assert-then (before_next (compared_name n1 m1) r1) h in
      let (next2, h'') = assert-then (before_next (compared_name n2 m2) r2) h' in
      elim (Bool-cases (text_lt (compared_name n1 m1) (compared_name n2 m2))) [
        | inl e ↦
            let (changes', p, q) =
              >>=-eq-ok (lone_object only_first o1 n1 m1 path changes) _ (rw e at h'') in
            Listed-step
              (lone_object-Listed o1 only_first n1 m1 path changes changes' tidy1.0 tidy1.1 p)
              (diff_entries-Listed r1 (entry n2 m2 o2 r2) path changes' result tidy1.2 tidy2 q)
              (next1, e) (λ low b. (b.0, (before_next_trans low _ r1 next1 b.0, b.1)))
        | inr e ↦ elim (Bool-cases (text_lt (compared_name n2 m2) (compared_name n1 m1))) [
          | inl f ↦
              let (changes', p, q) =
                >>=-eq-ok (lone_object only_second o2 n2 m2 path changes) _ (rw (e, f) at h'') in
              Listed-step
                (lone_object-Listed o2 only_second n2 m2 path changes changes' tidy2.0 tidy2.1 p)
                (diff_entries-Listed (entry n1 m1 o1 r1) r2 path changes' result tidy1 tidy2.2 q)
                (f, next2) (λ low b. (b.1, (b.0, before_next_trans low _ r2 next2 b.1)))
          | inr f ↦
              let same = text_lt_total (compared_name n1 m1) (compared_name n2 m2) e f in
              let name = compared_name-injective n1 n2 m1 m2 tidy1.0 tidy2.0 same in
              let (changes', p, q) =
                >>=-eq-ok (diff_objects o1 o2 n1 m1 m2 path changes) _ (rw (e, f) at h'') in
              Listed-step
                (diff_objects-Listed o1 o2 n1 m1 m2 path changes changes' tidy1.0 tidy1.1
                  (subst (λ n. Fits path o2 n m2) (sym name) tidy2.1) p)
                (diff_entries-Listed r1 r2 path changes' result tidy1.2 tidy2.2 q)
                (next1, subst (λ k. before_next k r2 ≡ true) (sym same) next2)
                (λ low b. (
                  b.0,
                  (before_next_trans low _ r1 next1 b.0, before_next_trans low _ r2 next2 b.1),
                ))
        ]
      ]

  pub diff_objects-Listed :
      (o1 o2 : Object) (name : Text) (m1 m2 : ℕ) (path : Text)
      (changes result : List CommitFileChange)
      → NoSlash name
      → Fits path o1 name m1
      → Fits path o2 name m2
      → diff_objects o1 o2 name m1 m2 path changes ≡ ok result
      → ListedUnder path (compared_name name m1) changes result
  diff_objects-Listed (blob i) o2 name m1 m2 path changes result tidy fits1 fits2 h =
      elim (Bool-cases (text_eq i (entry_id o2))) [
        | inl e ↦ unchanged path _ (ok-injective (rw e at h))
        | inr e ↦
            let (fit, h') = assert-then (modes_fit m1 m2) (rw e at h) in
            file_listed changes path name m1 (some i) (some (entry_id o2)) mod_ tidy fits1.0 fits1.1
              (rw fits1.0 at h')
      ]
  diff_objects-Listed (subtree i s) (blob j) name m1 m2 path changes result tidy fits1 fits2 h =
      elim (Bool-cases (text_eq i j)) [
        | inl e ↦ unchanged path _ (ok-injective (rw e at h))
        | inr e ↦
            let (fit, h') = assert-then (modes_fit m1 m2) (rw e at h) in
            absurd (let bad = rw fits1.0 at h' in cc)
      ]
  diff_objects-Listed (subtree i s) (subtree j t) name m1 m2 path changes result tidy fits1 fits2
        h =
      elim (Bool-cases (text_eq i j)) [
        | inl e ↦ unchanged path _ (ok-injective (rw e at h))
        | inr e ↦
            let (fit, h') = assert-then (modes_fit m1 m2) (rw e at h) in
            directory-Listed changes path name m1 tidy fits1.0 (
              diff_entries-Listed s t (concat_path path name) changes result fits1.1 fits2.1
                (rw fits1.0 at h'))
      ]

-- The root has directories only, and the tree is as git keeps it.
abbrev pub IsTidyTree : Option Tree → Type 0
IsTidyTree none = Unit
IsTidyTree (some t) = IsTidy [] t.entries

-- The changes of `diffTree` at the root are sorted.
pub diff_tree-IsSorted :
    (t1 t2 : Option Tree) {changes : List CommitFileChange}
    → IsTidyTree t1
    → IsTidyTree t2
    → diff_tree t1 t2 [] [] ≡ ok changes
    → IsSorted changes
unfolding diff_tree
diff_tree-IsSorted none none v w h = rw (← ok-injective h) tt
diff_tree-IsSorted none (some t) v w h =
    let l = lone_entries-Listed t.entries only_second [] [] _ w h in rw (l.adds) l.sorted
diff_tree-IsSorted (some t) none v w h =
    let l = lone_entries-Listed t.entries only_first [] [] _ v h in rw (l.adds) l.sorted
diff_tree-IsSorted (some t) (some u) v w h = elim (Bool-cases (text_eq t.id u.id)) [
  | inl e ↦ let same = ok-injective (rw e at h) in rw (← same) tt
  | inr e ↦
      let l = diff_entries-Listed t.entries u.entries [] [] _ v w (rw e at h) in
      rw (l.adds) l.sorted
]
