-- ===== src/Repo/Tree/Keys.antt =====
-- Names of files under the entries of a git tree (gettextpo-helper/gtpo/repository.cpp): the order of
-- the entries is the order of the full names that stand below them.
use stupid_ids.Base.{
  ℕ, ◌≡◌, ◌≢◌, ◌⊎◌, inl, inr, true, [], ◌∷◌, ◌++◌, All, arith, refl, subst, Bool-cases,
}
use mathlib.Core.List.{append_assoc}
use stupid_ids.Text.{Text, text_lt}
use stupid_ids.Repo.Tree.{is_dir, compared_name}

abbrev pub NoSlash : Text → Type 0
NoSlash name = All (λ c. c ≢ 47) name

-- The rest of a full name below the entry that is compared by `key`: a file, or what is in a
-- directory.
abbrev pub Extends : Text → Text → Type 0
Extends key t =
    (NoSlash key × (t ≡ key))
    ⊎ ((n : Text) × (r : Text) × NoSlash n × (key ≡ n ++ 47 ∷ []) × (t ≡ n ++ 47 ∷ r))

pub text_lt-append_left : (p s t : Text) → text_lt (p ++ s) (p ++ t) ≡ text_lt s t
unfolding text_lt
text_lt-append_left [] s t = refl
text_lt-append_left (c ∷ p) s t = ground (arith, text_lt-append_left p s t)

file_before_file : (s t r : Text) → text_lt s t ≡ true → text_lt s (t ++ r) ≡ true
unfolding text_lt
file_before_file [] [] r h = cc
file_before_file [] (d ∷ t) r h = refl
file_before_file (c ∷ s) [] r h = cc
file_before_file (c ∷ s) (d ∷ t) r h = ground (arith, file_before_file s t r)

directory_before_file :
    (n m r : Text) → NoSlash m → text_lt (n ++ 47 ∷ []) m ≡ true → text_lt (n ++ 47 ∷ r) m ≡ true
unfolding text_lt
directory_before_file [] [] r v h = cc
directory_before_file [] (d ∷ m) r v h = let differ = v.0 in ground arith
directory_before_file (c ∷ n) [] r v h = cc
directory_before_file (c ∷ n) (d ∷ m) r v h = ground (arith, directory_before_file n m r v.1)

directory_before_directory :
    (n m r q : Text)
    → NoSlash n
    → NoSlash m
    → text_lt (n ++ 47 ∷ []) (m ++ 47 ∷ []) ≡ true
    → text_lt (n ++ 47 ∷ r) (m ++ 47 ∷ q) ≡ true
unfolding text_lt
directory_before_directory [] [] r q v w h = ground arith
directory_before_directory [] (d ∷ m) r q v w h = let differ = w.0 in ground arith
directory_before_directory (c ∷ n) [] r q v w h = let differ = v.0 in ground arith
directory_before_directory (c ∷ n) (d ∷ m) r q v w h =
    ground (arith, directory_before_directory n m r q v.1 w.1)

-- What stands below a smaller entry is smaller.
pub Extends-lt :
    (k l s t : Text) → Extends k s → Extends l t → text_lt k l ≡ true → text_lt s t ≡ true
Extends-lt k l s t (inl (v, e)) (inl (w, f)) h = rw (e, f) h
Extends-lt k l s t (inl (v, e)) (inr (m, q, w, lm, f)) h =
    let h' : text_lt k (m ++ 47 ∷ []) ≡ true = subst (λ u. text_lt k u ≡ true) lm h in
    rw (e, f)
      (subst (λ u. text_lt k u ≡ true) (append_assoc m (47 ∷ []) q)
        (file_before_file k (m ++ 47 ∷ []) q h'))
Extends-lt k l s t (inr (n, r, v, kn, e)) (inl (w, f)) h =
    let h' : text_lt (n ++ 47 ∷ []) l ≡ true = subst (λ u. text_lt u l ≡ true) kn h in
    rw (e, f) (directory_before_file n l r w h')
Extends-lt k l s t (inr (n, r, v, kn, e)) (inr (m, q, w, lm, f)) h =
    let h' : text_lt (n ++ 47 ∷ []) (m ++ 47 ∷ []) ≡ true =
      subst (λ u. text_lt u (m ++ 47 ∷ []) ≡ true) kn (subst (λ u. text_lt k u ≡ true) lm h) in
    rw (e, f) (directory_before_directory n m r q v w h')

pub no_last_slash : (n : Text) → ¬ NoSlash (n ++ 47 ∷ [])
no_last_slash [] v = v.0 refl
no_last_slash (c ∷ n) v = no_last_slash n v.1

last_slash_cancels : (n m : Text) → n ++ 47 ∷ [] ≡ m ++ 47 ∷ [] → n ≡ m
last_slash_cancels [] [] h = refl
last_slash_cancels [] (d ∷ []) h = cc
last_slash_cancels [] (d ∷ e ∷ m) h = cc
last_slash_cancels (c ∷ []) [] h = cc
last_slash_cancels (c ∷ d ∷ n) [] h = cc
last_slash_cancels (c ∷ n) (d ∷ m) h =
    let heads : c ≡ d = cc in
    let tails : n ++ 47 ∷ [] ≡ m ++ 47 ∷ [] = cc in let rest = last_slash_cancels n m tails in cc

-- Entries that are compared by the same name have the same name.
pub compared_name-injective :
    (n m : Text) (mode1 mode2 : ℕ)
    → NoSlash n
    → NoSlash m
    → compared_name n mode1 ≡ compared_name m mode2
    → n ≡ m
unfolding compared_name
compared_name-injective n m mode1 mode2 v w h = elim (Bool-cases (is_dir mode1)) [
  | inl e ↦ elim (Bool-cases (is_dir mode2)) [
    | inl f ↦ last_slash_cancels n m (rw (e, f) at h)
    | inr f ↦ let bad : n ++ 47 ∷ [] ≡ m = rw (e, f) at h in absurd (no_last_slash n (rw bad w))
  ]
  | inr e ↦ elim (Bool-cases (is_dir mode2)) [
    | inl f ↦ let bad : n ≡ m ++ 47 ∷ [] = rw (e, f) at h in absurd (no_last_slash m (rw (← bad) v))
    | inr f ↦ rw (e, f) at h
  ]
]
