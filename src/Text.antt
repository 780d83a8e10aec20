-- ===== src/Text.antt =====
-- `std::string` as a list of bytes, and gettextpo-helper/gtpo/optstring.cpp.
use stupid_ids.Base.{
  refl, ℕ, ◌≡◌, ◌↔◌, Bool, true, false, ◌&&◌, ◌||◌, List, [], ◌∷◌, Result, ok, err, exception,
  dangling_pointer, ltb, ◌==◌, arith,
}

abbrev pub Text : Type 0
Text = List ℕ

-- `operator==` of std::string.
unfoldable pub text_eq : Text → Text → Bool
text_eq [] [] = true
text_eq [] (y ∷ ys) = false
text_eq (x ∷ xs) [] = false
text_eq (x ∷ xs) (y ∷ ys) = x == y && text_eq xs ys

-- `operator<` of std::string: lexicographic.
unfoldable pub text_lt : Text → Text → Bool
text_lt [] [] = false
text_lt [] (y ∷ ys) = true
text_lt (x ∷ xs) [] = false
text_lt (x ∷ xs) (y ∷ ys) = ltb x y || (x == y && text_lt xs ys)

pub data OptString : Type 0 where
  null : OptString
  string : Text → OptString

unfoldable pub is_null : OptString → Bool
is_null null = true
is_null (string s) = false

-- Whether there is a string, and it is empty.
unfoldable pub empty : OptString → Bool
empty null = false
empty (string []) = true
empty (string (c ∷ cs)) = false

-- The conversion to std::string throws NullStringException.
unfoldable pub to_string : OptString → Result Text
to_string null = err exception
to_string (string s) = ok s

-- `c_str`: the pointer is into a temporary, which is destroyed where the function returns, so that
-- no caller can read it.
unfoldable pub c_str : OptString → Result Text
c_str null = err exception
c_str (string s) = err dangling_pointer

unfoldable pub opt_eq : OptString → OptString → Bool
opt_eq null null = true
opt_eq null (string t) = false
opt_eq (string s) null = false
opt_eq (string s) (string t) = text_eq s t

unfoldable pub opt_lt : OptString → OptString → Bool
opt_lt null null = false
opt_lt (string s) null = false
opt_lt null (string t) = true
opt_lt (string s) (string t) = text_lt s t

pub text_eq_iff : (s t : Text) → (text_eq s t ≡ true) ↔ (s ≡ t)
unfolding text_eq
text_eq_iff [] [] = ground arith
text_eq_iff [] (y ∷ ys) = ground arith
text_eq_iff (x ∷ xs) [] = ground arith
text_eq_iff (x ∷ xs) (y ∷ ys) = ground (arith, text_eq_iff xs ys)

pub opt_eq_iff : (s t : OptString) → (opt_eq s t ≡ true) ↔ (s ≡ t)
unfolding opt_eq
opt_eq_iff null null = ground arith
opt_eq_iff null (string t) = ground arith
opt_eq_iff (string s) null = ground arith
opt_eq_iff (string s) (string t) = ground (arith, text_eq_iff s t)

pub text_lt_irrefl : (s : Text) → text_lt s s ≡ false
unfolding text_lt
text_lt_irrefl [] = refl
text_lt_irrefl (x ∷ xs) = ground (arith, text_lt_irrefl xs)

pub text_lt_trans : (s t u : Text) → text_lt s t ≡ true → text_lt t u ≡ true → text_lt s u ≡ true
unfolding text_lt
text_lt_trans [] [] u h k = cc
text_lt_trans [] (y ∷ ys) [] h k = cc
text_lt_trans [] (y ∷ ys) (z ∷ zs) h k = refl
text_lt_trans (x ∷ xs) [] u h k = cc
text_lt_trans (x ∷ xs) (y ∷ ys) [] h k = cc
text_lt_trans (x ∷ xs) (y ∷ ys) (z ∷ zs) h k = ground (arith, text_lt_trans xs ys zs)

-- The order is total.
pub text_lt_total : (s t : Text) → text_lt s t ≡ false → text_lt t s ≡ false → s ≡ t
unfolding text_lt
text_lt_total [] [] h k = refl
text_lt_total [] (y ∷ ys) h k = cc
text_lt_total (x ∷ xs) [] h k = cc
text_lt_total (x ∷ xs) (y ∷ ys) h k = ground (arith, text_lt_total xs ys)
