-- ===== src/Base/Results.antt =====
-- How the C++ code fails: a failed assert, a null pointer that is read, an exception, a variable that is
-- read before it is set, an index past the end, the exceptions for what is not a .po file, and the use of
-- a pointer into a string that has been destroyed.
use mathlib.Core.Path.{◌≡◌, refl}
use mathlib.Core.Bool.{Bool, true, false}

pub data Error : Type 0 where
  assertion null_pointer exception uninitialised out_of_range not_po dangling_pointer : Error

-- What a function of the program gives: it fails, or it returns.
pub data Result {ℓ} (A : Type ℓ) : Type ℓ where
  err : (reason : Error) → Result A
  ok : (value : A) → Result A

module _ {ℓ κ} {A : Type ℓ} {B : Type κ} where
  infixl 5 ◌>>=◌
  abbrev pub ◌>>=◌ : (first : Result A) (next : A → Result B) → Result B
  err reason >>= next = err reason
  ok value >>= next = next value

  pub >>=-eq-ok :
      (first : Result A) (next : A → Result B) {b : B}
      → (first >>= next) ≡ ok b
      → (value : A) × (first ≡ ok value) × (next value ≡ ok b)
  >>=-eq-ok (err reason) next h = cc
  >>=-eq-ok (ok value) next h = (value, refl, h)

module _ {κ} {B : Type κ} where
  infixl 5 ◌>>◌
  abbrev pub ◌>>◌ : Result (Unit {0}) → Result B → Result B
  first >> second = first >>= λ done. second

  pub ok-injective : {a b : B} → ok a ≡ ok b → a ≡ b
  ok-injective h = cc

-- The C macro: the program stops where the test fails.
abbrev pub assert : Bool → Result (Unit {0})
assert false = err assertion
assert true = ok tt

-- What follows an assert runs where the test holds.
pub assert-then {ℓ} :
    {A : Type ℓ} (b : Bool) {rest : Result A} {a : A}
    → (assert b >> rest) ≡ ok a
    → (b ≡ true) × (rest ≡ ok a)
assert-then true h = (refl, h)
assert-then false h = cc
