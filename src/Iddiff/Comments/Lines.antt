-- ===== src/Iddiff/Comments/Lines.antt =====
-- Texts split and joined, of gettextpo-helper/gtpo/iddiff.cpp.
use stupid_ids.Base.{
  ℕ, ◌≡◌, Bool, true, false, ◌&&◌, List, [], ◌∷◌, ◌++◌, ok, ◌==◌, All, refl, sym, ap, ◌∙◌, ==_refl,
}
use mathlib.Core.List.{append_assoc, append-nil}
use stupid_ids.Text.{Text}
use stupid_ids.Iddiff.Comments.{is_prefix, push_piece, split_loop, split_string, join_strings}

-- A piece that the separator does not occur in.
abbrev pub IsPiece : ℕ → Text → Type 0
IsPiece c piece = All (λ d. (c == d) ≡ false) piece

abbrev pub IsNonempty : Text → Type 0
IsNonempty [] = ⊥
IsNonempty (c ∷ cs) = Unit

pub both_true : (b : Bool) → (b && true) ≡ b
both_true true = refl
both_true false = refl

prefix_one : (c d : ℕ) (s : Text) {b : Bool} → (c == d) ≡ b → is_prefix (c ∷ []) (d ∷ s) ≡ b
unfolding is_prefix
prefix_one c d s {b} h = rw h (both_true b)

split_piece :
    (c : ℕ) (piece acc s : Text)
    → IsPiece c piece
    → split_loop (c ∷ []) 0 acc (piece ++ s) ≡ split_loop (c ∷ []) 0 (acc ++ piece) s
unfolding split_loop
split_piece c [] acc s h = rw (append-nil acc)
split_piece c (d ∷ piece) acc s h =
    rw (prefix_one c d (piece ++ s) h.0, split_loop)
      (split_piece c piece (acc ++ d ∷ []) s h.1
        ∙ ap (λ x. split_loop (c ∷ []) 0 x s) (append_assoc acc (d ∷ []) piece))

split_separator :
    (c : ℕ) (piece s : Text)
    → split_loop (c ∷ []) 0 piece (c ∷ s) ≡ push_piece piece (split_loop (c ∷ []) 0 [] s)
unfolding split_loop
split_separator c piece s = rw (prefix_one c c s (==_refl c), split_loop)

push_whole :
    (piece : Text) (rest : List Text) → IsNonempty piece → push_piece piece rest ≡ piece ∷ rest
push_whole [] rest h = absurd h
push_whole (c ∷ piece) rest h = refl

split_joined :
    (c : ℕ) (pieces : List Text)
    → All (λ p. IsNonempty p × IsPiece c p) pieces
    → split_loop (c ∷ []) 0 [] (join_strings pieces (c ∷ [])) ≡ pieces
unfolding join_strings split_loop
split_joined c [] h = refl
split_joined c (p ∷ []) h =
    ap (split_loop (c ∷ []) 0 []) (sym (append-nil p))
    ∙ split_piece c p [] [] h.0.1
    ∙ push_whole p [] h.0.0
split_joined c (p ∷ q ∷ ps) h =
    split_piece c p [] (c ∷ join_strings (q ∷ ps) (c ∷ [])) h.0.1
    ∙ split_separator c p (join_strings (q ∷ ps) (c ∷ []))
    ∙ push_whole p _ h.0.0
    ∙ ap (λ rest. p ∷ rest) (split_joined c (q ∷ ps) h.1)

-- Pieces that are joined by a separator of one byte come apart again, if no piece is empty or has
-- the byte.
pub split_string-join_strings :
    (c : ℕ) (pieces : List Text)
    → All (λ p. IsNonempty p × IsPiece c p) pieces
    → split_string (join_strings pieces (c ∷ [])) (c ∷ []) ≡ ok pieces
unfolding split_string
split_string-join_strings c pieces h = ap ok (split_joined c pieces h)
