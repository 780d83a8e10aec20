-- ===== src/Detector/Order.antt =====
-- The order of pairs in gettextpo-helper/gtpo/detectorbase.cpp, without its asserts.
use stupid_ids.Base.{
  ◌≡◌, ◌⊎◌, inl, inr, Bool, true, false, not, ◌&&◌, ◌||◌, ok, arith, refl, sym, ap, subst, ◌∙◌,
  Bool-cases,
}
use stupid_ids.Text.{text_eq, text_lt, text_eq_iff, text_lt_irrefl, text_lt_trans, text_lt_total}
use stupid_ids.Detector.{OidPair, pair_lt, pair_eq}
use stupid_ids.Detector.Ordered.{IsOrdered}

unfoldable pub before : OidPair → OidPair → Bool
before p q = text_lt p.oid1 q.oid1 || (not (text_lt q.oid1 p.oid1) && text_lt p.oid2 q.oid2)

unfoldable pub same_pair : OidPair → OidPair → Bool
same_pair p q = text_eq p.oid1 q.oid1 && text_eq p.oid2 q.oid2

pub pair_lt-before : (p q : OidPair) → IsOrdered p → pair_lt p q ≡ ok (before p q)
unfolding pair_lt before
pair_lt-before p q v = rw v refl

pub pair_eq-same_pair : (p q : OidPair) → IsOrdered p → pair_eq p q ≡ ok (same_pair p q)
unfolding pair_eq same_pair
pair_eq-same_pair p q v = rw v refl

pub same_pair_is : (p q : OidPair) → same_pair p q ≡ true → p ≡ q
unfolding same_pair
same_pair_is p q h =
    let one : p.oid1 ≡ q.oid1 = ground (arith, h, text_eq_iff p.oid1 q.oid1) in
    let two : p.oid2 ≡ q.oid2 = ground (arith, h, text_eq_iff p.oid2 q.oid2) in
    ap (λ o. record { oid1 = o; oid2 = p.oid2 }) one
    ∙ ap (λ o. record { oid1 = q.oid1; oid2 = o }) two

pub same_pair_refl : (p : OidPair) → same_pair p p ≡ true
unfolding same_pair
same_pair_refl p = ground (arith, text_eq_iff p.oid1 p.oid1, text_eq_iff p.oid2 p.oid2)

-- What `before` says of the texts.
pub before_cases :
    (p q : OidPair)
    → before p q ≡ true
    → (text_lt p.oid1 q.oid1 ≡ true) ⊎ ((p.oid1 ≡ q.oid1) × (text_lt p.oid2 q.oid2 ≡ true))
unfolding before
before_cases p q h = elim (Bool-cases (text_lt p.oid1 q.oid1)) [
  | inl e ↦ inl e
  | inr e ↦ elim (Bool-cases (text_lt q.oid1 p.oid1)) [
    | inl f ↦ absurd (ground (arith, h, e, f))
    | inr f ↦ inr (text_lt_total p.oid1 q.oid1 e f, ground (arith, h, e, f))
  ]
]

pub before_first : (p q : OidPair) → text_lt p.oid1 q.oid1 ≡ true → before p q ≡ true
unfolding before
before_first p q h = rw h refl

pub before_second :
    (p q : OidPair) → p.oid1 ≡ q.oid1 → text_lt p.oid2 q.oid2 ≡ true → before p q ≡ true
unfolding before
before_second p q e h =
    let irrefl : text_lt q.oid1 p.oid1 ≡ false =
      subst (λ t. text_lt q.oid1 t ≡ false) (sym e) (text_lt_irrefl q.oid1) in
    ground (arith, irrefl, h)

pub before_trans : (p q r : OidPair) → before p q ≡ true → before q r ≡ true → before p r ≡ true
before_trans p q r h k = elim (before_cases p q h) [
  | inl e ↦ elim (before_cases q r k) [
    | inl f ↦ before_first p r (text_lt_trans p.oid1 q.oid1 r.oid1 e f)
    | inr f ↦ before_first p r (subst (λ t. text_lt p.oid1 t ≡ true) f.0 e)
  ]
  | inr e ↦ elim (before_cases q r k) [
    | inl f ↦ before_first p r (subst (λ t. text_lt t r.oid1 ≡ true) (sym e.0) f)
    | inr f ↦ before_second p r (e.0 ∙ f.0) (text_lt_trans p.oid2 q.oid2 r.oid2 e.1 f.1)
  ]
]

pub before_total : (p q : OidPair) → before p q ≡ false → before q p ≡ false → same_pair p q ≡ true
unfolding before same_pair
before_total p q h k =
    let one : p.oid1 ≡ q.oid1 =
      text_lt_total p.oid1 q.oid1 (ground (arith, h)) (ground (arith, k)) in
    let left : text_lt p.oid1 q.oid1 ≡ false = ground (arith, h) in
    let right : text_lt q.oid1 p.oid1 ≡ false = ground (arith, k) in
    let two : p.oid2 ≡ q.oid2 =
      text_lt_total p.oid2 q.oid2 (ground (arith, h, left, right))
        (ground (arith, k, left, right)) in
    ground (arith, text_eq_iff p.oid1 q.oid1, text_eq_iff p.oid2 q.oid2, one, two)

pub before_irrefl : (p : OidPair) → before p p ≡ false
unfolding before
before_irrefl p = ground (arith, text_lt_irrefl p.oid1, text_lt_irrefl p.oid2)

-- `p` is not after `q`.
pub not_after_trans :
    (p q r : OidPair) → before q p ≡ false → before r q ≡ false → before r p ≡ false
not_after_trans p q r h k = elim (Bool-cases (before r p)) [
  | inr e ↦ e
  | inl e ↦ elim (Bool-cases (before p q)) [
    | inl f ↦ absurd (cc (before_trans r p q e f, k))
    | inr f ↦
        let same : p ≡ q = same_pair_is p q (before_total p q f h) in
        absurd (cc (subst (λ x. before r x ≡ true) same e, k))
  ]
]

pub before_not_after :
    (p q r : OidPair) → before p q ≡ true → before r q ≡ false → before p r ≡ true
before_not_after p q r h k = elim (Bool-cases (before q r)) [
  | inl e ↦ before_trans p q r h e
  | inr e ↦ subst (λ x. before p x ≡ true) (same_pair_is q r (before_total q r e k)) h
]
