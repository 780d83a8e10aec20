-- ===== src/Iddiff/Comments/Sets.antt =====
-- Sets of lines, of gettextpo-helper/gtpo/iddiff.cpp: what they have after insertions and removals.
use stupid_ids.Base.{
  ◌≡◌, inl, inr, Bool, true, false, not, ◌&&◌, ◌||◌, List, [], ◌∷◌, All, refl, sym, ap, subst, ◌∙◌,
  Bool-cases, All-mono,
}
use stupid_ids.Text.{
  Text, text_eq, text_lt, text_eq_iff, text_lt_irrefl, text_lt_trans, text_lt_total,
}
use stupid_ids.Iddiff.Comments.{insert_line, insert_lines, erase_line, erase_lines}
use stupid_ids.Iddiff.Comments.Lines.{both_true}

abbrev pub has_line : List Text → Text → Bool
has_line [] s = false
has_line (t ∷ ts) s = text_eq t s || has_line ts s

abbrev pub IsLineSet : List Text → Type 0
IsLineSet [] = Unit
IsLineSet (t ∷ ts) = All (λ u. text_lt t u ≡ true) ts × IsLineSet ts

or_cong : (a : Bool) {b c : Bool} → b ≡ c → (a || b) ≡ (a || c)
or_cong a h = ap (λ x. a || x) h

or_swap : (a b c : Bool) → (a || (b || c)) ≡ (b || (a || c))
or_swap true true c = refl
or_swap true false c = refl
or_swap false b c = refl

or_twice : (a c : Bool) → (a || (a || c)) ≡ (a || c)
or_twice true c = refl
or_twice false c = refl

or_regroup : (a b c : Bool) → (a || (b || c)) ≡ ((b || a) || c)
or_regroup true true c = refl
or_regroup true false c = refl
or_regroup false true c = refl
or_regroup false false c = refl

has_line-insert_line :
    (t : Text) (set : List Text) (s : Text)
    → has_line (insert_line t set) s ≡ (text_eq t s || has_line set s)
unfolding insert_line
has_line-insert_line t [] s = refl
has_line-insert_line t (u ∷ us) s = elim (Bool-cases (text_lt t u)) [
  | inl e ↦ rw e refl
  | inr e ↦ elim (Bool-cases (text_lt u t)) [
    | inl f ↦
        rw (e, f)
          (or_cong (text_eq u s) (has_line-insert_line t us s)
            ∙ or_swap (text_eq u s) (text_eq t s) (has_line us s))
    | inr f ↦
        let same : t ≡ u = text_lt_total t u e f in
        rw (e, f) (rw same (sym (or_twice (text_eq u s) (has_line us s))))
  ]
]

All-insert_line :
    (P : Text → Type 0) (t : Text) (set : List Text) → P t → All P set → All P (insert_line t set)
unfolding insert_line
All-insert_line P t [] p h = (p, tt)
All-insert_line P t (u ∷ us) p h = elim (Bool-cases (text_lt t u)) [
  | inl e ↦ rw e (p, h)
  | inr e ↦ elim (Bool-cases (text_lt u t)) [
    | inl f ↦ rw (e, f) (h.0, All-insert_line P t us p h.1)
    | inr f ↦ rw (e, f) h
  ]
]

insert_line-IsLineSet : (t : Text) (set : List Text) → IsLineSet set → IsLineSet (insert_line t set)
unfolding insert_line
insert_line-IsLineSet t [] v = (tt, tt)
insert_line-IsLineSet t (u ∷ us) v = elim (Bool-cases (text_lt t u)) [
  | inl e ↦ rw e ((e, All-mono (λ w h. text_lt_trans t u w e h) us v.0), v)
  | inr e ↦ elim (Bool-cases (text_lt u t)) [
    | inl f ↦ rw (e, f) (All-insert_line _ t us f v.0, insert_line-IsLineSet t us v.1)
    | inr f ↦ rw (e, f) v
  ]
]

pub insert_lines-IsLineSet : (ts set : List Text) → IsLineSet set → IsLineSet (insert_lines ts set)
unfolding insert_lines
insert_lines-IsLineSet [] set v = v
insert_lines-IsLineSet (t ∷ ts) set v =
    insert_lines-IsLineSet ts (insert_line t set) (insert_line-IsLineSet t set v)

pub has_line-insert_lines :
    (ts set : List Text) (s : Text)
    → has_line (insert_lines ts set) s ≡ (has_line ts s || has_line set s)
unfolding insert_lines
has_line-insert_lines [] set s = refl
has_line-insert_lines (t ∷ ts) set s =
    has_line-insert_lines ts (insert_line t set) s
    ∙ or_cong (has_line ts s) (has_line-insert_line t set s)
    ∙ or_regroup (has_line ts s) (text_eq t s) (has_line set s)

All-erase_line :
    (P : Text → Type 0) (t : Text) (set : List Text) → All P set → All P (erase_line t set)
unfolding erase_line
All-erase_line P t [] h = h
All-erase_line P t (u ∷ us) h = elim (Bool-cases (text_eq t u)) [
  | inl e ↦ rw e h.1
  | inr e ↦ rw e (h.0, All-erase_line P t us h.1)
]

erase_line-IsLineSet : (t : Text) (set : List Text) → IsLineSet set → IsLineSet (erase_line t set)
unfolding erase_line
erase_line-IsLineSet t [] v = v
erase_line-IsLineSet t (u ∷ us) v = elim (Bool-cases (text_eq t u)) [
  | inl e ↦ rw e v.1
  | inr e ↦ rw e (All-erase_line _ t us v.0, erase_line-IsLineSet t us v.1)
]

differ : (u w : Text) → text_lt u w ≡ true → text_eq w u ≡ false
differ u w h = elim (Bool-cases (text_eq w u)) [
  | inr e ↦ e
  | inl e ↦
      let same : w ≡ u = (text_eq_iff w u).0 e in
      let loop : text_lt u u ≡ true = subst (λ x. text_lt u x ≡ true) same h in
      absurd (let no = text_lt_irrefl u in cc)
]

-- What is smaller than all is not there.
absent : (u : Text) (us : List Text) → All (λ w. text_lt u w ≡ true) us → has_line us u ≡ false
absent u [] h = refl
absent u (w ∷ us) h = rw (differ u w h.0) (absent u us h.1)

erased_here :
    (t u : Text) (us : List Text)
    → All (λ w. text_lt u w ≡ true) us
    → t ≡ u
    → (s : Text) → has_line us s ≡ ((text_eq u s || has_line us s) && not (text_eq t s))
erased_here t u us above same s = elim (Bool-cases (text_eq u s)) [
  | inl e ↦
      let it : u ≡ s = (text_eq_iff u s).0 e in
      let gone : has_line us s ≡ false =
        subst (λ x. has_line us x ≡ false) it (absent u us above) in
      rw (same, e, gone) refl
  | inr e ↦ rw (same, e) (sym (both_true (has_line us s)))
]

kept_here :
    (t u : Text) (us : List Text) (s : Text) {rest : Bool}
    → text_eq t u ≡ false
    → rest ≡ (has_line us s && not (text_eq t s))
    → (text_eq u s || rest) ≡ ((text_eq u s || has_line us s) && not (text_eq t s))
kept_here t u us s e h = elim (Bool-cases (text_eq u s)) [
  | inr f ↦ rw f h
  | inl f ↦
      let it : u ≡ s = (text_eq_iff u s).0 f in
      let other : text_eq t s ≡ false = subst (λ x. text_eq t x ≡ false) it e in rw (f, other) refl
]

has_line-erase_line :
    (t : Text) (set : List Text)
    → IsLineSet set
    → (s : Text) → has_line (erase_line t set) s ≡ (has_line set s && not (text_eq t s))
unfolding erase_line
has_line-erase_line t [] v s = refl
has_line-erase_line t (u ∷ us) v s = elim (Bool-cases (text_eq t u)) [
  | inl e ↦ let same : t ≡ u = (text_eq_iff t u).0 e in rw e (erased_here t u us v.0 same s)
  | inr e ↦ rw e (kept_here t u us s e (has_line-erase_line t us v.1 s))
]

and_not : (a b c : Bool) → ((a && not b) && not c) ≡ (a && not (b || c))
and_not true true c = refl
and_not true false c = refl
and_not false b c = refl

pub erase_lines-has_line :
    (ts set : List Text)
    → IsLineSet set
    → IsLineSet (erase_lines ts set)
      × ((s : Text) → has_line (erase_lines ts set) s ≡ (has_line set s && not (has_line ts s)))
unfolding erase_lines
erase_lines-has_line [] set v = (v, λ s. sym (both_true (has_line set s)))
erase_lines-has_line (t ∷ ts) set v =
    let (w, h) = erase_lines-has_line ts (erase_line t set) (erase_line-IsLineSet t set v) in
    (
      w,
      λ s.
          h s
          ∙ ap (λ b. b && not (has_line ts s)) (has_line-erase_line t set v s)
          ∙ and_not (has_line set s) (text_eq t s) (has_line ts s),
    )
