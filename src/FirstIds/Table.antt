-- ===== src/FirstIds/Table.antt =====
-- The sorted table of gettextpo-helper/gtpo/filedbfirstids.cpp, and the search in it.
use stupid_ids.Base.{
  ℕ, ◌≡◌, ◌<◌, true, false, List, [], ◌∷◌, Option, none, some, All, All-mono, arith, refl, sym,
  subst, ◌∙◌, Bool-cases, inl, inr, if◌then◌else◌,
}
use stupid_ids.Base.Int.{ℤ, negsuc}
use stupid_ids.Text.{
  Text, text_eq, text_lt, text_eq_iff, text_lt_irrefl, text_lt_trans, text_lt_total,
}
use stupid_ids.FirstIds.{Entry, entry_lt, insert_entry, sort_entries, lower_bound, if_equal}

-- The first entry with the hash.
abbrev pub find_entry : Text → List Entry → Option Entry
find_entry tp_hash [] = none
find_entry tp_hash (e ∷ es) = if text_eq tp_hash e.tp_hash then some e else find_entry tp_hash es

-- No other entry has the hash of this one.
abbrev pub IsDistinct : List Entry → Type 0
IsDistinct [] = Unit
IsDistinct (e ∷ es) = All (λ d. text_eq e.tp_hash d.tp_hash ≡ false) es × IsDistinct es

pub text_eq_sym : (s t : Text) → text_eq s t ≡ text_eq t s
text_eq_sym s t = ground (arith, text_eq_iff s t, text_eq_iff t s)

-- An insertion does not change what is found, where the hash is new.
pub find_entry-insert_entry :
    (tp_hash : Text) (e : Entry) (es : List Entry)
    → All (λ d. text_eq e.tp_hash d.tp_hash ≡ false) es
    → find_entry tp_hash (insert_entry e es) ≡ find_entry tp_hash (e ∷ es)
unfolding insert_entry
find_entry-insert_entry tp_hash e [] h = refl
find_entry-insert_entry tp_hash e (d ∷ ds) h = elim (Bool-cases (entry_lt d e)) [
  | inr f ↦ rw f refl
  | inl f ↦ rw f (elim (Bool-cases (text_eq tp_hash d.tp_hash)) [
    | inl g ↦
        let same : tp_hash ≡ d.tp_hash = (text_eq_iff tp_hash d.tp_hash).0 g in
        let differ : text_eq tp_hash e.tp_hash ≡ false =
          rw (same, text_eq_sym d.tp_hash e.tp_hash) h.0 in
        rw (g, differ) refl
    | inr g ↦ rw (g, find_entry-insert_entry tp_hash e ds h.1) refl
  ])
]

module _ (P : Entry → Type 0) where
  pub All-insert_entry : (e : Entry) (es : List Entry) → P e → All P es → All P (insert_entry e es)
  unfolding insert_entry
  All-insert_entry e [] p ps = (p, tt)
  All-insert_entry e (d ∷ ds) p ps = elim (Bool-cases (entry_lt d e)) [
    | inl f ↦ rw f (ps.0, All-insert_entry e ds p ps.1)
    | inr f ↦ rw f (p, ps)
  ]

  pub All-sort_entries : (es : List Entry) → All P es → All P (sort_entries es)
  unfolding sort_entries
  All-sort_entries [] ps = tt
  All-sort_entries (e ∷ es) ps =
      All-insert_entry e (sort_entries es) ps.0 (All-sort_entries es ps.1)

pub find_entry-sort_entries :
    (tp_hash : Text) (es : List Entry)
    → IsDistinct es
    → find_entry tp_hash (sort_entries es) ≡ find_entry tp_hash es
unfolding sort_entries
find_entry-sort_entries tp_hash [] v = refl
find_entry-sort_entries tp_hash (e ∷ es) v =
    find_entry-insert_entry tp_hash e (sort_entries es)
      (All-sort_entries (λ d. text_eq e.tp_hash d.tp_hash ≡ false) es v.0)
    ∙ rw (find_entry-sort_entries tp_hash es v.1) refl

-- No hash is before an earlier one.
abbrev pub IsSorted : List Entry → Type 0
IsSorted [] = Unit
IsSorted (e ∷ es) = All (λ d. text_lt d.tp_hash e.tp_hash ≡ false) es × IsSorted es

pub lt_le_trans : (s t u : Text) → text_lt s t ≡ true → text_lt u t ≡ false → text_lt s u ≡ true
lt_le_trans s t u h k = elim (Bool-cases (text_lt t u)) [
  | inl f ↦ text_lt_trans s t u h f
  | inr f ↦ subst (λ x. text_lt s x ≡ true) (text_lt_total t u f k) h
]

pub not_before_trans :
    (s t u : Text) → text_lt t s ≡ false → text_lt u t ≡ false → text_lt u s ≡ false
not_before_trans s t u h k = elim (Bool-cases (text_lt u s)) [
  | inr f ↦ f
  | inl f ↦ absurd (cc (lt_le_trans u s t f h, k))
]

pub entry_lt-not_after : (d e : Entry) → entry_lt d e ≡ true → text_lt e.tp_hash d.tp_hash ≡ false
unfolding entry_lt
entry_lt-not_after d e h = elim (Bool-cases (text_lt e.tp_hash d.tp_hash)) [
  | inr f ↦ f
  | inl f ↦ elim (Bool-cases (text_lt d.tp_hash e.tp_hash)) [
    | inl g ↦
        absurd (cc (text_lt_trans d.tp_hash e.tp_hash d.tp_hash g f, text_lt_irrefl d.tp_hash))
    | inr g ↦ absurd (ground (arith, h, f, g))
  ]
]

pub entry_lt_not : (d e : Entry) → entry_lt d e ≡ false → text_lt d.tp_hash e.tp_hash ≡ false
unfolding entry_lt
entry_lt_not d e h = ground (arith, h)

pub insert_entry-IsSorted :
    (e : Entry) (es : List Entry) → IsSorted es → IsSorted (insert_entry e es)
unfolding insert_entry
insert_entry-IsSorted e [] v = (tt, tt)
insert_entry-IsSorted e (d ∷ ds) v = elim (Bool-cases (entry_lt d e)) [
  | inl f ↦ rw f (
    All-insert_entry (λ x. text_lt x.tp_hash d.tp_hash ≡ false) e ds (entry_lt-not_after d e f) v.0,
    insert_entry-IsSorted e ds v.1,
  )
  | inr f ↦
      let first = entry_lt_not d e f in
      rw f (
        (first, All-mono (λ x h. not_before_trans e.tp_hash d.tp_hash x.tp_hash first h) ds v.0),
        v,
      )
]

pub sort_entries-IsSorted : (es : List Entry) → IsSorted (sort_entries es)
unfolding sort_entries
sort_entries-IsSorted [] = tt
sort_entries-IsSorted (e ∷ es) =
    insert_entry-IsSorted e (sort_entries es) (sort_entries-IsSorted es)

abbrev pub answer : Option Entry → ℕ × ℤ
answer none = (0, negsuc 0)
answer (some e) = (e.first_id, e.count)

abbrev pub key_of : Text → Entry
key_of tp_hash = record { tp_hash = tp_hash; first_id = 0; count = negsuc 0 }

pub find_entry-none :
    (tp_hash : Text) (es : List Entry)
    → All (λ d. text_eq tp_hash d.tp_hash ≡ false) es
    → find_entry tp_hash es ≡ none
find_entry-none tp_hash [] h = refl
find_entry-none tp_hash (e ∷ es) h = rw (h.0, find_entry-none tp_hash es h.1) refl

pub lt_differs : (s t : Text) → text_lt s t ≡ true → text_eq s t ≡ false
lt_differs s t h = ground (arith, h, text_eq_iff s t, text_lt_irrefl s)

pub before_differs :
    (tp_hash : Text) (e : Entry)
    → 0 < e.first_id
    → entry_lt e (key_of tp_hash) ≡ true
    → text_eq tp_hash e.tp_hash ≡ false
unfolding entry_lt
before_differs tp_hash e positive h = elim (Bool-cases (text_eq tp_hash e.tp_hash)) [
  | inr f ↦ f
  | inl f ↦
      let same : tp_hash ≡ e.tp_hash = (text_eq_iff tp_hash e.tp_hash).0 f in
      let none_before : text_lt e.tp_hash tp_hash ≡ false =
        subst (λ t. text_lt e.tp_hash t ≡ false) (sym same) (text_lt_irrefl e.tp_hash) in
      absurd (ground (arith, h, none_before, positive))
]

pub lower_bound-find_entry :
    (tp_hash : Text) (es : List Entry)
    → IsSorted es
    → All (λ e. 0 < e.first_id) es
    → if_equal tp_hash (lower_bound (key_of tp_hash) es) ≡ answer (find_entry tp_hash es)
unfolding lower_bound
lower_bound-find_entry tp_hash [] v p = refl
lower_bound-find_entry tp_hash (e ∷ es) v p = elim (Bool-cases (entry_lt e (key_of tp_hash))) [
  | inl f ↦ rw (f, before_differs tp_hash e p.0 f) (lower_bound-find_entry tp_hash es v.1 p.1)
  | inr f ↦ elim (Bool-cases (text_eq tp_hash e.tp_hash)) [
    | inl g ↦ rw f (rw g refl)
    | inr g ↦
        let not_before = entry_lt_not e (key_of tp_hash) f in
        let first : text_lt tp_hash e.tp_hash ≡ true =
          elim (Bool-cases (text_lt tp_hash e.tp_hash)) [
            | inl k ↦ k
            | inr k ↦
                let same = text_lt_total tp_hash e.tp_hash k not_before in
                let equal = (text_eq_iff tp_hash e.tp_hash).1 same in cc
          ] in
        let absent = find_entry-none tp_hash es (
          All-mono
            (λ x h. lt_differs tp_hash x.tp_hash (lt_le_trans tp_hash e.tp_hash x.tp_hash first h))
            es v.0) in
        rw f (rw (g, absent) refl)
  ]
]
