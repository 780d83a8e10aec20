-- ===== src/Content/Template/Header.antt =====
-- The creation date in the header of a .po file: what gettextpo-helper/gtpo/translationcontent.cpp finds
-- of it.
use stupid_ids.Base.{
  ℕ, ◌≡◌, ◌≢◌, ◌≤◌, ◌⊎◌, inl, inr, Bool, true, false, not, ◌&&◌, List, [], ◌∷◌, ◌++◌, some, ok, All,
  drop-append, ◌==◌, arith, refl, ap, ◌∙◌, Bool-cases,
}
use mathlib.Core.List.{append_assoc}
use stupid_ids.Text.{Text}
use stupid_ids.Json
use stupid_ids.Json.{Members, empty, member}
use stupid_ids.Iddiff.Comments.{is_prefix}
use stupid_ids.Content.Template.{
  codes, is_alpha, after, to_newline, creation_date, template_header_as_json,
}

abbrev pub is_line : Text → Bool
is_line [] = true
is_line (c ∷ line) = not (c == 10) && is_line line

-- Lines that end with a newline each.
abbrev pub lines : List Text → Text
lines [] = []
lines (line ∷ rest) = line ++ 10 ∷ lines rest

abbrev pub field : Text
field = codes "POT-Creation-Date: "

abbrev pub IsOtherLine : Text → Type 0
IsOtherLine line = (is_line line ≡ true) × ((t : Text) → line ≢ field ++ t)

-- The header is lines, begins with a letter, and its first line for the creation date has `date`.
pub record HasCreationDate (header date : Text) : Type 0 where
  pub before : List Text
  pub behind : List Text
  pub is_text : header ≡ lines before ++ (field ++ (date ++ 10 ∷ lines behind))
  pub others : All IsOtherLine before
  pub one_line : is_line date ≡ true
  pub first : ℕ
  pub rest : Text
  pub begins : header ≡ first ∷ rest
  pub letter : ((65 ≤ first) × (first ≤ 90)) ⊎ ((97 ≤ first) × (first ≤ 122))

-- A line is passed over up to its newline.
after_line :
    (p line s : Text)
    → is_line line ≡ true
    → after (10 ∷ p) (line ++ 10 ∷ s) ≡ after (10 ∷ p) (10 ∷ s)
unfolding after is_prefix
after_line p [] s h = refl
after_line p (c ∷ line) s h =
    let ne : (10 == c) ≡ false = ground arith in rw ne (after_line p line s (ground arith))

other_line :
    (p line s : Text)
    → is_line p ≡ true
    → ((t : Text) → line ≢ p ++ t)
    → is_prefix p (line ++ 10 ∷ s) ≡ false
unfolding is_prefix
other_line [] line s h n = absurd (n line refl)
other_line (a ∷ p) [] s h n = ground arith
other_line (a ∷ p) (c ∷ line) s h n = elim (Bool-cases (a == c)) [
  | inr e ↦ rw e refl
  | inl e ↦
      let same : c ≡ a = ground arith in
      rw e
        (other_line p line s (ground arith) (λ t q. n t (ap (λ x. x ∷ line) same ∙ ap (◌∷◌ a) q)))
]

same_prefix : (p s : Text) → is_prefix p (p ++ s) ≡ true
unfolding is_prefix
same_prefix [] s = refl
same_prefix (c ∷ p) s = ground (arith, same_prefix p s)

after_field : (p s : Text) → after (10 ∷ p) (10 ∷ (p ++ s)) ≡ some s
unfolding after is_prefix
after_field p s = rw (same_prefix p s) (ap some (drop-append p s))

after-lines :
    (before : List Text) (s : Text)
    → All IsOtherLine before
    → after (10 ∷ field) (10 ∷ (lines before ++ (field ++ s))) ≡ some s
unfolding after is_prefix
after-lines [] s h = after_field field s
after-lines (line ∷ before) s h =
    let shape : (line ++ 10 ∷ lines before) ++ (field ++ s)
        ≡ line ++ 10 ∷ (lines before ++ (field ++ s)) =
      append_assoc line (10 ∷ lines before) (field ++ s) in
    ap (λ t. after (10 ∷ field) (10 ∷ t)) shape
    ∙ rw (other_line field line (lines before ++ (field ++ s)) refl h.0.1)
        (after_line field line (lines before ++ (field ++ s)) h.0.0)
    ∙ after-lines before s h.1

to_newline-line : (line s : Text) → is_line line ≡ true → to_newline (line ++ 10 ∷ s) ≡ some line
unfolding to_newline
to_newline-line [] s h = refl
to_newline-line (c ∷ line) s h = ground (arith, to_newline-line line s)

creation_date-line :
    (line s : Text) → is_line line ≡ true → creation_date (some (line ++ 10 ∷ s)) ≡ ok line
unfolding creation_date
creation_date-line line s h = ground (arith, to_newline-line line s h)

-- The document of a header has its creation date and nothing else.
pub template_header_as_json-HasCreationDate :
    {header date : Text}
    → HasCreationDate header date
    → template_header_as_json header
      ≡ ok (member (codes "pot_creation_date") (Json.string date) empty)
unfolding template_header_as_json
template_header_as_json-HasCreationDate {header} {date} h =
    let alpha : is_alpha (h.first ∷ h.rest) ≡ true = letter_alpha h.first h.rest h.letter in
    let found : after (10 ∷ field) (10 ∷ header) ≡ some (date ++ 10 ∷ lines h.behind) =
      ap (λ t. after (10 ∷ field) (10 ∷ t)) h.is_text
      ∙ after-lines h.before (date ++ 10 ∷ lines h.behind) h.others in
    rw (ap is_alpha h.begins ∙ alpha, found, creation_date-line date (lines h.behind) h.one_line)
      refl
  where
    letter_alpha :
        (c : ℕ) (s : Text)
        → ((65 ≤ c) × (c ≤ 90)) ⊎ ((97 ≤ c) × (c ≤ 122))
        → is_alpha (c ∷ s) ≡ true
    letter_alpha c s (inl l) = ground arith
    letter_alpha c s (inr l) = ground arith
