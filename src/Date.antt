-- ===== src/Date.antt =====
-- gettextpo-helper/gtpo/filedatetime.cpp: a date, which may be missing. The text form is read and
-- written by the C library.
use stupid_ids.Base.{
  ℕ, ◌*◌, ◌≡◌, ◌↔◌, Bool, true, false, not, ◌&&◌, if◌then◌else◌, arith, ◌⊎◌, inl, inr, Bool-cases,
}
use stupid_ids.Base.Int.{ℤ, pos, ◌+ℤ◌, ◌≤ℤ◌, leb_ℤ, ltb_ℤ, pos_part, neg_part, sub_ℕ}

pub record FileDateTime : Type 0 where
  pub init : Bool
  pub date : ℤ
  pub timezone : ℤ

abbrev pub of_git_time : ℤ → FileDateTime
of_git_time date = record { init = true; date = date; timezone = pos 0 }

abbrev pub clear : FileDateTime → FileDateTime
clear d = record d { init = false }

abbrev pub is_null : FileDateTime → Bool
is_null d = not d.init

-- `operator<` and `operator>` look at the number alone.
abbrev pub date_lt : FileDateTime → FileDateTime → Bool
date_lt a b = ltb_ℤ a.date b.date

abbrev pub date_gt : FileDateTime → FileDateTime → Bool
date_gt a b = ltb_ℤ b.date a.date

unfoldable pub add_seconds : FileDateTime → ℤ → FileDateTime
add_seconds d seconds = if not (is_null d) then record d { date = d.date +ℤ seconds } else d

unfoldable pub plus_seconds : FileDateTime → ℤ → FileDateTime
unfolding add_seconds
plus_seconds d seconds = add_seconds d seconds

abbrev times : ℤ → ℕ → ℤ
times a k = sub_ℕ (pos_part a * k) (neg_part a * k)

unfoldable pub plus_hours : FileDateTime → ℤ → FileDateTime
unfolding plus_seconds
plus_hours d hours = plus_seconds d (times hours 3600)

unfoldable pub plus_days : FileDateTime → ℤ → FileDateTime
unfolding plus_seconds
plus_days d days = plus_seconds d (times days (24 * 3600))

-- The conversion to git_time_t, by which `<=` and `>=` compare.
abbrev pub git_time : FileDateTime → ℤ
git_time d = if is_null d then pos 0 else d.date

abbrev between : ℤ → ℤ → ℤ → Bool
between d a b = if leb_ℤ a b then leb_ℤ a d && leb_ℤ d b else leb_ℤ b d && leb_ℤ d a

unfoldable pub is_between : FileDateTime → FileDateTime → FileDateTime → Bool
is_between d a b = between (git_time d) (git_time a) (git_time b)

between_iff : (d a b : ℤ) → (between d a b ≡ true) ↔ (((a ≤ℤ d) × (d ≤ℤ b)) ⊎ ((b ≤ℤ d) × (d ≤ℤ a)))
between_iff d a b = (
  λ h. elim (Bool-cases (leb_ℤ a b)) [ inl e ↦ inl (ground arith) | inr e ↦ inr (ground arith) ],
  λ h. elim h [ inl p ↦ ground arith | inr p ↦ ground arith ],
)

-- `isBetween` takes the two ends in either order: it holds exactly where the date, read as a number,
-- lies from the one to the other, the ends included.
pub is_between_iff :
    (d a b : FileDateTime)
    → (is_between d a b ≡ true) ↔ (
        ((git_time a ≤ℤ git_time d) × (git_time d ≤ℤ git_time b))
        ⊎ ((git_time b ≤ℤ git_time d) × (git_time d ≤ℤ git_time a)))
unfolding is_between
is_between_iff d a b = between_iff (git_time d) (git_time a) (git_time b)
