-- ===== src/Json.antt =====
-- A JSON document as rapidjson holds it; reading and writing the text is that library's.
use stupid_ids.Base.{
  ℕ, ◌≡◌, Bool, Option, none, some, List, [], ◌∷◌, if◌then◌else◌, refl, Bool-cases, inl, inr,
}
use stupid_ids.Text.{Text, text_eq}

mutual
  pub data Value : Type 0 where
    null : Value
    bool : Bool → Value
    number : ℕ → Value
    string : Text → Value
    array : Items → Value
    object : Members → Value

  pub data Items : Type 0 where
    nil : Items
    item : Value → Items → Items

  pub data Members : Type 0 where
    empty : Members
    member : (name : Text) → Value → Members → Members

-- The first member of the name.
unfoldable pub find_member : Text → Members → Option Value
find_member name empty = none
find_member name (member n v rest) = if text_eq n name then some v else find_member name rest

abbrev pub items_of : List Value → Items
items_of [] = nil
items_of (v ∷ vs) = item v (items_of vs)

-- `AddMember` puts a member at the end.
abbrev pub add_member : Members → Text → Value → Members
add_member empty name v = member name v empty
add_member (member n w rest) name v = member n w (add_member rest name v)

abbrev pub or_else : Option Value → Option Value → Option Value
or_else none w = w
or_else (some v) w = some v

-- The first member of a name stays the one that is found.
pub find_member-add_member :
    (name n : Text) (ms : Members) (v : Value)
    → find_member name (add_member ms n v)
      ≡ or_else (find_member name ms) (if text_eq n name then some v else none)
unfolding find_member
find_member-add_member name n empty v = refl
find_member-add_member name n (member k w rest) v = elim (Bool-cases (text_eq k name)) [
  | inl e ↦ rw e refl
  | inr e ↦ rw e (find_member-add_member name n rest v)
]
