-- ===== src/Content/Written.antt =====
-- `writeToFile` of gettextpo-helper/gtpo/translationcontent.cpp. The messages are read from the file
-- anew for every message that is looked at.
use stupid_ids.Base.{
  ℕ, zero, suc, ◌+◌, ◌≡◌, ◌<◌, Bool, true, false, not, ◌||◌, List, [], ◌∷◌, Option, none, some,
  Result, ok, err, assertion, ◌>>=◌, length, get_elem?, if◌then◌else◌, All, arith, refl,
}
use stupid_ids.Text.{Text, OptString, null, string, is_null, c_str}
use stupid_ids.Message.{Message}
use stupid_ids.Po.{PoMessage}
use stupid_ids.Content.{MessageGroup, group_of, message_of, only_message, read_loop, read_messages}

-- Null becomes the empty string.
abbrev or_empty : OptString → Result Text
or_empty null = ok []
or_empty (string s) = c_str (string s)

-- Each form in turn, where the file has one more and the message, too.
set_forms : List Text → List OptString → Result (List Text)
set_forms [] [] = ok []
set_forms [] (s ∷ ss) = err assertion
set_forms (t ∷ ts) [] = err assertion
set_forms (t ∷ ts) (s ∷ ss) = do form ← c_str s; rest ← set_forms ts ss; ok (form ∷ rest)

abbrev single_form : List OptString → Result Text
single_form [] = err assertion
single_form (s ∷ []) = or_empty s
single_form (s ∷ t ∷ rest) = err assertion

-- What is done for an edited message.
write_message : PoMessage → Message → Result PoMessage
write_message po m =
    if not (is_null po.msgid_plural)
    then (do
      forms ← set_forms po.plural_forms m.translation.msgstr
      comments ← or_empty m.msgcomments
      ok (record po { fuzzy = m.translation.fuzzy; plural_forms = forms; comments = comments }))
    else (do
      form ← single_form m.translation.msgstr
      comments ← or_empty m.msgcomments
      ok (record po { fuzzy = m.translation.fuzzy; msgstr = form; comments = comments }))

write_if_edited : PoMessage → Message → Result (Bool × PoMessage)
write_if_edited po m =
    if m.edited then (do po' ← write_message po m; ok (true, po')) else ok (false, po)

in_range : Option MessageGroup → Result MessageGroup
in_range none = err assertion
in_range (some g) = ok g

-- One message that is not obsolete: whether it was changed, and what it is then.
write_one : Text → (file : List PoMessage) → (index : ℕ) → PoMessage → Result (Bool × PoMessage)
write_one filename file index po = do
  messages ← read_messages filename file
  group ← in_range (get_elem? messages index)
  m ← only_message group.messages
  write_if_edited po m

write_loop :
    Text → (file : List PoMessage) → (index : ℕ) → List PoMessage → Result (Bool × List PoMessage)
write_loop filename file index [] = ok (false, [])
write_loop filename file index (po ∷ messages) =
    if po.obsolete
    then (do rest ← write_loop filename file index messages; ok (rest.0, po ∷ rest.1))
    else (do
      one ← write_one filename file index po
      rest ← write_loop filename file (index + 1) messages
      ok (one.0 || rest.0, one.1 ∷ rest.1))

-- What is written, if the file is written. The first message is the header.
pub write_to_file :
    Text → (file : List PoMessage) → (force_write : Bool) → Result (Option (List PoMessage))
write_to_file filename [] force_write = ok (if force_write then some [] else none)
write_to_file filename (header ∷ messages) force_write = do
  written ← write_loop filename (header ∷ messages) 0 messages
  ok (if force_write || written.0 then some (header ∷ written.1) else none)

-- A group of one message that has not been edited.
abbrev IsFresh : MessageGroup → Type 0
IsFresh g = (m : Message) × (only_message g.messages ≡ ok m) × (m.edited ≡ false)

All-if :
    (P : MessageGroup → Type 0) (xs ys : List MessageGroup) (b : Bool)
    → All P xs
    → All P ys
    → All P (if b then xs else ys)
All-if P xs ys true h k = h
All-if P xs ys false h k = k

if_same {ℓ} :
    {A : Type ℓ} (b : Bool) {x y z : A}
    → (b ≡ true → x ≡ z)
    → (b ≡ false → y ≡ z)
    → (if b then x else y) ≡ z
if_same true h k = h refl
if_same false h k = k refl

read_loop-IsFresh :
    (filename : Text) (index : ℕ) (messages : List PoMessage)
    → All IsFresh (read_loop filename index messages)
unfolding read_loop group_of message_of only_message
read_loop-IsFresh filename index [] = tt
read_loop-IsFresh filename index (po ∷ messages) =
    All-if _ _ _ po.obsolete (read_loop-IsFresh filename index messages)
      ((message_of po index filename, refl, refl), read_loop-IsFresh filename (index + 1) messages)

abbrev live : List PoMessage → ℕ
live [] = 0
live (po ∷ messages) = (if po.obsolete then 0 else 1) + live messages

length-read_loop :
    (filename : Text) (index : ℕ) (messages : List PoMessage)
    → length (read_loop filename index messages) ≡ live messages
unfolding read_loop
length-read_loop filename index [] = refl
length-read_loop filename index (po ∷ messages) = ground (
  arith,
  length-read_loop filename index messages,
  length-read_loop filename (index + 1) messages,
)

IsFresh-at :
    (groups : List MessageGroup) (index : ℕ)
    → All IsFresh groups
    → index < length groups
    → (g : MessageGroup) × (get_elem? groups index ≡ some g) × IsFresh g
IsFresh-at [] index f h = absurd (omega arith)
IsFresh-at (g ∷ groups) zero f h = (g, refl, f.0)
IsFresh-at (g ∷ groups) (suc index) f h = IsFresh-at groups index f.1 (omega arith)

forced :
    (file : List PoMessage) (force_write : Bool)
    → ◌≡◌ {A = Result (Option (List PoMessage))}
        (ok (if force_write || false then some file else none))
        (ok (if force_write then some file else none))
forced file true = refl
forced file false = refl

unedited :
    (messages : List Message) (m : Message)
    → only_message messages ≡ ok m
    → m.edited ≡ false
    → (po : PoMessage) → (only_message messages >>= write_if_edited po) ≡ ok (false, po)
unfolding write_if_edited
unedited messages m only kept po =
    rw (only, ◌>>=◌) (if_same m.edited (λ e. absurd (cc)) (λ e. refl))

module _ (c : ℕ) (name : Text) (header : PoMessage) (all : List PoMessage) where
  write_one-same :
      (index : ℕ) (po : PoMessage)
      → index < live all
      → write_one (c ∷ name) (header ∷ all) index po ≡ ok (false, po)
  unfolding write_one read_messages in_range
  write_one-same index po h =
      let (g, there, fresh) =
        IsFresh-at (read_loop (c ∷ name) 0 all) index (read_loop-IsFresh (c ∷ name) 0 all)
          (omega (arith, length-read_loop (c ∷ name) 0 all)) in
      rw (there, ◌>>=◌) (unedited g.messages fresh.0 fresh.1 fresh.2 po)

  write_loop-same :
      (index : ℕ) (messages : List PoMessage)
      → index + live messages ≡ live all
      → write_loop (c ∷ name) (header ∷ all) index messages ≡ ok (false, messages)
  unfolding write_loop
  write_loop-same index [] h = refl
  write_loop-same index (po ∷ messages) h =
      if_same po.obsolete (λ e. rw (write_loop-same index messages (ground arith), ◌>>=◌) refl)
        (λ e.
          rw (write_one-same index po (ground arith), ◌>>=◌)
            (rw (write_loop-same (index + 1) messages (ground arith), ◌>>=◌) refl))

pub write_to_file-same :
    (c : ℕ) (name : Text) (file : List PoMessage) (force_write : Bool)
    → write_to_file (c ∷ name) file force_write ≡ ok (if force_write then some file else none)
unfolding write_to_file
write_to_file-same c name [] force_write = refl
write_to_file-same c name (header ∷ messages) force_write =
    rw (write_loop-same c name header messages 0 messages (omega arith), ◌>>=◌)
      (forced (header ∷ messages) force_write)
