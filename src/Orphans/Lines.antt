-- ===== src/Orphans/Lines.antt =====
-- Lines of process_orphans.txt as gettextpo-helper/gtpo/processorphans.cpp reads them.
use stupid_ids.Base.{
  ℕ, ◌≡◌, ◌≢◌, false, ◌||◌, [], ◌∷◌, ◌++◌, none, some, ok, ◌>>=◌, ◌==◌, All, arith, refl,
}
use stupid_ids.Text.{Text, text_eq}
use stupid_ids.Orphans.{
  Command, move, copy, delete, merge, mergekeep, name_of_command, command_of, at_last_slash,
  split_fullname_pot, is_delete, destination_of, new_entry, at_space, to_break, is_skipped,
  entry_of, parse_words, parse_line,
}

abbrev pub HasNo : ℕ → Text → Type 0
HasNo b s = All (λ c. c ≢ b) s

no_slash : (s : Text) → HasNo 47 s → at_last_slash s ≡ none
unfolding at_last_slash
no_slash [] h = refl
no_slash (c ∷ s) h =
    let differ = h.0 in
    let here : (c == 47) ≡ false = ground arith in rw (no_slash s h.1) (rw here refl)

at_last_slash-append :
    (path name : Text) → HasNo 47 name → at_last_slash (path ++ 47 ∷ name) ≡ some (path, name)
unfolding at_last_slash
at_last_slash-append [] name h = rw (no_slash name h) refl
at_last_slash-append (c ∷ path) name h = rw (at_last_slash-append path name h) refl

split_fullname_pot-append :
    (path name : Text)
    → HasNo 47 name
    → split_fullname_pot (path ++ 47 ∷ name) ≡ ok (path, name ++ 116 ∷ [])
unfolding split_fullname_pot
split_fullname_pot-append path name h = rw (at_last_slash-append path name h) refl

at_space-append :
    (word rest : Text) → HasNo 32 word → at_space (word ++ 32 ∷ rest) ≡ some (word, rest)
unfolding at_space
at_space-append [] rest h = refl
at_space-append (c ∷ word) rest h =
    let differ = h.0 in
    let here : (c == 32) ≡ false = ground arith in rw (here, at_space-append word rest h.1) refl

abbrev pub IsWord : Text → Type 0
IsWord s = All (λ c. (c == 32 || c == 10 || c == 13) ≡ false) s

to_break-append : (word rest : Text) → IsWord word → to_break (word ++ 10 ∷ rest) ≡ word
unfolding to_break
to_break-append [] rest h = refl
to_break-append (c ∷ word) rest h = rw (h.0, to_break-append word rest h.1) refl

commands_read : (c : Command) → command_of (name_of_command c) ≡ ok c
unfolding command_of text_eq
commands_read move = refl
commands_read copy = refl
commands_read delete = refl
commands_read merge = refl
commands_read mergekeep = refl

command_not_skipped : (c : Command) (rest : Text) → is_skipped (name_of_command c ++ rest) ≡ false
unfolding is_skipped text_eq
command_not_skipped move rest = refl
command_not_skipped copy rest = refl
command_not_skipped delete rest = refl
command_not_skipped merge rest = refl
command_not_skipped mergekeep rest = refl

command_word :
    (c : Command) (rest : Text)
    → at_space (name_of_command c ++ 32 ∷ rest) ≡ some (name_of_command c, rest)
unfolding at_space
command_word move rest = refl
command_word copy rest = refl
command_word delete rest = refl
command_word merge rest = refl
command_word mergekeep rest = refl

abbrev pub line_of : Command → (orig_path orig_name dest_path dest_name : Text) → Text
line_of c orig_path orig_name dest_path dest_name =
    name_of_command c
    ++ 32 ∷ ((orig_path ++ 47 ∷ orig_name) ++ 32 ∷ ((dest_path ++ 47 ∷ dest_name) ++ 10 ∷ []))

new_entry-entry :
    (c : Command) (orig_path orig_name dest_path dest_name : Text)
    → is_delete c ≡ false
    → HasNo 47 orig_name
    → HasNo 47 dest_name
    → new_entry
        (name_of_command c)
        (orig_path ++ 47 ∷ orig_name)
        (some (dest_path ++ 47 ∷ dest_name))
      ≡ ok (record {
        command = c;
        orig_path = orig_path;
        orig_name_pot = orig_name ++ 116 ∷ [];
        dest_path = dest_path;
        dest_name_pot = dest_name ++ 116 ∷ [];
      })
unfolding new_entry destination_of
new_entry-entry c orig_path orig_name dest_path dest_name d o n =
    rw (commands_read c, ◌>>=◌)
      (rw (split_fullname_pot-append orig_path orig_name o, ◌>>=◌)
        (rw (d, split_fullname_pot-append dest_path dest_name n) refl))

-- A line with a command other than "delete", the path of a file and the path to which it has gone is
-- read as this command, these directories, and the names with a "t" at their ends. The names have no
-- slash, the first path has no space, and the second has no space and no line break.
pub parse_line-line_of :
    (c : Command) (orig_path orig_name dest_path dest_name : Text)
    → is_delete c ≡ false
    → HasNo 47 orig_name
    → HasNo 47 dest_name
    → HasNo 32 (orig_path ++ 47 ∷ orig_name)
    → IsWord (dest_path ++ 47 ∷ dest_name)
    → parse_line (line_of c orig_path orig_name dest_path dest_name)
      ≡ ok (
          some (record {
            command = c;
            orig_path = orig_path;
            orig_name_pot = orig_name ++ 116 ∷ [];
            dest_path = dest_path;
            dest_name_pot = dest_name ++ 116 ∷ [];
          }))
unfolding parse_line parse_words entry_of
parse_line-line_of c orig_path orig_name dest_path dest_name d o n s w =
    let destination = (dest_path ++ 47 ∷ dest_name) ++ 10 ∷ [] in
    let rest = (orig_path ++ 47 ∷ orig_name) ++ 32 ∷ destination in
    rw (command_not_skipped c (32 ∷ rest), command_word c rest)
      (rw
        (
          at_space-append (orig_path ++ 47 ∷ orig_name) destination s,
          to_break-append (dest_path ++ 47 ∷ dest_name) [] w,
        )
        (rw (new_entry-entry c orig_path orig_name dest_path dest_name d o n, ◌>>=◌) refl))
