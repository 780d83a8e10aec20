-- ===== src/Iddiff/Apply/Messages.antt =====
-- What `applyToMessage` of gettextpo-helper/gtpo/iddiff.cpp does to a message.
use stupid_ids.Base.{
  ℕ, suc, ◌≡◌, inl, inr, Bool, true, false, not, ◌&&◌, ◌||◌, List, [], ◌∷◌, ◌++◌, some, ok, err,
  assertion, All, length, get_elem?, length-append, ok-injective, if◌then◌else◌, refl, sym, ◌∙◌, ap,
  subst, arith, Bool-cases, ◌==◌,
}
use mathlib.Core.List.{append_assoc}
use stupid_ids.Text.{OptString, is_null, opt_eq, opt_eq_iff}
use stupid_ids.Message.{
  MessageTranslation, Message, num_plurals, equal_msgstr, equal_msgstr_iff, equal_translations,
  bool_eq, edit_fuzzy, edit_msgstr, replace, copy_forms, copy_translations_to_message,
}
use stupid_ids.Iddiff.Change.{Item, is_none}
use stupid_ids.Iddiff.{Items}
use stupid_ids.Iddiff.View.{
  removed_at, added_at, has, IsWellFormed, find_removed-at, find_in_list_cong,
}
use stupid_ids.Iddiff.Review.{find_added_single-at, first}
use stupid_ids.Iddiff.Apply.{
  can_drop_message, replace_translation, keep_translation, apply_to_message,
}

get_elem?-append :
    (pre : List OptString) (s : OptString) (post : List OptString)
    → get_elem? (pre ++ s ∷ post) (length pre) ≡ some s
get_elem?-append [] s post = refl
get_elem?-append (x ∷ pre) s post = get_elem?-append pre s post

replace-append :
    (pre : List OptString) (s t : OptString) (post : List OptString)
    → replace (pre ++ s ∷ post) (length pre) t ≡ pre ++ t ∷ post
unfolding replace
replace-append [] s t post = refl
replace-append (x ∷ pre) s t post = ap (◌∷◌ x) (replace-append pre s t post)

-- A message that has all its strings, with the fuzzy flag and the untranslated flag given.
abbrev pub HasStrings : List OptString → Type 0
HasStrings = All (λ s. is_null s ≡ false)

-- The strings of `message` are now `msgstr`; only `edited` may have changed besides.
pub record Rewritten (message : Message) (msgstr : List OptString) (after : Message) : Type 0 where
  pub strings : after.translation.msgstr ≡ msgstr
  pub fuzzy : after.translation.fuzzy ≡ message.translation.fuzzy
  pub untranslated : after.untranslated ≡ message.untranslated

edit_msgstr-Rewritten :
    (message : Message) (pre post : List OptString) (s t : OptString)
    → message.translation.msgstr ≡ pre ++ s ∷ post
    → is_null s ≡ false
    → (after : Message) × (edit_msgstr message (length pre) t ≡ ok after)
      × Rewritten message (pre ++ t ∷ post) after
unfolding edit_msgstr
edit_msgstr-Rewritten message pre post s t e n =
    let slot : get_elem? message.translation.msgstr (length pre) ≡ some s =
      rw e (get_elem?-append pre s post) in
    elim (Bool-cases (opt_eq s t)) [
      | inl h ↦ (
        message,
        rw (slot, n, h),
        record {
          strings = e ∙ ap (λ x. pre ++ x ∷ post) ((opt_eq_iff s t).0 h);
          fuzzy = refl;
          untranslated = refl;
        },
      )
      | inr h ↦ (
        record message {
          translation = record (message.translation) {
            msgstr = replace message.translation.msgstr (length pre) t;
          };
          edited = true;
        },
        rw (slot, n, h),
        record {
          strings = ap (λ xs. replace xs (length pre) t) e ∙ replace-append pre s t post;
          fuzzy = refl;
          untranslated = refl;
        },
      )
    ]

copy_forms-Rewritten :
    (news olds pre : List OptString) (i : ℕ) (message : Message)
    → message.translation.msgstr ≡ pre ++ olds
    → length news ≡ length olds
    → HasStrings olds
    → i ≡ length pre
    → (after : Message) × (copy_forms message i news ≡ ok after)
      × Rewritten message (pre ++ news) after
unfolding copy_forms
copy_forms-Rewritten [] [] pre i message e size h at_ =
    (message, refl, record { strings = e; fuzzy = refl; untranslated = refl })
copy_forms-Rewritten [] (s ∷ olds) pre i message e size h at_ = absurd (omega arith)
copy_forms-Rewritten (t ∷ news) [] pre i message e size h at_ = absurd (omega arith)
copy_forms-Rewritten (t ∷ news) (s ∷ olds) pre i message e size h at_ =
    let (m1, f, r) = edit_msgstr-Rewritten message pre olds s t e h.0 in
    let (m2, g, q) =
      copy_forms-Rewritten news olds (pre ++ t ∷ []) (suc i) m1
        (r.strings ∙ sym (append_assoc pre (t ∷ []) olds)) (omega arith) h.1
        (omega (arith, length-append pre (t ∷ []))) in
    (
      m2,
      rw (at_) (rw f (rw (← at_) g)),
      record {
        strings = q.strings ∙ append_assoc pre (t ∷ []) news;
        fuzzy = q.fuzzy ∙ r.fuzzy;
        untranslated = q.untranslated ∙ r.untranslated;
      },
    )

-- `copyTranslationsToMessage` to a message with as many forms, none of them null, makes its strings
-- those of the translation, and changes neither of its flags.
pub copy_translations-Rewritten :
    (t : MessageTranslation) (message : Message)
    → length t.msgstr ≡ length message.translation.msgstr
    → HasStrings message.translation.msgstr
    → (after : Message) × (copy_translations_to_message t message ≡ ok after)
      × Rewritten message t.msgstr after
unfolding copy_translations_to_message
copy_translations-Rewritten t message size h =
    let same : (num_plurals t == num_plurals message.translation) ≡ true = ground arith in
    rw same (copy_forms-Rewritten t.msgstr message.translation.msgstr [] 0 message refl size h refl)

none_of_three : {a b c : Bool} → a ≡ false → b ≡ false → c ≡ false → a || b || c ≡ false
none_of_three p q r = rw (p, q, r)

equal_and_clear :
    {equal fuzzy other : Bool}
    → equal ≡ true
    → fuzzy ≡ false
    → other ≡ false
    → equal && bool_eq fuzzy other ≡ true
equal_and_clear p q r = rw (p, q, r)

module _ {m : Items} (v : IsWellFormed m) (k : ℕ) where
  -- Whether the translation of the message may be dropped.
  abbrev droppable : Message → Bool
  droppable message =
      message.translation.fuzzy || message.untranslated || has (removed_at m k) message.translation

  can_drop-at : (message : Message) → can_drop_message m message k ≡ ok (droppable message)
  unfolding can_drop_message
  can_drop-at message = rw (find_removed-at m k (v.live k))

  apply-at :
      (message : Message)
      → apply_to_message m message k ≡ (
          if droppable message
          then replace_translation message (first (added_at m k))
          else keep_translation message (first (added_at m k)))
  unfolding apply_to_message
  apply-at message = rw (find_added_single-at v k, can_drop-at message)

  fuzzy_cleared :
      (message : Message)
      → ((edit_fuzzy message false).translation.fuzzy ≡ false)
        × ((edit_fuzzy message false).translation.msgstr ≡ message.translation.msgstr)
        × ((edit_fuzzy message false).untranslated ≡ message.untranslated)
  unfolding edit_fuzzy
  fuzzy_cleared message = elim (Bool-cases message.translation.fuzzy) [
    | inl e ↦ (rw e, rw e, rw e)
    | inr e ↦ (rw e, rw e, rw e)
  ]

  -- With a well-formed set, a message that may be dropped, with a translation ADDED for its ID
  -- that has as many forms, gets the strings of that translation and is not fuzzy, and its
  -- untranslated flag stays. None of its own strings is null.
  pub apply_to_message_added :
      (message : Message) (x : Item)
      → added_at m k ≡ x ∷ []
      → droppable message ≡ true
      → length x.message.msgstr ≡ length message.translation.msgstr
      → HasStrings message.translation.msgstr
      → (after : Message) × (apply_to_message m message k ≡ ok after)
        × (after.translation.msgstr ≡ x.message.msgstr)
        × (after.translation.fuzzy ≡ false)
        × (after.untranslated ≡ message.untranslated)
  unfolding replace_translation
  apply_to_message_added message x e d size h =
      let (copied, f, r) = copy_translations-Rewritten x.message message size h in
      let (c, s, u) = fuzzy_cleared copied in
      (
        edit_fuzzy copied false,
        rw (apply-at message, d, e) (rw f),
        s ∙ r.strings,
        c,
        u ∙ r.untranslated,
      )

  -- With a well-formed set, a message that may be dropped, for whose ID nothing is ADDED, becomes
  -- fuzzy and keeps its strings.
  pub apply_to_message_removed :
      (message : Message)
      → added_at m k ≡ []
      → droppable message ≡ true
      → (after : Message) × (apply_to_message m message k ≡ ok after)
        × (after.translation.msgstr ≡ message.translation.msgstr)
        × (after.translation.fuzzy ≡ true)
  unfolding replace_translation edit_fuzzy
  apply_to_message_removed message e d = (
    edit_fuzzy message true,
    rw (apply-at message, d, e),
    elim (Bool-cases message.translation.fuzzy) [ inl t ↦ rw t | inr t ↦ rw t ],
    elim (Bool-cases message.translation.fuzzy) [ inl t ↦ rw t | inr t ↦ rw t ],
  )

  -- With a well-formed set, a message that may not be dropped stays as it is, or the program
  -- stops: it stops exactly where the translation that is ADDED for its ID has other strings or
  -- another fuzzy flag.
  pub apply_to_message_kept :
      (message : Message) (x : Item)
      → added_at m k ≡ x ∷ []
      → droppable message ≡ false
      → apply_to_message m message k
        ≡ (if equal_translations x.message message.translation then ok message else err assertion)
  unfolding keep_translation
  apply_to_message_kept message x e d = rw (apply-at message, d, e) (ground arith)

  -- With a well-formed set, to apply a second time changes nothing: a message that was not
  -- untranslated, and that got a translation with as many forms which is not fuzzy itself, stays
  -- as it is. None of its old strings is null.
  pub apply_to_message_twice :
      (message after : Message) (x : Item)
      → added_at m k ≡ x ∷ []
      → droppable message ≡ true
      → length x.message.msgstr ≡ length message.translation.msgstr
      → HasStrings message.translation.msgstr
      → message.untranslated ≡ false
      → x.message.fuzzy ≡ false
      → apply_to_message m message k ≡ ok after
      → apply_to_message m after k ≡ ok after
  unfolding equal_translations
  apply_to_message_twice message after x e d size h u z done =
      let (other, f, s, c, w) = apply_to_message_added message x e d size h in
      let same : other ≡ after = ok-injective (sym f ∙ done) in
      let strings : after.translation.msgstr ≡ x.message.msgstr =
        subst (λ o. o.translation.msgstr ≡ x.message.msgstr) same s in
      let clear : after.translation.fuzzy ≡ false =
        subst (λ o. o.translation.fuzzy ≡ false) same c in
      let kept : after.untranslated ≡ false = subst (λ o. o.untranslated ≡ false) same (w ∙ u) in
      let equal : equal_msgstr x.message after.translation ≡ true =
        (equal_msgstr_iff x.message after.translation).1 (sym strings) in
      let absent : has (removed_at m k) after.translation ≡ false =
        ap (λ r. not (is_none r))
          (sym (find_in_list_cong (removed_at m k) x.message after.translation equal))
        ∙ (rw e at (v.sound k).disjoint).0 in
      apply_to_message_kept after x e (none_of_three clear kept absent)
      ∙ ap (λ b. if b then ok after else err assertion) (equal_and_clear equal z clear)
