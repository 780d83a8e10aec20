-- ===== src/Collector/Gathered.antt =====
-- What the map of gettextpo-helper/gtpo/translation-collector.cpp holds.
use stupid_ids.Base.{
  ◌>>=◌, ℕ, ◌≡◌, ◌⊎◌, true, false, All, map, List, [], ◌∷◌, ◌++◌, Option, none, some, Result, ok,
  length, ◌==◌, arith, refl, sym, ap, ◌∙◌, Bool-cases, inl, inr, if◌then◌else◌,
}
use mathlib.Core.List.{append_assoc, append-nil}
use stupid_ids.Text.{Text}
use stupid_ids.Message.{Message}
use stupid_ids.Content.{MessageGroup, merge_message_group, read_messages}
use stupid_ids.Iddiff.Map.{find, find-put}
use stupid_ids.Collector.{
  TranslationContent, TranslationCollector, ask_min_ids, get_min_ids, merged_group, insert_message,
  insert_messages, init_content, init_contents, init_trans_confl,
}

abbrev pub messages_of : Option MessageGroup → List Message
messages_of none = []
messages_of (some g) = g.messages

abbrev pub messages_at : List (ℕ × MessageGroup) → ℕ → List Message
messages_at trans k = messages_of (find k trans)

-- The messages of the groups whose ID is `k`, in their order.
abbrev pub having_id : ℕ → List ℕ → List MessageGroup → List Message
having_id k [] groups = []
having_id k (id ∷ ids) [] = []
having_id k (id ∷ ids) (g ∷ groups) = (if id == k then g.messages else []) ++ having_id k ids groups

-- A file, the groups of messages that are read from it, and the minimized IDs of its messages.
pub record Answered : Type 0 where
  pub content : TranslationContent
  pub groups : List MessageGroup
  pub ids : List ℕ

abbrev pub content_of : Answered → TranslationContent
content_of a = a.content

-- The IDs are kept from before, or `ask` answers with them; there are as many as messages.
pub record IsAnswered (ask : Text → Result (List ℕ)) (a : Answered) : Type 0 where
  pub readable : read_messages a.content.display_filename a.content.file ≡ ok a.groups
  pub known :
      (a.content.min_ids ≡ some a.ids)
      ⊎ ((a.content.min_ids ≡ none) × (ask a.content.tp_hash ≡ ok a.ids))
  pub as_many : length a.ids ≡ length a.groups

-- The messages with the ID in all files, in the order of the files.
abbrev pub gathered : ℕ → List Answered → List Message
gathered k [] = []
gathered k (a ∷ answers) = having_id k a.ids a.groups ++ gathered k answers

merged_messages :
    (o : Option MessageGroup) (g : MessageGroup)
    → (merged_group o g).messages ≡ messages_of o ++ g.messages
unfolding merge_message_group
merged_messages none g = refl
merged_messages (some h) g = refl

messages_at-insert_message :
    (id : ℕ) (g : MessageGroup) (trans : List (ℕ × MessageGroup)) (k : ℕ)
    → messages_at (insert_message id g trans) k
      ≡ messages_at trans k ++ (if id == k then g.messages else [])
unfolding insert_message
messages_at-insert_message id g trans k = elim (Bool-cases (id == k)) [
  | inr e ↦
      rw (find-put k id (merged_group (find id trans) g) trans, e)
        (sym (append-nil (messages_at trans k)))
  | inl e ↦
      let same : id ≡ k = ground arith in
      rw (find-put k id (merged_group (find id trans) g) trans, e)
        (merged_messages (find id trans) g ∙ ap (λ j. messages_at trans j ++ g.messages) same)
]

messages_at-insert_messages :
    (ids : List ℕ) (groups : List MessageGroup) (trans : List (ℕ × MessageGroup)) (k : ℕ)
    → messages_at (insert_messages ids groups trans) k
      ≡ messages_at trans k ++ having_id k ids groups
unfolding insert_messages
messages_at-insert_messages [] groups trans k = sym (append-nil (messages_at trans k))
messages_at-insert_messages (id ∷ ids) [] trans k = sym (append-nil (messages_at trans k))
messages_at-insert_messages (id ∷ ids) (g ∷ groups) trans k =
    messages_at-insert_messages ids groups (insert_message id g trans) k
    ∙ ap (λ ms. ms ++ having_id k ids groups) (messages_at-insert_message id g trans k)
    ∙ append_assoc (messages_at trans k) (if id == k then g.messages else [])
        (having_id k ids groups)

module _ (ask : Text → Result (List ℕ)) where
  get_min_ids-IsAnswered :
      (a : Answered)
      → IsAnswered ask a
      → (content' : TranslationContent) × (get_min_ids ask a.content ≡ ok (a.ids, content'))
  unfolding get_min_ids ask_min_ids
  get_min_ids-IsAnswered a h = elim (h.known) [
    | inl kept ↦ (a.content, rw kept refl)
    | inr (not_yet, answer) ↦
        let long : (length a.ids == length a.groups) ≡ true = ground (arith, h.as_many) in
        (
          record (a.content) { min_ids = some a.ids },
          rw not_yet (rw (answer, ◌>>=◌) (rw (h.readable, ◌>>=◌) (rw long refl))),
        )
  ]

  init_content-IsAnswered :
      (a : Answered) (trans : List (ℕ × MessageGroup))
      → IsAnswered ask a
      → (content' : TranslationContent) × (init_content ask a.content trans
          ≡ ok (content', insert_messages a.ids a.groups trans))
  unfolding init_content
  init_content-IsAnswered a trans h =
      let (content', e) = get_min_ids-IsAnswered a h in
      let long : (length a.groups == length a.ids) ≡ true = ground (arith, h.as_many) in
      (content', rw (e, ◌>>=◌) (rw (h.readable, ◌>>=◌) (rw long refl)))

  init_contents-gathers :
      (answers : List Answered) (trans : List (ℕ × MessageGroup))
      → All (IsAnswered ask) answers
      → (s : List TranslationContent × List (ℕ × MessageGroup)) × (init_contents ask
            (map content_of answers)
            trans
          ≡ ok s)
        × ((k : ℕ) → messages_at s.1 k ≡ messages_at trans k ++ gathered k answers)
  unfolding init_contents
  init_contents-gathers [] trans h =
      (([], trans), refl, λ k. sym (append-nil (messages_at trans k)))
  init_contents-gathers (a ∷ answers) trans h =
      let (content', e) = init_content-IsAnswered a trans h.0 in
      let (s, f, g) = init_contents-gathers answers (insert_messages a.ids a.groups trans) h.1 in
      (
        (content' ∷ s.0, s.1),
        rw (e, ◌>>=◌) (rw (f, ◌>>=◌) refl),
        λ k.
            g k
            ∙ ap (λ ms. ms ++ gathered k answers)
                (messages_at-insert_messages a.ids a.groups trans k)
            ∙ append_assoc (messages_at trans k) (having_id k a.ids a.groups) (gathered k answers),
      )

-- On a collector that has not been initialised, where every file can be read, and its minimized IDs are
-- known or answered, one for each message, `initTransConfl` succeeds: the collector is initialised
-- then, and the map has for each ID the messages of all files of the collector that have this ID, in
-- the order of the files and of the messages in them.
pub init_trans_confl-gathered :
    (ask : Text → Result (List ℕ)) (c : TranslationCollector) (answers : List Answered)
    → c.trans_init ≡ false
    → c.trans ≡ []
    → c.contents ≡ map content_of answers
    → All (IsAnswered ask) answers
    → (c' : TranslationCollector) × (init_trans_confl ask c ≡ ok c')
      × (c'.trans_init ≡ true)
      × ((k : ℕ) → messages_at c'.trans k ≡ gathered k answers)
unfolding init_trans_confl find
init_trans_confl-gathered ask c answers fresh none_yet e h =
    let (s, f, g) = init_contents-gathers ask answers [] h in
    (
      record { contents = s.0; trans = s.1; trans_init = true },
      rw fresh (rw (e, none_yet) (rw (f, ◌>>=◌) refl)),
      refl,
      g,
    )
