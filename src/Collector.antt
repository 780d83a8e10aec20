-- ===== src/Collector.antt =====
-- The messages of many files by their minimized IDs: gettextpo-helper/gtpo/translation-collector.cpp,
-- and `getMinIds` of translationcontent.cpp. `ask` is the request of the client for the IDs of a
-- template, `involved` that for the files that have one of the IDs.
pub mod Gathered
mod Examples
use stupid_ids.Base.{
  ℕ, zero, suc, ◌+◌, Bool, true, false, not, ◌&&◌, ◌||◌, List, [], ◌∷◌, ◌++◌, Option, none, some,
  Result, ok, err, assertion, exception, null_pointer, assert, ◌>>=◌, ◌>>◌, length, ltb, ◌==◌,
  get_elem?, if◌then◌else◌,
}
use stupid_ids.Text.{Text}
use stupid_ids.Server.{sort}
use stupid_ids.Po.{PoMessage}
use stupid_ids.Message.{Message}
use stupid_ids.Content.{
  MessageGroup, merge_message_group, read_messages, equal_translations_comments,
}
use stupid_ids.Iddiff.Map.{find, put}
use stupid_ids.Iddiff.Comments.{binary_search}

-- `min_ids` is there once it has been asked for.
pub record TranslationContent : Type 0 where
  pub display_filename : Text
  pub file : List PoMessage
  pub tp_hash : Text
  pub min_ids : Option (List ℕ)

pub record TranslationCollector : Type 0 where
  pub contents : List TranslationContent
  pub trans : List (ℕ × MessageGroup)
  pub trans_init : Bool

pub insert_po : TranslationCollector → TranslationContent → TranslationCollector
insert_po c content = record c { contents = c.contents ++ content ∷ [] }

ask_min_ids :
    (ask : Text → Result (List ℕ))
    → TranslationContent
    → Option (List ℕ)
    → Result (List ℕ × TranslationContent)
ask_min_ids ask content (some ids) = ok (ids, content)
ask_min_ids ask content none = do
  ids ← ask content.tp_hash
  messages ← read_messages content.display_filename content.file
  if length ids == length messages
      then ok (ids, record content { min_ids = some ids })
      else err exception

pub get_min_ids :
    (ask : Text → Result (List ℕ)) → TranslationContent → Result (List ℕ × TranslationContent)
get_min_ids ask content = ask_min_ids ask content content.min_ids

abbrev pub merged_group : Option MessageGroup → MessageGroup → MessageGroup
merged_group none group = group
merged_group (some g) group = merge_message_group g group

pub insert_message : ℕ → MessageGroup → List (ℕ × MessageGroup) → List (ℕ × MessageGroup)
insert_message min_id group trans = put min_id (merged_group (find min_id trans) group) trans

pub insert_messages : List ℕ → List MessageGroup → List (ℕ × MessageGroup) → List (ℕ × MessageGroup)
insert_messages [] groups trans = trans
insert_messages (id ∷ ids) [] trans = trans
insert_messages (id ∷ ids) (group ∷ groups) trans =
    insert_messages ids groups (insert_message id group trans)

init_content :
    (ask : Text → Result (List ℕ))
    → TranslationContent
    → List (ℕ × MessageGroup)
    → Result (TranslationContent × List (ℕ × MessageGroup))
init_content ask content trans = do
  answer ← get_min_ids ask content
  messages ← read_messages content.display_filename content.file
  assert (length messages == length answer.0)
  ok (answer.1, insert_messages answer.0 messages trans)

init_contents :
    (ask : Text → Result (List ℕ))
    → List TranslationContent
    → List (ℕ × MessageGroup)
    → Result (List TranslationContent × List (ℕ × MessageGroup))
init_contents ask [] trans = ok ([], trans)
init_contents ask (content ∷ contents) trans = do
  one ← init_content ask content trans
  rest ← init_contents ask contents one.1
  ok (one.0 ∷ rest.0, rest.1)

pub init_trans_confl :
    (ask : Text → Result (List ℕ)) → TranslationCollector → Result TranslationCollector
init_trans_confl ask c = if c.trans_init then ok c else (do
  s ← init_contents ask c.contents c.trans
  ok (record { contents = s.0; trans = s.1; trans_init = true }))

-- Whether one of the messages is not the same as the first.
any_differs : Message → List Message → Result Bool
any_differs msg [] = ok false
any_differs msg (m ∷ messages) = do
  same ← equal_translations_comments msg m
  elim same [ false ↦ ok true | true ↦ any_differs msg messages ]

conflicting : Option MessageGroup → Result Bool
conflicting none = err null_pointer
conflicting (some g) = elim g.messages [
  | [] ↦ err assertion
  | msg ∷ messages ↦ any_differs msg messages
]

pub conflicting_trans :
    (ask : Text → Result (List ℕ)) → TranslationCollector → ℕ → Result (Bool × TranslationCollector)
conflicting_trans ask c min_id = do
  c' ← init_trans_confl ask c
  b ← conflicting (find min_id c'.trans)
  ok (b, c')

conflicting_of : List (ℕ × MessageGroup) → Result (List ℕ)
conflicting_of [] = ok []
conflicting_of ((min_id, group) ∷ trans) = do
  b ← conflicting (some group)
  rest ← conflicting_of trans
  ok (if b then min_id ∷ rest else rest)

pub list_conflicting :
    (ask : Text → Result (List ℕ)) → TranslationCollector → Result (List ℕ × TranslationCollector)
list_conflicting ask c = do c' ← init_trans_confl ask c; ids ← conflicting_of c'.trans; ok (ids, c')

variants_of : Option MessageGroup → Result MessageGroup
variants_of none = err assertion
variants_of (some g) = ok g

pub list_variants :
    (ask : Text → Result (List ℕ))
    → TranslationCollector
    → ℕ
    → Result (MessageGroup × TranslationCollector)
list_variants ask c min_id = do
  c' ← init_trans_confl ask c
  g ← variants_of (find min_id c'.trans)
  ok (g, c')

tp_hashes_of : List TranslationContent → List Text
tp_hashes_of [] = []
tp_hashes_of (content ∷ contents) = content.tp_hash ∷ tp_hashes_of contents

in_contents : Option TranslationContent → Result TranslationContent
in_contents none = err assertion
in_contents (some content) = ok content

contents_at : List TranslationContent → List ℕ → Result (List TranslationContent)
contents_at contents [] = ok []
contents_at contents (i ∷ indices) = do
  content ← in_contents (get_elem? contents i)
  rest ← contents_at contents indices
  ok (content ∷ rest)

pub involved_by_min_ids :
    (involved : List Text → List ℕ → Result (List ℕ))
    → TranslationCollector
    → List ℕ
    → Result (List TranslationContent)
involved_by_min_ids involved c ids = do
  indices ← involved (tp_hashes_of c.contents) ids
  contents_at c.contents indices
