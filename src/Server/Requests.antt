-- ===== src/Server/Requests.antt =====
-- The commands of stupids-server/server.cpp as one protocol: what a request is, and what is sent.
use mathlib.Core.List.{append-nil, append_assoc}
use stupid_ids.Base.{
  ℕ, ◌*◌, ◌<◌, ◌≡◌, ◌≢◌, false, List, [], ◌++◌, map, length, refl, ◌∙◌, ap, arith, ok,
}
use stupid_ids.IdMap.{MappedFile, get_plain_min_id}
use stupid_ids.Net.Words.{Bytes, word, encode_word, encode_words, AreWords}
use stupid_ids.Net.Session.{Session, Arrival, returned, flush_to_client}
use stupid_ids.Net.Runs.{Runs, IsSteady, Runs->>=, Runs-send}
use stupid_ids.Server.Command
use stupid_ids.Server.{
  oid_size, handle_get_min_id_array, handle_get_min_ids, handle_get_first_id_multi,
  handle_involved_by_min_ids, send_long_array, handler, run_command, after_command, command_handler,
  after_handler, is_known,
}
use stupid_ids.Server.Replies.{
  Runs-recv_long, Runs-recv_oid, Runs-recv_long_vector, Runs-send_long_vector, Runs-read, AreOids,
  concat, template_ids, involved, AreKnown, get_tphash_min_ids-eq, get_min_ids-eq,
  involved_indices-eq, Runs-recv_oids, first_id_reply, first_id_replies, Runs-first_id,
  Runs-first_ids_loop,
}

pub data Request : Type 0 where
  min_id_array first_id : Bytes → Request
  first_id_multi : List Bytes → Request
  min_ids : List ℕ → Request
  involved_by_min_ids : List Bytes → List ℕ → Request

abbrev pub code : Request → ℕ
code (min_id_array tp_hash) = Command.get_min_id_array
code (first_id tp_hash) = Command.get_first_id
code (first_id_multi tp_hashes) = Command.get_first_id_multi
code (min_ids ids) = Command.get_min_ids
code (involved_by_min_ids tp_hashes ids) = Command.involved_by_min_ids

abbrev pub vector_bytes : List ℕ → Bytes
vector_bytes ns = encode_word (length ns) ++ encode_words ns

-- What follows the command code on the wire.
abbrev pub arguments : Request → Bytes
arguments (min_id_array tp_hash) = tp_hash
arguments (first_id tp_hash) = tp_hash
arguments (first_id_multi tp_hashes) = encode_word (length tp_hashes) ++ concat tp_hashes
arguments (min_ids ids) = vector_bytes ids
arguments (involved_by_min_ids tp_hashes ids) =
    encode_word (length tp_hashes) ++ (concat tp_hashes ++ vector_bytes ids)

abbrev pub IsVector : List ℕ → Type 0
IsVector ns = AreWords ns × (length ns * 4 < word)

-- The flush of an open session: a zero word, then what was prepared.
flush_lem :
    (s : Session)
    → s.close_connection ≡ false
    → flush_to_client s ≡ (
      returned tt,
      record s { sent = s.sent ++ (encode_word 0 ++ s.output_buffer); output_buffer = [] },
    )
unfolding flush_to_client
flush_lem s c = rw c (rw (append_assoc s.sent (encode_word 0) s.output_buffer))

code-lt : (r : Request) → code r < word
code-lt (min_id_array tp_hash) = omega arith
code-lt (first_id tp_hash) = omega arith
code-lt (first_id_multi tp_hashes) = omega arith
code-lt (min_ids ids) = omega arith
code-lt (involved_by_min_ids tp_hashes ids) = omega arith

module _ (db : Bytes → ℕ × ℕ) (plain : ℕ → ℕ) where
  -- Hashes of the right size, words of 32 bits, and where IDs are asked for a known template.
  abbrev pub IsAnswerable : Request → Type 0
  IsAnswerable (min_id_array tp_hash) = (length tp_hash ≡ oid_size) × ((db tp_hash).0 ≢ 0)
  IsAnswerable (first_id tp_hash) = length tp_hash ≡ oid_size
  IsAnswerable (first_id_multi tp_hashes) = AreOids tp_hashes × (length tp_hashes < word)
  IsAnswerable (min_ids ids) = IsVector ids
  IsAnswerable (involved_by_min_ids tp_hashes ids) =
      AreOids tp_hashes × (length tp_hashes < word) × AreKnown db tp_hashes × IsVector ids

  abbrev pub reply : Request → Bytes
  reply (min_id_array tp_hash) = vector_bytes (template_ids db plain tp_hash)
  reply (first_id tp_hash) = first_id_reply db tp_hash
  reply (first_id_multi tp_hashes) = first_id_replies db tp_hashes
  reply (min_ids ids) = encode_words (map plain ids)
  reply (involved_by_min_ids tp_hashes ids) = vector_bytes (involved db plain ids 0 tp_hashes)

module _ (db : Bytes → ℕ × ℕ) (file : MappedFile) (plain : ℕ → ℕ)
    (looked_up : (i : ℕ) → get_plain_min_id file i ≡ ok (plain i)) where
  Runs-min_id_array :
      (tp_hash : Bytes)
      → IsAnswerable db plain (min_id_array tp_hash)
      → Runs (handle_get_min_id_array db file) tp_hash tt (reply db plain (min_id_array tp_hash))
  unfolding handle_get_min_id_array
  Runs-min_id_array tp_hash (h, k) =
      Runs-read _ _ tp_hash tp_hash tt _ (Runs-recv_oid tp_hash h)
        (rw (get_tphash_min_ids-eq db file plain looked_up tp_hash k) (Runs-send_long_vector _))

  Runs-min_ids :
      (ids : List ℕ)
      → IsVector ids
      → Runs (handle_get_min_ids db file) (vector_bytes ids) tt (encode_words (map plain ids))
  unfolding handle_get_min_ids send_long_array
  Runs-min_ids ids (h, k) =
      Runs-read _ _ _ ids tt _ (Runs-recv_long_vector ids h k)
        (rw (get_min_ids-eq db file plain looked_up ids) (Runs-send _))

  Runs-first_id_multi :
      (tp_hashes : List Bytes)
      → IsAnswerable db plain (first_id_multi tp_hashes)
      → Runs
          (handle_get_first_id_multi db file)
          (arguments (first_id_multi tp_hashes))
          tt
          (reply db plain (first_id_multi tp_hashes))
  unfolding handle_get_first_id_multi
  Runs-first_id_multi tp_hashes (h, k) =
      Runs->>= _ _ _ _ (length tp_hashes) tt [] _ (Runs-recv_long _ k)
        (Runs-first_ids_loop db file plain looked_up tp_hashes h)

  Runs-involved :
      (tp_hashes : List Bytes) (ids : List ℕ)
      → IsAnswerable db plain (involved_by_min_ids tp_hashes ids)
      → Runs
          (handle_involved_by_min_ids db file)
          (arguments (involved_by_min_ids tp_hashes ids))
          tt
          (reply db plain (involved_by_min_ids tp_hashes ids))
  unfolding handle_involved_by_min_ids
  Runs-involved tp_hashes ids (h, k, l, v) =
      Runs->>= _ _ _ _ (length tp_hashes) tt [] _ (Runs-recv_long _ k) (
        Runs->>= _ _ _ _ tp_hashes tt [] _ (Runs-recv_oids db file plain looked_up tp_hashes h) (
          Runs-read _ _ _ ids tt _ (Runs-recv_long_vector ids v.0 v.1) (
            rw
              (
                get_min_ids-eq db file plain looked_up ids,
                involved_indices-eq db file plain looked_up ids 0 tp_hashes l,
              )
              (Runs-send_long_vector _))))

  handler-Runs :
      (r : Request)
      → IsAnswerable db plain r
      → Runs (handler db file (code r)) (arguments r) tt (reply db plain r)
  unfolding handler
  handler-Runs (min_id_array tp_hash) h = Runs-min_id_array tp_hash h
  handler-Runs (first_id tp_hash) h = Runs-first_id db file plain looked_up tp_hash h
  handler-Runs (first_id_multi tp_hashes) h = Runs-first_id_multi tp_hashes h
  handler-Runs (min_ids ids) h = Runs-min_ids ids h
  handler-Runs (involved_by_min_ids tp_hashes ids) h = Runs-involved tp_hashes ids h

  run_command-code :
      (r : Request) (s : Session)
      → run_command db file (code r) s ≡ after_handler db file (handler db file (code r) s)
  unfolding run_command is_known
  run_command-code (min_id_array tp_hash) s = refl
  run_command-code (first_id tp_hash) s = refl
  run_command-code (first_id_multi tp_hashes) s = refl
  run_command-code (min_ids ids) s = refl
  run_command-code (involved_by_min_ids tp_hashes ids) s = refl

  -- One call of `commandHandler` on an open session, with nothing prepared, whose input begins
  -- with an answerable request reads exactly that request, in whatever segments it arrives, sends
  -- the code 0 and the reply that the protocol has for it, and leaves the session open. No call of
  -- `recvfrom` fails; answerable are hashes of the right size, vectors whose size in bytes fits 32
  -- bits, and known templates where IDs are asked for; `plain` is what a lookup in the file gives.
  pub command_handler-reply :
      (r : Request) (s : Session) (rest : Bytes)
      → IsAnswerable db plain r
      → s.close_connection ≡ false
      → s.output_buffer ≡ []
      → IsSteady s.socket.schedule
      → s.socket.input ≡ encode_word (code r) ++ (arguments r ++ rest)
      → (later : List Arrival) × IsSteady later
        × (command_handler db file s ≡ (
          returned tt,
          record {
            socket = record { input = rest; schedule = later };
            close_connection = false;
            output_buffer = [];
            sent = s.sent ++ (encode_word 0 ++ reply db plain r);
          },
        ))
  unfolding command_handler after_command after_handler
  command_handler-reply r s rest h c o t e =
      let (later, u, p) = Runs-recv_long (code r) (code-lt r) s (arguments r ++ rest) c t e in
      let after : Session = record s {
        socket = record { input = arguments r ++ rest; schedule = later };
        output_buffer = s.output_buffer ++ [];
      } in
      let (last, v, q) = handler-Runs r h after rest c u refl in
      let out : s.output_buffer ++ [] ++ reply db plain r ≡ reply db plain r =
        rw (append-nil s.output_buffer) (ap (λ b. b ++ reply db plain r) o) in
      (
        last,
        v,
        rw (p, run_command-code, q)
            (flush_lem _ c ∙ λ i. (
              returned tt,
              record {
                socket = record { input = rest; schedule = last };
                close_connection = c i;
                output_buffer = [];
                sent = s.sent ++ (encode_word 0 ++ out i);
              },
            )),
      )
