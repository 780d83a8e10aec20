-- ===== src/Client/Answers.antt =====
-- The client of gettextpo-helper/gtpo/stupids-client.cpp and the server of stupids-server/server.cpp
-- at the two ends of one connection.
pub mod Parts
pub use Parts.{AreHashes}
use mathlib.Core.List.{append-nil, append_assoc}
use stupid_ids.Base.{
  Bool-cases, inl, inr, ℕ, zero, suc, ◌+◌, ◌<◌, ◌≤◌, ◌≡◌, true, false, not, ◌||◌, ◌&&◌, List, [],
  ◌∷◌, ◌++◌, All, map, length, length-map, refl, sym, ◌∙◌, ap, subst, arith, ok, some,
}
use stupid_ids.IdMap.{MappedFile, get_plain_min_id}
use stupid_ids.Net.Words.{Bytes, word, encode_word, AreWords}
use stupid_ids.Net.Session.{Arrival}
use stupid_ids.Net.Runs.{IsSteady}
use stupid_ids.Server.Command
use stupid_ids.Server.Involved.{common}
use stupid_ids.Server.{command_handler}
use stupid_ids.Server.Replies.{
  concat, template_ids, consecutive, involved, first_id_reply, first_id_replies,
}
use stupid_ids.Server.Requests
use stupid_ids.Server.Requests.{
  Request, IsAnswerable, IsVector, code, arguments, reply, vector_bytes, command_handler-reply,
}
use stupid_ids.Client.{
  StupidsClient, C, ◌>>>◌, give, connect, send_long, is_null_oid, send_oids, check_recv_error_code,
  get_template_min_ids, get_min_ids, get_first_id_pair, get_first_id_pairs, involved_by_min_ids,
  recv_pair, recv_pairs,
}
use stupid_ids.Client.Exchange.{
  Writes, Sends, Sends-connect, Sends->>>, Writes->>>, Writes-long, Writes-long_vector, Writes-oid,
  Reads, Reads->>>=, Reads-end, Reads-give, Reads-long, Reads-array, Reads-vector, exchange,
}
use stupid_ids.Client.Answers.Parts.{
  consecutive-AreWords, length-consecutive, map-AreWords, Writes-oids, brackets, Sends-command,
  involved-AreWords, Reads-pair, Reads-pairs,
}

-- A client that has asked nothing yet; no call of `write` or `read` will fail or fall short of its
-- block.
pub record IsFresh (c : StupidsClient) : Type 0 where
  pub can_connect : c.connected || c.reachable ≡ true
  pub nothing_written : c.written ≡ []
  pub whole_writes : c.writes ≡ []
  pub nothing_read : c.consumed ≡ 0
  pub steady : IsSteady c.arrivals

-- What is known of the service and of the file.
pub record AreStored (db : Bytes → ℕ × ℕ) (file : MappedFile) (plain : ℕ → ℕ) : Type 0 where
  pub looked_up : (i : ℕ) → get_plain_min_id file i ≡ ok (plain i)
  pub small_plain : (i : ℕ) → i < word → plain i < word
  pub small_first : (tp_hash : Bytes) → (db tp_hash).0 + (db tp_hash).1 < word
  pub small_count : (tp_hash : Bytes) → (db tp_hash).1 < 2147483648

-- All that the server has sent once the bytes have come, in the given pieces.
abbrev pub serve : (Bytes → ℕ × ℕ) → MappedFile → List Arrival → Bytes → Bytes
serve db file pieces bytes =
    (command_handler db file (record {
      socket = record { input = bytes; schedule = pieces };
      close_connection = false;
      output_buffer = [];
      sent = [];
    })).1.sent

module _ (db : Bytes → ℕ × ℕ) (file : MappedFile) (plain : ℕ → ℕ) (stored : AreStored db file plain)
    (pieces : List Arrival) (arriving : IsSteady pieces) where
  serve-reply :
      (r : Request)
      → IsAnswerable db plain r
      → serve db file pieces (encode_word (code r) ++ arguments r)
        ≡ encode_word 0 ++ reply db plain r
  serve-reply r h =
      let (later, u, e) =
        command_handler-reply db file plain stored.looked_up r _ [] h refl refl arriving
          (rw (append-nil (arguments r))) in
      ap (λ result. result.1.sent) e

  ask {ℓ} :
      {A : Type ℓ} (r : Request) (m : C (Unit {0})) (f : C A) (a : A)
      → IsAnswerable db plain r
      → Sends m (encode_word (code r) ++ arguments r)
      → Reads (serve db file pieces) f (reply db plain r) a
      → (c : StupidsClient) → IsFresh c
      → (after : StupidsClient) × ((m >>> check_recv_error_code (serve db file pieces) >>> f) c
          ≡ ok (a, after))
  ask r m f a h p q c fresh =
      exchange (serve db file pieces) m f _ (reply db plain r) [] a p q c fresh.can_connect
        fresh.whole_writes fresh.steady
        (rw (fresh.nothing_read, fresh.nothing_written, append-nil (reply db plain r))
          (serve-reply r h))

  -- A fresh client that asks `getMinIds` of the server for a list of 32-bit IDs, of which four times
  -- the number has 32 bits, gets the plain ID of each, in order, in whatever pieces the bytes of both
  -- sides arrive. What is stored has the sizes of AreStored.
  pub get_min_ids_answered :
      (ids : List ℕ) (c : StupidsClient)
      → IsVector ids
      → IsFresh c
      → (after : StupidsClient) × (get_min_ids (serve db file pieces) ids c
          ≡ ok (map plain ids, after))
  unfolding get_min_ids
  get_min_ids_answered ids c v fresh =
      ask (Requests.min_ids ids) _ _ (map plain ids) v
        (Sends->>> _ _ _ _ (Sends-command Command.get_min_ids) (Writes-long_vector ids))
        (Reads-array (serve db file pieces) (map plain ids) (length ids) (length-map plain ids)
          (map-AreWords plain stored.small_plain ids v.0))
        c fresh

  -- A fresh client that asks `getMinIds` for a known template with a hash of the right size that is not
  -- null gets the plain IDs of its messages, in whatever pieces the bytes arrive. What is stored has
  -- the sizes of AreStored,
  -- and no call of `write` or `read` fails or falls short of its block.
  pub get_template_min_ids_answered :
      (tp_hash : Bytes) (c : StupidsClient)
      → IsAnswerable db plain (Requests.min_id_array tp_hash)
      → is_null_oid tp_hash ≡ false
      → IsFresh c
      → (after : StupidsClient) × (get_template_min_ids (serve db file pieces) tp_hash c
          ≡ ok (template_ids db plain tp_hash, after))
  unfolding get_template_min_ids
  get_template_min_ids_answered tp_hash c h nonnull fresh = rw nonnull (
      ask (Requests.min_id_array tp_hash) _ _ (template_ids db plain tp_hash) h
        (Sends->>> _ _ _ _ (Sends-command Command.get_min_id_array) (Writes-oid tp_hash nonnull))
        (Reads-vector (serve db file pieces) (template_ids db plain tp_hash)
          (consecutive-AreWords plain stored.small_plain (db tp_hash).1 (db tp_hash).0
            (stored.small_first tp_hash))
          (omega (
            arith,
            length-consecutive plain (db tp_hash).1 (db tp_hash).0,
            stored.small_count tp_hash,
          )))
        c fresh)

  -- A fresh client that asks `getFirstIdPairs` for fewer than 2^32 hashes of the right size, none null,
  -- gets what the service says of each, in order. What is stored has the sizes of AreStored,
  -- and no call of `write` or `read` fails or falls short of its block.
  pub get_first_id_pairs_answered :
      (tp_hashes : List Bytes) (c : StupidsClient)
      → IsAnswerable db plain (Requests.first_id_multi tp_hashes)
      → AreHashes tp_hashes
      → IsFresh c
      → (after : StupidsClient) × (get_first_id_pairs (serve db file pieces) tp_hashes c
          ≡ ok (map db tp_hashes, after))
  unfolding get_first_id_pairs
  get_first_id_pairs_answered tp_hashes c h nonnull fresh =
      let can : not c.connected && not c.reachable ≡ false = ground (arith, fresh.can_connect) in
      let (after, e) =
        ask (Requests.first_id_multi tp_hashes) _ _ (map db tp_hashes) h
          (subst (Sends _)
            (append_assoc (encode_word Command.get_first_id_multi) (encode_word (length tp_hashes))
              (concat tp_hashes))
            (Sends->>> _ _ _ _
              (Sends->>> _ _ _ _ (Sends-command Command.get_first_id_multi)
                (Writes-long (length tp_hashes)))
              (Writes-oids tp_hashes nonnull)))
          (Reads-pairs (serve db file pieces) db
            (λ t. (omega (arith, stored.small_first t), omega (arith, stored.small_count t)))
            tp_hashes (length tp_hashes) refl)
          c fresh in
      (after, rw can e)

  -- A fresh client that asks `involvedByMinIds` gets the indices of exactly the templates that share a
  -- plain ID with the IDs. The templates are known, fewer than 2^31, with hashes of the right size
  -- that are not null; the IDs are as for `getMinIds`, and what is stored has the sizes of AreStored,
  -- and no call of `write` or `read` fails or falls short of its block.
  pub involved_by_min_ids_answered :
      (tp_hashes : List Bytes) (ids : List ℕ) (c : StupidsClient)
      → IsAnswerable db plain (Requests.involved_by_min_ids tp_hashes ids)
      → AreHashes tp_hashes
      → length tp_hashes < 2147483648
      → IsFresh c
      → (after : StupidsClient) × (involved_by_min_ids (serve db file pieces) tp_hashes ids c
          ≡ ok (involved db plain ids 0 tp_hashes, after))
  unfolding involved_by_min_ids
  involved_by_min_ids_answered tp_hashes ids c h nonnull small fresh =
      let (words, few) = involved-AreWords db plain ids 0 tp_hashes (omega arith) in
      ask (Requests.involved_by_min_ids tp_hashes ids) _ _ (involved db plain ids 0 tp_hashes) h
        (subst (Sends _)
          (brackets (encode_word Command.involved_by_min_ids) (encode_word (length tp_hashes))
            (concat tp_hashes) (vector_bytes ids))
          (Sends->>> _ _ _ _
            (Sends->>> _ _ _ _
              (Sends->>> _ _ _ _ (Sends-command Command.involved_by_min_ids)
                (Writes-long (length tp_hashes)))
              (Writes-oids tp_hashes nonnull))
            (Writes-long_vector ids)))
        (Reads-vector (serve db file pieces) (involved db plain ids 0 tp_hashes) words
          (omega (arith, few)))
        c fresh

  -- A fresh client that asks `getFirstIdPair` for a hash of the right size that is not null gets what the
  -- service says of it. What is stored has the sizes of AreStored.
  pub get_first_id_pair_answered :
      (tp_hash : Bytes) (c : StupidsClient)
      → IsAnswerable db plain (Requests.first_id tp_hash)
      → is_null_oid tp_hash ≡ false
      → IsFresh c
      → (after : StupidsClient) × (get_first_id_pair (serve db file pieces) tp_hash c
          ≡ ok (some (db tp_hash), after))
  unfolding get_first_id_pair
  get_first_id_pair_answered tp_hash c h nonnull fresh =
      let can : not c.connected && not c.reachable ≡ false = ground (arith, fresh.can_connect) in
      let (after, e) =
        ask (Requests.first_id tp_hash) _ _ (some (db tp_hash)) h
          (Sends->>> _ _ _ _ (Sends-command Command.get_first_id) (Writes-oid tp_hash nonnull))
          (Reads-end (serve db file pieces) (recv_pair (serve db file pieces))
            (λ pair. give (some pair)) _ (db tp_hash) (some (db tp_hash))
            (Reads-pair (serve db file pieces) db
              (λ t. (omega (arith, stored.small_first t), omega (arith, stored.small_count t)))
              tp_hash)
            refl)
          c fresh in
      (after, rw (nonnull, can) e)
