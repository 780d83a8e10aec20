-- ===== src/Server.antt =====
-- The server of message IDs: stupids-server/server.cpp. `db` stands for the HTTP service behind
-- `StupidsDatabase::getFirstId`: first ID and number of IDs of a template, (0, _) if unknown.

pub mod Command
pub mod Involved
pub mod Replies
pub mod Requests
pub mod Errors
mod Examples
use stupid_ids.Base.{
  ℕ, zero, suc, ◌+◌, ◌*◌, ◌%◌, Bool, true, false, List, [], ◌∷◌, ◌++◌, Error, uninitialised, length,
  ltb, leb, ◌==◌, if◌then◌else◌, ◌&&◌, not,
}
use stupid_ids.IdMap.{MappedFile, get_plain_min_id}
use stupid_ids.Net.Words.{Bytes, word, encode_word, encode_words, decode_word, decode_words}
use stupid_ids.Net.Session.{
  Session, Outcome, returned, thrown, aborted, M, pure, ◌>>=◌, ◌>>◌, lift, throw, send_to_client,
  recv_from_client, disconnect, flush_to_client, flush_error_to_client,
}

-- GIT_OID_RAWSZ
abbrev pub oid_size : ℕ
oid_size = 20

pub recv_long : M ℕ
recv_long = do bytes ← recv_from_client 4; pure (decode_word bytes)

pub recv_oid : M Bytes
recv_oid = recv_from_client oid_size

-- `count * 4` is a 32-bit product. Where it wraps, the words past it were never received.
pub recv_long_vector : M (List ℕ)
recv_long_vector = do
  count ← recv_long
  arr ← recv_from_client (count * 4 % word)
  if ltb (length arr) (count * 4)
      then (λ s. (aborted uninitialised, s))
      else pure (decode_words count arr)

pub send_long : ℕ → M (Unit {0})
send_long n = send_to_client (encode_word n)

pub send_long_array : List ℕ → M (Unit {0})
send_long_array ns = send_to_client (encode_words ns)

pub send_long_vector : List ℕ → M (Unit {0})
send_long_vector ns = do send_long (length ns); send_long_array ns

-- `std::sort`, and `std::set_intersection` as far as it is asked for: is anything in common?
insert : ℕ → List ℕ → List ℕ
insert n [] = n ∷ []
insert n (m ∷ ms) = if leb n m then n ∷ m ∷ ms else m ∷ insert n ms

unfoldable pub sort : List ℕ → List ℕ
unfolding insert
sort [] = []
sort (n ∷ ns) = insert n (sort ns)

pub set_intersection : List ℕ → List ℕ → List ℕ
set_intersection [] ys = []
set_intersection (x ∷ xs) [] = []
set_intersection (x ∷ xs) (y ∷ ys) = elim (ltb x y) [
  | true ↦ set_intersection xs (y ∷ ys)
  | false ↦ elim (ltb y x) [
    | true ↦ set_intersection (x ∷ xs) ys
    | false ↦ x ∷ set_intersection xs ys
  ]
]

abbrev pub is_empty {ℓ} : {A : Type ℓ} → List A → Bool
is_empty [] = true
is_empty (x ∷ xs) = false

module _ (db : Bytes → ℕ × ℕ) (file : MappedFile) where
  -- `for (i = 0; i < id_count; ++i) res[i] = getPlainMinId(first_id + i);`
  pub plain_min_ids : (id_count first_id : ℕ) → M (List ℕ)
  plain_min_ids zero first_id = pure []
  plain_min_ids (suc id_count) first_id = do
    first ← lift (get_plain_min_id file first_id)
    rest ← plain_min_ids id_count (first_id + 1)
    pure (first ∷ rest)

  pub get_tphash_min_ids : Bytes → M (List ℕ)
  get_tphash_min_ids tp_hash =
      let first_ids = db tp_hash in
      if first_ids.0 == 0 then throw else plain_min_ids first_ids.1 first_ids.0

  pub get_min_ids : List ℕ → M (List ℕ)
  get_min_ids [] = pure []
  get_min_ids (id ∷ ids) = do
    first ← lift (get_plain_min_id file id)
    rest ← get_min_ids ids
    pure (first ∷ rest)

  pub handle_get_min_id_array : M (Unit {0})
  handle_get_min_id_array = do
    tp_hash ← recv_oid
    min_ids ← get_tphash_min_ids tp_hash
    send_long_vector min_ids

  pub handle_get_min_ids : M (Unit {0})
  handle_get_min_ids = do ids ← recv_long_vector; min_ids ← get_min_ids ids; send_long_array min_ids

  pub handle_get_first_id : M (Unit {0})
  handle_get_first_id = do tp_hash ← recv_oid; send_long (db tp_hash).0; send_long (db tp_hash).1

  -- The loop of `handleGetFirstIdMulti`.
  pub first_ids_loop : ℕ → M (Unit {0})
  first_ids_loop zero = pure tt
  first_ids_loop (suc count) = do handle_get_first_id; first_ids_loop count

  pub handle_get_first_id_multi : M (Unit {0})
  handle_get_first_id_multi = do count ← recv_long; first_ids_loop count

  pub recv_oids : ℕ → M (List Bytes)
  recv_oids zero = pure []
  recv_oids (suc count) = do tp_hash ← recv_oid; rest ← recv_oids count; pure (tp_hash ∷ rest)

  -- The indices, from `i` on, of the templates that share an ID with the sorted `min_ids`.
  pub involved_indices : ℕ → List ℕ → List Bytes → M (List ℕ)
  involved_indices i min_ids [] = pure []
  involved_indices i min_ids (tp_hash ∷ tp_hashes) = do
    c_ids ← get_tphash_min_ids tp_hash
    rest ← involved_indices (i + 1) min_ids tp_hashes
    pure (if is_empty (set_intersection min_ids (sort c_ids)) then rest else i ∷ rest)

  pub handle_involved_by_min_ids : M (Unit {0})
  handle_involved_by_min_ids = do
    tp_hash_count ← recv_long
    tp_hashes ← recv_oids tp_hash_count
    ids ← recv_long_vector
    min_ids ← get_min_ids ids
    res ← involved_indices 0 (sort min_ids) tp_hashes
    send_long_vector res

  -- The `else if` chain; `none` is an unknown command.
  pub handler : ℕ → M (Unit {0})
  handler command =
      if command == Command.get_min_id_array
      then handle_get_min_id_array
      else if command == Command.get_first_id
      then handle_get_first_id
      else if command == Command.get_first_id_multi
      then handle_get_first_id_multi
      else if command == Command.get_min_ids
      then handle_get_min_ids
      else handle_involved_by_min_ids

  is_known : ℕ → Bool
  is_known command = leb Command.get_min_id_array command && leb command Command.involved_by_min_ids

  refuse : ℕ → M (Unit {0})
  refuse code = do flush_error_to_client code; disconnect

  -- The second `try` block: exceptions are answered with code 2.
  pub after_handler : Outcome (Unit {0}) × Session → Outcome (Unit {0}) × Session
  after_handler (returned a, s) = flush_to_client s
  after_handler (thrown, s) = refuse 2 s
  after_handler (aborted e, s) = (aborted e, s)

  pub run_command : ℕ → M (Unit {0})
  run_command command =
      if command == Command.exit
      then (do flush_to_client; disconnect)
      else if is_known command
      then (λ s. after_handler (handler command s))
      else refuse 1

  -- The first `try` block: a client that has gone ends the session.
  pub after_command : Outcome ℕ × Session → Outcome (Unit {0}) × Session
  after_command (returned command, s) = run_command command s
  after_command (thrown, s) = disconnect s
  after_command (aborted e, s) = (aborted e, s)

  pub command_handler : M (Unit {0})
  command_handler s = after_command (recv_long s)
