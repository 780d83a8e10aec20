-- ===== src/Client.antt =====
-- gettextpo-helper/gtpo/stupids-client.cpp: the client of the server of message IDs. `peer` stands
-- for the other end of the socket: all that it has sent once it has got the bytes written so far.
pub mod Exchange
pub mod Answers
pub mod Partial
mod Examples
use stupid_ids.Base.{
  ℕ, zero, suc, ◌+◌, ◌-◌, ◌*◌, ◌<◌, ◌≡◌, Bool, true, false, not, List, [], ◌∷◌, ◌++◌, Acc, min,
  length, take, drop, arith, Result, ok, err, assertion, exception, assert, ltb, ◌==◌,
  if◌then◌else◌, dite, dec_lt, lt_wf, ◌>>=◌, ◌>>◌, ◌&&◌, Option, none, some,
}
use stupid_ids.Text.{text_eq}
use stupid_ids.Net.Words.{Bytes, encode_word, encode_words, decode_word, decode_words}
use stupid_ids.Net.Session.{Arrival, Socket, Received, received, ended, failed, recv_loop}
use stupid_ids.Server.Command
use stupid_ids.Server.{oid_size}

-- `m_sockfd >= 0`, and the connection. `reachable`: whether a call of `connect` succeeds.
-- `writes` tells how many bytes each call of `write` takes at most, less one.
pub record StupidsClient : Type 0 where
  pub connected : Bool
  pub reachable : Bool
  pub written : Bytes
  pub writes : List ℕ
  pub consumed : ℕ
  pub arrivals : List Arrival

abbrev pub C {ℓ} : Type ℓ → Type ℓ
C A = StupidsClient → Result (A × StupidsClient)

module _ {ℓ κ} {A : Type ℓ} {B : Type κ} where
  abbrev and_then : Result (A × StupidsClient) → (A → C B) → Result (B × StupidsClient)
  and_then (err reason) next = err reason
  and_then (ok (value, c)) next = next value c

  infixl 5 ◌>>>=◌
  abbrev pub ◌>>>=◌ : C A → (A → C B) → C B
  ◌>>>=◌ first next c = and_then (first c) next

module _ {κ} {B : Type κ} where
  infixl 5 ◌>>>◌
  abbrev pub ◌>>>◌ : C (Unit {0}) → C B → C B
  first >>> second = first >>>= λ done. second

  abbrev pub give : B → C B
  give value c = ok (value, c)

abbrev pub ensure : Bool → C (Unit {0})
ensure false c = err assertion
ensure true c = ok (tt, c)

-- The exception is ExceptionConnectionFailed.
pub connect : C (Unit {0})
connect c =
    if c.connected
    then ok (tt, c)
    else if c.reachable
    then ok (tt, record c { connected = true })
    else err exception

pub data Write : Type 0 where
  took : ℕ → StupidsClient → Write

-- The system call: at least one byte is taken.
pub write : Bytes → StupidsClient → Write
write bytes c = elim c.writes [
  | [] ↦ took (length bytes) (record c { written = c.written ++ bytes })
  | k ∷ later ↦
      took (min (length bytes) (suc k)) (record c {
        written = c.written ++ take (min (length bytes) (suc k)) bytes;
        writes = later;
      })
]

-- The loop of `sendToServer`, from `written` bytes on; `needed` is `len - written`. Every call of
-- `write` begins at the start of `data`.
pub send_loop :
    (data_ : Bytes) (written needed : ℕ) → Acc ◌<◌ needed → StupidsClient → Result StupidsClient
send_loop data_ written needed (Acc.intro _ smaller) c =
    dite (dec_lt 0 needed)
      (λ more. elim (write data_ c) [
        | took n next ↦
            dite (dec_lt (needed - n) needed)
              (λ h. send_loop data_ (written + n) (needed - n) (smaller _ h) next)
              (λ _. err assertion)
      ])
      (λ _. assert (written == length data_) >> ok c)

pub sent_whole : Result StupidsClient → Result (Unit {0} × StupidsClient)
sent_whole (err reason) = err reason
sent_whole (ok c) = ok (tt, c)

pub send_to_server : Bytes → C (Unit {0})
send_to_server data_ c =
    if not c.connected
    then err exception
    else sent_whole (send_loop data_ 0 (length data_) (lt_wf.apply (length data_)) c)

pub send_long : ℕ → C (Unit {0})
send_long n = send_to_server (encode_word n)

abbrev pub zeros : ℕ → Bytes
zeros zero = []
zeros (suc n) = 0 ∷ zeros n

-- GitOid::isNull
unfoldable pub is_null_oid : Bytes → Bool
is_null_oid oid = text_eq oid (zeros oid_size)

pub send_oid : Bytes → C (Unit {0})
send_oid oid = ensure (not (is_null_oid oid)) >>> send_to_server oid

pub send_long_vector : List ℕ → C (Unit {0})
send_long_vector ns = send_long (length ns) >>> send_to_server (encode_words ns)

pub send_oids : List Bytes → C (Unit {0})
send_oids [] = give tt
send_oids (oid ∷ oids) = send_oid oid >>> send_oids oids

module _ (peer : Bytes → Bytes) where
  arrived : ℕ → StupidsClient → Received × Socket → Result (Bytes × StupidsClient)
  arrived len c (received bytes, socket) =
      ok (bytes, record c { consumed = c.consumed + len; arrivals = socket.schedule })
  arrived len c (ended, socket) = err assertion
  arrived len c (failed, socket) = err assertion

  -- The loop is the one of the server; here the end of the input fails an assert.
  pub recv_from_server : ℕ → C Bytes
  recv_from_server len c =
      if not c.connected
      then err exception
      else arrived len c (
          recv_loop len (lt_wf.apply len)
            (record { input = drop c.consumed (peer c.written); schedule = c.arrivals }))

  pub recv_long : C ℕ
  recv_long = recv_from_server 4 >>>= λ bytes. give (decode_word bytes)

  pub recv_long_array : ℕ → C (List ℕ)
  recv_long_array count = recv_from_server (4 * count) >>>= λ bytes. give (decode_words count bytes)

  -- `(int)recvLong()` must not be negative.
  pub recv_long_vector : C (List ℕ)
  recv_long_vector = recv_long >>>= λ count. ensure (ltb count 2147483648) >>> recv_long_array count

  -- The exception is ExceptionRequestFailed.
  pub check_recv_error_code : C (Unit {0})
  check_recv_error_code =
      recv_long >>>= λ code. λ c. if not (code == 0) then err exception else ok (tt, c)

  pub disconnect : C (Unit {0})
  disconnect = send_long Command.exit >>> λ c. ok (tt, record c { connected = false })

  pub get_template_min_ids : Bytes → C (List ℕ)
  get_template_min_ids tp_hash =
      ensure (not (is_null_oid tp_hash))
      >>> connect
      >>> send_long Command.get_min_id_array
      >>> send_oid tp_hash
      >>> check_recv_error_code
      >>> recv_long_vector

  pub get_min_ids : List ℕ → C (List ℕ)
  get_min_ids msg_ids =
      connect
      >>> send_long Command.get_min_ids
      >>> send_long_vector msg_ids
      >>> check_recv_error_code
      >>> recv_long_array (length msg_ids)

  pub recv_pair : C (ℕ × ℕ)
  recv_pair = recv_long >>>= λ first_id. recv_long >>>= λ id_count. give (first_id, id_count)

  pub recv_pairs : ℕ → C (List (ℕ × ℕ))
  recv_pairs zero = give []
  recv_pairs (suc count) = recv_pair >>>= λ pair. recv_pairs count >>>= λ pairs. give (pair ∷ pairs)

  -- `none` is the pair (-1, -1): there is no connection.
  pub get_first_id_pair : Bytes → C (Option (ℕ × ℕ))
  get_first_id_pair tp_hash c =
      if is_null_oid tp_hash
      then err assertion
      else if not c.connected && not c.reachable
      then ok (none, c)
      else (connect
            >>> send_long Command.get_first_id
            >>> send_oid tp_hash
            >>> check_recv_error_code
            >>> (recv_pair >>>= λ pair. give (some pair)))
          c

  pub get_first_id_pairs : List Bytes → C (List (ℕ × ℕ))
  get_first_id_pairs tp_hashes c =
      if not c.connected && not c.reachable
      then ok ([], c)
      else (connect
            >>> send_long Command.get_first_id_multi
            >>> send_long (length tp_hashes)
            >>> send_oids tp_hashes
            >>> check_recv_error_code
            >>> recv_pairs (length tp_hashes))
          c

  pub involved_by_min_ids : List Bytes → List ℕ → C (List ℕ)
  involved_by_min_ids tp_hashes ids =
      connect
      >>> send_long Command.involved_by_min_ids
      >>> send_long (length tp_hashes)
      >>> send_oids tp_hashes
      >>> send_long_vector ids
      >>> check_recv_error_code
      >>> recv_long_vector
