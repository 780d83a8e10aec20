-- ===== src/Server/Errors.antt =====
-- How `commandHandler` of stupids-server/server.cpp ends where there is nothing to answer.
use mathlib.Core.List.{append-nil}
use stupid_ids.Base.{
  ℕ, ◌<◌, ◌≤◌, ◌≡◌, ◌⊎◌, inl, inr, true, false, List, [], ◌++◌, length, refl, arith, assertion, leb,
  ◌==◌, ◌&&◌, Bool-cases,
}
use stupid_ids.IdMap.{MappedFile}
use stupid_ids.Net.Words.{Bytes, word, encode_word}
use stupid_ids.Net.Session.{
  Session, Socket, Arrival, returned, thrown, aborted, disconnect, flush_to_client,
  flush_error_to_client,
}
use stupid_ids.Net.Runs.{IsSteady}
use stupid_ids.Net.Gone.{recv_from_client-thrown}
use stupid_ids.Server.Command
use stupid_ids.Server.{
  oid_size, recv_long, recv_oid, recv_long_vector, handle_get_min_id_array, handle_get_min_ids,
  handle_get_first_id, handle_get_first_id_multi, handle_involved_by_min_ids, handler, refuse,
  run_command, after_command, command_handler, after_handler, is_known, get_tphash_min_ids,
}
use stupid_ids.Server.Replies.{Runs-recv_long, Runs-recv_oid}

module _ (db : Bytes → ℕ × ℕ) (file : MappedFile) where
  -- An open session is told the code and closed; what was prepared is dropped.
  refuse_open :
      (error : ℕ) (s : Session)
      → s.close_connection ≡ false
      → refuse db file error s ≡ (
        returned tt,
        record s {
          sent = s.sent ++ encode_word error;
          output_buffer = [];
          close_connection = true;
        },
      )
  unfolding refuse flush_error_to_client disconnect
  refuse_open error s c = rw c

  -- A closed session cannot be told: the assert of `writeToClient` fails.
  refuse_closed :
      (error : ℕ) (s : Session)
      → s.close_connection ≡ true
      → refuse db file error s ≡ (aborted assertion, s)
  unfolding refuse flush_error_to_client disconnect
  refuse_closed error s c = rw c

  -- In an open session, where no call of `recvfrom` fails, a code of 32 bits that no command has
  -- is answered with error 1, what was prepared is dropped, and the session is closed.
  pub command_handler_unknown :
      (command : ℕ) (s : Session) (rest : Bytes)
      → command < word
      → (command ≡ 0) ⊎ (6 < command)
      → s.close_connection ≡ false
      → IsSteady s.socket.schedule
      → s.socket.input ≡ encode_word command ++ rest
      → (later : List Arrival) × (command_handler db file s ≡ (
        returned tt,
        record {
          socket = record { input = rest; schedule = later };
          close_connection = true;
          output_buffer = [];
          sent = s.sent ++ encode_word 1;
        },
      ))
  unfolding command_handler after_command run_command is_known
  command_handler_unknown command s rest small unknown c t e =
      let (later, u, p) = Runs-recv_long command small s rest c t e in
      let not_exit : (command == Command.exit) ≡ false = ground arith in
      let not_known : leb Command.get_min_id_array command
            && leb command Command.involved_by_min_ids
          ≡ false =
        ground arith in
      (later, rw (p, not_exit, not_known) (refuse_open 1 _ c))

  -- In an open session with nothing prepared, where no call of `recvfrom` fails, CMD_EXIT is
  -- confirmed with the code 0, and the session is closed.
  pub command_handler-exit :
      (s : Session) (rest : Bytes)
      → s.close_connection ≡ false
      → IsSteady s.socket.schedule
      → s.output_buffer ≡ []
      → s.socket.input ≡ encode_word Command.exit ++ rest
      → (later : List Arrival) × (command_handler db file s ≡ (
        returned tt,
        record {
          socket = record { input = rest; schedule = later };
          close_connection = true;
          output_buffer = [];
          sent = s.sent ++ encode_word 0;
        },
      ))
  unfolding command_handler after_command run_command is_known flush_to_client disconnect
  command_handler-exit s rest c t o e =
      let (later, u, p) = Runs-recv_long Command.exit (omega arith) s rest c t e in
      (later, rw p (rw (c, o, append-nil)))

  -- A client that goes before it has sent four bytes ends the open session; nothing is sent, and
  -- nothing aborts. No call of `recvfrom` fails.
  pub command_handler_gone :
      (s : Session)
      → s.close_connection ≡ false
      → IsSteady s.socket.schedule
      → length s.socket.input < 4
      → (next : Socket) × (command_handler db file s
          ≡ (returned tt, record s { socket = next; close_connection = true }))
  unfolding command_handler after_command recv_long disconnect
  command_handler_gone s c t short =
      let (next, e) = recv_from_client-thrown 4 s c t short in (next, rw e)

  -- Every handler begins with at least four bytes.
  handler_gone :
      (command : ℕ) (s : Session)
      → s.close_connection ≡ false
      → IsSteady s.socket.schedule
      → length s.socket.input < 4
      → (next : Socket) × (handler db file command s
          ≡ (thrown, record s { socket = next; close_connection = true }))
  unfolding handler handle_get_min_id_array handle_get_first_id handle_get_first_id_multi
      handle_get_min_ids handle_involved_by_min_ids recv_long recv_oid recv_long_vector
  handler_gone command s c t short =
      let (oid, e) = recv_from_client-thrown oid_size s c t (omega arith) in
      let (long, f) = recv_from_client-thrown 4 s c t short in
      elim (Bool-cases (command == Command.get_min_id_array)) [
        | inl a ↦ (oid, rw (a, e))
        | inr a ↦ elim (Bool-cases (command == Command.get_first_id)) [
          | inl b ↦ (oid, rw (a, b, e))
          | inr b ↦ elim (Bool-cases (command == Command.get_first_id_multi)) [
            | inl d ↦ (long, rw (a, b, d, f))
            | inr d ↦ elim (Bool-cases (command == Command.get_min_ids)) [
              | inl g ↦ (long, rw (a, b, d, g, f))
              | inr g ↦ (long, rw (a, b, d, g, f))
            ]
          ]
        ]
      ]

  -- The defect: a client that goes after the code of a command other than CMD_EXIT, with fewer
  -- than four bytes of its arguments, aborts the process of its open session, where no call of
  -- `recvfrom` fails. The exception closes the connection, and to report it the server writes to
  -- the closed connection.
  pub command_handler_aborts :
      (command : ℕ) (s : Session) (rest : Bytes)
      → 2 ≤ command
      → command ≤ 6
      → length rest < 4
      → s.close_connection ≡ false
      → IsSteady s.socket.schedule
      → s.socket.input ≡ encode_word command ++ rest
      → (after : Session) × (command_handler db file s ≡ (aborted assertion, after))
  unfolding command_handler after_command run_command after_handler is_known
  command_handler_aborts command s rest lo hi short c t e =
      let (later, u, p) = Runs-recv_long command (omega arith) s rest c t e in
      let (next, q) =
        handler_gone command
          (record s {
            socket = record { input = rest; schedule = later };
            output_buffer = s.output_buffer ++ [];
          })
          c u short in
      let not_exit : (command == Command.exit) ≡ false = ground arith in
      let known : leb Command.get_min_id_array command && leb command Command.involved_by_min_ids
          ≡ true =
        ground arith in
      (
        record s { socket = next; close_connection = true; output_buffer = s.output_buffer ++ [] },
        rw (p, not_exit, known, q) (refuse_closed 2 _ refl),
      )

  -- In an open session, where no call of `recvfrom` fails, CMD_GET_MIN_ID_ARRAY with a hash of the
  -- right size that the service does not know is answered with error 2, what was prepared is
  -- dropped, and the session is closed.
  pub command_handler_not_found :
      (tp_hash : Bytes) (s : Session) (rest : Bytes)
      → length tp_hash ≡ oid_size
      → (db tp_hash).0 ≡ 0
      → s.close_connection ≡ false
      → IsSteady s.socket.schedule
      → s.socket.input ≡ encode_word Command.get_min_id_array ++ (tp_hash ++ rest)
      → (later : List Arrival) × (command_handler db file s ≡ (
        returned tt,
        record {
          socket = record { input = rest; schedule = later };
          close_connection = true;
          output_buffer = [];
          sent = s.sent ++ encode_word 2;
        },
      ))
  unfolding command_handler after_command run_command after_handler is_known handler
      handle_get_min_id_array get_tphash_min_ids
  command_handler_not_found tp_hash s rest size unknown c t e =
      let (later, u, p) =
        Runs-recv_long Command.get_min_id_array (omega arith) s (tp_hash ++ rest) c t e in
      let (last, v, q) =
        Runs-recv_oid tp_hash size
          (record s {
            socket = record { input = tp_hash ++ rest; schedule = later };
            output_buffer = s.output_buffer ++ [];
          })
          rest c u refl in
      (last, rw p (rw q (rw unknown (refuse_open 2 _ c))))
