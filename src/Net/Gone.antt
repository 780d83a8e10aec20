-- ===== src/Net/Gone.antt =====
-- `recvFromClient` of stupids-server/tcpcommandserver.cpp where the client closes the connection
-- before all bytes have come.
use stupid_ids.Base.{
  ℕ, ◌-◌, ◌≡◌, ◌<◌, true, false, List, Acc, dec_lt, lt_wf, length, take, drop, arith, dif_pos,
  dif_neg, le_prop, length-take, length-drop,
}
use stupid_ids.Net.Words.{Bytes}
use stupid_ids.Net.Session.{
  Arrival, Socket, some_bytes, Session, thrown, recvfrom, ended, recv_loop, needed_falls,
  recv_from_client,
}
use stupid_ids.Net.Runs.{IsSteady, recvfrom-some, recv_loop_step}

recv_loop_nothing :
    (needed : ℕ) (w : Acc ◌<◌ needed) (socket next : Socket) (bytes : Bytes)
    → 0 < needed
    → recvfrom needed socket ≡ some_bytes bytes next
    → ¬ (0 < length bytes)
    → recv_loop needed w socket ≡ (ended, next)
unfolding recv_loop
recv_loop_nothing needed (Acc.intro _ smaller) socket next bytes more e h =
    rw (dif_pos (dec_lt 0 needed) le_prop more, e) (rw (dif_neg (dec_lt 0 (length bytes)) h))

recv_loop_short :
    (needed : ℕ) (w : Acc ◌<◌ needed) (input : Bytes) (schedule : List Arrival)
    → length input < needed
    → IsSteady schedule
    → (next : Socket) × (recv_loop needed w (record { input = input; schedule = schedule })
        ≡ (ended, next))
recv_loop_short needed (Acc.intro _ smaller) input schedule short t =
    let more : 0 < needed = omega arith in
    let (n, later, pos, le, u, e) = recvfrom-some needed input schedule more t in
    elim (dec_lt 0 (length (take n input))) [
      | no z ↦ (_, recv_loop_nothing needed (Acc.intro needed smaller) _ _ (take n input) more e z)
      | yes h ↦
          let (next, f) =
            recv_loop_short _
              (smaller (needed - length (take n input))
                (needed_falls needed (length (take n input)) more h))
              (drop n input) later (omega (arith, length-take n input, length-drop n input)) u in
          (next, rw (recv_loop_step needed smaller _ _ (take n input) more e h) (rw f))
    ]

-- Where fewer bytes come than are asked for, and no call of `recvfrom` fails, `recvFromClient` ends
-- with an exception, and the connection is marked as closed.
pub recv_from_client-thrown :
    (len : ℕ) (s : Session)
    → s.close_connection ≡ false
    → IsSteady s.socket.schedule
    → length s.socket.input < len
    → (next : Socket) × (recv_from_client len s
        ≡ (thrown, record s { socket = next; close_connection = true }))
unfolding recv_from_client
recv_from_client-thrown len s c t h =
    let (next, e) = recv_loop_short len (lt_wf.apply len) s.socket.input s.socket.schedule h t in
    (next, rw (c, e))
