-- ===== src/Net/Session.antt =====
-- One connection of stupids-server/tcpcommandserver.cpp. What the socket delivers is its input and
-- a schedule: how much each call of `recvfrom` finds, or that the call fails.
use stupid_ids.Base.{
  ℕ, ◌-◌, ◌<◌, Bool, true, false, not, List, [], ◌∷◌, ◌++◌, Acc, assertion, Error, if◌then◌else◌,
  dite, dec_lt, lt_wf, length, take, drop, min, suc, arith, Result, ok, err,
}
use stupid_ids.Net.Words.{Bytes, encode_word}

-- `segment k`: at most k + 1 bytes are there. `failure`: the result is negative.
pub data Arrival : Type 0 where
  segment : ℕ → Arrival
  failure : Arrival

pub record Socket : Type 0 where
  pub input : Bytes
  pub schedule : List Arrival

pub record Session : Type 0 where
  pub socket : Socket
  pub close_connection : Bool
  pub output_buffer : Bytes
  pub sent : Bytes

-- How a handler ends: it returns, throws an exception, or the process is aborted.
pub data Outcome {ℓ} (A : Type ℓ) : Type ℓ where
  returned : A → Outcome A
  thrown : Outcome A
  aborted : Error → Outcome A

abbrev pub M {ℓ} : Type ℓ → Type ℓ
M A = Session → Outcome A × Session

abbrev pub pure {ℓ} : {A : Type ℓ} → A → M A
pure a s = (returned a, s)

abbrev pub continue {ℓ κ} :
    {A : Type ℓ} {B : Type κ} → Outcome A × Session → (A → M B) → Outcome B × Session
continue (returned a, s) f = f a s
continue (thrown, s) f = (thrown, s)
continue (aborted e, s) f = (aborted e, s)

infixl 5 ◌>>=◌ ◌>>◌
abbrev pub ◌>>=◌ {ℓ κ} : {A : Type ℓ} {B : Type κ} → M A → (A → M B) → M B
◌>>=◌ m f s = continue (m s) f

abbrev pub ◌>>◌ {ℓ} : {B : Type ℓ} → M (Unit {0}) → M B → M B
m >> k = m >>= λ _. k

abbrev pub lift {ℓ} : {A : Type ℓ} → Result A → M A
lift (ok a) s = (returned a, s)
lift (err e) s = (aborted e, s)

abbrev pub check : Bool → M (Unit {0})
check true s = (returned tt, s)
check false s = (aborted assertion, s)

abbrev pub throw {ℓ} : {A : Type ℓ} → M A
throw s = (thrown, s)

unfoldable pub send_to_client : Bytes → M (Unit {0})
send_to_client bytes s = (returned tt, record s { output_buffer = s.output_buffer ++ bytes })

unfoldable pub disconnect : M (Unit {0})
disconnect s = (returned tt, record s { close_connection = true })

-- `sendto` takes the whole block; the code asserts it.
unfoldable pub write_to_client : Bytes → M (Unit {0})
write_to_client bytes s =
    (check (not s.close_connection) >> λ t. (returned tt, record t { sent = t.sent ++ bytes })) s

clear_output : M (Unit {0})
clear_output s = (returned tt, record s { output_buffer = [] })

unfoldable pub flush_to_client : M (Unit {0})
unfolding clear_output write_to_client
flush_to_client s =
    (write_to_client (encode_word 0) >> write_to_client s.output_buffer >> clear_output) s

unfoldable pub flush_error_to_client : ℕ → M (Unit {0})
unfolding clear_output write_to_client
flush_error_to_client code = write_to_client (encode_word code) >> clear_output

pub data Arrived : Type 0 where
  some_bytes : Bytes → Socket → Arrived
  error : Socket → Arrived

-- At most `len` bytes; none at the end of the input.
unfoldable pub recvfrom : ℕ → Socket → Arrived
recvfrom len socket = elim socket.schedule [
  | [] ↦ some_bytes (take len socket.input) (record socket { input = drop len socket.input })
  | failure ∷ later ↦ error (record socket { schedule = later })
  | segment k ∷ later ↦
      some_bytes (take (min len (suc k)) socket.input)
        (record { input = drop (min len (suc k)) socket.input; schedule = later })
]

-- Whether the block has come whole.
pub data Received : Type 0 where
  received : Bytes → Received
  ended failed : Received

abbrev pub prepend : Bytes → Received × Socket → Received × Socket
prepend bytes (received more, socket) = (received (bytes ++ more), socket)
prepend bytes (ended, socket) = (ended, socket)
prepend bytes (failed, socket) = (failed, socket)

pub needed_falls : (needed n : ℕ) → 0 < needed → 0 < n → needed - n < needed
needed_falls needed n h k = omega arith

-- `while (bytes_read < len)`, with `needed` for `len - bytes_read`.
unfoldable pub recv_loop : (needed : ℕ) → Acc ◌<◌ needed → Socket → Received × Socket
recv_loop needed (Acc.intro _ smaller) socket =
    dite (dec_lt 0 needed)
      (λ more. elim (recvfrom needed socket) [
        | error next ↦ (failed, next)
        | some_bytes bytes next ↦
            dite (dec_lt 0 (length bytes))
              (λ h. prepend bytes (
                recv_loop (needed - length bytes)
                  (smaller _ (needed_falls needed (length bytes) more h)) next))
              (λ _. (ended, next))
      ])
      (λ _. (received [], socket))

deliver : Received × Socket → M Bytes
deliver (received bytes, socket) s = (returned bytes, record s { socket = socket })
deliver (ended, socket) s = (thrown, record s { socket = socket; close_connection = true })
deliver (failed, socket) s = (thrown, record s { socket = socket; close_connection = true })

unfoldable pub recv_from_client : ℕ → M Bytes
unfolding deliver
recv_from_client len s =
    if s.close_connection then (thrown, s) else deliver (recv_loop len (lt_wf.apply len) s.socket) s
