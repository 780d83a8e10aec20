-- ===== src/Net/Examples.antt =====
-- The theorems on the wire at one small input.
use stupid_ids.Base.{◌≡◌, List, [], ◌∷◌, false, refl}
use stupid_ids.Net.Session.{Arrival, segment, Session, returned, recv_from_client}
use stupid_ids.Net.Runs.{IsSteady, recv_from_client-whole}

-- Five bytes, of which three are asked for; they come as one byte and two.
abbrev open_session : Session
open_session = record {
  socket = record {
    input = 1 ∷ 2 ∷ 3 ∷ 4 ∷ 5 ∷ [];
    schedule = segment 0 ∷ segment 9 ∷ segment 0 ∷ [];
  };
  close_connection = false;
  output_buffer = [];
  sent = [];
}

recv_from_client-whole_example :
    (later : List Arrival) × IsSteady later
    × (recv_from_client 3 open_session ≡ (
      returned (1 ∷ 2 ∷ 3 ∷ []),
      record open_session { socket = record { input = 4 ∷ 5 ∷ []; schedule = later } },
    ))
recv_from_client-whole_example =
    recv_from_client-whole (1 ∷ 2 ∷ 3 ∷ []) (4 ∷ 5 ∷ []) open_session refl tt refl
