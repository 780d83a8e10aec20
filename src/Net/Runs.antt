-- ===== src/Net/Runs.antt =====
-- What a handler of the server reads and writes, whatever the segments are in which its input
-- arrives: rules for the session of stupids-server/tcpcommandserver.cpp.
use mathlib.Core.List.{append-nil, append_assoc}
use stupid_ids.Base.{
  ℕ, ◌-◌, ◌≡◌, ◌<◌, ◌≤◌, false, List, [], ◌∷◌, ◌++◌, Acc, refl, ◌∙◌, dec_lt, lt_wf, length, take,
  drop, min, suc, arith, dif_pos, dif_neg, le_prop, take-append_of_le, drop-append_of_le,
  length-take, length-drop, take-append-drop, nil_of_length,
}
use stupid_ids.Net.Words.{Bytes}
use stupid_ids.Net.Session.{
  Arrival, segment, failure, Socket, some_bytes, Session, returned, M, ◌>>=◌, pure, send_to_client,
  recvfrom, received, prepend, recv_loop, needed_falls, recv_from_client,
}

-- No call of `recvfrom` fails.
abbrev pub IsSteady : List Arrival → Type 0
IsSteady [] = Unit
IsSteady (segment k ∷ later) = IsSteady later
IsSteady (failure ∷ later) = ⊥

pub recvfrom-some :
    (needed : ℕ) (input : Bytes) (schedule : List Arrival)
    → 0 < needed
    → IsSteady schedule
    → (n : ℕ) × (later : List Arrival) × (0 < n)
      × (n ≤ needed)
      × IsSteady later
      × (recvfrom needed (record { input = input; schedule = schedule })
          ≡ some_bytes (take n input) (record { input = drop n input; schedule = later }))
unfolding recvfrom
recvfrom-some needed input [] h t = (needed, [], h, omega arith, tt, refl)
recvfrom-some needed input (segment k ∷ later) h t =
    (min needed (suc k), later, omega arith, omega arith, t, refl)
recvfrom-some needed input (failure ∷ later) h t = absurd t

pub recv_loop_step :
    (needed : ℕ) (smaller : (m : ℕ) → m < needed → Acc ◌<◌ m) (socket next : Socket) (bytes : Bytes)
    (more : 0 < needed)
    → recvfrom needed socket ≡ some_bytes bytes next
    → (h : 0 < length bytes)
    → recv_loop needed (Acc.intro needed smaller) socket
      ≡ prepend bytes (
          recv_loop
            (needed - length bytes)
            (smaller _ (needed_falls needed (length bytes) more h))
            next)
unfolding recv_loop
recv_loop_step needed smaller socket next bytes more e h =
    rw (dif_pos (dec_lt 0 needed) le_prop more, e, recv_loop)
      (rw (dif_pos (dec_lt 0 (length bytes)) le_prop h))

recv_loop_end :
    (needed : ℕ) (w : Acc ◌<◌ needed)
    → ¬ (0 < needed)
    → (socket : Socket) → recv_loop needed w socket ≡ (received [], socket)
unfolding recv_loop
recv_loop_end needed (Acc.intro _ smaller) h socket = rw (dif_neg (dec_lt 0 needed) h)

take_part :
    (n : ℕ) (bytes rest : Bytes)
    → n ≤ length bytes
    → (take n (bytes ++ rest) ≡ take n bytes)
      × (drop n (bytes ++ rest) ≡ drop n bytes ++ rest)
      × (length (take n bytes) ≡ n)
      × (length (drop n bytes) ≡ length bytes - n)
take_part n bytes rest h = (
  take-append_of_le n bytes rest h,
  drop-append_of_le n bytes rest h,
  omega (arith, length-take n bytes),
  length-drop n bytes,
)

-- The loop collects the block, in any number of segments.
pub recv_loop_lem :
    (needed : ℕ) (w : Acc ◌<◌ needed) (bytes rest : Bytes) (schedule : List Arrival)
    → length bytes ≡ needed
    → IsSteady schedule
    → (later : List Arrival) × IsSteady later
      × (recv_loop needed w (record { input = bytes ++ rest; schedule = schedule })
          ≡ (received bytes, record { input = rest; schedule = later }))
recv_loop_lem needed (Acc.intro _ smaller) bytes rest schedule size t = elim (dec_lt 0 needed) [
  | no z ↦ (
    schedule,
    t,
    rw (nil_of_length bytes (omega arith))
        (recv_loop_end needed (Acc.intro needed smaller) (omega arith) _),
  )
  | yes more ↦
      let (n, later, pos, le, u, e) = recvfrom-some needed (bytes ++ rest) schedule more t in
      let (first, second, taken, left) = take_part n bytes rest (omega arith) in
      let h : 0 < length (take n bytes) = omega arith in
      let (last, v, f) =
        recv_loop_lem _
          (smaller (needed - length (take n bytes))
            (needed_falls needed (length (take n bytes)) more h))
          (drop n bytes) rest later (omega arith) u in
      (
        last,
        v,
        recv_loop_step needed smaller _ _ (take n bytes) more (rw (first, second) at e) h
            ∙ rw f (rw (take-append-drop n bytes)),
      )
]

-- From an open session `m` reads `bytes`, returns `a` and prepares `out` for sending.
abbrev pub Runs {ℓ} : {A : Type ℓ} → M A → Bytes → A → Bytes → Type ℓ
Runs m bytes a out =
    (s : Session) (rest : Bytes)
    → s.close_connection ≡ false
    → IsSteady s.socket.schedule
    → s.socket.input ≡ bytes ++ rest
    → (later : List Arrival) × IsSteady later
      × (m s ≡ (
        returned a,
        record s {
          socket = record { input = rest; schedule = later };
          output_buffer = s.output_buffer ++ out;
        },
      ))

pub Runs-pure {ℓ} : {A : Type ℓ} (a : A) → Runs (pure a) [] a []
Runs-pure a s rest c t e = (s.socket.schedule, t, rw (append-nil, ← e))

pub Runs->>= {ℓ κ} :
    {A : Type ℓ} {B : Type κ} (m : M A) (f : A → M B) (xs ys : Bytes) (a : A) (b : B)
    (us vs : Bytes)
    → Runs m xs a us
    → Runs (f a) ys b vs
    → Runs (m >>= f) (xs ++ ys) b (us ++ vs)
Runs->>= m f xs ys a b us vs p q s rest c t e =
    let (later, u, r) = p s (ys ++ rest) c t (e ∙ append_assoc xs ys rest) in
    let next : Session = record s {
      socket = record { input = ys ++ rest; schedule = later };
      output_buffer = s.output_buffer ++ us;
    } in
    let (last, v, k) = q next rest c u refl in
    (last, v, rw (r, ◌>>=◌) (rw k (rw (append_assoc s.output_buffer us vs))))

pub Runs-recv :
    (bytes : Bytes) (len : ℕ) → length bytes ≡ len → Runs (recv_from_client len) bytes bytes []
unfolding recv_from_client
Runs-recv bytes len h s rest c t e =
    let (later, u, r) = recv_loop_lem len (lt_wf.apply len) bytes rest s.socket.schedule h t in
    let e' : s.socket ≡ record { input = bytes ++ rest; schedule = s.socket.schedule } =
      λ i. record { input = e i; schedule = s.socket.schedule } in
    (later, u, rw (c, e', r, append-nil))

pub Runs-send : (bytes : Bytes) → Runs (send_to_client bytes) [] tt bytes
unfolding send_to_client
Runs-send bytes s rest c t e = (s.socket.schedule, t, rw (← e))

-- In an open session, where no call of `recvfrom` fails, a block that is there is received whole,
-- however `recvfrom` cuts it up, and no more is taken.
pub recv_from_client-whole :
    (bytes rest : Bytes) (s : Session)
    → s.close_connection ≡ false
    → IsSteady s.socket.schedule
    → s.socket.input ≡ bytes ++ rest
    → (later : List Arrival) × IsSteady later
      × (recv_from_client (length bytes) s
          ≡ (returned bytes, record s { socket = record { input = rest; schedule = later } }))
recv_from_client-whole bytes rest s c t e =
    let (later, u, r) = Runs-recv bytes (length bytes) refl s rest c t e in
    (later, u, rw (append-nil s.output_buffer) at r)
