-- ===== src/Client/Exchange.antt =====
-- One request of the client of gettextpo-helper/gtpo/stupids-client.cpp: it writes, then it reads.
use mathlib.Core.List.{append-nil, append_assoc}
use stupid_ids.Base.{
  drop-drop, ℕ, ◌+◌, ◌*◌, ◌-◌, ◌<◌, ◌≡◌, true, false, ◌||◌, List, [], ◌∷◌, ◌++◌, length, drop, refl,
  sym, ◌∙◌, ap, arith, ok, ltb, ◌==◌, lt_wf, length-append, drop-append, dif_pos, dif_neg, dec_lt,
  le_prop, Acc, ◌<◌,
}
use stupid_ids.Net.Words.{
  Bytes, word, encode_word, encode_words, AreWords, length-encode_word, length-encode_words,
  decode-encode_word, decode-encode_words,
}
use stupid_ids.Net.Session.{Arrival, recv_loop}
use stupid_ids.Net.Runs.{IsSteady, recv_loop_lem}
use stupid_ids.Client.{
  StupidsClient, C, ◌>>>=◌, ◌>>>◌, give, connect, write, took, send_loop, sent_whole,
  send_to_server, send_long, is_null_oid, send_oid, send_long_vector, arrived, recv_from_server,
  recv_long, recv_long_array, recv_long_vector, check_recv_error_code,
}

-- A client that is connected writes the bytes, where every call of `write` takes all of its data.
abbrev pub Writes : C (Unit {0}) → Bytes → Type 0
Writes m bytes =
    (c : StupidsClient)
    → c.connected ≡ true
    → c.writes ≡ []
    → m c ≡ ok (tt, record c { written = c.written ++ bytes })

-- The same from a client that can connect.
abbrev pub Sends : C (Unit {0}) → Bytes → Type 0
Sends m bytes =
    (c : StupidsClient)
    → c.connected || c.reachable ≡ true
    → c.writes ≡ []
    → m c ≡ ok (tt, record c { connected = true; written = c.written ++ bytes })

pub Sends-connect : Sends connect []
unfolding connect
Sends-connect c h w = rw (append-nil) (ground arith)

pub Sends->>> :
    (m n : C (Unit {0})) (xs ys : Bytes) → Sends m xs → Writes n ys → Sends (m >>> n) (xs ++ ys)
Sends->>> m n xs ys p q c h w = rw (p c h w) (
    q (record c { connected = true; written = c.written ++ xs }) refl w
    ∙ rw (append_assoc c.written xs ys))

pub Writes->>> :
    (m n : C (Unit {0})) (xs ys : Bytes) → Writes m xs → Writes n ys → Writes (m >>> n) (xs ++ ys)
Writes->>> m n xs ys p q c h w =
    rw (p c h w)
      (q (record c { written = c.written ++ xs }) h w ∙ rw (append_assoc c.written xs ys))

pub send_loop_end :
    (data_ : Bytes) (written needed : ℕ) (w : Acc ◌<◌ needed) (c : StupidsClient)
    → needed ≡ 0
    → written ≡ length data_
    → send_loop data_ written needed w c ≡ ok c
unfolding send_loop
send_loop_end data_ written needed (Acc.intro _ smaller) c h e =
    let t : (written == length data_) ≡ true = ground arith in
    rw (dif_neg (dec_lt 0 needed) (omega arith), t)

write_whole :
    (bytes : Bytes) (c : StupidsClient)
    → c.writes ≡ []
    → write bytes c ≡ took (length bytes) (record c { written = c.written ++ bytes })
unfolding write
write_whole bytes c e = rw e

send_loop_once :
    (data_ : Bytes) (n : ℕ) (w : Acc ◌<◌ n) (c : StupidsClient)
    → n ≡ length data_
    → 0 < n
    → c.writes ≡ []
    → send_loop data_ 0 n w c ≡ ok (record c { written = c.written ++ data_ })
unfolding send_loop
send_loop_once data_ n (Acc.intro _ smaller) c h pos e =
    rw (dif_pos (dec_lt 0 n) le_prop pos, write_whole data_ c e, send_loop)
      (rw (dif_pos (dec_lt (n - length data_) n) le_prop (omega arith)) (
        send_loop_end data_ (0 + length data_) (n - length data_) (smaller _ (omega arith)) _
          (omega arith) (omega arith)))

pub send_connected :
    (bytes : Bytes) (c : StupidsClient)
    → c.connected ≡ true
    → send_to_server bytes c
      ≡ sent_whole (send_loop bytes 0 (length bytes) (lt_wf.apply (length bytes)) c)
unfolding send_to_server
send_connected bytes c h = rw h

send_lem :
    (bytes : Bytes) (n : ℕ) (c : StupidsClient)
    → n ≡ length bytes
    → c.writes ≡ []
    → send_loop bytes 0 n (lt_wf.apply n) c ≡ ok (record c { written = c.written ++ bytes })
send_lem [] n c h w = send_loop_end [] 0 n (lt_wf.apply n) c h refl ∙ rw (append-nil c.written)
send_lem (b ∷ bytes) n c h w = send_loop_once (b ∷ bytes) n (lt_wf.apply n) c h (omega arith) w

pub Writes-send : (bytes : Bytes) → Writes (send_to_server bytes) bytes
unfolding sent_whole
Writes-send bytes c h w =
    send_connected bytes c h ∙ ap sent_whole (send_lem bytes (length bytes) c refl w)

pub Writes-long : (n : ℕ) → Writes (send_long n) (encode_word n)
unfolding send_long
Writes-long n = Writes-send (encode_word n)

pub Writes-long_vector :
    (ns : List ℕ) → Writes (send_long_vector ns) (encode_word (length ns) ++ encode_words ns)
unfolding send_long_vector
Writes-long_vector ns = Writes->>> _ _ _ _ (Writes-long (length ns)) (Writes-send (encode_words ns))

pub Writes-oid : (oid : Bytes) → is_null_oid oid ≡ false → Writes (send_oid oid) oid
unfolding send_oid
Writes-oid oid h c k w = rw h (Writes-send oid c k w)

-- What the client can read next, given what the server has sent.
abbrev pub Reads {ℓ} : {A : Type ℓ} → (Bytes → Bytes) → C A → Bytes → A → Type ℓ
Reads peer m bytes a =
    (c : StupidsClient) (rest : Bytes)
    → c.connected ≡ true
    → IsSteady c.arrivals
    → drop c.consumed (peer c.written) ≡ bytes ++ rest
    → (later : List Arrival) × IsSteady later
      × (m c ≡ ok (a, record c { consumed = c.consumed + length bytes; arrivals = later }))

module _ (peer : Bytes → Bytes) where
  pub Reads-give {ℓ} : {A : Type ℓ} (a : A) → Reads peer (give a) [] a
  Reads-give a c rest h t e =
      (c.arrivals, t, ap (λ n. ok (a, record c { consumed = n })) (omega arith))

  read_on :
      (xs rest : Bytes) (c : StupidsClient)
      → drop c.consumed (peer c.written) ≡ xs ++ rest
      → drop (c.consumed + length xs) (peer c.written) ≡ rest
  read_on xs rest c e =
      drop-drop c.consumed (length xs) (peer c.written)
      ∙ ap (drop (length xs)) e
      ∙ drop-append xs rest

  pub Reads->>>= {ℓ κ} :
      {A : Type ℓ} {B : Type κ} (m : C A) (f : A → C B) (xs ys : Bytes) (a : A) (b : B)
      → Reads peer m xs a
      → Reads peer (f a) ys b
      → Reads peer (m >>>= f) (xs ++ ys) b
  Reads->>>= m f xs ys a b p q c rest h t e =
      let (later, u, r) = p c (ys ++ rest) h t (e ∙ append_assoc xs ys rest) in
      let (last, v, k) =
        q (record c { consumed = c.consumed + length xs; arrivals = later }) rest h u
          (read_on xs (ys ++ rest) c (e ∙ append_assoc xs ys rest)) in
      (
        last,
        v,
        rw (r, ◌>>>=◌)
            (rw k (
              ap (λ n. ok (b, record c { consumed = n; arrivals = last }))
                (omega (arith, length-append xs ys)))),
      )

  recv_connected :
      (len : ℕ) (c : StupidsClient)
      → c.connected ≡ true
      → recv_from_server peer len c
        ≡ arrived peer len c (
            recv_loop len
              (lt_wf.apply len)
              (record { input = drop c.consumed (peer c.written); schedule = c.arrivals }))
  unfolding recv_from_server
  recv_connected len c h = rw h

  pub Reads-recv :
      (bytes : Bytes) (len : ℕ)
      → length bytes ≡ len
      → Reads peer (recv_from_server peer len) bytes bytes
  unfolding arrived
  Reads-recv bytes len size c rest h t e =
      let (later, u, r) = recv_loop_lem len (lt_wf.apply len) bytes rest c.arrivals size t in
      (
        later,
        u,
        recv_connected len c h
            ∙ ap
                (λ input. arrived peer len c (
                  recv_loop len (lt_wf.apply len)
                    (record { input = input; schedule = c.arrivals })))
                e
            ∙ ap (arrived peer len c) r
            ∙ ap (λ n. ok (bytes, record c { consumed = c.consumed + n; arrivals = later }))
                (sym size),
      )

  -- A last step that only computes.
  pub Reads-end {ℓ κ} :
      {A : Type ℓ} {B : Type κ} (m : C A) (f : A → C B) (xs : Bytes) (a : A) (b : B)
      → Reads peer m xs a
      → f a ≡ give b
      → Reads peer (m >>>= f) xs b
  Reads-end m f xs a b p k c rest h t e =
      let (later, u, r) = p c rest h t e in (later, u, rw (r, ◌>>>=◌) (rw k))

  pub Reads-long : (n : ℕ) → n < word → Reads peer (recv_long peer) (encode_word n) n
  unfolding recv_long
  Reads-long n h =
      Reads-end _ _ (encode_word n) (encode_word n) n
        (Reads-recv (encode_word n) 4 (length-encode_word n)) (rw (decode-encode_word n h))

  pub Reads-array :
      (ns : List ℕ) (count : ℕ)
      → length ns ≡ count
      → AreWords ns
      → Reads peer (recv_long_array peer count) (encode_words ns) ns
  unfolding recv_long_array
  Reads-array ns count size h =
      Reads-end _ _ (encode_words ns) (encode_words ns) ns
        (Reads-recv (encode_words ns) (4 * count) (omega (arith, length-encode_words ns)))
        (rw (← size, decode-encode_words ns h))

  pub Reads-vector :
      (ns : List ℕ)
      → AreWords ns
      → length ns < 2147483648
      → Reads peer (recv_long_vector peer) (encode_word (length ns) ++ encode_words ns) ns
  unfolding recv_long_vector
  Reads-vector ns h small =
      let t : ltb (length ns) 2147483648 ≡ true = ground arith in
      Reads->>>= _ _ (encode_word (length ns)) (encode_words ns) (length ns) ns
        (Reads-long (length ns) (omega arith)) (rw t (Reads-array ns (length ns) refl h))

  pub Reads-code : Reads peer (check_recv_error_code peer) (encode_word 0) tt
  unfolding check_recv_error_code
  Reads-code = Reads-end _ _ (encode_word 0) 0 tt (Reads-long 0 (omega arith)) refl

  -- A request that is answered without an error gives what can be read of the answer.
  pub exchange {ℓ} :
      {A : Type ℓ} (m : C (Unit {0})) (f : C A) (request answer rest : Bytes) (a : A)
      → Sends m request
      → Reads peer f answer a
      → (c : StupidsClient) → c.connected || c.reachable ≡ true
      → c.writes ≡ []
      → IsSteady c.arrivals
      → drop c.consumed (peer (c.written ++ request)) ≡ encode_word 0 ++ (answer ++ rest)
      → (after : StupidsClient) × ((m >>> check_recv_error_code peer >>> f) c ≡ ok (a, after))
  exchange m f request answer rest a p q c h w t e =
      let (later, u, r) =
        Reads->>>= (check_recv_error_code peer) (λ z. f) (encode_word 0) answer tt a Reads-code q
          (record c { connected = true; written = c.written ++ request }) rest refl t
          (e ∙ rw (append_assoc (encode_word 0) answer rest)) in
      (
        record c {
          connected = true;
          written = c.written ++ request;
          consumed = c.consumed + length (encode_word 0 ++ answer);
          arrivals = later;
        },
        rw (p c h w) r,
      )
