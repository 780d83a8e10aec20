-- ===== src/Client/Partial.antt =====
-- `sendToServer` of gettextpo-helper/gtpo/stupids-client.cpp where `write` takes less than the block.
use stupid_ids.Base.{
  ℕ, suc, ◌+◌, ◌-◌, ◌<◌, ◌≡◌, true, List, ◌∷◌, ◌++◌, Acc, min, length, take, refl, ◌∙◌, ap, arith,
  ok, dec_lt, lt_wf, dif_pos, le_prop,
}
use stupid_ids.Net.Words.{Bytes}
use stupid_ids.Client.{StupidsClient, write, took, send_loop, send_to_server, sent_whole}
use stupid_ids.Client.Exchange.{send_loop_end, send_connected}

write_part :
    (bytes : Bytes) (n k : ℕ) (later : List ℕ) (c : StupidsClient)
    → min (length bytes) (suc k) ≡ n
    → c.writes ≡ k ∷ later
    → write bytes c ≡ took n (record c { written = c.written ++ take n bytes; writes = later })
unfolding write
write_part bytes n k later c h e = rw (e, h)

send_loop_part :
    (data_ : Bytes) (written needed n k : ℕ) (later : List ℕ)
    (smaller : (m : ℕ) → m < needed → Acc ◌<◌ m) (c : StupidsClient)
    → 0 < needed
    → (less : needed - n < needed) → min (length data_) (suc k) ≡ n
    → c.writes ≡ k ∷ later
    → send_loop data_ written needed (Acc.intro needed smaller) c
      ≡ send_loop data_
          (written + n)
          (needed - n)
          (smaller (needed - n) less)
          (record c { written = c.written ++ take n data_; writes = later })
unfolding send_loop
send_loop_part data_ written needed n k later smaller c more less h e =
    rw (dif_pos (dec_lt 0 needed) le_prop more, write_part data_ n k later c h e, send_loop)
      (rw (dif_pos (dec_lt (needed - n) needed) le_prop less))

send_loop_last :
    (data_ : Bytes) (written needed n k : ℕ) (later : List ℕ) (w : Acc ◌<◌ needed)
    (c : StupidsClient)
    → 0 < needed
    → needed ≡ n
    → written + n ≡ length data_
    → min (length data_) (suc k) ≡ n
    → c.writes ≡ k ∷ later
    → send_loop data_ written needed w c
      ≡ ok (record c { written = c.written ++ take n data_; writes = later })
send_loop_last data_ written needed n k later (Acc.intro _ smaller) c more same whole h e =
    send_loop_part data_ written needed n k later smaller c more (omega arith) h e
    ∙ send_loop_end data_ (written + n) (needed - n) (smaller (needed - n) (omega arith)) _
        (omega arith) whole

send_loop_twice :
    (data_ : Bytes) (needed k : ℕ) (later : List ℕ) (w : Acc ◌<◌ needed) (c : StupidsClient)
    → needed ≡ length data_
    → length data_ ≡ suc k + suc k
    → c.writes ≡ k ∷ k ∷ later
    → send_loop data_ 0 needed w c
      ≡ ok (record c {
        written = c.written ++ take (suc k) data_ ++ take (suc k) data_;
        writes = later;
      })
send_loop_twice data_ needed k later (Acc.intro _ smaller) c start twice e =
    send_loop_part data_ 0 needed (suc k) k (k ∷ later) smaller c (omega arith) (omega arith)
      (omega arith) e
    ∙ send_loop_last data_ (0 + suc k) (needed - suc k) (suc k) k later
        (smaller (needed - suc k) (omega arith)) _ (omega arith) (omega arith) (omega arith)
        (omega arith) refl

-- The defect: where a connected client sends a block and `write` takes half of it, twice, the
-- first half is sent twice and the second half never, and no error is noticed.
pub send_to_server_repeats :
    (data_ : Bytes) (k : ℕ) (later : List ℕ) (c : StupidsClient)
    → c.connected ≡ true
    → length data_ ≡ suc k + suc k
    → c.writes ≡ k ∷ k ∷ later
    → send_to_server data_ c
      ≡ ok (
        tt,
        record c {
          written = c.written ++ take (suc k) data_ ++ take (suc k) data_;
          writes = later;
        },
      )
unfolding sent_whole
send_to_server_repeats data_ k later c h twice e =
    send_connected data_ c h
    ∙ ap sent_whole
        (send_loop_twice data_ (length data_) k later (lt_wf.apply (length data_)) c refl twice e)
