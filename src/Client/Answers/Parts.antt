-- ===== src/Client/Answers/Parts.antt =====
-- The parts of requests and replies: what gettextpo-helper/gtpo/stupids-client.cpp writes and reads.
use mathlib.Core.List.{append-nil, append_assoc}
use stupid_ids.Base.{
  Bool-cases, inl, inr, ℕ, zero, suc, ◌+◌, ◌<◌, ◌≤◌, ◌≡◌, false, List, [], ◌∷◌, ◌++◌, All, map,
  length, refl, sym, ◌∙◌, ap, arith, ok,
}
use stupid_ids.Net.Words.{Bytes, word, encode_word, AreWords}
use stupid_ids.Server.Involved.{common}
use stupid_ids.Server.Replies.{
  concat, template_ids, consecutive, involved, first_id_reply, first_id_replies,
}
use stupid_ids.Client.{◌>>>◌, connect, send_long, is_null_oid, send_oids, recv_pair, recv_pairs}
use stupid_ids.Client.Exchange.{
  Writes, Sends, Sends-connect, Sends->>>, Writes->>>, Writes-long, Writes-oid, Reads, Reads->>>=,
  Reads-end, Reads-give, Reads-long,
}

abbrev pub AreHashes : List Bytes → Type 0
AreHashes = All (λ oid. is_null_oid oid ≡ false)

pub consecutive-AreWords :
    (plain : ℕ → ℕ)
    → ((i : ℕ) → i < word → plain i < word)
    → (count first : ℕ) → first + count < word
    → AreWords (consecutive plain count first)
consecutive-AreWords plain h zero first small = tt
consecutive-AreWords plain h (suc count) first small =
    (h first (omega arith), consecutive-AreWords plain h count (first + 1) (omega arith))

pub length-consecutive :
    (plain : ℕ → ℕ) (count first : ℕ) → length (consecutive plain count first) ≡ count
length-consecutive plain zero first = refl
length-consecutive plain (suc count) first = ap suc (length-consecutive plain count (first + 1))

pub map-AreWords :
    (plain : ℕ → ℕ)
    → ((i : ℕ) → i < word → plain i < word)
    → (ids : List ℕ) → AreWords ids
    → AreWords (map plain ids)
map-AreWords plain h [] small = tt
map-AreWords plain h (id ∷ ids) small = (h id small.0, map-AreWords plain h ids small.1)

pub Writes-oids : (oids : List Bytes) → AreHashes oids → Writes (send_oids oids) (concat oids)
unfolding send_oids
Writes-oids [] h c k w =
    ap (λ bytes. ok (tt, record c { written = bytes })) (sym (append-nil c.written))
Writes-oids (oid ∷ oids) h c k w =
    Writes->>> _ _ oid (concat oids) (Writes-oid oid h.0) (Writes-oids oids h.1) c k w

pub brackets : (a b c d : Bytes) → a ++ b ++ c ++ d ≡ a ++ (b ++ (c ++ d))
brackets a b c d = append_assoc (a ++ b) c d ∙ append_assoc a b (c ++ d)

pub Sends-command : (command : ℕ) → Sends (connect >>> send_long command) (encode_word command)
Sends-command command =
    Sends->>> connect (send_long command) [] (encode_word command) Sends-connect
      (Writes-long command)

pub involved-AreWords :
    (db : Bytes → ℕ × ℕ) (plain : ℕ → ℕ) (ids : List ℕ) (i : ℕ) (tp_hashes : List Bytes)
    → i + length tp_hashes < word
    → AreWords (involved db plain ids i tp_hashes)
      × (length (involved db plain ids i tp_hashes) ≤ length tp_hashes)
involved-AreWords db plain ids i [] h = (tt, omega arith)
involved-AreWords db plain ids i (tp_hash ∷ tp_hashes) h =
    let (w, l) = involved-AreWords db plain ids (i + 1) tp_hashes (omega arith) in
    elim (Bool-cases (common (map plain ids) (template_ids db plain tp_hash))) [
      | inl e ↦ rw e ((omega arith, w), omega arith)
      | inr e ↦ rw e (w, omega arith)
    ]

module _ (peer : Bytes → Bytes) (db : Bytes → ℕ × ℕ)
    (small : (tp_hash : Bytes) → ((db tp_hash).0 < word) × ((db tp_hash).1 < word)) where
  pub Reads-pair :
      (tp_hash : Bytes) → Reads peer (recv_pair peer) (first_id_reply db tp_hash) (db tp_hash)
  unfolding recv_pair
  Reads-pair tp_hash =
      Reads->>>= peer _ _ _ (encode_word (db tp_hash).1) (db tp_hash).0 (db tp_hash)
        (Reads-long peer _ (small tp_hash).0)
        (Reads-end peer _ _ (encode_word (db tp_hash).1) (db tp_hash).1 (db tp_hash)
          (Reads-long peer _ (small tp_hash).1) refl)

  pub Reads-pairs :
      (oids : List Bytes) (count : ℕ)
      → length oids ≡ count
      → Reads peer (recv_pairs peer count) (first_id_replies db oids) (map db oids)
  unfolding recv_pairs
  Reads-pairs [] zero h = Reads-give peer []
  Reads-pairs [] (suc count) h = absurd (omega arith)
  Reads-pairs (oid ∷ oids) zero h = absurd (omega arith)
  Reads-pairs (oid ∷ oids) (suc count) h =
      Reads->>>= peer _ _ (first_id_reply db oid) (first_id_replies db oids) (db oid)
        (map db (oid ∷ oids)) (Reads-pair oid)
        (Reads-end peer _ _ (first_id_replies db oids) (map db oids) (map db (oid ∷ oids))
          (Reads-pairs oids count (omega arith)) refl)
