-- ===== src/Client/Examples.antt =====
-- The theorems on the client at one small server.
use stupid_ids.Base.{
  ℕ, ◌≡◌, ◌≢◌, ◌+◌, ◌∙◌, ◌<◌, true, false, List, [], ◌∷◌, ok, ◌==◌, if◌then◌else◌, arith, refl, min,
}
use stupid_ids.Text.{text_eq}
use stupid_ids.IdMap.{MappedFile}
use stupid_ids.IdMap.Roots.{IsWellFormed, get_plain_min_id_lem}
use stupid_ids.Net.Words.{Bytes, word}
use stupid_ids.Net.Session.{Arrival, segment}
use stupid_ids.Client.{
  StupidsClient, is_null_oid, send_to_server, get_template_min_ids, get_first_id_pairs,
  involved_by_min_ids,
}
use stupid_ids.Client.Answers.{
  IsFresh, AreStored, AreHashes, serve, get_template_min_ids_answered, get_first_id_pairs_answered,
  involved_by_min_ids_answered,
}
use stupid_ids.Client.Partial.{send_to_server_repeats}

-- The message 105 is the same as 103.
abbrev merged : MappedFile
merged = record { file_length = 480; rows = λ i. if i == 105 then 103 else 0 }

merged-IsWellFormed : IsWellFormed merged
merged-IsWellFormed = record {
  aligned = omega arith;
  falling = λ i h. ground arith;
  reserved = λ i h. ground arith;
  outside = λ i h. ground arith;
}

abbrev plain : ℕ → ℕ
plain i = if i == 105 then 103 else i

-- Templates of two messages: the first byte of the hash tells where the IDs start.
abbrev first_ids : Bytes → ℕ × ℕ
first_ids [] = (0, 0)
first_ids (b ∷ bs) = (min b 255, 2)

merged-AreStored : AreStored first_ids merged plain
merged-AreStored = record {
  looked_up = λ i. get_plain_min_id_lem merged-IsWellFormed i ∙ ground arith;
  small_plain = λ i h. ground arith;
  small_first = λ t. first_small t;
  small_count = λ t. count_small t;
}
  where
    first_small : (t : Bytes) → (first_ids t).0 + (first_ids t).1 < word
    first_small [] = omega arith
    first_small (b ∷ bs) = omega arith

    count_small : (t : Bytes) → (first_ids t).1 < 2147483648
    count_small [] = omega arith
    count_small (b ∷ bs) = omega arith

abbrev zeros : Bytes
zeros = 0 ∷ 0 ∷ 0 ∷ 0 ∷ 0 ∷ 0 ∷ 0 ∷ 0 ∷ 0 ∷ 0 ∷ 0 ∷ 0 ∷ 0 ∷ 0 ∷ 0 ∷ 0 ∷ 0 ∷ 0 ∷ 0 ∷ []

abbrev client : StupidsClient
client = record {
  connected = false;
  reachable = true;
  written = [];
  writes = [];
  consumed = 0;
  arrivals = segment 0 ∷ segment 2 ∷ [];
}

client-IsFresh : IsFresh client
client-IsFresh = record {
  can_connect = refl;
  nothing_written = refl;
  whole_writes = refl;
  nothing_read = refl;
  steady = tt;
}

abbrev pieces : List Arrival
pieces = segment 1 ∷ segment 40 ∷ []

-- Which of the templates at 101, 103 and 105 have the message 105?
abbrev hashes : List Bytes
hashes = (101 ∷ zeros) ∷ (103 ∷ zeros) ∷ (105 ∷ zeros) ∷ []

hash_not_null : (b : ℕ) → b ≢ 0 → is_null_oid (b ∷ zeros) ≡ false
unfolding is_null_oid text_eq
hash_not_null b h = ground arith

hashes_not_null : AreHashes hashes
hashes_not_null = (
  hash_not_null 101 (omega arith),
  (hash_not_null 103 (omega arith), (hash_not_null 105 (omega arith), tt)),
)

get_template_min_ids_answered_example :
    (after : StupidsClient) × (get_template_min_ids
        (serve first_ids merged pieces)
        (104 ∷ zeros)
        client
      ≡ ok (104 ∷ 103 ∷ [], after))
get_template_min_ids_answered_example =
    get_template_min_ids_answered first_ids merged plain merged-AreStored pieces tt (104 ∷ zeros)
      client (refl, omega arith) (hash_not_null 104 (omega arith)) client-IsFresh

get_first_id_pairs_answered_example :
    (after : StupidsClient) × (get_first_id_pairs (serve first_ids merged pieces) hashes client
      ≡ ok ((101, 2) ∷ (103, 2) ∷ (105, 2) ∷ [], after))
get_first_id_pairs_answered_example =
    get_first_id_pairs_answered first_ids merged plain merged-AreStored pieces tt hashes client
      ((refl, (refl, (refl, tt))), omega arith) hashes_not_null client-IsFresh

involved_by_min_ids_answered_example :
    (after : StupidsClient) × (involved_by_min_ids
        (serve first_ids merged pieces)
        hashes
        (105 ∷ [])
        client
      ≡ ok (1 ∷ 2 ∷ [], after))
involved_by_min_ids_answered_example =
    involved_by_min_ids_answered first_ids merged plain merged-AreStored pieces tt hashes (105 ∷ [])
      client
      (
        (refl, (refl, (refl, tt))),
        omega arith,
        (omega arith, (omega arith, (omega arith, tt))),
        ((omega arith, tt), omega arith),
      )
      hashes_not_null (omega arith) client-IsFresh

-- Two bytes at a time.
abbrev slow_client : StupidsClient
slow_client = record client { connected = true; writes = 1 ∷ 1 ∷ [] }

send_to_server_repeats_example :
    send_to_server (1 ∷ 2 ∷ 3 ∷ 4 ∷ []) slow_client
    ≡ ok (tt, record slow_client { written = 1 ∷ 2 ∷ 1 ∷ 2 ∷ []; writes = [] })
send_to_server_repeats_example =
    send_to_server_repeats (1 ∷ 2 ∷ 3 ∷ 4 ∷ []) 1 [] slow_client refl refl refl
