-- ===== src/Server/Replies.antt =====
-- What the handlers of stupids-server/server.cpp read and answer.
use mathlib.Core.List.{append-nil}
use stupid_ids.Base.{
  ℕ, zero, suc, ◌+◌, ◌*◌, ◌%◌, ◌<◌, ◌≡◌, ◌≢◌, false, List, [], ◌∷◌, ◌++◌, map, length, refl, ap,
  subst, arith, All, Result, ok, ltb, ◌==◌, if◌then◌else◌,
}
use stupid_ids.IdMap.{MappedFile, get_plain_min_id}
use stupid_ids.Net.Words.{
  Bytes, word, encode_word, encode_words, AreWords, length-encode_word, length-encode_words,
  decode-encode_word, decode-encode_words,
}
use stupid_ids.Net.Session.{M, pure, ◌>>=◌, lift, recv_from_client}
use stupid_ids.Net.Runs.{Runs, Runs-pure, Runs->>=, Runs-recv, Runs-send}
use stupid_ids.Server.Involved.{common, set_intersection-common}
use stupid_ids.Server.{
  oid_size, recv_long, recv_oid, recv_long_vector, send_long, send_long_array, send_long_vector,
  get_tphash_min_ids, plain_min_ids, get_min_ids, handle_get_first_id, first_ids_loop, recv_oids,
  involved_indices, sort,
}

-- A last step that only computes.
Runs-end {ℓ κ} :
    {A : Type ℓ} {B : Type κ} (m : M A) (f : A → M B) (xs : Bytes) (a : A) (b : B) (us : Bytes)
    → Runs m xs a us
    → f a ≡ pure b
    → Runs (m >>= f) xs b us
Runs-end m f xs a b us p h s rest c t e =
    let (later, u, r) = p s rest c t e in (later, u, rw (r, ◌>>=◌) (rw h))

-- All is read first.
pub Runs-read {ℓ κ} :
    {A : Type ℓ} {B : Type κ} (m : M A) (f : A → M B) (xs : Bytes) (a : A) (b : B) (vs : Bytes)
    → Runs m xs a []
    → Runs (f a) [] b vs
    → Runs (m >>= f) xs b vs
Runs-read m f xs a b vs p q =
    subst (λ ys. Runs (m >>= f) ys b vs) (append-nil xs) (Runs->>= m f xs [] a b [] vs p q)

-- Nothing is read or written.
Runs-lift {ℓ} : {A : Type ℓ} (r : Result A) (a : A) → r ≡ ok a → Runs (lift r) [] a []
Runs-lift r a e = rw e (Runs-pure a)

pub Runs-recv_long : (n : ℕ) → n < word → Runs recv_long (encode_word n) n []
unfolding recv_long
Runs-recv_long n h =
    Runs-end (recv_from_client 4) _ _ (encode_word n) n []
      (Runs-recv (encode_word n) 4 (length-encode_word n)) (rw (decode-encode_word n h))

pub Runs-recv_long_vector :
    (ns : List ℕ)
    → AreWords ns
    → length ns * 4 < word
    → Runs recv_long_vector (encode_word (length ns) ++ encode_words ns) ns []
unfolding recv_long_vector
Runs-recv_long_vector ns h small =
    Runs->>= recv_long _ _ _ (length ns) ns [] [] (Runs-recv_long (length ns) (omega arith)) (
      Runs-end _ _ _ (encode_words ns) ns [] (Runs-recv (encode_words ns) _ whole)
        (rw (enough, decode-encode_words ns h)))
  where
    whole : length (encode_words ns) ≡ length ns * 4 % word
    whole = omega (arith, length-encode_words ns)

    enough : ltb (length (encode_words ns)) (length ns * 4) ≡ false
    enough = ground (arith, length-encode_words ns)

pub Runs-recv_oid : (oid : Bytes) → length oid ≡ oid_size → Runs recv_oid oid oid []
unfolding recv_oid
Runs-recv_oid oid h = Runs-recv oid oid_size h

pub Runs-send_long_vector :
    (ns : List ℕ) → Runs (send_long_vector ns) [] tt (encode_word (length ns) ++ encode_words ns)
unfolding send_long_vector send_long send_long_array
Runs-send_long_vector ns =
    Runs->>= _ _ [] [] tt tt _ _ (Runs-send (encode_word (length ns))) (Runs-send (encode_words ns))

abbrev pub AreOids : List Bytes → Type 0
AreOids = All (λ oid. length oid ≡ oid_size)

abbrev pub concat : List Bytes → Bytes
concat [] = []
concat (b ∷ bs) = b ++ concat bs

-- What the server knows of templates and of the plain ID of an ID.
abbrev pub consecutive : (ℕ → ℕ) → ℕ → ℕ → List ℕ
consecutive plain zero first = []
consecutive plain (suc count) first = plain first ∷ consecutive plain count (first + 1)

module _ (db : Bytes → ℕ × ℕ) where
  abbrev pub AreKnown : List Bytes → Type 0
  AreKnown = All (λ tp_hash. (db tp_hash).0 ≢ 0)

  abbrev pub first_id_reply : Bytes → Bytes
  first_id_reply tp_hash = encode_word (db tp_hash).0 ++ encode_word (db tp_hash).1

  abbrev pub first_id_replies : List Bytes → Bytes
  first_id_replies [] = []
  first_id_replies (tp_hash ∷ tp_hashes) = first_id_reply tp_hash ++ first_id_replies tp_hashes

module _ (db : Bytes → ℕ × ℕ) (plain : ℕ → ℕ) where
  -- The plain IDs of the messages of a template.
  abbrev pub template_ids : Bytes → List ℕ
  template_ids tp_hash = consecutive plain (db tp_hash).1 (db tp_hash).0

  -- The indices, from `i` on, of the templates that share a plain ID with `ids`.
  abbrev pub involved : List ℕ → ℕ → List Bytes → List ℕ
  involved ids i [] = []
  involved ids i (tp_hash ∷ tp_hashes) =
      if common (map plain ids) (template_ids tp_hash)
      then i ∷ involved ids (i + 1) tp_hashes
      else involved ids (i + 1) tp_hashes

-- `plain` is what one lookup in the file answers.
module _ (db : Bytes → ℕ × ℕ) (file : MappedFile) (plain : ℕ → ℕ)
    (looked_up : (i : ℕ) → get_plain_min_id file i ≡ ok (plain i)) where
  plain_min_ids-eq :
      (count first : ℕ) → plain_min_ids db file count first ≡ pure (consecutive plain count first)
  unfolding plain_min_ids
  plain_min_ids-eq zero first = refl
  plain_min_ids-eq (suc count) first = rw (looked_up first, plain_min_ids-eq count (first + 1))

  pub get_min_ids-eq : (ids : List ℕ) → get_min_ids db file ids ≡ pure (map plain ids)
  unfolding get_min_ids
  get_min_ids-eq [] = refl
  get_min_ids-eq (id ∷ ids) = rw (looked_up id, get_min_ids-eq ids)

  pub get_tphash_min_ids-eq :
      (tp_hash : Bytes)
      → (db tp_hash).0 ≢ 0
      → get_tphash_min_ids db file tp_hash ≡ pure (template_ids db plain tp_hash)
  unfolding get_tphash_min_ids
  get_tphash_min_ids-eq tp_hash known =
      let e : ((db tp_hash).0 == 0) ≡ false = ground arith in rw (e, plain_min_ids-eq)

  pub involved_indices-eq :
      (ids : List ℕ) (i : ℕ) (tp_hashes : List Bytes)
      → AreKnown db tp_hashes
      → involved_indices db file i (sort (map plain ids)) tp_hashes
        ≡ pure (involved db plain ids i tp_hashes)
  unfolding involved_indices
  involved_indices-eq ids i [] k = refl
  involved_indices-eq ids i (tp_hash ∷ tp_hashes) k =
      rw (get_tphash_min_ids-eq tp_hash k.0, involved_indices-eq ids (i + 1) tp_hashes k.1)
        (ap pure
          (ground (arith, set_intersection-common (map plain ids) (template_ids db plain tp_hash))))

  pub Runs-recv_oids :
      (oids : List Bytes)
      → AreOids oids
      → Runs (recv_oids db file (length oids)) (concat oids) oids []
  unfolding recv_oids
  Runs-recv_oids [] h = Runs-pure []
  Runs-recv_oids (oid ∷ oids) h =
      Runs->>= _ _ oid (concat oids) oid (oid ∷ oids) [] [] (Runs-recv_oid oid h.0)
        (Runs-end _ _ (concat oids) oids (oid ∷ oids) [] (Runs-recv_oids oids h.1) refl)

  pub Runs-first_id :
      (tp_hash : Bytes)
      → length tp_hash ≡ oid_size
      → Runs (handle_get_first_id db file) tp_hash tt (first_id_reply db tp_hash)
  unfolding handle_get_first_id send_long
  Runs-first_id tp_hash h = Runs-read _ _ tp_hash tp_hash tt _ (Runs-recv_oid tp_hash h) (
      Runs->>= _ _ [] [] tt tt _ _ (Runs-send (encode_word (db tp_hash).0))
        (Runs-send (encode_word (db tp_hash).1)))

  pub Runs-first_ids_loop :
      (oids : List Bytes)
      → AreOids oids
      → Runs (first_ids_loop db file (length oids)) (concat oids) tt (first_id_replies db oids)
  unfolding first_ids_loop
  Runs-first_ids_loop [] h = Runs-pure tt
  Runs-first_ids_loop (oid ∷ oids) h =
      Runs->>= _ _ oid _ tt tt _ _ (Runs-first_id oid h.0) (Runs-first_ids_loop oids h.1)
