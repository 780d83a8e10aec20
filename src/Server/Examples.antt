-- ===== src/Server/Examples.antt =====
-- The theorems on stupids-server/server.cpp at one small file, template and request.
use stupid_ids.Base.{
  assertion, ℕ, ◌≡◌, ◌∙◌, List, [], ◌∷◌, ◌++◌, false, ok, ◌==◌, if◌then◌else◌, arith, refl,
}
use stupid_ids.IdMap.{MappedFile, get_plain_min_id}
use stupid_ids.IdMap.Roots.{IsWellFormed, get_plain_min_id_lem}
use stupid_ids.Net.Words.{Bytes, encode_word, encode_words}
use stupid_ids.Net.Session.{aborted, Arrival, segment, Session, returned}
use stupid_ids.Net.Runs.{IsSteady}
use stupid_ids.Server.{command_handler}
use stupid_ids.Server.Errors.{command_handler_aborts}
use stupid_ids.Server.Requests.{
  Request, involved_by_min_ids, code, arguments, reply, command_handler-reply,
}

-- The message 105 is the same as 103.
abbrev merged : MappedFile
merged = record { file_length = 480; rows = λ i. if i == 105 then 103 else 0 }

abbrev plain : ℕ → ℕ
plain i = if i == 105 then 103 else i

-- Templates of two messages: the first byte of the hash tells where the IDs start.
abbrev first_ids : Bytes → ℕ × ℕ
first_ids [] = (0, 0)
first_ids (b ∷ bs) = (b, 2)

merged-IsWellFormed : IsWellFormed merged
merged-IsWellFormed = record {
  aligned = omega arith;
  falling = λ i h. ground arith;
  reserved = λ i h. ground arith;
  outside = λ i h. ground arith;
}

looked_up : (i : ℕ) → get_plain_min_id merged i ≡ ok (plain i)
looked_up i = get_plain_min_id_lem merged-IsWellFormed i ∙ ground arith

abbrev zeros : Bytes
zeros = 0 ∷ 0 ∷ 0 ∷ 0 ∷ 0 ∷ 0 ∷ 0 ∷ 0 ∷ 0 ∷ 0 ∷ 0 ∷ 0 ∷ 0 ∷ 0 ∷ 0 ∷ 0 ∷ 0 ∷ 0 ∷ 0 ∷ []

-- Which of the templates at 101, 103 and 105 have the message 105?
abbrev question : Request
question = involved_by_min_ids ((101 ∷ zeros) ∷ (103 ∷ zeros) ∷ (105 ∷ zeros) ∷ []) (105 ∷ [])

answer_of_question :
    reply first_ids plain question ≡ encode_word 2 ++ (encode_word 1 ++ (encode_word 2 ++ []))
unfolding encode_word encode_words
answer_of_question = refl

abbrev asked : Session
asked = record {
  socket = record {
    input = encode_word (code question) ++ (arguments question ++ []);
    schedule = segment 1 ∷ segment 40 ∷ segment 2 ∷ [];
  };
  close_connection = false;
  output_buffer = [];
  sent = [];
}

command_handler-reply_example :
    (later : List Arrival) × IsSteady later
    × (command_handler first_ids merged asked ≡ (
      returned tt,
      record {
        socket = record { input = []; schedule = later };
        close_connection = false;
        output_buffer = [];
        sent = [] ++ (encode_word 0 ++ reply first_ids plain question);
      },
    ))
command_handler-reply_example =
    command_handler-reply first_ids merged plain looked_up question asked []
      (
        (refl, (refl, (refl, tt))),
        omega arith,
        (omega arith, (omega arith, (omega arith, tt))),
        ((omega arith, tt), omega arith),
      )
      refl refl tt refl

-- An open session that has got the bytes, in pieces.
abbrev got : Bytes → Session
got bytes = record {
  socket = record { input = bytes; schedule = segment 1 ∷ segment 40 ∷ [] };
  close_connection = false;
  output_buffer = [];
  sent = [];
}

command_handler_aborts_example :
    (after : Session) × (command_handler first_ids merged (got (encode_word 3 ++ (101 ∷ [])))
      ≡ (aborted assertion, after))
command_handler_aborts_example =
    command_handler_aborts first_ids merged 3 (got (encode_word 3 ++ (101 ∷ []))) (101 ∷ [])
      (omega arith) (omega arith) (omega arith) refl tt refl
