-- ===== src/Encode/Examples.antt =====
-- src/session_ort.cpp, `OrtSession::encode`, on two texts whose hidden states are their ids.
use cyborgdb_embed.Prelude.{
  ℕ, ◌≤◌, ◌<◌, All, take, ◌≡◌, refl, true, false, List, [], ◌∷◌, Option, none, some, Text, Memory,
  arith,
}
use cyborgdb_embed.Status.{Status, success}
use cyborgdb_embed.Pooling.{mean_tokens, cls_token}
use cyborgdb_embed.Fixtures.{numbers, ids_model, id_state, ids-IsRowwise}
use cyborgdb_embed.Encode.{hidden, Tokens, tokenize, Pointer, max_batch_rows, encode, grow}
use cyborgdb_embed.Encode.Reference.{HasFirst, text_vector}
use cyborgdb_embed.Encode.Tokenising.{Encodes}
use cyborgdb_embed.Encode.Calls.{encode_total, encode_frame, encode_success, encode_vectors}
use cyborgdb_embed.Encode.Independence.{encode_alone}
use cyborgdb_embed.Encode.Batches.{Within, grow_lem}

-- The tokenizer that takes the bytes for ids.
abbrev bytes : Text → Tokens
bytes text = (success, text)

mean_first : (text : Text) (ts : List ℕ) → Encodes bytes text ts → HasFirst mean_tokens ts
mean_first text ts e m = absurd (apart m)
  where
    apart : mean_tokens ≡ cls_token → ⊥
    apart m = cc

abbrev two_texts : Pointer (List Text)
two_texts = record { is_null = false; target = (1 ∷ 2 ∷ 3 ∷ []) ∷ (7 ∷ []) ∷ [] }

abbrev one_text : Pointer (List Text)
one_text = record { is_null = false; target = (1 ∷ 2 ∷ 3 ∷ []) ∷ [] }

abbrev zeros : Pointer (Memory ℕ)
zeros = record { is_null = false; target = λ _. 0 }

abbrev no_output : Pointer (Memory ℕ)
no_output = record { is_null = true; target = λ _. 0 }

abbrev memory_of : Option (Status × Memory ℕ) → Memory ℕ
memory_of none = λ _. 0
memory_of (some r) = r.1

abbrev written : Memory ℕ
written = memory_of (encode numbers ids_model bytes two_texts 2 zeros 2)

abbrev written_alone : Memory ℕ
written_alone = memory_of (encode numbers ids_model bytes one_text 1 zeros 1)

two_encoded : encode numbers ids_model bytes two_texts 2 zeros 2 ≡ some (success, written)
unfolding encode
two_encoded = refl

one_encoded : encode numbers ids_model bytes one_text 1 zeros 1 ≡ some (success, written_alone)
unfolding encode
one_encoded = refl

every_answer :
    (rows width : ℕ) (input_ids mask : Memory ℕ) (types : Option (Memory ℕ))
    → (states : Memory ℕ) × (ids_model.run rows width input_ids mask types ≡ hidden states)
every_answer rows width input_ids mask types = (input_ids, refl)

encode_vectors_example : written 0 ≡ text_vector numbers ids_model id_state (1 ∷ 2 ∷ 3 ∷ []) 0
encode_vectors_example =
    encode_vectors numbers ids_model bytes two_texts 2 zeros 2 id_state ids-IsRowwise refl
      mean_first success written two_encoded refl 0 0 (1 ∷ 2 ∷ 3 ∷ []) (omega arith) (omega arith)
      (refl, refl)

encode_alone_example : written 0 ≡ written_alone 0
encode_alone_example =
    encode_alone numbers ids_model bytes id_state ids-IsRowwise mean_first two_texts 2 0 0 zeros
      zeros 2 1 success success written written_alone refl (omega arith) (omega arith) refl
      two_encoded refl one_encoded refl

encode_frame_example : written 5 ≡ 0
encode_frame_example =
    encode_frame numbers ids_model bytes two_texts 2 zeros 2 success written 5 (omega arith)
      (omega arith) two_encoded

encode_success_example :
    (out' : Memory ℕ) × (encode numbers ids_model bytes two_texts 2 zeros 2 ≡ some (success, out'))
unfolding tokenize
encode_success_example =
    encode_success numbers ids_model bytes two_texts 2 zeros 2 two_texts.target refl (omega arith)
      (omega arith) refl every_answer

encode_total_example :
    (r : Status × Memory ℕ) × (encode numbers ids_model bytes two_texts 2 no_output 1 ≡ some r)
encode_total_example = encode_total numbers ids_model bytes two_texts 2 no_output 1

-- Three texts of 6000, 2000 and 300 tokens: the first is a batch of its own.
grow_lem_example :
    (0 < (grow (6000 ∷ 2000 ∷ 300 ∷ []) 0 1).rows)
    × ((grow (6000 ∷ 2000 ∷ 300 ∷ []) 0 1).rows ≤ max_batch_rows)
    × ((grow (6000 ∷ 2000 ∷ 300 ∷ []) 0 1).rows ≤ 3)
    × All
        (λ s. s ≤ (grow (6000 ∷ 2000 ∷ 300 ∷ []) 0 1).width)
        (take (grow (6000 ∷ 2000 ∷ 300 ∷ []) 0 1).rows (6000 ∷ 2000 ∷ 300 ∷ []))
    × Within (grow (6000 ∷ 2000 ∷ 300 ∷ []) 0 1)
grow_lem_example = grow_lem 6000 (2000 ∷ 300 ∷ []) (omega arith, (omega arith, (omega arith, tt)))
