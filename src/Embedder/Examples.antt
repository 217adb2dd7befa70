-- ===== src/Embedder/Examples.antt =====
-- src/embed.cpp: the vectors of two texts, with a prefix each.
use cyborgdb_embed.Prelude.{
  ℕ, ◌≡◌, refl, false, List, [], ◌∷◌, Option, none, some, Text, codes, Memory, arith,
}
use cyborgdb_embed.Status.{Status, success}
use cyborgdb_embed.Pooling.{cls_token, mean_tokens}
use cyborgdb_embed.Registry.{RegistryEntry, cpu, fp32}
use cyborgdb_embed.Registry.Table.{all_mini_lm_l6_v2_entry}
use cyborgdb_embed.Fixtures.{numbers, bytes_library, ids_model, id_state, ids-IsRowwise}
use cyborgdb_embed.Tokenizer.Shim.{is_utf8, tokenizer_encode, write_ids}
use cyborgdb_embed.Tokenizer.{c_string, encode_text, finish_encode, read}
use cyborgdb_embed.Encode.{Pointer, encode}
use cyborgdb_embed.Encode.Tokenising.{Encodes}
use cyborgdb_embed.Encode.Reference.{HasFirst, text_vector}
use cyborgdb_embed.Session.{Session}
use cyborgdb_embed.Embedder.{Embedder, embed_documents, embed_queries}
use cyborgdb_embed.Embedder.Vectors.{queries_vectors, documents_vectors}

-- A model of one dimension, with a prefix for either direction.
abbrev narrow_entry : RegistryEntry
narrow_entry = record all_mini_lm_l6_v2_entry {
  info = record all_mini_lm_l6_v2_entry.info { dimension = 1; normalize = false };
  query_prefix = codes "q";
  doc_prefix = codes "d";
  pooling = mean_tokens;
}

abbrev narrow : Session numbers bytes_library
narrow = record {
  entry = narrow_entry;
  provider = cpu;
  precision = fp32;
  tokenizer = record { handle = record { tokenizer = 4 }; max_tokens = 4 };
  needs_token_type_ids = false;
  run = ids_model.run;
}

abbrev handle : Embedder numbers bytes_library
handle = record { session = some narrow }

abbrev words : Pointer (List Text)
words = record { is_null = false; target = codes "ab" ∷ codes "c" ∷ [] }

abbrev empty : Pointer (Memory ℕ)
empty = record { is_null = false; target = λ _. 0 }

abbrev left_in : Option (Status × Memory ℕ) → Memory ℕ
left_in none = λ _. 0
left_in (some r) = r.1

abbrev for_queries : Memory ℕ
for_queries = left_in (embed_queries numbers bytes_library handle words 2 empty 2)

abbrev for_documents : Memory ℕ
for_documents = left_in (embed_documents numbers bytes_library handle words 2 empty 2)

mean_first :
    (prefix text : Text) (ts : List ℕ)
    → Encodes (encode_text bytes_library narrow.tokenizer prefix) text ts
    → HasFirst mean_tokens ts
mean_first prefix text ts e m = absurd (apart m)
  where
    apart : mean_tokens ≡ cls_token → ⊥
    apart m = cc

queries_made :
    embed_queries numbers bytes_library handle words 2 empty 2 ≡ some (success, for_queries)
unfolding embed_queries encode encode_text finish_encode read tokenizer_encode write_ids is_utf8
    c_string
queries_made = refl

documents_made :
    embed_documents numbers bytes_library handle words 2 empty 2 ≡ some (success, for_documents)
unfolding embed_documents encode encode_text finish_encode read tokenizer_encode write_ids is_utf8
    c_string
documents_made = refl

queries_vectors_example : for_queries 1 ≡ text_vector numbers ids_model id_state (codes "qc") 0
unfolding is_utf8 c_string
queries_vectors_example =
    queries_vectors numbers bytes_library handle narrow refl words 2 empty 2 id_state ids-IsRowwise
      refl (mean_first narrow_entry.query_prefix) success for_queries queries_made refl 1 0
      (codes "qc") (omega arith) (omega arith) refl refl (omega arith)

documents_vectors_example : for_documents 1 ≡ text_vector numbers ids_model id_state (codes "dc") 0
unfolding is_utf8 c_string
documents_vectors_example =
    documents_vectors numbers bytes_library handle narrow refl words 2 empty 2 id_state
      ids-IsRowwise refl (mean_first narrow_entry.doc_prefix) success for_documents documents_made
      refl 1 0 (codes "dc") (omega arith) (omega arith) refl refl (omega arith)
