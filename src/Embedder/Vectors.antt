-- ===== src/Embedder/Vectors.antt =====
-- src/embed.cpp, `embed_documents` and `embed_queries`, down to what the tokenizers library and the
-- inference give: the vectors of the texts with their prefixes.
use cyborgdb_embed.Prelude.{
  ℕ, ◌+◌, ◌*◌, ◌<◌, ◌≤◌, ◌≡◌, sym, ap, ◌∙◌, true, List, [], ◌++◌, Option, some, Text, length,
  get_or, Memory,
}
use cyborgdb_embed.Status.{Status, is_ok}
use cyborgdb_embed.Float.{Float}
use cyborgdb_embed.Tokenizer.Shim.{Library, is_utf8}
use cyborgdb_embed.Tokenizer.{c_string, encode_text}
use cyborgdb_embed.Tokenizer.Ids.{encode_text_ids}
use cyborgdb_embed.Encode.{Pointer, encode}
use cyborgdb_embed.Encode.Tokenising.{Encodes}
use cyborgdb_embed.Encode.Reference.{States, HasFirst, IsRowwise, text_vector}
use cyborgdb_embed.Encode.Calls.{encode_vectors}
use cyborgdb_embed.Session.{Session}
use cyborgdb_embed.Embedder.{Embedder, session_model, embed_documents, embed_queries}

module _ (fl : Float) (lib : Library) (e : Embedder fl lib) (s : Session fl lib)
    (opened : e.session ≡ some s) (texts : Pointer (List Text)) (n : ℕ)
    (out : Pointer (Memory fl.F)) (out_capacity : ℕ) where
  open fl use {F}

  prefixed :
      (prefix : Text) (state : States F)
      → IsRowwise fl (session_model fl lib s) state
      → length texts.target ≡ n
      → ((text : Text) (ts : List ℕ)
          → Encodes (encode_text lib s.tokenizer prefix) text ts
          → HasFirst s.entry.pooling ts)
      → (status : Status) (out' : Memory F)
      → encode fl
          (session_model fl lib s)
          (encode_text lib s.tokenizer prefix)
          texts
          n
          out
          out_capacity
        ≡ some (status, out')
      → is_ok status ≡ true
      → (i d : ℕ) (ts : List ℕ) → i < n
      → d < s.entry.info.dimension
      → is_utf8 (c_string (prefix ++ get_or texts.target i [])) ≡ true
      → lib.encode s.tokenizer.handle.tokenizer (c_string (prefix ++ get_or texts.target i []))
        ≡ some ts
      → length ts ≤ s.tokenizer.max_tokens
      → out' (i * s.entry.info.dimension + d) ≡ text_vector fl (session_model fl lib s) state ts d
  prefixed prefix state law size first status out' made ok i d ts hi hd good ids fits =
      let tokenized =
        encode_text_ids lib s.tokenizer prefix (get_or texts.target i []) ts good ids fits in
      encode_vectors fl (session_model fl lib s) (encode_text lib s.tokenizer prefix) texts n out
        out_capacity state law size first status out' made ok i d ts hi hd
        (
          ap (λ (r : Status × List ℕ). is_ok r.0) tokenized,
          ap (λ (r : Status × List ℕ). r.1) tokenized,
        )

  -- Where an embedder is open on the session and the inference gives each row the states of its marked
  -- ids alone: a call of `embed_queries` that succeeds on `n` texts leaves, for every text, the
  -- vector of the ids that the tokenizers library gives the session's query prefix followed by the
  -- text, cut at the first NUL, element by element, whatever the other texts are. The text with its
  -- prefix, so cut, is to be UTF-8, its ids no more than the model's length, and, for the pooling
  -- that reads the first state, never none. What follows a NUL does not reach the vector.
  pub queries_vectors :
      (state : States F)
      → IsRowwise fl (session_model fl lib s) state
      → length texts.target ≡ n
      → ((text : Text) (ts : List ℕ)
          → Encodes (encode_text lib s.tokenizer s.entry.query_prefix) text ts
          → HasFirst s.entry.pooling ts)
      → (status : Status) (out' : Memory F)
      → embed_queries fl lib e texts n out out_capacity ≡ some (status, out')
      → is_ok status ≡ true
      → (i d : ℕ) (ts : List ℕ) → i < n
      → d < s.entry.info.dimension
      → is_utf8 (c_string (s.entry.query_prefix ++ get_or texts.target i [])) ≡ true
      → lib.encode s.tokenizer.handle.tokenizer
          (c_string (s.entry.query_prefix ++ get_or texts.target i []))
        ≡ some ts
      → length ts ≤ s.tokenizer.max_tokens
      → out' (i * s.entry.info.dimension + d) ≡ text_vector fl (session_model fl lib s) state ts d
  unfolding embed_queries
  queries_vectors state law size first status out' made ok i d ts hi hd good ids fits =
      prefixed s.entry.query_prefix state law size first status out'
        (sym (
            ap
              (λ (o : Option (Session fl lib)).
                embed_queries fl lib (record { session = o }) texts n out out_capacity)
              opened)
          ∙ made)
        ok i d ts hi hd good ids fits

  -- Where an embedder is open on the session and the inference gives each row the states of its marked
  -- ids alone: a call of `embed_documents` that succeeds on `n` texts leaves, for every text, the
  -- vector of the ids that the tokenizers library gives the session's document prefix followed by the
  -- text, cut at the first NUL, element by element, whatever the other texts are. The text with its
  -- prefix, so cut, is to be UTF-8, its ids no more than the model's length, and, for the pooling
  -- that reads the first state, never none. What follows a NUL does not reach the vector.
  pub documents_vectors :
      (state : States F)
      → IsRowwise fl (session_model fl lib s) state
      → length texts.target ≡ n
      → ((text : Text) (ts : List ℕ)
          → Encodes (encode_text lib s.tokenizer s.entry.doc_prefix) text ts
          → HasFirst s.entry.pooling ts)
      → (status : Status) (out' : Memory F)
      → embed_documents fl lib e texts n out out_capacity ≡ some (status, out')
      → is_ok status ≡ true
      → (i d : ℕ) (ts : List ℕ) → i < n
      → d < s.entry.info.dimension
      → is_utf8 (c_string (s.entry.doc_prefix ++ get_or texts.target i [])) ≡ true
      → lib.encode s.tokenizer.handle.tokenizer
          (c_string (s.entry.doc_prefix ++ get_or texts.target i []))
        ≡ some ts
      → length ts ≤ s.tokenizer.max_tokens
      → out' (i * s.entry.info.dimension + d) ≡ text_vector fl (session_model fl lib s) state ts d
  unfolding embed_documents
  documents_vectors state law size first status out' made ok i d ts hi hd good ids fits =
      prefixed s.entry.doc_prefix state law size first status out'
        (sym (
            ap
              (λ (o : Option (Session fl lib)).
                embed_documents fl lib (record { session = o }) texts n out out_capacity)
              opened)
          ∙ made)
        ok i d ts hi hd good ids fits
