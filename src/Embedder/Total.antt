-- ===== src/Embedder/Total.antt =====
-- src/embed.cpp: the calls of an embedder return.
use cyborgdb_embed.Prelude.{ℕ, ◌≡◌, refl, List, Option, none, some, Text, Memory}
use cyborgdb_embed.Status.{Status}
use cyborgdb_embed.Float.{Float}
use cyborgdb_embed.Tokenizer.Shim.{Library}
use cyborgdb_embed.Tokenizer.{encode_text}
use cyborgdb_embed.Encode.{Pointer}
use cyborgdb_embed.Encode.Calls.{encode_total}
use cyborgdb_embed.Session.{Session}
use cyborgdb_embed.Embedder.{Embedder, session_model, embed_documents, embed_queries}

module _ (fl : Float) (lib : Library) (e : Embedder fl lib) (texts : Pointer (List Text)) (n : ℕ)
    (out : Pointer (Memory fl.F)) (out_capacity : ℕ) where
  pub documents_total :
      (r : Status × Memory fl.F) × (embed_documents fl lib e texts n out out_capacity ≡ some r)
  unfolding embed_documents
  documents_total = go e.session
    where
      go :
          (o : Option (Session fl lib))
          → (r : Status × Memory fl.F) × (embed_documents fl lib
                (record { session = o })
                texts
                n
                out
                out_capacity
              ≡ some r)
      go none = (_, refl)
      go (some s) =
          encode_total fl (session_model fl lib s) (encode_text lib s.tokenizer s.entry.doc_prefix)
            texts n out out_capacity

  pub queries_total :
      (r : Status × Memory fl.F) × (embed_queries fl lib e texts n out out_capacity ≡ some r)
  unfolding embed_queries
  queries_total = go e.session
    where
      go :
          (o : Option (Session fl lib))
          → (r : Status × Memory fl.F) × (embed_queries fl lib
                (record { session = o })
                texts
                n
                out
                out_capacity
              ≡ some r)
      go none = (_, refl)
      go (some s) =
          encode_total fl (session_model fl lib s)
            (encode_text lib s.tokenizer s.entry.query_prefix) texts n out out_capacity
