-- ===== src/Embedder.antt =====
-- src/embed.cpp: the class `Embedder`, over a session. A copy of a handle shares its session.
pub mod Total
pub mod Vectors
mod Examples
use cyborgdb_embed.Prelude.{ℕ, Bool, true, false, List, [], Option, none, some, Text, codes, Memory}
use cyborgdb_embed.Status.{Status, invalid_argument}
use cyborgdb_embed.Float.{Float}
use cyborgdb_embed.Registry.{Provider, cpu, Precision, fp32}
use cyborgdb_embed.Registry.Table.{registry_version}
use cyborgdb_embed.Tokenizer.Shim.{Library}
use cyborgdb_embed.Tokenizer.{encode_text}
use cyborgdb_embed.Encode.{Model, Pointer, encode}
use cyborgdb_embed.Session.{Session}

pub record Identity : Type 0 where
  pub model : Text
  pub revision : Text
  pub version : Text
  pub provider : Provider
  pub precision : Precision

module _ (fl : Float) (lib : Library) where
  open fl use {F}

  pub record Embedder : Type 0 where
    pub session : Option (Session fl lib)

  abbrev pub closed : Status
  closed = record { code = invalid_argument; message = codes "embedder is not open" }

  unfoldable pub valid : Embedder → Bool
  valid e = elim e.session [ none ↦ false | some s ↦ true ]

  unfoldable pub dimension : Embedder → ℕ
  dimension e = elim e.session [ none ↦ 0 | some s ↦ s.entry.info.dimension ]

  unfoldable pub identity : Embedder → Identity
  identity e = elim e.session [
    | none ↦ record { model = []; revision = []; version = []; provider = cpu; precision = fp32 }
    | some s ↦ record {
      model = s.entry.info.name;
      revision = s.entry.info.revision;
      version = registry_version;
      provider = s.provider;
      precision = s.precision;
    }
  ]

  abbrev pub session_model : Session fl lib → Model F
  session_model s = record {
    dimension = s.entry.info.dimension;
    pooling = s.entry.pooling;
    normalize = s.entry.info.normalize;
    needs_token_type_ids = s.needs_token_type_ids;
    run = s.run;
  }

  unfoldable pub embed_documents :
      Embedder → Pointer (List Text) → ℕ → Pointer (Memory F) → ℕ → Option (Status × Memory F)
  unfolding encode_text
  embed_documents e texts n out out_capacity = elim e.session [
    | none ↦ some (closed, out.target)
    | some s ↦
        encode fl (session_model s) (encode_text lib s.tokenizer s.entry.doc_prefix) texts n out
          out_capacity
  ]

  unfoldable pub embed_queries :
      Embedder → Pointer (List Text) → ℕ → Pointer (Memory F) → ℕ → Option (Status × Memory F)
  unfolding encode_text
  embed_queries e texts n out out_capacity = elim e.session [
    | none ↦ some (closed, out.target)
    | some s ↦
        encode fl (session_model s) (encode_text lib s.tokenizer s.entry.query_prefix) texts n out
          out_capacity
  ]
