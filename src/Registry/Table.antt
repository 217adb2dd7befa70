-- ===== src/Registry/Table.antt =====
-- src/registry_generated.hpp: the table, and the second table that `supported_models` hands out.
mod SentenceTransformers
mod Bge
mod E5
use cyborgdb_embed.Prelude.{ℕ, true, false, List, [], ◌∷◌, Text, codes}
use cyborgdb_embed.Registry.{
  ModelInfo, RegistryEntry, all_mini_lm_l6_v2, all_mini_lm_l12_v2, all_mpnet_base_v2,
  bge_small_en_v15, bge_base_en_v15, bge_large_en_v15, e5_small_v2, e5_base_v2, e5_large_v2,
  multilingual_e5_small, paraphrase_mini_lm_l6_v2, paraphrase_multilingual_mini_lm_l12_v2,
  paraphrase_multilingual_mpnet_base_v2, multi_qa_mini_lm_l6_cos_v1, multilingual_e5_base,
  mxbai_embed_large_v1, snowflake_arctic_embed_mv15,
}
unfoldable pub use SentenceTransformers.{
  all_mini_lm_l6_v2_entry, all_mini_lm_l12_v2_entry, all_mpnet_base_v2_entry,
  paraphrase_mini_lm_l6_v2_entry, paraphrase_multilingual_mini_lm_l12_v2_entry,
  paraphrase_multilingual_mpnet_base_v2_entry, multi_qa_mini_lm_l6_cos_v1_entry,
}
unfoldable pub use Bge.{
  bge_small_en_v15_entry, bge_base_en_v15_entry, bge_large_en_v15_entry, mxbai_embed_large_v1_entry,
  snowflake_arctic_embed_mv15_entry,
}
unfoldable pub use E5.{
  e5_small_v2_entry, e5_base_v2_entry, e5_large_v2_entry, multilingual_e5_small_entry,
  multilingual_e5_base_entry,
}

abbrev pub registry_version : Text
registry_version = codes "14afbc250ac9"

-- `kRegistry`.
unfoldable pub registry : List RegistryEntry
unfolding all_mini_lm_l6_v2_entry all_mini_lm_l12_v2_entry all_mpnet_base_v2_entry
    bge_small_en_v15_entry bge_base_en_v15_entry bge_large_en_v15_entry e5_small_v2_entry
    e5_base_v2_entry e5_large_v2_entry multilingual_e5_small_entry paraphrase_mini_lm_l6_v2_entry
    paraphrase_multilingual_mini_lm_l12_v2_entry paraphrase_multilingual_mpnet_base_v2_entry
    multi_qa_mini_lm_l6_cos_v1_entry multilingual_e5_base_entry mxbai_embed_large_v1_entry
    snowflake_arctic_embed_mv15_entry
registry =
    all_mini_lm_l6_v2_entry ∷ all_mini_lm_l12_v2_entry ∷ all_mpnet_base_v2_entry
    ∷ bge_small_en_v15_entry ∷ bge_base_en_v15_entry ∷ bge_large_en_v15_entry ∷ e5_small_v2_entry
    ∷ e5_base_v2_entry ∷ e5_large_v2_entry ∷ multilingual_e5_small_entry
    ∷ paraphrase_mini_lm_l6_v2_entry ∷ paraphrase_multilingual_mini_lm_l12_v2_entry
    ∷ paraphrase_multilingual_mpnet_base_v2_entry ∷ multi_qa_mini_lm_l6_cos_v1_entry
    ∷ multilingual_e5_base_entry ∷ mxbai_embed_large_v1_entry ∷ snowflake_arctic_embed_mv15_entry
    ∷ []

-- `kModels`, written out a second time by the generator.
unfoldable pub models : List ModelInfo
models =
    record {
      id = all_mini_lm_l6_v2;
      name = codes "sentence-transformers/all-MiniLM-L6-v2";
      revision = codes "1110a243fdf4706b3f48f1d95db1a4f5529b4d41";
      dimension = 384;
      max_seq_length = 256;
      normalize = true;
    }
    ∷ record {
      id = all_mini_lm_l12_v2;
      name = codes "sentence-transformers/all-MiniLM-L12-v2";
      revision = codes "a50ef00143b4d5391434df20ae11632588ac25be";
      dimension = 384;
      max_seq_length = 128;
      normalize = true;
    }
    ∷ record {
      id = all_mpnet_base_v2;
      name = codes "sentence-transformers/all-mpnet-base-v2";
      revision = codes "e8c3b32edf5434bc2275fc9bab85f82640a19130";
      dimension = 768;
      max_seq_length = 384;
      normalize = true;
    }
    ∷ record {
      id = bge_small_en_v15;
      name = codes "BAAI/bge-small-en-v1.5";
      revision = codes "5c38ec7c405ec4b44b94cc5a9bb96e735b38267a";
      dimension = 384;
      max_seq_length = 512;
      normalize = true;
    }
    ∷ record {
      id = bge_base_en_v15;
      name = codes "BAAI/bge-base-en-v1.5";
      revision = codes "a5beb1e3e68b9ab74eb54cfd186867f64f240e1a";
      dimension = 768;
      max_seq_length = 512;
      normalize = true;
    }
    ∷ record {
      id = bge_large_en_v15;
      name = codes "BAAI/bge-large-en-v1.5";
      revision = codes "d4aa6901d3a41ba39fb536a557fa166f842b0e09";
      dimension = 1024;
      max_seq_length = 512;
      normalize = true;
    }
    ∷ record {
      id = e5_small_v2;
      name = codes "intfloat/e5-small-v2";
      revision = codes "ffb93f3bd4047442299a41ebb6fa998a38507c52";
      dimension = 384;
      max_seq_length = 512;
      normalize = true;
    }
    ∷ record {
      id = e5_base_v2;
      name = codes "intfloat/e5-base-v2";
      revision = codes "f52bf8ec8c7124536f0efb74aca902b2995e5bcd";
      dimension = 768;
      max_seq_length = 512;
      normalize = true;
    }
    ∷ record {
      id = e5_large_v2;
      name = codes "intfloat/e5-large-v2";
      revision = codes "f169b11e22de13617baa190a028a32f3493550b6";
      dimension = 1024;
      max_seq_length = 512;
      normalize = true;
    }
    ∷ record {
      id = multilingual_e5_small;
      name = codes "intfloat/multilingual-e5-small";
      revision = codes "614241f622f53c4eeff9890bdc4f31cfecc418b3";
      dimension = 384;
      max_seq_length = 512;
      normalize = true;
    }
    ∷ record {
      id = paraphrase_mini_lm_l6_v2;
      name = codes "sentence-transformers/paraphrase-MiniLM-L6-v2";
      revision = codes "c9a2bfebc254878aee8c3aca9e6844d5bbb102d1";
      dimension = 384;
      max_seq_length = 128;
      normalize = false;
    }
    ∷ record {
      id = paraphrase_multilingual_mini_lm_l12_v2;
      name = codes "sentence-transformers/paraphrase-multilingual-MiniLM-L12-v2";
      revision = codes "e8f8c211226b894fcb81acc59f3b34ba3efd5f42";
      dimension = 384;
      max_seq_length = 128;
      normalize = false;
    }
    ∷ record {
      id = paraphrase_multilingual_mpnet_base_v2;
      name = codes "sentence-transformers/paraphrase-multilingual-mpnet-base-v2";
      revision = codes "4328cf26390c98c5e3c738b4460a05b95f4911f5";
      dimension = 768;
      max_seq_length = 128;
      normalize = false;
    }
    ∷ record {
      id = multi_qa_mini_lm_l6_cos_v1;
      name = codes "sentence-transformers/multi-qa-MiniLM-L6-cos-v1";
      revision = codes "b207367332321f8e44f96e224ef15bc607f4dbf0";
      dimension = 384;
      max_seq_length = 512;
      normalize = true;
    }
    ∷ record {
      id = multilingual_e5_base;
      name = codes "intfloat/multilingual-e5-base";
      revision = codes "d128750597153bb5987e10b1c3493a34e5a4502a";
      dimension = 768;
      max_seq_length = 512;
      normalize = true;
    }
    ∷ record {
      id = mxbai_embed_large_v1;
      name = codes "mixedbread-ai/mxbai-embed-large-v1";
      revision = codes "b33106f585b9ce46904ad7443a3b52b7a63e231c";
      dimension = 1024;
      max_seq_length = 512;
      normalize = false;
    }
    ∷ record {
      id = snowflake_arctic_embed_mv15;
      name = codes "Snowflake/snowflake-arctic-embed-m-v1.5";
      revision = codes "e58a8f756156a1293d763f17e3aae643474e9b8a";
      dimension = 768;
      max_seq_length = 512;
      normalize = true;
    }
    ∷ []

-- `kModelCount`.
abbrev pub model_count : ℕ
model_count = 17
