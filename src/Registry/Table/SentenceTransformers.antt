-- ===== src/Registry/Table/SentenceTransformers.antt =====
-- src/registry_generated.hpp: the entries of the sentence-transformers models.
use cyborgdb_embed.Prelude.{true, false, codes}
use cyborgdb_embed.Pooling.{mean_tokens}
use cyborgdb_embed.Registry.{
  RegistryEntry, all_mini_lm_l6_v2, all_mini_lm_l12_v2, all_mpnet_base_v2, paraphrase_mini_lm_l6_v2,
  paraphrase_multilingual_mini_lm_l12_v2, paraphrase_multilingual_mpnet_base_v2,
  multi_qa_mini_lm_l6_cos_v1,
}

unfoldable pub all_mini_lm_l6_v2_entry : RegistryEntry
all_mini_lm_l6_v2_entry = record {
  info = record {
    id = all_mini_lm_l6_v2;
    name = codes "sentence-transformers/all-MiniLM-L6-v2";
    revision = codes "1110a243fdf4706b3f48f1d95db1a4f5529b4d41";
    dimension = 384;
    max_seq_length = 256;
    normalize = true;
  };
  onnx_path = codes "onnx/model.onnx";
  onnx_sha256 = codes "6fd5d72fe4589f189f8ebc006442dbb529bb7ce38f8082112682524616046452";
  tokenizer_sha256 = codes "be50c3628f2bf5bb5e3a7f17b1f74611b2561a3a27eeab05e5aa30f411572037";
  query_prefix = codes "";
  doc_prefix = codes "";
  pooling = mean_tokens;
}

unfoldable pub all_mini_lm_l12_v2_entry : RegistryEntry
all_mini_lm_l12_v2_entry = record {
  info = record {
    id = all_mini_lm_l12_v2;
    name = codes "sentence-transformers/all-MiniLM-L12-v2";
    revision = codes "a50ef00143b4d5391434df20ae11632588ac25be";
    dimension = 384;
    max_seq_length = 128;
    normalize = true;
  };
  onnx_path = codes "onnx/model.onnx";
  onnx_sha256 = codes "84c56795d395593cbee215e2d635a8f0ad3199ae99f99299c44cf1eaecff3ad4";
  tokenizer_sha256 = codes "be50c3628f2bf5bb5e3a7f17b1f74611b2561a3a27eeab05e5aa30f411572037";
  query_prefix = codes "";
  doc_prefix = codes "";
  pooling = mean_tokens;
}

unfoldable pub all_mpnet_base_v2_entry : RegistryEntry
all_mpnet_base_v2_entry = record {
  info = record {
    id = all_mpnet_base_v2;
    name = codes "sentence-transformers/all-mpnet-base-v2";
    revision = codes "e8c3b32edf5434bc2275fc9bab85f82640a19130";
    dimension = 768;
    max_seq_length = 384;
    normalize = true;
  };
  onnx_path = codes "onnx/model.onnx";
  onnx_sha256 = codes "74187b16d9c946fea252e120cfd7a12c5779d8b8b86838a2e4c56573c47941bd";
  tokenizer_sha256 = codes "b8be2c30ba5dd723a6d5ee26d013da103d5408d92ddcb23747622f9e48f1d842";
  query_prefix = codes "";
  doc_prefix = codes "";
  pooling = mean_tokens;
}

unfoldable pub paraphrase_mini_lm_l6_v2_entry : RegistryEntry
paraphrase_mini_lm_l6_v2_entry = record {
  info = record {
    id = paraphrase_mini_lm_l6_v2;
    name = codes "sentence-transformers/paraphrase-MiniLM-L6-v2";
    revision = codes "c9a2bfebc254878aee8c3aca9e6844d5bbb102d1";
    dimension = 384;
    max_seq_length = 128;
    normalize = false;
  };
  onnx_path = codes "onnx/model.onnx";
  onnx_sha256 = codes "441a5dc61ff3b889892feeb7aa0400518cc9908603209c45861ba3abef3006bc";
  tokenizer_sha256 = codes "5fd1c882abbd30517dced455a2c9768945ec726b96727927e4959348d9de550b";
  query_prefix = codes "";
  doc_prefix = codes "";
  pooling = mean_tokens;
}

unfoldable pub paraphrase_multilingual_mini_lm_l12_v2_entry : RegistryEntry
paraphrase_multilingual_mini_lm_l12_v2_entry = record {
  info = record {
    id = paraphrase_multilingual_mini_lm_l12_v2;
    name = codes "sentence-transformers/paraphrase-multilingual-MiniLM-L12-v2";
    revision = codes "e8f8c211226b894fcb81acc59f3b34ba3efd5f42";
    dimension = 384;
    max_seq_length = 128;
    normalize = false;
  };
  onnx_path = codes "onnx/model.onnx";
  onnx_sha256 = codes "10f7a088420252b26caf819236ca2c9d2987afd0fc06fec7553b542a5655a05a";
  tokenizer_sha256 = codes "2c3387be76557bd40970cec13153b3bbf80407865484b209e655e5e4729076b8";
  query_prefix = codes "";
  doc_prefix = codes "";
  pooling = mean_tokens;
}

unfoldable pub paraphrase_multilingual_mpnet_base_v2_entry : RegistryEntry
paraphrase_multilingual_mpnet_base_v2_entry = record {
  info = record {
    id = paraphrase_multilingual_mpnet_base_v2;
    name = codes "sentence-transformers/paraphrase-multilingual-mpnet-base-v2";
    revision = codes "4328cf26390c98c5e3c738b4460a05b95f4911f5";
    dimension = 768;
    max_seq_length = 128;
    normalize = false;
  };
  onnx_path = codes "onnx/model.onnx";
  onnx_sha256 = codes "253e00bb467fcdcac714a7b2443330c28ffbecb6d1f791c92caaf2af468bfbaa";
  tokenizer_sha256 = codes "2c3387be76557bd40970cec13153b3bbf80407865484b209e655e5e4729076b8";
  query_prefix = codes "";
  doc_prefix = codes "";
  pooling = mean_tokens;
}

unfoldable pub multi_qa_mini_lm_l6_cos_v1_entry : RegistryEntry
multi_qa_mini_lm_l6_cos_v1_entry = record {
  info = record {
    id = multi_qa_mini_lm_l6_cos_v1;
    name = codes "sentence-transformers/multi-qa-MiniLM-L6-cos-v1";
    revision = codes "b207367332321f8e44f96e224ef15bc607f4dbf0";
    dimension = 384;
    max_seq_length = 512;
    normalize = true;
  };
  onnx_path = codes "onnx/model.onnx";
  onnx_sha256 = codes "826501e8460f6e1a83fa30a9b173f051100abda5559e1352efc0e3fe3136afc2";
  tokenizer_sha256 = codes "7fa9272f7ef1ebd1666bb3bfd9d4707660ff0076ca9d1671cd9a9c6e18e03331";
  query_prefix = codes "";
  doc_prefix = codes "";
  pooling = mean_tokens;
}
