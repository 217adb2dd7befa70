-- ===== src/Registry/Table/E5.antt =====
-- src/registry_generated.hpp: the entries of the e5 models.
use cyborgdb_embed.Prelude.{true, codes}
use cyborgdb_embed.Pooling.{mean_tokens}
use cyborgdb_embed.Registry.{
  RegistryEntry, e5_small_v2, e5_base_v2, e5_large_v2, multilingual_e5_small, multilingual_e5_base,
}

unfoldable pub e5_small_v2_entry : RegistryEntry
e5_small_v2_entry = record {
  info = record {
    id = e5_small_v2;
    name = codes "intfloat/e5-small-v2";
    revision = codes "ffb93f3bd4047442299a41ebb6fa998a38507c52";
    dimension = 384;
    max_seq_length = 512;
    normalize = true;
  };
  onnx_path = codes "model.onnx";
  onnx_sha256 = codes "4b8205be2a3c5fc53c6534d76a2012064f7309c162b806f2889c6ec8ec4fdcba";
  tokenizer_sha256 = codes "d241a60d5e8f04cc1b2b3e9ef7a4921b27bf526d9f6050ab90f9267a1f9e5c66";
  query_prefix = codes "query: ";
  doc_prefix = codes "passage: ";
  pooling = mean_tokens;
}

unfoldable pub e5_base_v2_entry : RegistryEntry
e5_base_v2_entry = record {
  info = record {
    id = e5_base_v2;
    name = codes "intfloat/e5-base-v2";
    revision = codes "f52bf8ec8c7124536f0efb74aca902b2995e5bcd";
    dimension = 768;
    max_seq_length = 512;
    normalize = true;
  };
  onnx_path = codes "onnx/model.onnx";
  onnx_sha256 = codes "157f97ef1957d34f52efa26f8031371bf9043acc45460cec7ebe94631ac0e96b";
  tokenizer_sha256 = codes "d241a60d5e8f04cc1b2b3e9ef7a4921b27bf526d9f6050ab90f9267a1f9e5c66";
  query_prefix = codes "query: ";
  doc_prefix = codes "passage: ";
  pooling = mean_tokens;
}

unfoldable pub e5_large_v2_entry : RegistryEntry
e5_large_v2_entry = record {
  info = record {
    id = e5_large_v2;
    name = codes "intfloat/e5-large-v2";
    revision = codes "f169b11e22de13617baa190a028a32f3493550b6";
    dimension = 1024;
    max_seq_length = 512;
    normalize = true;
  };
  onnx_path = codes "onnx/model.onnx";
  onnx_sha256 = codes "f560bbc5da586764fc6ccf54990bac71f94e5a872ed4e1889039391c849cbcf8";
  tokenizer_sha256 = codes "d241a60d5e8f04cc1b2b3e9ef7a4921b27bf526d9f6050ab90f9267a1f9e5c66";
  query_prefix = codes "query: ";
  doc_prefix = codes "passage: ";
  pooling = mean_tokens;
}

unfoldable pub multilingual_e5_small_entry : RegistryEntry
multilingual_e5_small_entry = record {
  info = record {
    id = multilingual_e5_small;
    name = codes "intfloat/multilingual-e5-small";
    revision = codes "614241f622f53c4eeff9890bdc4f31cfecc418b3";
    dimension = 384;
    max_seq_length = 512;
    normalize = true;
  };
  onnx_path = codes "onnx/model.onnx";
  onnx_sha256 = codes "ca456c06b3a9505ddfd9131408916dd79290368331e7d76bb621f1cba6bc8665";
  tokenizer_sha256 = codes "0b44a9d7b51c3c62626640cda0e2c2f70fdacdc25bbbd68038369d14ebdf4c39";
  query_prefix = codes "query: ";
  doc_prefix = codes "passage: ";
  pooling = mean_tokens;
}

unfoldable pub multilingual_e5_base_entry : RegistryEntry
multilingual_e5_base_entry = record {
  info = record {
    id = multilingual_e5_base;
    name = codes "intfloat/multilingual-e5-base";
    revision = codes "d128750597153bb5987e10b1c3493a34e5a4502a";
    dimension = 768;
    max_seq_length = 512;
    normalize = true;
  };
  onnx_path = codes "onnx/model.onnx";
  onnx_sha256 = codes "84a4d426f7e87a6bf5bf195f0bae2c4a7d15f675b23ca96f42fab8326d7a77aa";
  tokenizer_sha256 = codes "62c24cdc13d4c9952d63718d6c9fa4c287974249e16b7ade6d5a85e7bbb75626";
  query_prefix = codes "query: ";
  doc_prefix = codes "passage: ";
  pooling = mean_tokens;
}
