-- ===== src/Registry/Table/Bge.antt =====
-- src/registry_generated.hpp: the entries of the models pooled by their first token.
use cyborgdb_embed.Prelude.{true, false, codes}
use cyborgdb_embed.Pooling.{cls_token}
use cyborgdb_embed.Registry.{
  RegistryEntry, bge_small_en_v15, bge_base_en_v15, bge_large_en_v15, mxbai_embed_large_v1,
  snowflake_arctic_embed_mv15,
}

unfoldable pub bge_small_en_v15_entry : RegistryEntry
bge_small_en_v15_entry = record {
  info = record {
    id = bge_small_en_v15;
    name = codes "BAAI/bge-small-en-v1.5";
    revision = codes "5c38ec7c405ec4b44b94cc5a9bb96e735b38267a";
    dimension = 384;
    max_seq_length = 512;
    normalize = true;
  };
  onnx_path = codes "onnx/model.onnx";
  onnx_sha256 = codes "828e1496d7fabb79cfa4dcd84fa38625c0d3d21da474a00f08db0f559940cf35";
  tokenizer_sha256 = codes "d241a60d5e8f04cc1b2b3e9ef7a4921b27bf526d9f6050ab90f9267a1f9e5c66";
  query_prefix = codes "Represent this sentence for searching relevant passages: ";
  doc_prefix = codes "";
  pooling = cls_token;
}

unfoldable pub bge_base_en_v15_entry : RegistryEntry
bge_base_en_v15_entry = record {
  info = record {
    id = bge_base_en_v15;
    name = codes "BAAI/bge-base-en-v1.5";
    revision = codes "a5beb1e3e68b9ab74eb54cfd186867f64f240e1a";
    dimension = 768;
    max_seq_length = 512;
    normalize = true;
  };
  onnx_path = codes "onnx/model.onnx";
  onnx_sha256 = codes "9bc579acdba21c253c62a9bf866891355a63ffa3442b52c8a37d75b2ccb91848";
  tokenizer_sha256 = codes "d241a60d5e8f04cc1b2b3e9ef7a4921b27bf526d9f6050ab90f9267a1f9e5c66";
  query_prefix = codes "Represent this sentence for searching relevant passages: ";
  doc_prefix = codes "";
  pooling = cls_token;
}

unfoldable pub bge_large_en_v15_entry : RegistryEntry
bge_large_en_v15_entry = record {
  info = record {
    id = bge_large_en_v15;
    name = codes "BAAI/bge-large-en-v1.5";
    revision = codes "d4aa6901d3a41ba39fb536a557fa166f842b0e09";
    dimension = 1024;
    max_seq_length = 512;
    normalize = true;
  };
  onnx_path = codes "onnx/model.onnx";
  onnx_sha256 = codes "69ed3f810d3b6d13f70dff9ca89966f39c0a0e877fb88211be7bcc070df2a2ce";
  tokenizer_sha256 = codes "d241a60d5e8f04cc1b2b3e9ef7a4921b27bf526d9f6050ab90f9267a1f9e5c66";
  query_prefix = codes "Represent this sentence for searching relevant passages: ";
  doc_prefix = codes "";
  pooling = cls_token;
}

unfoldable pub mxbai_embed_large_v1_entry : RegistryEntry
mxbai_embed_large_v1_entry = record {
  info = record {
    id = mxbai_embed_large_v1;
    name = codes "mixedbread-ai/mxbai-embed-large-v1";
    revision = codes "b33106f585b9ce46904ad7443a3b52b7a63e231c";
    dimension = 1024;
    max_seq_length = 512;
    normalize = false;
  };
  onnx_path = codes "onnx/model.onnx";
  onnx_sha256 = codes "adb53ed475faa339bfad3bd2bdb7e6a30b4f47280ade9811f81bef7953f9ab77";
  tokenizer_sha256 = codes "d241a60d5e8f04cc1b2b3e9ef7a4921b27bf526d9f6050ab90f9267a1f9e5c66";
  query_prefix = codes "Represent this sentence for searching relevant passages: ";
  doc_prefix = codes "";
  pooling = cls_token;
}

unfoldable pub snowflake_arctic_embed_mv15_entry : RegistryEntry
snowflake_arctic_embed_mv15_entry = record {
  info = record {
    id = snowflake_arctic_embed_mv15;
    name = codes "Snowflake/snowflake-arctic-embed-m-v1.5";
    revision = codes "e58a8f756156a1293d763f17e3aae643474e9b8a";
    dimension = 768;
    max_seq_length = 512;
    normalize = true;
  };
  onnx_path = codes "onnx/model.onnx";
  onnx_sha256 = codes "bc6f7662487a0796e6f86229c8e5c3ab2f7059e08e0bb2f524125273f72171c4";
  tokenizer_sha256 = codes "91f1def9b9391fdabe028cd3f3fcc4efd34e5d1f08c3bf2de513ebb5911a1854";
  query_prefix = codes "Represent this sentence for searching relevant passages: ";
  doc_prefix = codes "";
  pooling = cls_token;
}
