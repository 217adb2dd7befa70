-- ===== src/Session/Tensors.antt =====
-- src/session_ort.cpp, `OrtSession::encode`: what `session_.Run` is given for one batch. The tensors are
-- over the buffers of the batch, and ONNX Runtime has them by name.
use cyborgdb_embed.Prelude.{ℕ, ◌*◌, List, [], ◌∷◌, Option, none, some, Text, codes, Memory}
use cyborgdb_embed.Onnx.{
  AllocatorType, arena_allocator, MemType, default_memory, ElementType, int64_type,
}

-- `Ort::MemoryInfo::CreateCpu`.
pub record MemoryInfo : Type 0 where
  pub allocator : AllocatorType
  pub mem_type : MemType

abbrev pub memory : MemoryInfo
memory = record { allocator = arena_allocator; mem_type = default_memory }

-- `Ort::Value::CreateTensor`: a buffer of `count` elements with a shape.
pub record Tensor : Type 0 where
  pub info : MemoryInfo
  pub element : ElementType
  pub data_at : Memory ℕ
  pub count : ℕ
  pub shape : List ℕ

-- The arguments of `session_.Run`.
pub record RunRequest : Type 0 where
  pub names : List Text
  pub inputs : List Tensor
  pub outputs : List Text

abbrev pub token_type_name : Text
token_type_name = codes "token_type_ids"

-- `CreateTensor<std::int64_t>` over a buffer of the batch.
unfoldable pub batch_tensor : ℕ → ℕ → Memory ℕ → Tensor
batch_tensor rows width buffer = record {
  info = memory;
  element = int64_type;
  data_at = buffer;
  count = rows * width;
  shape = rows ∷ width ∷ [];
}

-- The names and the tensors; those of the token types where the graph asks for them.
unfoldable pub run_request : Text → ℕ → ℕ → Memory ℕ → Memory ℕ → Option (Memory ℕ) → RunRequest
unfolding batch_tensor
run_request hidden_output rows width input_ids mask none = record {
  names = codes "input_ids" ∷ codes "attention_mask" ∷ [];
  inputs = batch_tensor rows width input_ids ∷ batch_tensor rows width mask ∷ [];
  outputs = hidden_output ∷ [];
}
run_request hidden_output rows width input_ids mask (some token_types) = record {
  names = codes "input_ids" ∷ codes "attention_mask" ∷ token_type_name ∷ [];
  inputs =
      batch_tensor rows width input_ids
      ∷ batch_tensor rows width mask
      ∷ batch_tensor rows width token_types
      ∷ [];
  outputs = hidden_output ∷ [];
}
