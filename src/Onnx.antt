-- ===== src/Onnx.antt =====
-- src/ort_api.cpp: the one place where the library asks ONNX Runtime for its API table, and the
-- constants of onnxruntime_c_api.h that the library names. What ONNX Runtime answers is a parameter.
mod Examples
use cyborgdb_embed.Prelude.{
  ℕ, ◌≡◌, refl, inl, inr, Bool, true, false, ◌++◌, Option, none, some, if◌then◌else◌, Bool-cases,
  Text, [], codes, decimal,
}
use cyborgdb_embed.Status.{Status, success, model_load_failed}

pub data LoggingLevel : Type 0 where
  verbose info warning error fatal : LoggingLevel

pub data GraphOptimizationLevel : Type 0 where
  disable_all enable_basic enable_extended enable_layout enable_all : GraphOptimizationLevel

-- `OrtAllocatorType`.
pub data AllocatorType : Type 0 where
  invalid_allocator device_allocator arena_allocator read_only_allocator : AllocatorType

-- `OrtMemType`; its `OrtMemTypeCPU` is the same value as `OrtMemTypeCPUOutput`.
pub data MemType : Type 0 where
  cpu_input cpu_output default_memory : MemType

abbrev pub cpu_memory : MemType
cpu_memory = cpu_output

-- `ONNXTensorElementDataType`.
pub data ElementType : Type 0 where
  undefined_type float_type uint8_type int8_type uint16_type int16_type int32_type int64_type
        string_type bool_type :
      ElementType
  float16_type double_type uint32_type uint64_type complex64_type complex128_type bfloat16_type :
      ElementType
  float8_e4m3fn_type float8_e4m3fnuz_type float8_e5m2_type float8_e5m2fnuz_type : ElementType
  uint4_type int4_type float4_e2m1_type uint2_type int2_type float8_e8m0_type : ElementType

abbrev pub ort_api_version : ℕ
ort_api_version = 30

-- Whether there is a table of a version, and the version's text.
pub record OrtApiBase : Type 0 where
  pub get_api : ℕ → Bool
  pub get_version_string : Text

-- `g_once` and whether `g_api` points to a table.
pub record ApiTable : Type 0 where
  pub once : Bool
  pub api : Bool

abbrev pub no_table : ApiTable
no_table = record { once = false; api = false }

-- The body of `std::call_once`; the base is null where `OrtGetApiBase` gives none.
unfoldable pub acquire_table : Option OrtApiBase → ApiTable → ApiTable
acquire_table base table = if table.once then table else record {
  once = true;
  api = elim base [ none ↦ table.api | some b ↦ b.get_api ort_api_version ];
}

abbrev pub no_version : Status
no_version = record {
  code = model_load_failed;
  message = codes "ONNX Runtime does not provide API version " ++ decimal ort_api_version;
}

unfoldable pub init_ort : Option OrtApiBase → ApiTable → Status × ApiTable
unfolding acquire_table
init_ort base table = let t = acquire_table base table in (if t.api then success else no_version, t)

unfoldable pub ort_version : Option OrtApiBase → Text
ort_version base = elim base [ none ↦ [] | some b ↦ b.get_version_string ]

acquired_once :
    (base : Option OrtApiBase) (table : ApiTable) → (acquire_table base table).once ≡ true
unfolding acquire_table
acquired_once base table = elim (Bool-cases table.once) [
  | inl done ↦ rw done refl
  | inr first ↦ rw first refl
]

acquired_again :
    (base : Option OrtApiBase) (table : ApiTable)
    → table.once ≡ true
    → acquire_table base table ≡ table
unfolding acquire_table
acquired_again base table done = rw done

-- The first call settles the answer: whatever ONNX Runtime would say to a later call, that call
-- returns the status of the first and leaves the table as it is.
pub init_ort_settled :
    (base later : Option OrtApiBase) (table : ApiTable)
    → init_ort later (init_ort base table).1 ≡ init_ort base table
unfolding init_ort
init_ort_settled base later table =
    rw (acquired_again later (acquire_table base table) (acquired_once base table))

-- src/ort_api.hpp: what the rest of the library may call, over what it leaves behind.
pub record Contact : Type 1 where
  pub State : Type 0
  pub init_ort : State → Status × State
  pub ort_version : Text
  -- "Idempotent."
  pub idempotent : (state : State) → init_ort (init_ort state).1 ≡ init_ort state

-- src/ort_api.cpp behind it.
abbrev pub contact : Option OrtApiBase → Contact
contact base = record {
  State = ApiTable;
  init_ort = init_ort base;
  ort_version = ort_version base;
  idempotent = init_ort_settled base base;
}
