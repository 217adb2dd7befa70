-- ===== src/Session.antt =====
-- src/session_ort.cpp, `make_ort_session`: the session of a graph and a tokenizer. What ONNX Runtime
-- makes of a file is a parameter.
pub mod Runtime
pub mod Tensors
pub mod Outputs
pub mod Requests
pub mod Load
pub mod Settled
pub mod Loader
mod Examples
use mathlib.Core.List.{map}
use cyborgdb_embed.Prelude.{
  ℕ, Bool, true, false, not, ◌&&◌, ◌||◌, ◌⊎◌, inl, inr, List, [], ◌∷◌, ◌++◌, Option, none, some,
  if◌then◌else◌, Text, codes, text_eq, Memory,
}
use cyborgdb_embed.Status.{
  Status, success, is_ok, invalid_argument, model_load_failed, provider_unavailable,
  precision_unavailable,
}
use cyborgdb_embed.Float.{Float}
use cyborgdb_embed.Config.{CacheConfig}
use cyborgdb_embed.Registry.{
  Provider, cpu, Precision, fp32, RegistryEntry, provider_available, precision_available,
}
use cyborgdb_embed.Registry.Table.{registry_version}
use cyborgdb_embed.Registry.Lookup.{is_empty}
use cyborgdb_embed.Resolve.Download.{Disk}
use cyborgdb_embed.Resolve.Digest.{Digest}
use cyborgdb_embed.Resolve.Install.{Files, ensure_graph, ensure_tokenizer}
use cyborgdb_embed.Onnx.{GraphOptimizationLevel, enable_all, OrtApiBase}
use cyborgdb_embed.Session.Runtime.{MakeEnv, Runtime as PoolState, environment}
use cyborgdb_embed.Tokenizer.Shim.{Library}
use cyborgdb_embed.Tokenizer.{Tokenizer, load}
use cyborgdb_embed.Session.Tensors.{RunRequest, run_request, token_type_name}
use cyborgdb_embed.Encode.{Run, Inference, Model, Pointer, encode}

-- A graph that ONNX Runtime has opened: the names of its inputs and outputs, and what a run of it
-- gives.
pub record Graph (F : Type 0) : Type 0 where
  pub inputs : List Text
  pub outputs : List Text
  pub run : RunRequest → Inference F

-- `Ort::SessionOptions`, as `make_ort_session` fills it.
pub record SessionOptions : Type 0 where
  pub per_session_threads : Bool
  pub optimization : GraphOptimizationLevel

abbrev pub session_options : SessionOptions
session_options = record { per_session_threads = false; optimization = enable_all }

-- What the library calls of ONNX Runtime: the base of its API, the construction of the environment,
-- and that of a session from a file.
pub record OnnxRuntime (F : Type 0) : Type 0 where
  pub base : Option OrtApiBase
  pub make_env : MakeEnv
  pub open_graph : SessionOptions → Text → Text ⊎ Graph F

-- `session_.Run` of a graph, for the output that is pooled.
unfoldable pub run_graph : {F : Type 0} → Graph F → Text → Run F
unfolding run_request
run_graph g hidden_output rows width input_ids mask token_types =
    g.run (run_request hidden_output rows width input_ids mask token_types)

-- The loop over the outputs.
unfoldable pub choose_output : Text → List Text → Text
unfolding is_empty
choose_output hidden_output [] = hidden_output
choose_output hidden_output (name ∷ names) =
    choose_output
      (if text_eq name (codes "last_hidden_state")
          || (text_eq name (codes "token_embeddings") && is_empty hidden_output)
        then name
        else hidden_output)
      names

-- The loop over the inputs.
unfoldable pub has_input : Bool → List Text → Bool
has_input needs [] = needs
has_input needs (name ∷ names) =
    has_input (if text_eq name token_type_name then true else needs) names

module _ (fl : Float) (lib : Library) where
  open fl use {F}

  -- The fields that every session has, and those of `OrtSession`.
  pub record Session : Type 0 where
    pub entry : RegistryEntry
    pub provider : Provider
    pub precision : Precision
    pub tokenizer : Tokenizer lib
    pub needs_token_type_ids : Bool
    pub run : Run F

  -- The session of a graph, or the exception of its construction.
  unfoldable pub graph_session :
      RegistryEntry
      → Provider
      → Precision
      → Tokenizer lib
      → Text ⊎ Graph F
      → Status × Option Session
  unfolding choose_output has_input is_empty run_graph
  graph_session entry provider precision tokenizer (inl what) =
      (record { code = model_load_failed; message = what }, none)
  graph_session entry provider precision tokenizer (inr g) =
      let hidden_output = choose_output [] g.outputs in
      if is_empty hidden_output
      then (
        record {
          code = model_load_failed;
          message = codes "graph has neither a last_hidden_state nor a token_embeddings output";
        },
        none,
      )
      else (
        success,
        some (record {
          entry = entry;
          provider = provider;
          precision = precision;
          tokenizer = tokenizer;
          needs_token_type_ids = has_input false g.inputs;
          run = run_graph g hidden_output;
        }),
      )

  -- After `environment`: its exception, or the session on its pool.
  unfoldable pub start_session :
      OnnxRuntime F
      → RegistryEntry
      → Provider
      → Precision
      → Text
      → Tokenizer lib
      → Option Text × PoolState
      → Status × Option Session × PoolState
  unfolding graph_session
  start_session ort entry provider precision graph tokenizer (some what, runtime) =
      (record { code = model_load_failed; message = what }, none, runtime)
  start_session ort entry provider precision graph tokenizer (none, runtime) =
      let r =
        graph_session entry provider precision tokenizer (ort.open_graph session_options graph) in
      (r.0, r.1, runtime)

  -- After `Tokenizer::load`.
  unfoldable pub tokenized_session :
      OnnxRuntime F
      → RegistryEntry
      → Provider
      → Precision
      → Text
      → PoolState
      → Status × Option (Tokenizer lib)
      → Status × Option Session × PoolState
  unfolding start_session environment
  tokenized_session ort entry provider precision graph runtime (status, none) =
      (status, none, runtime)
  tokenized_session ort entry provider precision graph runtime (status, some tokenizer) =
      start_session ort entry provider precision graph tokenizer (environment ort.make_env runtime)

  unfoldable pub make_ort_session :
      OnnxRuntime F
      → RegistryEntry
      → Provider
      → Precision
      → Text
      → Text
      → Disk
      → PoolState
      → Status × Option Session × PoolState
  unfolding tokenized_session load
  make_ort_session ort entry provider precision graph tokenizer_json disk runtime =
      tokenized_session ort entry provider precision graph runtime
        (load lib disk tokenizer_json entry.info.max_seq_length)
