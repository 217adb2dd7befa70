-- ===== src/Process/Api.antt =====
-- include/cyborgdb_embed/embed.hpp: every function of the interface as a request to the process, and
-- programs as lists of requests.
use cyborgdb_embed.Prelude.{ℕ, Bool, false, List, [], ◌∷◌, Option, none, some, Text, Memory}
use cyborgdb_embed.Status.{Status, success, Ending, ends, throws}
use cyborgdb_embed.Float.{Float}
use cyborgdb_embed.Config.{CacheConfig}
use cyborgdb_embed.Registry.{
  ModelId, ModelInfo, Provider, Precision, provider_available, precision_available,
}
use cyborgdb_embed.Registry.Table.{models, model_count}
use cyborgdb_embed.Registry.Lookup.{info, find_model}
use cyborgdb_embed.Resolve.Download.{Machine}
use cyborgdb_embed.Session.Loader.{Loader}
use cyborgdb_embed.Onnx.{no_table}
use cyborgdb_embed.Tokenizer.Shim.{Library}
use cyborgdb_embed.Encode.{Pointer}
use cyborgdb_embed.Session.Runtime.{RuntimeConfig, first_runtime}
use cyborgdb_embed.Embedder.{Identity, valid, dimension, identity, embed_documents, embed_queries}
use cyborgdb_embed.Store as Store
use cyborgdb_embed.Store.{LoadedModel, LoadStats, stats}
use cyborgdb_embed.Store.World.{configured, use_count, step, start}
use cyborgdb_embed.Process.{Options, Process, open_model, copy, move, destroy, embedder}

-- The functions that need nothing loaded.
pub data Query : Type 0 where
  supported_models : Query
  model_info : ModelId → Query
  model_named : Text → ModelId → Query
  has_provider : Provider → Query
  has_precision : ModelId → Precision → Query

pub data QueryAnswer : Type 0 where
  table : List ModelInfo → ℕ → QueryAnswer
  one_model : ModelInfo → QueryAnswer
  found : Status → ModelId → QueryAnswer
  available : Bool → QueryAnswer

unfoldable pub answer_query : Query → QueryAnswer
unfolding models info find_model provider_available precision_available
answer_query supported_models = table models model_count
answer_query (model_info id) = one_model (info id)
answer_query (model_named name out) = let r = find_model name out in found r.0 r.1
answer_query (has_provider provider) = available (provider_available provider)
answer_query (has_precision id precision) = available (precision_available id precision)

-- The calls on the process and on its embedders, which go by their variables. A default constructor
-- is that of a variable at its start, a copy or a move the assignment.
pub data Request (F : Type 0) : Type 0 where
  opens : ModelId → Options → ℕ → Request F
  copies moves : ℕ → ℕ → Request F
  destroys : ℕ → Request F
  asks_valid asks_dimension asks_identity : ℕ → Request F
  embeds_documents embeds_queries : ℕ → Pointer (List Text) → ℕ → Pointer (Memory F) → ℕ → Request F
  configures_runtime : RuntimeConfig → Request F
  configures_cache : CacheConfig → Request F
  asks_loaded_models asks_load_stats asks_runtime_version : Request F

pub data Answer (F : Type 0) : Type 0 where
  done threw : Answer F
  ended : Status → Answer F
  wrote : Status → Memory F → Answer F
  is_valid : Bool → Answer F
  has_dimension : ℕ → Answer F
  has_identity : Identity → Answer F
  has_models : List LoadedModel → Answer F
  has_stats : LoadStats → Answer F
  has_version : Text → Answer F

module _ (fl : Float) (lib : Library) (loader : Loader fl lib) where
  open fl use {F}

  abbrev Proc : Type 0
  Proc = Process fl lib loader

  -- A process at its start, on a machine.
  abbrev pub first_process : Machine → Proc
  first_process machine = record {
    host = record { machine = machine; runtime = first_runtime; api = no_table };
    world = start (record { cache_dir = []; endpoint = []; offline = false });
    sessions = λ _. none;
    impls = λ _. record { session = 0; owners = 0 };
    next_impl = 0;
    embedders = λ _. none;
  }

  unfoldable pub loaded_models : Proc → List LoadedModel
  unfolding Store.loaded_models
  loaded_models process =
      Store.loaded_models (use_count process.world.flights) process.world.store.entries

  unfoldable pub load_stats : Proc → LoadStats
  unfolding stats
  load_stats process = stats process.world.store

  unfoldable pub runtime_version : Text
  runtime_version = loader.ort_version

  -- What `open` gives, as an answer.
  unfoldable pub ended_as : Option (Ending × Proc) → Option (Answer F × Proc)
  ended_as none = none
  ended_as (some (ends status, process)) = some (ended status, process)
  ended_as (some (throws, process)) = some (threw, process)

  -- What an `embed_…` gives, as an answer; the process stays as it is.
  unfoldable pub wrote_as : Proc → Option (Status × Memory F) → Option (Answer F × Proc)
  wrote_as process none = none
  wrote_as process (some (status, out)) = some (wrote status out, process)

  -- One call, and the process after it.
  unfoldable pub handle : Request F → Proc → Option (Answer F × Proc)
  unfolding open_model copy move destroy embedder valid dimension identity embed_documents
      embed_queries step loaded_models load_stats runtime_version ended_as wrote_as
  handle (opens id options i) process = ended_as (open_model fl lib loader id options i process)
  handle (copies i j) process = some (done, copy fl lib loader i j process)
  handle (moves i j) process = some (done, move fl lib loader i j process)
  handle (destroys i) process = some (done, destroy fl lib loader i process)
  handle (asks_valid i) process =
      some (is_valid (valid fl lib (embedder fl lib loader process i)), process)
  handle (asks_dimension i) process =
      some (has_dimension (dimension fl lib (embedder fl lib loader process i)), process)
  handle (asks_identity i) process =
      some (has_identity (identity fl lib (embedder fl lib loader process i)), process)
  handle (embeds_documents i texts n out out_capacity) process =
      wrote_as process
        (embed_documents fl lib (embedder fl lib loader process i) texts n out out_capacity)
  handle (embeds_queries i texts n out out_capacity) process =
      wrote_as process
        (embed_queries fl lib (embedder fl lib loader process i) texts n out out_capacity)
  handle (configures_runtime config) process =
      let r = loader.configure_runtime config.threads process.host.runtime in
      some (ended r.0, record process { host = record process.host { runtime = r.1 } })
  handle (configures_cache config) process =
      some (ended success, record process { world = (step process.world (configured config)).0 })
  handle asks_loaded_models process = some (has_models (loaded_models process), process)
  handle asks_load_stats process = some (has_stats (load_stats process), process)
  handle asks_runtime_version process = some (has_version runtime_version, process)

  -- A program's calls, and what they return; where one throws, the program catches it and goes on.
  unfoldable pub serve : List (Request F) → Proc → Option (List (Answer F) × Proc)
  unfolding handle
  serve [] process = some ([], process)
  serve (request ∷ requests) process = elim (handle request process) [
    | none ↦ none
    | some (answer, next) ↦ elim (serve requests next) [
      | none ↦ none
      | some (answers, last) ↦ some (answer ∷ answers, last)
    ]
  ]
