-- ===== src/Session/Examples.antt =====
-- src/session_ort.cpp: the thread pool and the outputs of a graph, on short examples.
use cyborgdb_embed.Prelude.{◌≡◌, refl, false, List, [], ◌∷◌, Option, none, some, codes}
use cyborgdb_embed.Status.{Ending}
use cyborgdb_embed.Config.{CacheConfig}
use cyborgdb_embed.Registry.{cpu, fp32}
use cyborgdb_embed.Registry.Table.{all_mini_lm_l6_v2_entry}
use cyborgdb_embed.Onnx.{no_table}
use cyborgdb_embed.Prelude.{ℕ, true}
use cyborgdb_embed.Registry.Lookup.{is_empty}
use cyborgdb_embed.Tokenizer.{Tokenizer}
use cyborgdb_embed.Encode.{hidden, infer}
use cyborgdb_embed.Embedder.{session_model}
use cyborgdb_embed.Session.Tensors.{RunRequest}
use cyborgdb_embed.Session.Requests.{Fits, requests_fit}
use cyborgdb_embed.Session.{choose_output, Session, Graph, graph_session, has_input, run_graph}
use cyborgdb_embed.Fixtures.{numbers, bytes_library, offline_files, ids_runtime}
use cyborgdb_embed.Session.Load.{Host, Answers, load_session}
use cyborgdb_embed.Session.Settled.{load_session_total}
use cyborgdb_embed.Prelude.{pos}
use cyborgdb_embed.Session.Runtime.{
  MakeEnv, threading, Use, configures, opens, first_runtime, after_all, pool_frozen,
}

abbrev makes : MakeEnv
makes options level name = none

abbrev opened : List Use
opened = configures (pos 4) ∷ opens makes ∷ []

abbrev retried : List Use
retried = configures (pos 8) ∷ opens makes ∷ configures (pos 4) ∷ []

pool_frozen_example :
    ((after_all opened first_runtime).pool
      ≡ some (threading (after_all opened first_runtime).threads))
    × (after_all retried (after_all opened first_runtime) ≡ after_all opened first_runtime)
unfolding after_all
pool_frozen_example = pool_frozen opened retried refl

abbrev first_host : Host
first_host = record {
  machine = record { disk = λ _. none; transfers = 0; slept = [] };
  runtime = first_runtime;
  api = no_table;
}

abbrev default_config : CacheConfig
default_config = record { cache_dir = []; endpoint = []; offline = false }

load_session_total_example :
    (r : Ending × Host × Option (Session numbers bytes_library)) × (load_session numbers
        bytes_library offline_files ids_runtime all_mini_lm_l6_v2_entry cpu fp32 default_config
        first_host
      ≡ some r)
    × Answers numbers bytes_library all_mini_lm_l6_v2_entry cpu fp32 r.0 r.2
load_session_total_example =
    load_session_total numbers bytes_library offline_files ids_runtime all_mini_lm_l6_v2_entry cpu
      fp32 default_config first_host

-- A graph that asks for the token types.
abbrev typed_graph : Graph ℕ
typed_graph = record {
  inputs = codes "input_ids" ∷ codes "token_type_ids" ∷ [];
  outputs = codes "last_hidden_state" ∷ [];
  run = λ request. hidden (λ _. 0);
}

abbrev typed_tokenizer : Tokenizer bytes_library
typed_tokenizer = record { handle = record { tokenizer = 4 }; max_tokens = 4 }

abbrev typed_session : Session numbers bytes_library
typed_session = record {
  entry = all_mini_lm_l6_v2_entry;
  provider = cpu;
  precision = fp32;
  tokenizer = typed_tokenizer;
  needs_token_type_ids = true;
  run = run_graph typed_graph (codes "last_hidden_state");
}

requests_fit_example :
    (request : RunRequest) × (infer numbers
        (session_model numbers bytes_library typed_session)
        (λ k. 7 ∷ [])
        (0 ∷ 1 ∷ [])
        1
      ≡ typed_graph.run request)
    × Fits typed_graph 2 1 request
unfolding graph_session choose_output has_input is_empty run_graph
requests_fit_example =
    requests_fit numbers bytes_library all_mini_lm_l6_v2_entry cpu fp32 typed_tokenizer typed_graph
      typed_session refl (λ k. 7 ∷ []) (0 ∷ 1 ∷ []) 1
