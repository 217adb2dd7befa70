-- ===== src/Process/Examples.antt =====
-- src/embed.cpp: a program that opens a model whose files are cached.
use cyborgdb_embed.Prelude.{◌+◌, ◌≡◌, refl, ◌⊎◌, true, false, List, [], ◌∷◌, none, some, codes}
use cyborgdb_embed.Status.{success, Ending, ends, throws, ended_well}
use cyborgdb_embed.Registry.{cpu, fp32, int8, e5_base_v2, precision_available}
use cyborgdb_embed.Registry.Lookup.{info}
use cyborgdb_embed.Registry.Table.{registry_version}
use cyborgdb_embed.Resolve.Download.{Machine}
use cyborgdb_embed.Session.Load.{no_precision}
use cyborgdb_embed.Embedder.{valid, dimension, identity}
use cyborgdb_embed.Fixtures.{numbers, bytes_library, ids_loader, denied_loader}
use cyborgdb_embed.Prelude.{write}
use cyborgdb_embed.Registry.{rank, provider_rank, precision_rank, provider_available}
use cyborgdb_embed.Registry.Table.{registry}
use cyborgdb_embed.Registry.Lookup.{find, find_in, is_empty}
use cyborgdb_embed.Resolve.Install.{ensure_file, ensure_graph, ensure_tokenizer}
use cyborgdb_embed.Onnx.{init_ort, acquire_table}
use cyborgdb_embed.Tokenizer.Shim.{tokenizer_new}
use cyborgdb_embed.Tokenizer.{load}
use cyborgdb_embed.Session.Runtime.{environment}
use cyborgdb_embed.Session.{
  choose_output, has_input, graph_session, start_session, tokenized_session, make_ort_session,
}
use cyborgdb_embed.Session.Load.{load_session, load_graph, load_model}
use cyborgdb_embed.Store as Store
use cyborgdb_embed.Store.{begin_acquire, start_load, insert, end_acquire, key_eq, key_lt}
use cyborgdb_embed.Store.World.{step, decided, finish_flight, publish_flight}
use cyborgdb_embed.Process.{
  acquire, continue, finish_load, answer, finish_open, assign, release, drop_session,
}
use cyborgdb_embed.Process.{Options, default_options, Process, open_model, embedder}
use cyborgdb_embed.Prelude.{ℕ, Memory, Text, length}
use cyborgdb_embed.Encode.{Pointer}
use cyborgdb_embed.Process.Api.{
  Request, Answer, opens, copies, destroys, embeds_queries, asks_loaded_models, serve,
  first_process,
}
use mathlib.Core.List.{Memᴰ}
use cyborgdb_embed.Prelude.{◌<◌, ◌↔◌, write_miss, arith}
use cyborgdb_embed.Session.{Session}
use cyborgdb_embed.Store.{LoadedModel}
use cyborgdb_embed.Store.Listed.{keys_increase}
use cyborgdb_embed.Process.Lifetime.{session_lifetime}
use cyborgdb_embed.Process.Outstanding.{outstanding, loaded_models_lem}
use cyborgdb_embed.Process.Api.{handle, ended, ended_as, loaded_models}
use cyborgdb_embed.Process.Serve.{serve_total}
use cyborgdb_embed.Process.Thrown.{open_throws_again}
use cyborgdb_embed.Process.Reached.{open_answers, open_refuses, reopen_shares}

-- Every file is cached.
abbrev cached : Machine
cached = record { disk = λ _. some (codes "{}"); transfers = 0; slept = [] }

abbrev TestProcess : Type 0
TestProcess = Process numbers bytes_library ids_loader

abbrev begin : TestProcess
begin = first_process numbers bytes_library ids_loader cached

abbrev int8_options : Options
int8_options = record { provider = cpu; precision = int8 }

abbrev questions : Pointer (List Text)
questions = record { is_null = false; target = codes "why" ∷ codes "when" ∷ [] }

abbrev fresh : Pointer (Memory ℕ)
fresh = record { is_null = false; target = λ _. 0 }

abbrev program : List (Request ℕ)
program =
    opens e5_base_v2 default_options 0
    ∷ copies 1 0
    ∷ embeds_queries 1 questions 2 fresh 2000
    ∷ destroys 0
    ∷ asks_loaded_models
    ∷ []

serve_total_example :
    (r : List (Answer ℕ) × TestProcess) × (serve numbers bytes_library ids_loader program begin
      ≡ some r)
    × (length r.0 ≡ 5)
serve_total_example = serve_total numbers bytes_library ids_loader cached program

open_answers_example :
    (r : Ending × TestProcess) × (open_model numbers bytes_library ids_loader e5_base_v2
        default_options 0 begin
      ≡ some r)
    × ((r.0 ≡ ends success)
          × ((valid numbers bytes_library (embedder numbers bytes_library ids_loader r.1 0) ≡ true)
              × (dimension numbers bytes_library (embedder numbers bytes_library ids_loader r.1 0)
                  ≡ (info e5_base_v2).dimension)
              × (identity numbers bytes_library (embedder numbers bytes_library ids_loader r.1 0)
                  ≡ record {
                    model = (info e5_base_v2).name;
                    revision = (info e5_base_v2).revision;
                    version = registry_version;
                    provider = cpu;
                    precision = fp32;
                  }))
        ⊎ ((ended_well r.0 ≡ false)
            × ((j : ℕ)
                → embedder numbers bytes_library ids_loader r.1 j
                  ≡ embedder numbers bytes_library ids_loader begin j)))
unfolding serve
open_answers_example =
    open_answers numbers bytes_library ids_loader cached [] [] begin refl e5_base_v2 default_options
      0

open_refuses_example :
    (r : Ending × TestProcess) × (open_model numbers bytes_library ids_loader e5_base_v2
        int8_options 0 begin
      ≡ some r)
    × (r.0 ≡ ends no_precision)
    × (r.1.host ≡ begin.host)
    × (r.1.embedders ≡ begin.embedders)
    × ((j : ℕ)
        → embedder numbers bytes_library ids_loader r.1 j
          ≡ embedder numbers bytes_library ids_loader begin j)
unfolding serve precision_available
open_refuses_example =
    open_refuses numbers bytes_library ids_loader cached [] [] begin refl e5_base_v2 int8_options 0
      refl

abbrev opened_process : TestProcess
opened_process =
    elim (open_model numbers bytes_library ids_loader e5_base_v2 default_options 0 begin) [
      | none ↦ begin
      | some r ↦ r.1
    ]

reopen_shares_example :
    (S : TestProcess) × (open_model numbers bytes_library ids_loader e5_base_v2 default_options 1
        opened_process
      ≡ some (ends success, S))
    × (S.host ≡ opened_process.host)
    × (S.world.store.loaded ≡ opened_process.world.store.loaded)
    × (S.world.store.shared ≡ opened_process.world.store.shared + 1)
    × ((embedder numbers bytes_library ids_loader S 1).session
        ≡ (embedder numbers bytes_library ids_loader opened_process 0).session)
unfolding serve open_model find find_in registry rank acquire begin_acquire Store.find start_load
    insert continue finish_load answer load_session load_graph load_model ensure_graph
    ensure_tokenizer ensure_file precision_available provider_available is_empty init_ort
    acquire_table make_ort_session tokenized_session start_session environment graph_session load
    tokenizer_new choose_output has_input step decided finish_flight publish_flight end_acquire
    key_eq key_lt provider_rank precision_rank finish_open assign release drop_session write
reopen_shares_example =
    reopen_shares numbers bytes_library ids_loader cached [] [] begin refl e5_base_v2
      default_options 0 opened_process 1 refl

abbrev opening : List (Request ℕ)
opening = opens e5_base_v2 default_options 0 ∷ []

session_lifetime_example :
    ((s : Session numbers bytes_library) × (opened_process.sessions 0 ≡ some s)) ↔ (
      (i : ℕ) × (k : ℕ) × (opened_process.embedders i ≡ some k)
      × ((opened_process.impls k).session ≡ 0))
unfolding serve handle ended_as open_model find find_in registry rank acquire begin_acquire
    Store.find start_load insert continue finish_load answer load_session load_graph load_model
    ensure_graph ensure_tokenizer ensure_file precision_available provider_available is_empty
    init_ort acquire_table make_ort_session tokenized_session start_session environment
    graph_session load tokenizer_new choose_output has_input step decided finish_flight
    publish_flight end_acquire key_eq key_lt provider_rank precision_rank finish_open assign release
    drop_session write
session_lifetime_example =
    session_lifetime numbers bytes_library ids_loader cached opening (ended success ∷ [])
      opened_process refl 0

loaded_models_lem_example :
    (keys_increase (loaded_models numbers bytes_library ids_loader opened_process) ≡ true)
    × ((l : LoadedModel)
        → Memᴰ l (loaded_models numbers bytes_library ids_loader opened_process) ↔ (
            (l.handles ≡ outstanding numbers bytes_library ids_loader opened_process 1 l.key)
            × (0 < l.handles)))
unfolding serve handle ended_as open_model find find_in registry rank acquire begin_acquire
    Store.find start_load insert continue finish_load answer load_session load_graph load_model
    ensure_graph ensure_tokenizer ensure_file precision_available provider_available is_empty
    init_ort acquire_table make_ort_session tokenized_session start_session environment
    graph_session load tokenizer_new choose_output has_input step decided finish_flight
    publish_flight end_acquire key_eq key_lt provider_rank precision_rank finish_open assign release
    drop_session write
loaded_models_lem_example =
    loaded_models_lem numbers bytes_library ids_loader cached opening (ended success ∷ [])
      opened_process refl 1 (λ i h. write_miss begin.embedders 0 i (some 0) (omega arith))

abbrev DeniedProcess : Type 0
DeniedProcess = Process numbers bytes_library denied_loader

abbrev denied_begin : DeniedProcess
denied_begin = first_process numbers bytes_library denied_loader cached

-- The process after a load that threw.
abbrev thrown_process : DeniedProcess
thrown_process =
    elim (open_model numbers bytes_library denied_loader e5_base_v2 default_options 0
      denied_begin) [ none ↦ denied_begin | some r ↦ r.1 ]

open_throws_again_example :
    (T : DeniedProcess) × (open_model numbers bytes_library denied_loader e5_base_v2 default_options
        1 thrown_process
      ≡ some (throws, T))
    × (T.world.store.loaded ≡ thrown_process.world.store.loaded)
    × (T.host ≡ thrown_process.host)
    × (T.embedders ≡ thrown_process.embedders)
unfolding serve open_model find find_in registry rank acquire begin_acquire Store.find start_load
    insert continue finish_load answer load_session load_graph load_model ensure_graph
    ensure_tokenizer ensure_file precision_available provider_available is_empty step decided
    finish_flight finish_open write
open_throws_again_example =
    open_throws_again numbers bytes_library denied_loader e5_base_v2 default_options cached [] []
      denied_begin refl 0 thrown_process refl refl [] [] thrown_process refl 1
