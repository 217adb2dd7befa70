-- ===== src/Lib.antt =====
-- CyborgDB Embed: text embedding in C++ over ONNX Runtime.
--
-- A caller opens a model by its id (`open`, src/embed.cpp) and embeds texts through the handle. The
-- handle shares a session (src/session_ort.cpp) that the process-wide store (src/session_store.cpp)
-- hands out; the model's files come through the download cache (src/resolve.cpp), the ids of a text
-- from the tokenizer (src/tokenizer.cpp), and the vectors from pooling (src/pooling.hpp). What is
-- fixed of each model stands in the generated table (src/registry_generated.hpp).
-- The process that the public functions share is composed of these parts.
--
-- The files and the code that each is about:
-- - Prelude (with Prelude/Tests, Prelude/Lists, Prelude/Buffers, Prelude/Integers, Prelude/Totals):
--   shared names; a text is its bytes, a buffer behind a pointer is a function from offsets, the loops
--   over a row are `each`, and `total` sums a weight over places.
-- - Status, Config, Registry: `StatusCode`, `Status`, `CacheConfig`, `ModelId`, `ModelInfo`,
--   `Provider`, `Precision` of include/cyborgdb_embed/embed.hpp, and `RegistryEntry`.
-- - Registry/Table: `kRegistry` and `kModels`, every entry of them, by families.
-- - Registry/Lookup: `find`, `info`, `find_model`, `equals_ignoring_case`, `is_hosted_model` of
--   src/embed.cpp; Names, Entries and RoundTrip are about them.
-- - Float: the operations on `float` that the code uses. It is a parameter, with no law assumed.
-- - Pooling: `pool` and `l2_normalize`, loop by loop; Pooling/Reduce describes them an element at a
--   time, and Pooling/Rows and Pooling/Norms compare the two.
-- - Encode: `OrtSession::encode`, from the argument tests to the last copy. Encode/Reference says what
--   one text's vector is; the other children follow the sort, the batching, the padding, the loop and
--   the whole call.
-- - Store: `SessionStore`: the key and its order, the map, the two critical sections of `acquire`,
--   `loaded` and `stats`. Store/World is the process: calls, loads, waiters and handles, interleaved
--   at the critical sections. Invariant, Updates, Changes, Branches, Steps and Reachable carry its
--   invariant from event to event; Sessions says what a call gets, Alone follows a load that nothing
--   interleaves with, Poisoned and Poison one that throws. Lifecycle is an abstract machine for a
--   key, which Edges and Refinement show the store to refine. Order and Ordered are about the order
--   of the map's keys, and Listed and Reported about `loaded`.
-- - Resolve: `resolved_config` and the paths of src/resolve.cpp; Resolve/Download is one transfer and
--   the loop that retries it, Resolve/Digest is `sha256_file`, Resolve/Install is `ensure_file` with its
--   two callers. Retries, Writes, Streaming, Paths and the children of Install are about them.
--   Resolve/Resolver is src/resolve.hpp: what the loads use of these, and the laws they rely on.
-- - Tokenizer: `Tokenizer::load` and `Tokenizer::encode` of src/tokenizer.cpp; Tokenizer/Shim is the C
--   interface of tokenizer/src/lib.rs, and Tokenizer/Ids says what ids a text gets. Tokenizer/Boxes is
--   the class with the boxes behind its pointers, from `load` to `~Tokenizer`.
-- - Onnx: `init_ort` and `ort_version` of src/ort_api.cpp with the interface of src/ort_api.hpp, and the
--   constants of the C API that the library names.
-- - Session: `make_ort_session` of src/session_ort.cpp; Session/Runtime is the thread pool,
--   Session/Outputs the output that is pooled, Session/Tensors and Session/Requests what a run asks of
--   the graph, Session/Load is `load_session` of src/session.cpp,
--   with the state that a load changes (`Host`), Session/Settled how it ends, and Session/Loader
--   is src/session.hpp: what the process uses of these, and the laws that it relies on.
-- - Embedder: the class over a session; Embedder/Total and Embedder/Vectors are about its calls.
-- - Process: `open`, and the copies of embedders as owners of an `Impl`; Process/Api has every
--   function of the interface as a request. Process/Quiet says what holds between calls;
--   Process/Counts counts the owners and the handles from the program's variables, and its children
--   follow the counts; Process/Keys is the key of a session. Process/Taken, Process/Load,
--   Process/Over and Process/Acquire follow `acquire`, Process/Drop the end of a session, Process/Release that of an
--   owner, Process/Open `open`, Process/Poisoned what every call keeps of a load that threw;
--   Process/Serve, Process/Reached, Process/Thrown, Process/Lifetime and Process/Outstanding say what
--   a program finds.
-- - Fixtures: concrete instances of the parameters, for the examples.
--
-- Numbers: `std::size_t` is a native number. The product in the capacity test and the one in the
-- batching test are taken modulo 2 ^ 64; offsets into buffers that were allocated are exact. The
-- loop over batches runs on fuel, one unit per text, which suffices since every batch takes a
-- text; the retries run on five, one for each attempt; the digest loop runs on one unit per
-- byte. A store event changes one flight, and an interleaving is a list of events. A session and
-- the promise of the load that makes it share one number; its references are counted (handles,
-- the loading call, the promise's state while a call waits).
--
-- Parameters: ONNX Runtime's inference (a function of the padded batch, or the text of an
-- exception), what it makes of a graph, of its environment and of its version; the tokenizers
-- library; the transfers of libcurl, the digest of OpenSSL, the variables of the process, and the
-- file system's refusals: a directory that cannot be made, a file that cannot be written, renamed or
-- removed, a read that stops early, a look for a file that throws. Where a theorem relies on the inference attending to marked tokens only,
-- that is its hypothesis `IsRowwise`, which on hardware holds to a tolerance; that a digest may be
-- fed in pieces is `IsStreaming`.
--
-- Not modelled: the vendored headers under onnxruntime/, the libraries that the code calls (ONNX
-- Runtime, libcurl, OpenSSL, HuggingFace tokenizers), the registry generator and the other scripts,
-- tests, benchmarks, and the build. A load throws where `fs::exists` does; that is an event of the
-- store, and in Process the call ends with `threw` and the program goes on. `std::bad_alloc` and what
-- else throws is left out. In Process one call follows another; calls that
-- interleave are those of Store/World. Process frees a session with its last embedder; the tokenizer
-- that the session owns goes with it there, and its box behind the C interface is in Tokenizer/Boxes.
pub mod Prelude
pub mod Status
pub mod Float
pub mod Pooling
pub mod Encode
pub mod Registry
pub mod Config
pub mod Onnx
pub mod Store
pub mod Resolve
pub mod Tokenizer
pub mod Session
pub mod Embedder
pub mod Process
pub mod Fixtures
