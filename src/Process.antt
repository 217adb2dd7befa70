-- ===== src/Process.antt =====
-- src/embed.cpp: the process that the public functions of include/cyborgdb_embed/embed.hpp share. It
-- has the store of sessions, what the loads change, and the program's embedders; one call follows
-- the other here, and src/session_store.cpp interleaves them in Store/World.antt.
pub mod Counts
pub mod Quiet
pub mod Keys
pub mod Taken
pub mod Over
pub mod Load
pub mod Acquire
pub mod Drop
pub mod Release
pub mod Open
pub mod Api
pub mod Serve
pub mod Reached
pub mod Poisoned
pub mod Thrown
pub mod Lifetime
pub mod Outstanding
mod Examples
use cyborgdb_embed.Prelude.{
  ℕ, suc, ◌+◌, ◌-◌, Bool, true, false, List, [], ◌∷◌, Option, none, some, ◌==◌, if◌then◌else◌, Text,
  codes, Memory, write,
}
use cyborgdb_embed.Status.{Status, success, is_ok, invalid_argument, Ending, ends, throws}
use cyborgdb_embed.Float.{Float}
use cyborgdb_embed.Config.{CacheConfig}
use cyborgdb_embed.Registry.{ModelId, Provider, cpu, Precision, fp32, RegistryEntry}
use cyborgdb_embed.Registry.Lookup.{find}
use cyborgdb_embed.Resolve.Download.{System, Machine}
use cyborgdb_embed.Session.Loader.{Loader}
use cyborgdb_embed.Onnx.{ort_version, no_table}
use cyborgdb_embed.Tokenizer.Shim.{Library}
use cyborgdb_embed.Prelude.{ℤ}
use cyborgdb_embed.Session.Runtime.{first_runtime, configure_runtime}
use cyborgdb_embed.Session.{OnnxRuntime, Session}
use cyborgdb_embed.Session.Load.{Host, Loaded, load_session}
use cyborgdb_embed.Embedder.{Embedder}
use cyborgdb_embed.Store.{
  Key, Store, Decision, reuse, wait, load, begin_acquire, LoadedModel, LoadStats, stats,
}
use cyborgdb_embed.Store as Store
use cyborgdb_embed.Store.World.{
  World, built, threw, refused, configured, finished, published, woken, dropped, Reply, nothing,
  raised, session, error, use_count, is_live, decided, step, start,
}

pub record Options : Type 0 where
  pub provider : Provider
  pub precision : Precision

abbrev pub default_options : Options
default_options = record { provider = cpu; precision = fp32 }

-- `Embedder::Impl` with the count of its owners; its session goes by the number of the load.
pub record Impl : Type 0 where
  pub session : ℕ
  pub owners : ℕ

abbrev pub unknown_model : Status
unknown_model = record { code = invalid_argument; message = codes "unknown model" }

abbrev pub key_of : RegistryEntry → Options → Key
key_of entry options = record {
  model = entry.info.id;
  provider = options.provider;
  precision = options.precision;
}

module _ (fl : Float) (lib : Library) (loader : Loader fl lib) where
  -- `embedders` are the program's variables of the class, with their `impl_`.
  pub record Process : Type 0 where
    pub host : Host
    pub world : World
    pub sessions : Memory (Option (Session fl lib))
    pub impls : Memory Impl
    pub next_impl : ℕ
    pub embedders : Memory (Option ℕ)

  -- How `acquire` ends, with the session in `out`; `none` where it waits for ever.
  abbrev pub Acquired : Type 0
  Acquired = Option (Ending × Option ℕ × Process)

  unfoldable pub answer : Process → Reply → Acquired
  answer process (session p) = some (ends success, some p, process)
  answer process (error status) = some (ends status, none, process)
  answer process nothing = none
  answer process raised = some (throws, none, process)

  -- The load's call, from `load_session` on; where that throws, nothing after it runs.
  unfoldable pub finish_load :
      Process → ℕ → Option (Ending × Host × Option (Session fl lib)) → Acquired
  unfolding answer step
  finish_load process p none = none
  finish_load process p (some (throws, host, loaded)) =
      let r = step process.world (finished p threw) in
      answer (record process { host = host; world = r.0; sessions = write process.sessions p none })
        r.1
  finish_load process p (some (ends status, host, loaded)) =
      let outcome = if is_ok status then built else refused status in
      let r = step (step process.world (finished p outcome)).0 (published p) in
      answer
        (record process { host = host; world = r.0; sessions = write process.sessions p loaded })
        r.1

  -- After the first critical section.
  unfoldable pub continue : RegistryEntry → Options → Process → Store × Decision → Acquired
  unfolding answer finish_load decided step
  continue entry options process (store, reuse p) =
      let r = decided process.world (key_of entry options) (store, reuse p) in
      answer (record process { world = r.0 }) r.1
  continue entry options process (store, wait p) =
      let r = step (decided process.world (key_of entry options) (store, wait p)).0 (woken p) in
      answer (record process { world = r.0 }) r.1
  continue entry options process (store, load config) =
      finish_load
        (record process {
          world = (decided process.world (key_of entry options) (store, load config)).0;
        })
        process.world.next
        (loader.load_session entry options.provider options.precision config process.host)

  unfoldable pub acquire : RegistryEntry → Options → Process → Acquired
  unfolding continue begin_acquire
  acquire entry options process = continue entry options process (
      begin_acquire (is_live process.world.flights) (key_of entry options) process.world.next
        process.world.store)

  -- An `Impl` ends, and its reference to the session with it; the last one frees the session.
  unfoldable pub drop_session : ℕ → Process → Process
  unfolding step
  drop_session p process =
      let w = (step process.world (dropped p)).0 in
      record process {
        world = w;
        sessions = if is_live w.flights p then process.sessions else write process.sessions p none;
      }

  -- One owner less; the last one ends the `Impl`.
  unfoldable pub release : Option ℕ → Process → Process
  unfolding drop_session
  release none process = process
  release (some k) process =
      let impl = process.impls k in
      let impls = write process.impls k (record impl { owners = impl.owners - 1 }) in
      if impl.owners == 1
      then drop_session impl.session (record process { impls = impls })
      else record process { impls = impls }

  -- The variable gets an `impl_`, and releases its own.
  unfoldable pub assign : ℕ → Option ℕ → Process → Process
  unfolding release
  assign i impl process =
      release (process.embedders i) (record process { embedders = write process.embedders i impl })

  unfoldable pub retain : Option ℕ → Process → Process
  retain none process = process
  retain (some k) process =
      let impl = process.impls k in
      record process { impls = write process.impls k (record impl { owners = impl.owners + 1 }) }

  -- `Embedder::operator=` of another embedder.
  unfoldable pub copy : ℕ → ℕ → Process → Process
  unfolding assign retain
  copy i j process = assign i (process.embedders j) (retain (process.embedders j) process)

  -- `Embedder::operator=` of one that is moved from.
  unfoldable pub move : ℕ → ℕ → Process → Process
  unfolding assign
  move i j process =
      assign i (process.embedders j) (record process { embedders = write process.embedders j none })

  -- `Embedder::~Embedder`.
  unfoldable pub destroy : ℕ → Process → Process
  unfolding assign
  destroy i process = assign i none process

  -- After `acquire`: a new `Impl`, for the embedder `i`.
  unfoldable pub finish_open : ℕ → Acquired → Option (Ending × Process)
  unfolding assign
  finish_open i none = none
  finish_open i (some (ending, none, process)) = some (ending, process)
  finish_open i (some (ending, some p, process)) = some (
    ending,
    assign i (some process.next_impl) (record process {
      impls = write process.impls process.next_impl (record { session = p; owners = 1 });
      next_impl = suc process.next_impl;
    }),
  )

  unfoldable pub open_model : ModelId → Options → ℕ → Process → Option (Ending × Process)
  unfolding find acquire finish_open
  open_model id options i process = elim (find id) [
    | none ↦ some (ends unknown_model, process)
    | some entry ↦ finish_open i (acquire entry options process)
  ]

  unfoldable pub embedder : Process → ℕ → Embedder fl lib
  embedder process i = record {
    session = elim (process.embedders i) [
      | none ↦ none
      | some k ↦ process.sessions (process.impls k).session
    ];
  }
