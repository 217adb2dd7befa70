-- ===== src/Session/Loader.antt =====
-- src/session.hpp, with `ort_version` of src/ort_api.hpp: what the store and the public functions use of
-- the code that loads sessions, and the laws they rely on.
use cyborgdb_embed.Prelude.{◌≡◌, false, Option, none, some, Text, ℤ}
use cyborgdb_embed.Status.{Status, Ending, ends}
use cyborgdb_embed.Float.{Float}
use cyborgdb_embed.Config.{CacheConfig}
use cyborgdb_embed.Registry.{Provider, Precision, RegistryEntry, precision_available}
use cyborgdb_embed.Registry.Table as Table
use cyborgdb_embed.Resolve.Resolver.{Resolver}
use cyborgdb_embed.Onnx as Onnx
use cyborgdb_embed.Tokenizer.Shim.{Library}
use cyborgdb_embed.Session.Runtime as Pool
use cyborgdb_embed.Session.{OnnxRuntime, Session}
use cyborgdb_embed.Session.Load as Loads
use cyborgdb_embed.Session.Settled as Settled
use cyborgdb_embed.Session.Load.{Host, no_precision, Answers}

module _ (fl : Float) (lib : Library) where
  -- A load comes to an end, and refuses a precision that is not available with nothing touched.
  pub record Loader : Type 0 where
    pub load_session :
        RegistryEntry
        → Provider
        → Precision
        → CacheConfig
        → Host
        → Option (Ending × Host × Option (Session fl lib))
    pub registry_version : Text
    pub configure_runtime : ℤ → Pool.Runtime → Status × Pool.Runtime
    pub ort_version : Text
    pub load_answers :
        (entry : RegistryEntry) (provider : Provider) (precision : Precision) (config : CacheConfig)
        (host : Host)
        → (r : Ending × Host × Option (Session fl lib)) × (load_session entry provider precision
              config host
            ≡ some r)
          × Answers fl lib entry provider precision r.0 r.2
    pub refused_precision :
        (entry : RegistryEntry) (provider : Provider) (precision : Precision) (config : CacheConfig)
        (host : Host)
        → precision_available entry.info.id precision ≡ false
        → load_session entry provider precision config host ≡ some (ends no_precision, host, none)

  abbrev pub loader : Resolver → OnnxRuntime fl.F → Loader
  loader res ort = record {
    load_session = Loads.load_session fl lib res ort;
    registry_version = Table.registry_version;
    configure_runtime = Pool.configure_runtime;
    ort_version = Onnx.ort_version ort.base;
    load_answers = Settled.load_session_total fl lib res ort;
    refused_precision = Settled.refused_precision fl lib res ort;
  }
