-- ===== src/Session/Load.antt =====
-- src/session.cpp, `load_session`: the guards, the two files, the API table, and the session. What
-- ONNX Runtime answers is a parameter.
use cyborgdb_embed.Prelude.{
  false, ◌≡◌, not, ◌||◌, ◌++◌, Option, none, some, if◌then◌else◌, Text, codes,
}
use cyborgdb_embed.Status.{
  Status, success, is_ok, Ending, ends, throws, ended_well, precision_unavailable,
  provider_unavailable, model_load_failed,
}
use cyborgdb_embed.Float.{Float}
use cyborgdb_embed.Config.{CacheConfig}
use cyborgdb_embed.Registry.{
  Provider, Precision, RegistryEntry, provider_available, precision_available,
}
use cyborgdb_embed.Registry.Lookup.{is_empty}
use cyborgdb_embed.Resolve.Download.{Machine}
use cyborgdb_embed.Resolve.Resolver.{Resolver}
use cyborgdb_embed.Onnx.{ApiTable, init_ort}
use cyborgdb_embed.Tokenizer.Shim.{Library}
use cyborgdb_embed.Session.Runtime.{Runtime as PoolState}
use cyborgdb_embed.Session.{OnnxRuntime, Session, make_ort_session}

-- What a load reads and changes: the disk and the network, the thread pool, the API table.
pub record Host : Type 0 where
  pub machine : Machine
  pub runtime : PoolState
  pub api : ApiTable

abbrev pub no_precision : Status
no_precision = record {
  code = precision_unavailable;
  message = codes "only fp32 is supported for this model";
}

abbrev pub no_provider : Status
no_provider = record {
  code = provider_unavailable;
  message = codes "provider is not available in this build";
}

abbrev pub unpinned : RegistryEntry → Status
unpinned entry = record {
  code = model_load_failed;
  message = entry.info.name ++ codes " has no pinned revision or digest; run the registry pin job";
}

module _ (fl : Float) (lib : Library) where
  -- A failure or an exception without a session, or a success with one of the entry, as it was asked for.
  unfoldable pub Answers :
      RegistryEntry → Provider → Precision → Ending → Option (Session fl lib) → Type 0
  Answers entry provider precision ending none = ended_well ending ≡ false
  Answers entry provider precision ending (some s) =
      (ending ≡ ends success)
      × (s.entry ≡ entry)
      × (s.provider ≡ provider)
      × (s.precision ≡ precision)

module _ (fl : Float) (lib : Library) (res : Resolver) (ort : OnnxRuntime fl.F) where
  abbrev pub Loaded : Type 0
  Loaded = Option (Ending × Host × Option (Session fl lib))

  -- After `ensure_tokenizer`.
  unfoldable pub load_model :
      RegistryEntry → Provider → Precision → Text → Host → Text → Option (Ending × Machine) → Loaded
  unfolding make_ort_session init_ort
  load_model entry provider precision graph host path none = none
  load_model entry provider precision graph host path (some (throws, m)) =
      some (throws, record host { machine = m }, none)
  load_model entry provider precision graph host path (some (ends status, m)) =
      let i = init_ort ort.base host.api in
      let r = make_ort_session fl lib ort entry provider precision graph path m.disk host.runtime in
      if not (is_ok status)
      then some (ends status, record host { machine = m }, none)
      else if not (is_ok i.0)
      then some (ends i.0, record host { machine = m; api = i.1 }, none)
      else some (ends r.0, record { machine = m; runtime = r.2; api = i.1 }, r.1)

  -- After `ensure_graph`.
  unfoldable pub load_graph :
      RegistryEntry
      → Provider
      → Precision
      → CacheConfig
      → Host
      → Text
      → Option (Ending × Machine)
      → Loaded
  unfolding load_model
  load_graph entry provider precision config host graph none = none
  load_graph entry provider precision config host graph (some (throws, m)) =
      some (throws, record host { machine = m }, none)
  load_graph entry provider precision config host graph (some (ends status, m)) =
      let r = res.ensure_tokenizer entry config m in
      if not (is_ok status)
      then some (ends status, record host { machine = m }, none)
      else load_model entry provider precision graph host r.0 r.1

  unfoldable pub load_session : RegistryEntry → Provider → Precision → CacheConfig → Host → Loaded
  unfolding load_graph precision_available provider_available is_empty
  load_session entry provider precision config host =
      let r = res.ensure_graph entry config host.machine in
      if not (precision_available entry.info.id precision)
      then some (ends no_precision, host, none)
      else if not (provider_available provider)
      then some (ends no_provider, host, none)
      else if is_empty entry.info.revision || is_empty entry.onnx_sha256
      then some (ends (unpinned entry), host, none)
      else load_graph entry provider precision config host r.0 r.1
