-- ===== src/Resolve/Resolver.antt =====
-- src/resolve.hpp: what the rest of the library uses of src/resolve.cpp, with what it relies on.
use cyborgdb_embed.Prelude.{◌≡◌, refl, Option, some, Text, codes}
use cyborgdb_embed.Status.{Status, Ending}
use cyborgdb_embed.Config.{CacheConfig}
use cyborgdb_embed.Registry.{RegistryEntry}
use cyborgdb_embed.Resolve as Paths
use cyborgdb_embed.Resolve.Download.{Disk, System, Machine}
use cyborgdb_embed.Resolve.Digest as Digests
use cyborgdb_embed.Resolve.Digest.{Digest}
use cyborgdb_embed.Resolve.Install as Files
use cyborgdb_embed.Resolve.Install.Total.{ensure_file_total}

-- The path of a file and what became of it; a law says that it is always there.
pub record Resolver : Type 0 where
  pub resolved_config : CacheConfig → CacheConfig
  pub cached_graph_path : RegistryEntry → CacheConfig → Text
  pub ensure_graph : RegistryEntry → CacheConfig → Machine → Text × Option (Ending × Machine)
  pub ensure_tokenizer : RegistryEntry → CacheConfig → Machine → Text × Option (Ending × Machine)
  pub sha256_file : Disk → Text → Status × Text
  pub graph_path :
      (entry : RegistryEntry) (config : CacheConfig) (m : Machine)
      → (ensure_graph entry config m).0 ≡ cached_graph_path entry (resolved_config config)
  pub graph_returns :
      (entry : RegistryEntry) (config : CacheConfig) (m : Machine)
      → (r : Ending × Machine) × ((ensure_graph entry config m).1 ≡ some r)
  pub tokenizer_returns :
      (entry : RegistryEntry) (config : CacheConfig) (m : Machine)
      → (r : Ending × Machine) × ((ensure_tokenizer entry config m).1 ≡ some r)

module _ (sha : Digest) (sys : System) (files : Files.Files) where
  pub found_tokenizer :
      (entry : RegistryEntry) (config : CacheConfig) (m : Machine)
      → (r : Ending × Machine) × ((Files.ensure_tokenizer sha sys files entry config m).1 ≡ some r)
  unfolding Files.ensure_tokenizer
  found_tokenizer entry config m =
      ensure_file_total sha sys files entry.info.name entry.info.revision (codes "tokenizer.json")
        entry.tokenizer_sha256 (Paths.resolved_config sys.vars config)
        (Files.ensure_tokenizer sha sys files entry config m).0 m

  pub found_graph :
      (entry : RegistryEntry) (config : CacheConfig) (m : Machine)
      → (r : Ending × Machine) × ((Files.ensure_graph sha sys files entry config m).1 ≡ some r)
  unfolding Files.ensure_graph
  found_graph entry config m =
      ensure_file_total sha sys files entry.info.name entry.info.revision entry.onnx_path
        entry.onnx_sha256 (Paths.resolved_config sys.vars config)
        (Files.ensure_graph sha sys files entry config m).0 m

  pub graph_at :
      (entry : RegistryEntry) (config : CacheConfig) (m : Machine)
      → (Files.ensure_graph sha sys files entry config m).0
        ≡ Paths.cached_graph_path sys.vars entry (Paths.resolved_config sys.vars config)
  unfolding Files.ensure_graph
  graph_at entry config m = refl

  abbrev pub resolver : Resolver
  resolver = record {
    resolved_config = Paths.resolved_config sys.vars;
    cached_graph_path = Paths.cached_graph_path sys.vars;
    ensure_graph = Files.ensure_graph sha sys files;
    ensure_tokenizer = Files.ensure_tokenizer sha sys files;
    sha256_file = Digests.sha256_file sha files.read_stops;
    graph_path = graph_at;
    graph_returns = found_graph;
    tokenizer_returns = found_tokenizer;
  }
