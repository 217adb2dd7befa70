-- ===== src/Resolve.antt =====
-- src/resolve.cpp: the effective configuration and the paths of cached files. The process's variables
-- are a parameter; `fs::path` is its text.
pub mod Download
pub mod Retries
pub mod Writes
pub mod Streaming
pub mod Digest
pub mod Install
pub mod Resolver
pub mod Paths
mod Examples
use cyborgdb_embed.Prelude.{
  ℕ, Bool, true, false, not, List, [], ◌∷◌, ◌++◌, Option, none, some, ◌==◌, if◌then◌else◌, Text,
  codes, ◌||◌,
}
use cyborgdb_embed.Config.{CacheConfig}
use cyborgdb_embed.Registry.{RegistryEntry}
use cyborgdb_embed.Registry.Lookup.{is_empty, bare_from}

-- `std::getenv`.
abbrev pub Variables : Type 0
Variables = Text → Option Text

unfoldable pub env : Variables → Text → Text
env vars name = elim (vars name) [ some value ↦ value | none ↦ [] ]

unfoldable pub default_cache_dir : Variables → Text
unfolding env is_empty
default_cache_dir vars =
    let dir = env vars (codes "CYBORGDB_EMBED_CACHE") in
    let xdg = env vars (codes "XDG_CACHE_HOME") in
    if not (is_empty dir)
    then dir
    else if not (is_empty xdg)
    then xdg ++ codes "/cyborgdb-embed"
    else env vars (codes "HOME") ++ codes "/.cache/cyborgdb-embed"

unfoldable pub flatten : Text → Text
flatten [] = []
flatten (c ∷ id) = (if c == b'/' then b'_' else c) ∷ flatten id

unfoldable pub resolved_config : Variables → CacheConfig → CacheConfig
unfolding default_cache_dir env is_empty
resolved_config vars given =
    let endpoint = env vars (codes "CYBORGDB_EMBED_ENDPOINT") in
    record {
      cache_dir = if is_empty given.cache_dir then default_cache_dir vars else given.cache_dir;
      endpoint =
          if is_empty given.endpoint
          then (if is_empty endpoint then codes "https://huggingface.co" else endpoint)
          else given.endpoint;
      offline =
          if not given.offline
          then not (is_empty (env vars (codes "CYBORGDB_EMBED_OFFLINE")))
          else given.offline;
    }

abbrev pub is_absolute : Text → Bool
is_absolute [] = false
is_absolute (c ∷ s) = c == b'/'

-- Whether a `/` must be added behind the path.
unfoldable pub has_filename : Text → Bool
has_filename [] = false
has_filename (c ∷ []) = not (c == b'/')
has_filename (c ∷ d ∷ s) = has_filename (d ∷ s)

-- `fs::path::operator/`.
unfoldable pub join : Text → Text → Text
unfolding has_filename
join a b = if is_absolute b then b else if has_filename a then a ++ (codes "/" ++ b) else a ++ b

-- The directory of a registry entry's files.
unfoldable pub model_dir : Variables → RegistryEntry → CacheConfig → Text
unfolding join flatten resolved_config
model_dir vars entry config =
    join (join (resolved_config vars config).cache_dir (flatten entry.info.name))
      entry.info.revision

-- `cached_graph_path`.
unfoldable pub cached_graph_path : Variables → RegistryEntry → CacheConfig → Text
unfolding model_dir bare_from
cached_graph_path vars entry config =
    join (model_dir vars entry config) (bare_from entry.onnx_path entry.onnx_path)

-- The text with its trailing slashes taken off, given that of what is behind it.
abbrev pub strip_slash : ℕ → Text → Text
strip_slash c [] = if c == b'/' then [] else c ∷ []
strip_slash c (d ∷ s) = c ∷ d ∷ s

unfoldable pub strip_slashes : Text → Text
strip_slashes [] = []
strip_slashes (c ∷ s) = strip_slash c (strip_slashes s)

-- What stands before the last slash: `seen` is the text so far, `best` that before the last slash.
unfoldable pub before_slash : Text → Text → Text → Text
before_slash best seen [] = best
before_slash best seen (c ∷ s) =
    before_slash (if c == b'/' then seen else best) (seen ++ (c ∷ [])) s

-- `fs::path::parent_path` of a path below the root directory.
unfoldable pub parent_path : Text → Text
unfolding strip_slashes before_slash
parent_path path = strip_slashes (before_slash [] [] path)
