-- ===== src/Config.antt =====
-- include/cyborgdb_embed/embed.hpp: the configurations.
use cyborgdb_embed.Prelude.{Bool, Text}

pub record CacheConfig : Type 0 where
  pub cache_dir : Text
  pub endpoint : Text
  pub offline : Bool
