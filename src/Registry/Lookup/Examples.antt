-- ===== src/Registry/Lookup/Examples.antt =====
-- src/embed.cpp, `find_model`, `find` and `info` on names of the registry and others.
use cyborgdb_embed.Prelude.{ℕ, ◌<◌, ◌≡◌, refl, ◌⊎◌, inr, true, false, some, codes, length, get_or}
use cyborgdb_embed.Status.{success, invalid_argument}
use cyborgdb_embed.Registry.{RegistryEntry, rank, bge_base_en_v15, e5_small_v2}
use cyborgdb_embed.Registry.Table.{registry, models, all_mini_lm_l6_v2_entry}
use cyborgdb_embed.Registry.{all_mpnet_base_v2}
use cyborgdb_embed.Registry.Lookup.RoundTrip.{find_model-info}
use cyborgdb_embed.Registry.Lookup.{
  equals_ignoring_case, wanted_name, find, find_in, has_slash, info, find_model,
}
use cyborgdb_embed.Registry.Lookup.Names.{find_model_answer}
use cyborgdb_embed.Registry.Lookup.Entries.{IsPinned, find_every}

find_model_answer_example :
    ((i : ℕ) × (i < length registry)
      × (equals_ignoring_case
            (get_or registry i all_mini_lm_l6_v2_entry).info.name
            (wanted_name (codes "openai/text-embedding-3-small"))
          ≡ true)
      × (find_model (codes "openai/text-embedding-3-small") e5_small_v2
          ≡ (success, (get_or registry i all_mini_lm_l6_v2_entry).info.id)))
    ⊎ ((find_model (codes "openai/text-embedding-3-small") e5_small_v2).0.code ≡ invalid_argument)
      × ((find_model (codes "openai/text-embedding-3-small") e5_small_v2).1 ≡ e5_small_v2)
      × ((i : ℕ)
          → i < length registry
          → equals_ignoring_case
              (get_or registry i all_mini_lm_l6_v2_entry).info.name
              (wanted_name (codes "openai/text-embedding-3-small"))
            ≡ false)
find_model_answer_example =
    find_model_answer (codes "openai/text-embedding-3-small") e5_small_v2 all_mini_lm_l6_v2_entry

find_every_example :
    (entry : RegistryEntry) × (find bge_base_en_v15 ≡ some entry)
    × (entry.info.id ≡ bge_base_en_v15)
    × (get_or registry (rank bge_base_en_v15) all_mini_lm_l6_v2_entry ≡ entry)
    × (info bge_base_en_v15 ≡ entry.info)
    × (get_or models (rank bge_base_en_v15) all_mini_lm_l6_v2_entry.info ≡ entry.info)
    × IsPinned entry
find_every_example = find_every bge_base_en_v15 all_mini_lm_l6_v2_entry all_mini_lm_l6_v2_entry.info

find_model-info_example :
    find_model (codes "all-mpnet-base-v2") e5_small_v2 ≡ (success, all_mpnet_base_v2)
unfolding info find find_in registry rank has_slash
find_model-info_example =
    find_model-info all_mpnet_base_v2 e5_small_v2 (codes "all-mpnet-base-v2") (inr (refl, refl))
