-- ===== src/Registry/Lookup/Entries.antt =====
-- src/embed.cpp, `info` and `supported_models`, over src/registry_generated.hpp.
use cyborgdb_embed.Prelude.{◌≡◌, refl, some, true, ltb, length, get_or}
use cyborgdb_embed.Registry.{
  ModelId, ModelInfo, RegistryEntry, rank, all_mini_lm_l6_v2, all_mini_lm_l12_v2, all_mpnet_base_v2,
  bge_small_en_v15, bge_base_en_v15, bge_large_en_v15, e5_small_v2, e5_base_v2, e5_large_v2,
  multilingual_e5_small, paraphrase_mini_lm_l6_v2, paraphrase_multilingual_mini_lm_l12_v2,
  paraphrase_multilingual_mpnet_base_v2, multi_qa_mini_lm_l6_cos_v1, multilingual_e5_base,
  mxbai_embed_large_v1, snowflake_arctic_embed_mv15,
}
use cyborgdb_embed.Registry.Table.{registry, models}
use cyborgdb_embed.Registry.Lookup.{find, info}

-- What the generator and its `--strict` run promise of an entry: a pinned revision, digests of full
-- length, and sizes that are not zero.
abbrev pub IsPinned : RegistryEntry → Type 0
IsPinned entry =
    (length entry.info.revision ≡ 40)
    × (length entry.onnx_sha256 ≡ 64)
    × (length entry.tokenizer_sha256 ≡ 64)
    × (ltb 0 entry.info.dimension ≡ true)
    × (ltb 0 entry.info.max_seq_length ≡ true)

-- For every value of the enum: its entry exists, is its own, is pinned, and stands in both tables at
-- the enum's position.
pub find_every :
    (m : ModelId) (first : RegistryEntry) (first_info : ModelInfo)
    → (entry : RegistryEntry) × (find m ≡ some entry)
      × (entry.info.id ≡ m)
      × (get_or registry (rank m) first ≡ entry)
      × (info m ≡ entry.info)
      × (get_or models (rank m) first_info ≡ entry.info)
      × IsPinned entry
unfolding find info registry models rank
find_every all_mini_lm_l6_v2 first first_info =
    (_, refl, refl, refl, refl, refl, (refl, refl, refl, refl, refl))
find_every all_mini_lm_l12_v2 first first_info =
    (_, refl, refl, refl, refl, refl, (refl, refl, refl, refl, refl))
find_every all_mpnet_base_v2 first first_info =
    (_, refl, refl, refl, refl, refl, (refl, refl, refl, refl, refl))
find_every bge_small_en_v15 first first_info =
    (_, refl, refl, refl, refl, refl, (refl, refl, refl, refl, refl))
find_every bge_base_en_v15 first first_info =
    (_, refl, refl, refl, refl, refl, (refl, refl, refl, refl, refl))
find_every bge_large_en_v15 first first_info =
    (_, refl, refl, refl, refl, refl, (refl, refl, refl, refl, refl))
find_every e5_small_v2 first first_info =
    (_, refl, refl, refl, refl, refl, (refl, refl, refl, refl, refl))
find_every e5_base_v2 first first_info =
    (_, refl, refl, refl, refl, refl, (refl, refl, refl, refl, refl))
find_every e5_large_v2 first first_info =
    (_, refl, refl, refl, refl, refl, (refl, refl, refl, refl, refl))
find_every multilingual_e5_small first first_info =
    (_, refl, refl, refl, refl, refl, (refl, refl, refl, refl, refl))
find_every paraphrase_mini_lm_l6_v2 first first_info =
    (_, refl, refl, refl, refl, refl, (refl, refl, refl, refl, refl))
find_every paraphrase_multilingual_mini_lm_l12_v2 first first_info =
    (_, refl, refl, refl, refl, refl, (refl, refl, refl, refl, refl))
find_every paraphrase_multilingual_mpnet_base_v2 first first_info =
    (_, refl, refl, refl, refl, refl, (refl, refl, refl, refl, refl))
find_every multi_qa_mini_lm_l6_cos_v1 first first_info =
    (_, refl, refl, refl, refl, refl, (refl, refl, refl, refl, refl))
find_every multilingual_e5_base first first_info =
    (_, refl, refl, refl, refl, refl, (refl, refl, refl, refl, refl))
find_every mxbai_embed_large_v1 first first_info =
    (_, refl, refl, refl, refl, refl, (refl, refl, refl, refl, refl))
find_every snowflake_arctic_embed_mv15 first first_info =
    (_, refl, refl, refl, refl, refl, (refl, refl, refl, refl, refl))
