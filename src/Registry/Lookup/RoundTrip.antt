-- ===== src/Registry/Lookup/RoundTrip.antt =====
-- src/embed.cpp, `find_model` on the names that `info` gives.
use cyborgdb_embed.Prelude.{
  ◌≡◌, refl, sym, subst, ◌∙◌, ◌⊎◌, inl, inr, true, false, some, ◌++◌, Text, codes,
}
use cyborgdb_embed.Status.{success}
use cyborgdb_embed.Registry.{
  ModelId, rank, all_mini_lm_l6_v2, all_mini_lm_l12_v2, all_mpnet_base_v2, bge_small_en_v15,
  bge_base_en_v15, bge_large_en_v15, e5_small_v2, e5_base_v2, e5_large_v2, multilingual_e5_small,
  paraphrase_mini_lm_l6_v2, paraphrase_multilingual_mini_lm_l12_v2,
  paraphrase_multilingual_mpnet_base_v2, multi_qa_mini_lm_l6_cos_v1, multilingual_e5_base,
  mxbai_embed_large_v1, snowflake_arctic_embed_mv15,
}
use cyborgdb_embed.Registry.Table.{registry}
use cyborgdb_embed.Registry.Lookup.{
  find, find_in, info, to_lower, equal_lower, equals_ignoring_case, find_name, has_slash, is_empty,
  wanted_name, find_model,
}

-- The name of a model, in the table and as `find_model` reads it.
name_found :
    (m : ModelId) → (find_name registry (info m).name ≡ some m) × (has_slash (info m).name ≡ true)
unfolding find_name registry info find find_in rank equals_ignoring_case equal_lower to_lower
    has_slash
name_found all_mini_lm_l6_v2 = (refl, refl)
name_found all_mini_lm_l12_v2 = (refl, refl)
name_found all_mpnet_base_v2 = (refl, refl)
name_found bge_small_en_v15 = (refl, refl)
name_found bge_base_en_v15 = (refl, refl)
name_found bge_large_en_v15 = (refl, refl)
name_found e5_small_v2 = (refl, refl)
name_found e5_base_v2 = (refl, refl)
name_found e5_large_v2 = (refl, refl)
name_found multilingual_e5_small = (refl, refl)
name_found paraphrase_mini_lm_l6_v2 = (refl, refl)
name_found paraphrase_multilingual_mini_lm_l12_v2 = (refl, refl)
name_found paraphrase_multilingual_mpnet_base_v2 = (refl, refl)
name_found multi_qa_mini_lm_l6_cos_v1 = (refl, refl)
name_found multilingual_e5_base = (refl, refl)
name_found mxbai_embed_large_v1 = (refl, refl)
name_found snowflake_arctic_embed_mv15 = (refl, refl)

wanted_whole : (name : Text) → has_slash name ≡ true → wanted_name name ≡ name
unfolding wanted_name is_empty
wanted_whole name slash = rw (wanted_name, slash)

wanted_bare :
    (name : Text)
    → has_slash name ≡ false
    → wanted_name name ≡ codes "sentence-transformers/" ++ name
unfolding wanted_name is_empty
wanted_bare name bare = rw (wanted_name, bare)

found_name :
    (m out : ModelId) (name : Text)
    → wanted_name name ≡ (info m).name
    → find_model name out ≡ (success, m)
unfolding find_model
found_name m out name e =
    let found : find_name registry (wanted_name name) ≡ some m =
      subst (λ t. find_name registry t ≡ some m) (sym e) (name_found m).0 in
    rw (found, find_model)

-- `find_model` undoes `info`: the name that the table has for a model, or what follows
-- "sentence-transformers/" in it where no slash is left, gives that model back.
pub find_model-info :
    (m out : ModelId) (name : Text)
    → (name ≡ (info m).name)
      ⊎ ((info m).name ≡ codes "sentence-transformers/" ++ name) × (has_slash name ≡ false)
    → find_model name out ≡ (success, m)
find_model-info m out name (inl same) =
    let slash = subst (λ t. has_slash t ≡ true) (sym same) (name_found m).1 in
    found_name m out name (wanted_whole name slash ∙ same)
find_model-info m out name (inr (qualified, bare)) =
    found_name m out name (wanted_bare name bare ∙ sym qualified)
