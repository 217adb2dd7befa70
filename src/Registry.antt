-- ===== src/Registry.antt =====
-- include/cyborgdb_embed/embed.hpp and src/registry_generated.hpp: the model enum, the types of the
-- registry, and the provider and precision enums.
pub mod Table
pub mod Lookup
use cyborgdb_embed.Prelude.{ℕ, zero, suc, ◌≡◌, refl, sym, ap, ◌∙◌, Bool, true, false, Text}
use cyborgdb_embed.Pooling.{Pooling}

pub data ModelId : Type 0 where
  all_mini_lm_l6_v2 all_mini_lm_l12_v2 all_mpnet_base_v2 : ModelId
  bge_small_en_v15 bge_base_en_v15 bge_large_en_v15 : ModelId
  e5_small_v2 e5_base_v2 e5_large_v2 : ModelId
  multilingual_e5_small paraphrase_mini_lm_l6_v2 paraphrase_multilingual_mini_lm_l12_v2 : ModelId
  paraphrase_multilingual_mpnet_base_v2 multi_qa_mini_lm_l6_cos_v1 multilingual_e5_base : ModelId
  mxbai_embed_large_v1 snowflake_arctic_embed_mv15 : ModelId

-- The enum's underlying value.
unfoldable pub rank : ModelId → ℕ
rank all_mini_lm_l6_v2 = 0
rank all_mini_lm_l12_v2 = 1
rank all_mpnet_base_v2 = 2
rank bge_small_en_v15 = 3
rank bge_base_en_v15 = 4
rank bge_large_en_v15 = 5
rank e5_small_v2 = 6
rank e5_base_v2 = 7
rank e5_large_v2 = 8
rank multilingual_e5_small = 9
rank paraphrase_mini_lm_l6_v2 = 10
rank paraphrase_multilingual_mini_lm_l12_v2 = 11
rank paraphrase_multilingual_mpnet_base_v2 = 12
rank multi_qa_mini_lm_l6_cos_v1 = 13
rank multilingual_e5_base = 14
rank mxbai_embed_large_v1 = 15
rank snowflake_arctic_embed_mv15 = 16

of_rank : ℕ → ModelId
of_rank zero = all_mini_lm_l6_v2
of_rank (suc zero) = all_mini_lm_l12_v2
of_rank (suc (suc zero)) = all_mpnet_base_v2
of_rank (suc (suc (suc zero))) = bge_small_en_v15
of_rank (suc (suc (suc (suc zero)))) = bge_base_en_v15
of_rank (suc (suc (suc (suc (suc zero))))) = bge_large_en_v15
of_rank (suc (suc (suc (suc (suc (suc zero)))))) = e5_small_v2
of_rank (suc (suc (suc (suc (suc (suc (suc zero))))))) = e5_base_v2
of_rank (suc (suc (suc (suc (suc (suc (suc (suc zero)))))))) = e5_large_v2
of_rank (suc (suc (suc (suc (suc (suc (suc (suc (suc zero))))))))) = multilingual_e5_small
of_rank (suc (suc (suc (suc (suc (suc (suc (suc (suc (suc zero)))))))))) = paraphrase_mini_lm_l6_v2
of_rank (suc (suc (suc (suc (suc (suc (suc (suc (suc (suc (suc zero))))))))))) =
    paraphrase_multilingual_mini_lm_l12_v2
of_rank (suc (suc (suc (suc (suc (suc (suc (suc (suc (suc (suc (suc zero)))))))))))) =
    paraphrase_multilingual_mpnet_base_v2
of_rank (suc (suc (suc (suc (suc (suc (suc (suc (suc (suc (suc (suc (suc zero))))))))))))) =
    multi_qa_mini_lm_l6_cos_v1
of_rank (suc (suc (suc (suc (suc (suc (suc (suc (suc (suc (suc (suc (suc (suc zero)))))))))))))) =
    multilingual_e5_base
of_rank
      (suc
        (suc (suc (suc (suc (suc (suc (suc (suc (suc (suc (suc (suc (suc (suc zero))))))))))))))) =
    mxbai_embed_large_v1
of_rank
      (suc (
        suc (
          suc
            (suc (suc (suc (suc (suc (suc (suc (suc (suc (suc (suc (suc (suc zero)))))))))))))))) =
    snowflake_arctic_embed_mv15
of_rank _ = all_mini_lm_l6_v2

of_rank-rank : (m : ModelId) → of_rank (rank m) ≡ m
unfolding rank of_rank
of_rank-rank all_mini_lm_l6_v2 = refl
of_rank-rank all_mini_lm_l12_v2 = refl
of_rank-rank all_mpnet_base_v2 = refl
of_rank-rank bge_small_en_v15 = refl
of_rank-rank bge_base_en_v15 = refl
of_rank-rank bge_large_en_v15 = refl
of_rank-rank e5_small_v2 = refl
of_rank-rank e5_base_v2 = refl
of_rank-rank e5_large_v2 = refl
of_rank-rank multilingual_e5_small = refl
of_rank-rank paraphrase_mini_lm_l6_v2 = refl
of_rank-rank paraphrase_multilingual_mini_lm_l12_v2 = refl
of_rank-rank paraphrase_multilingual_mpnet_base_v2 = refl
of_rank-rank multi_qa_mini_lm_l6_cos_v1 = refl
of_rank-rank multilingual_e5_base = refl
of_rank-rank mxbai_embed_large_v1 = refl
of_rank-rank snowflake_arctic_embed_mv15 = refl

pub rank_injective : (m n : ModelId) → rank m ≡ rank n → m ≡ n
rank_injective m n e = sym (of_rank-rank m) ∙ ap of_rank e ∙ of_rank-rank n

pub record ModelInfo : Type 0 where
  pub id : ModelId
  pub name : Text
  pub revision : Text
  pub dimension : ℕ
  pub max_seq_length : ℕ
  pub normalize : Bool

pub record RegistryEntry : Type 0 where
  pub info : ModelInfo
  pub onnx_path : Text
  pub onnx_sha256 : Text
  pub tokenizer_sha256 : Text
  pub query_prefix : Text
  pub doc_prefix : Text
  pub pooling : Pooling

pub data Provider : Type 0 where
  cpu : Provider

pub data Precision : Type 0 where
  fp32 fp16 int8 : Precision

unfoldable pub provider_rank : Provider → ℕ
provider_rank cpu = 0

unfoldable pub precision_rank : Precision → ℕ
precision_rank fp32 = 0
precision_rank fp16 = 1
precision_rank int8 = 2

-- `provider_available`.
unfoldable pub provider_available : Provider → Bool
provider_available cpu = true

-- `precision_available`: whatever the model.
unfoldable pub precision_available : ModelId → Precision → Bool
precision_available _ fp32 = true
precision_available _ fp16 = false
precision_available _ int8 = false
