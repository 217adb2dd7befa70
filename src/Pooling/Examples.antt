-- ===== src/Pooling/Examples.antt =====
-- src/pooling.hpp on two rows of three tokens of two elements; the first row ends in padding.
use cyborgdb_embed.Prelude.{ℕ, ◌+◌, ◌*◌, ◌/◌, ◌≡◌, [], ◌∷◌, ltb, leb, get_or, Memory, arith}
use cyborgdb_embed.Float.{Float}
use cyborgdb_embed.Pooling.{mean_tokens, pool, l2_normalize}
use cyborgdb_embed.Pooling.Reduce.{scaled_row}
use cyborgdb_embed.Pooling.Rows.{pooled_at, pool_lem}
use cyborgdb_embed.Pooling.Norms.{l2_normalize_lem}

abbrev numbers : Float
numbers = record {
  F = ℕ;
  zero = 0;
  one = 1;
  neg_inf = 0;
  tiny = 0;
  add = λ a b. a + b;
  mul = λ a b. a * b;
  div = λ a b. a / b;
  sqrt = λ a. a;
  ltb = ltb;
  leb = leb;
}

abbrev states : Memory ℕ
states j = get_or (1 ∷ 2 ∷ 5 ∷ 8 ∷ 90 ∷ 90 ∷ 3 ∷ 3 ∷ 6 ∷ 6 ∷ 9 ∷ 9 ∷ []) j 0

abbrev mask : Memory ℕ
mask j = get_or (1 ∷ 1 ∷ 0 ∷ 1 ∷ 1 ∷ 1 ∷ []) j 0

abbrev rubbish : Memory ℕ
rubbish _ = 77

pool_lem_example :
    pool numbers states mask 2 3 2 mean_tokens rubbish 1
    ≡ pooled_at numbers states mask 3 2 mean_tokens 0 1
pool_lem_example =
    pool_lem numbers states mask 3 2 mean_tokens 2 0 1 rubbish (omega arith) (omega arith)

l2_normalize_lem_example :
    l2_normalize numbers states 2 2 3 ≡ scaled_row numbers 2 (λ k. states (2 + k)) 1
l2_normalize_lem_example = l2_normalize_lem numbers 2 2 1 1 states (omega arith) (omega arith)
