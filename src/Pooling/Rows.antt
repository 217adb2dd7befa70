-- ===== src/Pooling/Rows.antt =====
-- src/pooling.hpp: the loops of `pool` and `l2_normalize` against the description in `Reduce`.
use mathlib.Core.List.{foldl}
use native.Mathlib.Nat.{mul-le-mul_right}
use cyborgdb_embed.Prelude.{
  ℕ, zero, suc, ◌+◌, ◌*◌, ◌<◌, ◌≤◌, ◌≡◌, refl, ap, ◌∙◌, ◌≢◌, ◌⊎◌, inl, inr, List, [], ◌∷◌, map,
  ◌==◌, if◌then◌else◌, Memory, each_inside, each_outside, le_cases, arith, Bool-cases,
}
use cyborgdb_embed.Float.{Float, float_max}
use cyborgdb_embed.Pooling.{
  Pooling, cls_token, mean_tokens, max_tokens, fold_tokens, count_tokens, fill_row, pool_row,
  pool_rows, pool,
}
use cyborgdb_embed.Pooling.Reduce.{real_tokens, reduce_column}

-- Offsets that lie outside the row at `r * dim`.
abbrev pub Outside : ℕ → ℕ → ℕ → Type 0
Outside dim r j = (j < r * dim) ⊎ (r * dim + dim ≤ j)

pub other_row : (dim r k d : ℕ) → k ≢ r → d < dim → Outside dim r (k * dim + d)
other_row dim r k d ne h =
    ground
      (arith, mul-le-mul_right {m = suc k} {n = r} dim, mul-le-mul_right {m = suc r} {n = k} dim)

module _ (fl : Float) (hidden : Memory fl.F) (mask : Memory ℕ) (width dim : ℕ) where
  open fl use {F, add, mul, div, sqrt}

  -- The states of column `d` of row `r` at the given tokens.
  abbrev pub column : ℕ → ℕ → List ℕ → List F
  column r d ts = map (λ t. hidden (r * width * dim + t * dim + d)) ts

  fold_tokens_inside :
      (op : F → F → F) (r d n t : ℕ) (out : Memory F)
      → d < dim
      → fold_tokens fl op hidden mask r width dim n t out (r * dim + d)
        ≡ foldl op (out (r * dim + d)) (column r d (real_tokens mask (r * width) n t))
  unfolding fold_tokens real_tokens
  fold_tokens_inside op r d zero t out h = refl
  fold_tokens_inside op r d (suc n) t out h = elim (Bool-cases (mask (r * width + t) == 0)) [
    | inl e ↦ rw e (fold_tokens_inside op r d n (suc t) out h)
    | inr e ↦ rw e (
        fold_tokens_inside op r d n (suc t) _ h
        ∙ ap (λ x. foldl op x (column r d (real_tokens mask (r * width) n (suc t))))
            (each_inside dim 0 (r * dim) _ out d (omega arith) (omega arith)))
  ]

  fold_tokens-Outside :
      (op : F → F → F) (r n t : ℕ) (out : Memory F) (j : ℕ)
      → Outside dim r j
      → fold_tokens fl op hidden mask r width dim n t out j ≡ out j
  unfolding fold_tokens
  fold_tokens-Outside op r zero t out j o = refl
  fold_tokens-Outside op r (suc n) t out j o = elim (Bool-cases (mask (r * width + t) == 0)) [
    | inl e ↦ rw e (fold_tokens-Outside op r n (suc t) out j o)
    | inr e ↦ rw e (
        fold_tokens-Outside op r n (suc t) _ j o
        ∙ each_outside dim 0 (r * dim) _ out j (omega arith))
  ]

  count_tokens_lem :
      (r n t : ℕ) (c : F)
      → count_tokens fl mask r width n t c
        ≡ foldl (λ x _. add x fl.one) c (column r 0 (real_tokens mask (r * width) n t))
  unfolding count_tokens real_tokens
  count_tokens_lem r zero t c = refl
  count_tokens_lem r (suc n) t c = elim (Bool-cases (mask (r * width + t) == 0)) [
    | inl e ↦ rw e (count_tokens_lem r n (suc t) c)
    | inr e ↦ rw e (count_tokens_lem r n (suc t) (add c fl.one))
  ]

  foldl_steps :
      (c : F) (r d : ℕ) (ts : List ℕ)
      → foldl (λ x _. add x fl.one) c (column r 0 ts)
        ≡ foldl (λ x _. add x fl.one) c (column r d ts)
  foldl_steps c r d [] = refl
  foldl_steps c r d (t ∷ ts) = foldl_steps (add c fl.one) r d ts

  fill_row_inside :
      (x : F) (r d : ℕ) (out : Memory F) → d < dim → fill_row fl r dim x out (r * dim + d) ≡ x
  unfolding fill_row
  fill_row_inside x r d out h =
      each_inside dim 0 (r * dim) (λ _ _. x) out d (omega arith) (omega arith)

  fill_row-Outside :
      (x : F) (r : ℕ) (out : Memory F) (j : ℕ) → Outside dim r j → fill_row fl r dim x out j ≡ out j
  unfolding fill_row
  fill_row-Outside x r out j o = each_outside dim 0 (r * dim) (λ _ _. x) out j (omega arith)

  -- Fill the row, then fold the tokens into it.
  filled_fold_inside :
      (op : F → F → F) (x : F) (r d : ℕ) (out : Memory F)
      → d < dim
      → fold_tokens fl op hidden mask r width dim width 0 (fill_row fl r dim x out) (r * dim + d)
        ≡ foldl op x (column r d (real_tokens mask (r * width) width 0))
  filled_fold_inside op x r d out h =
      fold_tokens_inside op r d width 0 (fill_row fl r dim x out) h
      ∙ ap (λ y. foldl op y (column r d (real_tokens mask (r * width) width 0)))
          (fill_row_inside x r d out h)

  filled_fold-Outside :
      (op : F → F → F) (x : F) (r : ℕ) (out : Memory F) (j : ℕ)
      → Outside dim r j
      → fold_tokens fl op hidden mask r width dim width 0 (fill_row fl r dim x out) j ≡ out j
  filled_fold-Outside op x r out j o =
      fold_tokens-Outside op r width 0 (fill_row fl r dim x out) j o ∙ fill_row-Outside x r out j o

  -- The value that `pool` is to leave at element `d` of row `r`.
  abbrev pub pooled_at : Pooling → ℕ → ℕ → F
  pooled_at mode r d =
      reduce_column fl mode (hidden (r * width * dim + d))
        (column r d (real_tokens mask (r * width) width 0))

  count_eq :
      (r d : ℕ)
      → count_tokens fl mask r width width 0 fl.zero
        ≡ foldl (λ x _. add x fl.one) fl.zero (column r d (real_tokens mask (r * width) width 0))
  count_eq r d =
      count_tokens_lem r width 0 fl.zero
      ∙ foldl_steps fl.zero r d (real_tokens mask (r * width) width 0)

  pool_row_inside :
      (mode : Pooling) (r d : ℕ) (out : Memory F)
      → d < dim
      → pool_row fl hidden mask r width dim mode out (r * dim + d) ≡ pooled_at mode r d
  unfolding pool_row reduce_column
  pool_row_inside cls_token r d out h =
      each_inside dim 0 (r * dim) (λ k _. hidden (r * width * dim + k)) out d (omega arith)
        (omega arith)
  pool_row_inside max_tokens r d out h = filled_fold_inside (float_max fl) fl.neg_inf r d out h
  pool_row_inside mean_tokens r d out h =
      each_inside dim 0 (r * dim)
        (λ _ x. div x (
          if fl.ltb fl.zero (count_tokens fl mask r width width 0 fl.zero)
          then count_tokens fl mask r width width 0 fl.zero
          else fl.one))
        (fold_tokens fl add hidden mask r width dim width 0 (fill_row fl r dim fl.zero out)) d
        (omega arith) (omega arith)
      ∙ rw (filled_fold_inside add fl.zero r d out h, count_eq r d)

  pool_row-Outside :
      (mode : Pooling) (r : ℕ) (out : Memory F) (j : ℕ)
      → Outside dim r j
      → pool_row fl hidden mask r width dim mode out j ≡ out j
  unfolding pool_row
  pool_row-Outside cls_token r out j o =
      each_outside dim 0 (r * dim) (λ k _. hidden (r * width * dim + k)) out j (omega arith)
  pool_row-Outside max_tokens r out j o = filled_fold-Outside (float_max fl) fl.neg_inf r out j o
  pool_row-Outside mean_tokens r out j o =
      each_outside dim 0 (r * dim)
        (λ _ x. div x (
          if fl.ltb fl.zero (count_tokens fl mask r width width 0 fl.zero)
          then count_tokens fl mask r width width 0 fl.zero
          else fl.one))
        (fold_tokens fl add hidden mask r width dim width 0 (fill_row fl r dim fl.zero out)) j
        (omega arith)
      ∙ filled_fold-Outside add fl.zero r out j o

  -- Elements that belong to none of the rows r, … , r + n - 1.
  pool_rows_outside :
      (mode : Pooling) (n r : ℕ) (out : Memory F) (j : ℕ)
      → (j < r * dim) ⊎ ((r + n) * dim ≤ j)
      → pool_rows fl hidden mask n r width dim mode out j ≡ out j
  unfolding pool_rows
  pool_rows_outside mode zero r out j o = refl
  pool_rows_outside mode (suc n) r out j o =
      pool_rows_outside mode n (suc r) (pool_row fl hidden mask r width dim mode out) j
        (omega arith)
      ∙ pool_row-Outside mode r out j (omega arith)

  pool_rows_inside :
      (mode : Pooling) (n r k d : ℕ) (out : Memory F)
      → r ≤ k
      → k < r + n
      → d < dim
      → pool_rows fl hidden mask n r width dim mode out (k * dim + d) ≡ pooled_at mode k d
  unfolding pool_rows
  pool_rows_inside mode zero r k d out h lt hd = absurd (omega arith)
  pool_rows_inside mode (suc n) r k d out h lt hd = elim (le_cases r k h) [
    | inl e ↦ rw (← e) (
        pool_rows_outside mode n (suc r) (pool_row fl hidden mask r width dim mode out)
          (r * dim + d) (omega arith)
        ∙ pool_row_inside mode r d out hd)
    | inr more ↦
        pool_rows_inside mode n (suc r) k d (pool_row fl hidden mask r width dim mode out) more
          (omega arith) hd
  ]

  -- `pool` leaves in each element of its output what the mode makes of that column of its row, whatever
  -- the output held: for the mean and the maximum the reduction over the positions that the mask marks
  -- alone, whatever the others hold; for the first token the state at the row's first position,
  -- whatever the mask says of it.
  pub pool_lem :
      (mode : Pooling) (rows r d : ℕ) (out : Memory F)
      → r < rows
      → d < dim
      → pool fl hidden mask rows width dim mode out (r * dim + d) ≡ pooled_at mode r d
  unfolding pool
  pool_lem mode rows r d out h hd =
      pool_rows_inside mode rows 0 r d out (omega arith) (omega arith) hd

  -- `pool` writes only the `rows * dim` elements of its output.
  pub pool_frame :
      (mode : Pooling) (rows j : ℕ) (out : Memory F)
      → rows * dim ≤ j
      → pool fl hidden mask rows width dim mode out j ≡ out j
  unfolding pool
  pool_frame mode rows j out h = pool_rows_outside mode rows 0 out j (omega arith)
