-- ===== src/Pooling.antt =====
-- src/pooling.hpp: `pool` and `l2_normalize`. Buffers are memories, a row of `dim` elements starts
-- at `r * dim`, and the loops over `d` are `each`.
pub mod Reduce
pub mod Rows
pub mod Norms
mod Examples
use cyborgdb_embed.Prelude.{ℕ, zero, suc, ◌+◌, ◌*◌, Bool, ◌==◌, if◌then◌else◌, Memory, each}
use cyborgdb_embed.Float.{Float, float_max}

pub data Pooling : Type 0 where
  cls_token mean_tokens max_tokens : Pooling

module _ (fl : Float) where
  open fl use {F, add, mul, div, sqrt}

  -- `if (!mask[r * width + t]) continue;` and the loop over `d` of one token, t = t₀ … t₀ + n - 1.
  unfoldable pub fold_tokens :
      (F → F → F) → Memory F → Memory ℕ → ℕ → ℕ → ℕ → ℕ → ℕ → Memory F → Memory F
  fold_tokens op hidden mask r width dim zero t out = out
  fold_tokens op hidden mask r width dim (suc n) t out =
      fold_tokens op hidden mask r width dim n (suc t) (
        if mask (r * width + t) == 0
        then out
        else each dim 0 (r * dim) (λ d x. op x (hidden (r * width * dim + t * dim + d))) out)

  -- `count += 1.0f` at each token that the mask marks.
  unfoldable pub count_tokens : Memory ℕ → ℕ → ℕ → ℕ → ℕ → F → F
  count_tokens mask r width zero t count = count
  count_tokens mask r width (suc n) t count =
      count_tokens mask r width n (suc t)
        (if mask (r * width + t) == 0 then count else add count fl.one)

  -- `std::fill_n(dest, dim, x)` at the row `r`.
  unfoldable pub fill_row : ℕ → ℕ → F → Memory F → Memory F
  fill_row r dim x out = each dim 0 (r * dim) (λ _ _. x) out

  -- The body of the loop over rows.
  unfoldable pub pool_row : Memory F → Memory ℕ → ℕ → ℕ → ℕ → Pooling → Memory F → Memory F
  unfolding fold_tokens count_tokens fill_row
  pool_row hidden mask r width dim cls_token out =
      each dim 0 (r * dim) (λ d _. hidden (r * width * dim + d)) out
  pool_row hidden mask r width dim max_tokens out =
      fold_tokens (float_max fl) hidden mask r width dim width 0 (fill_row r dim fl.neg_inf out)
  pool_row hidden mask r width dim mean_tokens out =
      let summed = fold_tokens add hidden mask r width dim width 0 (fill_row r dim fl.zero out) in
      let count = count_tokens mask r width width 0 fl.zero in
      let divisor = if fl.ltb fl.zero count then count else fl.one in
      each dim 0 (r * dim) (λ _ x. div x divisor) summed

  -- The loop over the rows r, r + 1, … , r + n - 1.
  unfoldable pub pool_rows : Memory F → Memory ℕ → ℕ → ℕ → ℕ → ℕ → Pooling → Memory F → Memory F
  unfolding pool_row
  pool_rows hidden mask zero r width dim mode out = out
  pool_rows hidden mask (suc n) r width dim mode out =
      pool_rows hidden mask n (suc r) width dim mode (pool_row hidden mask r width dim mode out)

  unfoldable pub pool : Memory F → Memory ℕ → ℕ → ℕ → ℕ → Pooling → Memory F → Memory F
  unfolding pool_rows
  pool hidden mask rows width dim mode out = pool_rows hidden mask rows 0 width dim mode out

  -- `sum += row[d] * row[d]` for d = d₀ … d₀ + n - 1.
  unfoldable pub sum_squares : Memory F → ℕ → ℕ → ℕ → F → F
  sum_squares vectors base zero d sum = sum
  sum_squares vectors base (suc n) d sum =
      sum_squares vectors base n (suc d) (add sum (mul (vectors (base + d)) (vectors (base + d))))

  -- The body of the loop over rows of `l2_normalize`.
  unfoldable pub normalize_row : ℕ → ℕ → Memory F → Memory F
  unfolding sum_squares
  normalize_row r dim vectors =
      let norm = sqrt (sum_squares vectors (r * dim) dim 0 fl.zero) in
      if fl.leb norm fl.tiny then vectors else each dim 0 (r * dim) (λ _ x. div x norm) vectors

  unfoldable pub normalize_rows : ℕ → ℕ → ℕ → Memory F → Memory F
  unfolding normalize_row
  normalize_rows zero r dim vectors = vectors
  normalize_rows (suc n) r dim vectors = normalize_rows n (suc r) dim (normalize_row r dim vectors)

  unfoldable pub l2_normalize : Memory F → ℕ → ℕ → Memory F
  unfolding normalize_rows
  l2_normalize vectors rows dim = normalize_rows rows 0 dim vectors
