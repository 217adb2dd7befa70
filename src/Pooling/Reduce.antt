-- ===== src/Pooling/Reduce.antt =====
-- src/pooling.hpp, described one element at a time: what each mode makes of one column of the real
-- tokens of a row, and what it is to divide a row by its norm.
use mathlib.Core.List.{foldl}
use cyborgdb_embed.Prelude.{ℕ, zero, suc, ◌+◌, List, [], ◌∷◌, ◌==◌, if◌then◌else◌, Memory, range}
use cyborgdb_embed.Float.{Float, float_max}
use cyborgdb_embed.Pooling.{Pooling, cls_token, mean_tokens, max_tokens}

-- The positions t, … , t + n - 1 that the mask marks in the row at `base`.
unfoldable pub real_tokens : Memory ℕ → ℕ → ℕ → ℕ → List ℕ
real_tokens mask base zero t = []
real_tokens mask base (suc n) t =
    if mask (base + t) == 0
    then real_tokens mask base n (suc t)
    else t ∷ real_tokens mask base n (suc t)

module _ (fl : Float) where
  open fl use {F, add, mul, div, sqrt}

  -- The first state of the row, whatever the mask says; the mean; the maximum.
  unfoldable pub reduce_column : Pooling → F → List F → F
  reduce_column cls_token first xs = first
  reduce_column max_tokens first xs = foldl (float_max fl) fl.neg_inf xs
  reduce_column mean_tokens first xs =
      let count = foldl (λ c _. add c fl.one) fl.zero xs in
      div (foldl add fl.zero xs) (if fl.ltb fl.zero count then count else fl.one)

  unfoldable pub row_norm : ℕ → (ℕ → F) → F
  row_norm dim v = sqrt (foldl (λ s d. add s (mul (v d) (v d))) fl.zero (range 0 dim))

  -- The row `v` divided by its norm, or as it is where its norm is at most `tiny`.
  unfoldable pub scaled_row : ℕ → (ℕ → F) → ℕ → F
  scaled_row dim v d = if fl.leb (row_norm dim v) fl.tiny then v d else div (v d) (row_norm dim v)
