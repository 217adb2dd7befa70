-- ===== src/Pooling/Norms.antt =====
-- src/pooling.hpp: `l2_normalize` against `scaled_row`.
use mathlib.Core.List.{foldl}
use cyborgdb_embed.Prelude.{
  ℕ, zero, suc, ◌+◌, ◌*◌, ◌<◌, ◌≤◌, ◌≡◌, refl, ap, ◌∙◌, ◌⊎◌, inl, inr, Memory, each_inside,
  each_outside, le_cases, range, arith, Bool-cases,
}
use cyborgdb_embed.Float.{Float}
use cyborgdb_embed.Pooling.{sum_squares, normalize_row, normalize_rows, l2_normalize}
use cyborgdb_embed.Pooling.Reduce.{row_norm, scaled_row}
use cyborgdb_embed.Pooling.Rows.{Outside, other_row}

module _ (fl : Float) (dim : ℕ) where
  open fl use {F, add, mul, div, sqrt}

  -- The loop of `l2_normalize` over the elements of a row.
  sum_squares_lem :
      (vectors : Memory F) (base n d : ℕ) (s : F)
      → sum_squares fl vectors base n d s
        ≡ foldl (λ x k. add x (mul (vectors (base + k)) (vectors (base + k)))) s (range d n)
  unfolding sum_squares
  sum_squares_lem vectors base zero d s = refl
  sum_squares_lem vectors base (suc n) d s = sum_squares_lem vectors base n (suc d) _

  squares_congr :
      (v w : ℕ → F) (n d : ℕ) (s : F)
      → ((k : ℕ) → d ≤ k → k < d + n → v k ≡ w k)
      → foldl (λ x k. add x (mul (v k) (v k))) s (range d n)
        ≡ foldl (λ x k. add x (mul (w k) (w k))) s (range d n)
  squares_congr v w zero d s same = refl
  squares_congr v w (suc n) d s same =
      squares_congr v w n (suc d) (add s (mul (v d) (v d)))
        (λ k h lt. same k (omega arith) (omega arith))
      ∙ ap (λ x. foldl (λ y k. add y (mul (w k) (w k))) (add s (mul x x)) (range (suc d) n))
          (same d (omega arith) (omega arith))

  row_norm_congr :
      (v w : ℕ → F) → ((k : ℕ) → k < dim → v k ≡ w k) → row_norm fl dim v ≡ row_norm fl dim w
  unfolding row_norm
  row_norm_congr v w same =
      ap sqrt (squares_congr v w dim 0 fl.zero (λ k _ lt. same k (omega arith)))

  -- A scaled row depends only on the `dim` elements of the row.
  pub scaled_row_congr :
      (v w : ℕ → F) (d : ℕ)
      → d < dim
      → ((k : ℕ) → k < dim → v k ≡ w k)
      → scaled_row fl dim v d ≡ scaled_row fl dim w d
  unfolding scaled_row
  scaled_row_congr v w d h same = ground (arith, row_norm_congr v w same, same d h)

  normalize_row_inside :
      (r d : ℕ) (vectors : Memory F)
      → d < dim
      → normalize_row fl r dim vectors (r * dim + d)
        ≡ scaled_row fl dim (λ k. vectors (r * dim + k)) d
  unfolding normalize_row scaled_row row_norm
  normalize_row_inside r d vectors h =
      let v = λ (k : ℕ). vectors (r * dim + k) in
      let norm = row_norm fl dim v in
      rw (sum_squares_lem vectors (r * dim) dim 0 fl.zero)
        (elim (Bool-cases (fl.leb norm fl.tiny)) [
          | inl e ↦ rw e
          | inr e ↦ rw e (
              each_inside dim 0 (r * dim) (λ _ x. div x norm) vectors d (omega arith) (omega arith))
        ])

  normalize_row-Outside :
      (r : ℕ) (vectors : Memory F) (j : ℕ)
      → Outside dim r j
      → normalize_row fl r dim vectors j ≡ vectors j
  unfolding normalize_row
  normalize_row-Outside r vectors j o =
      let norm = sqrt (sum_squares fl vectors (r * dim) dim 0 fl.zero) in
      elim (Bool-cases (fl.leb norm fl.tiny)) [
        | inl e ↦ rw e
        | inr e ↦ rw e (each_outside dim 0 (r * dim) (λ _ x. div x norm) vectors j (omega arith))
      ]

  normalize_rows_outside :
      (n r : ℕ) (vectors : Memory F) (j : ℕ)
      → (j < r * dim) ⊎ ((r + n) * dim ≤ j)
      → normalize_rows fl n r dim vectors j ≡ vectors j
  unfolding normalize_rows
  normalize_rows_outside zero r vectors j o = refl
  normalize_rows_outside (suc n) r vectors j o =
      normalize_rows_outside n (suc r) (normalize_row fl r dim vectors) j (omega arith)
      ∙ normalize_row-Outside r vectors j (omega arith)

  normalize_rows_inside :
      (n r k d : ℕ) (vectors : Memory F)
      → r ≤ k
      → k < r + n
      → d < dim
      → normalize_rows fl n r dim vectors (k * dim + d)
        ≡ scaled_row fl dim (λ i. vectors (k * dim + i)) d
  unfolding normalize_rows
  normalize_rows_inside zero r k d vectors h lt hd = absurd (omega arith)
  normalize_rows_inside (suc n) r k d vectors h lt hd = elim (le_cases r k h) [
    | inl e ↦ rw (← e) (
        normalize_rows_outside n (suc r) (normalize_row fl r dim vectors) (r * dim + d)
          (omega arith)
        ∙ normalize_row_inside r d vectors hd)
    | inr more ↦
        normalize_rows_inside n (suc r) k d (normalize_row fl r dim vectors) more (omega arith) hd
        ∙ scaled_row_congr _ _ d hd (λ i hi.
          normalize_row-Outside r vectors (k * dim + i)
            (other_row dim r k i (λ e. absurd (omega arith)) hi))
  ]

  -- `l2_normalize` divides every element of a row by the square root of the sum of the squares of the
  -- row's elements, summed from the first on, and leaves a row where that root is at most `tiny`.
  pub l2_normalize_lem :
      (rows r d : ℕ) (vectors : Memory F)
      → r < rows
      → d < dim
      → l2_normalize fl vectors rows dim (r * dim + d)
        ≡ scaled_row fl dim (λ k. vectors (r * dim + k)) d
  unfolding l2_normalize
  l2_normalize_lem rows r d vectors h hd =
      normalize_rows_inside rows 0 r d vectors (omega arith) (omega arith) hd

  -- `l2_normalize` writes only the `rows * dim` elements of its buffer.
  pub l2_normalize_frame :
      (rows j : ℕ) (vectors : Memory F)
      → rows * dim ≤ j
      → l2_normalize fl vectors rows dim j ≡ vectors j
  unfolding l2_normalize
  l2_normalize_frame rows j vectors h = normalize_rows_outside rows 0 vectors j (omega arith)
