-- ===== src/Encode/Scatter.antt =====
-- src/session_ort.cpp, `OrtSession::encode`: copying the rows of a batch into the output.
use native.Mathlib.Nat.{add-zero, mul-le-mul_right}
use cyborgdb_embed.Prelude.{
  ℕ, suc, ◌+◌, ◌*◌, ◌<◌, ◌≤◌, ◌≡◌, refl, ◌∙◌, inl, inr, List, [], ◌∷◌, ◌==◌, ==_iff, if◌then◌else◌,
  Bool-cases, All, length, get_or, contains, Memory, each, each_inside, each_outside, arith,
}
use cyborgdb_embed.Float.{Float}
use cyborgdb_embed.Pooling.Rows.{other_row}
use cyborgdb_embed.Encode.{scatter}

shift_row : (r k : ℕ) → suc r + k ≡ r + suc k
shift_row r k = omega arith

last_row : (dim x n j : ℕ) → x < n → n * dim ≤ j → x * dim + 0 + dim ≤ j
last_row dim x n j h le = omega (arith, mul-le-mul_right {m = suc x} {n = n} dim h)

module _ (fl : Float) (dim : ℕ) (pooled : Memory fl.F) (value : ℕ → ℕ → fl.F) where
  copied_row :
      (x r : ℕ) (out : Memory fl.F) (i d : ℕ)
      → d < dim
      → pooled (r * dim + d) ≡ value x d
      → each dim 0 (x * dim) (λ e _. pooled (r * dim + e)) out (i * dim + d)
        ≡ (if i == x then value i d else out (i * dim + d))
  copied_row x r out i d h row = elim (Bool-cases (i == x)) [
    | inl e ↦
        rw (e, (==_iff i x).0 e)
          (each_inside dim 0 (x * dim) (λ k _. pooled (r * dim + k)) out d (omega arith)
              (omega arith)
            ∙ row)
    | inr e ↦ rw e (
        each_outside dim 0 (x * dim) (λ k _. pooled (r * dim + k)) out (i * dim + d)
          (omega (arith, other_row dim x i d (ground arith) h)))
  ]

  -- `scatter` writes the row of each index in the batch, and nothing else.
  pub scatter_lem :
      (batch : List ℕ) (r : ℕ) (out : Memory fl.F) (i d : ℕ)
      → d < dim
      → ((k e : ℕ)
          → k < length batch
          → e < dim
          → pooled ((r + k) * dim + e) ≡ value (get_or batch k 0) e)
      → scatter fl dim pooled batch r out (i * dim + d)
        ≡ (if contains i batch then value i d else out (i * dim + d))
  unfolding scatter
  scatter_lem [] r out i d h rows = refl
  scatter_lem (x ∷ batch) r out i d h rows =
      let out' = each dim 0 (x * dim) (λ e _. pooled (r * dim + e)) out in
      let first : pooled (r * dim + d) ≡ value x d =
        rw (add-zero r) at (rows 0 d (omega arith) h) in
      ground (
        arith,
        scatter_lem batch (suc r) out' i d h
            (λ k e hk he. rw (shift_row r k) (rows (suc k) e (omega arith) he)),
        copied_row x r out i d h first,
      )

  -- Nor anything behind the last row.
  pub scatter_frame :
      (n : ℕ) (batch : List ℕ) (r : ℕ) (out : Memory fl.F) (j : ℕ)
      → All (λ i. i < n) batch
      → n * dim ≤ j
      → scatter fl dim pooled batch r out j ≡ out j
  unfolding scatter
  scatter_frame n [] r out j below h = refl
  scatter_frame n (x ∷ batch) r out j below h =
      scatter_frame n batch (suc r) (each dim 0 (x * dim) (λ e _. pooled (r * dim + e)) out) j
        below.1 h
      ∙ each_outside dim 0 (x * dim) (λ e _. pooled (r * dim + e)) out j
          (inr (last_row dim x n j below.0 h))
