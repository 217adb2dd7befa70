-- ===== src/Encode/Batches.antt =====
-- src/session_ort.cpp, `OrtSession::encode`: how the batches are cut.
use native.Mathlib.Nat.{mul-le-mul, mod-eq_of_lt}
use cyborgdb_embed.Prelude.{
  ℕ, zero, suc, ◌+◌, ◌*◌, ◌%◌, ◌^◌, ◌<◌, ◌≤◌, ◌≡◌, ap, sym, subst, ◌⊎◌, inl, inr, List, [], ◌∷◌,
  All, length, take, arith, max,
}
use cyborgdb_embed.Encode.{Batch, grow, size_limit, max_batch_rows, max_batch_tokens}

-- A batch never runs past the texts that are left.
pub grow_rows :
    (sizes : List ℕ) (rows width : ℕ)
    → (rows ≤ (grow sizes rows width).rows) × ((grow sizes rows width).rows ≤ rows + length sizes)
unfolding grow
grow_rows [] rows width = omega arith
grow_rows (size ∷ sizes) rows width = ground (arith, grow_rows sizes (rows + 1) (max width size))

-- The first text always fits, so every round of the outer loop makes progress.
pub grow_pos : (size : ℕ) (sizes : List ℕ) (width : ℕ) → 0 < (grow (size ∷ sizes) 0 width).rows
unfolding grow
grow_pos size sizes width = ground (arith, grow_rows sizes (0 + 1) (max width size))

pub grow-le-max_batch_rows :
    (sizes : List ℕ) (rows width : ℕ)
    → rows ≤ max_batch_rows
    → (grow sizes rows width).rows ≤ max_batch_rows
unfolding grow
grow-le-max_batch_rows [] rows width h = h
grow-le-max_batch_rows (size ∷ sizes) rows width h =
    ground (arith, grow-le-max_batch_rows sizes (rows + 1) (max width size))

pub width-le-grow : (sizes : List ℕ) (rows width : ℕ) → width ≤ (grow sizes rows width).width
unfolding grow
width-le-grow [] rows width = omega arith
width-le-grow (size ∷ sizes) rows width =
    ground (arith, width-le-grow sizes (rows + 1) (max width size))

grow_continues :
    (size : ℕ) (sizes : List ℕ) (rows width : ℕ)
    → rows < (grow (size ∷ sizes) rows width).rows
    → grow (size ∷ sizes) rows width ≡ grow sizes (rows + 1) (max width size)
unfolding grow
grow_continues size sizes rows width h = ground arith

-- The batch is as wide as each text in it.
pub grow_wide :
    (sizes : List ℕ) (rows width k : ℕ)
    → (grow sizes rows width).rows ≡ rows + k
    → All (λ size. size ≤ (grow sizes rows width).width) (take k sizes)
grow_wide [] rows width zero e = tt
grow_wide [] rows width (suc k) e = tt
grow_wide (size ∷ sizes) rows width zero e = tt
grow_wide (size ∷ sizes) rows width (suc k) e =
    let go = grow_continues size sizes rows width (omega arith) in
    let e' : (grow sizes (rows + 1) (max width size)).rows ≡ rows + 1 + k =
      omega (arith, ap (λ (b : Batch). b.rows) go) in
    subst (λ (b : Batch). (size ≤ b.width) × All (λ s. s ≤ b.width) (take k sizes)) (sym go)
      (
        omega (arith, width-le-grow sizes (rows + 1) (max width size)),
        grow_wide sizes (rows + 1) (max width size) k e',
      )

-- The loop stops, or takes one more text.
grow_cases :
    (size : ℕ) (sizes : List ℕ) (rows width : ℕ)
    → (grow (size ∷ sizes) rows width ≡ record { rows = rows; width = width })
      ⊎ (rows < max_batch_rows)
        × ((rows ≡ 0) ⊎ ((rows + 1) * max width size % size_limit ≤ max_batch_tokens))
        × (grow (size ∷ sizes) rows width ≡ grow sizes (rows + 1) (max width size))
unfolding grow
grow_cases size sizes rows width = ground arith

-- The product in the test does not wrap.
product_exact :
    (rows candidate : ℕ)
    → rows < max_batch_rows
    → candidate < 2 ^ 57
    → (rows + 1) * candidate % size_limit ≡ (rows + 1) * candidate
product_exact rows candidate h c = mod-eq_of_lt (
    omega (
      arith,
      mul-le-mul {n₁ = rows + 1} {m₁ = candidate} {n₂ = 64} {m₂ = 2 ^ 57} (omega arith)
          (omega arith),
    ))

abbrev pub Within : Batch → Type 0
Within b = (b.rows ≤ 1) ⊎ (b.rows * b.width ≤ max_batch_tokens)

-- A batch of several rows stays within the token budget.
pub grow_budget :
    (sizes : List ℕ) (rows width : ℕ)
    → All (λ size. size < 2 ^ 57) sizes
    → width < 2 ^ 57
    → Within (record { rows = rows; width = width })
    → Within (grow sizes rows width)
grow_budget [] rows width small w h = unfold grow in h
grow_budget (size ∷ sizes) rows width small w h = elim (grow_cases size sizes rows width) [
  | inl e ↦ subst Within (sym e) h
  | inr (lt, fits, e) ↦ subst Within (sym e) (
      grow_budget sizes (rows + 1) (max width size) small.1 (omega (arith, small.0))
        (ground (arith, fits, product_exact rows (max width size))))
]

-- The batch that a round takes from texts of these sizes: at least one text and at most 64, none that
-- is not there, as wide as each of them, and, where it has several texts and no size reaches 2 ^ 57,
-- within 8192 padded tokens.
pub grow_lem :
    (size : ℕ) (sizes : List ℕ)
    → All (λ s. s < 2 ^ 57) (size ∷ sizes)
    → (0 < (grow (size ∷ sizes) 0 1).rows)
      × ((grow (size ∷ sizes) 0 1).rows ≤ max_batch_rows)
      × ((grow (size ∷ sizes) 0 1).rows ≤ length (size ∷ sizes))
      × All
          (λ s. s ≤ (grow (size ∷ sizes) 0 1).width)
          (take (grow (size ∷ sizes) 0 1).rows (size ∷ sizes))
      × Within (grow (size ∷ sizes) 0 1)
grow_lem size sizes small = (
  grow_pos size sizes 1,
  grow-le-max_batch_rows (size ∷ sizes) 0 1 (omega arith),
  omega (arith, (grow_rows (size ∷ sizes) 0 1).1),
  grow_wide (size ∷ sizes) 0 1 (grow (size ∷ sizes) 0 1).rows (omega arith),
  grow_budget (size ∷ sizes) 0 1 small (omega arith) (inl (omega arith)),
)
