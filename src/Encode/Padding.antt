-- ===== src/Encode/Padding.antt =====
-- src/session_ort.cpp, `OrtSession::encode`: what `input_ids` and `mask` hold.
use native.Mathlib.Nat.{zero-add}
use cyborgdb_embed.Prelude.{
  ℕ, zero, suc, ◌+◌, ◌*◌, ◌<◌, ◌≤◌, ◌≡◌, refl, ◌∙◌, ◌⊎◌, inl, inr, List, [], ◌∷◌, ltb,
  if◌then◌else◌, All, length, get_or, Memory, Bool-cases, ltb→lt, write, write_hit, write_miss,
  arith,
}
use cyborgdb_embed.Encode.{write_row, pad}

module _ (value : ℕ → ℕ) where
  write_row_outside :
      (base : ℕ) (ids : List ℕ) (t : ℕ) (m : Memory ℕ) (j : ℕ)
      → (j < base + t) ⊎ (base + t + length ids ≤ j)
      → write_row value base ids t m j ≡ m j
  unfolding write_row
  write_row_outside base [] t m j o = refl
  write_row_outside base (id ∷ ids) t m j o =
      write_row_outside base ids (suc t) (write m (base + t) (value id)) j (omega arith)
      ∙ write_miss m (base + t) j (value id) (omega arith)

  write_row_inside :
      (base : ℕ) (ids : List ℕ) (t : ℕ) (m : Memory ℕ) (k : ℕ)
      → k < length ids
      → write_row value base ids t m (base + (t + k)) ≡ value (get_or ids k 0)
  unfolding write_row
  write_row_inside base [] t m k h = absurd (omega arith)
  write_row_inside base (id ∷ ids) t m zero h =
      let e : base + (t + 0) ≡ base + t = omega arith in
      rw e (
        write_row_outside base ids (suc t) (write m (base + t) (value id)) (base + t) (omega arith)
        ∙ write_hit m (base + t) (value id))
  write_row_inside base (id ∷ ids) t m (suc k) h =
      let e : t + suc k ≡ suc t + k = omega arith in
      rw e (write_row_inside base ids (suc t) (write m (base + t) (value id)) k (omega arith))

  pad_outside :
      (width : ℕ) (encoded : List (List ℕ)) (r : ℕ) (m : Memory ℕ) (j : ℕ)
      → All (λ ids. length ids ≤ width) encoded
      → (j < r * width) ⊎ ((r + length encoded) * width ≤ j)
      → pad value width encoded r m j ≡ m j
  unfolding pad
  pad_outside width [] r m j fit o = refl
  pad_outside width (ids ∷ encoded) r m j fit o =
      pad_outside width encoded (suc r) (write_row value (r * width) ids 0 m) j fit.1
        (omega (arith, fit.0))
      ∙ write_row_outside (r * width) ids 0 m j (omega (arith, fit.0))

  -- Row `r` of a buffer that starts as `m`: its ids from the left, then what `m` held.
  one_row :
      (width : ℕ) (ids : List ℕ) (r t : ℕ) (m : Memory ℕ)
      → write_row value (r * width) ids 0 m (r * width + t)
        ≡ (if ltb t (length ids) then value (get_or ids t 0) else m (r * width + t))
  one_row width ids r t m = elim (Bool-cases (ltb t (length ids))) [
    | inl e ↦
        rw e (rw zero-add at (write_row_inside (r * width) ids 0 m t (ltb→lt t (length ids) e)))
    | inr e ↦ rw e (write_row_outside (r * width) ids 0 m (r * width + t) (ground arith))
  ]

  pub pad_inside :
      (width : ℕ) (encoded : List (List ℕ)) (r k t : ℕ) (m : Memory ℕ)
      → All (λ ids. length ids ≤ width) encoded
      → k < length encoded
      → t < width
      → pad value width encoded r m ((r + k) * width + t) ≡ (
          if ltb t (length (get_or encoded k []))
          then value (get_or (get_or encoded k []) t 0)
          else m ((r + k) * width + t))
  unfolding pad
  pad_inside width [] r k t m fit h ht = absurd (omega arith)
  pad_inside width (ids ∷ encoded) r zero t m fit h ht =
      let e : r + 0 ≡ r = omega arith in
      rw e (
        pad_outside width encoded (suc r) (write_row value (r * width) ids 0 m) (r * width + t)
          fit.1 (omega arith)
        ∙ one_row width ids r t m)
  pad_inside width (ids ∷ encoded) r (suc k) t m fit h ht =
      let e : r + suc k ≡ suc r + k = omega arith in
      rw e (
        pad_inside width encoded (suc r) k t (write_row value (r * width) ids 0 m) fit.1
          (omega arith) ht
        ∙ rw (
            write_row_outside (r * width) ids 0 m ((suc r + k) * width + t) (omega (arith, fit.0))))
