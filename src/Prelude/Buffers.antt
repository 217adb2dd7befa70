-- ===== src/Prelude/Buffers.antt =====
-- A buffer behind a pointer: its elements by offset, and the loops that write a row of it.
use Prim.Native.Nat.{ℕ, zero, suc, ◌+◌, ◌≤◌, ◌<◌}
use mathlib.Core.Path.{◌≡◌, refl, ap, ◌∙◌}
use mathlib.Core.Logic.{◌≢◌, ◌⊎◌, inl, inr}
use native.Mathlib.Omega.{arith}
use cyborgdb_embed.Prelude.Tests.{◌==◌, ==_iff, if◌then◌else◌, Bool-cases}

abbrev pub Memory {ℓ} : Type ℓ → Type ℓ
Memory A = ℕ → A

pub le_cases : (d k : ℕ) → d ≤ k → (d ≡ k) ⊎ (suc d ≤ k)
le_cases d k h = ground arith

module _ {ℓ} {A : Type ℓ} where
  unfoldable pub write : Memory A → ℕ → A → Memory A
  write m i v j = if i == j then v else m j

  -- for (k = d; k < d + n; ++k) m[base + k] = f k m[base + k];
  unfoldable pub each : ℕ → ℕ → ℕ → (ℕ → A → A) → Memory A → Memory A
  unfolding write
  each zero d base f m = m
  each (suc n) d base f m = each n (suc d) base f (write m (base + d) (f d (m (base + d))))

  pub each_outside :
      (n d base : ℕ) (f : ℕ → A → A) (m : Memory A) (j : ℕ)
      → (j < base + d) ⊎ (base + d + n ≤ j)
      → each n d base f m j ≡ m j
  unfolding each
  each_outside zero d base f m j h = refl
  each_outside (suc n) d base f m j h =
      ground (arith, each_outside n (suc d) base f (write m (base + d) (f d (m (base + d)))) j)

  pub write_hit : (m : Memory A) (i : ℕ) (v : A) → write m i v i ≡ v
  unfolding write
  write_hit m i v = rw ((==_iff i i).1 refl)

  pub write_miss : (m : Memory A) (i j : ℕ) (v : A) → i ≢ j → write m i v j ≡ m j
  unfolding write
  write_miss m i j v h = elim (Bool-cases (i == j)) [
    | inl e ↦ absurd (h ((==_iff i j).0 e))
    | inr e ↦ rw e
  ]

  pub each_inside :
      (n d base : ℕ) (f : ℕ → A → A) (m : Memory A) (k : ℕ)
      → d ≤ k
      → k < d + n
      → each n d base f m (base + k) ≡ f k (m (base + k))
  unfolding each
  each_inside zero d base f m k h lt = absurd (omega arith)
  each_inside (suc n) d base f m k h lt =
      let m' = write m (base + d) (f d (m (base + d))) in
      elim (le_cases d k h) [
        | inl e ↦ rw (← e) (
            each_outside n (suc d) base f m' (base + d) (omega arith)
            ∙ write_hit m (base + d) (f d (m (base + d))))
        | inr more ↦
            each_inside n (suc d) base f m' k more (omega arith)
            ∙ ap (f k) (write_miss m (base + d) (base + k) _ (omega arith))
      ]
