-- ===== src/Prelude/Totals.antt =====
-- The sum of a weight over the first places of a memory.
use Prim.Native.Nat.{ℕ, zero, suc, ◌+◌, ◌≤◌, ◌<◌}
use mathlib.Core.Path.{◌≡◌, refl, sym, ap, ap₂, ◌∙◌}
use mathlib.Core.Logic.{◌⊎◌, inl, inr}
use native.Mathlib.Omega.{arith}
use cyborgdb_embed.Prelude.Tests.{ltb, ltb→lt, Bool-cases}
use cyborgdb_embed.Prelude.Buffers.{Memory, write, write_hit, write_miss}

last_or_before : (a b : ℕ) → a ≤ b → (a ≡ b) ⊎ (a < b)
last_or_before a b h = ground arith

zero_add : (n : ℕ) → 0 + n ≡ n
zero_add n = omega arith

suc_add : (d n : ℕ) → suc d + n ≡ suc (d + n)
suc_add d n = omega arith

add_comm : (a b : ℕ) → a + b ≡ b + a
add_comm a b = omega arith

module _ {ℓ} {A : Type ℓ} where
  unfoldable pub total : (A → ℕ) → Memory A → ℕ → ℕ
  total f m zero = 0
  total f m (suc n) = total f m n + f (m n)

pub total_cong {ℓ κ} :
    {A : Type ℓ} {B : Type κ} (f : A → ℕ) (g : B → ℕ) (m : Memory A) (k : Memory B) (n : ℕ)
    → ((i : ℕ) → i < n → f (m i) ≡ g (k i))
    → total f m n ≡ total g k n
unfolding total
total_cong f g m k zero h = refl
total_cong f g m k (suc n) h =
    ap₂ (λ a b. a + b) (total_cong f g m k n (λ i lt. h i (omega arith))) (h n (omega arith))

module _ {ℓ} {A : Type ℓ} where
  pub total_zero :
      (f : A → ℕ) (m : Memory A) (n : ℕ) → ((i : ℕ) → i < n → f (m i) ≡ 0) → total f m n ≡ 0
  unfolding total
  total_zero f m zero h = refl
  total_zero f m (suc n) h =
      ap₂ (λ a b. a + b) (total_zero f m n (λ i lt. h i (omega arith))) (h n (omega arith))

  -- A total that is not 0 has a place with a weight.
  pub total_place :
      (f : A → ℕ) (m : Memory A) (n : ℕ) → 0 < total f m n → (i : ℕ) × (i < n) × (0 < f (m i))
  unfolding total
  total_place f m zero h = absurd (omega arith)
  total_place f m (suc n) h = elim (Bool-cases (ltb 0 (f (m n)))) [
    | inl here ↦ (n, omega arith, ltb→lt 0 (f (m n)) here)
    | inr none_here ↦
        let (i, lt, weighs) = total_place f m n (ground arith) in (i, omega arith, weighs)
  ]

  pub total_above : (f : A → ℕ) (m : Memory A) (n i : ℕ) → i < n → f (m i) ≤ total f m n
  unfolding total
  total_above f m zero i lt = absurd (omega arith)
  total_above f m (suc n) i lt = elim (last_or_before i n (omega arith)) [
    | inl same ↦ rw same (omega arith)
    | inr before ↦ let le = total_above f m n i before in omega arith
  ]

  pub total-write_outside :
      (f : A → ℕ) (m : Memory A) (n i : ℕ) (v : A) → n ≤ i → total f (write m i v) n ≡ total f m n
  total-write_outside f m n i v h =
      total_cong f f (write m i v) m n (λ j lt. ap f (write_miss m i j v (omega arith)))

  -- What a write adds, and what it takes away.
  pub total-write :
      (f : A → ℕ) (m : Memory A) (n i : ℕ) (v : A)
      → i < n
      → total f (write m i v) n + f (m i) ≡ total f m n + f v
  unfolding total
  total-write f m zero i v lt = absurd (omega arith)
  total-write f m (suc n) i v lt = elim (last_or_before i n (omega arith)) [
    | inl same ↦
        let a = total-write_outside f m n i v (omega arith) in
        let b = ap f (ap (write m i v) (sym same) ∙ write_hit m i v) in
        let c = ap (λ j. f (m j)) same in omega arith
    | inr before ↦
        let a = total-write f m n i v before in
        let b = ap f (write_miss m i n v (omega arith)) in omega arith
  ]

  -- Places without a weight do not count.
  total_more :
      (f : A → ℕ) (m : Memory A) (n d : ℕ)
      → ((i : ℕ) → n ≤ i → f (m i) ≡ 0)
      → total f m (d + n) ≡ total f m n
  unfolding total
  total_more f m n zero h = ap (total f m) (zero_add n)
  total_more f m n (suc d) h =
      let e = total_more f m n d h in
      let z = h (d + n) (omega arith) in ap (total f m) (suc_add d n) ∙ omega arith

  pub total_stable :
      (f : A → ℕ) (m : Memory A) (a b : ℕ)
      → ((i : ℕ) → a ≤ i → f (m i) ≡ 0)
      → ((i : ℕ) → b ≤ i → f (m i) ≡ 0)
      → total f m a ≡ total f m b
  total_stable f m a b h k =
      sym (total_more f m a b h) ∙ ap (total f m) (add_comm b a) ∙ total_more f m b a k
