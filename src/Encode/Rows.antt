-- ===== src/Encode/Rows.antt =====
-- src/session_ort.cpp, `OrtSession::encode`: one batch computes the vectors of its texts.
use native.Mathlib.Nat.{zero-add}
use cyborgdb_embed.Prelude.{
  ℕ, zero, suc, ◌+◌, ◌-◌, ◌*◌, ◌<◌, ◌≤◌, ◌≡◌, refl, ap, ◌∙◌, inl, inr, List, [], ◌∷◌, map, ltb,
  if◌then◌else◌, Bool-cases, ltb→lt, All, length, get_or, range, Memory, arith,
}
use cyborgdb_embed.Float.{Float}
use cyborgdb_embed.Pooling.{Pooling, cls_token, mean_tokens, max_tokens, pool}
use cyborgdb_embed.Pooling.Reduce.{real_tokens, reduce_column}
use cyborgdb_embed.Pooling.Rows.{pooled_at, pool_lem}
use cyborgdb_embed.Pooling.Norms.{scaled_row_congr, l2_normalize_lem}
use cyborgdb_embed.Encode.{Model, hidden, pad, infer, batch_vectors}
use cyborgdb_embed.Encode.Padding.{pad_inside}
use cyborgdb_embed.Encode.Reference.{
  States, IsPadded, HasFirst, IsRowwise, pooled_text, text_vector,
}

get_or-map :
    (tokens : ℕ → List ℕ) (batch : List ℕ) (k : ℕ)
    → k < length batch
    → get_or (map tokens batch) k [] ≡ tokens (get_or batch k 0)
get_or-map tokens [] k h = absurd (omega arith)
get_or-map tokens (i ∷ batch) zero h = refl
get_or-map tokens (i ∷ batch) (suc k) h = get_or-map tokens batch k (omega arith)

length-map_tokens :
    (tokens : ℕ → List ℕ) (batch : List ℕ) → length (map tokens batch) ≡ length batch
length-map_tokens tokens [] = refl
length-map_tokens tokens (i ∷ batch) = ap suc (length-map_tokens tokens batch)

get_or_past : (ts : List ℕ) (t : ℕ) → length ts ≤ t → get_or ts t 0 ≡ 0
get_or_past [] t h = refl
get_or_past (x ∷ ts) zero h = absurd (omega arith)
get_or_past (x ∷ ts) (suc t) h = get_or_past ts t (omega arith)

get_or_padded :
    (ts : List ℕ) (t : ℕ) → (if ltb t (length ts) then get_or ts t 0 else 0) ≡ get_or ts t 0
get_or_padded ts t = ground (arith, get_or_past ts t)

fit_in :
    (tokens : ℕ → List ℕ) (width : ℕ) (batch : List ℕ) (k : ℕ)
    → All (λ ids. length ids ≤ width) (map tokens batch)
    → k < length batch
    → length (tokens (get_or batch k 0)) ≤ width
fit_in tokens width [] k fit h = absurd (omega arith)
fit_in tokens width (i ∷ batch) zero fit h = fit.0
fit_in tokens width (i ∷ batch) (suc k) fit h = fit_in tokens width batch k fit.1 (omega arith)

-- The rows of a padded batch.
module _ (tokens : ℕ → List ℕ) (width : ℕ) (batch : List ℕ)
    (fit : All (λ ids. length ids ≤ width) (map tokens batch)) where
  padded :
      (value : ℕ → ℕ) (k t : ℕ)
      → k < length batch
      → t < width
      → pad value width (map tokens batch) 0 (λ _. 0) (k * width + t) ≡ (
          if ltb t (length (tokens (get_or batch k 0)))
          then value (get_or (tokens (get_or batch k 0)) t 0)
          else 0)
  padded value k t h ht =
      rw (zero-add, get_or-map tokens batch k h) at
        (pad_inside value width (map tokens batch) 0 k t (λ _. 0) fit
          (omega (arith, length-map_tokens tokens batch)) ht)

  pub pad-IsPadded :
      (k : ℕ)
      → k < length batch
      → IsPadded
          (pad (λ id. id) width (map tokens batch) 0 (λ _. 0))
          (pad (λ _. 1) width (map tokens batch) 0 (λ _. 0))
          (k * width)
          width
          (tokens (get_or batch k 0))
  pad-IsPadded k h t ht = (
    padded (λ id. id) k t h ht ∙ get_or_padded (tokens (get_or batch k 0)) t,
    padded (λ _. 1) k t h ht,
  )

  fit_at : (k : ℕ) → k < length batch → length (tokens (get_or batch k 0)) ≤ width
  fit_at k h = fit_in tokens width batch k fit h

-- The mask of a padded row marks the positions of its tokens.
real_tokens_padded :
    (mask : Memory ℕ) (base n t size : ℕ)
    → ((k : ℕ) → t ≤ k → k < t + n → mask (base + k) ≡ (if ltb k size then 1 else 0))
    → size ≤ t + n
    → real_tokens mask base n t ≡ range t (size - t)
unfolding real_tokens
real_tokens_padded mask base zero t size marks h = let e : size - t ≡ 0 = omega arith in rw e
real_tokens_padded mask base (suc n) t size marks h =
    let rest =
      real_tokens_padded mask base n (suc t) size (λ k h' lt. marks k (omega arith) (omega arith))
        (omega arith) in
    let here = marks t (omega arith) (omega arith) in
    elim (Bool-cases (ltb t size)) [
      | inl e ↦
          let s : size - t ≡ suc (size - suc t) = omega (arith, ltb→lt t size e) in
          rw (here, e, s, rest)
      | inr e ↦
          let s : size - t ≡ 0 = ground arith in
          let s' : size - suc t ≡ 0 = omega arith in rw (here, e, s, rest, s')
    ]

-- Only a mode that reads the first state depends on it.
reduce_column_first :
    (fl : Float) (mode : Pooling) (a b : fl.F) (xs : List fl.F)
    → (mode ≡ cls_token → a ≡ b)
    → reduce_column fl mode a xs ≡ reduce_column fl mode b xs
unfolding reduce_column
reduce_column_first fl cls_token a b xs same = same refl
reduce_column_first fl mean_tokens a b xs same = refl
reduce_column_first fl max_tokens a b xs same = refl

map-range_congr {ℓ} :
    {A : Type ℓ} (f g : ℕ → A) (i n : ℕ)
    → ((k : ℕ) → k < i + n → f k ≡ g k)
    → map f (range i n) ≡ map g (range i n)
map-range_congr f g i zero same = refl
map-range_congr f g i (suc n) same =
    rw (same i (omega arith), map-range_congr f g (suc i) n (λ k h. same k (omega arith)))

module _ (fl : Float) (model : Model fl.F) (state : States fl.F) (law : IsRowwise fl model state)
    (tokens : ℕ → List ℕ) (width : ℕ) (batch : List ℕ)
    (fit : All (λ ids. length ids ≤ width) (map tokens batch)) {states : Memory fl.F}
    (ran : infer fl model tokens batch width ≡ hidden states) where
  open fl use {F}

  abbrev pub mask : Memory ℕ
  mask = pad (λ _. 1) width (map tokens batch) 0 (λ _. 0)

  -- A token's state in the batch is its state in the text.
  state_in_batch :
      (k t d : ℕ)
      → k < length batch
      → t < length (tokens (get_or batch k 0))
      → d < model.dimension
      → states (k * width * model.dimension + t * model.dimension + d)
        ≡ state (tokens (get_or batch k 0)) t d
  unfolding infer
  state_in_batch k t d hk ht hd =
      law.rowwise (length batch) width _ _ _ states ran k (tokens (get_or batch k 0)) hk
        (fit_in tokens width batch k fit hk) (pad-IsPadded tokens width batch fit k hk) t d ht hd

  pooled_in_batch :
      (k d : ℕ)
      → k < length batch
      → d < model.dimension
      → HasFirst model.pooling (tokens (get_or batch k 0))
      → pooled_at fl states mask width model.dimension model.pooling k d
        ≡ pooled_text fl model state (tokens (get_or batch k 0)) d
  unfolding pooled_text
  pooled_in_batch k d hk hd first =
      let ts = tokens (get_or batch k 0) in
      let at = k * width * model.dimension in
      let f = λ (t : ℕ). states (at + t * model.dimension + d) in
      let g = λ (t : ℕ). state ts t d in
      let whole : length ts - 0 ≡ length ts = omega arith in
      let real : real_tokens mask (k * width) width 0 ≡ range 0 (length ts) = rw whole at (
        real_tokens_padded mask (k * width) width 0 (length ts)
          (λ t _ ht. (pad-IsPadded tokens width batch fit k hk t (omega (arith, zero-add width))).1)
          (omega (arith, fit_in tokens width batch k fit hk))) in
      let columns : map f (range 0 (length ts)) ≡ map g (range 0 (length ts)) =
        map-range_congr f g 0 (length ts) (λ t ht. state_in_batch k t d hk (omega arith) hd) in
      let start : at + 0 * model.dimension + d ≡ at + d = omega arith in
      ap (λ ts'. reduce_column fl model.pooling (states (at + d)) (map f ts')) real
      ∙ ap (reduce_column fl model.pooling (states (at + d))) columns
      ∙ reduce_column_first fl model.pooling (states (at + d)) (state ts 0 d)
          (map g (range 0 (length ts))) (λ c. rw start at (state_in_batch k 0 d hk (first c) hd))

  -- The rows that `encode` scatters.
  pub vectors_lem :
      (k d : ℕ)
      → k < length batch
      → d < model.dimension
      → HasFirst model.pooling (tokens (get_or batch k 0))
      → batch_vectors fl model (length batch) width mask states (k * model.dimension + d)
        ≡ text_vector fl model state (tokens (get_or batch k 0)) d
  unfolding text_vector batch_vectors
  vectors_lem k d hk hd first =
      let pooled =
        pool fl states mask (length batch) width model.dimension model.pooling (λ _. fl.zero) in
      let plain = λ (i : ℕ) (hi : i < model.dimension).
        pool_lem fl states mask width model.dimension model.pooling (length batch) k i
          (λ _. fl.zero) hk hi
        ∙ pooled_in_batch k i hk hi first in
      elim (Bool-cases model.normalize) [
        | inl e ↦ rw e (
            l2_normalize_lem fl model.dimension (length batch) k d pooled hk hd
            ∙ scaled_row_congr fl model.dimension (λ i. pooled (k * model.dimension + i))
                (pooled_text fl model state (tokens (get_or batch k 0))) d hd plain)
        | inr e ↦ rw e (plain d hd)
      ]
