-- ===== src/Encode/Reference.antt =====
-- What one text's vector is, with no batch in sight, and what `encode` relies on of the inference
-- session: attention masks out the padding, so that a row's states at its real tokens are those of
-- the row alone. (On hardware this holds to the tolerance that the parity run measures.)
use cyborgdb_embed.Prelude.{
  ℕ, ◌+◌, ◌*◌, ◌<◌, ◌≤◌, ◌≡◌, List, map, Option, ltb, if◌then◌else◌, length, get_or, range, Memory,
}
use cyborgdb_embed.Float.{Float}
use cyborgdb_embed.Pooling.{Pooling, cls_token}
use cyborgdb_embed.Pooling.Reduce.{reduce_column, scaled_row}
use cyborgdb_embed.Encode.{Model, hidden}

-- The state of the token at position t of a text's ids, element d.
abbrev pub States : Type 0 → Type 0
States F = List ℕ → ℕ → ℕ → F

-- The row at `base` holds these ids and marks them, and no more.
abbrev pub IsPadded : Memory ℕ → Memory ℕ → ℕ → ℕ → List ℕ → Type 0
IsPadded input_ids mask base width ts =
    (t : ℕ)
    → t < width
    → (input_ids (base + t) ≡ get_or ts t 0)
      × (mask (base + t) ≡ (if ltb t (length ts) then 1 else 0))

-- A mode that reads the first state wants a first token.
abbrev pub HasFirst : Pooling → List ℕ → Type 0
HasFirst mode ts = mode ≡ cls_token → 0 < length ts

module _ (fl : Float) where
  open fl use {F}

  pub record IsRowwise (model : Model F) (state : States F) : Type 0 where
    pub rowwise :
        (rows width : ℕ) (input_ids mask : Memory ℕ) (types : Option (Memory ℕ)) (out : Memory F)
        → model.run rows width input_ids mask types ≡ hidden out
        → (r : ℕ) (ts : List ℕ) → r < rows
        → length ts ≤ width
        → IsPadded input_ids mask (r * width) width ts
        → (t d : ℕ) → t < length ts
        → d < model.dimension
        → out (r * width * model.dimension + t * model.dimension + d) ≡ state ts t d

  -- The pooled states of a text.
  unfoldable pub pooled_text : Model F → States F → List ℕ → ℕ → F
  pooled_text model state ts d =
      reduce_column fl model.pooling (state ts 0 d) (map (λ t. state ts t d) (range 0 (length ts)))

  -- The vector of a text.
  unfoldable pub text_vector : Model F → States F → List ℕ → ℕ → F
  unfolding pooled_text
  text_vector model state ts d =
      if model.normalize
      then scaled_row fl model.dimension (pooled_text model state ts) d
      else pooled_text model state ts d
