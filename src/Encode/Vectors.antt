-- ===== src/Encode/Vectors.antt =====
-- src/session_ort.cpp, `OrtSession::encode`: the loop over batches computes the vectors.
use native.Mathlib.Nat.{zero-add}
use cyborgdb_embed.Prelude.{
  ℕ, zero, suc, ◌+◌, ◌*◌, ◌<◌, ◌≡◌, sym, ap, ◌∙◌, inl, inr, true, ◌||◌, Option, some, List, [], ◌∷◌,
  map, if◌then◌else◌, All, All-get_or, All-take, All-drop, Text, length, take-append-drop, contains,
  contains-append, Memory, arith,
}
use cyborgdb_embed.Status.{Status, is_ok, inference_failed}
use cyborgdb_embed.Float.{Float}
use cyborgdb_embed.Encode.{Model, hidden, pad, infer, batch_vectors, finish, encode_batches}
use cyborgdb_embed.Encode.Reference.{States, HasFirst, IsRowwise, text_vector}
use cyborgdb_embed.Encode.Rows.{vectors_lem}
use cyborgdb_embed.Encode.Scatter.{scatter_lem}
use cyborgdb_embed.Encode.Loop.{shape, batch, after, batch_fits, finished, round, Inference-cases}

module _ (fl : Float) (model : Model fl.F) (tokens : ℕ → List ℕ) where
  open fl use {F}

  contains_parts :
      (i : ℕ) (order : List ℕ) (j : ℕ)
      → contains j (i ∷ order)
        ≡ (contains j (batch fl model tokens i order) || contains j (after fl model tokens i order))
  contains_parts i order j =
      ap (contains j) (sym (take-append-drop (shape fl model tokens i order).rows (i ∷ order)))
      ∙ contains-append j (batch fl model tokens i order) (after fl model tokens i order)

  inference_failed_not_ok :
      (s : Status) (out out' : Memory F) (what : Text)
      → is_ok s ≡ true
      → ◌≡◌ {A = Option (Status × Memory F)}
          (some (record { code = inference_failed; message = what }, out))
          (some (s, out'))
      → ⊥
  inference_failed_not_ok s out out' what ok e = ground arith

  module _ (state : States F) (law : IsRowwise fl model state) where
    -- Each of these texts has what its mode reads.
    abbrev pub AllFirst : List ℕ → Type 0
    AllFirst = All (λ i. HasFirst model.pooling (tokens i))

    finished_lem :
        (i : ℕ) (order : List ℕ) (states out : Memory F)
        → AllFirst (i ∷ order)
        → infer fl model tokens
            (batch fl model tokens i order)
            (shape fl model tokens i order).width
          ≡ hidden states
        → (j d : ℕ) → d < model.dimension
        → finished fl model tokens i order states out (j * model.dimension + d) ≡ (
            if contains j (batch fl model tokens i order)
            then text_vector fl model state (tokens j) d
            else out (j * model.dimension + d))
    unfolding finish
    finished_lem i order states out first ran j d hd =
        let width = (shape fl model tokens i order).width in
        let mask = pad (λ _. 1) width (map tokens (batch fl model tokens i order)) 0 (λ _. 0) in
        let vecs =
          batch_vectors fl model (length (batch fl model tokens i order)) width mask states in
        scatter_lem fl model.dimension vecs (λ k e. text_vector fl model state (tokens k) e)
          (batch fl model tokens i order) 0 out j d hd
          (λ k e hk he. rw (zero-add k) (
            vectors_lem fl model state law tokens (shape fl model tokens i order).width
              (batch fl model tokens i order) (batch_fits fl model tokens i order) ran k e hk he
              (All-get_or (λ i'. HasFirst model.pooling (tokens i')) (batch fl model tokens i order)
                k 0
                (All-take (λ i'. HasFirst model.pooling (tokens i'))
                  (shape fl model tokens i order).rows (i ∷ order) first)
                hk)))

    -- A run of the loop that succeeds leaves at each index of `order` the vector of its text, and
    -- every other row as it was.
    pub encode_batches_lem :
        (fuel : ℕ) (order : List ℕ) (out : Memory F) (s : Status) (out' : Memory F)
        → AllFirst order
        → encode_batches fl model tokens fuel order out ≡ some (s, out')
        → is_ok s ≡ true
        → (j d : ℕ) → d < model.dimension
        → out' (j * model.dimension + d) ≡ (
            if contains j order
            then text_vector fl model state (tokens j) d
            else out (j * model.dimension + d))
    unfolding encode_batches
    encode_batches_lem fuel [] out s out' first e ok j d hd = cc
    encode_batches_lem zero (i ∷ order) out s out' first e ok j d hd = cc
    encode_batches_lem (suc fuel) (i ∷ order) out s out' first e ok j d hd =
        elim (Inference-cases (
          infer fl model tokens (batch fl model tokens i order)
            (shape fl model tokens i order).width)) [
              | inl (states, ran) ↦
                  let rest =
                    encode_batches_lem fuel (after fl model tokens i order)
                      (finished fl model tokens i order states out) s out'
                      (All-drop (λ i'. HasFirst model.pooling (tokens i'))
                        (shape fl model tokens i order).rows (i ∷ order) first)
                      (sym (round fl model tokens fuel i order out states ran) ∙ e) ok j d hd in
                  ground (
                    arith,
                    rest,
                    finished_lem i order states out first ran j d hd,
                    contains_parts i order j,
                  )
              | inr (what, failed) ↦
                  absurd
                    (inference_failed_not_ok s out out' what ok (rw (failed, encode_batches) at e))
            ]
