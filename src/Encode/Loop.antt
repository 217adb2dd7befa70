-- ===== src/Encode/Loop.antt =====
-- src/session_ort.cpp, `OrtSession::encode`: the loop over batches: its end, and what it leaves alone.
use cyborgdb_embed.Prelude.{
  ℕ, zero, suc, ◌*◌, ◌<◌, ◌≤◌, ◌≡◌, refl, sym, ap, subst, ◌∙◌, ◌⊎◌, inl, inr, Option, some, List,
  [], ◌∷◌, map, All, All-take, All-drop, Text, length, take, drop, length-drop, Memory, arith,
}
use cyborgdb_embed.Status.{Status, success, inference_failed}
use cyborgdb_embed.Float.{Float}
use cyborgdb_embed.Encode.{
  Model, Batch, grow, Inference, hidden, threw, pad, infer, batch_vectors, finish, encode_batches,
}
use cyborgdb_embed.Encode.Batches.{grow_pos, grow_wide}
use cyborgdb_embed.Encode.Scatter.{scatter_frame}

fit_take :
    (tokens : ℕ → List ℕ) (width n : ℕ) (order : List ℕ)
    → All (λ size. size ≤ width) (take n (map (λ k. length (tokens k)) order))
    → All (λ ids. length ids ≤ width) (map tokens (take n order))
fit_take tokens width zero order h = tt
fit_take tokens width (suc n) [] h = tt
fit_take tokens width (suc n) (i ∷ order) h = (h.0, fit_take tokens width n order h.1)

length-sizes :
    (tokens : ℕ → List ℕ) (order : List ℕ)
    → length (map (λ k. length (tokens k)) order) ≡ length order
length-sizes tokens [] = refl
length-sizes tokens (i ∷ order) = ap suc (length-sizes tokens order)

pub Inference-cases :
    {F : Type 0} (r : Inference F)
    → ((states : Memory F) × (r ≡ hidden states)) ⊎ ((what : Text) × (r ≡ threw what))
Inference-cases (hidden states) = inl (states, refl)
Inference-cases (threw what) = inr (what, refl)

pub same_memory :
    {F : Type 0} {s t : Status} (out out' : Memory F) (j : ℕ)
    → ◌≡◌ {A = Option (Status × Memory F)} (some (s, out)) (some (t, out'))
    → out' j ≡ out j
same_memory out out' j e = cc

module _ (fl : Float) (model : Model fl.F) (tokens : ℕ → List ℕ) where
  open fl use {F}

  -- The shape of the next batch, and its rows.
  abbrev pub shape : ℕ → List ℕ → Batch
  shape i order = grow (map (λ k. length (tokens k)) (i ∷ order)) 0 1

  abbrev pub batch : ℕ → List ℕ → List ℕ
  batch i order = take (shape i order).rows (i ∷ order)

  abbrev pub after : ℕ → List ℕ → List ℕ
  after i order = drop (shape i order).rows (i ∷ order)

  -- Each round takes at least one text.
  length-after : (i : ℕ) (order : List ℕ) → length (after i order) ≤ length order
  length-after i order = omega (
    arith,
    length-drop (shape i order).rows (i ∷ order),
    grow_pos (length (tokens i)) (map (λ k. length (tokens k)) order) 1,
  )

  pub batch_fits :
      (i : ℕ) (order : List ℕ)
      → All (λ ids. length ids ≤ (shape i order).width) (map tokens (batch i order))
  batch_fits i order =
      fit_take tokens (shape i order).width (shape i order).rows (i ∷ order) (
        grow_wide (map (λ k. length (tokens k)) (i ∷ order)) 0 1 (shape i order).rows (omega arith))

  abbrev pub finished : ℕ → List ℕ → Memory F → Memory F → Memory F
  finished i order states out =
      finish fl model (batch i order) (shape i order).width
        (pad (λ _. 1) (shape i order).width (map tokens (batch i order)) 0 (λ _. 0)) states out

  -- One round of the loop, where the session answers.
  pub round :
      (fuel i : ℕ) (order : List ℕ) (out states : Memory F)
      → infer fl model tokens (batch i order) (shape i order).width ≡ hidden states
      → encode_batches fl model tokens (suc fuel) (i ∷ order) out
        ≡ encode_batches fl model tokens fuel (after i order) (finished i order states out)
  unfolding encode_batches
  round fuel i order out states ran = rw (ran, encode_batches)

  -- With a unit of fuel for each text the loop ends, whatever the session does.
  pub encode_batches_total :
      (fuel : ℕ) (order : List ℕ) (out : Memory F)
      → length order ≤ fuel
      → (r : Status × Memory F) × (encode_batches fl model tokens fuel order out ≡ some r)
  unfolding encode_batches
  encode_batches_total fuel [] out h = ((success, out), refl)
  encode_batches_total zero (i ∷ order) out h = absurd (omega arith)
  encode_batches_total (suc fuel) (i ∷ order) out h =
      elim (Inference-cases (infer fl model tokens (batch i order) (shape i order).width)) [
        | inl (states, ran) ↦
            subst (λ r. (p : Status × Memory F) × (r ≡ some p))
              (sym (round fuel i order out states ran))
              (encode_batches_total fuel (after i order) (finished i order states out)
                (omega (arith, length-after i order)))
        | inr (what, failed) ↦
            ((record { code = inference_failed; message = what }, out), rw (failed, encode_batches))
      ]

  finished_frame :
      (n i : ℕ) (order : List ℕ) (states out : Memory F) (j : ℕ)
      → All (λ k. k < n) (i ∷ order)
      → n * model.dimension ≤ j
      → finished i order states out j ≡ out j
  unfolding finish
  finished_frame n i order states out j below h =
      scatter_frame fl model.dimension
        (batch_vectors fl model (length (batch i order)) (shape i order).width
          (pad (λ _. 1) (shape i order).width (map tokens (batch i order)) 0 (λ _. 0)) states)
        (λ _ _. fl.zero) n (batch i order) 0 out j
        (All-take (λ k. k < n) (shape i order).rows (i ∷ order) below) h

  -- However the loop ends, it has written nothing behind the rows of `order`.
  pub encode_batches_frame :
      (n fuel : ℕ) (order : List ℕ) (out : Memory F) (s : Status) (out' : Memory F) (j : ℕ)
      → All (λ k. k < n) order
      → n * model.dimension ≤ j
      → encode_batches fl model tokens fuel order out ≡ some (s, out')
      → out' j ≡ out j
  unfolding encode_batches
  encode_batches_frame n fuel [] out s out' j below h e = cc
  encode_batches_frame n zero (i ∷ order) out s out' j below h e = cc
  encode_batches_frame n (suc fuel) (i ∷ order) out s out' j below h e =
      elim (Inference-cases (infer fl model tokens (batch i order) (shape i order).width)) [
        | inl (states, ran) ↦
            encode_batches_frame n fuel (after i order) (finished i order states out) s out' j
              (All-drop (λ k. k < n) (shape i order).rows (i ∷ order) below) h
              (sym (round fuel i order out states ran) ∙ e)
            ∙ finished_frame n i order states out j below h
        | inr (what, failed) ↦ same_memory out out' j (rw (failed, encode_batches) at e)
      ]

  -- Where the session answers every call, the loop succeeds.
  pub encode_batches-success :
      (fuel : ℕ) (order : List ℕ) (out : Memory F)
      → ((rows width : ℕ) (input_ids mask : Memory ℕ) (types : Option (Memory ℕ))
          → (states : Memory F) × (model.run rows width input_ids mask types ≡ hidden states))
      → length order ≤ fuel
      → (out' : Memory F) × (encode_batches fl model tokens fuel order out ≡ some (success, out'))
  unfolding encode_batches infer
  encode_batches-success fuel [] out answers h = (out, refl)
  encode_batches-success zero (i ∷ order) out answers h = absurd (omega arith)
  encode_batches-success (suc fuel) (i ∷ order) out answers h =
      let (states, ran) = answers (length (batch i order)) (shape i order).width _ _ _ in
      subst (λ r. (p : Memory F) × (r ≡ some (success, p)))
        (sym (round fuel i order out states ran))
        (encode_batches-success fuel (after i order) (finished i order states out) answers
          (omega (arith, length-after i order)))
