-- ===== src/Encode/Calls.antt =====
-- src/session_ort.cpp, `OrtSession::encode`: a whole call.
use native.Mathlib.Nat.{mod-eq_of_lt}
use cyborgdb_embed.Prelude.{
  ℕ, ◌+◌, ◌*◌, ◌%◌, ◌<◌, ◌≤◌, ◌≡◌, refl, sym, ap, subst, ◌∙◌, ◌⊎◌, inl, inr, Bool, true, false, not,
  ◌==◌, ◌&&◌, ◌||◌, Option, some, List, [], ltb, Bool-cases, Text, length, get_or, range, contains,
  Memory, arith,
}
use cyborgdb_embed.Status.{Status, success, is_ok}
use cyborgdb_embed.Float.{Float}
use cyborgdb_embed.Encode.{
  Model, hidden, Tokens, Tokenized, all, stopped, tokenize, Pointer, null_arguments, too_small,
  stable_sort, encode_tokenized, encode, size_limit,
}
use cyborgdb_embed.Encode.Order.{
  contains-stable_sort, contains-range, stable_sort-All, length-stable_sort,
}
use cyborgdb_embed.Encode.Tokenising.{Encodes, Tokenized-cases, tokenize_all, tokenize_stopped}
use cyborgdb_embed.Encode.Reference.{States, HasFirst, IsRowwise, text_vector}
use cyborgdb_embed.Encode.Loop.{
  same_memory, encode_batches_total, encode_batches_frame, encode_batches-success,
}
use cyborgdb_embed.Encode.Vectors.{encode_batches_lem}

and_false : (b : Bool) → (b && false) ≡ false
and_false true = refl
and_false false = refl

module _ (fl : Float) (model : Model fl.F) (n : ℕ) (out : Memory fl.F) where
  open fl use {F}

  tokenized_total :
      (t : Tokenized) → (p : Status × Memory F) × (encode_tokenized fl model n out t ≡ some p)
  unfolding encode_tokenized
  tokenized_total (stopped s) = ((s, out), refl)
  tokenized_total (all l) =
      encode_batches_total fl model (λ i. get_or l i []) n
        (stable_sort (λ i. length (get_or l i [])) (range 0 n)) out
        (omega (arith, length-stable_sort (λ i. length (get_or l i [])) n))

  tokenized_frame :
      (t : Tokenized) (s : Status) (out' : Memory F) (j : ℕ)
      → n * model.dimension ≤ j
      → encode_tokenized fl model n out t ≡ some (s, out')
      → out' j ≡ out j
  unfolding encode_tokenized
  tokenized_frame (stopped s') s out' j h e = same_memory out out' j e
  tokenized_frame (all l) s out' j h e =
      encode_batches_frame fl model (λ i. get_or l i []) n n
        (stable_sort (λ i. length (get_or l i [])) (range 0 n)) out s out' j
        (stable_sort-All (λ i. length (get_or l i [])) (λ k. k < n) n (λ k h'. h')) h e

  loop_vectors :
      (state : States F)
      → IsRowwise fl model state
      → (l : List (List ℕ)) → ((i : ℕ) → i < n → HasFirst model.pooling (get_or l i []))
      → (s : Status) (out' : Memory F) → encode_tokenized fl model n out (all l) ≡ some (s, out')
      → is_ok s ≡ true
      → (i d : ℕ) → i < n
      → d < model.dimension
      → out' (i * model.dimension + d) ≡ text_vector fl model state (get_or l i []) d
  unfolding encode_tokenized
  loop_vectors state law l first s out' e ok i d hi hd =
      let size = λ (k : ℕ). length (get_or l k []) in
      let here : contains i (stable_sort size (range 0 n)) ≡ true =
        contains-stable_sort size i (range 0 n) ∙ contains-range i 0 n ∙ ground arith in
      rw here at (
        encode_batches_lem fl model (λ k. get_or l k []) state law n (stable_sort size (range 0 n))
          out s out' (stable_sort-All size (λ k. HasFirst model.pooling (get_or l k [])) n first) e
          ok i d hd)

not_ok :
    {F : Type 0} {s t : Status} {out out' : Memory F}
    → ◌≡◌ {A = Option (Status × Memory F)} (some (s, out)) (some (t, out'))
    → is_ok t ≡ false
    → is_ok s ≡ true
    → ⊥
not_ok e bad ok = ground arith

-- The session answers every call: no exception.
abbrev pub Answers : {F : Type 0} → Model F → Type 0
Answers {F} model =
    (rows width : ℕ) (input_ids mask : Memory ℕ) (types : Option (Memory ℕ))
    → (states : Memory F) × (model.run rows width input_ids mask types ≡ hidden states)

module _ (fl : Float) (model : Model fl.F) (tokenizer : Text → Tokens) (texts : Pointer (List Text))
    (n : ℕ) (out : Pointer (Memory fl.F)) (out_capacity : ℕ) where
  open fl use {F}

  abbrev result : Option (Status × Memory F)
  result = encode fl model tokenizer texts n out out_capacity

  abbrev needed : ℕ
  needed = (n * model.dimension) % size_limit

  -- A call that is rejected, or one that reaches the tokeniser with room for its output.
  encode_cases :
      (result ≡ some (null_arguments, out.target))
      ⊎ (result ≡ some (too_small needed out_capacity, out.target))
      ⊎ (needed ≤ out_capacity)
        × (result ≡ encode_tokenized fl model n out.target (tokenize tokenizer texts.target))
  unfolding encode
  encode_cases = elim (Bool-cases (not (n == 0) && (texts.is_null || out.is_null))) [
    | inl e ↦ inl (rw (e, encode))
    | inr e ↦ elim (Bool-cases (ltb out_capacity needed)) [
      | inl small ↦ inr (inl (rw (e, small, encode)))
      | inr large ↦ inr (inr (ground arith, rw (e, large, encode)))
    ]
  ]

  encode_reaches :
      (texts.is_null || out.is_null) ≡ false
      → n * model.dimension < size_limit
      → n * model.dimension ≤ out_capacity
      → result ≡ encode_tokenized fl model n out.target (tokenize tokenizer texts.target)
  unfolding encode
  encode_reaches nulls bound room =
      let exact = mod-eq_of_lt bound in
      let fits : ltb out_capacity (n * model.dimension) ≡ false = ground arith in
      rw (nulls, and_false (not (n == 0)), exact, fits, encode)

  -- `encode` returns, whatever it is given and whatever the session does.
  pub encode_total : (r : Status × Memory F) × (result ≡ some r)
  encode_total = elim encode_cases [
    | inl e ↦ (_, e)
    | inr (inl e) ↦ (_, e)
    | inr (inr (room, e)) ↦
        subst (λ r. (p : Status × Memory F) × (r ≡ some p)) (sym e)
          (tokenized_total fl model n out.target (tokenize tokenizer texts.target))
  ]

  -- Where `n * dimension` is below 2 ^ 64, the call, whatever its outcome, writes none of the caller's
  -- memory behind its capacity.
  pub encode_frame :
      (s : Status) (out' : Memory F) (j : ℕ)
      → n * model.dimension < size_limit
      → out_capacity ≤ j
      → result ≡ some (s, out')
      → out' j ≡ out.target j
  encode_frame s out' j bound h e = elim encode_cases [
    | inl e' ↦ same_memory out.target out' j (sym e' ∙ e)
    | inr (inl e') ↦ same_memory out.target out' j (sym e' ∙ e)
    | inr (inr (room, e')) ↦
        tokenized_frame fl model n out.target (tokenize tokenizer texts.target) s out' j
          (omega (arith, mod-eq_of_lt bound)) (sym e' ∙ e)
  ]

  -- Where every text has its ids and the session answers every call, a call with no null pointer,
  -- with `n * dimension` below 2 ^ 64 and with room for that many floats succeeds.
  pub encode_success :
      (l : List (List ℕ))
      → (texts.is_null || out.is_null) ≡ false
      → n * model.dimension < size_limit
      → n * model.dimension ≤ out_capacity
      → tokenize tokenizer texts.target ≡ all l
      → Answers model
      → (out' : Memory F) × (result ≡ some (success, out'))
  unfolding encode_tokenized
  encode_success l nulls bound room tokenized answers =
      let (out', e) =
        encode_batches-success fl model (λ i. get_or l i []) n
          (stable_sort (λ i. length (get_or l i [])) (range 0 n)) out.target answers
          (omega (arith, length-stable_sort (λ i. length (get_or l i [])) n)) in
      (
        out',
        encode_reaches nulls bound room ∙ ap (encode_tokenized fl model n out.target) tokenized ∙ e,
      )

  -- Where the inference gives each row the states of its marked ids alone, `n` is the number of texts,
  -- and, for the pooling that reads the first state, the tokenizer gives every text it accepts an id:
  -- a call that succeeds leaves, for every text and element, the element of the vector of that text's
  -- ids. Batching, padding and the sort by length leave no trace.
  pub encode_vectors :
      (state : States F)
      → IsRowwise fl model state
      → length texts.target ≡ n
      → ((text : Text) (ts : List ℕ) → Encodes tokenizer text ts → HasFirst model.pooling ts)
      → (s : Status) (out' : Memory F) → result ≡ some (s, out')
      → is_ok s ≡ true
      → (i d : ℕ) (ts : List ℕ) → i < n
      → d < model.dimension
      → Encodes tokenizer (get_or texts.target i []) ts
      → out' (i * model.dimension + d) ≡ text_vector fl model state ts d
  unfolding encode_tokenized
  encode_vectors state law size first s out' e ok i d ts hi hd tokenized = elim encode_cases [
    | inl e' ↦ absurd (not_ok (sym e ∙ e') refl ok)
    | inr (inl e') ↦ absurd (not_ok (sym e ∙ e') refl ok)
    | inr (inr (room, e')) ↦ elim (Tokenized-cases (tokenize tokenizer texts.target)) [
      | inl (l, tok) ↦
          let loop = ap (encode_tokenized fl model n out.target) (sym tok) ∙ sym e' ∙ e in
          let made = tokenize_all tokenizer texts.target l i tok (omega arith) in
          loop_vectors fl model n out.target state law l
            (λ k hk.
              first (get_or texts.target k []) (get_or l k [])
                (tokenize_all tokenizer texts.target l k tok (omega arith)))
            s out' loop ok i d hi hd
          ∙ ap (λ x. text_vector fl model state x d) (sym made.1 ∙ tokenized.1)
      | inr (s', tok) ↦ absurd (
          not_ok (sym e ∙ e' ∙ ap (encode_tokenized fl model n out.target) tok)
            (tokenize_stopped tokenizer texts.target s' tok) ok)
    ]
  ]
