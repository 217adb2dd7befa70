-- ===== src/Encode.antt =====
-- src/session_ort.cpp, `OrtSession::encode`. The tokenizer and the inference session are
-- parameters. `std::size_t` sums and products that the code tests are taken modulo 2 ^ 64; offsets
-- into buffers that were allocated are exact.
use mathlib.Core.List.{map}
pub mod Order
pub mod Padding
pub mod Reference
pub mod Rows
pub mod Scatter
pub mod Loop
pub mod Vectors
pub mod Tokenising
pub mod Calls
pub mod Independence
pub mod Batches
mod Examples
use cyborgdb_embed.Prelude.{
  ℕ, zero, suc, ◌+◌, ◌*◌, ◌%◌, ◌^◌, max, Bool, true, false, ◌&&◌, ◌||◌, not, List, [], ◌∷◌, ◌++◌,
  Option, none, some, ltb, ◌==◌, if◌then◌else◌, Text, codes, length, get_or, take, drop, range,
  Memory, write, each, decimal,
}
use cyborgdb_embed.Status.{
  Status, success, is_ok, invalid_argument, output_too_small, inference_failed,
}
use cyborgdb_embed.Float.{Float}
use cyborgdb_embed.Pooling.{Pooling, pool, l2_normalize}

abbrev pub size_limit : ℕ
size_limit = 2 ^ 64

abbrev pub max_batch_tokens : ℕ
max_batch_tokens = 8192

abbrev pub max_batch_rows : ℕ
max_batch_rows = 64

-- A stable insertion: behind the indices whose lists are at most as long.
insert_by : (ℕ → ℕ) → ℕ → List ℕ → List ℕ
insert_by size i [] = i ∷ []
insert_by size i (x ∷ xs) = if ltb (size i) (size x) then i ∷ x ∷ xs else x ∷ insert_by size i xs

insert_all : (ℕ → ℕ) → List ℕ → List ℕ → List ℕ
insert_all size [] sorted = sorted
insert_all size (i ∷ is) sorted = insert_all size is (insert_by size i sorted)

-- `std::stable_sort` of indices by the length of their token lists.
pub stable_sort : (ℕ → ℕ) → List ℕ → List ℕ
unfolding insert_by insert_all
stable_sort size order = insert_all size order []

pub record Batch : Type 0 where
  pub rows : ℕ
  pub width : ℕ

-- `while (start + rows < n && rows < kMaxBatchRows)`, over the sizes of order[start + rows], ….
pub grow : List ℕ → ℕ → ℕ → Batch
grow [] rows width = record { rows = rows; width = width }
grow (size ∷ sizes) rows width =
    let candidate = max width size in
    let wider = grow sizes (rows + 1) candidate in
    if ltb rows max_batch_rows
    then (if ltb 0 rows && ltb max_batch_tokens (((rows + 1) * candidate) % size_limit)
        then record { rows = rows; width = width }
        else wider)
    else record { rows = rows; width = width }

-- `for (t = 0; t < encoded[r].size(); ++t) … = …;` of one row, t = t₀ ….
pub write_row : (ℕ → ℕ) → ℕ → List ℕ → ℕ → Memory ℕ → Memory ℕ
write_row value base [] t m = m
write_row value base (id ∷ ids) t m =
    write_row value base ids (suc t) (write m (base + t) (value id))

-- `input_ids` (value: the id) and `mask` (value: 1), rows r ….
pub pad : (ℕ → ℕ) → ℕ → List (List ℕ) → ℕ → Memory ℕ → Memory ℕ
unfolding write_row
pad value width [] r m = m
pad value width (ids ∷ encoded) r m =
    pad value width encoded (suc r) (write_row value (r * width) ids 0 m)

-- `session_.Run`: the hidden states, or the exception's text.
pub data Inference (F : Type 0) : Type 0 where
  hidden : Memory F → Inference F
  threw : Text → Inference F

-- rows, width, input_ids, attention_mask and, where the graph asks for it, token_type_ids.
abbrev pub Run : Type 0 → Type 0
Run F = ℕ → ℕ → Memory ℕ → Memory ℕ → Option (Memory ℕ) → Inference F

-- The fields of the session and of its registry entry that `encode` reads.
pub record Model (F : Type 0) : Type 0 where
  pub dimension : ℕ
  pub pooling : Pooling
  pub normalize : Bool
  pub needs_token_type_ids : Bool
  pub run : Run F

-- `Tokenizer::encode` with the call's prefix: the status, and the ids.
abbrev pub Tokens : Type 0
Tokens = Status × List ℕ

pub data Tokenized : Type 0 where
  all : List (List ℕ) → Tokenized
  stopped : Status → Tokenized

abbrev pub cons_tokens : List ℕ → Tokenized → Tokenized
cons_tokens ts (all rest) = all (ts ∷ rest)
cons_tokens ts (stopped s) = stopped s

-- The first loop: stops at the first text that cannot be tokenised.
pub tokenize : (Text → Tokens) → List Text → Tokenized
tokenize tokenizer [] = all []
tokenize tokenizer (text ∷ texts) =
    let (status, ts) = tokenizer text in
    if is_ok status then cons_tokens ts (tokenize tokenizer texts) else stopped status

abbrev pub null_arguments : Status
null_arguments = record {
  code = invalid_argument;
  message = codes "texts and out must be non-null";
}

abbrev pub too_small : ℕ → ℕ → Status
too_small needed out_capacity = record {
  code = output_too_small;
  message = codes "need " ++ (decimal needed ++ (codes " floats, got " ++ decimal out_capacity));
}

-- A pointer argument, and what it points to where it is not null.
pub record Pointer {ℓ} (A : Type ℓ) : Type ℓ where
  pub is_null : Bool
  pub target : A

module _ (fl : Float) where
  open fl use {F}

  -- `std::copy_n(pooled.data() + r * dim, dim, out + order[start + r] * dim)` for the rows r ….
  pub scatter : ℕ → Memory F → List ℕ → ℕ → Memory F → Memory F
  scatter dim pooled [] r out = out
  scatter dim pooled (i ∷ batch) r out =
      scatter dim pooled batch (suc r) (each dim 0 (i * dim) (λ d _. pooled (r * dim + d)) out)

  -- `pooled`: the pooled rows, normalised where the model asks for it.
  pub batch_vectors : Model F → ℕ → ℕ → Memory ℕ → Memory F → Memory F
  batch_vectors model rows width mask states =
      let dim = model.dimension in
      let pooled = pool fl states mask rows width dim model.pooling (λ _. fl.zero) in
      if model.normalize then l2_normalize fl pooled rows dim else pooled

  -- What a round does with the hidden states.
  pub finish : Model F → List ℕ → ℕ → Memory ℕ → Memory F → Memory F → Memory F
  unfolding scatter batch_vectors
  finish model batch width mask states out =
      scatter model.dimension (batch_vectors model (length batch) width mask states) batch 0 out

  -- `session_.Run` on the padded batch.
  unfoldable pub infer : Model F → (ℕ → List ℕ) → List ℕ → ℕ → Inference F
  unfolding pad
  infer model tokens batch width =
      let encoded = map tokens batch in
      model.run (length batch) width (pad (λ id. id) width encoded 0 (λ _. 0))
        (pad (λ _. 1) width encoded 0 (λ _. 0))
        (if model.needs_token_type_ids then some (λ _. 0) else none)

  -- The loop over batches: `order` is order[start], …, and `none` is want of fuel.
  pub encode_batches : Model F → (ℕ → List ℕ) → ℕ → List ℕ → Memory F → Option (Status × Memory F)
  unfolding grow infer finish
  encode_batches model tokens fuel [] out = some (success, out)
  encode_batches model tokens zero (i ∷ order) out = none
  encode_batches model tokens (suc fuel) (i ∷ order) out =
      let rest = i ∷ order in
      let shape = grow (map (λ k. length (tokens k)) rest) 0 1 in
      let batch = take shape.rows rest in
      elim (infer model tokens batch shape.width) [
        | threw what ↦ some (record { code = inference_failed; message = what }, out)
        | hidden states ↦ encode_batches model tokens fuel (drop shape.rows rest) (
            finish model batch shape.width (pad (λ _. 1) shape.width (map tokens batch) 0 (λ _. 0))
              states out)
      ]

  -- What follows the tokenisation: the first failure, or the sort by length and the batches.
  pub encode_tokenized : Model F → ℕ → Memory F → Tokenized → Option (Status × Memory F)
  unfolding encode_batches stable_sort
  encode_tokenized model n out (stopped s) = some (s, out)
  encode_tokenized model n out (all tokens) =
      encode_batches model (λ i. get_or tokens i []) n
        (stable_sort (λ i. length (get_or tokens i [])) (range 0 n)) out

  -- `encode`: the null tests, the capacity test, and the rest. The array behind `texts` holds `n`
  -- texts.
  unfoldable pub encode :
      Model F
      → (Text → Tokens)
      → Pointer (List Text)
      → ℕ
      → Pointer (Memory F)
      → ℕ
      → Option (Status × Memory F)
  unfolding encode_tokenized tokenize
  encode model tokenizer texts n out out_capacity =
      let needed = (n * model.dimension) % size_limit in
      if not (n == 0) && (texts.is_null || out.is_null)
      then some (null_arguments, out.target)
      else if ltb out_capacity needed
      then some (too_small needed out_capacity, out.target)
      else encode_tokenized model n out.target (tokenize tokenizer texts.target)
