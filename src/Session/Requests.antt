-- ===== src/Session/Requests.antt =====
-- src/session_ort.cpp, `OrtSession::encode`: what each run of a session asks of its graph.
use cyborgdb_embed.Prelude.{
  ℕ, ◌*◌, ◌≡◌, refl, sym, ap, subst, ◌∙◌, inl, inr, Bool, true, false, ◌||◌, List, [], ◌∷◌, Option,
  none, some, if◌then◌else◌, Bool-cases, Text, Memory, text_eq, All, length, map,
}
use cyborgdb_embed.Status.{Status, success}
use cyborgdb_embed.Float.{Float}
use cyborgdb_embed.Registry.{RegistryEntry, Provider, Precision}
use cyborgdb_embed.Registry.Lookup.{is_empty}
use cyborgdb_embed.Onnx.{int64_type}
use cyborgdb_embed.Tokenizer.Shim.{Library}
use cyborgdb_embed.Tokenizer.{Tokenizer}
use cyborgdb_embed.Encode.{infer, pad}
use cyborgdb_embed.Embedder.{session_model}
use cyborgdb_embed.Session.{Graph, choose_output, has_input, Session, graph_session, run_graph}
use cyborgdb_embed.Session.Outputs.{has_name, hidden_name, token_name, choose_output_lem}
use cyborgdb_embed.Session.Tensors.{Tensor, RunRequest, run_request, batch_tensor, token_type_name}

true-false : true ≡ false → ⊥
true-false e = cc

or_true : (b : Bool) → (b || true) ≡ true
or_true true = refl
or_true false = refl

has_input_lem :
    (needs : Bool) (names : List Text)
    → has_input needs names ≡ (needs || has_name token_type_name names)
unfolding has_input
has_input_lem true [] = refl
has_input_lem false [] = refl
has_input_lem needs (name ∷ names) = elim (Bool-cases (text_eq name token_type_name)) [
  | inl hit ↦ rw hit (has_input_lem true names ∙ sym (or_true needs))
  | inr miss ↦ rw miss (has_input_lem needs names)
]

-- An output that was chosen is one of the graph's.
chosen_is_output :
    (names : List Text)
    → is_empty (choose_output [] names) ≡ false
    → has_name (choose_output [] names) names ≡ true
unfolding is_empty
chosen_is_output names found = elim (Bool-cases (has_name hidden_name names)) [
  | inl has ↦ subst (λ x. has_name x names ≡ true) (sym (choose_output_lem names ∙ rw has refl)) has
  | inr lacks ↦ elim (Bool-cases (has_name token_name names)) [
    | inl has ↦
        subst (λ x. has_name x names ≡ true) (sym (choose_output_lem names ∙ rw (lacks, has) refl))
          has
    | inr neither ↦
        let none_chosen : choose_output [] names ≡ [] =
          choose_output_lem names ∙ rw (lacks, neither) refl in
        absurd (true-false (sym (ap is_empty none_chosen) ∙ found))
  ]
]

-- A tensor of the batch: 64-bit integers, as many as its shape has places.
abbrev pub IsBatchTensor : ℕ → ℕ → Tensor → Type 0
IsBatchTensor rows width t =
    (t.element ≡ int64_type) × (t.shape ≡ rows ∷ width ∷ []) × (t.count ≡ rows * width)

-- What a request of a graph asks.
pub record Fits {F : Type 0} (g : Graph F) (rows width : ℕ) (request : RunRequest) : Type 0 where
  pub one_each : length request.names ≡ length request.inputs
  pub tensors : All (IsBatchTensor rows width) request.inputs
  pub token_types : has_name token_type_name request.names ≡ has_name token_type_name g.inputs
  pub output : (o : Text) × (request.outputs ≡ o ∷ []) × (has_name o g.outputs ≡ true)

request-Fits :
    {F : Type 0} (g : Graph F) (o : Text) (rows width : ℕ) (ids mask types : Memory ℕ)
    → has_name o g.outputs ≡ true
    → Fits g rows width
        (run_request o rows width ids mask (if has_input false g.inputs then some types else none))
unfolding run_request batch_tensor
request-Fits g o rows width ids mask types is_output =
    elim (Bool-cases (has_name token_type_name g.inputs)) [
      | inl asks ↦
          rw (has_input_lem false g.inputs, asks)
            (record {
              one_each = refl;
              tensors = ((refl, refl, refl), ((refl, refl, refl), ((refl, refl, refl), tt)));
              token_types = sym asks;
              output = (o, refl, is_output);
            })
      | inr lacks ↦
          rw (has_input_lem false g.inputs, lacks)
            (record {
              one_each = refl;
              tensors = ((refl, refl, refl), ((refl, refl, refl), tt));
              token_types = sym lacks;
              output = (o, refl, is_output);
            })
    ]

no_session : {A : Type 0} {a : A} → ◌≡◌ {A = Option A} none (some a) → ⊥
no_session e = cc

same_session : {A : Type 0} {a b : A} → ◌≡◌ {A = Option A} (some a) (some b) → a ≡ b
same_session e = cc

module _ (fl : Float) (lib : Library) where
  -- Every run of a session that was made from a graph is a run of that graph, on a request with as
  -- many names as tensors: each tensor has 64-bit integers, the shape of the batch and as many elements
  -- as the shape has places; `token_type_ids` is among the names exactly if it is among the graph's
  -- inputs; and the one output asked for is an output of the graph.
  pub requests_fit :
      (entry : RegistryEntry) (provider : Provider) (precision : Precision)
      (tokenizer : Tokenizer lib) (g : Graph fl.F) (s : Session fl lib)
      → graph_session fl lib entry provider precision tokenizer (inr g) ≡ (success, some s)
      → (tokens : ℕ → List ℕ) (batch : List ℕ) (width : ℕ)
      → (request : RunRequest) × (infer fl (session_model fl lib s) tokens batch width
          ≡ g.run request)
        × Fits g (length batch) width request
  unfolding graph_session infer run_graph
  requests_fit entry provider precision tokenizer g s made tokens batch width =
      elim (Bool-cases (is_empty (choose_output [] g.outputs))) [
        | inl nothing ↦
            absurd
              (no_session (ap (λ (r : Status × Option (Session fl lib)). r.1) (rw nothing at made)))
        | inr found ↦
            let o = choose_output [] g.outputs in
            let mine : Session fl lib = record {
              entry = entry;
              provider = provider;
              precision = precision;
              tokenizer = tokenizer;
              needs_token_type_ids = has_input false g.inputs;
              run = run_graph g o;
            } in
            let is : mine ≡ s =
              same_session
                (ap (λ (r : Status × Option (Session fl lib)). r.1) (rw found at made)) in
            let encoded = map tokens batch in
            let ids = pad (λ id. id) width encoded 0 (λ _. 0) in
            let mask = pad (λ _. 1) width encoded 0 (λ _. 0) in
            let request =
              run_request o (length batch) width ids mask
                (if has_input false g.inputs then some (λ _. 0) else none) in
            (
              request,
              ap (λ x. infer fl (session_model fl lib x) tokens batch width) (sym is),
              request-Fits g o (length batch) width ids mask (λ _. 0)
                  (chosen_is_output g.outputs found),
            )
      ]
