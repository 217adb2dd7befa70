-- ===== src/Fixtures.antt =====
-- Concrete instances of what src/ does not hold, for the examples: an arithmetic, a tokenizer
-- library, a digest, a network, a file system and an ONNX Runtime.
use cyborgdb_embed.Prelude.{
  ◌≡◌, sym, ap, ◌∙◌, get_or, Memory, arith, false, ℕ, ◌+◌, ◌*◌, ◌/◌, inr, true, false, List, [],
  ◌∷◌, ◌++◌, some, none, ltb, leb, ◌==◌, codes, length, take,
}
use cyborgdb_embed.Float.{Float}
use cyborgdb_embed.Resolve.Download.{couldnt_resolve_host, System}
use cyborgdb_embed.Resolve.Digest.{Digest}
use cyborgdb_embed.Resolve.Install.{Files}
use cyborgdb_embed.Resolve.Resolver.{Resolver, resolver}
use cyborgdb_embed.Onnx.{ort_api_version}
use cyborgdb_embed.Tokenizer.Shim.{Library}
use cyborgdb_embed.Encode.{Inference, hidden, Model}
use cyborgdb_embed.Encode.Reference.{States, IsRowwise}
use cyborgdb_embed.Pooling.{mean_tokens}
use cyborgdb_embed.Session.{OnnxRuntime}
use cyborgdb_embed.Session.Tensors.{Tensor}
use cyborgdb_embed.Session.Loader.{Loader, loader}

abbrev pub numbers : Float
numbers = record {
  F = ℕ;
  zero = 0;
  one = 1;
  neg_inf = 0;
  tiny = 0;
  add = λ a b. a + b;
  mul = λ a b. a * b;
  div = λ a b. a / b;
  sqrt = λ a. a;
  ltb = ltb;
  leb = leb;
}

-- The inference that gives the ids for states.
abbrev pub ids_model : Model ℕ
ids_model = record {
  dimension = 1;
  pooling = mean_tokens;
  normalize = false;
  needs_token_type_ids = false;
  run = λ rows width input_ids mask types. hidden input_ids;
}

abbrev pub id_state : States ℕ
id_state ts t d = get_or ts t 0

hidden_injective : {m n : Memory ℕ} → ◌≡◌ {A = Inference ℕ} (hidden m) (hidden n) → m ≡ n
hidden_injective e = cc

pub ids-IsRowwise : IsRowwise numbers ids_model id_state
ids-IsRowwise = record {
  rowwise = λ rows width input_ids mask types out e r ts lt le padded t d ht hd.
      let index : r * width * 1 + t * 1 + d ≡ r * width + t = omega arith in
      ap (λ (m : Memory ℕ). m (r * width * 1 + t * 1 + d)) (sym (hidden_injective e))
      ∙ ap input_ids index
      ∙ (padded t (omega arith)).0;
}

-- A tokenizer of the library is the length that it truncates to, and takes the bytes for ids.
abbrev pub bytes_library : Library
bytes_library = record {
  Tokenizer = ℕ;
  from_bytes = λ json. some (length json);
  with_truncation = λ max_length tokenizer. some max_length;
  without_padding = λ tokenizer. tokenizer;
  encode = λ tokenizer text. some (take tokenizer text);
}

abbrev pub bytes_digest : Digest
bytes_digest = record {
  Context = List ℕ;
  init = [];
  update = λ c bytes. c ++ bytes;
  final = λ c. c;
}

abbrev pub unreachable : System
unreachable = record {
  vars = λ _. none;
  is_regular_file = λ _. false;
  initialises = λ _. true;
  is_writable = λ _. true;
  perform = λ n url ca header. record {
    code = couldnt_resolve_host;
    http = 0;
    retry_after = 0;
    detail = codes "no such host";
    body = [];
  };
  keeps = λ _ _. false;
}

abbrev pub obliging : Files
obliging = record {
  create_error = λ _. none;
  rename_error = λ _ _. none;
  exists_error = λ _ _. false;
  read_stops = λ _. none;
  random = λ n. (n, 7);
}

abbrev pub offline_files : Resolver
offline_files = resolver bytes_digest unreachable obliging

-- A file system that no file can be looked for in.
abbrev pub denying : Files
denying = record {
  create_error = λ _. none;
  rename_error = λ _ _. none;
  exists_error = λ _ _. true;
  read_stops = λ _. none;
  random = λ n. (n, 7);
}

-- The buffer of the first tensor.
abbrev tensor_data : List Tensor → Memory ℕ
tensor_data [] = λ _. 0
tensor_data (t ∷ ts) = t.data_at

abbrev pub ids_runtime : OnnxRuntime ℕ
ids_runtime = record {
  base = some (record { get_api = λ version. version == ort_api_version; get_version_string = [] });
  make_env = λ options level name. none;
  open_graph = λ options path. inr (record {
    inputs = codes "input_ids" ∷ [];
    outputs = codes "last_hidden_state" ∷ [];
    run = λ request. hidden (tensor_data request.inputs);
  });
}

abbrev pub ids_loader : Loader numbers bytes_library
ids_loader = loader numbers bytes_library offline_files ids_runtime

abbrev pub denied_loader : Loader numbers bytes_library
denied_loader = loader numbers bytes_library (resolver bytes_digest unreachable denying) ids_runtime
