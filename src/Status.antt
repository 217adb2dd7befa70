-- ===== src/Status.antt =====
-- include/cyborgdb_embed/embed.hpp, `StatusCode` and `Status`.
use cyborgdb_embed.Prelude.{Text, [], Bool, true, false}

pub data StatusCode : Type 0 where
  ok : StatusCode
  invalid_argument download_failed digest_mismatch not_cached model_load_failed : StatusCode
  provider_unavailable tokenizer_failed inference_failed output_too_small : StatusCode
  precision_unavailable : StatusCode

pub record Status : Type 0 where
  pub code : StatusCode
  pub message : Text

abbrev pub is_ok_code : StatusCode → Bool
is_ok_code ok = true
is_ok_code _ = false

-- `Status::ok` and `operator bool`.
abbrev pub is_ok : Status → Bool
is_ok s = is_ok_code s.code

-- How a call ends: with the status that it returns, or with an exception that leaves it.
pub data Ending : Type 0 where
  ends : Status → Ending
  throws : Ending

-- The call returns a success.
abbrev pub ended_well : Ending → Bool
ended_well (ends s) = is_ok s
ended_well throws = false

-- `return {};`
abbrev pub success : Status
success = record { code = ok; message = [] }
