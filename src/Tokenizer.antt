-- ===== src/Tokenizer.antt =====
-- src/tokenizer.cpp: `Tokenizer::load` and `Tokenizer::encode`, over the C interface of
-- tokenizer/src/lib.rs.
pub mod Shim
pub mod Ids
pub mod Boxes
mod Examples
use cyborgdb_embed.Prelude.{
  ℕ, zero, suc, List, [], ◌∷◌, ◌++◌, Option, none, some, ◌==◌, if◌then◌else◌, Text, codes, Memory,
}
use cyborgdb_embed.Status.{Status, success, tokenizer_failed}
use cyborgdb_embed.Resolve.Download.{Disk}
use cyborgdb_embed.Prelude.{is_zero}
use cyborgdb_embed.Tokenizer.Shim.{Library, Handle, EncodeResult, tokenizer_new, tokenizer_encode}

-- What a C function sees of `c_str()`.
unfoldable pub c_string : Text → Text
c_string [] = []
c_string (c ∷ s) = if c == 0 then [] else c ∷ c_string s

-- `ids.resize(written)`: the numbers from an offset on.
unfoldable pub read : Memory ℕ → ℕ → ℕ → List ℕ
read ids zero t = []
read ids (suc n) t = ids t ∷ read ids n (suc t)

-- What `encode` makes of the call's result.
unfoldable pub finish_encode : EncodeResult → Status × List ℕ
unfolding read
finish_encode r =
    if is_zero r.code
    then (success, read r.ids r.written 0)
    else (record { code = tokenizer_failed; message = codes "encoding failed" }, [])

module _ (lib : Library) where
  pub record Tokenizer : Type 0 where
    pub handle : Handle lib
    pub max_tokens : ℕ

  unfoldable pub load : Disk → Text → ℕ → Status × Option Tokenizer
  unfolding tokenizer_new
  load disk path max_tokens = elim (disk path) [
    | none ↦ (record { code = tokenizer_failed; message = codes "cannot read " ++ path }, none)
    | some json ↦ elim (tokenizer_new lib (some json) max_tokens) [
      | none ↦ (
        record { code = tokenizer_failed; message = path ++ codes " is not a valid tokenizer" },
        none,
      )
      | some handle ↦ (success, some (record { handle = handle; max_tokens = max_tokens }))
    ]
  ]

  -- `Tokenizer::encode` of a text with a prefix; the buffer starts with zeros.
  unfoldable pub encode_text : Tokenizer → Text → Text → Status × List ℕ
  unfolding c_string finish_encode tokenizer_encode
  encode_text tokenizer prefix text = finish_encode (
      tokenizer_encode lib (some tokenizer.handle) (some (c_string (prefix ++ text))) (λ _. 0)
        tokenizer.max_tokens 0)
