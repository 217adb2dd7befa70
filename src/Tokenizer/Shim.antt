-- ===== src/Tokenizer/Shim.antt =====
-- tokenizer/src/lib.rs: the C interface over the HuggingFace tokenizers library, which is a parameter.
-- A null pointer is `none`; the pointers that the callers never pass as null are values.
use cyborgdb_embed.Prelude.{
  ℤ, pos, negsuc, ℕ, Bool, true, false, ◌&&◌, ◌||◌, List, [], ◌∷◌, Option, none, some, ltb, leb,
  ◌==◌, if◌then◌else◌, Text, length, get_or, Memory, each,
}

-- `Tokenizer` of the crate with what the shim calls: `from_bytes`, `with_truncation` to a length,
-- `with_padding` of none, and `encode` with special tokens.
pub record Library : Type 1 where
  pub Tokenizer : Type 0
  pub from_bytes : List ℕ → Option Tokenizer
  pub with_truncation : ℕ → Tokenizer → Option Tokenizer
  pub without_padding : Tokenizer → Tokenizer
  pub encode : Tokenizer → Text → Option (List ℕ)

-- A byte between two others, the first and last included.
abbrev pub between : ℕ → ℕ → ℕ → Bool
between low high b = leb low b && leb b high

abbrev pub is_tail : ℕ → Bool
is_tail b = between 0x80 0xbf b

-- The sequences of UTF-8 that start with a byte, by their length.
abbrev pub two_bytes : ℕ → ℕ → Bool
two_bytes a b = between 0xc2 0xdf a && is_tail b

abbrev pub three_bytes : ℕ → ℕ → ℕ → Bool
three_bytes a b c =
    is_tail c
    && ((a == 0xe0 && between 0xa0 0xbf b)
        || ((between 0xe1 0xec a && is_tail b)
            || ((a == 0xed && between 0x80 0x9f b) || (between 0xee 0xef a && is_tail b))))

abbrev pub four_bytes : ℕ → ℕ → ℕ → ℕ → Bool
four_bytes a b c d =
    is_tail c
    && (is_tail d
        && ((a == 0xf0 && between 0x90 0xbf b)
            || ((between 0xf1 0xf3 a && is_tail b) || (a == 0xf4 && between 0x80 0x8f b))))

-- `CStr::to_str` succeeds on these bytes.
unfoldable pub is_utf8 : Text → Bool
is_utf8 [] = true
is_utf8 (a ∷ []) = ltb a 0x80
is_utf8 (a ∷ b ∷ []) = elim (ltb a 0x80) [ true ↦ is_utf8 (b ∷ []) | false ↦ two_bytes a b ]
is_utf8 (a ∷ b ∷ c ∷ []) = elim (ltb a 0x80) [
  | true ↦ is_utf8 (b ∷ c ∷ [])
  | false ↦ elim (two_bytes a b) [ true ↦ is_utf8 (c ∷ []) | false ↦ three_bytes a b c ]
]
is_utf8 (a ∷ b ∷ c ∷ d ∷ s) = elim (ltb a 0x80) [
  | true ↦ is_utf8 (b ∷ c ∷ d ∷ s)
  | false ↦ elim (two_bytes a b) [
    | true ↦ is_utf8 (c ∷ d ∷ s)
    | false ↦ elim (three_bytes a b c) [
      | true ↦ is_utf8 (d ∷ s)
      | false ↦ elim (four_bytes a b c d) [ true ↦ is_utf8 s | false ↦ false ]
    ]
  ]
]

-- What a call of `cyborgdb_tokenizer_encode` returns and leaves behind `ids` and `written`.
pub record EncodeResult : Type 0 where
  pub code : ℤ
  pub ids : Memory ℕ
  pub written : ℕ

-- The copy of the ids, where they fit.
unfoldable pub write_ids : List ℕ → Memory ℕ → ℕ → EncodeResult
write_ids source ids capacity =
    if ltb capacity (length source)
    then record { code = pos 1; ids = ids; written = length source }
    else record {
      code = pos 0;
      ids = each (length source) 0 0 (λ k _. get_or source k 0) ids;
      written = length source;
    }

module _ (lib : Library) where
  pub record Handle : Type 0 where
    pub tokenizer : lib.Tokenizer

  -- `cyborgdb_tokenizer_new`.
  unfoldable pub tokenizer_new : Option (List ℕ) → ℕ → Option Handle
  tokenizer_new none max_length = none
  tokenizer_new (some json) max_length =
      if max_length == 0 then none else elim (lib.from_bytes json) [
        | none ↦ none
        | some tokenizer ↦ elim (lib.with_truncation max_length tokenizer) [
          | none ↦ none
          | some truncated ↦ some (record { tokenizer = lib.without_padding truncated })
        ]
      ]

  -- `cyborgdb_tokenizer_encode`.
  unfoldable pub tokenizer_encode : Option Handle → Option Text → Memory ℕ → ℕ → ℕ → EncodeResult
  unfolding is_utf8 write_ids
  tokenizer_encode none text ids capacity written = record {
    code = negsuc 0;
    ids = ids;
    written = written;
  }
  tokenizer_encode (some handle) none ids capacity written = record {
    code = negsuc 0;
    ids = ids;
    written = written;
  }
  tokenizer_encode (some handle) (some text) ids capacity written =
      if is_utf8 text
      then elim (lib.encode handle.tokenizer text) [
        | none ↦ record { code = negsuc 0; ids = ids; written = written }
        | some source ↦ write_ids source ids capacity
      ]
      else record { code = negsuc 0; ids = ids; written = written }
