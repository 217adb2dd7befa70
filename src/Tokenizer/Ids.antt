-- ===== src/Tokenizer/Ids.antt =====
-- src/tokenizer.cpp, `Tokenizer::encode`, down to the library behind the C interface.
use mathlib.Core.List.{append_assoc}
use cyborgdb_embed.Prelude.{
  ℕ, suc, ◌+◌, ◌≤◌, ◌<◌, ◌≡◌, refl, sym, ap, ◌∙◌, ◌⊎◌, inl, inr, true, false, List, [], ◌∷◌, ◌++◌,
  none, some, ltb, ltb→lt, ◌==◌, if◌then◌else◌, Bool-cases, Option-cases, Text, length, get_or,
  Memory, each, each_inside, arith,
}
use cyborgdb_embed.Status.{Status, success, tokenizer_failed}
use cyborgdb_embed.Tokenizer.Shim.{Library, is_utf8, write_ids, tokenizer_encode}
use cyborgdb_embed.Tokenizer.{c_string, read, Tokenizer, finish_encode, encode_text}

read_lem :
    (m : Memory ℕ) (xs : List ℕ) (t : ℕ)
    → ((k : ℕ) → k < length xs → m (t + k) ≡ get_or xs k 0)
    → read m (length xs) t ≡ xs
unfolding read
read_lem m [] t h = refl
read_lem m (x ∷ xs) t h =
    let head : m t ≡ x = ap m (omega arith) ∙ h 0 (omega arith) in
    let rest : read m (length xs) (suc t) ≡ xs =
      read_lem m xs (suc t) (λ k lt. ap m (omega arith) ∙ h (suc k) (omega arith)) in
    rw (head, rest)

copied :
    (xs : List ℕ) (m : Memory ℕ)
    → read (each (length xs) 0 0 (λ k _. get_or xs k 0) m) (length xs) 0 ≡ xs
copied xs m =
    read_lem (each (length xs) 0 0 (λ k _. get_or xs k 0) m) xs 0
      (λ k lt. each_inside (length xs) 0 0 (λ j _. get_or xs j 0) m k (omega arith) (omega arith))

-- Where the ids fit they are the result, and else there is an error.
written_lem :
    (source : List ℕ) (m : Memory ℕ) (capacity : ℕ)
    → (length source ≤ capacity) × (finish_encode (write_ids source m capacity) ≡ (success, source))
      ⊎ (capacity < length source)
        × ((finish_encode (write_ids source m capacity)).0.code ≡ tokenizer_failed)
unfolding finish_encode write_ids
written_lem source m capacity = elim (Bool-cases (ltb capacity (length source))) [
  | inl long ↦ inr (ltb→lt capacity (length source) long, rw long)
  | inr fits ↦ inl (ground arith, rw fits (ap (λ ids. (success, ids)) (copied source m)))
]

module _ (lib : Library) (tokenizer : Tokenizer lib) (prefix text : Text) where
  abbrev input : Text
  input = c_string (prefix ++ text)

  encode_invalid :
      is_utf8 input ≡ false → (encode_text lib tokenizer prefix text).0.code ≡ tokenizer_failed
  unfolding encode_text
  encode_invalid bad = rw (encode_text, tokenizer_encode, bad)

  encode_refused :
      is_utf8 input ≡ true
      → lib.encode tokenizer.handle.tokenizer input ≡ none
      → (encode_text lib tokenizer prefix text).0.code ≡ tokenizer_failed
  unfolding encode_text
  encode_refused good refused = rw (encode_text, tokenizer_encode, good, refused)

  encode_written :
      (source : List ℕ)
      → is_utf8 input ≡ true
      → lib.encode tokenizer.handle.tokenizer input ≡ some source
      → encode_text lib tokenizer prefix text
        ≡ finish_encode (write_ids source (λ _. 0) tokenizer.max_tokens)
  unfolding encode_text
  encode_written source good made = rw (encode_text, tokenizer_encode, good, made)

  pub encode_text_ids :
      (source : List ℕ)
      → is_utf8 input ≡ true
      → lib.encode tokenizer.handle.tokenizer input ≡ some source
      → length source ≤ tokenizer.max_tokens
      → encode_text lib tokenizer prefix text ≡ (success, source)
  encode_text_ids source good made fits = elim (written_lem source (λ _. 0) tokenizer.max_tokens) [
    | inl (_, e) ↦ encode_written source good made ∙ e
    | inr (long, _) ↦ absurd (omega (arith, fits, long))
  ]

  -- The prefix and the text, joined and cut at the first NUL, go to the library. If they are UTF-8, the
  -- library encodes them and the ids are no more than the tokenizer was loaded for, the call succeeds
  -- with exactly these ids; in each other case it is a tokenizer failure.
  pub encode_text_lem :
      ((ids : List ℕ) × (is_utf8 input ≡ true)
        × (lib.encode tokenizer.handle.tokenizer input ≡ some ids)
        × (length ids ≤ tokenizer.max_tokens)
        × (encode_text lib tokenizer prefix text ≡ (success, ids)))
      ⊎ ((is_utf8 input ≡ false)
          ⊎ (lib.encode tokenizer.handle.tokenizer input ≡ none)
          ⊎ ((ids : List ℕ) × (lib.encode tokenizer.handle.tokenizer input ≡ some ids)
              × (tokenizer.max_tokens < length ids)))
        × ((encode_text lib tokenizer prefix text).0.code ≡ tokenizer_failed)
  encode_text_lem = elim (Bool-cases (is_utf8 input)) [
    | inr bad ↦ inr (inl bad, encode_invalid bad)
    | inl good ↦ elim (Option-cases (lib.encode tokenizer.handle.tokenizer input)) [
      | inl refused ↦ inr (inr (inl refused), encode_refused good refused)
      | inr (source, made) ↦ elim (written_lem source (λ _. 0) tokenizer.max_tokens) [
        | inl (fits, e) ↦ inl (source, good, made, fits, encode_written source good made ∙ e)
        | inr (long, e) ↦ inr (
          inr (inr (source, made, long)),
          ap (λ (r : Status × List ℕ). r.0.code) (encode_written source good made) ∙ e,
        )
      ]
    ]
  ]

-- A text ends at its first NUL.
cut : (s rest : Text) → c_string (s ++ (0 ∷ rest)) ≡ c_string s
unfolding c_string
cut [] rest = refl
cut (c ∷ s) rest = ap (λ t. if c == 0 then [] else c ∷ t) (cut s rest)

-- A text with a NUL in it gets the ids of what stands before the NUL, and no error for the rest.
pub encode_text_nul :
    (lib : Library) (tokenizer : Tokenizer lib) (prefix text rest : Text)
    → encode_text lib tokenizer prefix (text ++ (0 ∷ rest)) ≡ encode_text lib tokenizer prefix text
unfolding encode_text
encode_text_nul lib tokenizer prefix text rest =
    ap
      (λ input.
        finish_encode (
          tokenizer_encode lib (some tokenizer.handle) (some input) (λ _. 0) tokenizer.max_tokens
            0))
      (ap c_string (sym (append_assoc prefix text (0 ∷ rest))) ∙ cut (prefix ++ text) rest)
