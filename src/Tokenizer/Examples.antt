-- ===== src/Tokenizer/Examples.antt =====
-- src/tokenizer.cpp with a library that takes the bytes for ids.
use cyborgdb_embed.Prelude.{
  ℕ, ◌≤◌, ◌<◌, ◌≡◌, refl, ◌⊎◌, true, false, List, ◌∷◌, ◌++◌, none, some, codes, length, take,
}
use cyborgdb_embed.Status.{success, tokenizer_failed}
use cyborgdb_embed.Fixtures.{bytes_library}
use cyborgdb_embed.Tokenizer.Shim.{is_utf8}
use cyborgdb_embed.Tokenizer.{Tokenizer, c_string, encode_text}
use cyborgdb_embed.Resolve.Download.{Disk}
use cyborgdb_embed.Tokenizer.{load}
use cyborgdb_embed.Tokenizer.Boxes.{load_object, boxed, StandsFor}
use cyborgdb_embed.Tokenizer.Boxes.Lifetime.{load-destroy}
use cyborgdb_embed.Tokenizer.Ids.{encode_text_lem, encode_text_nul}

abbrev four_tokens : Tokenizer bytes_library
four_tokens = record { handle = record { tokenizer = 4 }; max_tokens = 4 }

encode_text_lem_example :
    ((ids : List ℕ) × (is_utf8 (c_string (codes "q: " ++ codes "hello")) ≡ true)
      × (some (take 4 (c_string (codes "q: " ++ codes "hello"))) ≡ some ids)
      × (length ids ≤ 4)
      × (encode_text bytes_library four_tokens (codes "q: ") (codes "hello") ≡ (success, ids)))
    ⊎ ((is_utf8 (c_string (codes "q: " ++ codes "hello")) ≡ false)
        ⊎ (some (take 4 (c_string (codes "q: " ++ codes "hello"))) ≡ none)
        ⊎ ((ids : List ℕ) × (some (take 4 (c_string (codes "q: " ++ codes "hello"))) ≡ some ids)
            × (4 < length ids)))
      × ((encode_text bytes_library four_tokens (codes "q: ") (codes "hello")).0.code
          ≡ tokenizer_failed)
encode_text_lem_example = encode_text_lem bytes_library four_tokens (codes "q: ") (codes "hello")

encode_text_nul_example :
    encode_text bytes_library four_tokens (codes "q: ") (codes "a" ++ (0 ∷ codes "secret"))
    ≡ encode_text bytes_library four_tokens (codes "q: ") (codes "a")
encode_text_nul_example =
    encode_text_nul bytes_library four_tokens (codes "q: ") (codes "a") (codes "secret")

abbrev one_file : Disk
one_file path = some (codes "{}")

load-destroy_example :
    StandsFor bytes_library
      (record { boxes = λ _. none; next = 3 })
      (load bytes_library one_file (codes "tokenizer.json") 4)
      (load_object
        (boxed bytes_library)
        one_file
        (codes "tokenizer.json")
        4
        (record { boxes = λ _. none; next = 3 }))
load-destroy_example =
    load-destroy bytes_library one_file (codes "tokenizer.json") 4
      (record { boxes = λ _. none; next = 3 }) (λ a above. refl)
