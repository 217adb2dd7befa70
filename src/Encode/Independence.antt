-- ===== src/Encode/Independence.antt =====
-- src/session_ort.cpp, `OrtSession::encode`: a text's vector and the texts that share its call.
use cyborgdb_embed.Prelude.{
  ℕ, ◌+◌, ◌*◌, ◌<◌, ◌≡◌, refl, sym, ◌∙◌, true, false, some, List, [], ◌∷◌, Text, length, get_or,
  Memory, arith,
}
use cyborgdb_embed.Status.{Status, is_ok}
use cyborgdb_embed.Float.{Float}
use cyborgdb_embed.Encode.{Model, Tokens, Pointer, encode}
use cyborgdb_embed.Encode.Tokenising.{Encodes}
use cyborgdb_embed.Encode.Reference.{States, HasFirst, IsRowwise}
use cyborgdb_embed.Encode.Calls.{encode_vectors}

-- A text's vector does not depend on the texts that it is embedded with. Where the inference gives
-- each row the states of its marked ids alone, `n` is the number of texts, the tokenizer accepts the
-- text, and gives an id where the pooling reads the first state: its row after a call of `n` texts that
-- succeeds is the row that a call of that text alone, if it succeeds, writes.
pub encode_alone :
    (fl : Float) (model : Model fl.F) (tokenizer : Text → Tokens) (state : States fl.F)
    → IsRowwise fl model state
    → ((text : Text) (ts : List ℕ) → Encodes tokenizer text ts → HasFirst model.pooling ts)
    → (texts : Pointer (List Text)) (n i d : ℕ) (out alone : Pointer (Memory fl.F))
      (out_capacity capacity : ℕ) (s t : Status) (out' alone' : Memory fl.F)
    → length texts.target ≡ n
    → i < n
    → d < model.dimension
    → is_ok (tokenizer (get_or texts.target i [])).0 ≡ true
    → encode fl model tokenizer texts n out out_capacity ≡ some (s, out')
    → is_ok s ≡ true
    → encode fl model tokenizer
        (record { is_null = false; target = get_or texts.target i [] ∷ [] })
        1
        alone
        capacity
      ≡ some (t, alone')
    → is_ok t ≡ true
    → out' (i * model.dimension + d) ≡ alone' d
encode_alone fl model tokenizer state law first texts n i d out alone out_capacity capacity s t out'
      alone' size hi hd tokenized e ok e₁ ok₁ =
    let text = get_or texts.target i [] in
    let ts = (tokenizer text).1 in
    let zeroth : 0 * model.dimension + d ≡ d = omega arith in
    let single : Pointer (List Text) = record { is_null = false; target = text ∷ [] } in
    encode_vectors fl model tokenizer texts n out out_capacity state law size first s out' e ok i d
      ts hi hd (tokenized, refl)
    ∙ sym (
        rw zeroth at (
          encode_vectors fl model tokenizer single 1 alone capacity state law refl first t alone' e₁
            ok₁ 0 d ts (omega arith) hd (tokenized, refl)))
