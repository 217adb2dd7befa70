-- ===== src/Encode/Tokenising.antt =====
-- src/session_ort.cpp, `OrtSession::encode`: the loop that tokenises the texts.
use cyborgdb_embed.Prelude.{
  ℕ, zero, suc, ◌<◌, ◌≡◌, refl, sym, ◌∙◌, ◌⊎◌, inl, inr, true, false, List, [], ◌∷◌, Bool-cases,
  Text, length, get_or, arith,
}
use cyborgdb_embed.Status.{Status, is_ok}
use cyborgdb_embed.Encode.{Tokens, Tokenized, all, stopped, tokenize}

-- The tokenizer makes these ids of the text.
abbrev pub Encodes : (Text → Tokens) → Text → List ℕ → Type 0
Encodes tokenizer text ts = (is_ok (tokenizer text).0 ≡ true) × ((tokenizer text).1 ≡ ts)

pub Tokenized-cases :
    (r : Tokenized) → ((l : List (List ℕ)) × (r ≡ all l)) ⊎ ((s : Status) × (r ≡ stopped s))
Tokenized-cases (all l) = inl (l, refl)
Tokenized-cases (stopped s) = inr (s, refl)

stopped_not_all : (s : Status) (l : List (List ℕ)) → stopped s ≡ all l → ⊥
stopped_not_all s l e = cc

stopped_status : (r s : Status) → stopped r ≡ stopped s → is_ok r ≡ false → is_ok s ≡ false
stopped_status r s e bad = let e' : r ≡ s = cc in rw (← e') bad

all_at :
    (tokenizer : Text → Tokens) (text : Text) (texts : List Text) (rest l : List (List ℕ)) (i : ℕ)
    → is_ok (tokenizer text).0 ≡ true
    → i < length (text ∷ texts)
    → all ((tokenizer text).1 ∷ rest) ≡ all l
    → ((k : ℕ) → k < length texts → Encodes tokenizer (get_or texts k []) (get_or rest k []))
    → Encodes tokenizer (get_or (text ∷ texts) i []) (get_or l i [])
all_at tokenizer text texts rest l zero head h e later =
    let e' : (tokenizer text).1 ∷ rest ≡ l = cc in rw (← e') (head, refl)
all_at tokenizer text texts rest l (suc i) head h e later =
    let e' : (tokenizer text).1 ∷ rest ≡ l = cc in rw (← e') (later i (omega arith))

-- Every text's ids are what the tokenizer made of it.
pub tokenize_all :
    (tokenizer : Text → Tokens) (texts : List Text) (l : List (List ℕ)) (i : ℕ)
    → tokenize tokenizer texts ≡ all l
    → i < length texts
    → Encodes tokenizer (get_or texts i []) (get_or l i [])
unfolding tokenize
tokenize_all tokenizer [] l i e h = absurd (omega arith)
tokenize_all tokenizer (text ∷ texts) l i e h = elim (Bool-cases (is_ok (tokenizer text).0)) [
  | inl head ↦ elim (Tokenized-cases (tokenize tokenizer texts)) [
    | inl (rest, tail) ↦
        all_at tokenizer text texts rest l i head h (rw (head, tail) at e)
          (λ k hk. tokenize_all tokenizer texts rest k tail hk)
    | inr (s, tail) ↦ absurd (stopped_not_all s l (rw (head, tail) at e))
  ]
  | inr head ↦ absurd (stopped_not_all (tokenizer text).0 l (rw head at e))
]

-- The loop stops only at a failure.
pub tokenize_stopped :
    (tokenizer : Text → Tokens) (texts : List Text) (s : Status)
    → tokenize tokenizer texts ≡ stopped s
    → is_ok s ≡ false
unfolding tokenize
tokenize_stopped tokenizer [] s e = cc
tokenize_stopped tokenizer (text ∷ texts) s e = elim (Bool-cases (is_ok (tokenizer text).0)) [
  | inl head ↦ elim (Tokenized-cases (tokenize tokenizer texts)) [
    | inl (rest, tail) ↦ absurd (stopped_not_all s _ (sym (rw (head, tail) at e)))
    | inr (s', tail) ↦ tokenize_stopped tokenizer texts s (tail ∙ (rw (head, tail) at e))
  ]
  | inr head ↦ stopped_status (tokenizer text).0 s (rw head at e) head
]
