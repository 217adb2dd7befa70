-- ===== src/Session/Outputs.antt =====
-- src/session_ort.cpp, `make_ort_session`: which output is pooled.
use cyborgdb_embed.Prelude.{
  ◌≡◌, refl, sym, ap, ◌∙◌, inl, inr, Bool, true, false, ◌||◌, List, [], ◌∷◌, if◌then◌else◌,
  Bool-cases, Text, codes, text_eq, text_eq→eq,
}
use cyborgdb_embed.Registry.Lookup.{is_empty}
use cyborgdb_embed.Session.{choose_output}

abbrev pub has_name : Text → List Text → Bool
has_name wanted [] = false
has_name wanted (name ∷ names) = text_eq name wanted || has_name wanted names

abbrev pub hidden_name : Text
hidden_name = codes "last_hidden_state"

abbrev pub token_name : Text
token_name = codes "token_embeddings"

-- What the loop has when it comes to the names that are left.
abbrev pub picked : Text → List Text → Text
picked hidden_output names =
    if has_name hidden_name names
    then hidden_name
    else if is_empty hidden_output
    then (if has_name token_name names then token_name else hidden_output)
    else hidden_output

if_same : {A : Type 0} (b : Bool) (a : A) → (if b then a else a) ≡ a
if_same true a = refl
if_same false a = refl

picked_hidden : (names : List Text) → picked hidden_name names ≡ hidden_name
unfolding is_empty
picked_hidden names = if_same (has_name hidden_name names) hidden_name

picked_token :
    (names : List Text)
    → picked token_name names ≡ (if has_name hidden_name names then hidden_name else token_name)
unfolding is_empty
picked_token names = refl

choose_from :
    (hidden_output : Text) (names : List Text)
    → choose_output hidden_output names ≡ picked hidden_output names
unfolding choose_output
choose_from hidden_output [] = sym (if_same (is_empty hidden_output) hidden_output)
choose_from hidden_output (name ∷ names) = elim (Bool-cases (text_eq name hidden_name)) [
  | inl hit ↦
      let e : name ≡ hidden_name = text_eq→eq name hidden_name hit in
      rw hit (choose_from name names ∙ ap (λ n. picked n names) e ∙ picked_hidden names)
  | inr miss ↦ elim (Bool-cases (text_eq name token_name)) [
    | inl hit ↦ elim (Bool-cases (is_empty hidden_output)) [
      | inl first ↦
          let e : name ≡ token_name = text_eq→eq name token_name hit in
          rw (miss, hit, first)
            (choose_from name names ∙ ap (λ n. picked n names) e ∙ picked_token names)
      | inr taken ↦ rw (miss, hit, taken) (choose_from hidden_output names ∙ rw taken refl)
    ]
    | inr other ↦ rw (miss, other) (choose_from hidden_output names)
  ]
]

-- The output that is pooled is `last_hidden_state` wherever it stands among the graph's outputs, or
-- else `token_embeddings` where the graph has that, or else none.
pub choose_output_lem :
    (names : List Text)
    → choose_output [] names ≡ (
        if has_name hidden_name names
        then hidden_name
        else if has_name token_name names
        then token_name
        else [])
unfolding is_empty
choose_output_lem names = choose_from [] names
