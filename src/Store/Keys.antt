-- ===== src/Store/Keys.antt =====
-- src/session_store.hpp, `Key::operator<`, and the map that it orders.
use cyborgdb_embed.Prelude.{
  ◌≡◌, ◌≢◌, refl, subst, ◌⊎◌, ◌↔◌, inl, inr, Bool, true, false, List, [], ◌∷◌, none, some,
  if◌then◌else◌, Bool-cases, arith,
}
use cyborgdb_embed.Registry.{
  Provider, cpu, Precision, fp32, fp16, int8, rank, precision_rank, rank_injective,
}
use cyborgdb_embed.Store.{Key, Entry, key_lt, key_eq, find, insert, erase}

precision_rank_injective : (a b : Precision) → precision_rank a ≡ precision_rank b → a ≡ b
unfolding precision_rank
precision_rank_injective fp32 fp32 e = refl
precision_rank_injective fp16 fp16 e = refl
precision_rank_injective int8 int8 e = refl
precision_rank_injective fp32 fp16 e = absurd (omega arith)
precision_rank_injective fp32 int8 e = absurd (omega arith)
precision_rank_injective fp16 fp32 e = absurd (omega arith)
precision_rank_injective fp16 int8 e = absurd (omega arith)
precision_rank_injective int8 fp32 e = absurd (omega arith)
precision_rank_injective int8 fp16 e = absurd (omega arith)

provider_eq : (a b : Provider) → a ≡ b
provider_eq cpu cpu = refl

key_eq_ranks :
    (a b : Key)
    → key_eq a b ≡ true
    → (rank a.model ≡ rank b.model) × (precision_rank a.precision ≡ precision_rank b.precision)
unfolding key_eq
key_eq_ranks a b h = ground arith

key_eq_refl : (a : Key) → key_eq a a ≡ true
unfolding key_eq
key_eq_refl a = ground arith

-- Two keys are one key of the map exactly when they are equal.
pub key_eq_iff : (a b : Key) → (key_eq a b ≡ true) ↔ (a ≡ b)
key_eq_iff a b = (
  λ h.
      let (model, precision) = key_eq_ranks a b h in
      let models = rank_injective a.model b.model model in
      let providers = provider_eq a.provider b.provider in
      let precisions = precision_rank_injective a.precision b.precision precision in
      λ i. record { model = models i; provider = providers i; precision = precisions i },
  λ e. subst (λ c. key_eq a c ≡ true) e (key_eq_refl a),
)

neither : (a b : Key) → key_lt a b ≡ false → key_lt b a ≡ false → key_eq a b ≡ true
unfolding key_eq
neither a b p q = rw (p, q)

-- `operator<` is a strict order that tells any two different keys apart, as `std::map` requires.
pub key_lt_strict :
    (a b c : Key)
    → (key_lt a a ≡ false)
      × (key_lt a b ≡ true → key_lt b c ≡ true → key_lt a c ≡ true)
      × ((key_lt a b ≡ true) ⊎ (key_lt b a ≡ true) ⊎ (a ≡ b))
unfolding key_lt
key_lt_strict a b c = (
  ground arith,
  λ p q. ground arith,
  elim (Bool-cases (key_lt a b)) [
    | inl lt ↦ inl lt
    | inr ge ↦ elim (Bool-cases (key_lt b a)) [
      | inl gt ↦ inr (inl gt)
      | inr le ↦ inr (inr ((key_eq_iff a b).0 (neither a b ge le)))
    ]
  ],
)

true-false : {b : Bool} → b ≡ true → b ≡ false → ⊥
true-false p q = cc

pub key_cases : (k j : Key) → (k ≡ j) ⊎ (k ≢ j)
key_cases k j = elim (Bool-cases (key_eq k j)) [
  | inl e ↦ inl ((key_eq_iff k j).0 e)
  | inr e ↦ inr (λ same. true-false ((key_eq_iff k j).1 same) e)
]

module _ (k j : Key) where
  -- A lookup after `entries_[key] = entry`.
  pub find-insert :
      (e : Entry) (m : List (Key × Entry))
      → find j (insert k e m) ≡ (if key_eq k j then some e else find j m)
  unfolding find insert
  find-insert e [] = refl
  find-insert e ((i, f) ∷ m) =
      ground (arith, key_eq_iff i k, key_eq_iff i j, key_eq_iff k j, find-insert e m)

  pub find-erase :
      (m : List (Key × Entry)) → find j (erase k m) ≡ (if key_eq k j then none else find j m)
  unfolding find erase
  find-erase [] = ground arith
  find-erase ((i, f) ∷ m) =
      ground (arith, key_eq_iff i k, key_eq_iff i j, key_eq_iff k j, find-erase m)

  pub find-insert_ne :
      (e : Entry) (m : List (Key × Entry)) → k ≢ j → find j (insert k e m) ≡ find j m
  find-insert_ne e m ne = ground (arith, find-insert e m, key_eq_iff k j)

  pub find-erase_ne : (m : List (Key × Entry)) → k ≢ j → find j (erase k m) ≡ find j m
  find-erase_ne m ne = ground (arith, find-erase m, key_eq_iff k j)

pub find-insert_self :
    (k : Key) (e : Entry) (m : List (Key × Entry)) → find k (insert k e m) ≡ some e
find-insert_self k e m = ground (arith, find-insert k k e m, key_eq_iff k k)

pub find-erase_self : (k : Key) (m : List (Key × Entry)) → find k (erase k m) ≡ none
find-erase_self k m = ground (arith, find-erase k k m, key_eq_iff k k)
