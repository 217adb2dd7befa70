-- ===== src/Registry/Lookup/Names.antt =====
-- src/embed.cpp, `find_model`: which names resolve, and to which model.
use cyborgdb_embed.Prelude.{
  ℕ, zero, suc, ◌<◌, not, get_or, ◌≡◌, refl, sym, ◌∙◌, ◌⊎◌, inl, inr, Bool, true, false, ◌&&◌, List,
  [], ◌∷◌, Option, none, some, Bool-cases, Option-cases, Text, length, arith,
}
use cyborgdb_embed.Status.{success, invalid_argument}
use cyborgdb_embed.Registry.{ModelId, RegistryEntry}
use cyborgdb_embed.Registry.Table.{registry}
use cyborgdb_embed.Registry.Lookup.{
  equal_lower, equals_ignoring_case, wanted_name, find_name, find_model,
}

equal_lower_lem :
    (a b c : Text)
    → equal_lower a b ≡ true
    → length a ≡ length b
    → equal_lower a c ≡ equal_lower b c
unfolding equal_lower
equal_lower_lem [] [] c h size = refl
equal_lower_lem [] (y ∷ b) c h size = absurd (omega arith)
equal_lower_lem (x ∷ a) [] c h size = absurd (omega arith)
equal_lower_lem (x ∷ a) (y ∷ b) [] h size = refl
equal_lower_lem (x ∷ a) (y ∷ b) (z ∷ c) h size = ground (arith, equal_lower_lem a b c)

-- Equal texts, case aside, are equal to the same texts.
pub equals_ignoring_case_congr :
    (a b c : Text)
    → equals_ignoring_case a b ≡ true
    → equals_ignoring_case a c ≡ equals_ignoring_case b c
unfolding equals_ignoring_case
equals_ignoring_case_congr a b c h =
    let same : length a ≡ length b = ground arith in ground (arith, same, equal_lower_lem a b c)

equal_lower_comm : (a b : Text) → length a ≡ length b → equal_lower a b ≡ equal_lower b a
unfolding equal_lower
equal_lower_comm [] [] size = refl
equal_lower_comm [] (y ∷ b) size = absurd (omega arith)
equal_lower_comm (x ∷ a) [] size = absurd (omega arith)
equal_lower_comm (x ∷ a) (y ∷ b) size = ground (arith, equal_lower_comm a b)

equals_ignoring_case_comm : (a b : Text) → equals_ignoring_case a b ≡ equals_ignoring_case b a
unfolding equals_ignoring_case
equals_ignoring_case_comm a b = ground (arith, equal_lower_comm a b)

-- No entry has this name, case aside.
abbrev free : Text → List RegistryEntry → Bool
free name [] = true
free name (entry ∷ entries) = not (equals_ignoring_case entry.info.name name) && free name entries

-- No two entries have the same name, case aside.
abbrev apart : List RegistryEntry → Bool
apart [] = true
apart (entry ∷ entries) = free entry.info.name entries && apart entries

registry_names_differ : apart registry ≡ true
unfolding registry equals_ignoring_case
registry_names_differ = refl

none_not_some : (a : ModelId) → ◌≡◌ {A = Option ModelId} none (some a) → ⊥
none_not_some a e = cc

some_id : (a b : ModelId) → ◌≡◌ {A = Option ModelId} (some a) (some b) → a ≡ b
some_id a b e = cc

-- Only the entry's own name resolves to it.
free_at :
    (name wanted : Text) (entries : List RegistryEntry) (i : ℕ) (first : RegistryEntry)
    → free name entries ≡ true
    → i < length entries
    → equals_ignoring_case (get_or entries i first).info.name wanted ≡ true
    → equals_ignoring_case name wanted ≡ false
free_at name wanted [] i first h lt e = absurd (omega arith)
free_at name wanted (entry ∷ entries) zero first h lt e = ground (
  arith,
  equals_ignoring_case_congr entry.info.name wanted name e,
  equals_ignoring_case_comm wanted name,
)
free_at name wanted (entry ∷ entries) (suc i) first h lt e =
    free_at name wanted entries i first (ground arith) (omega arith) e

find_name_at :
    (wanted : Text) (entries : List RegistryEntry) (i : ℕ) (first : RegistryEntry)
    → apart entries ≡ true
    → i < length entries
    → equals_ignoring_case (get_or entries i first).info.name wanted ≡ true
    → find_name entries wanted ≡ some (get_or entries i first).info.id
unfolding find_name
find_name_at wanted [] i first h lt e = absurd (omega arith)
find_name_at wanted (entry ∷ entries) zero first h lt e = rw e
find_name_at wanted (entry ∷ entries) (suc i) first h lt e =
    let miss = free_at entry.info.name wanted entries i first (ground arith) (omega arith) e in
    rw miss (find_name_at wanted entries i first (ground arith) (omega arith) e)

find_name-some :
    (wanted : Text) (entries : List RegistryEntry) (first : RegistryEntry) (id : ModelId)
    → find_name entries wanted ≡ some id
    → (i : ℕ) × (i < length entries)
      × (equals_ignoring_case (get_or entries i first).info.name wanted ≡ true)
      × ((get_or entries i first).info.id ≡ id)
unfolding find_name
find_name-some wanted [] first id e = cc
find_name-some wanted (entry ∷ entries) first id e =
    elim (Bool-cases (equals_ignoring_case entry.info.name wanted)) [
      | inl hit ↦ (0, omega arith, hit, some_id entry.info.id id (rw hit at e))
      | inr miss ↦
          let (i, lt, same, found) = find_name-some wanted entries first id (rw miss at e) in
          (suc i, omega arith, same, found)
    ]

no_entry :
    (name : Text) (i : ℕ) (first : RegistryEntry)
    → find_name registry (wanted_name name) ≡ none
    → i < length registry
    → equals_ignoring_case (get_or registry i first).info.name (wanted_name name) ≡ false
no_entry name i first none_found lt =
    elim (Bool-cases
      (equals_ignoring_case (get_or registry i first).info.name (wanted_name name))) [
        | inl hit ↦ absurd (
            none_not_some (get_or registry i first).info.id (
              sym none_found
              ∙ find_name_at (wanted_name name) registry i first registry_names_differ lt hit))
        | inr miss ↦ miss
      ]

-- A name that is, case aside, the name of an entry (qualified, where it has no slash) resolves to
-- that entry's model, and to no other.
pub find_model_known :
    (name : Text) (out : ModelId) (i : ℕ) (first : RegistryEntry)
    → i < length registry
    → equals_ignoring_case (get_or registry i first).info.name (wanted_name name) ≡ true
    → find_model name out ≡ (success, (get_or registry i first).info.id)
unfolding find_model
find_model_known name out i first lt e =
    rw (find_name_at (wanted_name name) registry i first registry_names_differ lt e, find_model)

-- Whatever `find_model` answers: success names an entry whose name was asked for, and any failure is
-- `InvalidArgument`, leaves `out` alone, and means that no entry has that name.
pub find_model_answer :
    (name : Text) (out : ModelId) (first : RegistryEntry)
    → ((i : ℕ) × (i < length registry)
        × (equals_ignoring_case (get_or registry i first).info.name (wanted_name name) ≡ true)
        × (find_model name out ≡ (success, (get_or registry i first).info.id)))
      ⊎ ((find_model name out).0.code ≡ invalid_argument)
        × ((find_model name out).1 ≡ out)
        × ((i : ℕ)
            → i < length registry
            → equals_ignoring_case (get_or registry i first).info.name (wanted_name name) ≡ false)
unfolding find_model
find_model_answer name out first = elim (Option-cases (find_name registry (wanted_name name))) [
  | inl none_found ↦ inr (
    rw (none_found, find_model),
    rw (none_found, find_model),
    λ i lt. no_entry name i first none_found lt,
  )
  | inr (id, found) ↦
      let (i, lt, same, e) = find_name-some (wanted_name name) registry first id found in
      inl (i, lt, same, find_model_known name out i first lt same)
]
