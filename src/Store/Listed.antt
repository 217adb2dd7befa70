-- ===== src/Store/Listed.antt =====
-- src/session_store.cpp, `loaded`: the list of the sessions that live, from the entries.
use cyborgdb_embed.Prelude.{
  ℕ, ◌≡◌, refl, sym, ap, subst, ◌∙◌, inl, inr, Bool, true, ◌&&◌, List, [], ◌∷◌, none, some, ltb,
  Option-cases,
}
use mathlib.Core.List.{Memᴰ}
use mathlib.Core.List.Memᴰ
use cyborgdb_embed.Store.{Key, Entry, key_lt, lock, LoadedModel, loaded_models}
use cyborgdb_embed.Store.Order.{below, is_increasing, parts, both}

-- Every key listed is above `k`.
unfoldable pub all_above : Key → List LoadedModel → Bool
all_above k [] = true
all_above k (m ∷ ms) = key_lt k m.key && all_above k ms

-- In the order of the keys, each key once.
unfoldable pub keys_increase : List LoadedModel → Bool
unfolding all_above
keys_increase [] = true
keys_increase (m ∷ ms) = all_above m.key ms && keys_increase ms

module _ (use_count : ℕ → ℕ) where
  abbrev lives : ℕ → Bool
  lives s = ltb 0 (use_count s)

  skipped :
      (k : Key) (e : Entry) (m : List (Key × Entry))
      → lock lives e.session ≡ none
      → loaded_models use_count ((k, e) ∷ m) ≡ loaded_models use_count m
  unfolding loaded_models
  skipped k e m dead = rw (loaded_models, dead) refl

  taken :
      (k : Key) (e : Entry) (m : List (Key × Entry)) (s : ℕ)
      → lock lives e.session ≡ some s
      → loaded_models use_count ((k, e) ∷ m)
        ≡ record { key = k; handles = use_count s } ∷ loaded_models use_count m
  unfolding loaded_models
  taken k e m s locked = rw (loaded_models, locked) refl

  all_above-loaded :
      (k : Key) (m : List (Key × Entry))
      → below k m ≡ true
      → all_above k (loaded_models use_count m) ≡ true
  unfolding below all_above loaded_models
  all_above-loaded k [] h = refl
  all_above-loaded k ((j, e) ∷ m) h =
      let (kj, rest) = parts (key_lt k j) (below k m) h in
      let deep = all_above-loaded k m rest in
      elim (Option-cases (lock lives e.session)) [
        | inl dead ↦ subst (λ l. all_above k l ≡ true) (sym (skipped j e m dead)) deep
        | inr (s, locked) ↦
            subst (λ l. all_above k l ≡ true) (sym (taken j e m s locked))
              (both (key_lt k j) (all_above k (loaded_models use_count m)) kj deep)
      ]

  pub keys_increase-loaded :
      (m : List (Key × Entry))
      → is_increasing m ≡ true
      → keys_increase (loaded_models use_count m) ≡ true
  unfolding is_increasing keys_increase loaded_models
  keys_increase-loaded [] h = refl
  keys_increase-loaded ((j, e) ∷ m) h =
      let (low, rest) = parts (below j m) (is_increasing m) h in
      let deep = keys_increase-loaded m rest in
      elim (Option-cases (lock lives e.session)) [
        | inl dead ↦ subst (λ l. keys_increase l ≡ true) (sym (skipped j e m dead)) deep
        | inr (s, locked) ↦
            subst (λ l. keys_increase l ≡ true) (sym (taken j e m s locked))
              (both (all_above j (loaded_models use_count m))
                (keys_increase (loaded_models use_count m)) (all_above-loaded j m low) deep)
      ]

  -- The entry that an element of the list comes from.
  pub record From (entries : List (Key × Entry)) (m : LoadedModel) : Type 0 where
    pub entry : Entry
    pub is_entry : Memᴰ (m.key, entry) entries
    pub load : ℕ
    pub locked : lock lives entry.session ≡ some load
    pub counted : m.handles ≡ use_count load

  pub listed-From :
      (entries : List (Key × Entry)) (l : LoadedModel)
      → Memᴰ l (loaded_models use_count entries)
      → From entries l
  unfolding loaded_models
  listed-From [] l there = elim there [ ]
  listed-From ((k, e) ∷ m) l there = elim (Option-cases (lock lives e.session)) [
    | inl dead ↦ deeper (listed-From m l (subst (Memᴰ l) (skipped k e m dead) there))
    | inr (s, locked) ↦ elim (Memᴰ.cases_cons (subst (Memᴰ l) (taken k e m s locked) there)) [
      | inl same ↦ record {
        entry = e;
        is_entry = Memᴰ.head (ap (λ (x : LoadedModel). (x.key, e)) same);
        load = s;
        locked = locked;
        counted = ap (λ (x : LoadedModel). x.handles) same;
      }
      | inr deep ↦ deeper (listed-From m l deep)
    ]
  ]
    where
      deeper : From m l → From ((k, e) ∷ m) l
      deeper f = record {
        entry = f.entry;
        is_entry = Memᴰ.tail f.is_entry;
        load = f.load;
        locked = f.locked;
        counted = f.counted;
      }

  pub is_listed :
      (entries : List (Key × Entry)) (k : Key) (e : Entry) (s : ℕ)
      → Memᴰ (k, e) entries
      → lock lives e.session ≡ some s
      → Memᴰ {A = LoadedModel}
          (record { key = k; handles = use_count s })
          (loaded_models use_count entries)
  unfolding loaded_models
  is_listed [] k e s there locked = elim there [ ]
  is_listed ((j, f) ∷ m) k e s there locked = elim (Memᴰ.cases_cons there) [
    | inl same ↦
        subst (Memᴰ _)
          (sym
            (taken j f m s (ap (λ (x : Key × Entry). lock lives x.1.session) (sym same) ∙ locked)))
          (Memᴰ.head (ap (λ (x : Key × Entry). record { key = x.0; handles = use_count s }) same))
    | inr deep ↦
        let rest = is_listed m k e s deep locked in
        elim (Option-cases (lock lives f.session)) [
          | inl dead ↦ subst (Memᴰ _) (sym (skipped j f m dead)) rest
          | inr (t, also) ↦ subst (Memᴰ _) (sym (taken j f m t also)) (Memᴰ.tail rest)
        ]
  ]
