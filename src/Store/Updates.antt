-- ===== src/Store/Updates.antt =====
-- src/session_store.cpp: the invariant after a change to the entry of a key that one flight uses.
use cyborgdb_embed.Prelude.{
  ℕ, ◌≤◌, ◌<◌, ◌≡◌, ◌≢◌, sym, ap, subst, ◌∙◌, ◌⊎◌, inl, inr, Bool, true, false, List, Option, some,
  Bool-cases, write, write_miss, arith,
}
use cyborgdb_embed.Store.{Key, Entry, find}
use cyborgdb_embed.Store.Keys.{key_cases}
use cyborgdb_embed.Store.World.{made, Flight, Flights, flight_count}
use cyborgdb_embed.Store.Invariant.{in_flight, holding, FlightOk, EntryOk, Inv, write_cases}

zero-cases : (n : ℕ) → (n ≡ 0) ⊎ (0 < n)
zero-cases n = ground arith

same_pending : (p q : ℕ) → ◌≡◌ {A = Option Entry} (some (in_flight p)) (some (in_flight q)) → p ≡ q
same_pending p q e = cc

pending_holding : (p q : ℕ) → ◌≡◌ {A = Option Entry} (some (in_flight p)) (some (holding q)) → ⊥
pending_holding p q e = cc

busy_idle : {b : Bool} → b ≡ true → b ≡ false → ⊥
busy_idle p q = cc

module _ (entries : List (Key × Entry)) (flights : Flights) (next : ℕ)
    (v : Inv entries flights next) where
  -- No flight but `p` loads the key, or has made a session of it that lives.
  abbrev pub Unused : Key → ℕ → Type 0
  Unused k p =
      (q : ℕ) (h : Flight)
      → p ≢ q
      → flights q ≡ some h
      → h.key ≡ k
      → (h.loader ≡ false) × (h.stage ≡ made → flight_count h ≡ 0)

  other_flight :
      (entries' : List (Key × Entry)) (k : Key) (p q : ℕ) (h : Flight)
      → ((j : Key) → k ≢ j → find j entries' ≡ find j entries)
      → Unused k p
      → p ≢ q
      → flights q ≡ some h
      → FlightOk entries' q h
  other_flight entries' k p q h same unused ne there =
      let old = v.each_flight q h there in
      elim (key_cases k h.key) [
        | inl k_h ↦
            let (idle, dead) = unused q h ne there (sym k_h) in
            record {
              while_loading = λ l. absurd (busy_idle l idle);
              while_live = λ _ m c. absurd (omega (arith, dead m));
              unmade = old.unmade;
              has_loader = old.has_loader;
            }
        | inr other ↦ record {
          while_loading = λ l. same h.key other ∙ old.while_loading l;
          while_live = λ l m c. same h.key other ∙ old.while_live l m c;
          unmade = old.unmade;
          has_loader = old.has_loader;
        }
      ]

  other_entry :
      (p : ℕ) (g : Flight) (k j : Key) (e : Entry)
      → k ≢ j
      → ((f : Flight) → flights p ≡ some f → f.key ≡ k)
      → EntryOk flights j e
      → EntryOk (write flights p (some g)) j e
  other_entry p g k j e ne owned old = record {
    of_session = λ q named.
        let (h, there, its_key, its_stage) = old.of_session q named in
        (h, write_miss flights p q (some g) (not_p q h there its_key) ∙ there, its_key, its_stage);
    of_pending = λ q named.
        let (h, there, its_key, its_call) = old.of_pending q named in
        (h, write_miss flights p q (some g) (not_p q h there its_key) ∙ there, its_key, its_call);
  }
    where
      not_p : (q : ℕ) (h : Flight) → flights q ≡ some h → h.key ≡ j → p ≢ q
      not_p q h there its_key same = ne (sym (owned h (ap flights same ∙ there)) ∙ its_key)

  -- A change to one flight and to the entry of its key, where no other flight uses the key.
  pub update-Inv :
      (entries' : List (Key × Entry)) (k : Key) (p next' : ℕ) (g : Flight)
      → next ≤ next'
      → p < next'
      → ((j : Key) → k ≢ j → find j entries' ≡ find j entries)
      → ((f : Flight) → flights p ≡ some f → f.key ≡ k)
      → Unused k p
      → FlightOk entries' p g
      → ((e : Entry) → find k entries' ≡ some e → EntryOk (write flights p (some g)) k e)
      → Inv entries' (write flights p (some g)) next'
  update-Inv entries' k p next' g le lt same owned unused ok own = record {
    fresh = λ q h.
        write_miss flights p q (some g) (λ e. absurd (omega arith)) ∙ v.fresh q (omega arith);
    each_flight = λ q h e. elim (write_cases flights p q g h e) [
      | inl (p_q, g_h) ↦ subst (λ r. FlightOk entries' r h) p_q (subst (FlightOk entries' p) g_h ok)
      | inr (ne, there) ↦ other_flight entries' k p q h same unused ne there
    ];
    each_entry = λ j e found. elim (key_cases k j) [
      | inl k_j ↦
          subst (λ i. EntryOk (write flights p (some g)) i e) k_j
            (own e (ap (λ i. find i entries') k_j ∙ found))
      | inr ne ↦ other_entry p g k j e ne owned (v.each_entry j e (sym (same j ne) ∙ found))
    ];
  }

  -- A flight that its key's entry does not name.
  pub unnamed :
      (q : ℕ) (h : Flight)
      → flights q ≡ some h
      → find h.key entries ≢ some (in_flight q)
      → (0 < flight_count h → find h.key entries ≢ some (holding q))
      → (h.loader ≡ false) × (h.stage ≡ made → flight_count h ≡ 0)
  unnamed q h there not_loading not_live =
      let old = v.each_flight q h there in
      elim (Bool-cases h.loader) [
        | inl busy ↦ absurd (not_loading (old.while_loading busy))
        | inr idle ↦ (
          idle,
          λ m. elim (zero-cases (flight_count h)) [
            | inl none_left ↦ none_left
            | inr some_left ↦ absurd (not_live some_left (old.while_live idle m some_left))
          ],
        )
      ]

  -- While one flight loads a key, no other uses it.
  pub loading-Unused : (p : ℕ) (f : Flight) → flights p ≡ some f → f.loader ≡ true → Unused f.key p
  loading-Unused p f here busy q h ne there k =
      let mine = (v.each_flight p f here).while_loading busy in
      unnamed q h there
        (λ e. ne (same_pending p q (sym mine ∙ ap (λ j. find j entries) (sym k) ∙ e)))
        (λ _ e. pending_holding p q (sym mine ∙ ap (λ j. find j entries) (sym k) ∙ e))
