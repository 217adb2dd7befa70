-- ===== src/Store/Invariant.antt =====
-- src/session_store.cpp: what holds of the entries and the loads between any two critical sections.
use cyborgdb_embed.Prelude.{
  different, ℕ, ◌≤◌, ◌<◌, ◌≡◌, ◌≢◌, sym, ap, subst, ◌∙◌, ◌⊎◌, inl, inr, true, false, List, Option,
  none, some, ◌==◌, ==_iff, Bool-cases, write, write_hit, write_miss,
}
use cyborgdb_embed.Store.{Key, Entry, find}
use cyborgdb_embed.Store.World.{loading, made, broken, Flight, Flights, flight_count}

-- The entry of a load in flight, and of a session that was published.
abbrev pub in_flight : ℕ → Entry
in_flight p = record { session = none; pending = some p }

abbrev pub holding : ℕ → Entry
holding p = record { session = some p; pending = none }

pub record FlightOk (entries : List (Key × Entry)) (p : ℕ) (f : Flight) : Type 0 where
  pub while_loading : f.loader ≡ true → find f.key entries ≡ some (in_flight p)
  pub while_live :
      f.loader ≡ false → f.stage ≡ made → 0 < flight_count f → find f.key entries ≡ some (holding p)
  pub unmade : f.stage ≢ made → f.handles ≡ 0
  pub has_loader : f.stage ≡ loading → f.loader ≡ true

-- The loading call is still to publish, or the load threw.
abbrev pub IsAwaited : Flight → Type 0
IsAwaited f = (f.loader ≡ true) ⊎ (f.stage ≡ broken)

pub record EntryOk (flights : Flights) (k : Key) (e : Entry) : Type 0 where
  pub of_session :
      (p : ℕ)
      → e.session ≡ some p
      → (f : Flight) × (flights p ≡ some f) × (f.key ≡ k) × (f.stage ≡ made)
  pub of_pending :
      (p : ℕ) → e.pending ≡ some p → (f : Flight) × (flights p ≡ some f) × (f.key ≡ k) × IsAwaited f

pub record Inv (entries : List (Key × Entry)) (flights : Flights) (next : ℕ) : Type 0 where
  pub fresh : (p : ℕ) → next ≤ p → flights p ≡ none
  pub each_flight : (p : ℕ) (f : Flight) → flights p ≡ some f → FlightOk entries p f
  pub each_entry : (k : Key) (e : Entry) → find k entries ≡ some e → EntryOk flights k e

some_flight : {f g : Flight} → ◌≡◌ {A = Option Flight} (some f) (some g) → f ≡ g
some_flight e = cc

pub none_flight : {f : Flight} → ◌≡◌ {A = Option Flight} none (some f) → ⊥
none_flight e = cc

-- The flight at `q` after a write at `p`.
pub write_cases :
    (flights : Flights) (p q : ℕ) (f g : Flight)
    → write flights p (some f) q ≡ some g
    → (p ≡ q) × (f ≡ g) ⊎ (p ≢ q) × (flights q ≡ some g)
write_cases flights p q f g e = elim (Bool-cases (p == q)) [
  | inl same ↦
      let e' : p ≡ q = (==_iff p q).0 same in
      inl (e', some_flight (sym (write_hit flights p (some f)) ∙ (rw (← e') at e)))
  | inr other ↦
      let ne : p ≢ q = different p q other in inr (ne, sym (write_miss flights p q (some f) ne) ∙ e)
]

module _ (entries : List (Key × Entry)) (flights : Flights) (next : ℕ)
    (v : Inv entries flights next) where
  -- What an entry names is still there after a change that keeps a key and a made session.
  entry_kept :
      (p : ℕ) (f g : Flight) (k : Key) (e : Entry)
      → flights p ≡ some f
      → g.key ≡ f.key
      → (f.stage ≡ made → g.stage ≡ made)
      → (IsAwaited f → IsAwaited g)
      → EntryOk flights k e
      → EntryOk (write flights p (some g)) k e
  entry_kept p f g k e here key stays awaited old = record {
    of_session = λ q named.
        let (h, there, its_key, its_stage) = old.of_session q named in
        elim (Bool-cases (p == q)) [
          | inl same ↦
              let e' : p ≡ q = (==_iff p q).0 same in
              let f_h : f ≡ h = some_flight (sym here ∙ (rw (← e') at there)) in
              (
                g,
                rw (← e') (write_hit flights p (some g)),
                key ∙ ap (λ (x : Flight). x.key) f_h ∙ its_key,
                stays (ap (λ (x : Flight). x.stage) f_h ∙ its_stage),
              )
          | inr other ↦
              (h, write_miss flights p q (some g) (different p q other) ∙ there, its_key, its_stage)
        ];
    of_pending = λ q named.
        let (h, there, its_key, its_call) = old.of_pending q named in
        elim (Bool-cases (p == q)) [
          | inl same ↦
              let e' : p ≡ q = (==_iff p q).0 same in
              let f_h : f ≡ h = some_flight (sym here ∙ (rw (← e') at there)) in
              (
                g,
                rw (← e') (write_hit flights p (some g)),
                key ∙ ap (λ (x : Flight). x.key) f_h ∙ its_key,
                awaited (subst IsAwaited (sym f_h) its_call),
              )
          | inr other ↦
              (h, write_miss flights p q (some g) (different p q other) ∙ there, its_key, its_call)
        ];
  }

  -- A change to one flight that keeps its key, and a session that was made.
  pub change-Inv :
      (p : ℕ) (f g : Flight)
      → flights p ≡ some f
      → g.key ≡ f.key
      → (f.stage ≡ made → g.stage ≡ made)
      → (IsAwaited f → IsAwaited g)
      → FlightOk entries p g
      → Inv entries (write flights p (some g)) next
  change-Inv p f g here key stays awaited ok = record {
    fresh = λ q le.
        write_miss flights p q (some g) (λ e. none_flight (sym (v.fresh q le) ∙ (rw e at here)))
        ∙ v.fresh q le;
    each_flight = λ q h e. elim (write_cases flights p q g h e) [
      | inl (same, g_h) ↦ subst (λ r. FlightOk entries r h) same (subst (FlightOk entries p) g_h ok)
      | inr (other, there) ↦ v.each_flight q h there
    ];
    each_entry = λ k e found. entry_kept p f g k e here key stays awaited (v.each_entry k e found);
  }
