-- ===== src/Store/Sessions.antt =====
-- src/session_store.cpp, `acquire` with its callers: what a process that has run any events holds.
use cyborgdb_embed.Prelude.{
  ℕ, suc, ◌+◌, ◌<◌, ◌≡◌, ◌≢◌, refl, sym, ap, ◌∙◌, ◌⊎◌, inl, inr, true, false, List, Option, none,
  some, ltb, Bool-cases, Option-cases, write, arith,
}
use cyborgdb_embed.Config.{CacheConfig}
use cyborgdb_embed.Store.{Key, Entry, reuse, begin_acquire, find, insert, lock, start_load}
use cyborgdb_embed.Store.World.{
  Stage, loading, made, broken, failed, Flight, Flights, stage_count, flight_count, is_live,
  new_flight, World, put, Event, called, nothing, session, decided, step, run, start,
}
use cyborgdb_embed.Store.Invariant.{in_flight, holding}
use cyborgdb_embed.Store.Branches.{visit_locked, visit_stale, begin_found, begin_absent, at_found}
use cyborgdb_embed.Store.Changes.{true-false, broken_made, failed_made, WorldInv}
use cyborgdb_embed.Store.Steps.{lock_live}
use cyborgdb_embed.Store.Reachable.{run-Inv, start-Inv}

-- A call still loads the flight's session, or something refers to the session.
abbrev pub IsInUse : Flight → Type 0
IsInUse f = (f.loader ≡ true) ⊎ (0 < flight_count f)

same_session : (p q : ℕ) → ◌≡◌ {A = Option Entry} (some (holding p)) (some (holding q)) → p ≡ q
same_session p q e = cc

same_load : (p q : ℕ) → ◌≡◌ {A = Option Entry} (some (in_flight p)) (some (in_flight q)) → p ≡ q
same_load p q e = cc

load_session : (p q : ℕ) → ◌≡◌ {A = Option Entry} (some (in_flight p)) (some (holding q)) → ⊥
load_session p q e = cc

not_counted :
    (f : Flight) (stage : Stage)
    → f.stage ≡ stage
    → f.handles ≡ 0
    → stage_count stage f.loader f.waiters ≡ 0
    → 0 < flight_count f
    → ⊥
not_counted f stage is no_handle no_call lives =
    let no_reference : flight_count f ≡ 0 = rw (is, no_handle, no_call) refl in
    omega (arith, lives, no_reference)

lock_dead :
    (flights : Flights) (q : ℕ) (h : Flight)
    → flights q ≡ some h
    → flight_count h ≡ 0
    → lock (is_live flights) (some q) ≡ none
lock_dead flights q h there dead =
    let gone : is_live flights q ≡ false =
      ap (λ (o : Option Flight). ltb 0 (elim o [ none ↦ 0 | some f ↦ flight_count f ])) there
      ∙ ap (λ n. ltb 0 n) dead in
    rw gone

module _ (w : World) (v : WorldInv w) where
  pub is_made :
      (p : ℕ) (f : Flight)
      → w.flights p ≡ some f
      → f.loader ≡ false
      → 0 < flight_count f
      → f.stage ≡ made
  is_made p f here idle lives = go f.stage refl
    where
      go : (stage : Stage) → f.stage ≡ stage → f.stage ≡ made
      go made e = e
      go loading e = absurd (true-false (sym ((v.each_flight p f here).has_loader e) ∙ idle))
      go broken e = absurd (
          not_counted f broken e ((v.each_flight p f here).unmade (λ m. broken_made (sym e ∙ m)))
            refl lives)
      go (failed s) e = absurd (
          not_counted f (failed s) e
            ((v.each_flight p f here).unmade (λ m. failed_made (sym e ∙ m))) refl lives)

  -- The entry of the key names a flight in use.
  names :
      (p : ℕ) (f : Flight)
      → w.flights p ≡ some f
      → IsInUse f
      → (find f.key w.store.entries ≡ some (in_flight p))
        ⊎ (find f.key w.store.entries ≡ some (holding p))
  names p f here used = elim (Bool-cases f.loader) [
    | inl busy ↦ inl ((v.each_flight p f here).while_loading busy)
    | inr idle ↦ inr (elim used [
      | inl busy ↦ absurd (true-false (sym busy ∙ idle))
      | inr lives ↦ (v.each_flight p f here).while_live idle (is_made p f here idle lives) lives
    ])
  ]

  pub one_in_use :
      (p q : ℕ) (f g : Flight)
      → w.flights p ≡ some f
      → w.flights q ≡ some g
      → f.key ≡ g.key
      → IsInUse f
      → IsInUse g
      → p ≡ q
  one_in_use p q f g here there key used used' =
      let same = ap (λ k. find k w.store.entries) key in
      elim (names p f here used) [
        | inl mine ↦ elim (names q g there used') [
          | inl theirs ↦ same_load p q (sym mine ∙ same ∙ theirs)
          | inr theirs ↦ absurd (load_session p q (sym mine ∙ same ∙ theirs))
        ]
        | inr mine ↦ elim (names q g there used') [
          | inl theirs ↦ absurd (load_session q p (sym theirs ∙ sym same ∙ mine))
          | inr theirs ↦ same_session p q (sym mine ∙ same ∙ theirs)
        ]
      ]

  pub begin_reuses :
      (p : ℕ) (f : Flight)
      → w.flights p ≡ some f
      → f.loader ≡ false
      → 0 < flight_count f
      → begin_acquire (is_live w.flights) f.key w.next w.store
        ≡ (record w.store { shared = w.store.shared + 1 }, reuse p)
  begin_reuses p f here idle lives =
      let found = (v.each_flight p f here).while_live idle (is_made p f here idle lives) lives in
      begin_found (is_live w.flights) f.key w.next w.store (holding p) found
      ∙ visit_locked (is_live w.flights) f.key w.next w.store (holding p) p
          (lock_live w.flights p f here lives)

  reuses :
      (p : ℕ) (f : Flight)
      → w.flights p ≡ some f
      → f.loader ≡ false
      → 0 < flight_count f
      → step w (called f.key) ≡ (
        record w {
          store = record w.store { shared = w.store.shared + 1 };
          flights = write w.flights p (some (record f { handles = f.handles + 1 }));
        },
        session p,
      )
  unfolding step decided
  reuses p f here idle lives =
      let shared = record w { store = record w.store { shared = w.store.shared + 1 } } in
      ap (decided w f.key) (begin_reuses p f here idle lives)
      ∙ at_found shared p f (λ g. (put shared p (record g { handles = g.handles + 1 }), session p))
          here

  abbrev IsFree : Key → Type 0
  IsFree key =
      (q : ℕ) (h : Flight) → w.flights q ≡ some h → h.key ≡ key → ¬ IsInUse h × (h.stage ≢ broken)

  -- No live session and no pending load in the entry.
  entry_free :
      (key : Key) (e : Entry)
      → IsFree key
      → find key w.store.entries ≡ some e
      → (lock (is_live w.flights) e.session ≡ none) × (e.pending ≡ none)
  entry_free key e free found =
      let ok = v.each_entry key e found in
      (
        elim (Option-cases e.session) [
          | inl nothing_held ↦ ap (lock (is_live w.flights)) nothing_held
          | inr (q, named) ↦
              let (h, there, its_key, its_stage) = ok.of_session q named in
              ap (lock (is_live w.flights)) named
              ∙ lock_dead w.flights q h there
                  (not_positive (flight_count h) (λ lives. (free q h there its_key).0 (inr lives)))
        ],
        elim (Option-cases e.pending) [
          | inl nothing_loads ↦ nothing_loads
          | inr (q, named) ↦
              let (h, there, its_key, its_call) = ok.of_pending q named in
              absurd (elim its_call [
                | inl busy ↦ (free q h there its_key).0 (inl busy)
                | inr gone ↦ (free q h there its_key).1 gone
              ])
        ],
      )
    where
      not_positive : (n : ℕ) → ¬ (0 < n) → n ≡ 0
      not_positive n none_left = ground arith

  loads :
      (key : Key) → IsFree key → step w (called key) ≡ decided w key (start_load key w.next w.store)
  unfolding step
  loads key free = elim (Option-cases (find key w.store.entries)) [
    | inl absent ↦ ap (decided w key) (begin_absent (is_live w.flights) key w.next w.store absent)
    | inr (e, found) ↦
        let (dead, idle) = entry_free key e free found in
        ap (decided w key) (
          begin_found (is_live w.flights) key w.next w.store e found
          ∙ visit_stale (is_live w.flights) key w.next w.store e dead idle)
  ]

module _ (config : CacheConfig) (events : List Event) where
  -- After any events, two flights of one key that both have a call still loading or a reference to
  -- their session are one flight: a key has at most one load in progress, at most one live session,
  -- and never both apart.
  pub one_flight :
      (p q : ℕ) (f g : Flight)
      → (run (start config) events).flights p ≡ some f
      → (run (start config) events).flights q ≡ some g
      → f.key ≡ g.key
      → IsInUse f
      → IsInUse g
      → p ≡ q
  one_flight =
      one_in_use (run (start config) events) (run-Inv events (start config) (start-Inv config))

  -- After any events, a call for a key whose session was published and is still referred to returns
  -- that session: it counts as shared, the session has one handle more, no load starts and nothing
  -- else changes.
  pub call_reuses :
      (p : ℕ) (f : Flight)
      → (run (start config) events).flights p ≡ some f
      → f.loader ≡ false
      → 0 < flight_count f
      → step (run (start config) events) (called f.key) ≡ (
        record (run (start config) events) {
          store = record (run (start config) events).store {
            shared = (run (start config) events).store.shared + 1;
          };
          flights =
              write
                (run (start config) events).flights
                p
                (some (record f { handles = f.handles + 1 }));
        },
        session p,
      )
  call_reuses =
      reuses (run (start config) events) (run-Inv events (start config) (start-Inv config))

  -- After any events, a call for a key that no flight uses and of which no load has thrown starts a
  -- load: a new flight, a fresh pending entry for the key, one more load counted, the configuration
  -- as it is now.
  pub call_loads :
      (key : Key)
      → ((q : ℕ) (h : Flight)
          → (run (start config) events).flights q ≡ some h
          → h.key ≡ key
          → ¬ IsInUse h × (h.stage ≢ broken))
      → step (run (start config) events) (called key) ≡ (
        record {
          store = record (run (start config) events).store {
            entries =
                insert key
                  (in_flight (run (start config) events).next)
                  (run (start config) events).store.entries;
            loaded = (run (start config) events).store.loaded + 1;
          };
          flights =
              write
                (run (start config) events).flights
                (run (start config) events).next
                (some (new_flight key (run (start config) events).store.config));
          next = suc (run (start config) events).next;
        },
        nothing,
      )
  unfolding start_load decided
  call_loads = loads (run (start config) events) (run-Inv events (start config) (start-Inv config))
