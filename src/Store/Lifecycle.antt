-- ===== src/Store/Lifecycle.antt =====
-- src/session_store.hpp: the life of a key as the class comment tells it, and the store as a refinement
-- of it. A step of the store moves every key along an edge of the abstract machine.
use cyborgdb_embed.Prelude.{
  different, ℕ, ◌<◌, ◌≡◌, refl, sym, ap, subst, ◌∙◌, ◌⊎◌, inl, inr, true, none, some, ◌==◌, ==_iff,
  Bool-cases, write, write_hit, write_miss, arith,
}
use cyborgdb_embed.Store.{Key, Store, find}
use cyborgdb_embed.Store.World.{made, broken, Flight, flight_count, World, put}
use cyborgdb_embed.Store.Invariant.{in_flight, holding, IsAwaited}
use cyborgdb_embed.Store.Changes.{some_injective, WorldInv}

-- No session and no load; a load; a session that someone refers to; a load that threw.
pub data Lifecycle : Type 0 where
  unused loads lives poisoned : Lifecycle

-- The abstract machine. Nothing leads out of `poisoned`.
pub data Moves : Lifecycle → Lifecycle → Type 0 where
  stays : {a : Lifecycle} → Moves a a
  starts : Moves unused loads
  publishes : Moves loads lives
  gives_up : Moves loads unused
  throws : Moves loads poisoned
  expires : Moves lives unused

-- Where a key stands in a world.
pub data IsAt (w : World) (k : Key) : Lifecycle → Type 0 where
  absent : find k w.store.entries ≡ none → IsAt w k unused
  expired :
      (p : ℕ) (f : Flight)
      → find k w.store.entries ≡ some (holding p)
      → w.flights p ≡ some f
      → flight_count f ≡ 0
      → IsAt w k unused
  awaited :
      (p : ℕ) (f : Flight)
      → find k w.store.entries ≡ some (in_flight p)
      → w.flights p ≡ some f
      → f.loader ≡ true
      → IsAt w k loads
  held :
      (p : ℕ) (f : Flight)
      → find k w.store.entries ≡ some (holding p)
      → w.flights p ≡ some f
      → 0 < flight_count f
      → IsAt w k lives
  left :
      (p : ℕ) (f : Flight)
      → find k w.store.entries ≡ some (in_flight p)
      → w.flights p ≡ some f
      → f.stage ≡ broken
      → IsAt w k poisoned

-- The key has moved along an edge.
abbrev pub HasMoved : World → Key → Lifecycle → Type 0
HasMoved w k a = (b : Lifecycle) × IsAt w k b × Moves a b

zero-cases : (n : ℕ) → (n ≡ 0) ⊎ (0 < n)
zero-cases n = ground arith

module _ (w : World) (v : WorldInv w) (k : Key) where
  pub holding_flight :
      (p : ℕ) (f : Flight)
      → find k w.store.entries ≡ some (holding p)
      → w.flights p ≡ some f
      → (f.key ≡ k) × (f.stage ≡ made)
  holding_flight p f named here =
      let (g, there, key, stage) = (v.each_entry k (holding p) named).of_session p refl in
      let same : g ≡ f = some_injective (sym there ∙ here) in
      (ap (λ (x : Flight). x.key) (sym same) ∙ key, ap (λ (x : Flight). x.stage) (sym same) ∙ stage)

  pub pending_flight :
      (p : ℕ) (f : Flight)
      → find k w.store.entries ≡ some (in_flight p)
      → w.flights p ≡ some f
      → (f.key ≡ k) × IsAwaited f
  pending_flight p f named here =
      let (g, there, key, call) = (v.each_entry k (in_flight p) named).of_pending p refl in
      let same : g ≡ f = some_injective (sym there ∙ here) in
      (ap (λ (x : Flight). x.key) (sym same) ∙ key, subst IsAwaited same call)

  -- The flights of the key, and its entry, are what they were.
  pub untouched :
      (w' : World) (a : Lifecycle)
      → find k w'.store.entries ≡ find k w.store.entries
      → ((p : ℕ) (f : Flight) → f.key ≡ k → w.flights p ≡ some f → w'.flights p ≡ some f)
      → IsAt w k a
      → HasMoved w' k a
  untouched w' a same flights (absent none_here) = (unused, absent (same ∙ none_here), stays)
  untouched w' a same flights (expired p f named here dead) = (
    unused,
    expired p f (same ∙ named) (flights p f (holding_flight p f named here).0 here) dead,
    stays,
  )
  untouched w' a same flights (awaited p f named here busy) = (
    loads,
    awaited p f (same ∙ named) (flights p f (pending_flight p f named here).0 here) busy,
    stays,
  )
  untouched w' a same flights (held p f named here alive) = (
    lives,
    held p f (same ∙ named) (flights p f (holding_flight p f named here).0 here) alive,
    stays,
  )
  untouched w' a same flights (left p f named here gone) = (
    poisoned,
    left p f (same ∙ named) (flights p f (pending_flight p f named here).0 here) gone,
    stays,
  )

  -- A flight changes, and no entry does.
  pub changed :
      (store : Store) (next q : ℕ) (h g : Flight) (a : Lifecycle)
      → w.flights q ≡ some h
      → find k store.entries ≡ find k w.store.entries
      → (h.stage ≡ made → flight_count h ≡ 0 → flight_count g ≡ 0)
      → (h.loader ≡ true → (g.loader ≡ true) ⊎ (g.stage ≡ broken))
      → (h.stage ≡ broken → g.stage ≡ broken)
      → IsAt w k a
      → HasMoved (put (record w { store = store; next = next }) q g) k a
  changed store next q h g a there same on_dead on_busy on_gone at = go a at
    where
      now :
          (p : ℕ) (f : Flight)
          → w.flights p ≡ some f
          → (q ≡ p) × (h ≡ f) × (write w.flights q (some g) p ≡ some g)
            ⊎ (write w.flights q (some g) p ≡ some f)
      now p f here = elim (Bool-cases (q == p)) [
        | inl hit ↦
            let e : q ≡ p = (==_iff q p).0 hit in
            inl (
              e,
              some_injective (sym there ∙ ap w.flights e ∙ here),
              ap (write w.flights q (some g)) (sym e) ∙ write_hit w.flights q (some g),
            )
        | inr miss ↦ inr (write_miss w.flights q p (some g) (different q p miss) ∙ here)
      ]

      go :
          (a : Lifecycle)
          → IsAt w k a
          → HasMoved (put (record w { store = store; next = next }) q g) k a
      go a (absent none_here) = (unused, absent (same ∙ none_here), stays)
      go a (expired p f named here dead) = elim (now p f here) [
        | inr kept ↦ (unused, expired p f (same ∙ named) kept dead, stays)
        | inl (_, h_f, new) ↦ (
          unused,
          expired p g (same ∙ named) new (
              on_dead (ap (λ (x : Flight). x.stage) h_f ∙ (holding_flight p f named here).1)
                (ap flight_count h_f ∙ dead)),
          stays,
        )
      ]
      go a (awaited p f named here busy) = elim (now p f here) [
        | inr kept ↦ (loads, awaited p f (same ∙ named) kept busy, stays)
        | inl (_, h_f, new) ↦ elim (on_busy (ap (λ (x : Flight). x.loader) h_f ∙ busy)) [
          | inl still ↦ (loads, awaited p g (same ∙ named) new still, stays)
          | inr gone ↦ (poisoned, left p g (same ∙ named) new gone, throws)
        ]
      ]
      go a (held p f named here alive) = elim (now p f here) [
        | inr kept ↦ (lives, held p f (same ∙ named) kept alive, stays)
        | inl (_, h_f, new) ↦ elim (zero-cases (flight_count g)) [
          | inl dead ↦ (unused, expired p g (same ∙ named) new dead, expires)
          | inr still ↦ (lives, held p g (same ∙ named) new still, stays)
        ]
      ]
      go a (left p f named here gone) = elim (now p f here) [
        | inr kept ↦ (poisoned, left p f (same ∙ named) kept gone, stays)
        | inl (_, h_f, new) ↦ (
          poisoned,
          left p g (same ∙ named) new (on_gone (ap (λ (x : Flight). x.stage) h_f ∙ gone)),
          stays,
        )
      ]
