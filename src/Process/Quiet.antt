-- ===== src/Process/Quiet.antt =====
-- src/embed.cpp with src/session_store.cpp: what holds between two calls of a program whose calls
-- follow one another.
use cyborgdb_embed.Prelude.{
  ℕ, ◌<◌, ◌≡◌, ◌≢◌, sym, ap, subst, ◌∙◌, ◌⊎◌, inl, inr, true, false, Option, none, some, Memory,
}
use cyborgdb_embed.Float.{Float}
use cyborgdb_embed.Registry.{precision_available}
use cyborgdb_embed.Registry.Lookup.{find}
use cyborgdb_embed.Session.Loader.{Loader}
use cyborgdb_embed.Tokenizer.Shim.{Library}
use cyborgdb_embed.Session.{Session}
use cyborgdb_embed.Store.{Key}
use cyborgdb_embed.Store.World.{made, broken, Flight, Flights}
use cyborgdb_embed.Store.Ordered.{Sound}
use cyborgdb_embed.Process.{Process}
use cyborgdb_embed.Process.Counts.{handles_of, option_handles, Counted, at_or_else}

module _ (fl : Float) (lib : Library) where
  -- A session that may answer for a key: of the key's model as the registry has it.
  pub record Fits (key : Key) (s : Session fl lib) : Type 0 where
    pub same_entry : find key.model ≡ some s.entry
    pub same_provider : s.provider ≡ key.provider
    pub same_precision : s.precision ≡ key.precision
    pub available : precision_available key.model key.precision ≡ true

  -- No call loads or waits, only a load of a precision that is available has thrown, and a session
  -- that was made and has a handle is kept.
  pub record Calm (sessions : Memory (Option (Session fl lib))) (p : ℕ) (f : Flight) : Type 0 where
    pub idle : f.loader ≡ false
    pub alone : f.waiters ≡ 0
    pub broken_fits : f.stage ≡ broken → precision_available f.key.model f.key.precision ≡ true
    pub kept :
        f.stage ≡ made → 0 < f.handles → (s : Session fl lib) × (sessions p ≡ some s) × Fits f.key s

  module _ (loader : Loader fl lib) where
    -- Between two changes of the store and the sessions: a session without a handle is freed.
    pub record Settled (P : Process fl lib loader) : Type 0 where
      pub sound : Sound P.world
      pub calm : (p : ℕ) (f : Flight) → P.world.flights p ≡ some f → Calm P.sessions p f
      pub freed : (p : ℕ) → handles_of P.world.flights p ≡ 0 → P.sessions p ≡ none

    -- The counts of a process, with the references in hand.
    abbrev pub Counts : Process fl lib loader → Option ℕ → Option ℕ → Type 0
    Counts P owner holder = Counted P.embedders P.impls P.next_impl P.world.flights owner holder

    -- Between two calls.
    pub record Quiet (P : Process fl lib loader) : Type 0 where
      pub settled : Settled P
      pub counted : Counts P none none

  -- The flights after a change at `p`, and the sessions, are as before elsewhere.
  pub change-Calm :
      (flights later : Flights) (sessions kept : Memory (Option (Session fl lib))) (p : ℕ)
      (g : Flight)
      → ((q : ℕ) (h : Flight)
          → later q ≡ some h
          → (p ≡ q) × (g ≡ h) ⊎ (p ≢ q) × (flights q ≡ some h))
      → ((q : ℕ) → p ≢ q → kept q ≡ sessions q)
      → ((q : ℕ) (h : Flight) → flights q ≡ some h → Calm sessions q h)
      → Calm kept p g
      → (q : ℕ) (h : Flight) → later q ≡ some h
      → Calm kept q h
  change-Calm flights later sessions kept p g cases elsewhere calm here q h there =
      elim (cases q h there) [
        | inl (same, g_h) ↦ subst (λ r. Calm kept r h) same (subst (Calm kept p) g_h here)
        | inr (other, old) ↦
            let c = calm q h old in
            record {
              idle = c.idle;
              alone = c.alone;
              broken_fits = c.broken_fits;
              kept = λ is held.
                  let (s, found, fits) = c.kept is held in (s, elsewhere q other ∙ found, fits);
            }
      ]

  -- The sessions without a handle stay freed, where only `p` changes.
  pub change_freed :
      (flights later : Flights) (sessions kept : Memory (Option (Session fl lib))) (p : ℕ)
      → ((q : ℕ) → p ≢ q → later q ≡ flights q)
      → ((q : ℕ) → p ≢ q → kept q ≡ sessions q)
      → ((q : ℕ) → handles_of flights q ≡ 0 → sessions q ≡ none)
      → (handles_of later p ≡ 0 → kept p ≡ none)
      → (q : ℕ) → handles_of later q ≡ 0
      → kept q ≡ none
  unfolding handles_of
  change_freed flights later sessions kept p same elsewhere freed here =
      at_or_else (λ q. handles_of later q ≡ 0 → kept q ≡ none) p here
        (λ q ne e. elsewhere q ne ∙ freed q (ap option_handles (sym (same q ne)) ∙ e))
