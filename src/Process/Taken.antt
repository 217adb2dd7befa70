-- ===== src/Process/Taken.antt =====
-- src/session_store.cpp, `acquire`, as src/embed.cpp calls it: what it leaves behind, and that it does so
-- where it reuses a session.
use cyborgdb_embed.Prelude.{
  ℕ, ◌+◌, ◌<◌, ◌≡◌, refl, sym, ap, subst, ◌∙◌, false, Option, none, some, write, write_hit,
  write_miss, arith,
}
use cyborgdb_embed.Status.{success, Status, Ending, ends, throws, ended_well}
use cyborgdb_embed.Prelude.{◌⊎◌}
use cyborgdb_embed.Store.Poisoned.{IsPoisoned}
use cyborgdb_embed.Float.{Float}
use cyborgdb_embed.Registry.{RegistryEntry, precision_available}
use cyborgdb_embed.Session.Loader.{Loader}
use cyborgdb_embed.Tokenizer.Shim.{Library}
use cyborgdb_embed.Session.Load.{no_precision}
use cyborgdb_embed.Store.{Key, Store, reuse}
use cyborgdb_embed.Store.World.{made, Flight, put, session, decided}
use cyborgdb_embed.Store.Invariant.{write_cases}
use cyborgdb_embed.Store.Branches.{at_found}
use cyborgdb_embed.Store.Ordered.{Sound}
use cyborgdb_embed.Store.Changes.{true-false}
use cyborgdb_embed.Process.{Options, key_of, Process, answer, continue}
use cyborgdb_embed.Process.Counts.{handles_of, handles_here, handles_found}
use cyborgdb_embed.Process.Counts.Handles.{take-Counted}
use cyborgdb_embed.Process.Quiet.{Settled, Counts, Quiet, change-Calm, change_freed}

pub ends_throws : {s : Status} → ends s ≡ throws → ⊥
ends_throws e = cc

module _ (fl : Float) (lib : Library) (loader : Loader fl lib) where
  abbrev Proc : Type 0
  Proc = Process fl lib loader

  -- A failure or an exception without a session, or a session that was made for the key and is held.
  unfoldable pub Got : Proc → Key → Ending → Option ℕ → Type 0
  Got P key ending none = ended_well ending ≡ false
  Got P key ending (some p) =
      (ending ≡ ends success)
      × (f : Flight) × (P.world.flights p ≡ some f)
      × (f.key ≡ key)
      × (f.stage ≡ made)
      × (0 < f.handles)

  -- What holds after `acquire`: it left the embedders alone, and without a success every session.
  pub record Taken (before : Proc) (key : Key) (r : Ending × Option ℕ × Proc) : Type 0 where
    pub settled : Settled fl lib loader r.2
    pub counted : Counts fl lib loader r.2 none r.1
    pub got : Got r.2 key r.0 r.1
    pub same_embedders : r.2.embedders ≡ before.embedders
    pub same_impls : r.2.impls ≡ before.impls
    pub same_next : r.2.next_impl ≡ before.next_impl
    pub same_sessions : ended_well r.0 ≡ false → (j : ℕ) → r.2.sessions j ≡ before.sessions j
    pub poisons :
        r.0 ≡ throws
        → (r.2.world.store.loaded ≡ before.world.store.loaded)
          ⊎ IsPoisoned key before.world.next r.2.world
    pub refuses :
        precision_available key.model key.precision ≡ false
        → (r.0 ≡ ends no_precision) × (r.2.host ≡ before.host)

  module _ (P : Proc) (q : Quiet fl lib loader P) (entry : RegistryEntry) (options : Options) where
    abbrev key : Key
    key = key_of entry options

    -- The session lives: it gets one handle more.
    abbrev pub reused : Store → ℕ → Flight → Proc
    reused store p f = record P {
      world = put (record P.world { store = store }) p (record f { handles = f.handles + 1 });
    }

    decided_reuse :
        (store : Store) (p : ℕ) (f : Flight)
        → P.world.flights p ≡ some f
        → decided P.world key (store, reuse p) ≡ ((reused store p f).world, session p)
    unfolding decided
    decided_reuse store p f here =
        at_found (record P.world { store = store }) p f
          (λ h. (
            put (record P.world { store = store }) p (record h { handles = h.handles + 1 }),
            session p,
          ))
          here

    pub reuse_returns :
        (store : Store) (p : ℕ) (f : Flight)
        → P.world.flights p ≡ some f
        → continue fl lib loader entry options P (store, reuse p)
          ≡ some (ends success, some p, reused store p f)
    unfolding continue answer
    reuse_returns store p f here =
        ap (λ r. answer fl lib loader (record P { world = r.0 }) r.1) (decided_reuse store p f here)

    pub reuse-Taken :
        (store : Store) (p : ℕ) (f : Flight)
        → Sound (decided P.world key (store, reuse p)).0
        → P.world.flights p ≡ some f
        → f.key ≡ key
        → f.stage ≡ made
        → 0 < f.handles
        → Taken P key (ends success, some p, reused store p f)
    unfolding Got
    reuse-Taken store p f inv here same is held =
        let g = record f { handles = f.handles + 1 } in
        let c = q.settled.calm p f here in
        let later = write P.world.flights p (some g) in
        let more : handles_of later p ≡ handles_of P.world.flights p + 1 =
          handles_here P.world.flights p g
          ∙ ap (λ n. n + 1) (sym (handles_found P.world.flights p f here)) in
        record {
          settled = record {
            sound = subst Sound (ap (λ r. r.0) (decided_reuse store p f here)) inv;
            calm =
                change-Calm fl lib P.world.flights later P.sessions P.sessions p g
                  (λ j h there. write_cases P.world.flights p j g h there) (λ j _. refl)
                  q.settled.calm
                  (record {
                    idle = c.idle;
                    alone = c.alone;
                    broken_fits = c.broken_fits;
                    kept = λ is _. c.kept is held;
                  });
            freed =
                change_freed fl lib P.world.flights later P.sessions P.sessions p
                  (λ j ne. write_miss P.world.flights p j (some g) ne) (λ j _. refl) q.settled.freed
                  (λ none_left. absurd (omega arith));
          };
          counted =
              take-Counted later p more (λ j ne. write_miss P.world.flights p j (some g) ne)
                q.counted;
          got = (refl, g, write_hit P.world.flights p (some g), same, is, omega arith);
          same_embedders = refl;
          same_impls = refl;
          same_next = refl;
          same_sessions = λ _ _. refl;
          poisons = λ e. absurd (ends_throws e);
          refuses = λ lacking.
              let (s, _, fits) = c.kept is held in
              absurd (
                true-false (
                  sym fits.available
                  ∙ ap (λ (k : Key). precision_available k.model k.precision) same
                  ∙ lacking));
        }
