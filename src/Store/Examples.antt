-- ===== src/Store/Examples.antt =====
-- src/session_store.cpp on short histories of one process.
use cyborgdb_embed.Prelude.{
  ℕ, ◌+◌, ◌≡◌, ◌≢◌, refl, subst, Bool-cases, ◌==◌, Option, none, inl, inr, true, false, List, [],
  ◌∷◌, some, write, codes, arith,
}
use cyborgdb_embed.Config.{CacheConfig}
use cyborgdb_embed.Registry.{
  rank, provider_rank, precision_rank, cpu, fp32, int8, all_mini_lm_l6_v2, e5_small_v2,
}
use cyborgdb_embed.Status.{download_failed}
use cyborgdb_embed.Store.{Key, key_eq, insert, end_acquire}
use mathlib.Core.List.Memᴰ
use cyborgdb_embed.Store.{LoadedModel, loaded_models}
use cyborgdb_embed.Store.Reported.{Reported, loaded_counts}
use cyborgdb_embed.Store.World.{
  made, broken, failed, Flight, new_flight, Event, called, finished, published, dropped, built,
  refused, nothing, session, step, run, start,
}
use cyborgdb_embed.Store.Invariant.{in_flight}
use cyborgdb_embed.Store.World.{World, threw, woken, raised}
use cyborgdb_embed.Store.Poison.{thrown_forever}
use cyborgdb_embed.Store.Lifecycle.{Lifecycle, IsAt, HasMoved}
use cyborgdb_embed.Store.Refinement.{step_refines}
use cyborgdb_embed.Store.Sessions.{IsInUse, one_flight, call_reuses, call_loads}

abbrev mini_key : Key
mini_key = record { model = all_mini_lm_l6_v2; provider = cpu; precision = fp32 }

abbrev small_key : Key
small_key = record { model = e5_small_v2; provider = cpu; precision = int8 }

abbrev cached : CacheConfig
cached = record { cache_dir = codes "/tmp/models"; endpoint = codes ""; offline = false }

-- Two calls for one key: the first loads and publishes, the second waits.
abbrev loaded_once : List Event
loaded_once = called mini_key ∷ called mini_key ∷ finished 0 built ∷ published 0 ∷ []

abbrev loaded_flight : Flight
loaded_flight = record (new_flight mini_key cached) {
  stage = made;
  loader = false;
  waiters = 1;
  handles = 1;
}

-- The only handle goes away, and the next call loads again.
abbrev loaded_again : List Event
loaded_again =
    called mini_key
    ∷ finished 0 built
    ∷ published 0
    ∷ dropped 0
    ∷ called mini_key
    ∷ finished 1 built
    ∷ published 1
    ∷ []

abbrev second_flight : Flight
second_flight = record (new_flight mini_key cached) { stage = made; loader = false; handles = 1 }

one_flight_example : ◌≡◌ {A = ℕ} 1 1
unfolding run key_eq write end_acquire rank provider_rank precision_rank
one_flight_example =
    one_flight cached loaded_again 1 1 second_flight second_flight refl refl refl
      (inr (omega arith)) (inr (omega arith))

call_reuses_example : step (run (start cached) loaded_once) (called mini_key) ≡ (
  record (run (start cached) loaded_once) {
    store = record (run (start cached) loaded_once).store {
      shared = (run (start cached) loaded_once).store.shared + 1;
    };
    flights =
        write
          (run (start cached) loaded_once).flights
          0
          (some (record loaded_flight { handles = 2 }));
  },
  session 0,
)
unfolding run key_eq write end_acquire rank provider_rank precision_rank
call_reuses_example = call_reuses cached loaded_once 0 loaded_flight refl refl (omega arith)

-- A first load is refused, and nobody waits.
abbrev refused_once : List Event
refused_once =
    called mini_key
    ∷ finished 0 (refused (record { code = download_failed; message = codes "" }))
    ∷ published 0
    ∷ []

abbrev refused_flight : Flight
refused_flight = record (new_flight mini_key cached) {
  stage = failed (record { code = download_failed; message = codes "" });
  loader = false;
}

some_flight : {f g : Flight} → ◌≡◌ {A = Option Flight} (some f) (some g) → f ≡ g
some_flight e = cc

none_flight : {f : Flight} → ◌≡◌ {A = Option Flight} none (some f) → ⊥
none_flight e = cc

only_flight :
    (q : ℕ) (h : Flight) → (run (start cached) refused_once).flights q ≡ some h → refused_flight ≡ h
unfolding run key_eq write end_acquire rank provider_rank precision_rank
only_flight q h e = elim (Bool-cases (0 == q)) [
  | inl same ↦ some_flight (rw same at e)
  | inr other ↦ absurd (none_flight (rw other at e))
]

refused_free : ¬ IsInUse refused_flight × (refused_flight.stage ≢ broken)
refused_free =
    (λ used. elim used [ inl busy ↦ apart busy | inr lives ↦ omega (arith, lives) ], λ e. cc)
  where
    apart : false ≡ true → ⊥
    apart e = cc

call_loads_example : step (run (start cached) refused_once) (called mini_key) ≡ (
  record {
    store = record (run (start cached) refused_once).store {
      entries = insert mini_key (in_flight 1) (run (start cached) refused_once).store.entries;
      loaded = 2;
    };
    flights = write (run (start cached) refused_once).flights 1 (some (new_flight mini_key cached));
    next = 2;
  },
  nothing,
)
unfolding run key_eq write end_acquire rank provider_rank precision_rank
call_loads_example = call_loads cached refused_once mini_key (λ q h there _.
    subst (λ f. ¬ IsInUse f × (f.stage ≢ broken)) (only_flight q h there) refused_free)

-- The first load throws; the next call throws as well, and so does the one after it.
abbrev called_once : List Event
called_once = called mini_key ∷ []

abbrev after_throw : World
after_throw =
    run (step (run (start cached) called_once) (finished 0 threw)).0
      (called mini_key ∷ woken 0 ∷ [])

thrown_forever_example :
    ((step after_throw (called mini_key)).0.store.loaded ≡ after_throw.store.loaded)
    × ((step (step after_throw (called mini_key)).0 (woken 0)).1 ≡ raised)
unfolding run key_eq write end_acquire rank provider_rank precision_rank
thrown_forever_example =
    thrown_forever cached called_once 0 (new_flight mini_key cached)
      (called mini_key ∷ woken 0 ∷ []) refl refl

-- A call for a key that is live.
step_refines_example :
    (a : Lifecycle) × IsAt (run (start cached) loaded_once) mini_key a
    × HasMoved (step (run (start cached) loaded_once) (called mini_key)).0 mini_key a
step_refines_example = step_refines cached loaded_once mini_key (called mini_key)

-- A session with one handle is listed with two: the second call has yet to take it.
abbrev waited_for : LoadedModel
waited_for = record { key = mini_key; handles = 2 }

loaded_counts_example : Reported (run (start cached) loaded_once) waited_for
unfolding run key_eq write end_acquire loaded_models rank provider_rank precision_rank
loaded_counts_example = loaded_counts cached loaded_once waited_for (Memᴰ.head refl)
