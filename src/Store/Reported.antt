-- ===== src/Store/Reported.antt =====
-- src/session_store.cpp, `loaded`, between any two critical sections: what the number of handles counts.
use cyborgdb_embed.Prelude.{
  ℕ, ◌+◌, ◌≡◌, refl, sym, ap, ◌∙◌, inl, inr, true, false, List, Option, none, some, ltb,
  if◌then◌else◌, Bool-cases,
}
use mathlib.Core.List.{Memᴰ}
use cyborgdb_embed.Config.{CacheConfig}
use cyborgdb_embed.Store.{Key, Entry, find, LoadedModel, loaded_models}
use cyborgdb_embed.Store.World.{
  made, Flight, flight_count, stage_count, use_count, World, Event, run, start,
}
use cyborgdb_embed.Store.Changes.{WorldInv, some_injective, none-some}
use cyborgdb_embed.Store.Order.{is_increasing, find_mem}
use cyborgdb_embed.Store.Ordered.{entries_increase}
use cyborgdb_embed.Store.Reachable.{run-Inv, start-Inv}
use cyborgdb_embed.Store.Steps.{lock-some}
use cyborgdb_embed.Store.Listed.{listed-From}

-- The load of a session that is listed, with its references.
pub record Reported (w : World) (l : LoadedModel) : Type 0 where
  pub load : ℕ
  pub flight : Flight
  pub here : w.flights load ≡ some flight
  pub same_key : flight.key ≡ l.key
  pub is_made : flight.stage ≡ made
  pub idle : flight.loader ≡ false
  pub counts : l.handles ≡ flight.handles + (if ltb 0 flight.waiters then 1 else 0)

published_count :
    (f : Flight)
    → f.stage ≡ made
    → f.loader ≡ false
    → stage_count f.stage f.loader f.waiters ≡ (if ltb 0 f.waiters then 1 else 0)
published_count f is idle = rw (is, idle) refl

module _ (w : World) (v : WorldInv w) (ordered : is_increasing w.store.entries ≡ true) where
  -- A session that an entry names was published.
  published :
      (k : Key) (e : Entry) (p : ℕ) (f : Flight)
      → find k w.store.entries ≡ some e
      → e.session ≡ some p
      → w.flights p ≡ some f
      → f.key ≡ k
      → f.loader ≡ false
  published k e p f found named here key = elim (Bool-cases f.loader) [
    | inr idle ↦ idle
    | inl busy ↦
        let pending =
          sym found
          ∙ ap (λ x. find x w.store.entries) (sym key)
          ∙ (v.each_flight p f here).while_loading busy in
        absurd (none-some (sym (ap (λ (x : Entry). x.session) (some_injective pending)) ∙ named))
  ]

  reported :
      (l : LoadedModel)
      → Memᴰ l (loaded_models (use_count w.flights) w.store.entries)
      → Reported w l
  reported l there =
      let r = listed-From (use_count w.flights) w.store.entries l there in
      let found = find_mem l.key r.entry w.store.entries ordered r.is_entry in
      let (named, _) = lock-some w.flights r.entry.session r.load r.locked in
      let (f, here, key, is) = (v.each_entry l.key r.entry found).of_session r.load named in
      let idle = published l.key r.entry r.load f found named here key in
      record {
        load = r.load;
        flight = f;
        here = here;
        same_key = key;
        is_made = is;
        idle = idle;
        counts =
            r.counted
            ∙ ap (λ (o : Option Flight). elim o [ none ↦ 0 | some g ↦ flight_count g ]) here
            ∙ ap (λ n. f.handles + n) (published_count f is idle);
      }

-- After any events, each session that `loaded` lists was published for its key, and the number of
-- handles is that of the session's handles, and one more while a call that waited on the load has yet to
-- take its session.
pub loaded_counts :
    (config : CacheConfig) (events : List Event) (l : LoadedModel)
    → Memᴰ l (
        loaded_models
          (use_count (run (start config) events).flights)
          (run (start config) events).store.entries)
    → Reported (run (start config) events) l
loaded_counts config events =
    reported (run (start config) events) (run-Inv events (start config) (start-Inv config))
      (entries_increase config events)
