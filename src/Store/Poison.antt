-- ===== src/Store/Poison.antt =====
-- src/session_store.cpp, `acquire`: what is left of a load that throws. The promise dies without a
-- value, and the entry keeps its future.
use cyborgdb_embed.Prelude.{
  ℕ, ◌+◌, ◌≡◌, refl, sym, ap, subst, ◌∙◌, true, false, List, [], ◌∷◌, some, ltb, write_hit, arith,
}
use cyborgdb_embed.Config.{CacheConfig}
use cyborgdb_embed.Store.{Key}
use cyborgdb_embed.Store.World.{
  loading, broken, Flight, is_live, World, put, threw, Event, called, finished, woken, nothing,
  raised, decided, finish_flight, wake_flight, step, run, start,
}
use cyborgdb_embed.Store.Invariant.{in_flight}
use cyborgdb_embed.Store.Branches.{visit_pending, begin_found, at_found}
use cyborgdb_embed.Store.Changes.{WorldInv}
use cyborgdb_embed.Store.Reachable.{step-Inv, run-Inv, start-Inv}
use cyborgdb_embed.Store.Poisoned.{IsPoisoned, step-IsPoisoned}

broken_raises :
    (w : World) (q : ℕ) (h : Flight)
    → h.stage ≡ broken
    → ltb 0 h.waiters ≡ true
    → (wake_flight w q h h.stage).1 ≡ raised
unfolding wake_flight
broken_raises w q h is waits = rw (is, waits) refl

module _ (k : Key) (p : ℕ) (w : World) (d : IsPoisoned k p w) where
  -- A call that comes upon the entry waits, and is woken by the broken promise.
  called_raises :
      (step w (called k) ≡ (
        put
            (record w { store = record w.store { shared = w.store.shared + 1 } })
            p
            (record d.flight { waiters = d.flight.waiters + 1 }),
        nothing,
      ))
      × ((step (step w (called k)).0 (woken p)).1 ≡ raised)
  unfolding step decided wake_flight
  called_raises =
      let shared = record w { store = record w.store { shared = w.store.shared + 1 } } in
      let g = record d.flight { waiters = d.flight.waiters + 1 } in
      let waits =
        ap (decided w k) (
          begin_found (is_live w.flights) k w.next w.store (in_flight p) d.pending
          ∙ visit_pending (is_live w.flights) k w.next w.store (in_flight p) p refl refl)
        ∙ at_found shared p d.flight
            (λ h. (put shared p (record h { waiters = h.waiters + 1 }), nothing)) d.here in
      (
        waits,
        ap (λ x. (step x.0 (woken p)).1) waits
            ∙ ap (λ x. x.1)
                (at_found (put shared p g) p g (λ h. wake_flight (put shared p g) p h h.stage)
                  (write_hit w.flights p (some g)))
            ∙ broken_raises (put shared p g) p g d.stage (ground arith),
      )

run-IsPoisoned :
    (events : List Event) (k : Key) (p : ℕ) (w : World)
    → WorldInv w
    → IsPoisoned k p w
    → IsPoisoned k p (run w events)
unfolding run
run-IsPoisoned [] k p w v d = d
run-IsPoisoned (e ∷ es) k p w v d =
    run-IsPoisoned es k p (step w e).0 (step-Inv w v e) (step-IsPoisoned k p w d v e)

pub thrown-IsPoisoned :
    (w : World) (p : ℕ) (f : Flight)
    → WorldInv w
    → w.flights p ≡ some f
    → f.stage ≡ loading
    → IsPoisoned f.key p (step w (finished p threw)).0
unfolding step finish_flight
thrown-IsPoisoned w p f v here is =
    let g = record f { stage = broken; loader = false } in
    let e : (step w (finished p threw)).0 ≡ put w p g =
      ap (λ r. r.0) (at_found w p f (λ h. finish_flight w p h h.stage threw) here)
      ∙ ap (λ s. (finish_flight w p f s threw).0) is in
    let ok = v.each_flight p f here in
    subst (IsPoisoned f.key p) (sym e) (record {
      flight = g;
      here = write_hit w.flights p (some g);
      stage = refl;
      pending = ok.while_loading (ok.has_loader is);
    })

module _ (config : CacheConfig) (events : List Event) where
  abbrev reached : World
  reached = run (start config) events

  -- If a load throws, then after any later events a call for its key starts no load: it waits on the
  -- promise that the load left behind, and when it wakes it throws too. The key stays out of use for
  -- the rest of the process.
  pub thrown_forever :
      (p : ℕ) (f : Flight) (later : List Event)
      → reached.flights p ≡ some f
      → f.stage ≡ loading
      → ((step (run (step reached (finished p threw)).0 later) (called f.key)).0.store.loaded
          ≡ (run (step reached (finished p threw)).0 later).store.loaded)
        × ((step
              (step (run (step reached (finished p threw)).0 later) (called f.key)).0
              (woken p)).1
            ≡ raised)
  thrown_forever p f later here is =
      let v = run-Inv events (start config) (start-Inv config) in
      let w = (step reached (finished p threw)).0 in
      let v' = step-Inv reached v (finished p threw) in
      let d = run-IsPoisoned later f.key p w v' (thrown-IsPoisoned reached p f v here is) in
      let (waits, raises) = called_raises f.key p (run w later) d in
      (ap (λ r. r.0.store.loaded) waits, raises)
