-- ===== src/Store/Alone.antt =====
-- src/session_store.cpp, `acquire`: a load that no other call interleaves with, from the return of
-- `load_session` to that of `acquire`.
use cyborgdb_embed.Prelude.{
  ℕ, ◌+◌, ◌-◌, refl, lt→ltb, arith, ◌≡◌, ap, ◌∙◌, true, false, some, write_hit,
}
use cyborgdb_embed.Status.{Status}
use cyborgdb_embed.Config.{CacheConfig}
use cyborgdb_embed.Store.{Key, Store, wait, end_acquire}
use cyborgdb_embed.Store.World.{
  made, failed, broken, Flight, threw, woken, Reply, raised, nothing, decided, wake_flight, World,
  put, new_flight, built, refused, finished, published, session, error, finish_flight,
  publish_flight, step,
}
use cyborgdb_embed.Store.Branches.{at_found}

module _ (w : World) (p : ℕ) (key : Key) (config : CacheConfig)
    (here : w.flights p ≡ some (new_flight key config)) where
  finish_built :
      (step w (finished p built)).0 ≡ put w p (record (new_flight key config) { stage = made })
  unfolding step finish_flight
  finish_built =
      ap (λ r. r.0)
        (at_found w p (new_flight key config) (λ f. finish_flight w p f f.stage built) here)

  finish_refused :
      (s : Status)
      → (step w (finished p (refused s))).0
        ≡ put w p (record (new_flight key config) { stage = failed s })
  unfolding step finish_flight
  finish_refused s =
      ap (λ r. r.0)
        (at_found w p (new_flight key config) (λ f. finish_flight w p f f.stage (refused s)) here)

  pub load_built : step (step w (finished p built)).0 (published p) ≡ (
    put
        (record (put w p (record (new_flight key config) { stage = made })) {
          store = end_acquire key p true w.store;
        })
        p
        (record (new_flight key config) { stage = made; loader = false; handles = 1 }),
    session p,
  )
  unfolding step publish_flight
  load_built =
      let f = record (new_flight key config) { stage = made } in
      ap (λ w'. step w' (published p)) finish_built
      ∙ at_found (put w p f) p f (λ g. publish_flight (put w p f) p g g.stage g.loader)
          (write_hit w.flights p (some f))

  pub load_refused :
      (s : Status)
      → step (step w (finished p (refused s))).0 (published p) ≡ (
        put
            (record (put w p (record (new_flight key config) { stage = failed s })) {
              store = end_acquire key p false w.store;
            })
            p
            (record (new_flight key config) { stage = failed s; loader = false }),
        error s,
      )
  unfolding step publish_flight
  load_refused s =
      let f = record (new_flight key config) { stage = failed s } in
      ap (λ w'. step w' (published p)) (finish_refused s)
      ∙ at_found (put w p f) p f (λ g. publish_flight (put w p f) p g g.stage g.loader)
          (write_hit w.flights p (some f))

  -- The load throws: the promise goes without a value, and nothing is published.
  pub load_threw :
      step w (finished p threw)
      ≡ (put w p (record (new_flight key config) { stage = broken; loader = false }), raised)
  unfolding step finish_flight
  load_threw = at_found w p (new_flight key config) (λ f. finish_flight w p f f.stage threw) here

-- A call that waits on a load that has thrown, and that no other call waits on.
pub wait_raised :
    (w : World) (key : Key) (store : Store) (p : ℕ) (f : Flight)
    → w.flights p ≡ some f
    → f.stage ≡ broken
    → step (decided w key (store, wait p)).0 (woken p) ≡ (
      put
          (put (record w { store = store }) p (record f { waiters = f.waiters + 1 }))
          p
          (record f { waiters = f.waiters + 1 - 1 }),
      raised,
    )
unfolding step decided wake_flight
wait_raised w key store p f here is =
    let w' = record w { store = store } in
    let g = record f { waiters = f.waiters + 1 } in
    ap (λ (r : World × Reply). step r.0 (woken p))
      (at_found w' p f (λ h. (put w' p (record h { waiters = h.waiters + 1 }), nothing)) here)
    ∙ at_found (put w' p g) p g (λ h. wake_flight (put w' p g) p h h.stage)
        (write_hit w.flights p (some g))
    ∙ ap (λ stage. wake_flight (put w' p g) p g stage) is
    ∙ rw (lt→ltb 0 (f.waiters + 1) (omega arith)) refl
