-- ===== src/Store/Ordered.antt =====
-- src/session_store.cpp: the entries stand in the order of their keys, each key once, whatever the calls
-- do.
use cyborgdb_embed.Prelude.{
  ℕ, ◌≡◌, refl, sym, subst, inl, inr, Bool, true, false, List, [], ◌∷◌, ltb, Bool-cases,
  Option-cases,
}
use cyborgdb_embed.Config.{CacheConfig}
use cyborgdb_embed.Store.{
  Key, Entry, Store, find, Decision, reuse, wait, load, lock, configure, begin_acquire, visit_entry,
  start_load, end_acquire,
}
use cyborgdb_embed.Store.World.{
  Stage, loading, made, broken, failed, Flight, World, Outcome, built, threw, refused, Event,
  configured, called, finished, published, woken, dropped, Reply, decided, at_flight, finish_flight,
  publish_flight, wake_flight, drop_flight, is_live, step, run, start,
}
use cyborgdb_embed.Store.Branches.{
  at_found, at_none, visit_locked, visit_pending, visit_stale, begin_found, begin_absent,
}
use cyborgdb_embed.Store.Order.{is_increasing, is_increasing-insert, is_increasing-erase}
use cyborgdb_embed.Store.Changes.{WorldInv}
use cyborgdb_embed.Store.Reachable.{step-Inv}

abbrev IsIncreasing : World → Type 0
IsIncreasing w = is_increasing w.store.entries ≡ true

end-IsIncreasing :
    (key : Key) (p : ℕ) (ok : Bool) (store : Store)
    → is_increasing store.entries ≡ true
    → is_increasing (end_acquire key p ok store).entries ≡ true
unfolding end_acquire
end-IsIncreasing key p ok store h = elim (Option-cases (find key store.entries)) [
  | inl absent ↦ rw (end_acquire, absent) h
  | inr (e, found) ↦ elim (Bool-cases ok) [
    | inl fine ↦ rw (end_acquire, found, fine) (is_increasing-insert key _ store.entries h)
    | inr bad ↦ rw (end_acquire, found, bad) (is_increasing-erase key store.entries h)
  ]
]

visit-IsIncreasing :
    (live : ℕ → Bool) (key : Key) (fresh : ℕ) (store : Store) (e : Entry)
    → is_increasing store.entries ≡ true
    → is_increasing (visit_entry live key fresh store e).0.entries ≡ true
unfolding visit_entry start_load
visit-IsIncreasing live key fresh store e h = elim (Option-cases (lock live e.session)) [
  | inr (s, locked) ↦ rw (visit_locked live key fresh store e s locked) h
  | inl dead ↦ elim (Option-cases e.pending) [
    | inr (p, awaits) ↦ rw (visit_pending live key fresh store e p dead awaits) h
    | inl idle ↦
        rw (visit_stale live key fresh store e dead idle)
          (is_increasing-insert key _ store.entries h)
  ]
]

begin-IsIncreasing :
    (live : ℕ → Bool) (key : Key) (fresh : ℕ) (store : Store)
    → is_increasing store.entries ≡ true
    → is_increasing (begin_acquire live key fresh store).0.entries ≡ true
unfolding begin_acquire start_load
begin-IsIncreasing live key fresh store h = elim (Option-cases (find key store.entries)) [
  | inl absent ↦
      rw (begin_absent live key fresh store absent) (is_increasing-insert key _ store.entries h)
  | inr (e, found) ↦
      rw (begin_found live key fresh store e found) (visit-IsIncreasing live key fresh store e h)
]

-- A change to a flight, if there is one.
at_flight-IsIncreasing :
    (w : World) (p : ℕ) (change : Flight → World × Reply)
    → IsIncreasing w
    → ((f : Flight) → IsIncreasing (change f).0)
    → IsIncreasing (at_flight w p change).0
at_flight-IsIncreasing w p change h each = elim (Option-cases (w.flights p)) [
  | inl gone ↦ subst (λ r. IsIncreasing r.0) (sym (at_none w p change gone)) h
  | inr (f, here) ↦ subst (λ r. IsIncreasing r.0) (sym (at_found w p f change here)) (each f)
]

decided-IsIncreasing :
    (w : World) (key : Key) (store : Store) (d : Decision)
    → is_increasing store.entries ≡ true
    → IsIncreasing (decided w key (store, d)).0
unfolding decided
decided-IsIncreasing w key store (reuse p) h =
    at_flight-IsIncreasing (record w { store = store }) p _ h (λ f. h)
decided-IsIncreasing w key store (wait p) h =
    at_flight-IsIncreasing (record w { store = store }) p _ h (λ f. h)
decided-IsIncreasing w key store (load config) h = h

module _ (w : World) (h : IsIncreasing w) (p : ℕ) (f : Flight) where
  finish-IsIncreasing :
      (stage : Stage) (outcome : Outcome) → IsIncreasing (finish_flight w p f stage outcome).0
  unfolding finish_flight
  finish-IsIncreasing loading built = h
  finish-IsIncreasing loading (refused s) = h
  finish-IsIncreasing loading threw = h
  finish-IsIncreasing made outcome = h
  finish-IsIncreasing broken outcome = h
  finish-IsIncreasing (failed s) outcome = h

  publish-IsIncreasing :
      (stage : Stage) (busy : Bool) → IsIncreasing (publish_flight w p f stage busy).0
  unfolding publish_flight
  publish-IsIncreasing made true = end-IsIncreasing f.key p true w.store h
  publish-IsIncreasing (failed s) true = end-IsIncreasing f.key p false w.store h
  publish-IsIncreasing loading true = h
  publish-IsIncreasing broken true = h
  publish-IsIncreasing loading false = h
  publish-IsIncreasing made false = h
  publish-IsIncreasing broken false = h
  publish-IsIncreasing (failed s) false = h

  wake-IsIncreasing : (stage : Stage) → IsIncreasing (wake_flight w p f stage).0
  unfolding wake_flight
  wake-IsIncreasing made = elim (Bool-cases (ltb 0 f.waiters)) [
    | inl some_wait ↦ rw some_wait h
    | inr nobody ↦ rw nobody h
  ]
  wake-IsIncreasing (failed s) = elim (Bool-cases (ltb 0 f.waiters)) [
    | inl some_wait ↦ rw some_wait h
    | inr nobody ↦ rw nobody h
  ]
  wake-IsIncreasing broken = elim (Bool-cases (ltb 0 f.waiters)) [
    | inl some_wait ↦ rw some_wait h
    | inr nobody ↦ rw nobody h
  ]
  wake-IsIncreasing loading = h

  drop-IsIncreasing : IsIncreasing (drop_flight w p f).0
  unfolding drop_flight
  drop-IsIncreasing = elim (Bool-cases (ltb 0 f.handles)) [
    | inl held ↦ rw held h
    | inr nobody ↦ rw nobody h
  ]

pub step-IsIncreasing : (w : World) (event : Event) → IsIncreasing w → IsIncreasing (step w event).0
unfolding step configure
step-IsIncreasing w (configured config) h = h
step-IsIncreasing w (called key) h =
    let r = begin_acquire (is_live w.flights) key w.next w.store in
    decided-IsIncreasing w key r.0 r.1 (begin-IsIncreasing (is_live w.flights) key w.next w.store h)
step-IsIncreasing w (finished p outcome) h =
    at_flight-IsIncreasing w p _ h (λ f. finish-IsIncreasing w h p f f.stage outcome)
step-IsIncreasing w (published p) h =
    at_flight-IsIncreasing w p _ h (λ f. publish-IsIncreasing w h p f f.stage f.loader)
step-IsIncreasing w (woken p) h =
    at_flight-IsIncreasing w p _ h (λ f. wake-IsIncreasing w h p f f.stage)
step-IsIncreasing w (dropped p) h = at_flight-IsIncreasing w p _ h (λ f. drop-IsIncreasing w h p f)

run-IsIncreasing : (events : List Event) (w : World) → IsIncreasing w → IsIncreasing (run w events)
unfolding run
run-IsIncreasing [] w h = h
run-IsIncreasing (e ∷ es) w h = run-IsIncreasing es (step w e).0 (step-IsIncreasing w e h)

-- After any events, the store has at most one entry for each key, and its entries are in the order of
-- the keys.
pub entries_increase :
    (config : CacheConfig) (events : List Event)
    → is_increasing (run (start config) events).store.entries ≡ true
unfolding is_increasing
entries_increase config events = run-IsIncreasing events (start config) refl

-- Both invariants of a world.
abbrev pub Sound : World → Type 0
Sound w = WorldInv w × (is_increasing w.store.entries ≡ true)

pub step-Sound : (w : World) → Sound w → (event : Event) → Sound (step w event).0
step-Sound w (v, h) event = (step-Inv w v event, step-IsIncreasing w event h)
