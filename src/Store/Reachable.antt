-- ===== src/Store/Reachable.antt =====
-- src/session_store.cpp: the invariant after each event, and so in every world a process reaches.
use cyborgdb_embed.Prelude.{
  ℕ, ◌+◌, ◌-◌, ◌<◌, ◌≡◌, ◌≢◌, refl, sym, subst, ◌∙◌, inl, inr, Bool, true, false, List, [], ◌∷◌,
  some, ltb, Bool-cases, Option-cases, arith,
}
use cyborgdb_embed.Config.{CacheConfig}
use cyborgdb_embed.Store.{find, configure}
use cyborgdb_embed.Store.World.{
  Stage, loading, made, broken, failed, Flight, flight_count, World, put, at_flight, Outcome, built,
  threw, refused, Event, configured, called, finished, published, woken, dropped, Reply,
  finish_flight, publish_flight, wake_flight, drop_flight, step, run, start,
}
use cyborgdb_embed.Store.Branches.{at_found, at_none}
use cyborgdb_embed.Store.Changes.{
  none-some, loading_made, broken_made, failed_made, failed_loading, WorldInv, counts-Inv,
  ended-Inv, thrown-Inv, made-Inv, failed-Inv,
}
use cyborgdb_embed.Store.Steps.{called-Inv}

fewer : (n : ℕ) → n ≡ 0 → n - 1 ≡ 0
fewer n e = ground arith

count_before :
    (f : Flight) → ltb 0 f.waiters ≡ true → f.stage ≡ made → f.loader ≡ false → 0 < flight_count f
count_before f some_wait is idle = rw (is, idle, some_wait) (omega arith)

module _ (w : World) (v : WorldInv w) where
  -- An event of a flight: nothing happens where there is none.
  at_flight-Inv :
      (p : ℕ) (change : Flight → World × Reply)
      → ((f : Flight) → w.flights p ≡ some f → WorldInv (change f).0)
      → WorldInv (at_flight w p change).0
  at_flight-Inv p change each = elim (Option-cases (w.flights p)) [
    | inl gone ↦ subst (λ r. WorldInv r.0) (sym (at_none w p change gone)) v
    | inr (f, here) ↦ subst (λ r. WorldInv r.0) (sym (at_found w p f change here)) (each f here)
  ]

  module _ (p : ℕ) (f : Flight) (here : w.flights p ≡ some f) where
    finish-Inv :
        (stage : Stage) (outcome : Outcome)
        → f.stage ≡ stage
        → WorldInv (finish_flight w p f stage outcome).0
    unfolding finish_flight
    finish-Inv loading built is = ended-Inv w v p f here made is (λ e. loading_made (sym e))
    finish-Inv loading (refused s) is = ended-Inv w v p f here (failed s) is failed_loading
    finish-Inv loading threw is = thrown-Inv w v p f here is
    finish-Inv made outcome is = v
    finish-Inv broken outcome is = v
    finish-Inv (failed s) outcome is = v

    publish-Inv :
        (stage : Stage) (loader : Bool)
        → f.stage ≡ stage
        → f.loader ≡ loader
        → WorldInv (publish_flight w p f stage loader).0
    unfolding publish_flight
    publish-Inv made true is busy = made-Inv w v p f here is busy
    publish-Inv (failed s) true is busy = failed-Inv w v p f here s is busy
    publish-Inv made false is busy = v
    publish-Inv (failed s) false is busy = v
    publish-Inv loading loader is busy = v
    publish-Inv broken loader is busy = v

    wake_failed-Inv :
        (stage : Stage)
        → f.stage ≡ stage
        → stage ≢ made
        → WorldInv (put w p (record f { waiters = f.waiters - 1 }))
    wake_failed-Inv stage is ne =
        counts-Inv w v p f here (f.waiters - 1) f.handles (v.each_flight p f here).unmade
          (λ _ e _. absurd (ne (sym is ∙ e)))

    wake-Inv : (stage : Stage) → f.stage ≡ stage → WorldInv (wake_flight w p f stage).0
    unfolding wake_flight
    wake-Inv made is = elim (Bool-cases (ltb 0 f.waiters)) [
      | inl some_wait ↦ rw some_wait (
          counts-Inv w v p f here (f.waiters - 1) (f.handles + 1) (λ ne. absurd (ne is))
            (λ idle e _.
              (v.each_flight p f here).while_live idle e (count_before f some_wait e idle)))
      | inr nobody ↦ rw nobody v
    ]
    wake-Inv (failed s) is = elim (Bool-cases (ltb 0 f.waiters)) [
      | inl some_wait ↦ rw some_wait (wake_failed-Inv (failed s) is failed_made)
      | inr nobody ↦ rw nobody v
    ]
    wake-Inv broken is = elim (Bool-cases (ltb 0 f.waiters)) [
      | inl some_wait ↦ rw some_wait (wake_failed-Inv broken is broken_made)
      | inr nobody ↦ rw nobody v
    ]
    wake-Inv loading is = v

    drop-Inv : WorldInv (drop_flight w p f).0
    unfolding drop_flight
    drop-Inv = elim (Bool-cases (ltb 0 f.handles)) [
      | inl held ↦ rw held (
          counts-Inv w v p f here f.waiters (f.handles - 1)
            (λ ne. fewer f.handles ((v.each_flight p f here).unmade ne))
            (λ idle e lives. (v.each_flight p f here).while_live idle e (omega (arith, lives))))
      | inr nobody ↦ rw nobody v
    ]

  pub step-Inv : (event : Event) → WorldInv (step w event).0
  unfolding step configure
  step-Inv (configured config) = v
  step-Inv (called key) = called-Inv w v key
  step-Inv (finished p outcome) =
      at_flight-Inv p (λ f. finish_flight w p f f.stage outcome)
        (λ f here. finish-Inv p f here f.stage outcome refl)
  step-Inv (published p) =
      at_flight-Inv p (λ f. publish_flight w p f f.stage f.loader)
        (λ f here. publish-Inv p f here f.stage f.loader refl refl)
  step-Inv (woken p) =
      at_flight-Inv p (λ f. wake_flight w p f f.stage) (λ f here. wake-Inv p f here f.stage refl)
  step-Inv (dropped p) = at_flight-Inv p (λ f. drop_flight w p f) (λ f here. drop-Inv p f here)

pub run-Inv : (events : List Event) (w : World) → WorldInv w → WorldInv (run w events)
unfolding run
run-Inv [] w v = v
run-Inv (e ∷ es) w v = run-Inv es (step w e).0 (step-Inv w v e)

pub start-Inv : (config : CacheConfig) → WorldInv (start config)
unfolding find
start-Inv config = record {
  fresh = λ p _. refl;
  each_flight = λ p f e. absurd (none-some e);
  each_entry = λ k e found. absurd (none-some found);
}
