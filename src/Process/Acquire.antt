-- ===== src/Process/Acquire.antt =====
-- src/session_store.cpp, `acquire`, as src/embed.cpp calls it with no other call in between.
use cyborgdb_embed.Prelude.{
  ℕ, ◌+◌, ◌≡◌, sym, ap, subst, ◌∙◌, inl, inr, true, Option, some, Option-cases, Bool-cases, arith,
}
use cyborgdb_embed.Status.{success, Ending, ends, throws}
use cyborgdb_embed.Float.{Float}
use cyborgdb_embed.Config.{CacheConfig}
use cyborgdb_embed.Registry.{RegistryEntry, precision_available}
use cyborgdb_embed.Registry.Lookup.{find}
use cyborgdb_embed.Session.Loader.{Loader}
use cyborgdb_embed.Tokenizer.Shim.{Library}
use cyborgdb_embed.Session.{Session}
use cyborgdb_embed.Session.Load.{Host, no_precision}
use cyborgdb_embed.Store.{
  Key, Entry, Store, reuse, wait, load, lock, begin_acquire, visit_entry, start_load, end_acquire,
}
use cyborgdb_embed.Store as Store
use cyborgdb_embed.Store.World.{broken, Flight, called, woken, is_live, decided, step}
use cyborgdb_embed.Store.Branches.{
  visit_locked, visit_pending, visit_stale, begin_found, begin_absent,
}
use cyborgdb_embed.Store.Changes.{some_injective, true-false}
use cyborgdb_embed.Store.Steps.{lock-some}
use cyborgdb_embed.Store.Ordered.{Sound, step-Sound}
use cyborgdb_embed.Process.{Options, key_of, Process, finish_load, continue, acquire}
use cyborgdb_embed.Prelude.{refl, none}
use cyborgdb_embed.Prelude.{◌-◌}
use cyborgdb_embed.Store.Alone.{wait_raised}
use cyborgdb_embed.Process.{answer}
use cyborgdb_embed.Process.Counts.{handles_of, handles_found}
use cyborgdb_embed.Process.Counts.Handles.{keep-Counted}
use cyborgdb_embed.Process.Quiet.{Quiet, change-Calm, change_freed}
use cyborgdb_embed.Process.Taken.{Got, Taken, reused, reuse_returns, reuse-Taken}
use cyborgdb_embed.Process.Drop.{flight_count_idle}
use cyborgdb_embed.Process.Over.{Over, twice-Over, changed_cases}
use cyborgdb_embed.Process.Load.{started, finish-Taken}

module _ (fl : Float) (lib : Library) (loader : Loader fl lib) where
  abbrev Proc : Type 0
  Proc = Process fl lib loader

  module _ (P : Proc) (q : Quiet fl lib loader P) (entry : RegistryEntry) (options : Options) where
    abbrev key : Key
    key = key_of entry options

    available_else :
        (ending : Ending) (host : Host) (loaded : Option (Session fl lib)) (config : CacheConfig)
        → loader.load_session entry options.provider options.precision config P.host
          ≡ some (ending, host, loaded)
        → (ending ≡ ends no_precision → ⊥)
        → precision_available entry.info.id options.precision ≡ true
    available_else ending host loaded config e other =
        elim (Bool-cases (precision_available entry.info.id options.precision)) [
          | inl available ↦ available
          | inr lacking ↦ absurd (
              other (
                ap (λ (r : Ending × Host × Option (Session fl lib)). r.0)
                  (some_injective (
                    sym e
                    ∙ loader.refused_precision entry options.provider options.precision config
                        P.host lacking))))
        ]

    -- The key's load has thrown, and the promise stays: the wait on it throws at once.
    broken-Taken :
        (store : Store) (p : ℕ) (f : Flight)
        → Sound (decided P.world key (store, wait p)).0
        → P.world.flights p ≡ some f
        → f.key ≡ key
        → f.stage ≡ broken
        → store.loaded ≡ P.world.store.loaded
        → (r : Ending × Option ℕ × Proc) × (continue fl lib loader entry options P (store, wait p)
            ≡ some r)
          × Taken fl lib loader P key r
    unfolding continue answer Got
    broken-Taken store p f inv here same is counted =
        let f1 = record f { waiters = f.waiters + 1 } in
        let g = record f { waiters = f.waiters + 1 - 1 } in
        let e = wait_raised P.world key store p f here is in
        let w = (step (decided P.world key (store, wait p)).0 (woken p)).0 in
        let c = q.settled.calm p f here in
        let fits = c.broken_fits is in
        let over : Over P.world.flights w.flights p g =
          subst (λ m. Over P.world.flights m p g) (sym (ap (λ r. r.0.flights) e))
            (twice-Over P.world.flights p f1 g) in
        let kept : handles_of w.flights p ≡ handles_of P.world.flights p =
          handles_found w.flights p g over.hit ∙ sym (handles_found P.world.flights p f here) in
        (
          (throws, none, record P { world = w }),
          ap (answer fl lib loader (record P { world = w })) (ap (λ r. r.1) e),
          record {
            settled = record {
              sound = step-Sound (decided P.world key (store, wait p)).0 inv (woken p);
              calm =
                  change-Calm fl lib P.world.flights w.flights P.sessions P.sessions p g
                    (changed_cases P.world.flights w.flights p g over) (λ j _. refl) q.settled.calm
                    (record {
                      idle = c.idle;
                      alone = let n = c.alone in omega arith;
                      broken_fits = c.broken_fits;
                      kept = c.kept;
                    });
              freed =
                  change_freed fl lib P.world.flights w.flights P.sessions P.sessions p over.others
                    (λ j _. refl) q.settled.freed
                    (λ none_left. q.settled.freed p (sym kept ∙ none_left));
            };
            counted = keep-Counted w.flights p kept over.others q.counted;
            got = refl;
            same_embedders = refl;
            same_impls = refl;
            same_next = refl;
            same_sessions = λ _ _. refl;
            poisons = λ _. inl (ap (λ r. r.0.store.loaded) e ∙ counted);
            refuses = λ lacking. absurd (
                true-false (
                  sym fits
                  ∙ ap (λ (k : Key). precision_available k.model k.precision) same
                  ∙ lacking));
          },
        )

    -- A load starts, and runs to its end.
    load-Taken :
        find entry.info.id ≡ some entry
        → Sound (step P.world (called key)).0
        → begin_acquire (is_live P.world.flights) key P.world.next P.world.store
          ≡ start_load key P.world.next P.world.store
        → (r : Ending × Option ℕ × Proc) × (acquire fl lib loader entry options P ≡ some r)
          × Taken fl lib loader P key r
    unfolding acquire continue step start_load
    load-Taken found inv begins =
        let b = start_load key P.world.next P.world.store in
        let inv' = subst (λ x. Sound (decided P.world key x).0) begins inv in
        let config = P.world.store.config in
        let ((ending, host, loaded), e, answers) =
          loader.load_answers entry options.provider options.precision config P.host in
        let (r, finishes, taken) =
          finish-Taken fl lib loader P q entry options b.0 config inv' found ending host loaded
            answers (available_else ending host loaded config e)
            (λ lacking.
              let same = some_injective (
                sym e
                ∙ loader.refused_precision entry options.provider options.precision config P.host
                    lacking) in
              (
                ap (λ (r : Ending × Host × Option (Session fl lib)). r.0) same,
                ap (λ (r : Ending × Host × Option (Session fl lib)). r.1) same,
              )) in
        (
          r,
          ap (continue fl lib loader entry options P) begins
              ∙ ap
                  (finish_load fl lib loader
                    (started fl lib loader P q entry options b.0 config inv') P.world.next)
                  e
              ∙ finishes,
          taken,
        )

    pub acquire_lem :
        find entry.info.id ≡ some entry
        → (r : Ending × Option ℕ × Proc) × (acquire fl lib loader entry options P ≡ some r)
          × Taken fl lib loader P key r
    unfolding acquire step
    acquire_lem found =
        let inv = step-Sound P.world q.settled.sound (called key) in
        let live = is_live P.world.flights in
        elim (Option-cases (Store.find key P.world.store.entries)) [
          | inl absent ↦
              load-Taken found inv (begin_absent live key P.world.next P.world.store absent)
          | inr (e, there) ↦
              let begins = begin_found live key P.world.next P.world.store e there in
              let ok = q.settled.sound.0.each_entry key e there in
              elim (Option-cases (lock live e.session)) [
                | inr (p, locked) ↦
                    let again =
                      begins ∙ visit_locked live key P.world.next P.world.store e p locked in
                    let (f, here, same, is) =
                      ok.of_session p (lock-some P.world.flights e.session p locked).0 in
                    let store = record P.world.store { shared = P.world.store.shared + 1 } in
                    (
                      (ends success, some p, reused fl lib loader P q entry options store p f),
                      ap (continue fl lib loader entry options P) again
                          ∙ reuse_returns fl lib loader P q entry options store p f here,
                      reuse-Taken fl lib loader P q entry options store p f
                          (subst (λ b. Sound (decided P.world key b).0) again inv) here same is
                          (let c = q.settled.calm p f here in
                            let n = flight_count_idle f c.idle c.alone in
                            let lives = (lock-some P.world.flights e.session p locked).1 f here in
                            omega arith),
                    )
                | inl dead ↦ elim (Option-cases e.pending) [
                  | inl idle ↦
                      load-Taken found inv
                        (begins ∙ visit_stale live key P.world.next P.world.store e dead idle)
                  | inr (p, named) ↦
                      let (f, here, same, awaited) = ok.of_pending p named in
                      elim awaited [
                        | inl busy ↦ absurd (true-false (sym busy ∙ (q.settled.calm p f here).idle))
                        | inr gone ↦
                            let store = record P.world.store {
                              shared = P.world.store.shared + 1;
                            } in
                            let waits =
                              begins
                              ∙ visit_pending live key P.world.next P.world.store e p dead named in
                            let (r, ends_so, taken) =
                              broken-Taken store p f
                                (subst (λ b. Sound (decided P.world key b).0) waits inv) here same
                                gone refl in
                            (r, ap (continue fl lib loader entry options P) waits ∙ ends_so, taken)
                      ]
                ]
              ]
        ]
