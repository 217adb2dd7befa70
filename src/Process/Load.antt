-- ===== src/Process/Load.antt =====
-- src/session_store.cpp, `acquire`, as src/embed.cpp calls it: a load from its start to its end.
use cyborgdb_embed.Prelude.{
  ℕ, suc, ◌+◌, ◌≡◌, refl, sym, ap, subst, ◌∙◌, inr, true, false, Option, none, some, write,
  write_hit, write_miss, arith,
}
use cyborgdb_embed.Status.{Status, success, Ending, ends, throws, ended_well}
use cyborgdb_embed.Float.{Float}
use cyborgdb_embed.Config.{CacheConfig}
use cyborgdb_embed.Registry.{RegistryEntry, precision_available}
use cyborgdb_embed.Registry.Lookup.{find}
use cyborgdb_embed.Session.Loader.{Loader}
use cyborgdb_embed.Tokenizer.Shim.{Library}
use cyborgdb_embed.Session.{Session}
use cyborgdb_embed.Session.Load.{no_precision, Host, Answers}
use cyborgdb_embed.Store.{Key, Store, load}
use cyborgdb_embed.Store.World.{
  made, broken, failed, Flight, World, put, new_flight, built, threw, refused, finished, published,
  decided, step,
}
use cyborgdb_embed.Store.Changes.{true-false, failed_made}
use cyborgdb_embed.Store.Ordered.{Sound, step-Sound}
use cyborgdb_embed.Store.Alone.{load_built, load_refused, load_threw}
use cyborgdb_embed.Process.{Options, key_of, Process, answer, finish_load}
use cyborgdb_embed.Process.Counts.{handles_of, handles_found, handles_gone, at_or_else}
use cyborgdb_embed.Process.Counts.Handles.{take-Counted, keep-Counted}
use cyborgdb_embed.Process.Quiet.{Calm, Settled, Quiet, change-Calm, change_freed}
use cyborgdb_embed.Process.Over.{Over, twice-Over, thrice-Over, changed_cases}
use cyborgdb_embed.Process.Taken.{Got, Taken, ends_throws}
use cyborgdb_embed.Store.Poisoned.{IsPoisoned}
use cyborgdb_embed.Store.Poison.{thrown-IsPoisoned}

failed_broken : {s : Status} → failed s ≡ broken → ⊥
failed_broken e = cc

made_broken : made ≡ broken → ⊥
made_broken e = cc

threw_refused : throws ≡ ends no_precision → ⊥
threw_refused e = cc

success_refused : {s : Ending} → ended_well s ≡ true → s ≡ ends no_precision → ⊥
success_refused fine e = true-false (sym fine ∙ ap ended_well e)

module _ (fl : Float) (lib : Library) (loader : Loader fl lib) where
  abbrev Proc : Type 0
  Proc = Process fl lib loader

  module _ (P : Proc) (q : Quiet fl lib loader P) (entry : RegistryEntry) (options : Options) where
    abbrev key : Key
    key = key_of entry options

    module _ (store : Store) (config : CacheConfig)
        (inv : Sound (decided P.world key (store, load config)).0) where
      abbrev pub begun : World
      begun =
          put (record P.world { store = store; next = suc P.world.next }) P.world.next
            (new_flight key config)

      abbrev pub started : Proc
      started = record P { world = begun }

      -- No session had the load's number.
      unused_number : handles_of P.world.flights P.world.next ≡ 0
      unused_number =
          handles_gone P.world.flights P.world.next
            (q.settled.sound.0.fresh P.world.next (omega arith))

      -- The load is over, with the flight as it is then.
      finished-Settled :
          (w : World) (g : Flight) (host : Host) (s : Option (Session fl lib))
          → Sound w
          → Over P.world.flights w.flights P.world.next g
          → Calm fl lib (write P.sessions P.world.next s) P.world.next g
          → (g.handles ≡ 0 → s ≡ none)
          → Settled fl lib loader
              (record P { host = host; world = w; sessions = write P.sessions P.world.next s })
      finished-Settled w g host s ok over here unheld = record {
        sound = ok;
        calm =
            change-Calm fl lib P.world.flights w.flights P.sessions
              (write P.sessions P.world.next s) P.world.next g
              (changed_cases P.world.flights w.flights P.world.next g over)
              (λ j ne. write_miss P.sessions P.world.next j s ne) q.settled.calm here;
        freed =
            change_freed fl lib P.world.flights w.flights P.sessions
              (write P.sessions P.world.next s) P.world.next over.others
              (λ j ne. write_miss P.sessions P.world.next j s ne) q.settled.freed
              (λ none_left.
                write_hit P.sessions P.world.next s
                ∙ unheld (sym (handles_found w.flights P.world.next g over.hit) ∙ none_left));
      }

      -- A load that leaves no session leaves the sessions as they were.
      unmade : (j : ℕ) → write P.sessions P.world.next none j ≡ P.sessions j
      unmade =
          at_or_else (λ j. write P.sessions P.world.next none j ≡ P.sessions j) P.world.next
            (write_hit P.sessions P.world.next none
              ∙ sym (q.settled.freed P.world.next unused_number))
            (λ j ne. write_miss P.sessions P.world.next j none ne)

      -- A load that ends without a session.
      failed-Taken :
          (w : World) (g : Flight) (host : Host) (ending : Ending)
          → Sound w
          → Over P.world.flights w.flights P.world.next g
          → Calm fl lib (write P.sessions P.world.next none) P.world.next g
          → g.handles ≡ 0
          → ended_well ending ≡ false
          → (precision_available entry.info.id options.precision ≡ false
              → (ending ≡ ends no_precision) × (host ≡ P.host))
          → (ending ≡ throws → IsPoisoned key P.world.next w)
          → Taken fl lib loader P key (
            ending,
            none,
            record P { host = host; world = w; sessions = write P.sessions P.world.next none },
          )
      unfolding Got
      failed-Taken w g host ending ok over here unheld bad refuses poisons = record {
        settled = finished-Settled w g host none ok over here (λ _. refl);
        counted =
            keep-Counted w.flights P.world.next
              (handles_found w.flights P.world.next g over.hit ∙ unheld ∙ sym unused_number)
              over.others q.counted;
        got = bad;
        same_embedders = refl;
        same_impls = refl;
        same_next = refl;
        same_sessions = λ _ j. unmade j;
        poisons = λ e. inr (poisons e);
        refuses = refuses;
      }

      abbrev Finishes : Ending → Host → Option (Session fl lib) → Type 0
      Finishes ending host loaded =
          (r : Ending × Option ℕ × Proc) × (finish_load fl lib loader started P.world.next
              (some (ending, host, loaded))
            ≡ some r)
          × Taken fl lib loader P key r

      -- What a load answers for a precision that is not available.
      abbrev Refuses : Ending → Host → Type 0
      Refuses ending host =
          precision_available entry.info.id options.precision ≡ false
          → (ending ≡ ends no_precision) × (host ≡ P.host)

      threw-Taken :
          (host : Host) (loaded : Option (Session fl lib))
          → precision_available entry.info.id options.precision ≡ true
          → Refuses throws host
          → Finishes throws host loaded
      unfolding finish_load answer decided
      threw-Taken host loaded available refuses =
          let p = P.world.next in
          let g = record (new_flight key config) { stage = broken; loader = false } in
          let e =
            load_threw begun p key config
              (write_hit P.world.flights p (some (new_flight key config))) in
          let w = (step begun (finished p threw)).0 in
          (
            (throws, none, record P { host = host; world = w; sessions = write P.sessions p none }),
            ap
                (answer fl lib loader
                  (record P { host = host; world = w; sessions = write P.sessions p none }))
                (ap (λ r. r.1) e),
            failed-Taken w g host throws (step-Sound begun inv (finished p threw))
                (subst (λ m. Over P.world.flights m p g) (sym (ap (λ r. r.0.flights) e))
                  (twice-Over P.world.flights p (new_flight key config) g))
                (record {
                  idle = refl;
                  alone = refl;
                  broken_fits = λ _. available;
                  kept = λ m. absurd (made_broken (sym m));
                })
                refl refl refuses
                (λ _.
                  thrown-IsPoisoned begun p (new_flight key config) inv.0
                    (write_hit P.world.flights p (some (new_flight key config))) refl),
          )

      refused-Taken :
          (status : Status) (host : Host)
          → ended_well (ends status) ≡ false
          → Refuses (ends status) host
          → Finishes (ends status) host none
      unfolding finish_load answer decided
      refused-Taken status host bad refuses =
          let p = P.world.next in
          let f = record (new_flight key config) { stage = failed status } in
          let g = record (new_flight key config) { stage = failed status; loader = false } in
          let e =
            load_refused begun p key config
              (write_hit P.world.flights p (some (new_flight key config))) status in
          let w = (step (step begun (finished p (refused status))).0 (published p)).0 in
          (
            (
              ends status,
              none,
              record P { host = host; world = w; sessions = write P.sessions p none },
            ),
            rw bad (
                ap
                  (answer fl lib loader
                    (record P { host = host; world = w; sessions = write P.sessions p none }))
                  (ap (λ r. r.1) e)),
            failed-Taken w g host (ends status)
                (step-Sound (step begun (finished p (refused status))).0
                  (step-Sound begun inv (finished p (refused status))) (published p))
                (subst (λ m. Over P.world.flights m p g) (sym (ap (λ r. r.0.flights) e))
                  (thrice-Over P.world.flights p (new_flight key config) f g))
                (record {
                  idle = refl;
                  alone = refl;
                  broken_fits = λ b. absurd (failed_broken b);
                  kept = λ m. absurd (failed_made m);
                })
                refl bad refuses (λ e. absurd (ends_throws e)),
          )

      built-Taken :
          find entry.info.id ≡ some entry
          → (status : Status) (host : Host) (s : Session fl lib)
          → Answers fl lib entry options.provider options.precision (ends status) (some s)
          → precision_available entry.info.id options.precision ≡ true
          → Finishes (ends status) host (some s)
      unfolding finish_load answer Answers Got decided
      built-Taken found status host s (fine, same_entry, same_provider, same_precision) precise =
          let p = P.world.next in
          let e =
            load_built begun p key config
              (write_hit P.world.flights p (some (new_flight key config))) in
          let w = (step (step begun (finished p built)).0 (published p)).0 in
          let f = record (new_flight key config) { stage = made } in
          let g = record (new_flight key config) { stage = made; loader = false; handles = 1 } in
          let over =
            subst (λ m. Over P.world.flights m p g) (sym (ap (λ r. r.0.flights) e))
              (thrice-Over P.world.flights p (new_flight key config) f g) in
          (
            (
              ends success,
              some p,
              record P { host = host; world = w; sessions = write P.sessions p (some s) },
            ),
            rw (ap ended_well fine) (
                ap
                  (λ reply.
                    answer fl lib loader
                      (record P { host = host; world = w; sessions = write P.sessions p (some s) })
                      reply)
                  (ap (λ r. r.1) e)),
            record {
              settled =
                  finished-Settled w g host (some s)
                    (step-Sound (step begun (finished p built)).0
                      (step-Sound begun inv (finished p built)) (published p))
                    over
                    (record {
                      idle = refl;
                      alone = refl;
                      broken_fits = λ b. absurd (made_broken b);
                      kept = λ _ _. (
                        s,
                        write_hit P.sessions p (some s),
                        record {
                          same_entry = found ∙ ap (λ x. some x) (sym same_entry);
                          same_provider = same_provider;
                          same_precision = same_precision;
                          available = precise;
                        },
                      );
                    })
                    (λ none_left. absurd (omega arith));
              counted =
                  take-Counted w.flights p
                    (handles_found w.flights p g over.hit ∙ sym (ap (λ n. n + 1) unused_number))
                    over.others q.counted;
              got = (refl, g, over.hit, refl, refl, omega arith);
              same_embedders = refl;
              same_impls = refl;
              same_next = refl;
              same_sessions = λ bad. absurd (true-false bad);
              poisons = λ e. absurd (ends_throws e);
              refuses = λ lacking. absurd (true-false (sym precise ∙ lacking));
            },
          )

      pub finish-Taken :
          find entry.info.id ≡ some entry
          → (ending : Ending) (host : Host) (loaded : Option (Session fl lib))
          → Answers fl lib entry options.provider options.precision ending loaded
          → ((ending ≡ ends no_precision → ⊥)
              → precision_available entry.info.id options.precision ≡ true)
          → (precision_available entry.info.id options.precision ≡ false
              → (ending ≡ ends no_precision) × (host ≡ P.host))
          → (r : Ending × Option ℕ × Proc) × (finish_load fl lib loader started P.world.next
                (some (ending, host, loaded))
              ≡ some r)
            × Taken fl lib loader P key r
      unfolding Answers
      finish-Taken found throws host loaded bad available refuses =
          threw-Taken host loaded (available threw_refused) refuses
      finish-Taken found (ends status) host none bad available refuses =
          refused-Taken status host bad refuses
      finish-Taken found (ends status) host (some s) answers available refuses =
          built-Taken found status host s answers
            (available (success_refused (ap ended_well answers.0)))
