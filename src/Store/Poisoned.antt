-- ===== src/Store/Poisoned.antt =====
-- src/session_store.cpp, `acquire`: an entry that waits for a load that has thrown stays as it is,
-- whatever happens.
use cyborgdb_embed.Prelude.{
  different, ℕ, ◌+◌, ◌-◌, ◌≡◌, ◌≢◌, refl, sym, ap, subst, ◌∙◌, inl, inr, Bool, true, false, Option,
  some, ltb, ◌==◌, ==_iff, Bool-cases, Option-cases, write, write_hit, write_miss, arith,
}
use cyborgdb_embed.Status.{Status}
use cyborgdb_embed.Store.{
  Key, Entry, Store, Decision, find, lock, configure, start_load, end_acquire,
}
use cyborgdb_embed.Store.Keys.{find-insert_ne, find-erase_ne}
use cyborgdb_embed.Store.World.{
  Stage, loading, made, broken, failed, Flight, is_live, new_flight, World, put, at_flight, Outcome,
  built, threw, refused, Event, configured, called, finished, published, woken, dropped, Reply,
  nothing, session, decided, finish_flight, publish_flight, wake_flight, drop_flight, step,
}
use cyborgdb_embed.Store.Invariant.{in_flight}
use cyborgdb_embed.Store.Branches.{
  visit_locked, visit_pending, visit_stale, begin_found, begin_absent, at_found, at_none,
}
use cyborgdb_embed.Store.Changes.{
  none-some, some_injective, WorldInv, end_acquire_made, end_acquire_failed,
}

-- The entry of the key waits for a load that has thrown.
pub record IsPoisoned (k : Key) (p : ℕ) (w : World) : Type 0 where
  pub flight : Flight
  pub here : w.flights p ≡ some flight
  pub stage : flight.stage ≡ broken
  pub pending : find k w.store.entries ≡ some (in_flight p)

loading_broken : loading ≡ broken → ⊥
loading_broken e = cc

made_broken : made ≡ broken → ⊥
made_broken e = cc

failed_broken : {s : Status} → failed s ≡ broken → ⊥
failed_broken e = cc

same_pending : (p q : ℕ) → ◌≡◌ {A = Option Entry} (some (in_flight p)) (some (in_flight q)) → p ≡ q
same_pending p q e = cc

module _ (k : Key) (p : ℕ) (w : World) (d : IsPoisoned k p w) where
  -- A change of a flight that keeps its stage, or of another flight.
  touched :
      (store : Store) (next q : ℕ) (h g : Flight)
      → find k store.entries ≡ find k w.store.entries
      → w.flights q ≡ some h
      → (h.stage ≡ broken → g.stage ≡ broken)
      → IsPoisoned k p (put (record w { store = store; next = next }) q g)
  touched store next q h g kept there same = elim (Bool-cases (q == p)) [
    | inl hit ↦
        let e : q ≡ p = (==_iff q p).0 hit in
        let h_f : h ≡ d.flight = some_injective (sym there ∙ ap w.flights e ∙ d.here) in
        record {
          flight = g;
          here = ap (write w.flights q (some g)) (sym e) ∙ write_hit w.flights q (some g);
          stage = same (ap (λ (x : Flight). x.stage) h_f ∙ d.stage);
          pending = kept ∙ d.pending;
        }
    | inr miss ↦ record {
      flight = d.flight;
      here = write_miss w.flights q p (some g) (different q p miss) ∙ d.here;
      stage = d.stage;
      pending = kept ∙ d.pending;
    }
  ]

  at_touched :
      (store : Store) (q : ℕ) (g : Flight → Flight) (r : Reply)
      → find k store.entries ≡ find k w.store.entries
      → ((h : Flight) → (g h).stage ≡ h.stage)
      → IsPoisoned k p
          (at_flight
            (record w { store = store })
            q
            (λ h. (put (record w { store = store }) q (g h), r))).0
  at_touched store q g r kept same = elim (Option-cases (w.flights q)) [
    | inl gone ↦
        subst (λ x. IsPoisoned k p x.0)
          (sym (
            at_none (record w { store = store }) q
              (λ h. (put (record w { store = store }) q (g h), r)) gone))
          (record { flight = d.flight; here = d.here; stage = d.stage; pending = kept ∙ d.pending })
    | inr (h, there) ↦
        subst (λ x. IsPoisoned k p x.0)
          (sym (
            at_found (record w { store = store }) q h
              (λ h. (put (record w { store = store }) q (g h), r)) there))
          (touched store w.next q h (g h) kept there (λ e. same h ∙ e))
  ]

  module _ (v : WorldInv w) where
    not_next : w.next ≢ p
    not_next e = none-some (sym (v.fresh p (omega (arith, e))) ∙ d.here)

    start-IsPoisoned :
        (j : Key) → j ≢ k → IsPoisoned k p (decided w j (start_load j w.next w.store)).0
    unfolding decided start_load
    start-IsPoisoned j other = record {
      flight = d.flight;
      here = write_miss w.flights w.next p (some (new_flight j w.store.config)) not_next ∙ d.here;
      stage = d.stage;
      pending = find-insert_ne j k (in_flight w.next) w.store.entries other ∙ d.pending;
    }

    called-IsPoisoned : (j : Key) → IsPoisoned k p (step w (called j)).0
    unfolding step decided
    called-IsPoisoned j =
        let live = is_live w.flights in
        let Goal = λ (b : Store × Decision). IsPoisoned k p (decided w j b).0 in
        elim (Option-cases (find j w.store.entries)) [
          | inl absent ↦ subst Goal (sym (begin_absent live j w.next w.store absent)) (
              start-IsPoisoned j
                (λ e. none-some (sym absent ∙ ap (λ x. find x w.store.entries) e ∙ d.pending)))
          | inr (e, there) ↦
              let begins = begin_found live j w.next w.store e there in
              let shared = record w.store { shared = w.store.shared + 1 } in
              elim (Option-cases (lock live e.session)) [
                | inr (q, locked) ↦
                    subst Goal (sym (begins ∙ visit_locked live j w.next w.store e q locked)) (
                      at_touched shared q (λ h. record h { handles = h.handles + 1 }) (session q)
                        refl (λ h. refl))
                | inl dead ↦ elim (Option-cases e.pending) [
                  | inr (q, named) ↦
                      subst Goal (sym (begins ∙ visit_pending live j w.next w.store e q dead named))
                        (at_touched shared q (λ h. record h { waiters = h.waiters + 1 }) nothing
                          refl (λ h. refl))
                  | inl idle ↦
                      subst Goal (sym (begins ∙ visit_stale live j w.next w.store e dead idle)) (
                        start-IsPoisoned j (λ same. none-some (
                          sym idle
                          ∙ ap (λ (x : Entry). x.pending)
                              (some_injective
                                (sym there ∙ ap (λ x. find x w.store.entries) same ∙ d.pending)))))
                ]
              ]
        ]

    -- An event of a flight: what it does where there is one.
    at-IsPoisoned :
        (q : ℕ) (change : Flight → World × Reply)
        → ((h : Flight) → w.flights q ≡ some h → IsPoisoned k p (change h).0)
        → IsPoisoned k p (at_flight w q change).0
    at-IsPoisoned q change each = elim (Option-cases (w.flights q)) [
      | inl gone ↦ subst (λ r. IsPoisoned k p r.0) (sym (at_none w q change gone)) d
      | inr (h, there) ↦
          subst (λ r. IsPoisoned k p r.0) (sym (at_found w q h change there)) (each h there)
    ]

    module _ (q : ℕ) (h : Flight) (there : w.flights q ≡ some h) where
      finish-IsPoisoned :
          (stage : Stage) (outcome : Outcome)
          → h.stage ≡ stage
          → IsPoisoned k p (finish_flight w q h stage outcome).0
      unfolding finish_flight
      finish-IsPoisoned loading built is =
          touched w.store w.next q h (record h { stage = made }) refl there
            (λ e. absurd (loading_broken (sym is ∙ e)))
      finish-IsPoisoned loading (refused s) is =
          touched w.store w.next q h (record h { stage = failed s }) refl there
            (λ e. absurd (loading_broken (sym is ∙ e)))
      finish-IsPoisoned loading threw is =
          touched w.store w.next q h (record h { stage = broken; loader = false }) refl there
            (λ _. refl)
      finish-IsPoisoned made outcome is = d
      finish-IsPoisoned broken outcome is = d
      finish-IsPoisoned (failed s) outcome is = d

      -- A call that is still to publish loads another key.
      other_key : h.stage ≢ broken → h.loader ≡ true → h.key ≢ k
      other_key ne busy same =
          let e : q ≡ p = same_pending q p (
            sym ((v.each_flight q h there).while_loading busy)
            ∙ ap (λ x. find x w.store.entries) same
            ∙ d.pending) in
          let h_f : h ≡ d.flight = some_injective (sym there ∙ ap w.flights e ∙ d.here) in
          ne (ap (λ (x : Flight). x.stage) h_f ∙ d.stage)

      publish-IsPoisoned :
          (stage : Stage) (loader : Bool)
          → h.stage ≡ stage
          → h.loader ≡ loader
          → IsPoisoned k p (publish_flight w q h stage loader).0
      unfolding publish_flight
      publish-IsPoisoned made true is busy =
          touched (end_acquire h.key q true w.store) w.next q h
            (record h { loader = false; handles = h.handles + 1 })
            (ap (λ s. find k s.entries) (end_acquire_made w v q h there busy)
              ∙ find-insert_ne h.key k _ w.store.entries
                  (other_key (λ e. made_broken (sym is ∙ e)) busy))
            there (λ e. e)
      publish-IsPoisoned (failed s) true is busy =
          touched (end_acquire h.key q false w.store) w.next q h (record h { loader = false })
            (ap (λ s. find k s.entries) (end_acquire_failed w v q h there busy)
              ∙ find-erase_ne h.key k w.store.entries
                  (other_key (λ e. failed_broken (sym is ∙ e)) busy))
            there (λ e. e)
      publish-IsPoisoned made false is busy = d
      publish-IsPoisoned (failed s) false is busy = d
      publish-IsPoisoned loading loader is busy = d
      publish-IsPoisoned broken loader is busy = d

      wake-IsPoisoned : (stage : Stage) → IsPoisoned k p (wake_flight w q h stage).0
      unfolding wake_flight
      wake-IsPoisoned made = elim (Bool-cases (ltb 0 h.waiters)) [
        | inl waits ↦ rw waits (
            touched w.store w.next q h
              (record h { waiters = h.waiters - 1; handles = h.handles + 1 }) refl there (λ e. e))
        | inr nobody ↦ rw nobody d
      ]
      wake-IsPoisoned (failed s) = elim (Bool-cases (ltb 0 h.waiters)) [
        | inl waits ↦
            rw waits (
              touched w.store w.next q h (record h { waiters = h.waiters - 1 }) refl there (λ e. e))
        | inr nobody ↦ rw nobody d
      ]
      wake-IsPoisoned broken = elim (Bool-cases (ltb 0 h.waiters)) [
        | inl waits ↦
            rw waits (
              touched w.store w.next q h (record h { waiters = h.waiters - 1 }) refl there (λ e. e))
        | inr nobody ↦ rw nobody d
      ]
      wake-IsPoisoned loading = d

      drop-IsPoisoned : IsPoisoned k p (drop_flight w q h).0
      unfolding drop_flight
      drop-IsPoisoned = elim (Bool-cases (ltb 0 h.handles)) [
        | inl held ↦
            rw held (
              touched w.store w.next q h (record h { handles = h.handles - 1 }) refl there (λ e. e))
        | inr nobody ↦ rw nobody d
      ]

    pub step-IsPoisoned : (event : Event) → IsPoisoned k p (step w event).0
    unfolding step configure
    step-IsPoisoned (configured config) = record {
      flight = d.flight;
      here = d.here;
      stage = d.stage;
      pending = d.pending;
    }
    step-IsPoisoned (called j) = called-IsPoisoned j
    step-IsPoisoned (finished q outcome) =
        at-IsPoisoned q (λ h. finish_flight w q h h.stage outcome)
          (λ h there. finish-IsPoisoned q h there h.stage outcome refl)
    step-IsPoisoned (published q) =
        at-IsPoisoned q (λ h. publish_flight w q h h.stage h.loader)
          (λ h there. publish-IsPoisoned q h there h.stage h.loader refl refl)
    step-IsPoisoned (woken q) =
        at-IsPoisoned q (λ h. wake_flight w q h h.stage)
          (λ h there. wake-IsPoisoned q h there h.stage)
    step-IsPoisoned (dropped q) =
        at-IsPoisoned q (λ h. drop_flight w q h) (λ h there. drop-IsPoisoned q h there)
