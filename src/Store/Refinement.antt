-- ===== src/Store/Refinement.antt =====
-- src/session_store.cpp: every event moves every key along an edge of the abstract machine.
use cyborgdb_embed.Prelude.{
  ℕ, ◌+◌, ◌≡◌, refl, sym, ap, subst, ◌∙◌, inl, inr, List, [], ◌∷◌, none, some, Option-cases,
  write_hit, write_miss, arith,
}
use cyborgdb_embed.Config.{CacheConfig}
use cyborgdb_embed.Store.{Key, Entry, Store, Decision, find, insert, lock, configure, start_load}
use cyborgdb_embed.Store.Keys.{key_cases, find-insert_ne, find-insert_self}
use cyborgdb_embed.Store.World.{
  made, Flight, flight_count, is_live, new_flight, World, put, at_flight, Event, configured, called,
  finished, published, woken, dropped, Reply, nothing, session, decided, finish_flight,
  publish_flight, wake_flight, drop_flight, step, run, start,
}
use cyborgdb_embed.Store.Invariant.{in_flight, IsAwaited}
use cyborgdb_embed.Store.Branches.{
  visit_locked, visit_pending, visit_stale, begin_found, begin_absent, at_found, at_none,
}
use cyborgdb_embed.Store.Changes.{none-some, some_injective, broken_made, WorldInv}
use cyborgdb_embed.Store.Steps.{lock-some, lock_live}
use cyborgdb_embed.Store.Reachable.{step-Inv, run-Inv, start-Inv}
use cyborgdb_embed.Store.Lifecycle.{
  Lifecycle, unused, loads, starts, IsAt, absent, expired, awaited, held, left, HasMoved, untouched,
  changed,
}
use cyborgdb_embed.Store.Edges.{
  busy_count, at-HasMoved, finish-HasMoved, wake-HasMoved, drop-HasMoved, publish-HasMoved,
}

module _ (w : World) (v : WorldInv w) (k : Key) (a : Lifecycle) (at : IsAt w k a) where
  -- A load starts.
  start-HasMoved :
      (j : Key) → (j ≡ k → a ≡ unused) → HasMoved (decided w j (start_load j w.next w.store)).0 k a
  unfolding decided start_load
  start-HasMoved j idle = elim (key_cases j k) [
    | inr other ↦
        untouched w v k _ a (find-insert_ne j k (in_flight w.next) w.store.entries other)
          (λ p f key here.
            write_miss w.flights w.next p (some (new_flight j w.store.config))
              (λ e. none-some (sym (v.fresh p (omega (arith, e))) ∙ here))
            ∙ here)
          at
    | inl same ↦
        subst (HasMoved (decided w j (start_load j w.next w.store)).0 k) (sym (idle same)) (
          loads,
          awaited w.next (new_flight j w.store.config)
              (ap (λ x. find k (insert x (in_flight w.next) w.store.entries)) same
                ∙ find-insert_self k (in_flight w.next) w.store.entries)
              (write_hit w.flights w.next (some (new_flight j w.store.config))) refl,
          starts,
        )
  ]

  -- An entry with no live session and no pending load.
  idle_entry :
      (e : Entry)
      → find k w.store.entries ≡ some e
      → lock (is_live w.flights) e.session ≡ none
      → e.pending ≡ none
      → a ≡ unused
  idle_entry e entry dead idle = go a at
    where
      go : (b : Lifecycle) → IsAt w k b → b ≡ unused
      go b (absent none_here) = refl
      go b (expired p f named here gone) = refl
      go b (awaited p f named here busy) = absurd (
          none-some (sym idle ∙ ap (λ (x : Entry). x.pending) (some_injective (sym entry ∙ named))))
      go b (left p f named here gone) = absurd (
          none-some (sym idle ∙ ap (λ (x : Entry). x.pending) (some_injective (sym entry ∙ named))))
      go b (held p f named here alive) = absurd (
          none-some (
            sym dead
            ∙ ap (λ (x : Entry). lock (is_live w.flights) x.session)
                (some_injective (sym entry ∙ named))
            ∙ lock_live w.flights p f here alive))

  -- A call shares a session or a load.
  share-HasMoved :
      (store : Store) (q : ℕ) (g : Flight → Flight) (r : Reply)
      → find k store.entries ≡ find k w.store.entries
      → ((h : Flight) → w.flights q ≡ some h → h.stage ≡ made → flight_count h ≡ 0 → ⊥)
      → ((h : Flight) → (g h).stage ≡ h.stage)
      → ((h : Flight) → (g h).loader ≡ h.loader)
      → HasMoved
          (at_flight
            (record w { store = store })
            q
            (λ h. (put (record w { store = store }) q (g h), r))).0
          k
          a
  share-HasMoved store q g r same lives_on stage loader =
      let change : Flight → World × Reply = λ h. (put (record w { store = store }) q (g h), r) in
      elim (Option-cases (w.flights q)) [
        | inl gone ↦
            subst (λ x. HasMoved x.0 k a) (sym (at_none (record w { store = store }) q change gone))
              (untouched w v k (record w { store = store }) a same (λ p f key here. here) at)
        | inr (h, there) ↦
            subst (λ x. HasMoved x.0 k a)
              (sym (at_found (record w { store = store }) q h change there))
              (changed w v k store w.next q h (g h) a there same
                (λ m dead. absurd (lives_on h there m dead)) (λ b. inl (loader h ∙ b))
                (λ b. stage h ∙ b) at)
      ]

  called-HasMoved : (j : Key) → HasMoved (step w (called j)).0 k a
  unfolding step decided
  called-HasMoved j =
      let live = is_live w.flights in
      let Goal = λ (b : Store × Decision). HasMoved (decided w j b).0 k a in
      elim (Option-cases (find j w.store.entries)) [
        | inl none_here ↦ subst Goal (sym (begin_absent live j w.next w.store none_here)) (
            start-HasMoved j
              (λ same. no_entry (ap (λ x. find x w.store.entries) (sym same) ∙ none_here)))
        | inr (e, there) ↦
            let begins = begin_found live j w.next w.store e there in
            let shared = record w.store { shared = w.store.shared + 1 } in
            elim (Option-cases (lock live e.session)) [
              | inr (q, locked) ↦
                  subst Goal (sym (begins ∙ visit_locked live j w.next w.store e q locked)) (
                    share-HasMoved shared q (λ h. record h { handles = h.handles + 1 }) (session q)
                      refl
                      (λ h here m dead.
                        omega (arith, (lock-some w.flights e.session q locked).1 h here, dead))
                      (λ h. refl) (λ h. refl))
              | inl dead ↦ elim (Option-cases e.pending) [
                | inr (q, named) ↦
                    subst Goal (sym (begins ∙ visit_pending live j w.next w.store e q dead named)) (
                      share-HasMoved shared q (λ h. record h { waiters = h.waiters + 1 }) nothing
                        refl
                        (λ h here m none_left. awaited_alive e j q there named h here m none_left)
                        (λ h. refl) (λ h. refl))
                | inl idle ↦
                    subst Goal (sym (begins ∙ visit_stale live j w.next w.store e dead idle)) (
                      start-HasMoved j (λ same.
                        idle_entry e (ap (λ x. find x w.store.entries) (sym same) ∙ there) dead
                          idle))
              ]
            ]
      ]
    where
      no_entry : find k w.store.entries ≡ none → a ≡ unused
      no_entry none_here = go a at
        where
          go : (b : Lifecycle) → IsAt w k b → b ≡ unused
          go b (absent n) = refl
          go b (expired p f named here gone) = refl
          go b (awaited p f named here busy) = absurd (none-some (sym none_here ∙ named))
          go b (left p f named here gone) = absurd (none-some (sym none_here ∙ named))
          go b (held p f named here alive) = absurd (none-some (sym none_here ∙ named))

      awaited_alive :
          (e : Entry) (j : Key) (q : ℕ)
          → find j w.store.entries ≡ some e
          → e.pending ≡ some q
          → (h : Flight) → w.flights q ≡ some h
          → h.stage ≡ made
          → flight_count h ≡ 0
          → ⊥
      awaited_alive e j q there named h here m dead =
          let (g, found, _, call) = (v.each_entry j e there).of_pending q named in
          elim (subst IsAwaited (some_injective (sym found ∙ here)) call) [
            | inl busy ↦ busy_count h m busy dead
            | inr gone ↦ broken_made (sym gone ∙ m)
          ]

  pub step-HasMoved : (event : Event) → HasMoved (step w event).0 k a
  unfolding step configure
  step-HasMoved (configured config) =
      untouched w v k (record w { store = configure config w.store }) a refl (λ p f key here. here)
        at
  step-HasMoved (called j) = called-HasMoved j
  step-HasMoved (finished q outcome) =
      at-HasMoved w v k a at q (λ h. finish_flight w q h h.stage outcome)
        (λ h there. finish-HasMoved w v k a at q h there h.stage outcome refl)
  step-HasMoved (published q) =
      at-HasMoved w v k a at q (λ h. publish_flight w q h h.stage h.loader)
        (λ h there. publish-HasMoved w v k a at q h there h.stage h.loader refl refl)
  step-HasMoved (woken q) =
      at-HasMoved w v k a at q (λ h. wake_flight w q h h.stage)
        (λ h there. wake-HasMoved w v k a at q h there h.stage refl)
  step-HasMoved (dropped q) =
      at-HasMoved w v k a at q (λ h. drop_flight w q h)
        (λ h there. drop-HasMoved w v k a at q h there)

run-IsAt :
    (events : List Event) (w : World) (k : Key) (a : Lifecycle)
    → WorldInv w
    → IsAt w k a
    → (b : Lifecycle) × IsAt (run w events) k b
unfolding run
run-IsAt [] w k a v at = (a, at)
run-IsAt (e ∷ es) w k a v at =
    let (b, next, _) = step-HasMoved w v k a at e in
    run-IsAt es (step w e).0 k b (step-Inv w v e) next

-- The store refines the abstract machine of a key, which goes from unused to loading, from there to
-- live, back to unused, or to poisoned, and from live to unused when the last reference goes: after
-- any events every key stands in one of these states, by what its entry and its flight are, and any
-- next event either leaves the key in its state or moves it along one of these edges.
pub step_refines :
    (config : CacheConfig) (events : List Event) (k : Key) (event : Event)
    → (a : Lifecycle) × IsAt (run (start config) events) k a
      × HasMoved (step (run (start config) events) event).0 k a
unfolding find
step_refines config events k event =
    let (a, at) = run-IsAt events (start config) k unused (start-Inv config) (absent refl) in
    let v = run-Inv events (start config) (start-Inv config) in
    (a, at, step-HasMoved (run (start config) events) v k a at event)
