-- ===== src/Store/Edges.antt =====
-- src/session_store.cpp: the events of a flight move every key along an edge of the abstract machine.
use cyborgdb_embed.Prelude.{
  ℕ, ◌+◌, ◌-◌, ◌≡◌, ◌≢◌, refl, sym, ap, subst, ◌∙◌, ◌⊎◌, inl, inr, Bool, true, false, Option, some,
  ltb, ltb→lt, Bool-cases, Option-cases, write_hit, write_miss, arith,
}
use cyborgdb_embed.Store.{Key, Entry, Store, find, insert, erase, end_acquire}
use cyborgdb_embed.Store.Keys.{
  key_cases, find-insert_ne, find-insert_self, find-erase_ne, find-erase_self,
}
use cyborgdb_embed.Store.World.{
  Stage, loading, made, broken, failed, Flight, flight_count, World, put, at_flight, Outcome, built,
  threw, refused, Reply, finish_flight, publish_flight, wake_flight, drop_flight,
}
use cyborgdb_embed.Store.Invariant.{in_flight, holding}
use cyborgdb_embed.Store.Branches.{at_found, at_none}
use cyborgdb_embed.Store.Changes.{
  none-some, some_injective, loading_made, broken_made, failed_made, WorldInv, end_acquire_made,
  end_acquire_failed,
}
use cyborgdb_embed.Store.Lifecycle.{
  Lifecycle, unused, loads, lives, stays, publishes, gives_up, IsAt, absent, expired, awaited, held,
  left, HasMoved, untouched, changed,
}

loading_broken : loading ≡ broken → ⊥
loading_broken e = cc

failed_broken : {s : _} → failed s ≡ broken → ⊥
failed_broken e = cc

-- A flight with a session and a call that loads or waits is referred to.
pub busy_count : (f : Flight) → f.stage ≡ made → f.loader ≡ true → flight_count f ≡ 0 → ⊥
busy_count f is busy dead =
    let two : flight_count f ≡ f.handles + 2 = rw (is, busy) refl in omega (arith, dead, two)

waited_count : (f : Flight) → f.stage ≡ made → ltb 0 f.waiters ≡ true → flight_count f ≡ 0 → ⊥
waited_count f is waits dead = elim (Bool-cases f.loader) [
  | inl busy ↦ busy_count f is busy dead
  | inr idle ↦
      let one : flight_count f ≡ f.handles + 1 = rw (is, idle, waits) refl in
      omega (arith, dead, one)
]

held_count : (f : Flight) → ltb 0 f.handles ≡ true → flight_count f ≡ 0 → ⊥
held_count f some_held dead = omega (arith, ltb→lt 0 f.handles some_held, dead)

same_pending : (p q : ℕ) → ◌≡◌ {A = Option Entry} (some (in_flight p)) (some (in_flight q)) → p ≡ q
same_pending p q e = cc

pending_holding : (p q : ℕ) → ◌≡◌ {A = Option Entry} (some (in_flight p)) (some (holding q)) → ⊥
pending_holding p q e = cc

module _ (w : World) (v : WorldInv w) (k : Key) (a : Lifecycle) (at : IsAt w k a) where
  still : HasMoved w k a
  still = (a, at, stays)

  -- An event of a flight: nothing happens where there is none.
  pub at-HasMoved :
      (q : ℕ) (change : Flight → World × Reply)
      → ((h : Flight) → w.flights q ≡ some h → HasMoved (change h).0 k a)
      → HasMoved (at_flight w q change).0 k a
  at-HasMoved q change each = elim (Option-cases (w.flights q)) [
    | inl gone ↦ subst (λ r. HasMoved r.0 k a) (sym (at_none w q change gone)) still
    | inr (h, there) ↦
        subst (λ r. HasMoved r.0 k a) (sym (at_found w q h change there)) (each h there)
  ]

  module _ (q : ℕ) (h : Flight) (there : w.flights q ≡ some h) where
    moved :
        (g : Flight)
        → (h.stage ≡ made → flight_count h ≡ 0 → flight_count g ≡ 0)
        → (h.loader ≡ true → (g.loader ≡ true) ⊎ (g.stage ≡ broken))
        → (h.stage ≡ broken → g.stage ≡ broken)
        → HasMoved (put w q g) k a
    moved g on_dead on_busy on_gone =
        changed w v k w.store w.next q h g a there refl on_dead on_busy on_gone at

    pub finish-HasMoved :
        (stage : Stage) (outcome : Outcome)
        → h.stage ≡ stage
        → HasMoved (finish_flight w q h stage outcome).0 k a
    unfolding finish_flight
    finish-HasMoved loading built is =
        moved (record h { stage = made }) (λ m _. absurd (loading_made (sym is ∙ m))) (λ b. inl b)
          (λ b. absurd (loading_broken (sym is ∙ b)))
    finish-HasMoved loading (refused s) is =
        moved (record h { stage = failed s }) (λ m _. absurd (loading_made (sym is ∙ m)))
          (λ b. inl b) (λ b. absurd (loading_broken (sym is ∙ b)))
    finish-HasMoved loading threw is =
        moved (record h { stage = broken; loader = false })
          (λ m _. absurd (loading_made (sym is ∙ m))) (λ _. inr refl) (λ _. refl)
    finish-HasMoved made outcome is = still
    finish-HasMoved broken outcome is = still
    finish-HasMoved (failed s) outcome is = still

    pub wake-HasMoved : (stage : Stage) → h.stage ≡ stage → HasMoved (wake_flight w q h stage).0 k a
    unfolding wake_flight
    wake-HasMoved made is = elim (Bool-cases (ltb 0 h.waiters)) [
      | inl waits ↦ rw waits (
          moved (record h { waiters = h.waiters - 1; handles = h.handles + 1 })
            (λ m dead. absurd (waited_count h m waits dead)) (λ b. inl b) (λ b. b))
      | inr nobody ↦ rw nobody still
    ]
    wake-HasMoved (failed s) is = elim (Bool-cases (ltb 0 h.waiters)) [
      | inl waits ↦ rw waits (
          moved (record h { waiters = h.waiters - 1 }) (λ m _. absurd (failed_made (sym is ∙ m)))
            (λ b. inl b) (λ b. b))
      | inr nobody ↦ rw nobody still
    ]
    wake-HasMoved broken is = elim (Bool-cases (ltb 0 h.waiters)) [
      | inl waits ↦ rw waits (
          moved (record h { waiters = h.waiters - 1 }) (λ m _. absurd (broken_made (sym is ∙ m)))
            (λ b. inl b) (λ b. b))
      | inr nobody ↦ rw nobody still
    ]
    wake-HasMoved loading is = still

    pub drop-HasMoved : HasMoved (drop_flight w q h).0 k a
    unfolding drop_flight
    drop-HasMoved = elim (Bool-cases (ltb 0 h.handles)) [
      | inl some_held ↦ rw some_held (
          moved (record h { handles = h.handles - 1 })
            (λ m dead. absurd (held_count h some_held dead)) (λ b. inl b) (λ b. b))
      | inr nobody ↦ rw nobody still
    ]

    -- The key of a call that is still to publish is loading.
    was_loading : h.key ≡ k → h.loader ≡ true → h.stage ≢ broken → a ≡ loads
    was_loading key busy whole =
        go a at (
          ap (λ x. find x w.store.entries) (sym key) ∙ (v.each_flight q h there).while_loading busy)
      where
        go : (b : Lifecycle) → IsAt w k b → find k w.store.entries ≡ some (in_flight q) → b ≡ loads
        go b (absent none_here) named = absurd (none-some (sym none_here ∙ named))
        go b (expired p f entry here dead) named = absurd (pending_holding q p (sym named ∙ entry))
        go b (held p f entry here alive) named = absurd (pending_holding q p (sym named ∙ entry))
        go b (awaited p f entry here is) named = refl
        go b (left p f entry here gone) named =
            let e : p ≡ q = same_pending p q (sym entry ∙ named) in
            let f_h : f ≡ h = some_injective (sym here ∙ ap w.flights e ∙ there) in
            absurd (whole (ap (λ (x : Flight). x.stage) (sym f_h) ∙ gone))

    -- A flight of another key changes, and so does the entry of that key.
    elsewhere :
        (store : Store) (g : Flight)
        → find k store.entries ≡ find k w.store.entries
        → h.key ≢ k
        → HasMoved (put (record w { store = store }) q g) k a
    elsewhere store g same other =
        untouched w v k (put (record w { store = store }) q g) a same
          (λ p f key here.
            write_miss w.flights q p (some g) (λ e. other (
              ap (λ (x : Flight). x.key) (some_injective (sym there ∙ ap w.flights e ∙ here))
              ∙ key))
            ∙ here)
          at

    pub publish-HasMoved :
        (stage : Stage) (loader : Bool)
        → h.stage ≡ stage
        → h.loader ≡ loader
        → HasMoved (publish_flight w q h stage loader).0 k a
    unfolding publish_flight
    publish-HasMoved made true is busy =
        let g = record h { loader = false; handles = h.handles + 1 } in
        let store = end_acquire h.key q true w.store in
        let entries : find k store.entries ≡ find k (insert h.key (holding q) w.store.entries) =
          ap (λ s. find k s.entries) (end_acquire_made w v q h there busy) in
        elim (key_cases h.key k) [
          | inr other ↦
              elsewhere store g (entries ∙ find-insert_ne h.key k (holding q) w.store.entries other)
                other
          | inl key ↦
              subst (HasMoved (put (record w { store = store }) q g) k)
                (sym (was_loading key busy (λ b. broken_made (sym b ∙ is))))
                (
                  lives,
                  held q g
                      (entries
                        ∙ ap (λ j. find k (insert j (holding q) w.store.entries)) key
                        ∙ find-insert_self k (holding q) w.store.entries)
                      (write_hit w.flights q (some g)) (omega arith),
                  publishes,
                )
        ]
    publish-HasMoved (failed s) true is busy =
        let g = record h { loader = false } in
        let store = end_acquire h.key q false w.store in
        let entries : find k store.entries ≡ find k (erase h.key w.store.entries) =
          ap (λ s. find k s.entries) (end_acquire_failed w v q h there busy) in
        elim (key_cases h.key k) [
          | inr other ↦
              elsewhere store g (entries ∙ find-erase_ne h.key k w.store.entries other) other
          | inl key ↦
              subst (HasMoved (put (record w { store = store }) q g) k)
                (sym (was_loading key busy (λ b. failed_broken (sym is ∙ b))))
                (
                  unused,
                  absent (
                      entries
                      ∙ ap (λ j. find k (erase j w.store.entries)) key
                      ∙ find-erase_self k w.store.entries),
                  gives_up,
                )
        ]
    publish-HasMoved made false is busy = still
    publish-HasMoved (failed s) false is busy = still
    publish-HasMoved loading loader is busy = still
    publish-HasMoved broken loader is busy = still
