-- ===== src/Store/Steps.antt =====
-- src/session_store.cpp, `acquire`: the invariant after the first critical section.
use cyborgdb_embed.Prelude.{
  ℕ, suc, ◌+◌, ◌<◌, ◌≡◌, refl, sym, ap, subst, ◌∙◌, inl, inr, Bool, true, false, Option, none, some,
  ltb, ltb→lt, lt→ltb, if◌then◌else◌, Option-cases, write, arith,
}
use cyborgdb_embed.Store.{Key, Entry, reuse, wait, find, insert, lock, start_load, visit_entry}
use cyborgdb_embed.Store.Keys.{find-insert_ne, find-insert_self}
use cyborgdb_embed.Store.World.{
  made, Flight, Flights, flight_count, is_live, new_flight, World, put, called, nothing, session,
  decided, step,
}
use cyborgdb_embed.Store.Invariant.{in_flight, EntryOk, IsAwaited}
use cyborgdb_embed.Store.Updates.{Unused, update-Inv, unnamed}
use cyborgdb_embed.Store.Branches.{
  visit_locked, visit_pending, visit_stale, begin_found, begin_absent, at_found,
}
use cyborgdb_embed.Store.Changes.{
  none-some, some_injective, true-false, broken_made, WorldInv, counts-Inv, in_flight-EntryOk,
}

pub lock_live :
    (flights : Flights) (q : ℕ) (h : Flight)
    → flights q ≡ some h
    → 0 < flight_count h
    → lock (is_live flights) (some q) ≡ some q
lock_live flights q h there lives =
    let live : is_live flights q ≡ true =
      ap (λ (o : Option Flight). ltb 0 (elim o [ none ↦ 0 | some f ↦ flight_count f ])) there
      ∙ lt→ltb 0 (flight_count h) lives in
    rw live

guarded :
    (b : Bool) (q p : ℕ)
    → ◌≡◌ {A = Option ℕ} (if b then some q else none) (some p)
    → (b ≡ true) × (q ≡ p)
guarded true q p e = (refl, some_injective e)
guarded false q p e = absurd (none-some e)

-- What the lock gives is the session, and it lives.
pub lock-some :
    (flights : Flights) (o : Option ℕ) (p : ℕ)
    → lock (is_live flights) o ≡ some p
    → (o ≡ some p) × ((f : Flight) → flights p ≡ some f → 0 < flight_count f)
lock-some flights none p e = absurd (none-some e)
lock-some flights (some q) p e =
    let (live, q_p) = guarded (is_live flights q) q p e in
    (
      ap (λ x. some x) q_p,
      λ f here. ltb→lt 0 (flight_count f) (
          sym (
            ap (λ (o : Option Flight). ltb 0 (elim o [ none ↦ 0 | some f ↦ flight_count f ]))
              (ap flights q_p ∙ here))
          ∙ live),
    )

not_awaited : (f : Flight) → f.loader ≡ false → f.stage ≡ made → IsAwaited f → ⊥
not_awaited f idle is (inl busy) = true-false (sym busy ∙ idle)
not_awaited f idle is (inr gone) = broken_made (sym gone ∙ is)

module _ (w : World) (v : WorldInv w) where
  -- The load that the first critical section starts, where nothing uses the key.
  start_load-Inv :
      (key : Key)
      → Unused w.store.entries w.flights w.next v key w.next
      → WorldInv (decided w key (start_load key w.next w.store)).0
  unfolding start_load decided
  start_load-Inv key unused =
      update-Inv w.store.entries w.flights w.next v (insert key (in_flight w.next) w.store.entries)
        key w.next (suc w.next) (new_flight key w.store.config) (omega arith) (omega arith)
        (λ j ne. find-insert_ne key j (in_flight w.next) w.store.entries ne)
        (λ f e. absurd (none-some (sym (v.fresh w.next (omega arith)) ∙ e))) unused
        (record {
          while_loading = λ _. find-insert_self key (in_flight w.next) w.store.entries;
          while_live = λ e. absurd (true-false e);
          unmade = λ _. refl;
          has_loader = λ _. refl;
        })
        (λ e found.
          subst (EntryOk (write w.flights w.next _) key)
            (some_injective (sym (find-insert_self key (in_flight w.next) w.store.entries) ∙ found))
            (in_flight-EntryOk w.flights w.next (new_flight key w.store.config) key refl refl))

  absent-Unused :
      (key : Key)
      → find key w.store.entries ≡ none
      → Unused w.store.entries w.flights w.next v key w.next
  absent-Unused key absent q h ne there k =
      let gone = ap (λ j. find j w.store.entries) k ∙ absent in
      unnamed w.store.entries w.flights w.next v q h there (λ e. none-some (sym gone ∙ e))
        (λ _ e. none-some (sym gone ∙ e))

  -- An entry with no live session and no pending load.
  stale-Unused :
      (key : Key) (e : Entry)
      → find key w.store.entries ≡ some e
      → lock (is_live w.flights) e.session ≡ none
      → e.pending ≡ none
      → Unused w.store.entries w.flights w.next v key w.next
  stale-Unused key e found dead idle q h ne there k =
      let its = ap (λ j. find j w.store.entries) k ∙ found in
      unnamed w.store.entries w.flights w.next v q h there
        (λ p. none-some (sym idle ∙ ap (λ (x : Entry). x.pending) (some_injective (sym its ∙ p))))
        (λ lives p. none-some (
          sym dead
          ∙ ap (λ (x : Entry). lock (is_live w.flights) x.session) (some_injective (sym its ∙ p))
          ∙ lock_live w.flights q h there lives))

  reuse-Inv :
      (key : Key) (e : Entry) (p : ℕ)
      → find key w.store.entries ≡ some e
      → lock (is_live w.flights) e.session ≡ some p
      → WorldInv (decided w key (record w.store { shared = w.store.shared + 1 }, reuse p)).0
  unfolding decided
  reuse-Inv key e p found locked =
      let (named, lives) = lock-some w.flights e.session p locked in
      let (f, here, its_key, is) = (v.each_entry key e found).of_session p named in
      subst (λ r. WorldInv r.0)
        (sym (
          at_found (record w { store = record w.store { shared = w.store.shared + 1 } }) p f
            (λ f. (
              put (record w { store = record w.store { shared = w.store.shared + 1 } }) p
                  (record f { handles = f.handles + 1 }),
              session p,
            ))
            here))
        (counts-Inv w v p f here f.waiters (f.handles + 1) (λ ne. absurd (ne is))
          (λ idle _ _. (v.each_flight p f here).while_live idle is (lives f here)))

  wait-Inv :
      (key : Key) (e : Entry) (p : ℕ)
      → find key w.store.entries ≡ some e
      → e.pending ≡ some p
      → WorldInv (decided w key (record w.store { shared = w.store.shared + 1 }, wait p)).0
  unfolding decided
  wait-Inv key e p found named =
      let (f, here, its_key, its_call) = (v.each_entry key e found).of_pending p named in
      subst (λ r. WorldInv r.0)
        (sym (
          at_found (record w { store = record w.store { shared = w.store.shared + 1 } }) p f
            (λ f. (
              put (record w { store = record w.store { shared = w.store.shared + 1 } }) p
                  (record f { waiters = f.waiters + 1 }),
              nothing,
            ))
            here))
        (counts-Inv w v p f here (f.waiters + 1) f.handles (v.each_flight p f here).unmade
          (λ idle is _. absurd (not_awaited f idle is its_call)))

  visit_entry-Inv :
      (key : Key) (e : Entry)
      → find key w.store.entries ≡ some e
      → WorldInv (decided w key (visit_entry (is_live w.flights) key w.next w.store e)).0
  visit_entry-Inv key e found = elim (Option-cases (lock (is_live w.flights) e.session)) [
    | inr (p, locked) ↦
        subst (λ d. WorldInv (decided w key d).0)
          (sym (visit_locked (is_live w.flights) key w.next w.store e p locked))
          (reuse-Inv key e p found locked)
    | inl dead ↦ elim (Option-cases e.pending) [
      | inr (p, named) ↦
          subst (λ d. WorldInv (decided w key d).0)
            (sym (visit_pending (is_live w.flights) key w.next w.store e p dead named))
            (wait-Inv key e p found named)
      | inl idle ↦
          subst (λ d. WorldInv (decided w key d).0)
            (sym (visit_stale (is_live w.flights) key w.next w.store e dead idle))
            (start_load-Inv key (stale-Unused key e found dead idle))
    ]
  ]

  pub called-Inv : (key : Key) → WorldInv (step w (called key)).0
  unfolding step
  called-Inv key = elim (Option-cases (find key w.store.entries)) [
    | inl absent ↦
        subst (λ d. WorldInv (decided w key d).0)
          (sym (begin_absent (is_live w.flights) key w.next w.store absent))
          (start_load-Inv key (absent-Unused key absent))
    | inr (e, found) ↦
        subst (λ d. WorldInv (decided w key d).0)
          (sym (begin_found (is_live w.flights) key w.next w.store e found))
          (visit_entry-Inv key e found)
  ]
