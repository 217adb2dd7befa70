-- ===== src/Store/Changes.antt =====
-- src/session_store.cpp: the invariant after each change of a flight and its entry.
use cyborgdb_embed.Prelude.{
  ℕ, ◌+◌, ◌≤◌, ◌<◌, ◌≡◌, ◌≢◌, refl, sym, ap, subst, ◌∙◌, ◌⊎◌, inl, inr, true, false, Option, none,
  some, write, write_hit, arith,
}
use cyborgdb_embed.Status.{Status}
use cyborgdb_embed.Store.{Key, find, insert, erase, end_acquire}
use cyborgdb_embed.Store.Keys.{find-insert_ne, find-insert_self, find-erase_ne, find-erase_self}
use cyborgdb_embed.Store.World.{
  Stage, loading, made, broken, failed, Flight, Flights, flight_count, World, put,
}
use cyborgdb_embed.Store.Invariant.{in_flight, holding, EntryOk, Inv, change-Inv}
use cyborgdb_embed.Store.Updates.{update-Inv, loading-Unused}

pub true-false : true ≡ false → ⊥
true-false e = cc

pub loading_made : loading ≡ made → ⊥
loading_made e = cc

pub broken_made : broken ≡ made → ⊥
broken_made e = cc

pub failed_made : {s : Status} → failed s ≡ made → ⊥
failed_made e = cc

pub failed_loading : {s : Status} → failed s ≡ loading → ⊥
failed_loading e = cc

pub none-some : {A : Type 0} {a : A} → ◌≡◌ {A = Option A} none (some a) → ⊥
none-some e = cc

pub some_injective : {A : Type 0} {a b : A} → ◌≡◌ {A = Option A} (some a) (some b) → a ≡ b
some_injective e = cc

pub holding-EntryOk :
    (flights : Flights) (p : ℕ) (g : Flight) (k : Key)
    → g.key ≡ k
    → g.stage ≡ made
    → EntryOk (write flights p (some g)) k (holding p)
holding-EntryOk flights p g k key is = record {
  of_session = λ q named. (g, rw (← some_injective named) (write_hit flights p (some g)), key, is);
  of_pending = λ q named. absurd (none-some named);
}

pub in_flight-EntryOk :
    (flights : Flights) (p : ℕ) (g : Flight) (k : Key)
    → g.key ≡ k
    → g.loader ≡ true
    → EntryOk (write flights p (some g)) k (in_flight p)
in_flight-EntryOk flights p g k key busy = record {
  of_session = λ q named. absurd (none-some named);
  of_pending =
      λ q named. (g, rw (← some_injective named) (write_hit flights p (some g)), key, inl busy);
}

abbrev pub WorldInv : World → Type 0
WorldInv w = Inv w.store.entries w.flights w.next

module _ (w : World) (v : WorldInv w) (p : ℕ) (f : Flight) (here : w.flights p ≡ some f) where
  in_range : p < w.next
  in_range = elim (le_lt w.next p) [
    | inl le ↦ absurd (none-some (sym (v.fresh p le) ∙ here))
    | inr lt ↦ lt
  ]
    where
      le_lt : (a b : ℕ) → (a ≤ b) ⊎ (b < a)
      le_lt a b = ground arith

  -- More or fewer handles and waiters, where the entry of the key still names the session.
  pub counts-Inv :
      (waiters handles : ℕ)
      → (f.stage ≢ made → handles ≡ 0)
      → (f.loader ≡ false
          → f.stage ≡ made
          → 0 < flight_count (record f { waiters = waiters; handles = handles })
          → find f.key w.store.entries ≡ some (holding p))
      → WorldInv (put w p (record f { waiters = waiters; handles = handles }))
  counts-Inv waiters handles unmade live =
      let old = v.each_flight p f here in
      change-Inv w.store.entries w.flights w.next v p f
        (record f { waiters = waiters; handles = handles }) here refl (λ e. e) (λ e. e)
        (record {
          while_loading = old.while_loading;
          while_live = live;
          unmade = unmade;
          has_loader = old.has_loader;
        })

  -- The load ends, with the call still to publish.
  pub ended-Inv :
      (stage : Stage)
      → f.stage ≡ loading
      → stage ≢ loading
      → WorldInv (put w p (record f { stage = stage }))
  ended-Inv stage was is =
      let old = v.each_flight p f here in
      let busy = old.has_loader was in
      change-Inv w.store.entries w.flights w.next v p f (record f { stage = stage }) here refl
        (λ e. absurd (loading_made (sym was ∙ e))) (λ _. inl busy)
        (record {
          while_loading = old.while_loading;
          while_live = λ idle _ _. absurd (true-false (sym busy ∙ idle));
          unmade = λ _. old.unmade (λ e. loading_made (sym was ∙ e));
          has_loader = λ e. absurd (is e);
        })

  -- The load throws, and the call is gone.
  pub thrown-Inv :
      f.stage ≡ loading → WorldInv (put w p (record f { stage = broken; loader = false }))
  thrown-Inv was =
      let old = v.each_flight p f here in
      change-Inv w.store.entries w.flights w.next v p f
        (record f { stage = broken; loader = false }) here refl
        (λ e. absurd (loading_made (sym was ∙ e))) (λ _. inr refl)
        (record {
          while_loading = λ e. absurd (true-false (sym e));
          while_live = λ _ e _. absurd (broken_made e);
          unmade = λ _. old.unmade (λ e. loading_made (sym was ∙ e));
          has_loader = λ e. absurd (broken_loading e);
        })
    where
      broken_loading : broken ≡ loading → ⊥
      broken_loading e = cc

  same_key : (g : Flight) → w.flights p ≡ some g → g.key ≡ f.key
  same_key g e = ap (λ (x : Flight). x.key) (some_injective (sym e ∙ here))

  -- The second critical section finds the entry that the first one made.
  pub end_acquire_made :
      f.loader ≡ true
      → end_acquire f.key p true w.store
        ≡ record w.store { entries = insert f.key (holding p) w.store.entries }
  unfolding end_acquire
  end_acquire_made busy = rw (end_acquire, (v.each_flight p f here).while_loading busy)

  pub end_acquire_failed :
      f.loader ≡ true
      → end_acquire f.key p false w.store ≡ record w.store { entries = erase f.key w.store.entries }
  unfolding end_acquire
  end_acquire_failed busy = rw (end_acquire, (v.each_flight p f here).while_loading busy)

  -- The session is published.
  pub made-Inv :
      f.stage ≡ made
      → f.loader ≡ true
      → WorldInv (
          put
            (record w { store = end_acquire f.key p true w.store })
            p
            (record f { loader = false; handles = f.handles + 1 }))
  made-Inv is busy =
      subst
        (λ s.
          WorldInv
            (put (record w { store = s }) p (record f { loader = false; handles = f.handles + 1 })))
        (sym (end_acquire_made busy))
        (update-Inv w.store.entries w.flights w.next v (insert f.key (holding p) w.store.entries)
          f.key p w.next (record f { loader = false; handles = f.handles + 1 }) (omega arith)
          in_range (λ j ne. find-insert_ne f.key j (holding p) w.store.entries ne) same_key
          (loading-Unused w.store.entries w.flights w.next v p f here busy)
          (record {
            while_loading = λ e. absurd (true-false (sym e));
            while_live = λ _ _ _. find-insert_self f.key (holding p) w.store.entries;
            unmade = λ ne. absurd (ne is);
            has_loader = λ e. absurd (loading_made (sym e ∙ is));
          })
          (λ e found.
            subst (EntryOk (write w.flights p _) f.key)
              (some_injective (sym (find-insert_self f.key (holding p) w.store.entries) ∙ found))
              (holding-EntryOk w.flights p (record f { loader = false; handles = f.handles + 1 })
                f.key refl is)))

  -- A load that failed is forgotten.
  pub failed-Inv :
      (s : Status)
      → f.stage ≡ failed s
      → f.loader ≡ true
      → WorldInv (
          put
            (record w { store = end_acquire f.key p false w.store })
            p
            (record f { loader = false }))
  failed-Inv s is busy =
      subst (λ t. WorldInv (put (record w { store = t }) p (record f { loader = false })))
        (sym (end_acquire_failed busy))
        (update-Inv w.store.entries w.flights w.next v (erase f.key w.store.entries) f.key p w.next
          (record f { loader = false }) (omega arith) in_range
          (λ j ne. find-erase_ne f.key j w.store.entries ne) same_key
          (loading-Unused w.store.entries w.flights w.next v p f here busy)
          (record {
            while_loading = λ e. absurd (true-false (sym e));
            while_live = λ _ e _. absurd (failed_made (sym is ∙ e));
            unmade = (v.each_flight p f here).unmade;
            has_loader = λ e. absurd (failed_loading (sym is ∙ e));
          })
          (λ e found. absurd (none-some (sym (find-erase_self f.key w.store.entries) ∙ found))))
