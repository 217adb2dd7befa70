-- ===== src/Store/Branches.antt =====
-- src/session_store.cpp, `acquire`: the branches of its first critical section, as equations.
use cyborgdb_embed.Prelude.{ℕ, ◌+◌, ◌≡◌, Bool, none, some}
use cyborgdb_embed.Store.{
  Key, Entry, Store, reuse, wait, find, lock, start_load, visit_entry, begin_acquire,
}
use cyborgdb_embed.Store.World.{Flight, World, at_flight, Reply, nothing}

module _ (live : ℕ → Bool) (key : Key) (fresh : ℕ) (store : Store) (e : Entry) where
  pub visit_locked :
      (p : ℕ)
      → lock live e.session ≡ some p
      → visit_entry live key fresh store e ≡ (record store { shared = store.shared + 1 }, reuse p)
  unfolding visit_entry
  visit_locked p locked = rw (visit_entry, locked)

  pub visit_pending :
      (p : ℕ)
      → lock live e.session ≡ none
      → e.pending ≡ some p
      → visit_entry live key fresh store e ≡ (record store { shared = store.shared + 1 }, wait p)
  unfolding visit_entry
  visit_pending p dead named = rw (visit_entry, dead, named)

  pub visit_stale :
      lock live e.session ≡ none
      → e.pending ≡ none
      → visit_entry live key fresh store e ≡ start_load key fresh store
  unfolding visit_entry
  visit_stale dead idle = rw (visit_entry, dead, idle)

  pub begin_found :
      find key store.entries ≡ some e
      → begin_acquire live key fresh store ≡ visit_entry live key fresh store e
  unfolding begin_acquire
  begin_found found = rw (begin_acquire, found)

pub begin_absent :
    (live : ℕ → Bool) (key : Key) (fresh : ℕ) (store : Store)
    → find key store.entries ≡ none
    → begin_acquire live key fresh store ≡ start_load key fresh store
unfolding begin_acquire
begin_absent live key fresh store absent = rw (begin_acquire, absent)

pub at_found :
    (w : World) (p : ℕ) (f : Flight) (change : Flight → World × Reply)
    → w.flights p ≡ some f
    → at_flight w p change ≡ change f
at_found w p f change here = rw (at_flight, here)

pub at_none :
    (w : World) (p : ℕ) (change : Flight → World × Reply)
    → w.flights p ≡ none
    → at_flight w p change ≡ (w, nothing)
at_none w p change gone = rw (at_flight, gone)
