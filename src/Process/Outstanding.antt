-- ===== src/Process/Outstanding.antt =====
-- include/cyborgdb_embed/embed.hpp, `LoadedModel`: the opens that are outstanding, counted from the
-- program's embedders and the sessions they refer to, and what `loaded_models` says of them.
use cyborgdb_embed.Prelude.{
  different, ℕ, ◌≤◌, ◌<◌, ◌≡◌, refl, sym, ap, subst, ◌∙◌, ◌↔◌, inl, inr, Bool, true, false, ◌&&◌,
  List, Option, none, some, ltb, ltb→lt, ◌==◌, ==_iff, if◌then◌else◌, Bool-cases, total, total_cong,
  total_stable, total_place, arith,
}
use mathlib.Core.List.{Memᴰ}
use cyborgdb_embed.Float.{Float}
use cyborgdb_embed.Resolve.Download.{Machine}
use cyborgdb_embed.Session.Loader.{Loader}
use cyborgdb_embed.Tokenizer.Shim.{Library}
use cyborgdb_embed.Session.{Session}
use cyborgdb_embed.Store.{Key, key_eq, lock, LoadedModel}
use cyborgdb_embed.Store as Store
use cyborgdb_embed.Store.Keys.{key_eq_iff}
use cyborgdb_embed.Store.Invariant.{holding}
use cyborgdb_embed.Store.Changes.{some_injective}
use cyborgdb_embed.Store.Order.{find_mem, mem_find}
use cyborgdb_embed.Store.Sessions.{one_in_use}
use cyborgdb_embed.Store.Steps.{lock-some}
use cyborgdb_embed.Store.Listed.{keys_increase, keys_increase-loaded, listed-From, is_listed}
use cyborgdb_embed.Store.World.{Flight, Flights, use_count, is_live}
use cyborgdb_embed.Process.{Process}
use cyborgdb_embed.Process.Api.{Request, Answer, serve, first_process, loaded_models}
use cyborgdb_embed.Process.Counts.{names, holds, handles_of, handles_found}
use cyborgdb_embed.Process.Counts.Links.{owned_held}
use cyborgdb_embed.Process.Quiet.{Quiet}
use cyborgdb_embed.Process.Drop.{use_count_idle, flight_count_idle, handles_live}
use cyborgdb_embed.Process.Keys.{session_key, Fits-key}
use cyborgdb_embed.Process.Lifetime.{InMemory, in_memory}
use cyborgdb_embed.Process.Serve.{reached-Quiet}

-- A weight that is not 0.
weighed : (a : ℕ) (b : Bool) → 0 < (if ltb 0 a && b then 1 else 0) → (0 < a) × (b ≡ true)
weighed a b h = ground arith

locks :
    (flights : Flights) (p : ℕ)
    → 0 < handles_of flights p
    → lock (is_live flights) (some p) ≡ some p
locks flights p held = rw (handles_live flights p held) refl

module _ (fl : Float) (lib : Library) where
  abbrev pub is_of : Key → Option (Session fl lib) → Bool
  is_of key none = false
  is_of key (some s) = key_eq (session_key fl lib s) key

  module _ (loader : Loader fl lib) where
    open fl use {F}

    abbrev Proc : Type 0
    Proc = Process fl lib loader

    -- One of the first `n` variables refers to the `Impl` of an open, and its session is of the key.
    abbrev pub is_outstanding : Proc → ℕ → Key → ℕ → ℕ
    is_outstanding P n key k =
        if ltb 0 (total (names k) P.embedders n) && is_of key (P.sessions (P.impls k).session)
        then 1
        else 0

    -- The distinct opens with the key whose embedder, or a copy of it, is still there.
    abbrev pub outstanding : Proc → ℕ → Key → ℕ
    outstanding P n key = total (is_outstanding P n key) (λ k. k) P.next_impl

    module _ (P : Proc) (q : Quiet fl lib loader P) (n : ℕ)
        (above : (i : ℕ) → n ≤ i → P.embedders i ≡ none) where
      -- The variables that refer to an `Impl` are its owners.
      referring : (k : ℕ) → total (names k) P.embedders n ≡ (P.impls k).owners
      unfolding names
      referring k =
          let c = q.counted in
          let e = c.owned k in
          total_stable (names k) P.embedders n c.variables (λ i h. ap (names k) (above i h))
            (λ i h. ap (names k) (c.unused i h))
          ∙ omega arith

      -- Two sessions in memory for a key are one.
      same_load :
          (p r : ℕ) (m : InMemory fl lib loader P p) (o : InMemory fl lib loader P r)
          → m.flight.key ≡ o.flight.key
          → p ≡ r
      same_load p r m o key =
          one_in_use P.world q.settled.sound.0 p r m.flight o.flight m.here o.here key
            (inr (let h = m.held in omega arith)) (inr (let h = o.held in omega arith))

      weights :
          (p : ℕ) (m : InMemory fl lib loader P p) (k : ℕ)
          → is_outstanding P n m.flight.key k ≡ holds p (P.impls k)
      unfolding holds
      weights p m k = elim (Bool-cases (ltb 0 (P.impls k).owners)) [
        | inr free ↦ rw (referring k, free) refl
        | inl owned ↦
            let o =
              in_memory fl lib loader P q (P.impls k).session
                (owned_held k q.counted (ltb→lt 0 (P.impls k).owners owned)) in
            let its_key = Fits-key fl lib o.flight.key o.object o.fits in
            elim (Bool-cases ((P.impls k).session == p)) [
              | inl same ↦
                  let e : (P.impls k).session ≡ p = (==_iff (P.impls k).session p).0 same in
                  let hit : is_of m.flight.key (P.sessions (P.impls k).session) ≡ true =
                    ap (λ x. is_of m.flight.key (P.sessions x)) e
                    ∙ ap (is_of m.flight.key) m.there
                    ∙ (key_eq_iff (session_key fl lib m.object) m.flight.key).1
                        (Fits-key fl lib m.flight.key m.object m.fits) in
                  rw (referring k, owned, hit, same) refl
              | inr differ ↦
                  elim (Bool-cases (is_of m.flight.key (P.sessions (P.impls k).session))) [
                    | inr other ↦ rw (referring k, owned, other, differ) refl
                    | inl of_key ↦
                        let key : m.flight.key ≡ o.flight.key = sym (
                          sym its_key
                          ∙ (key_eq_iff (session_key fl lib o.object) m.flight.key).0
                              (sym (ap (is_of m.flight.key) o.there) ∙ of_key)) in
                        absurd (
                          different (P.impls k).session p differ
                            (sym (same_load p (P.impls k).session m o key)))
                  ]
            ]
      ]

      -- The references to a session in memory are the opens outstanding with its key.
      counted_opens :
          (p : ℕ) (m : InMemory fl lib loader P p)
          → use_count P.world.flights p ≡ outstanding P n m.flight.key
      unfolding names
      counted_opens p m =
          let calm = q.settled.calm p m.flight m.here in
          let total_holds =
            total_cong (is_outstanding P n m.flight.key) (holds p) (λ k. k) P.impls P.next_impl
              (λ k _. weights p m k) in
          let held = q.counted.held p in
          let count = handles_found P.world.flights p m.flight m.here in
          use_count_idle P.world.flights p m.flight m.here calm.idle calm.alone ∙ omega arith

      -- What the list says of a key.
      abbrev Reports : LoadedModel → Type 0
      Reports l = (l.handles ≡ outstanding P n l.key) × (0 < l.handles)

      listed-Reports :
          (l : LoadedModel)
          → Memᴰ l (Store.loaded_models (use_count P.world.flights) P.world.store.entries)
          → Reports l
      listed-Reports l there =
          let entries = P.world.store.entries in
          let r = listed-From (use_count P.world.flights) entries l there in
          let found = find_mem l.key r.entry entries q.settled.sound.1 r.is_entry in
          let (named, lives) = lock-some P.world.flights r.entry.session r.load r.locked in
          let (f, here, its_key, _) =
            (q.settled.sound.0.each_entry l.key r.entry found).of_session r.load named in
          let calm = q.settled.calm r.load f here in
          let count = flight_count_idle f calm.idle calm.alone in
          let handles = handles_found P.world.flights r.load f here in
          let alive = lives f here in
          let m = in_memory fl lib loader P q r.load (omega arith) in
          let key : m.flight.key ≡ l.key =
            ap (λ (x : Flight). x.key) (some_injective (sym m.here ∙ here)) ∙ its_key in
          let uses = use_count_idle P.world.flights r.load f here calm.idle calm.alone in
          let listed = r.counted in
          (r.counted ∙ counted_opens r.load m ∙ ap (outstanding P n) key, omega arith)

      reported_listed :
          (l : LoadedModel)
          → Reports l
          → Memᴰ l (Store.loaded_models (use_count P.world.flights) P.world.store.entries)
      reported_listed l (same, pos) =
          let (k, _, weighs) =
            total_place (is_outstanding P n l.key) (λ k. k) P.next_impl (omega arith) in
          let (refers, of_key) =
            weighed (total (names k) P.embedders n) (is_of l.key (P.sessions (P.impls k).session))
              weighs in
          let p = (P.impls k).session in
          let owners = referring k in
          let o = in_memory fl lib loader P q p (owned_held k q.counted (omega arith)) in
          let key : o.flight.key ≡ l.key =
            sym (Fits-key fl lib o.flight.key o.object o.fits)
            ∙ (key_eq_iff (session_key fl lib o.object) l.key).0
                (sym (ap (is_of l.key) o.there) ∙ of_key) in
          let calm = q.settled.calm p o.flight o.here in
          let held = o.held in
          let found =
            (q.settled.sound.0.each_flight p o.flight o.here).while_live calm.idle o.is
              (omega arith) in
          let count = counted_opens p o ∙ ap (outstanding P n) key ∙ sym same in
          subst
            (λ x. Memᴰ x (Store.loaded_models (use_count P.world.flights) P.world.store.entries))
            (λ i. record { key = key i; handles = count i })
            (is_listed (use_count P.world.flights) P.world.store.entries o.flight.key (holding p) p
              (mem_find o.flight.key (holding p) P.world.store.entries found)
              (locks P.world.flights p
                (let e = handles_found P.world.flights p o.flight o.here in omega arith)))

    module _ (machine : Machine) (requests : List (Request F)) (answers : List (Answer F))
        (P : Proc)
        (reached : serve fl lib loader requests (first_process fl lib loader machine)
          ≡ some (answers, P)) where
      -- In any process that a program reaches, with `n` above the variables in use: `loaded_models`
      -- lists each key at most once, in the order of the keys, and it lists a key with a number of
      -- handles exactly if the number is not 0 and is that of the distinct opens with that key that are
      -- outstanding: those whose embedder, or a copy of it, still refers to a session of that model,
      -- provider and precision.
      pub loaded_models_lem :
          (n : ℕ)
          → ((i : ℕ) → n ≤ i → P.embedders i ≡ none)
          → (keys_increase (loaded_models fl lib loader P) ≡ true)
            × ((l : LoadedModel)
                → Memᴰ l (loaded_models fl lib loader P)
                  ↔ ((l.handles ≡ outstanding P n l.key) × (0 < l.handles)))
      unfolding loaded_models
      loaded_models_lem n above =
          let q = reached-Quiet fl lib loader machine requests answers P reached in
          (
            keys_increase-loaded (use_count P.world.flights) P.world.store.entries
                q.settled.sound.1,
            λ l. (listed-Reports P q n above l, reported_listed P q n above l),
          )
