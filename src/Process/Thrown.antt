-- ===== src/Process/Thrown.antt =====
-- src/embed.cpp, `open` of a model whose load has thrown.
use cyborgdb_embed.Prelude.{
  ℕ, ◌+◌, ◌≡◌, refl, sym, ap, ◌∙◌, inl, inr, subst, List, none, some, arith,
}
use cyborgdb_embed.Status.{Ending, throws}
use cyborgdb_embed.Float.{Float}
use cyborgdb_embed.Registry.{ModelId}
use cyborgdb_embed.Registry.Lookup.Entries.{find_every}
use cyborgdb_embed.Registry.Table.{all_mini_lm_l6_v2_entry}
use cyborgdb_embed.Resolve.Download.{Machine}
use cyborgdb_embed.Session.Loader.{Loader}
use cyborgdb_embed.Tokenizer.Shim.{Library}
use cyborgdb_embed.Store.{Key, wait, begin_acquire}
use cyborgdb_embed.Store.World.{woken, is_live, decided, step}
use cyborgdb_embed.Store.Invariant.{in_flight}
use cyborgdb_embed.Store.Changes.{some_injective}
use cyborgdb_embed.Store.Branches.{visit_pending, begin_found}
use cyborgdb_embed.Store.Alone.{wait_raised}
use cyborgdb_embed.Store.Poisoned.{IsPoisoned}
use cyborgdb_embed.Process.{
  Options, key_of, Process, answer, continue, acquire, finish_open, open_model,
}
use cyborgdb_embed.Process.Api.{Request, Answer, serve, first_process}
use cyborgdb_embed.Process.Open.{open_lem}
use cyborgdb_embed.Process.Serve.{reached-Quiet}
use cyborgdb_embed.Process.Poisoned.{Poisonous, serve-IsBad}

module _ (fl : Float) (lib : Library) (loader : Loader fl lib) where
  open fl use {F}

  abbrev Proc : Type 0
  Proc = Process fl lib loader

  module _ (id : ModelId) (options : Options) where
    abbrev key : Key
    key = record { model = id; provider = options.provider; precision = options.precision }

    -- An `open` that comes upon the entry of a load that has thrown.
    poisoned_throws :
        (S : Proc) (q : ℕ) (j : ℕ)
        → IsPoisoned key q S.world
        → (T : Proc) × (open_model fl lib loader id options j S ≡ some (throws, T))
          × (T.world.store.loaded ≡ S.world.store.loaded)
          × (T.host ≡ S.host)
          × (T.embedders ≡ S.embedders)
    unfolding open_model acquire continue answer finish_open
    poisoned_throws S q j d =
        let (entry, found, its_id, _, _, _, _) =
          find_every id all_mini_lm_l6_v2_entry all_mini_lm_l6_v2_entry.info in
        let k = key_of entry options in
        let same : key ≡ k =
          ap (λ m. record { model = m; provider = options.provider; precision = options.precision })
            (sym its_id) in
        let w = S.world in
        let store = record w.store { shared = w.store.shared + 1 } in
        let begins : begin_acquire (is_live w.flights) k w.next w.store ≡ (store, wait q) =
          ap (λ x. begin_acquire (is_live w.flights) x w.next w.store) (sym same)
          ∙ begin_found (is_live w.flights) key w.next w.store (in_flight q) d.pending
          ∙ visit_pending (is_live w.flights) key w.next w.store (in_flight q) q refl refl in
        let e = wait_raised w k store q d.flight d.here d.stage in
        let T = record S { world = (step (decided w k (store, wait q)).0 (woken q)).0 } in
        let acquires : acquire fl lib loader entry options S ≡ some (throws, none, T) =
          ap (continue fl lib loader entry options S) begins
          ∙ ap (answer fl lib loader T) (ap (λ r. r.1) e) in
        (
          T,
          (rw (open_model, found) (ap (finish_open fl lib loader j) acquires)),
          ap (λ r. r.0.store.loaded) e,
          refl,
          refl,
        )

    -- In any process that a program reaches: if an `open` starts a load and throws, then after any calls
    -- that follow every `open` of the same model, provider and precision throws too, into whatever
    -- embedder, without a load of its own and with the disk, the network, the thread pool and the API
    -- table left as they are. The model stays out of use, with that provider and precision, for the
    -- rest of the process.
    pub open_throws_again :
        (machine : Machine) (requests : List (Request F)) (answers : List (Answer F)) (P : Proc)
        → serve fl lib loader requests (first_process fl lib loader machine) ≡ some (answers, P)
        → (i : ℕ) (R : Proc) → open_model fl lib loader id options i P ≡ some (throws, R)
        → R.world.store.loaded ≡ P.world.store.loaded + 1
        → (later : List (Request F)) (more : List (Answer F)) (S : Proc)
        → serve fl lib loader later R ≡ some (more, S)
        → (j : ℕ)
        → (T : Proc) × (open_model fl lib loader id options j S ≡ some (throws, T))
          × (T.world.store.loaded ≡ S.world.store.loaded)
          × (T.host ≡ S.host)
          × (T.embedders ≡ S.embedders)
    open_throws_again machine requests answers P reached i R thrown started later more S served j =
        let q = reached-Quiet fl lib loader machine requests answers P reached in
        let (r, e, opened) = open_lem fl lib loader P q id options i in
        let same : r ≡ (throws, R) = some_injective (sym e ∙ thrown) in
        elim (opened.poisons (ap (λ (x : Ending × Proc). x.0) same)) [
          | inl unstarted ↦
              let n = ap (λ (x : Ending × Proc). x.1.world.store.loaded) same in
              absurd (omega arith)
          | inr poisoned ↦
              let bad =
                subst (λ (x : Ending × Proc). Poisonous key P.world.next x.1.world) same
                  (opened.quiet.settled.sound.0, poisoned) in
              poisoned_throws S P.world.next j
                (serve-IsBad fl lib loader key P.world.next later R (more, S) served bad).1
        ]
