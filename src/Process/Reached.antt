-- ===== src/Process/Reached.antt =====
-- src/embed.cpp, `open` in any process that a program reaches.
use cyborgdb_embed.Prelude.{
  ℕ, suc, ◌+◌, ◌≡◌, refl, sym, ap, subst, ◌∙◌, ◌⊎◌, inl, inr, true, false, List, Option, some,
  write, write_hit, arith,
}
use cyborgdb_embed.Status.{success, Ending, ends, ended_well}
use cyborgdb_embed.Float.{Float}
use cyborgdb_embed.Registry.{ModelId, ModelInfo, RegistryEntry, precision_available}
use cyborgdb_embed.Registry.Lookup.{info}
use cyborgdb_embed.Registry.Table.{registry_version, all_mini_lm_l6_v2_entry}
use cyborgdb_embed.Registry.Lookup.Entries.{find_every}
use cyborgdb_embed.Resolve.Download.{Machine}
use cyborgdb_embed.Session.Loader.{Loader}
use cyborgdb_embed.Tokenizer.Shim.{Library}
use cyborgdb_embed.Session.{Session}
use cyborgdb_embed.Session.Load.{no_precision}
use cyborgdb_embed.Embedder.{Embedder, valid, dimension, identity}
use cyborgdb_embed.Store.{Key, reuse, begin_acquire}
use cyborgdb_embed.Store.World.{is_live}
use cyborgdb_embed.Store.Changes.{some_injective}
use cyborgdb_embed.Store.Sessions.{begin_reuses}
use cyborgdb_embed.Process.{
  Options, key_of, Impl, Process, open_model, acquire, continue, finish_open, assign, embedder,
}
use cyborgdb_embed.Process.Api.{Request, Answer, serve, first_process}
use cyborgdb_embed.Process.Quiet.{Fits, Quiet}
use cyborgdb_embed.Process.Taken.{reused, reuse_returns}
use cyborgdb_embed.Process.Open.{IsOpened, Holds, open_lem}
use cyborgdb_embed.Process.Release.{release-Kept, assign_session}
use cyborgdb_embed.Process.Serve.{reached-Quiet}

module _ (fl : Float) (lib : Library) (loader : Loader fl lib) where
  open fl use {F}

  abbrev Proc : Type 0
  Proc = Process fl lib loader

  abbrev IsQuiet : Proc → Type 0
  IsQuiet P = Quiet fl lib loader P

  -- While an embedder holds on to a session, `open` shares it.
  again :
      (id : ModelId) (options : Options) (i : ℕ) (R : Proc) (j : ℕ)
      → IsQuiet R
      → Holds fl lib loader R i
          (record { model = id; provider = options.provider; precision = options.precision })
      → (S : Proc) × (open_model fl lib loader id options j R ≡ some (ends success, S))
        × (S.host ≡ R.host)
        × (S.world.store.loaded ≡ R.world.store.loaded)
        × (S.world.store.shared ≡ R.world.store.shared + 1)
        × ((embedder fl lib loader S j).session ≡ (embedder fl lib loader R i).session)
  unfolding open_model acquire finish_open assign
  again id options i R j q h =
      let (entry, found, its_id, _, _, _, _) =
        find_every id all_mini_lm_l6_v2_entry all_mini_lm_l6_v2_entry.info in
      let f = h.flight in
      let same : f.key ≡ key_of entry options =
        h.same_key
        ∙ ap (λ m. record { model = m; provider = options.provider; precision = options.precision })
            (sym its_id) in
      let store = record R.world.store { shared = R.world.store.shared + 1 } in
      let begins =
        subst
          (λ k.
            begin_acquire (is_live R.world.flights) k R.world.next R.world.store
            ≡ (store, reuse h.load))
          same
          (begin_reuses R.world q.settled.sound.0 h.load f h.here
            (q.settled.calm h.load f h.here).idle (omega (arith, h.held))) in
      let A = reused fl lib loader R q entry options store h.load f in
      let acquires : acquire fl lib loader entry options R ≡ some (ends success, some h.load, A) =
        ap (continue fl lib loader entry options R) begins
        ∙ reuse_returns fl lib loader R q entry options store h.load f h.here in
      let n = A.next_impl in
      let A' = record A {
        impls = write A.impls n (record { session = h.load; owners = 1 });
        next_impl = suc n;
      } in
      let hit =
        ap (λ (x : Impl). x.session)
          (write_hit A.impls n (record { session = h.load; owners = 1 })) in
      let kept =
        release-Kept fl lib loader (A'.embedders j)
          (record A' { embedders = write A'.embedders j (some n) }) in
      let S = assign fl lib loader j (some n) A' in
      let shares : open_model fl lib loader id options j R ≡ some (ends success, S) =
        rw (open_model, found) (ap (finish_open fl lib loader j) acquires) in
      let (r, e, opened) = open_lem fl lib loader R q id options j in
      let quiet =
        subst (λ (x : Ending × Proc). IsQuiet x.1) (some_injective (sym e ∙ shares)) opened.quiet in
      (
        S,
        shares,
        kept.same_host,
        ap (λ s. s.loaded) kept.same_store,
        ap (λ s. s.shared) kept.same_store,
        assign_session fl lib loader j n A' quiet ∙ ap R.sessions hit ∙ sym h.same_session,
      )

  module _ (machine : Machine) (requests : List (Request F)) (answers : List (Answer F)) (P : Proc)
      (reached : serve fl lib loader requests (first_process fl lib loader machine)
        ≡ some (answers, P)) where
    is_quiet : IsQuiet P
    is_quiet = reached-Quiet fl lib loader machine requests answers P reached

    module _ (id : ModelId) (options : Options) (i : ℕ) where
      abbrev key : Key
      key = record { model = id; provider = options.provider; precision = options.precision }

      -- What the embedder reports of itself after a success.
      abbrev IsOf : Embedder fl lib → Type 0
      IsOf e =
          (valid fl lib e ≡ true)
          × (dimension fl lib e ≡ (info id).dimension)
          × (identity fl lib e ≡ record {
            model = (info id).name;
            revision = (info id).revision;
            version = registry_version;
            provider = options.provider;
            precision = options.precision;
          })

      session-IsOf :
          (e : Embedder fl lib) (s : Session fl lib)
          → e.session ≡ some s
          → Fits fl lib key s
          → IsOf e
      unfolding valid dimension identity
      session-IsOf e s there fits =
          let (entry, found, _, _, same_info, _, _) =
            find_every id all_mini_lm_l6_v2_entry all_mini_lm_l6_v2_entry.info in
          let it : info id ≡ s.entry.info =
            same_info
            ∙ ap (λ (x : RegistryEntry). x.info) (some_injective (sym found ∙ fits.same_entry)) in
          subst (λ (o : Option (Session fl lib)). IsOf (record { session = o })) (sym there)
            (
              refl,
              ap (λ (x : ModelInfo). x.dimension) (sym it),
              λ k. record {
                model = (sym it k).name;
                revision = (sym it k).revision;
                version = registry_version;
                provider = fits.same_provider k;
                precision = fits.same_precision k;
              },
            )

      -- In any process that a program reaches, also after loads that threw, `open` of a model comes to
      -- an end. Either it returns success, and the embedder is valid, with the registry's dimension for
      -- the model and the identity of the model, its pinned revision, the registry's version, and the
      -- provider and precision that were asked for; or it returns a failure or throws, and every
      -- embedder is what it was, down to the session that it reads.
      pub open_answers :
          (r : Ending × Proc) × (open_model fl lib loader id options i P ≡ some r)
          × ((r.0 ≡ ends success) × IsOf (embedder fl lib loader r.1 i)
              ⊎ (ended_well r.0 ≡ false)
                × ((j : ℕ) → embedder fl lib loader r.1 j ≡ embedder fl lib loader P j))
      unfolding IsOpened
      open_answers =
          let (r, e, opened) = open_lem fl lib loader P is_quiet id options i in
          (
            r,
            e,
            elim opened.result [
              | inr (bad, _, _, same) ↦ inr (bad, same)
              | inl (fine, s, there, fits) ↦
                  inl (fine, session-IsOf (embedder fl lib loader r.1 i) s there fits)
            ],
          )

      -- In any process that a program reaches, `open` with a precision that is not available for the
      -- model is refused with PrecisionUnavailable: the disk, the network, the thread pool and the
      -- API table are not touched, and every embedder is what it was.
      pub open_refuses :
          precision_available id options.precision ≡ false
          → (r : Ending × Proc) × (open_model fl lib loader id options i P ≡ some r)
            × (r.0 ≡ ends no_precision)
            × (r.1.host ≡ P.host)
            × (r.1.embedders ≡ P.embedders)
            × ((j : ℕ) → embedder fl lib loader r.1 j ≡ embedder fl lib loader P j)
      open_refuses lacking =
          let (r, e, opened) = open_lem fl lib loader P is_quiet id options i in
          let (status, host, (_, same, _, all)) = opened.refuses lacking in
          (r, e, status, host, same, all)

      -- In any process that a program reaches: where an `open` succeeds, and an `open` of the same
      -- model, provider and precision follows, into the same embedder or another, the second is a
      -- success with the same session: it loads nothing, leaves the disk, the network, the thread
      -- pool and the API table as they are, and counts as shared.
      pub reopen_shares :
          (R : Proc) (j : ℕ)
          → open_model fl lib loader id options i P ≡ some (ends success, R)
          → (S : Proc) × (open_model fl lib loader id options j R ≡ some (ends success, S))
            × (S.host ≡ R.host)
            × (S.world.store.loaded ≡ R.world.store.loaded)
            × (S.world.store.shared ≡ R.world.store.shared + 1)
            × ((embedder fl lib loader S j).session ≡ (embedder fl lib loader R i).session)
      unfolding open_model acquire finish_open assign
      reopen_shares R j opened_first =
          let (r, e, opened) = open_lem fl lib loader P is_quiet id options i in
          let same : r ≡ (ends success, R) = some_injective (sym e ∙ opened_first) in
          let q = subst (λ (x : Ending × Proc). IsQuiet x.1) same opened.quiet in
          let h =
            subst (λ (x : Ending × Proc). Holds fl lib loader x.1 i key) same
              (opened.holds (ap (λ (x : Ending × Proc). ended_well x.0) same)) in
          again id options i R j q h
