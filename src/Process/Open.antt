-- ===== src/Process/Open.antt =====
-- src/embed.cpp, `open`: what it leaves behind.
use cyborgdb_embed.Prelude.{
  ℕ, suc, ◌<◌, ◌≡◌, refl, sym, ap, subst, ◌∙◌, ◌⊎◌, inl, inr, true, false, Option, none, some,
  write, write_hit,
}
use cyborgdb_embed.Status.{success, Ending, ends, throws, ended_well}
use cyborgdb_embed.Store.Poisoned.{IsPoisoned}
use cyborgdb_embed.Process.Taken.{ends_throws}
use cyborgdb_embed.Float.{Float}
use cyborgdb_embed.Registry.{ModelId, precision_available}
use cyborgdb_embed.Registry.Lookup.{find}
use cyborgdb_embed.Registry.Table.{all_mini_lm_l6_v2_entry}
use cyborgdb_embed.Registry.Lookup.Entries.{find_every}
use cyborgdb_embed.Session.Loader.{Loader}
use cyborgdb_embed.Tokenizer.Shim.{Library}
use cyborgdb_embed.Session.{Session}
use cyborgdb_embed.Session.Load.{no_precision}
use cyborgdb_embed.Store.{Key}
use cyborgdb_embed.Store.World.{Flight, made}
use cyborgdb_embed.Store.Changes.{true-false, some_injective}
use cyborgdb_embed.Process.{
  Options, key_of, Process, Impl, assign, finish_open, open_model, embedder,
}
use cyborgdb_embed.Process.Counts.Changes.{new-Counted}
use cyborgdb_embed.Process.Quiet.{Fits, Quiet}
use cyborgdb_embed.Process.Acquire.{acquire_lem}
use cyborgdb_embed.Process.Taken.{Got, Taken}
use cyborgdb_embed.Process.Release.{assign-Quiet, assign_session, assigned_held, assign_kept}
use cyborgdb_embed.Process.Counts.{handles_of, handles_found, handles_gone}
use cyborgdb_embed.Process.Keys.{session_key, Fits-key}
use cyborgdb_embed.Store.Sessions.{is_made}
use cyborgdb_embed.Prelude.{Option-cases, arith}

module _ (fl : Float) (lib : Library) (loader : Loader fl lib) where
  abbrev Proc : Type 0
  Proc = Process fl lib loader

  abbrev IsQuiet : Proc → Type 0
  IsQuiet P = Quiet fl lib loader P

  -- The embedder is of the session that was asked for.
  unfoldable pub IsOpened : Proc → ℕ → Key → Ending → Type 0
  unfolding embedder
  IsOpened R i key ending =
      (ending ≡ ends success)
      × (s : Session fl lib) × ((embedder fl lib loader R i).session ≡ some s)
      × Fits fl lib key s

  -- The embedders are what they were.
  abbrev pub IsRefused : Proc → Proc → Ending → Type 0
  IsRefused P R ending =
      (ended_well ending ≡ false)
      × (R.embedders ≡ P.embedders)
      × (R.impls ≡ P.impls)
      × ((j : ℕ) → embedder fl lib loader R j ≡ embedder fl lib loader P j)

  -- An embedder depends on its variable, its `Impl` and the sessions alone.
  embedder_same :
      (P R : Proc)
      → R.embedders ≡ P.embedders
      → R.impls ≡ P.impls
      → ((j : ℕ) → R.sessions j ≡ P.sessions j)
      → (j : ℕ) → embedder fl lib loader R j ≡ embedder fl lib loader P j
  unfolding embedder
  embedder_same P R variables impls sessions j = λ k.
      embedder fl lib loader
        (record P { embedders = variables k; impls = impls k; sessions = λ p. sessions p k }) j

  -- The embedder holds on to a session that the store would share.
  pub record Holds (R : Proc) (i : ℕ) (key : Key) : Type 0 where
    pub load : ℕ
    pub flight : Flight
    pub here : R.world.flights load ≡ some flight
    pub same_key : flight.key ≡ key
    pub is_made : flight.stage ≡ made
    pub held : 0 < flight.handles
    pub same_session : (embedder fl lib loader R i).session ≡ R.sessions load

  pub record Opens (P : Proc) (i : ℕ) (key : Key) (r : Ending × Proc) : Type 0 where
    pub quiet : IsQuiet r.1
    pub result : IsOpened r.1 i key r.0 ⊎ IsRefused P r.1 r.0
    pub refuses :
        precision_available key.model key.precision ≡ false
        → (r.0 ≡ ends no_precision) × (r.1.host ≡ P.host) × IsRefused P r.1 r.0
    pub poisons :
        r.0 ≡ throws
        → (r.1.world.store.loaded ≡ P.world.store.loaded) ⊎ IsPoisoned key P.world.next r.1.world
    pub holds : ended_well r.0 ≡ true → Holds r.1 i key

  -- The variable that took an `Impl` of a session for the key holds on to that session.
  held_by :
      (R : Proc) (i n p : ℕ) (key : Key) (s : Session fl lib)
      → IsQuiet (assign fl lib loader i (some n) R)
      → (R.impls n).session ≡ p
      → R.sessions p ≡ some s
      → Fits fl lib key s
      → Holds (assign fl lib loader i (some n) R) i key
  held_by R i n p key s quiet hit found fits =
      let S = assign fl lib loader i (some n) R in
      let held : 0 < handles_of S.world.flights p =
        subst (λ x. 0 < handles_of S.world.flights x) hit
          (assigned_held fl lib loader i n R quiet) in
      let same : S.sessions p ≡ R.sessions p = assign_kept fl lib loader i n R p held in
      elim (Option-cases (S.world.flights p)) [
        | inl gone ↦ let z = handles_gone S.world.flights p gone in absurd (omega arith)
        | inr (f, here) ↦
            let count = handles_found S.world.flights p f here in
            let calm = quiet.settled.calm p f here in
            let is = is_made S.world quiet.settled.sound.0 p f here calm.idle (omega arith) in
            let (t, there, its_fits) = calm.kept is (omega arith) in
            let one : s ≡ t = some_injective (sym found ∙ sym same ∙ there) in
            record {
              load = p;
              flight = f;
              here = here;
              same_key =
                  sym (Fits-key fl lib f.key t its_fits)
                  ∙ ap (session_key fl lib) (sym one)
                  ∙ Fits-key fl lib key s fits;
              is_made = is;
              held = omega arith;
              same_session =
                  assign_session fl lib loader i n R quiet ∙ ap R.sessions hit ∙ sym same;
            }
      ]

  finish-Opens :
      (P : Proc) (i : ℕ) (key : Key) (r : Ending × Option ℕ × Proc)
      → Taken fl lib loader P key r
      → (s : Ending × Proc) × (finish_open fl lib loader i (some r) ≡ some s) × Opens P i key s
  unfolding finish_open Got IsOpened
  finish-Opens P i key (ending, none, R) t = (
    (ending, R),
    refl,
    record {
      quiet = record { settled = t.settled; counted = t.counted };
      result = inr refused;
      refuses = λ lacking. let (s, h) = t.refuses lacking in (s, h, refused);
      poisons = t.poisons;
      holds = λ fine. absurd (true-false (sym fine ∙ t.got));
    },
  )
    where
      refused : IsRefused P R ending
      refused = (
        t.got,
        t.same_embedders,
        t.same_impls,
        embedder_same P R t.same_embedders t.same_impls (t.same_sessions t.got),
      )
  finish-Opens P i key (ending, some p, R) t =
      let (fine, f, here, same, is, held) = t.got in
      let (s, found, fits) = (t.settled.calm p f here).kept is held in
      let n = R.next_impl in
      let R' = record R {
        impls = write R.impls n (record { session = p; owners = 1 });
        next_impl = suc n;
      } in
      let quiet : IsQuiet (assign fl lib loader i (some n) R') =
        assign-Quiet fl lib loader i (some n) R'
          (record { sound = t.settled.sound; calm = t.settled.calm; freed = t.settled.freed })
          (new-Counted p t.counted) in
      let hit =
        ap (λ (x : Impl). x.session) (write_hit R.impls n (record { session = p; owners = 1 })) in
      (
        (ending, assign fl lib loader i (some n) R'),
        refl,
        record {
          quiet = quiet;
          result = inl (
            fine,
            s,
            assign_session fl lib loader i n R' quiet ∙ ap R.sessions hit ∙ found,
            subst (λ k. Fits fl lib k s) same fits,
          );
          poisons = λ e. absurd (ends_throws (sym fine ∙ e));
          refuses = λ lacking. absurd (refused_success (sym fine ∙ (t.refuses lacking).0));
          holds =
              λ _. held_by R' i n p key s quiet hit found (subst (λ k. Fits fl lib k s) same fits);
        },
      )
    where
      refused_success : ends success ≡ ends no_precision → ⊥
      refused_success e = true-false (ap ended_well e)

  -- `open` comes to an end, from a process between two calls.
  pub open_lem :
      (P : Proc)
      → IsQuiet P
      → (id : ModelId) (options : Options) (i : ℕ)
      → (r : Ending × Proc) × (open_model fl lib loader id options i P ≡ some r)
        × Opens P i
            (record { model = id; provider = options.provider; precision = options.precision })
            r
  unfolding open_model
  open_lem P q id options i =
      let (entry, found, its_id, _, _, _, _) =
        find_every id all_mini_lm_l6_v2_entry all_mini_lm_l6_v2_entry.info in
      let (r, e, taken) = acquire_lem fl lib loader P q entry options (ap find its_id ∙ found) in
      let (s, e', opens) = finish-Opens P i (key_of entry options) r taken in
      (
        s,
        (rw (open_model, found) (ap (finish_open fl lib loader i) e ∙ e')),
        subst
            (λ m.
              Opens P i
                (record { model = m; provider = options.provider; precision = options.precision })
                s)
            its_id opens,
      )
